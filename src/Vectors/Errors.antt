-- ===== src/Vectors/Errors.antt =====
-- internal/adapters/vector/errors.go: the category of an error of the vector store.
use fine_rag_core.Prelude.{Bool, ◌||◌, Option, none, some, if◌then◌else◌}
use fine_rag_core.Text.{Text, txt, contains, Unicode, to_lower}
use fine_rag_core.Result.{Err, message}
use fine_rag_core.Contracts.Audit.{
  ProviderErrorCategory, validation, unavailable, timeout, unauthorized, internal, ProviderError,
}

-- `is_deadline` is `errors.Is(err, context.DeadlineExceeded)`.
module _ (u : Unicode) (is_deadline : Err → Bool) where
  unfoldable pub category_of : Err → ProviderErrorCategory
  unfolding txt
  category_of e =
      let msg = to_lower u (message e) in
      if is_deadline e || contains msg (txt "timeout")
      then timeout
      else if contains msg (txt "unauthorized")
          || contains msg (txt "forbidden")
          || contains msg (txt "auth")
      then unauthorized
      else if contains msg (txt "invalid")
          || contains msg (txt "malformed")
          || contains msg (txt "required")
      then validation
      else if contains msg (txt "unavailable")
          || contains msg (txt "connection refused")
          || contains msg (txt "temporarily")
      then unavailable
      else internal

  unfoldable pub normalize_provider_error : Text → Text → Option Err → Option ProviderError
  unfolding category_of
  normalize_provider_error provider op none = none
  normalize_provider_error provider op (some e) =
      some (record { category = category_of e; provider = provider; op = op; cause = some e })
