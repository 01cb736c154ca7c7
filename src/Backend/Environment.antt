-- ===== src/Backend/Environment.antt =====
-- backend/util/apiutil/util.go: values from the environment and lists separated by commas.
use fine_rag_core.Prelude.{Bool, true, false, List, [], ◌∷◌, ◌++◌, any_of, is_empty, if◌then◌else◌}
use fine_rag_core.Text.{Text, txt, str_eq, trim_space, Unicode, to_lower}
use fine_rag_core.Result.{Result, ok, err}
use fine_rag_core.Backend.Tokens.{split_on}

-- `os.Getenv` and `os.ReadFile`
pub record Os : Type 0 where
  pub getenv : Text → Text
  pub read_file : Text → Result Text

module _ (os : Os) where
  abbrev variable : Text → Text
  variable key = trim_space (os.getenv key)

  unfoldable pub env_or : Text → Text → Text
  env_or key fallback = let v = variable key in if is_empty v then fallback else v

  unfoldable pub env_or_secret : Text → Text → Text
  unfolding env_or
  env_or_secret key fallback =
      let path = variable (key ++ txt "_FILE") in
      let from_env = env_or key fallback in
      if is_empty path then from_env else elim (os.read_file path) [
        | err e ↦ from_env
        | ok raw ↦ let value = trim_space raw in if is_empty value then from_env else value
      ]

  unfoldable pub env_or_any : List Text → Text → Text
  env_or_any [] fallback = fallback
  env_or_any (key ∷ keys) fallback =
      let rest = env_or_any keys fallback in
      let value = variable key in if is_empty value then rest else value

  unfoldable pub env_or_secret_any : List Text → Text → Text
  unfolding env_or_secret
  env_or_secret_any [] fallback = fallback
  env_or_secret_any (key ∷ keys) fallback =
      let rest = env_or_secret_any keys fallback in
      let value = trim_space (env_or_secret key []) in if is_empty value then rest else value

  unfoldable pub env_bool_any : Unicode → List Text → Bool → Bool
  unfolding txt str_eq to_lower
  env_bool_any u [] fallback = fallback
  env_bool_any u (key ∷ keys) fallback =
      let rest = env_bool_any u keys fallback in
      let value = variable key in
      let lower = to_lower u value in
      if is_empty value
      then rest
      else if any_of (str_eq lower) (txt "1" ∷ txt "true" ∷ txt "yes" ∷ txt "on" ∷ [])
      then true
      else if any_of (str_eq lower) (txt "0" ∷ txt "false" ∷ txt "no" ∷ txt "off" ∷ [])
      then false
      else rest

abbrev pub non_blank : List Text → List Text
non_blank [] = []
non_blank (p ∷ ps) =
    let rest = non_blank ps in let t = trim_space p in if is_empty t then rest else t ∷ rest

unfoldable pub split_csv : Text → List Text
unfolding split_on
split_csv raw = let (part, parts) = split_on b',' raw in non_blank (part ∷ parts)
