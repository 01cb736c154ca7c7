-- ===== src/Backend/Answers/Fit.antt =====
-- backend/managers/search.go: the text of an answer.
use fine_rag_core.Prelude.{
  ◌≤◌, ◌≡◌, refl, Bool, true, false, [], ◌∷◌, ◌++◌, inl, inr, not, is_empty, leb, if◌then◌else◌,
  Bool-cases, arith,
}
use fine_rag_core.Text.Bytes.{take_bytes}
use fine_rag_core.Text.Lengths.{byte_len-append, byte_len-take_bytes_le}
use fine_rag_core.Backend.Noise.{has_readable_signal}
use fine_rag_core.Text.{Text, txt, trim_space, byte_len, width}
use fine_rag_core.Result.{Err, ok, ◌>>◌, reject_if, Ensures, bind-Ensures}
use fine_rag_core.Backend.Snippets.{single_spaced}
use fine_rag_core.Backend.Answers.{sanitized_answer, truncate_for_debug_log}

-- An answer that is fit to be shown: it has text, of 1200 bytes and three points at most.
pub record IsFit (answer : Text) : Type 0 where
  pub present : is_empty answer ≡ false
  pub short : byte_len answer ≤ 1203

cut-IsFit :
    (value : Text)
    → is_empty value ≡ false
    → IsFit (if leb (byte_len value) 1200 then value else take_bytes 1200 value ++ txt "...")
cut-IsFit value h = elim (Bool-cases (leb (byte_len value) 1200)) [
  | inl e ↦ rw e (record { present = h; short = ground arith })
  | inr e ↦ rw e (record {
    present = append-present (take_bytes 1200 value);
    short = omega (
      arith,
      byte_len-append (take_bytes 1200 value) (txt "..."),
      byte_len-take_bytes_le 1200 value,
      points,
    );
  })
]
  where
    append-present : (t : Text) → is_empty (t ++ txt "...") ≡ false
    append-present [] = unfold txt in refl
    append-present (c ∷ t) = refl

    points : byte_len (txt "...") ≡ 3
    points = unfold txt byte_len width in refl

readable-present : (t : Text) → has_readable_signal t ≡ true → is_empty (trim_space t) ≡ false
unfolding has_readable_signal
readable-present t h = ground arith

readable-IsFit :
    (collapsed : Text) (e : Err) (b : Bool)
    → has_readable_signal collapsed ≡ b
    → Ensures IsFit (reject_if (not b) e >> ok (truncate_for_debug_log collapsed 1200))
unfolding truncate_for_debug_log
readable-IsFit collapsed e false h = tt
readable-IsFit collapsed e true h = cut-IsFit (trim_space collapsed) (readable-present collapsed h)

pub sanitized_answer-IsFit : (generated : Text) → Ensures IsFit (sanitized_answer generated)
unfolding sanitized_answer
sanitized_answer-IsFit generated =
    bind-Ensures IsFit (reject_if (is_empty (trim_space generated)) _) _
      λ _. readable-IsFit (trim_space (single_spaced (trim_space generated))) _ _ refl
