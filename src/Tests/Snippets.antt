-- ===== src/Tests/Snippets.antt =====
-- Texts of backend/util/apiutil/text.go, and the label of internal/middleware/tenant_context.go, at
-- concrete inputs.
use fine_rag_core.Prelude.{ℕ, zero, suc, ◌≡◌, refl, ◌==◌, true, false, none, ◌∷◌, if◌then◌else◌}
use fine_rag_core.Text
use fine_rag_core.Text.Bytes
use fine_rag_core.Text.{Text, txt, Unicode}
use fine_rag_core.Middleware.Label
use fine_rag_core.Middleware.Label.{tenant_label}
use fine_rag_core.Backend.Snippets
use fine_rag_core.Backend.Snippets.{build_answer_snippet, primary_query_signal, slice}

-- FNV-1a of the byte `a` is e40c292c.
label_of_a : tenant_label (txt "a") ≡ txt "tenant_e40c292c"
unfolding tenant_label txt Label.fnv32a_from Bytes.bytes_of Bytes.symbol_bytes
label_of_a = refl

-- U+023A has two bytes, and its lower case U+2C65 three.
abbrev latin : Unicode
latin = record {
  lower = λ c. if c == 0x23a then 0x2c65 else c;
  is_letter = λ c. true;
  is_digit = λ c. false;
}

abbrev repeated : ℕ → Text → Text
repeated zero s = s
repeated (suc n) s = 0x23a ∷ repeated n s

-- The place of the signal is one of the text in lower case, which is longer than the text: the
-- window begins behind its end.
snippet_panics : build_answer_snippet latin (txt "cgpa") (repeated 150 (txt " cgpa")) ≡ none
unfolding build_answer_snippet txt primary_query_signal slice Snippets.byte_index
    Snippets.sanitize_answer_chunk Text.trim_space Text.trim_right Text.trim_left Text.is_space
    Text.fields Text.fields_from Text.join Text.to_lower Text.lower_rune Text.has_prefix
    Text.contains Text.byte_len Text.width
snippet_panics = refl
