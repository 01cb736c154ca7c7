-- ===== src/Backend/Snippets.antt =====
-- backend/util/apiutil/text.go: texts made fit for an answer or a prompt.
use fine_rag_core.Prelude.{
  ℕ, ◌+◌, ◌-◌, Bool, not, ◌&&◌, ◌||◌, Option, none, some, List, [], ◌∷◌, ◌++◌, map, length,
  is_empty, keep, ltb, leb, ◌==◌, if◌then◌else◌,
}
use fine_rag_core.Text.{
  Text, txt, trim_space, fields, byte_len, join, has_prefix, contains, width, Unicode, to_lower,
}
use fine_rag_core.Text.Bytes.{take_bytes, drop_bytes}
use fine_rag_core.Backend.Noise.{
  in_text, is_alnum, noisy_sequence, is_likely_noisy_text, has_readable_signal,
}

-- `strings.Join(strings.Fields(s), " ")`
abbrev pub single_spaced : Text → Text
single_spaced s = join (fields s) (b' ' ∷ [])

abbrev pub is_glyph : ℕ → Bool
is_glyph c = is_alnum c || in_text (txt "@._+-#") c

abbrev pub glyphs_of : List Text → Text
glyphs_of [] = []
glyphs_of (t ∷ ts) = keep is_glyph t ++ glyphs_of ts

unfoldable pub compact_spaced_glyph_run : Text → Text
unfolding txt
compact_spaced_glyph_run raw =
    let tokens = fields raw in
    let joined = glyphs_of tokens in
    if ltb (length tokens) 4 then raw else if ltb (byte_len joined) 4 then raw else joined

-- `replace_runs` is `SpacedGlyphRunRegexp.ReplaceAllStringFunc`.
unfoldable pub normalize_extracted_text : ((Text → Text) → Text → Text) → Text → Text
unfolding compact_spaced_glyph_run
normalize_extracted_text replace_runs text =
    let trimmed = trim_space text in
    let replaced = map (λ c. if c == 0xfffd then b' ' else c) trimmed in
    let compacted = replace_runs compact_spaced_glyph_run (single_spaced replaced) in
    if is_empty trimmed then [] else single_spaced compacted

-- A text of one line that is no noise, cut at `limit` bytes.
unfoldable pub sanitized : ℕ → Text → Text
unfolding is_likely_noisy_text take_bytes
sanitized limit raw =
    let trimmed = trim_space raw in
    let text = single_spaced trimmed in
    if is_empty trimmed
    then []
    else if is_likely_noisy_text text
    then []
    else if ltb limit (byte_len text)
    then take_bytes limit text
    else text

unfoldable pub sanitize_answer_chunk : Text → Text
unfolding sanitized
sanitize_answer_chunk raw = sanitized 320 raw

unfoldable pub sanitize_stream_answer : Text → Text
unfolding sanitized
sanitize_stream_answer raw = sanitized 1200 raw

unfoldable pub sanitize_context_chunk : ((Text → Text) → Text → Text) → Text → Text
unfolding normalize_extracted_text take_bytes has_readable_signal noisy_sequence
sanitize_context_chunk replace_runs raw =
    let normalized = normalize_extracted_text replace_runs (trim_space raw) in
    let line = single_spaced normalized in
    let text = if ltb 1800 (byte_len line) then take_bytes 1800 line else line in
    if is_empty normalized
    then []
    else if not (has_readable_signal text)
    then []
    else if noisy_sequence text && leb (length (fields text)) 3
    then []
    else text

abbrev pub first_long : List Text → Text
first_long [] = []
first_long (t ∷ ts) = if leb 4 (byte_len t) then t else first_long ts

unfoldable pub primary_query_signal : Unicode → Text → Text
unfolding txt
primary_query_signal u query =
    let q = to_lower u (trim_space query) in
    if contains q (txt "cgpa")
    then txt "cgpa"
    else if contains q (txt "gpa")
    then txt "gpa"
    else if contains q (txt "education")
    then txt "education"
    else if contains q (txt "qualification")
    then txt "qualification"
    else first_long (fields q)

-- `strings.Index`: the bytes in front of the first occurrence.
unfoldable pub byte_index : Text → Text → Option ℕ
unfolding has_prefix
byte_index [] t = if is_empty t then some 0 else none
byte_index (c ∷ s) t =
    let rest = byte_index s t in
    if has_prefix (c ∷ s) t then some 0 else elim rest [ none ↦ none | some n ↦ some (width c + n) ]

-- `s[start:end]`, which panics where the bounds are out of order or out of range.
unfoldable pub slice : ℕ → ℕ → Text → Option Text
unfolding take_bytes drop_bytes
slice start end s =
    if leb start end && leb end (byte_len s)
    then some (drop_bytes start (take_bytes end s))
    else none

-- `none` is a panic.
unfoldable pub build_answer_snippet : Unicode → Text → Text → Option Text
unfolding sanitize_answer_chunk primary_query_signal byte_index slice
build_answer_snippet u query raw =
    let text = trim_space (single_spaced raw) in
    let needle = primary_query_signal u query in
    let whole = sanitize_answer_chunk text in
    if is_empty text
    then some []
    else if is_empty needle
    then some whole
    else elim (byte_index (to_lower u text) needle) [
      | none ↦ some whole
      | some idx ↦
          let end = idx + byte_len needle + 160 in
          elim (slice (idx - 120) (if ltb (byte_len text) end then byte_len text else end) text) [
            | none ↦ none
            | some window ↦
                let cleaned = sanitize_answer_chunk (trim_space window) in
                if is_empty cleaned then some whole else some cleaned
          ]
    ]

unfoldable pub build_context_part :
    Unicode → ((Text → Text) → Text → Text) → Text → Text → Option Text
unfolding build_answer_snippet sanitize_context_chunk
build_context_part u replace_runs query raw = elim (build_answer_snippet u query raw) [
  | none ↦ none
  | some cleaned ↦
      if is_empty cleaned then some (sanitize_context_chunk replace_runs raw) else some cleaned
]
