-- ===== src/Backend/Content.antt =====
-- backend/managers/ingestion.go: the helpers that say what kind of content an object has.
use fine_rag_core.Prelude.{
  ℕ, zero, suc, Bool, true, false, not, ◌&&◌, ◌||◌, Option, none, some, List, [], ◌∷◌, map, take,
  is_empty, any_of, ltb, leb, ◌==◌, if◌then◌else◌,
}
use fine_rag_core.Text.{
  Text, txt, str_eq, trim_space, fields, byte_len, is_ascii_digit, join, has_prefix, contains,
  Unicode, to_lower,
}
use fine_rag_core.Backend.Noise.{is_likely_noisy_text}

-- `strings.HasSuffix`
unfoldable pub has_suffix : Text → Text → Bool
unfolding str_eq
has_suffix [] t = is_empty t
has_suffix (c ∷ s) t = str_eq (c ∷ s) t || has_suffix s t

-- What is behind the last `sep`, where that is not the end: `s[LastIndex(s, sep)+1:]`.
unfoldable pub after_last : ℕ → Text → Option Text
after_last sep [] = none
after_last sep (c ∷ s) = elim (after_last sep s) [
  | some t ↦ some t
  | none ↦ if c == sep then some s else none
]

-- `if i >= 0 && i+1 < len(s) { s = s[i+1:] }`
unfoldable pub last_part : Text → Text
unfolding after_last
last_part s = elim (after_last b'/' s) [ none ↦ s | some t ↦ if is_empty t then s else t ]

-- What is before the last `sep`.
unfoldable pub before_last : ℕ → Text → Option Text
before_last sep [] = none
before_last sep (c ∷ s) = elim (before_last sep s) [
  | some t ↦ some (c ∷ t)
  | none ↦ if c == sep then some [] else none
]

-- `if dot > 0 { base = base[:dot] }`
unfoldable pub without_extension : Text → Text
unfolding before_last
without_extension s = elim (before_last b'.' s) [ none ↦ s | some t ↦ if is_empty t then s else t ]

abbrev pub is_upper_ascii : ℕ → Bool
is_upper_ascii c = leb b'A' c && leb c b'Z'

abbrev pub is_lower_ascii : ℕ → Bool
is_lower_ascii c = leb b'a' c && leb c b'z'

-- The loop of `splitCamelCase`. `WriteRune` writes U+FFFD for a byte that is no part of valid UTF-8.
abbrev pub split_from : Bool → Text → Text
split_from prev_lower [] = []
split_from prev_lower (r ∷ s) =
    let written = if ltb r 0x110000 then r else 0xfffd in
    let rest = written ∷ split_from (is_lower_ascii r) s in
    if is_upper_ascii r && prev_lower then b' ' ∷ rest else rest

unfoldable pub split_camel_case : Text → Text
split_camel_case input = split_from false input

unfoldable pub is_hint_stop_word : Text → Bool
unfolding txt str_eq
is_hint_stop_word word = any_of (str_eq word) (
    txt "resume"
    ∷ txt "cv"
    ∷ txt "profile"
    ∷ txt "final"
    ∷ txt "latest"
    ∷ txt "updated"
    ∷ txt "jan"
    ∷ txt "feb"
    ∷ txt "mar"
    ∷ txt "apr"
    ∷ txt "may"
    ∷ txt "jun"
    ∷ txt "jul"
    ∷ txt "aug"
    ∷ txt "sep"
    ∷ txt "oct"
    ∷ txt "nov"
    ∷ txt "dec"
    ∷ [])

abbrev pub all_digits : Text → Bool
all_digits [] = true
all_digits (c ∷ s) = is_ascii_digit c && all_digits s

-- The loop over the words of a name, of which it takes at most `n` more.
unfoldable pub hint_words : ℕ → List Text → List Text
unfolding is_hint_stop_word
hint_words n [] = []
hint_words zero (w ∷ ws) = []
hint_words (suc n) (w ∷ ws) =
    let skipped = hint_words (suc n) ws in
    let taken = w ∷ hint_words n ws in
    if is_hint_stop_word w || all_digits w || ltb (byte_len w) 3 then skipped else taken

-- The replacer of `inferPersonHint`
abbrev pub separators_to_spaces : Text → Text
separators_to_spaces s = map (λ c. if c == b'_' || c == b'-' || c == b'.' then b' ' else c) s

module _ (u : Unicode) where
  unfoldable pub infer_person_hint : Text → Text
  unfolding last_part without_extension split_camel_case hint_words
  infer_person_hint relative_path =
      let base = trim_space relative_path in
      let name = separators_to_spaces (without_extension (last_part base)) in
      let words = fields (to_lower u (split_camel_case name)) in
      if is_empty base then [] else join (hint_words 2 words) (b' ' ∷ [])

  unfoldable pub is_text_like_content : Text → Text → Bool
  unfolding txt
  is_text_like_content content_type object_key =
      let ct = to_lower u (trim_space content_type) in
      let ext = to_lower u (trim_space object_key) in
      if has_prefix ct (txt "text/")
        || contains ct (txt "json")
        || contains ct (txt "xml")
        || contains ct (txt "yaml")
      then true
      else any_of (has_suffix ext) (
          txt ".txt"
          ∷ txt ".md"
          ∷ txt ".csv"
          ∷ txt ".json"
          ∷ txt ".html"
          ∷ txt ".htm"
          ∷ txt ".xml"
          ∷ txt ".yaml"
          ∷ txt ".yml"
          ∷ [])

  unfoldable pub is_pdf_content : Text → Text → Bool
  unfolding txt
  is_pdf_content content_type object_key =
      if contains (to_lower u (trim_space content_type)) (txt "pdf")
      then true
      else has_suffix (to_lower u (trim_space object_key)) (txt ".pdf")

  unfoldable pub infer_content_type : Text → Text → Text
  unfolding txt
  infer_content_type declared key =
      let ext = to_lower u key in
      if not (is_empty declared)
      then declared
      else if has_suffix ext (txt ".pdf")
      then txt "application/pdf"
      else if has_suffix ext (txt ".docx")
      then txt "application/vnd.openxmlformats-officedocument.wordprocessingml.document"
      else if has_suffix ext (txt ".doc")
      then txt "application/msword"
      else if has_suffix ext (txt ".pptx")
      then txt "application/vnd.openxmlformats-officedocument.presentationml.presentation"
      else if has_suffix ext (txt ".ppt")
      then txt "application/vnd.ms-powerpoint"
      else if has_suffix ext (txt ".png")
      then txt "image/png"
      else if has_suffix ext (txt ".jpg") || has_suffix ext (txt ".jpeg")
      then txt "image/jpeg"
      else if has_suffix ext (txt ".txt")
      then txt "text/plain"
      else if has_suffix ext (txt ".md")
      then txt "text/markdown"
      else txt "application/octet-stream"

  unfoldable pub is_complex_content : Text → Bool
  unfolding txt
  is_complex_content content_type =
      let ct = to_lower u content_type in
      contains ct (txt "word")
      || contains ct (txt "officedocument")
      || contains ct (txt "powerpoint")
      || contains ct (txt "image/")
      || contains ct (txt "pdf")

-- A byte that stays, or a space.
abbrev pub printable_byte : ℕ → ℕ
printable_byte b = if (leb 32 b && leb b 126) || b == 10 || b == 13 || b == 9 then b else b' '

abbrev pub max_text : ℕ
max_text = 12_000

-- The bytes that are left are ASCII, so that a cut at a byte is one at a symbol.
unfoldable pub extract_searchable_text : List ℕ → Text
unfolding is_likely_noisy_text
extract_searchable_text payload =
    let text = join (fields (map printable_byte payload)) (b' ' ∷ []) in
    if is_empty payload
    then []
    else if is_likely_noisy_text text
    then []
    else if ltb max_text (byte_len text)
    then take max_text text
    else text
