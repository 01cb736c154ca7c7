-- ===== src/Retrieval/Ranking.antt =====
-- internal/services/retrieval/service.go: the terms that identify a document, and the order by them.
use fine_rag_core.Prelude.{
  ℕ, Bool, true, not, ◌&&◌, ◌||◌, List, [], ◌∷◌, ◌++◌, map, keep, any_of, length, is_empty, ltb,
  leb, ◌==◌, if◌then◌else◌,
}
use fine_rag_core.Text.{
  Text, txt, str_eq, is_blank, is_space, fields, byte_len, is_ascii_digit, Unicode, lower_rune,
}
use fine_rag_core.Dict.{lookup, get_or_zero}
use fine_rag_core.Contracts.Retrieval.{Float64, RetrievalDocument}
use fine_rag_core.Sorting.{
  sort_stable, Rearranged, Rearranged-refl, sort_stable-Rearranged, if-Rearranged,
}

abbrev pub mem_text : Text → List Text → Bool
mem_text t ts = any_of (str_eq t) ts

-- Every symbol passes.
all_symbols : (ℕ → Bool) → Text → Bool
all_symbols p [] = true
all_symbols p (c ∷ s) = p c && all_symbols p s

stop_words : List Text
stop_words =
    txt "resume"
    ∷ txt "cv"
    ∷ txt "pdf"
    ∷ txt "skills"
    ∷ txt "skill"
    ∷ txt "top"
    ∷ txt "show"
    ∷ txt "list"
    ∷ txt "what"
    ∷ txt "who"
    ∷ txt "for"
    ∷ txt "of"
    ∷ txt "the"
    ∷ txt "and"
    ∷ txt "with"
    ∷ txt "from"
    ∷ txt "candidate"
    ∷ txt "profile"
    ∷ txt "about"
    ∷ txt "document"
    ∷ txt "documents"
    ∷ []

-- `unicode.IsLetter(r) || unicode.IsDigit(r)`
is_letter_or_digit : Unicode → ℕ → Bool
is_letter_or_digit u c =
    if ltb c 0x80
    then is_ascii_digit c || (leb b'A' c && leb c b'Z') || (leb b'a' c && leb c b'z')
    else u.is_letter c || u.is_digit c

-- `range` reads a byte that is no UTF-8 as U+FFFD, which is neither a letter, a digit nor a space.
term_rune : Unicode → ℕ → ℕ
unfolding is_letter_or_digit
term_rune u c =
    if ltb c 0x110000 && (is_letter_or_digit u c || is_space c) then lower_rune u c else b' '

-- The words that are left out.
unfoldable pub keeps_term : Text → Bool
unfolding stop_words all_symbols
keeps_term word =
    not (mem_text word stop_words) && not (all_symbols is_ascii_digit word || ltb (byte_len word) 3)

unfoldable pub tokenize_identity_terms : Unicode → Text → List Text
unfolding term_rune
tokenize_identity_terms u input =
    if is_blank input then [] else keep keeps_term (fields (map (term_rune u) input))

-- `path.Base`: the slashes at the end are dropped, and then all up to the last slash.
drop_slashes : Text → Text
drop_slashes [] = []
drop_slashes (c ∷ s) =
    let rest = drop_slashes s in if is_empty rest && c == b'/' then [] else c ∷ rest

-- `out` is what follows the last slash so far.
after_slash : Text → Text → Text
after_slash out [] = out
after_slash out (c ∷ s) =
    let restart = after_slash [] s in
    let go_on = after_slash (out ++ c ∷ []) s in if c == b'/' then restart else go_on

unfoldable pub path_base : Text → Text
unfolding drop_slashes after_slash
path_base p =
    let base = after_slash [] (drop_slashes p) in
    if is_empty p then txt "." else if is_empty base then txt "/" else base

-- Every text once, where it comes first. `seen` is the set of those that came before.
unique_from : List Text → List Text → List Text
unique_from seen [] = []
unique_from seen (t ∷ ts) =
    let skip = unique_from seen ts in
    let first = unique_from (t ∷ seen) ts in if mem_text t seen then skip else t ∷ first

hint_keys : List Text
hint_keys =
    txt "person_hint"
    ∷ txt "file_name"
    ∷ txt "relative_path"
    ∷ txt "source_uri"
    ∷ txt "object_key"
    ∷ []

-- The terms of the values under the keys.
terms_under : Unicode → List (Text × Text) → List Text → List Text
terms_under u metadata [] = []
terms_under u metadata (key ∷ keys) =
    let value = get_or_zero [] (lookup key metadata) in
    let rest = terms_under u metadata keys in
    if is_blank value then rest else tokenize_identity_terms u value ++ rest

module _ {S : Type 0} (u : Unicode) where
  unfoldable pub document_identity_terms : RetrievalDocument S → List Text
  unfolding unique_from hint_keys terms_under path_base
  document_identity_terms d =
      let named =
        if is_empty d.source_uri then [] else tokenize_identity_terms u (path_base d.source_uri) in
      unique_from [] (named ++ terms_under u d.metadata hint_keys)

  unfoldable pub count_identity_matches : List Text → RetrievalDocument S → ℕ
  count_identity_matches targeted d =
      length (keep (λ t. mem_text t targeted) (document_identity_terms d))

  known_terms : List (RetrievalDocument S) → List Text
  known_terms [] = []
  known_terms (d ∷ ds) = document_identity_terms d ++ known_terms ds

  -- Whether the first of two documents comes before the second.
  before : Float64 S → List Text → RetrievalDocument S → RetrievalDocument S → Bool
  before f targeted a b =
      let x = count_identity_matches targeted a in
      let y = count_identity_matches targeted b in if x == y then f.gt a.score b.score else ltb y x

  -- The terms of the query that some document has.
  targeted_terms : Text → List (RetrievalDocument S) → List Text
  unfolding known_terms
  targeted_terms query_text docs =
      keep (λ t. mem_text t (known_terms docs)) (tokenize_identity_terms u query_text)

  -- Where there is no query term, none is targeted.
  unfoldable pub apply_metadata_intent_ranking :
      Float64 S → Text → List (RetrievalDocument S) → List (RetrievalDocument S)
  unfolding targeted_terms before
  apply_metadata_intent_ranking f query_text docs =
      let targeted = targeted_terms query_text docs in
      if ltb (length docs) 2 || is_empty targeted
      then docs
      else sort_stable (before f targeted) docs

module _ {S : Type 0} (u : Unicode) where
  -- The order by the terms only moves documents.
  pub apply_metadata_intent_ranking-Rearranged :
      (f : Float64 S) (query_text : Text) (docs : List (RetrievalDocument S))
      → Rearranged (apply_metadata_intent_ranking u f query_text docs) docs
  unfolding apply_metadata_intent_ranking
  apply_metadata_intent_ranking-Rearranged f query_text docs =
      let targeted = targeted_terms u query_text docs in
      if-Rearranged (ltb (length docs) 2 || is_empty targeted) (λ xs. xs) docs _ docs
        (Rearranged-refl docs) (sort_stable-Rearranged (before u f targeted) docs)

unfoldable pub citation : {S : Type 0} → RetrievalDocument S → Text
citation d = if is_empty d.source_uri then txt "doc:" ++ d.document_id else d.source_uri

unfoldable pub build_citations : {S : Type 0} → List (RetrievalDocument S) → List Text
build_citations docs = map citation docs
