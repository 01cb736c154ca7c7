-- ===== src/Backend/Terms.antt =====
-- backend/util/apiutil/text.go: the terms of a query, and the order of documents by them.
pub mod Order
use fine_rag_core.Prelude.{
  ℕ, ◌+◌, Bool, false, ◌&&◌, ◌||◌, List, [], ◌∷◌, ◌++◌, map, length, is_empty, any_of, ltb, leb,
  ◌==◌, if◌then◌else◌,
}
use fine_rag_core.Text.{
  Text, txt, str_eq, trim_space, fields, byte_len, contains, Unicode, to_lower,
}
use fine_rag_core.Sorting.{sort_stable}
use fine_rag_core.Contracts.Job.{Attributes}
use fine_rag_core.Contracts.Retrieval.{Float64, RetrievalDocument}
use fine_rag_core.Backend.Noise.{in_text}

-- Whether some of the values is one of the terms.
unfoldable pub contains_any : List Text → List Text → Bool
unfolding str_eq
contains_any terms values =
    if is_empty terms || is_empty values
    then false
    else any_of (λ v. any_of (str_eq v) terms) values

unfoldable pub is_search_stop_word : Text → Bool
unfolding txt str_eq
is_search_stop_word p = any_of (str_eq p) (
    txt "what"
    ∷ txt "is"
    ∷ txt "the"
    ∷ txt "of"
    ∷ txt "for"
    ∷ txt "and"
    ∷ txt "with"
    ∷ txt "from"
    ∷ txt "about"
    ∷ txt "tell"
    ∷ txt "me"
    ∷ [])

abbrev pub kept_terms : List Text → List Text
kept_terms [] = []
kept_terms (p ∷ ps) =
    let rest = kept_terms ps in
    if is_search_stop_word p then rest else if ltb (byte_len p) 3 then rest else p ∷ rest

unfoldable pub tokenize_search_terms : Unicode → Text → List Text
unfolding is_search_stop_word
tokenize_search_terms u input =
    let value = to_lower u (trim_space input) in
    let replaced = map (λ c. if in_text (txt "?!.,:;()[]{}'\"") c then b' ' else c) value in
    if is_empty value then [] else kept_terms (fields replaced)

-- The entries of a map in the order in which the loop meets them.
abbrev pub metadata_text : Unicode → Attributes → Text
metadata_text u [] = []
metadata_text u ((k, v) ∷ rest) =
    b' ' ∷ (to_lower u k ++ (b' ' ∷ (to_lower u v ++ metadata_text u rest)))

abbrev pub term_score : Text → Text → Text → List Text → ℕ
term_score content metadata source [] = 0
term_score content metadata source (term ∷ terms) =
    (if contains content term
      then 8
      else if contains metadata term
      then 5
      else if contains source term
      then 4
      else 0)
    + term_score content metadata source terms

-- `cgpa_value` is `CGPAValueRegexp.MatchString`.
module _ (u : Unicode) (cgpa_value : Text → Bool) where
  unfoldable pub cgpa_score : List Text → Text → ℕ
  unfolding contains_any txt
  cgpa_score terms content =
      if contains_any terms (txt "cgpa" ∷ txt "gpa" ∷ [])
      then (if contains content (txt "cgpa") || contains content (txt "gpa") then 20 else 0)
        + (if cgpa_value content then 12 else 0)
      else 0

  unfoldable pub education_score : List Text → Text → ℕ
  unfolding contains_any txt
  education_score terms content =
      if contains_any terms (txt "education" ∷ txt "qualification" ∷ txt "degree" ∷ [])
        && (contains content (txt "education")
            || contains content (txt "qualification")
            || contains content (txt "degree"))
      then 10
      else 0

  module _ {S : Type 0} where
    unfoldable pub query_intent_score : List Text → RetrievalDocument S → ℕ
    unfolding cgpa_score education_score
    query_intent_score terms d =
        let content = to_lower u d.content in
        term_score content (metadata_text u d.metadata) (to_lower u d.source_uri) terms
        + cgpa_score terms content
        + education_score terms content

    unfoldable pub more_relevant :
        Float64 S → List Text → RetrievalDocument S → RetrievalDocument S → Bool
    unfolding query_intent_score
    more_relevant f terms a b =
        let left = query_intent_score terms a in
        let right = query_intent_score terms b in
        if left == right then f.gt a.score b.score else ltb right left

    unfoldable pub rank_documents_by_query_intent :
        Float64 S → Text → List (RetrievalDocument S) → List (RetrievalDocument S)
    unfolding more_relevant sort_stable tokenize_search_terms
    rank_documents_by_query_intent f query docs =
        let terms = tokenize_search_terms u query in
        if leb (length docs) 1
        then docs
        else if is_empty terms
        then docs
        else sort_stable (more_relevant f terms) docs
