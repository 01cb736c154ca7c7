-- ===== src/Backend/Answers/Shown.antt =====
-- backend/managers/search.go: the top vectors show the documents that they are made from.
use fine_rag_core.Prelude.{
  ℕ, ◌+◌, ◌≡◌, refl, subst, Bool, Option, none, some, List, [], ◌∷◌, some-injective,
}
use fine_rag_core.Text.{Text, Unicode}
use fine_rag_core.Contracts.Retrieval.{RetrievalDocument}
use fine_rag_core.Backend.Snippets.{build_answer_snippet}
use fine_rag_core.Backend.Answers.{TopVector, vectors_from, add_vector, top_vector}

module _ {S : Type 0} where
  -- A vector shows a document: its id, source, score and metadata.
  pub record Shows (v : TopVector S) (d : RetrievalDocument S) : Type 0 where
    pub document_id : v.document_id ≡ d.document_id
    pub source_uri : v.source_uri ≡ d.source_uri
    pub score : v.score ≡ d.score
    pub metadata : v.metadata ≡ d.metadata

  -- The vectors show the first documents of a list, numbered from `rank` on.
  abbrev pub ShowsAll :
      Text → Unicode → ℕ → List (TopVector S) → List (RetrievalDocument S) → Type 0
  ShowsAll query u rank [] [] = Unit
  ShowsAll query u rank [] (d ∷ ds) = ⊥
  ShowsAll query u rank (v ∷ vs) [] = ⊥
  ShowsAll query u rank (v ∷ vs) (d ∷ ds) =
      (v.rank ≡ rank)
      × Shows v d
      × (build_answer_snippet u query d.content ≡ some v.snippet)
      × ShowsAll query u (rank + 1) vs ds

  module _ (u : Unicode) (cgpa_value : Text → Bool)
      (replace_runs : (Text → Text) → Text → Text) where
    pub vectors_from-ShowsAll :
        (rank : ℕ) (query : Text) (docs : List (RetrievalDocument S)) (tops : List (TopVector S))
        → vectors_from u cgpa_value replace_runs rank query docs ≡ some tops
        → ShowsAll query u rank tops docs
    unfolding vectors_from add_vector top_vector
    vectors_from-ShowsAll rank query [] [] h = tt
    vectors_from-ShowsAll rank query [] (v ∷ vs) h = cc
    vectors_from-ShowsAll rank query (d ∷ ds) tops h =
        step (build_answer_snippet u query d.content)
          (vectors_from u cgpa_value replace_runs (rank + 1) query ds) tops refl
          (λ vs e. vectors_from-ShowsAll (rank + 1) query ds vs e) h
      where
        step :
            (o : Option Text) (rest : Option (List (TopVector S))) (tops : List (TopVector S))
            → build_answer_snippet u query d.content ≡ o
            → ((vs : List (TopVector S)) → rest ≡ some vs → ShowsAll query u (rank + 1) vs ds)
            → add_vector u cgpa_value replace_runs rank d o rest ≡ some tops
            → ShowsAll query u rank tops (d ∷ ds)
        step none rest tops snippet ih h = cc
        step (some t) none tops snippet ih h = cc
        step (some t) (some vs) tops snippet ih h =
            subst (λ tops. ShowsAll query u rank tops (d ∷ ds)) (some-injective h)
              (
                refl,
                record { document_id = refl; source_uri = refl; score = refl; metadata = refl },
                snippet,
                ih vs refl,
              )
