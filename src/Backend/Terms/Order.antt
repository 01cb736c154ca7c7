-- ===== src/Backend/Terms/Order.antt =====
-- backend/util/apiutil/text.go: RankDocumentsByQueryIntent puts documents in order.
use fine_rag_core.Prelude.{
  ℕ, ◌≡◌, ◌≢◌, ◌≤◌, refl, ◌⊎◌, Bool, true, false, List, [], ◌∷◌, is_empty, leb, ltb, ◌==◌, length,
  if◌then◌else◌, Bool-cases, inl, inr, arith,
}
use fine_rag_core.Text.{Text, Unicode}
use fine_rag_core.Sorting.{
  sort_stable, Ordered, IsAsymmetric, sort_stable-Ordered, Rearranged, Rearranged-refl,
  sort_stable-Rearranged, if-Rearranged,
}
use fine_rag_core.Contracts.Retrieval.{Float64, RetrievalDocument}
use fine_rag_core.Backend.Terms.{
  tokenize_search_terms, query_intent_score, more_relevant, rank_documents_by_query_intent,
}

module _ {S : Type 0} (u : Unicode) (cgpa_value : Text → Bool) (f : Float64 S) where
  pub rank-Rearranged :
      (query : Text) (docs : List (RetrievalDocument S))
      → Rearranged (rank_documents_by_query_intent u cgpa_value f query docs) docs
  unfolding rank_documents_by_query_intent
  rank-Rearranged query docs =
      if-Rearranged (leb (length docs) 1) (λ x. x) docs _ docs (Rearranged-refl docs)
        (if-Rearranged (is_empty (tokenize_search_terms u query)) (λ x. x) docs _ docs
          (Rearranged-refl docs) (sort_stable-Rearranged _ docs))

  more_relevant-IsAsymmetric :
      (terms : List Text) → IsAsymmetric f.gt → IsAsymmetric (more_relevant u cgpa_value f terms)
  unfolding more_relevant
  more_relevant-IsAsymmetric terms asym a b h =
      by_score (query_intent_score u cgpa_value terms a) (query_intent_score u cgpa_value terms b) h
    where
      by_score :
          (x y : ℕ)
          → (if x == y then f.gt a.score b.score else ltb y x) ≡ true
          → (if y == x then f.gt b.score a.score else ltb x y) ≡ false
      by_score x y h = ground (arith, asym a.score b.score)

  -- What the order of `a` right before `b` says: `a` matches the terms at least as well, and if they
  -- match equally well, `b` does not have the higher score.
  pub record NotBehind (terms : List Text) (a b : RetrievalDocument S) : Type 0 where
    pub better : query_intent_score u cgpa_value terms b ≤ query_intent_score u cgpa_value terms a
    pub higher :
        query_intent_score u cgpa_value terms b ≡ query_intent_score u cgpa_value terms a
        → f.gt b.score a.score ≡ false

  -- The best first.
  abbrev pub Descending : List Text → List (RetrievalDocument S) → Type 0
  Descending terms [] = Unit
  Descending terms (a ∷ []) = Unit
  Descending terms (a ∷ b ∷ ds) = NotBehind terms a b × Descending terms (b ∷ ds)

  more_relevant-NotBehind :
      (terms : List Text) (a b : RetrievalDocument S)
      → more_relevant u cgpa_value f terms b a ≡ false
      → NotBehind terms a b
  unfolding more_relevant
  more_relevant-NotBehind terms a b h =
      let (better, higher) =
        by_score (query_intent_score u cgpa_value terms b) (query_intent_score u cgpa_value terms a)
          h in
      record { better = better; higher = higher }
    where
      by_score :
          (x y : ℕ)
          → (if x == y then f.gt b.score a.score else ltb y x) ≡ false
          → (x ≤ y) × (x ≡ y → f.gt b.score a.score ≡ false)
      by_score x y h = (ground arith, λ e. ground arith)

  Ordered-Descending :
      (terms : List Text) (docs : List (RetrievalDocument S))
      → Ordered (more_relevant u cgpa_value f terms) docs
      → Descending terms docs
  Ordered-Descending terms [] o = tt
  Ordered-Descending terms (a ∷ []) o = tt
  Ordered-Descending terms (a ∷ b ∷ ds) (h, o) =
      (more_relevant-NotBehind terms a b h, Ordered-Descending terms (b ∷ ds) o)

  few-Descending :
      (terms : List Text) (docs : List (RetrievalDocument S))
      → leb (length docs) 1 ≡ true
      → Descending terms docs
  few-Descending terms [] h = tt
  few-Descending terms (d ∷ []) h = tt
  few-Descending terms (d ∷ e ∷ ds) h = absurd (ground arith)

  -- What the ranking of documents by a query does, if `>` of the scores is asymmetric: it moves the
  -- documents and keeps each of them. If the query has no terms, none is moved; else no document comes
  -- right after one than which it matches the terms better, or equally well with a higher score.
  pub rank-Ordered :
      (query : Text) (docs : List (RetrievalDocument S))
      → IsAsymmetric f.gt
      → let terms = tokenize_search_terms u query in
        let ranked = rank_documents_by_query_intent u cgpa_value f query docs in
        Rearranged ranked docs
        × (((terms ≡ []) × (ranked ≡ docs)) ⊎ ((terms ≢ []) × Descending terms ranked))
  unfolding rank_documents_by_query_intent
  rank-Ordered query docs asym =
      let terms = tokenize_search_terms u query in
      let less = more_relevant u cgpa_value f terms in
      let ordered =
        Ordered-Descending terms (sort_stable less docs)
          (sort_stable-Ordered less (more_relevant-IsAsymmetric terms asym) docs) in
      (
        rank-Rearranged query docs,
        elim (Bool-cases (is_empty terms)) [
          | inl e ↦ inl (nothing terms e, unmoved (leb (length docs) 1) _ e)
          | inr e ↦ inr (
            something terms e,
            elim (Bool-cases (leb (length docs) 1)) [
              | inl few ↦ rw few (few-Descending terms docs few)
              | inr many ↦ rw (many, e) ordered
            ],
          )
        ],
      )
    where
      nothing : (ws : List Text) → is_empty ws ≡ true → ws ≡ []
      nothing [] h = refl
      nothing (w ∷ ws) h = cc

      something : (ws : List Text) → is_empty ws ≡ false → ws ≢ []
      something [] h e = cc
      something (w ∷ ws) h e = cc

      unmoved :
          {b : Bool} (few : Bool) (sorted : List (RetrievalDocument S))
          → b ≡ true
          → (if few then docs else if b then docs else sorted) ≡ docs
      unmoved true sorted h = refl
      unmoved false sorted h = rw h refl
