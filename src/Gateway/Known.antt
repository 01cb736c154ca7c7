-- ===== src/Gateway/Known.antt =====
-- internal/adapters/gateway: what the rerankers return are candidates of the request.
use fine_rag_core.Prelude.{
  take-All, ℕ, zero, suc, ℤ, pos, negsuc, ◌≡◌, refl, Bool, true, false, Option, none, some, List,
  [], ◌∷◌, ◌⊎◌, inl, inr, All, get_elem?, if◌then◌else◌,
}
use fine_rag_core.Contracts.Retrieval.{
  Float64, RerankCandidate, RerankRequest, top_candidates, take_int,
}
use fine_rag_core.Sorting.{sort_stable-All}
use fine_rag_core.Gateway.{picked, with_score}

module _ {S : Type 0} where
  -- One document: the score may differ.
  pub record Same (c d : RerankCandidate S) : Type 0 where
    pub document_id : c.document_id ≡ d.document_id
    pub candidate_text : c.candidate_text ≡ d.candidate_text

  -- A candidate is one of the list, up to its score.
  abbrev pub Among : List (RerankCandidate S) → RerankCandidate S → Type 0
  Among [] c = ⊥
  Among (d ∷ ds) c = Same c d ⊎ Among ds c

  abbrev pub AllAmong : List (RerankCandidate S) → List (RerankCandidate S) → Type 0
  AllAmong ds cs = All (Among ds) cs

  Among-refl : (cs : List (RerankCandidate S)) → AllAmong cs cs
  Among-refl [] = tt
  Among-refl (c ∷ cs) =
      (inl (record { document_id = refl; candidate_text = refl }), further cs cs (Among-refl cs))
    where
      further :
          (ds xs : List (RerankCandidate S)) → AllAmong ds xs → All (λ x. Same x c ⊎ Among ds x) xs
      further ds [] h = tt
      further ds (x ∷ xs) (h, hs) = (inr h, further ds xs hs)

  at-Among :
      (cs : List (RerankCandidate S)) (i : ℕ) (c : RerankCandidate S) (score : S)
      → get_elem? cs i ≡ some c
      → Among cs (record c { score = score })
  at-Among [] i c score h = cc
  at-Among (d ∷ ds) zero c score h = inl (record { document_id = cc; candidate_text = cc })
  at-Among (d ∷ ds) (suc i) c score h = inr (at-Among ds i c score h)

  pub picked-Among :
      (cs : List (RerankCandidate S)) (rs : List (ℤ × S)) → AllAmong cs (picked cs rs)
  unfolding picked
  picked-Among cs [] = tt
  picked-Among cs ((negsuc i, score) ∷ rs) = picked-Among cs rs
  picked-Among cs ((pos i, score) ∷ rs) = by_elem (get_elem? cs i) refl (picked-Among cs rs)
    where
      by_elem :
          (o : Option (RerankCandidate S))
          → get_elem? cs i ≡ o
          → AllAmong cs (picked cs rs)
          → AllAmong cs (with_score o score (picked cs rs))
      by_elem none h hs = hs
      by_elem (some c) h hs = (at-Among cs i c score h, hs)

  cut-All :
      (P : RerankCandidate S → Type 0) (b : Bool) (n : ℤ) (xs : List (RerankCandidate S))
      → All P xs
      → All P (if b then xs else take_int n xs)
  cut-All P true n xs h = h
  cut-All P false (pos n) xs h = take-All P n xs h
  cut-All P false (negsuc n) xs h = tt

  pub top_candidates-Among :
      (f : Float64 S) (r : RerankRequest S) → AllAmong r.candidates (top_candidates f r)
  unfolding top_candidates
  top_candidates-Among f r =
      cut-All _ _ r.top_n _ (sort_stable-All _ _ r.candidates (Among-refl r.candidates))
