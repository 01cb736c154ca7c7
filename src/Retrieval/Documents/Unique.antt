-- ===== src/Retrieval/Documents/Unique.antt =====
-- internal/services/retrieval/service.go: `searchDocuments` gives no document twice.
use fine_rag_core.Prelude.{
  ◌≡◌, ◌≢◌, Bool, false, List, [], ◌∷◌, ◌++◌, any_of, ◌||◌, All, All-append, Bool-cases, inl, inr,
  arith,
}
use fine_rag_core.Text.{Text, str_eq, str_eq_iff}
use fine_rag_core.Result.{Result, ok, err}
use fine_rag_core.Contracts.Retrieval.{RetrievalQuery, RetrievalDocument}
use fine_rag_core.Retrieval.{Searcher, Service, State}
use fine_rag_core.Retrieval.Documents.{
  add_unseen, collected, ask, collect, expand, search_documents,
}

module _ {S : Type 0} where
  -- No two documents have one id.
  pub Distinct : List (RetrievalDocument S) → Type 0
  Distinct [] = Unit
  Distinct (d ∷ ds) =
      All (λ (e : RetrievalDocument S). e.document_id ≢ d.document_id) ds × Distinct ds

  head-new :
      (e d : RetrievalDocument S) (b : Bool)
      → (str_eq e.document_id d.document_id || b) ≡ false
      → (d.document_id ≢ e.document_id) × (b ≡ false)
  head-new e d b h = ground (arith, str_eq_iff e.document_id d.document_id)

  Distinct-snoc :
      (ds : List (RetrievalDocument S)) (d : RetrievalDocument S)
      → Distinct ds
      → any_of (λ (e : RetrievalDocument S). str_eq e.document_id d.document_id) ds ≡ false
      → Distinct (ds ++ d ∷ [])
  unfolding Distinct
  Distinct-snoc [] d h new = (tt, tt)
  Distinct-snoc (e ∷ ds) d (he, hs) new =
      let (here, there) = head-new e d _ new in
      (
        All-append (λ (x : RetrievalDocument S). x.document_id ≢ e.document_id) ds (d ∷ []) he
            (here, tt),
        Distinct-snoc ds d hs there,
      )

module _ {S E : Type 0} (s : Service S E) where
  add_unseen-Distinct :
      (all ds : List (RetrievalDocument S)) → Distinct all → Distinct (add_unseen s all ds)
  unfolding add_unseen
  add_unseen-Distinct all [] h = h
  add_unseen-Distinct all (d ∷ ds) h =
      elim (Bool-cases
        (any_of (λ (e : RetrievalDocument S). str_eq e.document_id d.document_id) all)) [
          | inl e ↦ rw e (add_unseen-Distinct all ds h)
          | inr e ↦ rw e (add_unseen-Distinct (all ++ d ∷ []) ds (Distinct-snoc all d h e))
        ]

  collected-Distinct :
      (all : List (RetrievalDocument S)) (r : Result (List (RetrievalDocument S)))
      → Distinct all
      → Distinct (collected s all r)
  unfolding collected
  collected-Distinct all (ok ds) h = add_unseen-Distinct all ds h
  collected-Distinct all (err e) h = h

  collect-Distinct :
      (k : Searcher S E) (q : RetrievalQuery) (texts : List Text) (all : List (RetrievalDocument S))
      (st : State)
      → Distinct all
      → Distinct (collect s k q texts all st).0
  unfolding collect
  collect-Distinct k q [] all st h = h
  collect-Distinct k q (text ∷ texts) all st h =
      let (answer, st') = ask s k k.search_by_embedding s.embedder q text st in
      collect-Distinct k q texts _ st' (collected-Distinct all answer h)

  -- The documents of all expanded queries together have distinct ids.
  pub search_documents-Distinct :
      (k : Searcher S E) (q : RetrievalQuery) (st : State)
      → Distinct (search_documents s k q st).0.0
  unfolding search_documents Distinct
  search_documents-Distinct k q st =
      let (expanded, st') = expand s s.query_rewriter q st in
      collect-Distinct k q expanded.expanded_queries [] st' tt
