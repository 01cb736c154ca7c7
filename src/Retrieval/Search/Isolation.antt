-- ===== src/Retrieval/Search/Isolation.antt =====
-- internal/services/retrieval/service.go: what `Search` returns, and to whom.
use mathlib.Core.List.{Perm}
use fine_rag_core.Prelude.{
  ◌+◌, ◌≡◌, refl, subst, Bool, true, false, not, Option, none, some, List, [], ◌∷◌, map, keep, take,
  is_empty, All, Bool-cases, inl, inr,
}
use fine_rag_core.Text.{str_eq, str_eq→eq, Unicode}
use fine_rag_core.Result.{Err, Result, ok, err, reject_if, ◌>>◌}
use fine_rag_core.Contracts.Tenant.{Time, RequestMetadata}
use fine_rag_core.Contracts.Retrieval.{
  Float64, RetrievalQuery, StructuredQuery, RetrievalDocument, RetrievalResult,
}
use fine_rag_core.Sorting.{
  Rearranged, Rearranged-refl, Rearranged-trans, sort_stable-Rearranged, if-Rearranged,
}
use fine_rag_core.Retrieval.{Searcher, Reranker, Service, State, next_turn, Ranked, rerank}
use fine_rag_core.Retrieval.Ranking.{
  apply_metadata_intent_ranking-Rearranged, build_citations, citation,
}
use fine_rag_core.Retrieval.Documents.{search_documents}
use fine_rag_core.Retrieval.Documents.Given.{firsts, given_from, search_documents-given}
use fine_rag_core.Retrieval.Documents.Unique.{Distinct, search_documents-Distinct}
use fine_rag_core.Retrieval.Search.{
  owned, arrange, rerank_nonempty, rerank_documents, rerank_present, reordered, to_candidate,
  request_of, metadata_of, result_of, checked, admit_search, search_admitted, search,
}

module _ {S E : Type 0} (f : Float64 S) (u : Unicode) (s : Service S E) where
  reordered-Rearranged :
      (docs : List (RetrievalDocument S)) (r : Ranked S × State)
      → Rearranged (reordered f u s docs r).0.0 docs
  unfolding reordered
  reordered-Rearranged docs ((ranked, none), st) = sort_stable-Rearranged _ docs
  reordered-Rearranged docs ((ranked, some e), st) = Rearranged-refl docs

  rerank_present-Rearranged :
      (k : Option (Reranker S)) (q : RetrievalQuery) (docs : List (RetrievalDocument S))
      (st : State)
      → Rearranged (rerank_present f u s k q docs st).0.0 docs
  unfolding rerank_present
  rerank_present-Rearranged none q docs st = Rearranged-refl docs
  rerank_present-Rearranged (some k) q docs st =
      let candidates = map (to_candidate f u s) (take s.rerank_top_k docs) in
      let r = rerank f s (metadata_of f u s q) (request_of f u s q candidates) st in
      if-Rearranged (is_empty candidates) (λ x. x.0.0) ((docs, none), st) (reordered f u s docs r)
        docs (Rearranged-refl docs) (reordered-Rearranged docs r)

  rerank_nonempty-Rearranged :
      (q : RetrievalQuery) (docs : List (RetrievalDocument S)) (st : State)
      → Rearranged (rerank_nonempty f u s q docs st).0.0 docs
  unfolding rerank_nonempty rerank_documents
  rerank_nonempty-Rearranged q docs st =
      if-Rearranged (is_empty docs) (λ x. x.0.0) ((docs, none), st)
        (rerank_documents f u s q docs st) docs (Rearranged-refl docs)
        (rerank_present-Rearranged s.reranker q docs st)

  pub arrange-Rearranged :
      (q : RetrievalQuery) (found : List (RetrievalDocument S)) (x : StructuredQuery) (st : State)
      → Rearranged (arrange f u s q (found, x) st).0.0 (keep (owned f u s q) found)
  unfolding arrange
  arrange-Rearranged q found x st =
      Rearranged-trans _ _ _ (rerank_nonempty-Rearranged q _ st)
        (apply_metadata_intent_ranking-Rearranged u f _ _)

  -- The documents of the store for a query.
  unfoldable pub found_by : Searcher S E → RetrievalQuery → State → List (RetrievalDocument S)
  found_by k q st = (search_documents s k q (next_turn st)).0.0

  -- What is true of a result.
  pub record Isolated (m : RequestMetadata) (q : RetrievalQuery) (st : State)
      (r : RetrievalResult S) : Type 1 where
    pub store : Searcher S E
    pub served : s.searcher ≡ some store
    pub asked : m.tenant_id ≡ q.tenant_id
    pub tenant : r.tenant_id ≡ q.tenant_id
    pub own : All (λ (d : RetrievalDocument S). d.tenant_id ≡ q.tenant_id) r.documents
    pub kept : Perm r.documents (keep (owned f u s q) (firsts (given_from q store s (st.turn + 1))))
    pub distinct : Distinct (firsts (given_from q store s (st.turn + 1)))
    pub cited : r.citations ≡ map citation r.documents

  pub kept_own :
      (q : RetrievalQuery) (found : List (RetrievalDocument S))
      → All (λ (d : RetrievalDocument S). d.tenant_id ≡ q.tenant_id) (keep (owned f u s q) found)
  kept_own q [] = tt
  kept_own q (d ∷ ds) = elim (Bool-cases (owned f u s q d)) [
    | inl e ↦ rw e (str_eq→eq d.tenant_id q.tenant_id e, kept_own q ds)
    | inr e ↦ rw e (kept_own q ds)
  ]

  admit_search-ok :
      (m : RequestMetadata) (q : RetrievalQuery) (k : Searcher S E)
      → admit_search f u s m q ≡ ok k
      → (s.searcher ≡ some k) × (m.tenant_id ≡ q.tenant_id)
  unfolding admit_search
  admit_search-ok m q k h =
      let (present, same) = inverted _ _ (str_eq m.tenant_id q.tenant_id) _ s.searcher _ h in
      (present, str_eq→eq _ _ same)
    where
      inverted :
          (a b : Result (Unit {0})) (c : Bool) (e : Err) (o : Option (Searcher S E)) (missing : Err)
          → (a >> (b >> (reject_if (not c) e >> elim o [ none ↦ err missing | some k ↦ ok k ])))
            ≡ ok k
          → (o ≡ some k) × (c ≡ true)
      inverted (err x) b c e o missing h = cc
      inverted (ok _) (err x) c e o missing h = cc
      inverted (ok _) (ok _) false e o missing h = cc
      inverted (ok _) (ok _) true e none missing h = cc
      inverted (ok _) (ok _) true e (some k') missing h = (cc, refl)

  checked-ok : (r r' : RetrievalResult S) → checked f u s r ≡ ok r' → r ≡ r'
  unfolding checked
  checked-ok r r' h = inverted _ h
    where
      inverted : (v : Result (Unit {0})) → (v >> ok r) ≡ ok r' → r ≡ r'
      inverted (ok _) h = cc
      inverted (err e) h = cc

  result_of-Isolated :
      (m : RequestMetadata) (q : RetrievalQuery) (st : State) (k : Searcher S E) (start : Time)
      → s.searcher ≡ some k
      → m.tenant_id ≡ q.tenant_id
      → let (found, st') = search_documents s k q (next_turn st) in
        Isolated m q st (result_of f u s k q start (arrange f u s q found st'))
  unfolding result_of found_by build_citations
  result_of-Isolated m q st k start served asked =
      let (found, st') = search_documents s k q (next_turn st) in
      let moved = arrange-Rearranged q found.0 found.1 st' in
      record {
        store = k;
        served = served;
        asked = asked;
        tenant = refl;
        own = moved.all _ (kept_own q found.0);
        kept =
            subst (λ l. Perm (arrange f u s q found st').0.0 (keep (owned f u s q) l))
              (search_documents-given s k q (next_turn st)) moved.perm;
        distinct =
            subst Distinct (search_documents-given s k q (next_turn st))
              (search_documents-Distinct s k q (next_turn st));
        cited = refl;
      }

  admitted-Isolated :
      (m : RequestMetadata) (q : RetrievalQuery) (st : State) (a : Result (Searcher S E))
      (r : RetrievalResult S)
      → admit_search f u s m q ≡ a
      → (search_admitted f u s a q (s.clock st.turn) (next_turn st)).0 ≡ ok r
      → Isolated m q st r
  unfolding search_admitted
  admitted-Isolated m q st (err e) r admitted h = cc
  admitted-Isolated m q st (ok k) r admitted h =
      let (served, asked) = admit_search-ok m q k admitted in
      subst (Isolated m q st) (checked-ok _ r h)
        (result_of-Isolated m q st k (s.clock st.turn) served asked)

  -- A result of `Search` is of the tenant that asked, whatever the vector store, the rewriter, the
  -- embedder and the reranker answer: every document is of that tenant. The documents are, in some
  -- order, those of the tenant among what the store gives: of each id the first document that it gives
  -- for any of the texts of the rewriter (or for the query's text where there is no rewriter or it
  -- fails). Where there is an embedder and the store searches by vectors, it is asked for the vector of
  -- a text, and a text that is not embedded as one vector gives nothing; else it is asked for the text.
  -- A search that fails gives nothing. Each of these documents is there once, and none besides; so a
  -- document of another tenant that comes first hides one of the tenant's with the same id. The
  -- citations are those of the documents, in their order.
  pub search-Isolated :
      (m : RequestMetadata) (q : RetrievalQuery) (st : State) (r : RetrievalResult S)
      → (search f u s m q st).0 ≡ ok r
      → Isolated m q st r
  unfolding search
  search-Isolated m q st r h = admitted-Isolated m q st (admit_search f u s m q) r refl h
