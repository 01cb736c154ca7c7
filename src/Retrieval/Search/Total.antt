-- ===== src/Retrieval/Search/Total.antt =====
-- internal/services/retrieval/service.go: `Search` goes on when its collaborators fail.
use fine_rag_core.Prelude.{◌≡◌, refl, Bool, true, false, List, [], ◌∷◌, keep, is_empty, All}
use fine_rag_core.Text.{eq→str_eq, Unicode}
use fine_rag_core.Result.{Err, Result, ok, err, map_err, reject_if, ◌>>◌}
use fine_rag_core.Contracts.Tenant.{Time, TenantId, validate_tenant_id, RequestMetadata}
use fine_rag_core.Contracts.Retrieval.{
  Float64, RetrievalQuery, validate_retrieval_query, RetrievalDocument, RetrievalResult,
  validate_documents, validate_retrieval_result,
}
use fine_rag_core.Retrieval.{Searcher, Service, State, next_turn}
use fine_rag_core.Retrieval.Documents.{search_documents}
use fine_rag_core.Retrieval.Search.{
  owned, arrange, result_of, checked, admit_search, search_admitted, search,
}
use fine_rag_core.Retrieval.Search.Isolation.{arrange-Rearranged, kept_own, found_by}

module _ {S : Type 0} where
  -- It has an identifier.
  abbrev pub Named : RetrievalDocument S → Type 0
  Named d = is_empty d.document_id ≡ false

  validate_documents-ok :
      (t : TenantId) (ds : List (RetrievalDocument S))
      → validate_tenant_id t ≡ ok tt
      → All (λ (d : RetrievalDocument S). d.tenant_id ≡ t) ds
      → All Named ds
      → validate_documents t ds ≡ ok tt
  unfolding validate_documents
  validate_documents-ok t [] valid own named = refl
  validate_documents-ok t (d ∷ ds) valid (same, own) (here, named) =
      rw (here, same, valid, eq→str_eq t t refl, validate_documents-ok t ds valid own named) refl

validate_retrieval_query-ok :
    (q : RetrievalQuery)
    → validate_retrieval_query q ≡ ok tt
    → (validate_tenant_id q.tenant_id ≡ ok tt) × (is_empty q.request_id ≡ false)
unfolding validate_retrieval_query
validate_retrieval_query-ok q h = inverted _ (is_empty q.request_id) _ _ h
  where
    inverted :
        (a : Result (Unit {0})) (b : Bool) (e : Err) (rest : Result (Unit {0}))
        → (a >> (reject_if b e >> rest)) ≡ ok tt
        → (a ≡ ok tt) × (b ≡ false)
    inverted (err x) b e rest h = cc
    inverted (ok _) true e rest h = cc
    inverted (ok _) false e rest h = (refl, refl)

module _ {S E : Type 0} (f : Float64 S) (u : Unicode) (s : Service S E) where
  admit_search-query :
      (m : RequestMetadata) (q : RetrievalQuery) (k : Searcher S E)
      → admit_search f u s m q ≡ ok k
      → validate_retrieval_query q ≡ ok tt
  unfolding admit_search
  admit_search-query m q k h = inverted _ (validate_retrieval_query q) _ _ h
    where
      inverted :
          (a b : Result (Unit {0})) (wrapped : Err → Err) (rest : Result (Searcher S E))
          → (a >> (map_err wrapped b >> rest)) ≡ ok k
          → b ≡ ok tt
      inverted (err x) b wrapped rest h = cc
      inverted (ok _) (err x) wrapped rest h = cc
      inverted (ok _) (ok _) wrapped rest h = refl

  result_of-valid :
      (q : RetrievalQuery) (st : State) (k : Searcher S E) (start : Time)
      → validate_retrieval_query q ≡ ok tt
      → All Named (keep (owned f u s q) (found_by f u s k q st))
      → let (found, st') = search_documents s k q (next_turn st) in
        validate_retrieval_result (result_of f u s k q start (arrange f u s q found st')) ≡ ok tt
  unfolding result_of validate_retrieval_result found_by
  result_of-valid q st k start valid named =
      let (found, st') = search_documents s k q (next_turn st) in
      let (tenant, request) = validate_retrieval_query-ok q valid in
      let moved = arrange-Rearranged f u s q found.0 found.1 st' in
      rw
        (
          tenant,
          request,
          validate_documents-ok q.tenant_id _ tenant (moved.all _ (kept_own f u s q found.0))
              (moved.all _ named),
        )
        refl

  -- A request that passes the guards gets a result, even if the rewriter, the embedder, the store
  -- and the reranker fail every time: all that can refuse it is a document of the tenant without an
  -- identifier.
  pub search-total :
      (m : RequestMetadata) (q : RetrievalQuery) (st : State) (k : Searcher S E)
      → admit_search f u s m q ≡ ok k
      → All Named (keep (owned f u s q) (found_by f u s k q st))
      → (r : RetrievalResult S) × ((search f u s m q st).0 ≡ ok r)
  unfolding search search_admitted checked
  search-total m q st k admitted named =
      let (found, st') = search_documents s k q (next_turn st) in
      let r = result_of f u s k q (s.clock st.turn) (arrange f u s q found st') in
      let valid =
        result_of-valid q st k (s.clock st.turn) (admit_search-query m q k admitted) named in
      (r, rw (admitted, valid) refl)
