-- ===== src/Retrieval/Documents.antt =====
-- internal/services/retrieval/service.go: `searchDocuments`, the queries to the vector store.
pub mod Unique
pub mod Given
use fine_rag_core.Prelude.{
  ℕ, ◌+◌, ℤ, Option, none, some, List, [], ◌∷◌, ◌++◌, any_of, if◌then◌else◌,
}
use fine_rag_core.Text.{Text, str_eq}
use fine_rag_core.Result.{Result, ok, err}
use fine_rag_core.Contracts.Tenant.{TenantId}
use fine_rag_core.Contracts.Retrieval.{
  RetrievalQuery, MetadataFilters, StructuredQuery, RetrievalDocument,
}
use fine_rag_core.Retrieval.{Searcher, Service, State, next_turn}

module _ {S E : Type 0} (s : Service S E) where
  -- `allDocs` after more documents. The ids in `seenDocs` are those of `allDocs`.
  unfoldable pub add_unseen :
      List (RetrievalDocument S) → List (RetrievalDocument S) → List (RetrievalDocument S)
  add_unseen all [] = all
  add_unseen all (d ∷ ds) =
      let skip = add_unseen all ds in
      let first = add_unseen (all ++ d ∷ []) ds in
      if any_of (λ (e : RetrievalDocument S). str_eq e.document_id d.document_id) all
      then skip
      else first

  -- A call's answer, and the state after it.
  abbrev pub Answer : Type 0
  Answer = Result (List (RetrievalDocument S)) × State

  by_vector :
      (ℕ → TenantId → List E → ℤ → Result (List (RetrievalDocument S)))
      → RetrievalQuery
      → State
      → List (List E)
      → Answer
  by_vector search q st ((x ∷ xs) ∷ []) =
      (search st.turn q.tenant_id (x ∷ xs) q.top_k, next_turn st)
  by_vector search q st _ = (ok [], st)

  embedded :
      (ℕ → TenantId → List E → ℤ → Result (List (RetrievalDocument S)))
      → RetrievalQuery
      → State
      → Result (List (List E))
      → Answer
  unfolding by_vector
  embedded search q st (err e) = (err e, st)
  embedded search q st (ok vectors) = by_vector search q st vectors

  ask :
      Searcher S E
      → Option (ℕ → TenantId → List E → ℤ → Result (List (RetrievalDocument S)))
      → Option (ℕ → TenantId → List Text → Result (List (List E)))
      → RetrievalQuery
      → Text
      → State
      → Answer
  unfolding embedded
  ask k (some search) (some embed) q text st =
      embedded search q (next_turn st) (embed st.turn q.tenant_id (text ∷ []))
  ask k _ _ q text st = (k.search st.turn q.tenant_id text q.top_k, next_turn st)

  -- A failure is logged and skipped.
  collected :
      List (RetrievalDocument S) → Result (List (RetrievalDocument S)) → List (RetrievalDocument S)
  unfolding add_unseen
  collected all (err e) = all
  collected all (ok docs) = add_unseen all docs

  -- The loop over the expanded queries.
  unfoldable pub collect :
      Searcher S E
      → RetrievalQuery
      → List Text
      → List (RetrievalDocument S)
      → State
      → List (RetrievalDocument S) × State
  unfolding ask collected
  collect k q [] all st = (all, st)
  collect k q (text ∷ texts) all st =
      let (answer, st') = ask k k.search_by_embedding s.embedder q text st in
      collect k q texts (collected all answer) st'

  no_filters : MetadataFilters
  no_filters = record { category = []; date_range = []; priority = none }

  rewritten : RetrievalQuery → Result StructuredQuery → StructuredQuery
  unfolding no_filters
  rewritten q (err e) = record {
    expanded_queries = q.query_text ∷ [];
    metadata_filters = no_filters;
  }
  rewritten q (ok r) = r

  -- A rewriter that fails counts as none.
  unfoldable pub expand :
      Option (ℕ → TenantId → Text → Result StructuredQuery)
      → RetrievalQuery
      → State
      → StructuredQuery × State
  unfolding rewritten no_filters
  expand none q st =
      (record { expanded_queries = q.query_text ∷ []; metadata_filters = no_filters }, st)
  expand (some rewrite) q st =
      (rewritten q (rewrite st.turn q.tenant_id q.query_text), next_turn st)

  -- `searchDocuments` never returns an error.
  unfoldable pub search_documents :
      Searcher S E → RetrievalQuery → State → (List (RetrievalDocument S) × StructuredQuery) × State
  unfolding expand collect
  search_documents k q st =
      let (expanded, st') = expand s.query_rewriter q st in
      let (docs, st'') = collect k q expanded.expanded_queries [] st' in ((docs, expanded), st'')
