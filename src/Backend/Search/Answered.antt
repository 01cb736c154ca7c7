-- ===== src/Backend/Search/Answered.antt =====
-- backend/managers/search.go: what an answer to a question is made of.
use fine_rag_core.Prelude.{◌≡◌, ℤ, Bool, false, List, take, is_empty, All}
use fine_rag_core.Text.{Text, trim_space, Unicode}
use fine_rag_core.Result.{Result, ok}
use fine_rag_core.Sorting.{Rearranged}
use fine_rag_core.Contracts.Retrieval.{Float64, RetrievalDocument, RetrievalResult}
use fine_rag_core.Retrieval.{State}
use fine_rag_core.Retrieval.Search.{search}
use fine_rag_core.Retrieval.Search.Isolation.{Isolated}
use fine_rag_core.Backend.Terms.{rank_documents_by_query_intent}
use fine_rag_core.Backend.Answers.Shown.{ShowsAll}
use fine_rag_core.Backend.Answers.Fit.{IsFit}
use fine_rag_core.Backend.Answers.{TopVector}
use fine_rag_core.Backend.Search.{
  SearchManager, SearchCall, Reply, refused, panicked, found, query_of, metadata_of,
}

module _ {S : Type 0} (u : Unicode) (cgpa_value : Text → Bool)
    (replace_runs : (Text → Text) → Text → Text) (f : Float64 S) where
  -- The best documents for a query, from documents in any order.
  abbrev pub best_of : Text → List (RetrievalDocument S) → List (RetrievalDocument S)
  best_of query docs = take 5 (rank_documents_by_query_intent u cgpa_value f query docs)

  -- What is true of an answer to a query with this text and count.
  pub record Answered {E : Type 0} (m : SearchManager S E) (q : SearchCall) (st : State)
      (text : Text) (top_k : ℤ) (result : RetrievalResult S) (ranked : List (RetrievalDocument S))
      (tops : List (TopVector S)) (answer : Text) : Type 1 where
    pub asked : is_empty text ≡ false
    pub retrieved :
        (search f u m.retrieval (metadata_of q) (query_of q text top_k) st).0 ≡ ok result
    pub isolated : Isolated f u m.retrieval (metadata_of q) (query_of q text top_k) st result
    pub own :
        All (λ (d : RetrievalDocument S). d.tenant_id ≡ trim_space q.tenant_header) result.documents
    pub moved : Rearranged ranked result.documents
    pub shows : ShowsAll text u 1 tops (best_of text ranked)
    pub fit : IsFit answer

  -- A condition on what a reply has found.
  abbrev IfFound :
      (RetrievalResult S → List (RetrievalDocument S) → List (TopVector S) → Text → Type 1)
      → Reply S
      → Type 1
  IfFound P (refused code name text) = Unit
  IfFound P panicked = Unit
  IfFound P (found result ranked tops answer) = P result ranked tops answer
