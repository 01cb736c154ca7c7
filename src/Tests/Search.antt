-- ===== src/Tests/Search.antt =====
-- internal/services/retrieval/service.go at concrete inputs.
use fine_rag_core.Prelude.{
  ℕ, ◌+◌, ◌-◌, ◌≡◌, refl, pos, true, false, none, some, List, [], ◌∷◌, keep, ltb, ◌==◌, All, arith,
}
use Prim.Native.Nat.{min}
use fine_rag_core.Text
use fine_rag_core.Text.{Text, txt, Unicode}
use fine_rag_core.Result.{new, ok, err}
use fine_rag_core.Contracts.Tenant
use fine_rag_core.Contracts.Retrieval as Records
use fine_rag_core.Contracts.Tenant.{RequestMetadata}
use fine_rag_core.Contracts.Retrieval.{
  Float64, RetrievalQuery, RetrievalDocument, RetrievalResult, RerankCandidate,
}
use fine_rag_core.Retrieval.{Searcher, Reranker, Service, State, admit_rerank}
use fine_rag_core.Retrieval.Documents
use fine_rag_core.Retrieval.Breaker.{Request, rerank_all, rerank_all-Down}
use fine_rag_core.Retrieval.Search.{owned, admit_search, search}
use fine_rag_core.Retrieval.Search.Isolation.{Isolated, found_by, search-Isolated}
use fine_rag_core.Retrieval.Search.Total.{Named, search-total}

abbrev pub plain : Unicode
plain = record { lower = λ c. c; is_letter = λ c. true; is_digit = λ c. false }

-- Whole numbers as scores.
abbrev pub whole : Float64 ℕ
whole = record { gt = λ a b. ltb b a; eq = λ a b. a == b; add = λ a b. a + b; of_int = λ n. n }

abbrev pub document : Text → Text → RetrievalDocument ℕ
document tenant id = record {
  document_id = id;
  tenant_id = tenant;
  content = txt "x";
  score = 1;
  source_uri = [];
  metadata = [];
}

-- The store gives a document of another tenant, too.
abbrev store : Searcher ℕ ℕ
store = record {
  search = λ turn t text k. ok (
      document (txt "t") (txt "a")
      ∷ document (txt "v") (txt "b")
      ∷ document (txt "t") (txt "c")
      ∷ []);
  search_by_embedding = none;
  last_vector_trace = none;
}

abbrev broken : Reranker ℕ
broken = record {
  rerank_with_timeout = λ turn r. err (new (txt "timeout"));
  last_gateway_trace = none;
}

abbrev pub service : Service ℕ ℕ
service = record {
  searcher = some store;
  reranker = some broken;
  embedder = none;
  query_rewriter = none;
  clock = λ turn. turn;
  rerank_top_k = 5;
  rerank_timeout = 15;
  failure_threshold = 3;
}

abbrev metadata : RequestMetadata
metadata = record { tenant_id = txt "t"; request_id = txt "r"; source_ip = []; user_agent = [] }

abbrev query : RetrievalQuery
query = record { tenant_id = txt "t"; request_id = txt "r"; query_text = txt "q"; top_k = pos 3 }

abbrev pub fresh : State
fresh = record { consecutive_rerank_failures = pos 0; turn = 0 }

query_admitted : admit_search whole plain service metadata query ≡ ok store
unfolding admit_search txt Text.str_eq Tenant.validate_request_metadata
    Records.validate_retrieval_query
query_admitted = refl

documents-Named :
    All Named
      (keep (owned whole plain service query) (found_by whole plain service store query fresh))
unfolding found_by Documents.search_documents txt Text.str_eq
documents-Named = (refl, (refl, tt))

search-total_example :
    (r : RetrievalResult ℕ) × ((search whole plain service metadata query fresh).0 ≡ ok r)
search-total_example =
    search-total whole plain service metadata query fresh store query_admitted documents-Named

-- The search with the broken reranker returns.
query_answered :
    (r : RetrievalResult ℕ) × ((search whole plain service metadata query fresh).0 ≡ ok r)
query_answered =
    search-total whole plain service metadata query fresh store query_admitted documents-Named

search-Isolated_example : Isolated whole plain service metadata query fresh query_answered.0
search-Isolated_example =
    search-Isolated whole plain service metadata query fresh query_answered.0 query_answered.1

abbrev pub candidate : RerankCandidate ℕ
candidate = record { document_id = txt "a"; candidate_text = txt "x"; score = 1 }

abbrev pub request : Request ℕ
request = (
  metadata,
  record {
    tenant_id = txt "t";
    request_id = txt "r";
    query_text = txt "q";
    candidates = candidate ∷ candidate ∷ [];
    top_n = pos 1;
  },
)

request_admitted : admit_rerank whole service request.0 request.1 ≡ ok tt
unfolding admit_rerank txt Text.str_eq Tenant.validate_request_metadata
    Records.validate_rerank_request
request_admitted = refl

abbrev five : List (Request ℕ)
five = request ∷ request ∷ request ∷ request ∷ request ∷ []

-- Five requests are three calls.
rerank_all-Down_example :
    ((rerank_all whole service five fresh).consecutive_rerank_failures ≡ pos (min 5 3))
    × ((rerank_all whole service five fresh).turn ≡ 0 + (min 5 3 - 0))
rerank_all-Down_example =
    rerank_all-Down whole service broken five fresh 0 refl (λ turn r. (new (txt "timeout"), refl))
      (omega arith) (omega arith) refl
      (
        request_admitted,
        (request_admitted, (request_admitted, (request_admitted, (request_admitted, tt)))),
      )
