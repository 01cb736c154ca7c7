-- ===== src/Retrieval.antt =====
-- internal/services/retrieval/service.go: the service, its `Rerank`, and the circuit breaker before
-- the reranker.
--
-- What a collaborator answers depends on the turn, a count of the calls that were made: so two calls
-- with the same arguments may have different answers. A nil collaborator is `none`, and so is an
-- interface that a collaborator does not have.
pub mod Ranking
pub mod Documents
pub mod Search
pub mod Breaker
use fine_rag_core.Prelude.{
  ℕ, ◌+◌, ℤ, pos, leb_ℤ, inc, or_default, Bool, not, Option, none, some, List, [], length,
  if◌then◌else◌,
}
use fine_rag_core.Text.{Text, txt, str_eq}
use fine_rag_core.Result.{Err, new, Result, ok, err, ◌>>=◌, ◌>>◌, reject_if, map_err}
use fine_rag_core.Contracts.Tenant.{
  Time, TenantId, RequestMetadata, validate_request_metadata, wrap_validation_err,
}
use fine_rag_core.Contracts.Retrieval.{
  Float64, StructuredQuery, RetrievalDocument, VectorCallTrace, GatewayCallTrace, RerankCandidate,
  RerankRequest, top_candidates, take_int, validate_rerank_request,
}

pub record Searcher (S E : Type 0) : Type 0 where
  pub search : ℕ → TenantId → Text → ℤ → Result (List (RetrievalDocument S))
  pub search_by_embedding : Option (ℕ → TenantId → List E → ℤ → Result (List (RetrievalDocument S)))
  pub last_vector_trace : Option (ℕ → VectorCallTrace)

-- The answer is the reranker's or the error of the context that has timed out, whichever is first.
pub record Reranker (S : Type 0) : Type 0 where
  pub rerank_with_timeout : ℕ → RerankRequest S → Result (List (RerankCandidate S))
  pub last_gateway_trace : Option (ℕ → GatewayCallTrace)

pub record Service (S E : Type 0) : Type 0 where
  pub searcher : Option (Searcher S E)
  pub reranker : Option (Reranker S)
  pub embedder : Option (ℕ → TenantId → List Text → Result (List (List E)))
  pub query_rewriter : Option (ℕ → TenantId → Text → Result StructuredQuery)
  pub clock : ℕ → Time
  pub rerank_top_k : ℕ
  pub rerank_timeout : Time
  pub failure_threshold : ℕ

pub record Config (E : Type 0) : Type 0 where
  pub rerank_top_k : ℤ
  pub rerank_timeout : ℤ
  pub failure_threshold : ℤ
  pub clock : Option (ℕ → Time)
  pub embedding_provider : Option (ℕ → TenantId → List Text → Result (List (List E)))
  pub query_rewriter : Option (ℕ → TenantId → Text → Result StructuredQuery)

-- `now` stands for `time.Now`.
unfoldable pub new_retrieval_service :
    {S E : Type 0}
    → (ℕ → Time)
    → Option (Searcher S E)
    → Option (Reranker S)
    → Config E
    → Service S E
new_retrieval_service now searcher reranker config = record {
  searcher = searcher;
  reranker = reranker;
  embedder = config.embedding_provider;
  query_rewriter = config.query_rewriter;
  clock = elim config.clock [ none ↦ now | some c ↦ c ];
  rerank_top_k = or_default config.rerank_top_k 5;
  rerank_timeout = or_default config.rerank_timeout 15_000_000_000;
  failure_threshold = or_default config.failure_threshold 3;
}

pub record State : Type 0 where
  pub consecutive_rerank_failures : ℤ
  pub turn : ℕ

abbrev pub next_turn : State → State
next_turn st = record st { turn = st.turn + 1 }

abbrev pub register_failure : State → State
register_failure st = record st { consecutive_rerank_failures = inc st.consecutive_rerank_failures }

abbrev pub reset_failures : State → State
reset_failures st = record st { consecutive_rerank_failures = pos 0 }

unfoldable pub circuit_open : Err
circuit_open = new (txt "rerank circuit breaker open")

-- Candidates and an error, both of which the caller reads.
abbrev pub Ranked : Type 0 → Type 0
Ranked S = List (RerankCandidate S) × Option Err

module _ {S E : Type 0} (f : Float64 S) (s : Service S E) where
  abbrev pub is_circuit_open : State → Bool
  is_circuit_open st = leb_ℤ (pos s.failure_threshold) st.consecutive_rerank_failures

  -- The guards of `Rerank`.
  unfoldable pub admit_rerank : RequestMetadata → RerankRequest S → Result (Unit {0})
  admit_rerank m r = do
    map_err (wrap_validation_err (txt "request_metadata")) (validate_request_metadata m)
    map_err (wrap_validation_err (txt "rerank_request")) (validate_rerank_request r)
    reject_if (not (str_eq m.tenant_id r.tenant_id))
        (new (txt "tenant mismatch between metadata and rerank request"))

  -- `ranked`, cut at `TopN`
  cut_at : ℤ → List (RerankCandidate S) → List (RerankCandidate S)
  cut_at n ranked = if leb_ℤ (pos (length ranked)) n then ranked else take_int n ranked

  after_call : RerankRequest S → State → Result (List (RerankCandidate S)) → Ranked S × State
  unfolding cut_at
  after_call r st (err e) = ((top_candidates f r, some e), register_failure st)
  after_call r st (ok ranked) = ((cut_at r.top_n ranked, none), reset_failures st)

  rerank_by : Option (Reranker S) → RerankRequest S → State → Ranked S × State
  unfolding after_call
  rerank_by none r st = ((top_candidates f r, none), st)
  rerank_by (some k) r st =
      let called = after_call r (next_turn st) (k.rerank_with_timeout st.turn r) in
      if is_circuit_open st then ((top_candidates f r, some circuit_open), st) else called

  rerank_admitted : Result (Unit {0}) → RerankRequest S → State → Ranked S × State
  unfolding rerank_by
  rerank_admitted (err e) r st = (([], some e), st)
  rerank_admitted (ok _) r st = rerank_by s.reranker r st

  unfoldable pub rerank : RequestMetadata → RerankRequest S → State → Ranked S × State
  unfolding rerank_admitted
  rerank m r st = rerank_admitted (admit_rerank m r) r st
