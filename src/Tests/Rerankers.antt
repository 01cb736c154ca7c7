-- ===== src/Tests/Rerankers.antt =====
-- internal/adapters/gateway at concrete inputs.
use fine_rag_core.Prelude.{ℕ, ◌≡◌, refl, ℤ, pos, Bool, false, none, [], ◌∷◌, ◌==◌, if◌then◌else◌}
use fine_rag_core.Text.{txt}
use fine_rag_core.Result.{Err, new, ok, err}
use fine_rag_core.Contracts.Retrieval.{RerankRequest, validate_rerank_request}
use fine_rag_core.Gateway.{Http}
use fine_rag_core.Gateway.Known.{AllAmong}
use fine_rag_core.Gateway.Portkey
use fine_rag_core.Gateway.Portkey.{Config, RerankerAdapter, no_trace}
use fine_rag_core.Gateway.Portkey.Calls.{portkey_client}
use fine_rag_core.Gateway.Portkey.Calls.Among.{rerank-Among}
use fine_rag_core.Gateway.Portkey.Settled.{Settled}
use fine_rag_core.Gateway.Cohere
use fine_rag_core.Gateway.Cohere.{CohereReranker}
use fine_rag_core.Gateway.Cohere.Answers.{Answered, rerank-Answered}
use fine_rag_core.Tests.Search.{plain, whole, candidate, request}

-- The first call fails; the others tell of three results, of which one is out of range.
abbrev http : Http ℕ
http = record {
  marshal = λ body. ok (txt "{}");
  new_request = λ url. none;
  send = λ turn r.
      if turn == 0 then err (new (txt "timeout")) else ok (record { status_code = 200; body = [] });
  decode =
      λ body. ok (record { results = (pos 1, 7) ∷ (pos 9, 3) ∷ (pos 0, 2) ∷ []; units = pos 4 });
}

abbrev config : Config
config = record {
  base_url = txt "http://gateway/";
  api_key = txt "k";
  timeout = pos 12;
  retry_max = pos 1;
  circuit_failure_threshold = pos 3;
  fallback_mode = txt "retrieval_only";
  direct_allowlist = [];
  model = [];
  provider_key = [];
}

abbrev adapter : RerankerAdapter ℕ
adapter = record {
  client = portkey_client http config;
  cfg = config;
  failures = pos 2;
  last_trace = no_trace;
  last_metadata = [];
  turn = 0;
}

abbrev never : Err → Bool
never e = false

abbrev second : ℕ → ℤ
second turn = pos 1000

rerank-Among_example :
    AllAmong request.1.candidates (Portkey.rerank whole plain never second request.1 adapter).0.0
rerank-Among_example = rerank-Among whole plain never second http config request.1 adapter refl

abbrev reranker : CohereReranker
reranker = record {
  cfg = record {
    api_key = txt "k";
    model = txt "m";
    timeout = pos 12;
    retry_max = pos 0;
    circuit_failure_threshold = pos 3;
  };
  failures = pos 2;
  last_trace = no_trace;
  turn = 0;
}

-- Three candidates are enough for a call.
abbrev larger : RerankRequest ℕ
larger = record request.1 { candidates = candidate ∷ candidate ∷ candidate ∷ [] }

larger_valid : validate_rerank_request larger ≡ ok tt
unfolding validate_rerank_request txt
larger_valid = refl

rerank-Answered_example :
    Answered whole http second larger 0 (Cohere.rerank whole http second larger reranker)
rerank-Answered_example =
    rerank-Answered whole http second larger reranker (λ body. (txt "{}", refl)) refl larger_valid

-- The call fails and is counted, and the breaker opens.
reranker_failed : (Cohere.rerank whole http second larger reranker).1.failures ≡ pos 3
unfolding Cohere.rerank validate_rerank_request txt Cohere.rerank_url
reranker_failed = refl
