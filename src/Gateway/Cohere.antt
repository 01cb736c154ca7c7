-- ===== src/Gateway/Cohere.antt =====
-- internal/adapters/gateway/cohere/reranker.go: the reranker of Cohere. The mutex makes each access
-- of the state one step; how long a call of the turn took is an argument.
pub mod Answers
use fine_rag_core.Prelude.{
  ℕ, ◌+◌, ℤ, pos, or_default, leb_ℤ, inc, Bool, Option, none, some, List, [], ◌∷◌, ◌++◌, length,
  is_empty, ltb, if◌then◌else◌,
}
use fine_rag_core.Text.{Text, txt, trim_space, is_blank}
use fine_rag_core.Result.{Err, new, Result, ok, err, on_result, ◌>>=◌, ◌>>◌, reject_if}
use fine_rag_core.Contracts.Tenant.{wrap_validation_err}
use fine_rag_core.Contracts.Retrieval.{
  Float64, GatewayCallTrace, RerankCandidate, RerankRequest, top_candidates,
  validate_rerank_request,
}
use fine_rag_core.Gateway.{
  RerankBody, HttpRequest, HttpResponse, RerankPayload, Http, is_refused, texts_of, picked,
}
use fine_rag_core.Gateway.Portkey.{no_trace}

pub record Config : Type 0 where
  pub api_key : Text
  pub model : Text
  pub timeout : ℤ
  pub retry_max : ℤ
  pub circuit_failure_threshold : ℤ

pub record CohereReranker : Type 0 where
  pub cfg : Config
  pub failures : ℤ
  pub last_trace : GatewayCallTrace
  pub turn : ℕ

unfoldable pub new_cohere_reranker : Config → Result CohereReranker
unfolding txt
new_cohere_reranker c = do
  reject_if (is_blank c.api_key) (new (txt "cohere api key is required"))
  ok (record {
    cfg = record c {
      model = if is_blank c.model then txt "rerank-v4.0-pro" else c.model;
      timeout = pos (or_default c.timeout 12_000_000_000);
      circuit_failure_threshold = pos (or_default c.circuit_failure_threshold 3);
    };
    failures = pos 0;
    last_trace = no_trace;
    turn = 0;
  })

abbrev pub is_circuit_open : CohereReranker → Bool
is_circuit_open a = leb_ℤ a.cfg.circuit_failure_threshold a.failures

abbrev pub record_failure : CohereReranker → CohereReranker
record_failure a = record a { failures = inc a.failures }

abbrev pub reset_failures : CohereReranker → CohereReranker
reset_failures a = record a { failures = pos 0 }

unfoldable pub record_trace : Text → ℤ → ℤ → CohereReranker → CohereReranker
unfolding txt
record_trace status latency units a = record a {
  last_trace = record no_trace {
    provider = txt "cohere";
    model = a.cfg.model;
    status = status;
    latency_millis = latency;
    token_total = units;
  };
}

abbrev pub last_gateway_trace : CohereReranker → GatewayCallTrace
last_gateway_trace a = a.last_trace

unfoldable pub rerank_url : Text
rerank_url = txt "https://api.cohere.com/v2/rerank"

http_request : Config → Text → HttpRequest
unfolding txt
http_request c raw = record {
  url = rerank_url;
  headers =
      (txt "Authorization", txt "Bearer " ++ trim_space c.api_key)
      ∷ (txt "Content-Type", txt "application/json")
      ∷ [];
  body = raw;
}

-- A call's result, and the reranker after it.
abbrev pub Answer : Type 0 → Type 0
Answer S = Result (List (RerankCandidate S)) × CohereReranker

module _ {S : Type 0} where
  rerank_body : Config → RerankRequest S → RerankBody
  unfolding texts_of
  rerank_body c r = record {
    model = c.model;
    query = r.query_text;
    documents = texts_of r.candidates;
    top_n = some r.top_n;
  }

  module _ (f : Float64 S) (h : Http S) (elapsed : ℕ → ℤ) where
    top : RerankRequest S → CohereReranker → Answer S
    top r a = (ok (top_candidates f r), a)

    -- The results of a response that could be read.
    read : ℕ → RerankRequest S → CohereReranker → RerankPayload S → Answer S
    unfolding top txt
    read turn r a p =
        if is_empty p.results
        then top r a
        else (ok (picked r.candidates p.results), record_trace (txt "ok") (elapsed turn) p.units a)

    responded : ℕ → RerankRequest S → CohereReranker → HttpResponse → Answer S
    unfolding top read record_trace txt
    responded turn r a response =
        let decoded =
          on_result (λ e. top r (reset_failures a)) (read turn r (reset_failures a))
            (h.decode response.body) in
        if is_refused response
        then top r (record_trace (txt "error") (elapsed turn) (pos 0) (record_failure a))
        else decoded

    sent : RerankRequest S → HttpRequest → CohereReranker → Answer S
    unfolding top responded record_trace txt
    sent r request a =
        let a' = record a { turn = a.turn + 1 } in
        on_result
          (λ e. top r (record_trace (txt "timeout") (elapsed a.turn) (pos 0) (record_failure a')))
          (responded a.turn r a') (h.send a.turn request)

    unless_failed : Option Err → RerankRequest S → HttpRequest → CohereReranker → Answer S
    unfolding sent
    unless_failed (some e) r request a = (err e, a)
    unless_failed none r request a = sent r request a

    requested : RerankRequest S → CohereReranker → HttpRequest → Answer S
    unfolding unless_failed
    requested r a request = unless_failed (h.new_request request.url) r request a

    called : RerankRequest S → CohereReranker → Answer S
    unfolding rerank_body requested http_request
    called r a =
        on_result (λ e. (err e, a)) (λ raw. requested r a (http_request a.cfg raw))
          (h.marshal (rerank_body a.cfg r))

    rerank_valid : Result (Unit {0}) → RerankRequest S → CohereReranker → Answer S
    unfolding top called txt
    rerank_valid (err e) r a = (err (wrap_validation_err (txt "cohere_rerank_request") e), a)
    rerank_valid (ok _) r a =
        let asked = called r a in
        if ltb (length r.candidates) 3
        then top r a
        else if is_circuit_open a
        then top r a
        else asked

    unfoldable pub rerank : RerankRequest S → CohereReranker → Answer S
    unfolding rerank_valid
    rerank r a = rerank_valid (validate_rerank_request r) r a
