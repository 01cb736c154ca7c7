-- ===== src/Gateway/Portkey/Calls.antt =====
-- internal/adapters/gateway/portkey/reranker.go: the client over HTTP, and the adapter that is made with
-- it.
pub mod Among
use fine_rag_core.Prelude.{
  pos, is_neg, is_nonpos, or_default, Bool, not, ◌||◌, Option, none, some, List, [], ◌∷◌, ◌++◌,
  is_empty, if◌then◌else◌,
}
use fine_rag_core.Text.{Text, txt, str_eq, trim_space, is_blank}
use fine_rag_core.Result.{Err, new, Result, ok, err, ◌>>=◌, ◌>>◌, reject_if}
use fine_rag_core.Dict.{Dict}
use fine_rag_core.Contracts.Retrieval.{
  Float64, GatewayCallTrace, RerankCandidate, RerankRequest, top_candidates,
}
use fine_rag_core.Ingestion.Worker.{decimal}
use fine_rag_core.Gateway.{
  RerankBody, HttpRequest, HttpResponse, RerankPayload, Http, is_refused, trim_slashes, texts_of,
  picked,
}
use fine_rag_core.Gateway.Portkey.{
  TokenUsage, GatewayRequest, Client, Config, RerankerAdapter, no_trace,
}

is_mode : Text → Bool
is_mode mode =
    str_eq mode (txt "fail_closed")
    || str_eq mode (txt "direct_allowlist")
    || str_eq mode (txt "retrieval_only")

-- `quoted` is the verb `%q`.
unfoldable pub validate_fallback_mode : (Text → Text) → Text → Result (Unit {0})
unfolding is_mode txt
validate_fallback_mode quoted mode =
    reject_if (not (is_mode mode))
      (new (txt "unsupported FINE_RAG_GATEWAY_FALLBACK_MODE " ++ quoted mode))

-- The configuration with its defaults, in nanoseconds.
with_defaults : Config → Config
with_defaults c = record c {
  timeout = pos (or_default c.timeout 12_000_000_000);
  retry_max = if is_neg c.retry_max then pos 0 else c.retry_max;
  circuit_failure_threshold = pos (or_default c.circuit_failure_threshold 3);
  fallback_mode = if is_empty c.fallback_mode then txt "retrieval_only" else c.fallback_mode;
}

http_request : Config → Text → HttpRequest
http_request c raw =
    let own =
      (txt "Content-Type", txt "application/json")
      ∷ (txt "x-portkey-api-key", trim_space c.api_key)
      ∷ [] in
    record {
      url = trim_slashes c.base_url ++ txt "/v1/rerank";
      headers =
          own
          ++ (if is_empty c.provider_key
              then []
              else (txt "Authorization", txt "Bearer " ++ trim_space c.provider_key) ∷ []);
      body = raw;
    }

refused : HttpResponse → Err
refused response = new (
    txt "portkey rerank failed: status="
    ++ (decimal response.status_code ++ (txt " body=" ++ response.body)))

failing : Option Err → Result (Unit {0})
failing none = ok tt
failing (some e) = err e

module _ {S : Type 0} where
  unfoldable pub rerank_body : Text → GatewayRequest S → RerankBody
  unfolding texts_of txt
  rerank_body model r = record {
    model = if is_empty model then txt "portkey-rerank" else model;
    query = r.query_text;
    documents = texts_of r.candidates;
    top_n = if is_nonpos r.top_n then none else some r.top_n;
  }

  decoded : GatewayRequest S → RerankPayload S → Result (List (RerankCandidate S) × TokenUsage)
  unfolding txt
  decoded r p = do
    reject_if (is_empty p.results) (new (txt "empty rerank response"))
    ok (picked r.candidates p.results, record { input = pos 0; output = pos 0; total = p.units })

  -- `portkeyRerankClient.Rerank`
  unfoldable pub portkey_client : Http S → Config → Client S
  unfolding rerank_body http_request decoded refused failing
  portkey_client h c turn r = do
    raw ← h.marshal (rerank_body c.model r)
    let request = http_request c raw
    failing (h.new_request request.url)
    response ← h.send turn request
    reject_if (is_refused response) (refused response)
    payload ← h.decode response.body
    decoded r payload

  -- `failingClient`
  unfoldable pub failing_client : Client S
  unfolding txt
  failing_client turn r = err (new (txt "portkey unavailable"))

  -- `stubReranker`
  unfoldable pub stub_rerank : Float64 S → RerankRequest S → Result (List (RerankCandidate S))
  stub_rerank f r = ok (top_candidates f r)

  -- A map that is copied.
  unfoldable pub last_outbound_metadata : RerankerAdapter S → Dict Text
  last_outbound_metadata a = a.last_metadata

  unfoldable pub build_audit_attributes : RerankRequest S → GatewayCallTrace → Dict Text
  unfolding txt
  build_audit_attributes r trace =
      (txt "tenant_id", r.tenant_id)
      ∷ (txt "request_id", r.request_id)
      ∷ (txt "provider", trace.provider)
      ∷ (txt "status", trace.status)
      ∷ (txt "fallback_reason", trace.fallback_reason)
      ∷ []

  -- `NewRerankerAdapter`
  unfoldable pub new_reranker_adapter : (Text → Text) → Http S → Config → Result (RerankerAdapter S)
  unfolding with_defaults validate_fallback_mode txt
  new_reranker_adapter quoted h c = do
    reject_if (is_blank c.base_url)
        (new (txt "FINE_RAG_PORTKEY_BASE_URL is required when FINE_RAG_GATEWAY_PROVIDER=portkey"))
    reject_if (is_blank c.api_key)
        (new (txt "FINE_RAG_PORTKEY_API_KEY is required when FINE_RAG_GATEWAY_PROVIDER=portkey"))
    let cfg = with_defaults c
    validate_fallback_mode quoted cfg.fallback_mode
    ok (record {
      client = portkey_client h cfg;
      cfg = cfg;
      failures = pos 0;
      last_trace = no_trace;
      last_metadata = [];
      turn = 0;
    })
