-- ===== src/Gateway/Portkey.antt =====
-- internal/adapters/gateway/portkey/reranker.go: the reranker behind Portkey, with its attempts, its
-- circuit breaker and what it falls back on, and the client that it calls over HTTP.
--
-- A client's answer stands for the error of a context that has timed out, too. The clock of the
-- configuration is never read and is left out.
pub mod Calls
pub mod Settled
use fine_rag_core.Prelude.{
  ℕ, zero, suc, ◌+◌, ℤ, pos, negsuc, leb_ℤ, inc, Bool, Option, none, some, List, [], ◌∷◌, ◌⊎◌, inl,
  inr, any_of, if◌then◌else◌,
}
use fine_rag_core.Text.{Text, txt, str_eq, is_blank, Unicode}
use fine_rag_core.Result.{Err, new, Result, ok, err, on_result}
use fine_rag_core.Dict.{Dict}
use fine_rag_core.Contracts.Tenant.{TenantId, wrap_validation_err}
use fine_rag_core.Contracts.Audit.{ProviderError}
use fine_rag_core.Contracts.Retrieval.{
  Float64, GatewayCallTrace, RerankCandidate, RerankRequest, top_candidates,
  validate_rerank_request,
}
use fine_rag_core.Vectors.Errors.{normalize_provider_error}

pub record TokenUsage : Type 0 where
  pub input : ℤ
  pub output : ℤ
  pub total : ℤ

-- The request of the gateway, a `RerankRequest` of this package.
pub record GatewayRequest (S : Type 0) : Type 0 where
  pub tenant_id : TenantId
  pub request_id : Text
  pub query_text : Text
  pub candidates : List (RerankCandidate S)
  pub top_n : ℤ
  pub metadata : Dict Text

abbrev pub Client : Type 0 → Type 0
Client S = ℕ → GatewayRequest S → Result (List (RerankCandidate S) × TokenUsage)

pub record Config : Type 0 where
  pub base_url : Text
  pub api_key : Text
  pub timeout : ℤ
  pub retry_max : ℤ
  pub circuit_failure_threshold : ℤ
  pub fallback_mode : Text
  pub direct_allowlist : List Text
  pub model : Text
  pub provider_key : Text

pub record RerankerAdapter (S : Type 0) : Type 0 where
  pub client : Client S
  pub cfg : Config
  pub failures : ℤ
  pub last_trace : GatewayCallTrace
  pub last_metadata : Dict Text
  pub turn : ℕ

-- `GatewayCallTrace{}`
abbrev pub no_trace : GatewayCallTrace
no_trace = record {
  provider = [];
  model = [];
  latency_millis = pos 0;
  token_input = pos 0;
  token_output = pos 0;
  token_total = pos 0;
  status = [];
  fallback_reason = [];
}

-- What a call fails by: an error of the adapter, or one of its client.
pub data Cause : Type 0 where
  plain : Err → Cause
  provider : ProviderError → Cause

-- The error that is returned: the cause, or that the tenant may not fall back, which wraps it.
pub data GatewayError : Type 0 where
  failed : Cause → GatewayError
  blocked : Option Cause → GatewayError

failed_by : Option Cause → Option GatewayError
failed_by none = none
failed_by (some e) = some (failed e)

unfoldable pub is_allowlisted : TenantId → List Text → Bool
is_allowlisted t allowlist = any_of (λ item. str_eq item t) allowlist

fallback_trace : Text → Text → GatewayCallTrace
fallback_trace status reason = record no_trace {
  provider = txt "portkey";
  status = status;
  fallback_reason = reason;
}

ok_trace : ℤ → TokenUsage → GatewayCallTrace
ok_trace latency usage = record {
  provider = txt "portkey";
  model = txt "portkey-rerank";
  latency_millis = latency;
  token_input = usage.input;
  token_output = usage.output;
  token_total = usage.total;
  status = txt "ok";
  fallback_reason = [];
}

-- `for attempt := 0; attempt <= RetryMax; attempt++`
abbrev pub rounds : ℤ → ℕ
rounds (pos n) = n + 1
rounds (negsuc n) = 0

-- The candidates and the error that a call returns.
abbrev pub Answer : Type 0 → Type 0
Answer S = List (RerankCandidate S) × Option GatewayError

module _ {S : Type 0} where
  unfoldable pub to_gateway_request : RerankRequest S → GatewayRequest S
  unfolding txt
  to_gateway_request r = record {
    tenant_id = r.tenant_id;
    request_id = r.request_id;
    query_text = r.query_text;
    candidates = r.candidates;
    top_n = r.top_n;
    metadata = (txt "tenant_id", r.tenant_id) ∷ (txt "request_id", r.request_id) ∷ [];
  }

  unfoldable pub with_client : Option (Client S) → RerankerAdapter S → RerankerAdapter S
  with_client none a = a
  with_client (some client) a = record a { client = client }

  abbrev pub is_circuit_open : RerankerAdapter S → Bool
  is_circuit_open a = leb_ℤ a.cfg.circuit_failure_threshold a.failures

  abbrev pub register_failure : RerankerAdapter S → RerankerAdapter S
  register_failure a = record a { failures = inc a.failures }

  abbrev pub reset_failures : RerankerAdapter S → RerankerAdapter S
  reset_failures a = record a { failures = pos 0 }

  abbrev pub record_trace : GatewayCallTrace → RerankerAdapter S → RerankerAdapter S
  record_trace trace a = record a { last_trace = trace }

  abbrev pub last_gateway_trace : RerankerAdapter S → GatewayCallTrace
  last_gateway_trace a = a.last_trace

  unfoldable pub redacted_api_key : RerankerAdapter S → Text
  unfolding txt
  redacted_api_key a = if is_blank a.cfg.api_key then [] else txt "REDACTED"

  unfoldable pub apply_fallback : Float64 S → Config → RerankRequest S → Option Cause → Answer S
  unfolding is_allowlisted failed_by txt
  apply_fallback f c r e =
      if str_eq c.fallback_mode (txt "retrieval_only")
      then (top_candidates f r, none)
      else if str_eq c.fallback_mode (txt "direct_allowlist")
      then (if is_allowlisted r.tenant_id c.direct_allowlist
          then (top_candidates f r, none)
          else ([], some (blocked e)))
      else ([], failed_by e)

  -- The adapter at a call of its client: the call is made and the metadata is kept.
  abbrev pub called : RerankRequest S → RerankerAdapter S → RerankerAdapter S
  called r a = record a { last_metadata = (to_gateway_request r).metadata; turn = a.turn + 1 }

  -- `elapsed` is how long the call of a turn took, `is_deadline` is
  -- `errors.Is(err, context.DeadlineExceeded)`.
  module _ (f : Float64 S) (u : Unicode) (is_deadline : Err → Bool) (elapsed : ℕ → ℤ) where
    succeeded : ℕ → List (RerankCandidate S) × TokenUsage → RerankerAdapter S → RerankerAdapter S
    unfolding ok_trace
    succeeded turn (candidates, usage) a =
        record_trace (ok_trace (elapsed turn) usage) (reset_failures a)

    wrapped : Err → Option ProviderError
    wrapped e = normalize_provider_error u is_deadline (txt "portkey") (txt "rerank") (some e)

    -- The candidates of the first attempt that succeeds, or the error of the last.
    unfoldable pub attempts :
        ℕ
        → RerankRequest S
        → Option ProviderError
        → RerankerAdapter S
        → (List (RerankCandidate S) ⊎ Option ProviderError) × RerankerAdapter S
    unfolding succeeded wrapped
    attempts zero r last a = (inr last, a)
    attempts (suc n) r last a =
        on_result (λ e. attempts n r (wrapped e) (called r a))
          (λ answer. (inl answer.0, succeeded a.turn answer (called r a)))
          (a.client a.turn (to_gateway_request r))

    -- What is tried first, and why it was not.
    reason_of : Option ProviderError → Text
    unfolding txt
    reason_of none = txt "gateway_error"
    reason_of (some e) = elim e.cause [
      | none ↦ txt "gateway_error"
      | some cause ↦ if is_deadline cause then txt "gateway_timeout" else txt "gateway_error"
    ]

    provided : Option ProviderError → Option Cause
    provided none = none
    provided (some e) = some (provider e)

    after_attempts :
        RerankRequest S
        → (List (RerankCandidate S) ⊎ Option ProviderError) × RerankerAdapter S
        → Answer S × RerankerAdapter S
    unfolding reason_of provided fallback_trace
    after_attempts r (inl candidates, a) = ((candidates, none), a)
    after_attempts r (inr last, a) = (
      apply_fallback f a.cfg r (provided last),
      record_trace (fallback_trace (txt "fallback") (reason_of last)) (register_failure a),
    )

    tripped : RerankRequest S → RerankerAdapter S → Answer S × RerankerAdapter S
    unfolding fallback_trace
    tripped r a =
        let reason = txt "gateway_circuit_open" in
        (
          apply_fallback f a.cfg r (some (plain (new reason))),
          record_trace (fallback_trace (txt "circuit_open") reason) a,
        )

    pub rerank_valid :
        Result (Unit {0}) → RerankRequest S → RerankerAdapter S → Answer S × RerankerAdapter S
    unfolding after_attempts tripped
    rerank_valid (err e) r a =
        (([], some (failed (plain (wrap_validation_err (txt "rerank_request") e)))), a)
    rerank_valid (ok _) r a =
        let tried = after_attempts r (attempts (rounds a.cfg.retry_max) r none a) in
        if is_circuit_open a then tripped r a else tried

    unfoldable pub rerank : RerankRequest S → RerankerAdapter S → Answer S × RerankerAdapter S
    unfolding rerank_valid
    rerank r a = rerank_valid (validate_rerank_request r) r a
