-- ===== src/Gateway/Portkey/Calls/Among.antt =====
-- internal/adapters/gateway/portkey/reranker.go: the candidates that `Rerank` returns over HTTP.
use fine_rag_core.Prelude.{
  ℕ, ◌+◌, ◌≡◌, refl, sym, ap, ◌∙◌, subst, ℤ, Bool, Option, List, is_empty, Bool-cases, inl, inr,
}
use fine_rag_core.Text.{txt, str_eq, Unicode}
use fine_rag_core.Result.{Err, Result, ok, err, reject_if, Ensures, bind-Ensures}
use fine_rag_core.Contracts.Retrieval.{
  Float64, RerankCandidate, RerankRequest, validate_rerank_request,
}
use fine_rag_core.Gateway.{Http, is_refused}
use fine_rag_core.Gateway.Known.{AllAmong, picked-Among, top_candidates-Among}
use fine_rag_core.Gateway.Portkey.{
  TokenUsage, GatewayRequest, Config, Cause, RerankerAdapter, Answer, to_gateway_request,
  is_allowlisted, apply_fallback, rerank_valid, rerank,
}
use fine_rag_core.Gateway.Portkey.Calls.{
  decoded, rerank_body, failing, http_request, refused, portkey_client,
}
use fine_rag_core.Gateway.Portkey.Settled.{
  Settled, kept_open, answered, fell_back, rerank_valid-Settled,
}

module _ {S : Type 0} where
  -- What the client answers over HTTP.
  portkey_client-Among :
      (h : Http S) (c : Config) (turn : ℕ) (r : GatewayRequest S)
      → Ensures (λ o. AllAmong r.candidates o.0) (portkey_client h c turn r)
  unfolding portkey_client decoded
  portkey_client-Among h c turn r = bind-Ensures P (h.marshal (rerank_body c.model r)) _ λ raw.
      bind-Ensures P (failing (h.new_request (http_request c raw).url)) _ λ _.
        bind-Ensures P (h.send turn (http_request c raw)) _ λ response.
          bind-Ensures P (reject_if (is_refused response) (refused response)) _ λ _.
            bind-Ensures P (h.decode response.body) _ λ payload.
              bind-Ensures P (reject_if (is_empty payload.results) _) _
                λ _. picked-Among r.candidates payload.results
    where
      P : List (RerankCandidate S) × TokenUsage → Type 0
      P o = AllAmong r.candidates o.0

  apply_fallback-Among :
      (f : Float64 S) (c : Config) (r : RerankRequest S) (e : Option Cause)
      → AllAmong r.candidates (apply_fallback f c r e).0
  unfolding apply_fallback
  apply_fallback-Among f c r e = elim (Bool-cases (str_eq c.fallback_mode (txt "retrieval_only"))) [
    | inl m ↦ rw m (top_candidates-Among f r)
    | inr m ↦ elim (Bool-cases (str_eq c.fallback_mode (txt "direct_allowlist"))) [
      | inl m' ↦
          rw (m, m')
            (elim (Bool-cases (is_allowlisted r.tenant_id c.direct_allowlist)) [
              | inl m'' ↦ rw m'' (top_candidates-Among f r)
              | inr m'' ↦ rw m'' tt
            ])
      | inr m' ↦ rw (m, m') tt
    ]
  ]

  module _ (f : Float64 S) (u : Unicode) (is_deadline : Err → Bool) (elapsed : ℕ → ℤ) where
    -- However a call ends.
    Settled-Among :
        (n : ℕ) (h : Http S) (c : Config) (r : RerankRequest S) (a : RerankerAdapter S)
        {o : Answer S × RerankerAdapter S}
        → a.client ≡ portkey_client h c
        → Settled f u is_deadline elapsed n r a o
        → AllAmong r.candidates o.0.0
    unfolding to_gateway_request
    Settled-Among n h c r a over (kept_open e a' s t i) = apply_fallback-Among f a.cfg r e
    Settled-Among n h c r a over (fell_back e a' s x i) = apply_fallback-Among f a.cfg r e
    Settled-Among n h c r a over (answered i candidates a' s small x) =
        subst (Ensures λ o. AllAmong r.candidates o.0)
          (ap (λ k. k (a.turn + i) (to_gateway_request r)) (sym over) ∙ x.answered)
          (portkey_client-Among h c (a.turn + i) (to_gateway_request r))

    -- Whatever the service answers, every candidate that `Rerank` returns is one of the request, with
    -- its text, though perhaps with another score: after an answer over HTTP, a fallback or an error.
    pub rerank-Among :
        (h : Http S) (c : Config) (r : RerankRequest S) (a : RerankerAdapter S)
        → a.client ≡ portkey_client h c
        → AllAmong r.candidates (rerank f u is_deadline elapsed r a).0.0
    unfolding rerank
    rerank-Among h c r a over = by_valid (validate_rerank_request r) refl
      where
        by_valid :
            (o : Result (Unit {0}))
            → validate_rerank_request r ≡ o
            → AllAmong r.candidates (rerank_valid f u is_deadline elapsed o r a).0.0
        by_valid (err e) v = unfold rerank_valid in tt
        by_valid (ok _) v =
            Settled-Among _ h c r a over (rerank_valid-Settled f u is_deadline elapsed r a)
