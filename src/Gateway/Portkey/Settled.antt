-- ===== src/Gateway/Portkey/Settled.antt =====
-- internal/adapters/gateway/portkey/reranker.go: how a call of `Rerank` ends.
use fine_rag_core.Prelude.{
  ℕ, zero, suc, ◌+◌, ◌<◌, ◌≡◌, refl, ap, ◌∙◌, ℤ, pos, inc, Bool, true, false, Option, none, List,
  ◌⊎◌, inl, inr, Bool-cases, arith,
}
use fine_rag_core.Text.{Unicode}
use fine_rag_core.Result.{Err, Result, ok, err, on_result}
use fine_rag_core.Contracts.Audit.{ProviderError}
use fine_rag_core.Contracts.Retrieval.{Float64, RerankCandidate, RerankRequest}
use fine_rag_core.Gateway.Portkey.{
  TokenUsage, RerankerAdapter, Cause, Answer, to_gateway_request, is_circuit_open, apply_fallback,
  rounds, called, succeeded, wrapped, attempts, after_attempts, tripped, rerank_valid,
}

module _ {S : Type 0} where
  -- The first `n` calls of the client fail.
  abbrev pub Fails : RerankRequest S → RerankerAdapter S → ℕ → Type 0
  Fails r a n = (i : ℕ) → i < n → (e : Err) × (a.client (a.turn + i) (to_gateway_request r) ≡ err e)

  -- The call after `i` that failed gives the candidates; the adapter counts no failure any more.
  pub record Succeeded (r : RerankRequest S) (a : RerankerAdapter S) (i : ℕ)
      (candidates : List (RerankCandidate S)) (a' : RerankerAdapter S) : Type 0 where
    pub usage : TokenUsage
    pub fails : Fails r a i
    pub answered : a.client (a.turn + i) (to_gateway_request r) ≡ ok (candidates, usage)
    pub failures : a'.failures ≡ pos 0
    pub turn : a'.turn ≡ a.turn + i + 1

  -- `n` calls were made, and all failed.
  pub record Exhausted (r : RerankRequest S) (a : RerankerAdapter S) (n : ℕ)
      (a' : RerankerAdapter S) : Type 0 where
    pub fails : Fails r a n
    pub turn : a'.turn ≡ a.turn + n

  -- A call that failed goes in front of those that do.
  Fails-suc :
      (r : RerankRequest S) (a : RerankerAdapter S) (n : ℕ) (e : Err)
      → a.client a.turn (to_gateway_request r) ≡ err e
      → Fails r (called r a) n
      → Fails r a (suc n)
  Fails-suc r a n e h rest zero small =
      (e, ap (λ t. a.client t (to_gateway_request r)) (omega arith) ∙ h)
  Fails-suc r a n e h rest (suc i) small =
      let (e', h') = rest i (omega arith) in
      (e', ap (λ t. a.client t (to_gateway_request r)) (omega arith) ∙ h')

  module _ (f : Float64 S) (u : Unicode) (is_deadline : Err → Bool) (elapsed : ℕ → ℤ) where
    -- How the attempts of a call end.
    data Ends (n : ℕ) (r : RerankRequest S) (a : RerankerAdapter S)
        : (List (RerankCandidate S) ⊎ Option ProviderError) × RerankerAdapter S → Type 0 where
      success :
          (i : ℕ) (candidates : List (RerankCandidate S)) (a' : RerankerAdapter S)
          → i < n
          → Succeeded r a i candidates a'
          → Ends n r a (inl candidates, a')
      exhausted :
          (last : Option ProviderError) (a' : RerankerAdapter S)
          → Exhausted r a n a'
          → a'.failures ≡ a.failures
          → a'.cfg ≡ a.cfg
          → Ends n r a (inr last, a')

    Ends-suc :
        (n : ℕ) (r : RerankRequest S) (a : RerankerAdapter S) (e : Err)
        {o : (List (RerankCandidate S) ⊎ Option ProviderError) × RerankerAdapter S}
        → a.client a.turn (to_gateway_request r) ≡ err e
        → Ends n r (called r a) o
        → Ends (suc n) r a o
    Ends-suc n r a e h (success i candidates a' small s) =
        success (suc i) candidates a' (omega arith) (record {
          usage = s.usage;
          fails = Fails-suc r a i e h s.fails;
          answered = ap (λ t. a.client t (to_gateway_request r)) (omega arith) ∙ s.answered;
          failures = s.failures;
          turn = s.turn ∙ omega arith;
        })
    Ends-suc n r a e h (exhausted last a' x failures cfg) =
        exhausted last a'
          (record { fails = Fails-suc r a n e h x.fails; turn = x.turn ∙ omega arith }) failures cfg

    attempts-Ends :
        (n : ℕ) (r : RerankRequest S) (last : Option ProviderError) (a : RerankerAdapter S)
        → Ends n r a (attempts f u is_deadline elapsed n r last a)
    unfolding attempts
    attempts-Ends zero r last a =
        exhausted last a (record { fails = λ i small. absurd (omega arith); turn = omega arith })
          refl refl
    attempts-Ends (suc n) r last a =
        by_answer (a.client a.turn (to_gateway_request r)) refl
          λ e. attempts-Ends n r _ (called r a)
      where
        next : Err → (List (RerankCandidate S) ⊎ Option ProviderError) × RerankerAdapter S
        next e =
            attempts f u is_deadline elapsed n r (wrapped f u is_deadline elapsed e) (called r a)

        by_answer :
            (o : Result (List (RerankCandidate S) × TokenUsage))
            → a.client a.turn (to_gateway_request r) ≡ o
            → ((e : Err) → Ends n r (called r a) (next e))
            → Ends (suc n) r a (
                on_result next
                  (λ answer.
                    (inl answer.0, succeeded f u is_deadline elapsed a.turn answer (called r a)))
                  o)
        by_answer (err e) h ih = Ends-suc n r a e h (ih e)
        by_answer (ok (candidates, usage)) h ih = success 0 candidates _ (omega arith) (record {
          usage = usage;
          fails = λ i small. absurd (omega arith);
          answered = ap (λ t. a.client t (to_gateway_request r)) (omega arith) ∙ h;
          failures = refl;
          turn = omega arith;
        })

    -- How a call of `Rerank` ends: with the breaker open nothing is called; else the client is called
    -- up to `n` times, until it succeeds.
    pub data Settled (n : ℕ) (r : RerankRequest S) (a : RerankerAdapter S)
        : Answer S × RerankerAdapter S → Type 0 where
      kept_open :
          (e : Option Cause) (a' : RerankerAdapter S)
          → is_circuit_open a ≡ true
          → a'.turn ≡ a.turn
          → a'.failures ≡ a.failures
          → Settled n r a (apply_fallback f a.cfg r e, a')
      answered :
          (i : ℕ) (candidates : List (RerankCandidate S)) (a' : RerankerAdapter S)
          → is_circuit_open a ≡ false
          → i < n
          → Succeeded r a i candidates a'
          → Settled n r a ((candidates, none), a')
      fell_back :
          (e : Option Cause) (a' : RerankerAdapter S)
          → is_circuit_open a ≡ false
          → Exhausted r a n a'
          → a'.failures ≡ inc a.failures
          → Settled n r a (apply_fallback f a.cfg r e, a')

    after_attempts-Settled :
        (r : RerankRequest S) (a : RerankerAdapter S) (n : ℕ)
        {o : (List (RerankCandidate S) ⊎ Option ProviderError) × RerankerAdapter S}
        → is_circuit_open a ≡ false
        → Ends n r a o
        → Settled n r a (after_attempts f u is_deadline elapsed r o)
    unfolding after_attempts
    after_attempts-Settled r a n shut (success i candidates a' small s) =
        answered i candidates a' shut small s
    after_attempts-Settled r a n shut (exhausted last a' x failures cfg) =
        rw cfg (fell_back _ _ shut (record { fails = x.fails; turn = x.turn }) (ap inc failures))

    pub rerank_valid-Settled :
        (r : RerankRequest S) (a : RerankerAdapter S)
        → Settled (rounds a.cfg.retry_max) r a (rerank_valid f u is_deadline elapsed (ok tt) r a)
    unfolding rerank_valid tripped
    rerank_valid-Settled r a = elim (Bool-cases (is_circuit_open a)) [
      | inl e ↦ rw e (kept_open _ _ e refl refl)
      | inr e ↦ rw e (after_attempts-Settled r a _ e (attempts-Ends _ r none a))
    ]
