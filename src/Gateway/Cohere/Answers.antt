-- ===== src/Gateway/Cohere/Answers.antt =====
-- internal/adapters/gateway/cohere/reranker.go: a valid request is always answered.
use fine_rag_core.Prelude.{
  ℕ, ◌+◌, ◌≤◌, ◌≡◌, refl, ℤ, pos, none, List, is_empty, Bool-cases, inl, inr, length, ltb, arith,
}
use fine_rag_core.Text.{Text, txt}
use fine_rag_core.Result.{Result, ok, err, on_result}
use fine_rag_core.Contracts.Retrieval.{
  Float64, RerankCandidate, RerankRequest, top_candidates, validate_rerank_request,
}
use fine_rag_core.Gateway.{
  HttpRequest, HttpResponse, RerankBody, RerankPayload, Http, is_refused, picked,
}
use fine_rag_core.Gateway.Known.{AllAmong, picked-Among, top_candidates-Among}
use fine_rag_core.Gateway.Cohere.{
  CohereReranker, Answer, is_circuit_open, record_failure, reset_failures, record_trace, rerank_url,
  rerank_body, http_request, top, read, responded, sent, requested, called, rerank_valid, rerank,
}

module _ {S : Type 0} (f : Float64 S) (h : Http S) (elapsed : ℕ → ℤ) where
  -- Candidates of the request, with at most one call made from `turn` on.
  pub record Answered (r : RerankRequest S) (turn : ℕ) (o : Answer S) : Type 0 where
    pub candidates : List (RerankCandidate S)
    pub succeeded : o.0 ≡ ok candidates
    pub among : AllAmong r.candidates candidates
    pub called_once : o.1.turn ≤ turn + 1

  top-Answered :
      (r : RerankRequest S) (a : CohereReranker) (turn : ℕ)
      → a.turn ≤ turn + 1
      → Answered r turn (top f h elapsed r a)
  unfolding top
  top-Answered r a turn small = record {
    candidates = top_candidates f r;
    succeeded = refl;
    among = top_candidates-Among f r;
    called_once = small;
  }

  read-Answered :
      (r : RerankRequest S) (a : CohereReranker) (turn : ℕ) (p : RerankPayload S)
      → a.turn ≤ turn + 1
      → Answered r turn (read f h elapsed turn r a p)
  unfolding read record_trace
  read-Answered r a turn p small = elim (Bool-cases (is_empty p.results)) [
    | inl e ↦ rw e (top-Answered r a turn small)
    | inr e ↦ rw e (record {
      candidates = picked r.candidates p.results;
      succeeded = refl;
      among = picked-Among r.candidates p.results;
      called_once = small;
    })
  ]

  responded-Answered :
      (r : RerankRequest S) (a : CohereReranker) (turn : ℕ) (response : HttpResponse)
      → a.turn ≤ turn + 1
      → Answered r turn (responded f h elapsed turn r a response)
  unfolding responded record_trace
  responded-Answered r a turn response small = elim (Bool-cases (is_refused response)) [
    | inl e ↦ rw e (top-Answered r _ turn small)
    | inr e ↦ rw e (by_payload (h.decode response.body))
  ]
    where
      by_payload :
          (o : Result (RerankPayload S))
          → Answered r turn (
              on_result
                (λ e. top f h elapsed r (reset_failures a))
                (read f h elapsed turn r (reset_failures a))
                o)
      by_payload (err e) = top-Answered r _ turn small
      by_payload (ok p) = read-Answered r (reset_failures a) turn p small

  sent-Answered :
      (r : RerankRequest S) (a : CohereReranker) (request : HttpRequest)
      → Answered r a.turn (sent f h elapsed r request a)
  unfolding sent record_trace
  sent-Answered r a request = by_response (h.send a.turn request)
    where
      after : CohereReranker
      after = record a { turn = a.turn + 1 }

      by_response :
          (o : Result HttpResponse)
          → Answered r a.turn (
              on_result
                (λ e.
                  top f h elapsed r
                    (record_trace (txt "timeout") (elapsed a.turn) (pos 0) (record_failure after)))
                (responded f h elapsed a.turn r after)
                o)
      by_response (err e) = top-Answered r _ a.turn (omega arith)
      by_response (ok response) = responded-Answered r after a.turn response (omega arith)

  called-Answered :
      (r : RerankRequest S) (a : CohereReranker)
      → ((body : RerankBody) → (raw : Text) × (h.marshal body ≡ ok raw))
      → h.new_request rerank_url ≡ none
      → Answered r a.turn (called f h elapsed r a)
  unfolding called requested http_request
  called-Answered r a writes built =
      let (raw, written) = writes (rerank_body a.cfg r) in
      rw written (rw built (sent-Answered r a (http_request a.cfg raw)))

  -- A valid request gets candidates of its own and no error, whatever the service answers and however
  -- often it has failed, and at most one call is made for it; it is assumed that the body can be
  -- written as JSON and that the fixed URL can be parsed.
  pub rerank-Answered :
      (r : RerankRequest S) (a : CohereReranker)
      → ((body : RerankBody) → (raw : Text) × (h.marshal body ≡ ok raw))
      → h.new_request rerank_url ≡ none
      → validate_rerank_request r ≡ ok tt
      → Answered r a.turn (rerank f h elapsed r a)
  unfolding rerank rerank_valid
  rerank-Answered r a writes built valid =
      let fallback = top-Answered r a a.turn (omega arith) in
      rw valid (elim (Bool-cases (ltb (length r.candidates) 3)) [
        | inl e ↦ rw e fallback
        | inr e ↦ elim (Bool-cases (is_circuit_open a)) [
          | inl e' ↦ rw (e, e') fallback
          | inr e' ↦ rw (e, e') (called-Answered r a writes built)
        ]
      ])
