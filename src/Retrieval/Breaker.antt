-- ===== src/Retrieval/Breaker.antt =====
-- internal/services/retrieval/service.go: the circuit breaker before the reranker, and the candidates
-- that `Rerank` returns.
use Prim.Native.Nat.{min}
use fine_rag_core.Prelude.{
  ℕ, suc, ◌+◌, ◌-◌, ◌≡◌, ◌≤◌, ◌<◌, refl, ap, ◌∙◌, ℤ, pos, leb_ℤ, inc, max_int, true, leb, false,
  ◌||◌, Option, none, some, List, [], ◌∷◌, take, length, length-take, All, Bool-cases, inl, inr,
  arith, if◌then◌else◌,
}
use fine_rag_core.Result.{Err, Result, ok, err}
use fine_rag_core.Contracts.Tenant.{RequestMetadata}
use fine_rag_core.Contracts.Retrieval.{Float64, RerankCandidate, RerankRequest, top_candidates}
use fine_rag_core.Retrieval.{
  Reranker, Service, State, next_turn, register_failure, is_circuit_open, admit_rerank, cut_at,
  after_call, rerank_by, rerank_admitted, rerank,
}

-- A call of `Rerank`.
abbrev pub Request : Type 0 → Type 0
Request S = RequestMetadata × RerankRequest S

limit_reached : (x : ℤ) (t a : ℕ) → x ≡ pos a → leb_ℤ (pos t) x ≡ true → t ≤ a
limit_reached x t a h e = ground arith

limit_ahead : (x : ℤ) (t a : ℕ) → x ≡ pos a → leb_ℤ (pos t) x ≡ false → a < t
limit_ahead x t a h e = ground arith

inc_pos : (x : ℤ) (a : ℕ) → x ≡ pos a → a < max_int → inc x ≡ pos (suc a)
inc_pos x a h small = ground arith

module _ {S E : Type 0} (f : Float64 S) (s : Service S E) where
  -- One call after the other.
  unfoldable pub rerank_all : List (Request S) → State → State
  unfolding rerank
  rerank_all [] st = st
  rerank_all ((m, r) ∷ rs) st = rerank_all rs (rerank f s m r st).1

  abbrev pub Admitted : Request S → Type 0
  Admitted (m, r) = admit_rerank f s m r ≡ ok tt

  rerank-tripped :
      (k : Reranker S) (m : RequestMetadata) (r : RerankRequest S) (st : State)
      → s.reranker ≡ some k
      → is_circuit_open f s st ≡ true
      → (rerank f s m r st).1 ≡ st
  unfolding rerank rerank_admitted rerank_by
  rerank-tripped k m r st has tripped = by_answer (admit_rerank f s m r)
    where
      by_present : (o : Option (Reranker S)) → (rerank_by f s o r st).1 ≡ st
      by_present none = refl
      by_present (some k) = rw tripped refl

      by_answer : (a : Result (Unit {0})) → (rerank_admitted f s a r st).1 ≡ st
      by_answer (err e) = refl
      by_answer (ok _) = by_present s.reranker

  -- Once the breaker is open it stays open: no sequence of requests changes the state, and so the
  -- reranker is never called again.
  pub rerank_all-tripped :
      (k : Reranker S) (rs : List (Request S)) (st : State)
      → s.reranker ≡ some k
      → is_circuit_open f s st ≡ true
      → rerank_all rs st ≡ st
  unfolding rerank_all
  rerank_all-tripped k [] st has tripped = refl
  rerank_all-tripped k ((m, r) ∷ rs) st has tripped =
      ap (rerank_all rs) (rerank-tripped k m r st has tripped)
      ∙ rerank_all-tripped k rs st has tripped

  -- Fails, whatever it is asked and when.
  abbrev pub Down : Reranker S → Type 0
  Down k = (turn : ℕ) (r : RerankRequest S) → (e : Err) × (k.rerank_with_timeout turn r ≡ err e)

  rerank-Down :
      (k : Reranker S) (m : RequestMetadata) (r : RerankRequest S) (st : State)
      → s.reranker ≡ some k
      → Down k
      → Admitted (m, r)
      → (rerank f s m r st).1
        ≡ (if is_circuit_open f s st then st else register_failure (next_turn st))
  unfolding rerank rerank_admitted rerank_by after_call
  rerank-Down k m r st has down admitted =
      let (e, fails) = down st.turn r in
      elim (Bool-cases (is_circuit_open f s st)) [
        | inl e ↦ rw (admitted, has, e) refl
        | inr e ↦ rw (admitted, has, e, fails) refl
      ]

  -- A reranker that fails every time is called only until the failures reach the threshold: of `n`
  -- admitted requests after `a` failures in a row, the first `threshold - a` call it, or all if there
  -- are fewer, each is one failure more, and the others are answered without a call.
  pub rerank_all-Down :
      (k : Reranker S) (rs : List (Request S)) (st : State) (a : ℕ)
      → s.reranker ≡ some k
      → Down k
      → s.failure_threshold < max_int
      → a ≤ s.failure_threshold
      → st.consecutive_rerank_failures ≡ pos a
      → All Admitted rs
      → ((rerank_all rs st).consecutive_rerank_failures
          ≡ pos (min (a + length rs) s.failure_threshold))
        × ((rerank_all rs st).turn ≡ st.turn + (min (a + length rs) s.failure_threshold - a))
  unfolding rerank_all
  rerank_all-Down k [] st a has down small within failed admitted =
      (failed ∙ ap pos (omega arith), omega arith)
  rerank_all-Down k ((m, r) ∷ rs) st a has down small within failed (here, rest) =
      elim (Bool-cases (is_circuit_open f s st)) [
        | inl e ↦
            let reached = limit_reached _ s.failure_threshold a failed e in
            let (failures, turns) = rerank_all-Down k rs st a has down small within failed rest in
            let same : rerank_all ((m, r) ∷ rs) st ≡ rerank_all rs st =
              ap (rerank_all rs) (rerank-tripped k m r st has e) in
            (
              ap (λ x. x.consecutive_rerank_failures) same ∙ (failures ∙ ap pos (omega arith)),
              ap (λ x. x.turn) same ∙ (turns ∙ omega arith),
            )
        | inr e ↦
            let ahead = limit_ahead _ s.failure_threshold a failed e in
            let (failures, turns) =
              rerank_all-Down k rs (register_failure (next_turn st)) (suc a) has down small
                (omega arith) (inc_pos _ a failed (omega arith)) rest in
            let same : rerank_all ((m, r) ∷ rs) st
                ≡ rerank_all rs (register_failure (next_turn st)) =
              ap (rerank_all rs) (
                rerank-Down k m r st has down here
                ∙ ap (λ b. if b then st else register_failure (next_turn st)) e) in
            (
              ap (λ x. x.consecutive_rerank_failures) same ∙ (failures ∙ ap pos (omega arith)),
              ap (λ x. x.turn) same ∙ (turns ∙ omega arith),
            )
      ]

module _ {A : Type 0} where
  -- A list that is cut at `n` if it is longer.
  length-cut : (xs : List A) (n : ℕ) → length (if leb (length xs) n then xs else take n xs) ≤ n
  length-cut xs n = elim (Bool-cases (leb (length xs) n)) [
    | inl e ↦ rw e (ground arith)
    | inr e ↦ rw e (ground (arith, length-take n xs))
  ]

  length-cut_pos :
      (xs : List A) (n : ℕ)
      → 0 < n
      → length (if leb n 0 || leb (length xs) n then xs else take n xs) ≤ n
  length-cut_pos xs n h = rw (leb_pos n h) (length-cut xs n)
    where
      leb_pos : (n : ℕ) → 0 < n → leb n 0 ≡ false
      leb_pos n h = ground arith

module _ {S E : Type 0} (f : Float64 S) (s : Service S E) where
  top_candidates-le :
      (r : RerankRequest S) (n : ℕ) → r.top_n ≡ pos n → 0 < n → length (top_candidates f r) ≤ n
  unfolding top_candidates
  top_candidates-le r n h positive = rw h (length-cut_pos _ n positive)

  rerank_by-le :
      (k : Option (Reranker S)) (r : RerankRequest S) (st : State) (n : ℕ)
      → r.top_n ≡ pos n
      → 0 < n
      → length (rerank_by f s k r st).0.0 ≤ n
  unfolding rerank_by after_call cut_at
  rerank_by-le none r st n h positive = top_candidates-le r n h positive
  rerank_by-le (some k) r st n h positive = elim (Bool-cases (is_circuit_open f s st)) [
    | inl e ↦ rw e (top_candidates-le r n h positive)
    | inr e ↦ rw e (answered (k.rerank_with_timeout st.turn r))
  ]
    where
      answered :
          (a : Result (List (RerankCandidate S)))
          → length (after_call f s r (next_turn st) a).0.0 ≤ n
      answered (err e) = top_candidates-le r n h positive
      answered (ok ranked) = rw h (length-cut ranked n)

  -- `Rerank` returns no more candidates than are asked for, whether the request is admitted or not,
  -- the breaker is open, the reranker fails, or it answers with too many.
  pub length-rerank_le :
      (m : RequestMetadata) (r : RerankRequest S) (st : State) (n : ℕ)
      → r.top_n ≡ pos n
      → 0 < n
      → length (rerank f s m r st).0.0 ≤ n
  unfolding rerank rerank_admitted
  length-rerank_le m r st n h positive = by_answer (admit_rerank f s m r)
    where
      by_answer : (a : Result (Unit {0})) → length (rerank_admitted f s a r st).0.0 ≤ n
      by_answer (err e) = omega arith
      by_answer (ok _) = rerank_by-le s.reranker r st n h positive
