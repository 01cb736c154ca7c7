-- ===== src/Ingestion/Worker/Process/Retry.antt =====
-- internal/services/ingestion/service.go: `retryOrDLQ` keeps to the retry budget, and a message that
-- is put back again and again runs out of it.
use mathlib.Core.List.{append_cancel_right}
use fine_rag_core.Prelude.{
  All-without, ℕ, zero, suc, ◌+◌, ◌≡◌, ◌≤◌, ◌<◌, refl, sym, ◌∙◌, ap, subst, ◌++◌, pos, leb_ℤ, inc,
  max_int, true, false, none, ◌∷◌, All, arith, ◌⊎◌,
}
use fine_rag_core.Contracts.Job.{QueueMessage}
use fine_rag_core.Ingestion.Worker.Effects.{Call, enqueue_call, publish_call, Log, Extends}
use fine_rag_core.Ingestion.Worker.{Worker}
use fine_rag_core.Ingestion.Worker.Process.{retention_set, retried, with_key, process_message}
use fine_rag_core.Ingestion.Worker.Process.Calls.{Permits, process_message-Makes}

-- A message that goes back to the queue is `m` with one attempt more, within the budget. One that
-- goes to the dead letters is `m` itself, out of budget where there is a queue to go back to.
abbrev pub Budget : {E : Type 0} → Worker E → QueueMessage → Call E → Type 0
Budget w m (enqueue_call n) =
    (n.job ≡ m.job) × (n.attempt ≡ inc m.attempt) × (leb_ℤ n.attempt (pos w.max_retries) ≡ true)
Budget w m (publish_call n reason) =
    (n ≡ m) × ((w.producer ≡ none) ⊎ (leb_ℤ (inc m.attempt) (pos w.max_retries) ≡ false))
Budget w m _ = Unit

Budget-Permits : {E : Type 0} (w : Worker E) (m : QueueMessage) → Permits w m (Budget w m)
Budget-Permits w m = record {
  lookups = tt;
  loads = tt;
  embeds = λ payload read. tt;
  upserts = λ now chunks vectors records built n. tt;
  saves = tt;
  applies = λ now. unfold retention_set in (tt, (tt, (tt, tt)));
  enqueues = λ log within. unfold retried in (refl, refl, within);
  publishes = λ reason over. (refl, over);
}

-- The processing of a message puts it back only with one attempt more and within the budget, and
-- gives it to the dead letters only when the budget is used up or there is no queue to put it into.
pub process_message-Budget :
    {E : Type 0} (w : Worker E) (m : QueueMessage) (log : Log E)
    → Extends (Budget w (with_key w m)) log (process_message w m log).1
process_message-Budget w m log =
    (process_message-Makes w m (Budget w (with_key w m)) (Budget-Permits w (with_key w m))).at log

-- The processing of `m` puts `n` back: one of the calls that it makes enqueues it.
pub data PutBack {E : Type 0} (w : Worker E) (m n : QueueMessage) : Type 0 where
  put_back :
      (log later earlier : Log E)
      → (process_message w m log).1 ≡ (later ++ enqueue_call n ∷ earlier) ++ log
      → PutBack w m n

-- A message that goes round `k` times.
pub data Rounds {E : Type 0} (w : Worker E) : ℕ → QueueMessage → Type 0 where
  stop : (m : QueueMessage) → Rounds w zero m
  again : {k : ℕ} (m n : QueueMessage) → PutBack w m n → Rounds w k n → Rounds w (suc k) m

with_key-attempt :
    {E : Type 0} (w : Worker E) (m : QueueMessage) → (with_key w m).attempt ≡ m.attempt
unfolding with_key
with_key-attempt w m = ground arith

-- The next attempt, from what the budget says of an enqueued message.
next_attempt :
    (n m : QueueMessage) (a b : ℕ)
    → n.attempt ≡ inc m.attempt
    → leb_ℤ n.attempt (pos b) ≡ true
    → m.attempt ≡ pos a
    → a ≤ b
    → b < max_int
    → (n.attempt ≡ pos (suc a)) × (suc a ≤ b)
next_attempt n m a b next within h le small = ground arith

PutBack-attempt :
    {E : Type 0} (w : Worker E) (m n : QueueMessage)
    → PutBack w m n
    → (n.attempt ≡ inc m.attempt) × (leb_ℤ n.attempt (pos w.max_retries) ≡ true)
PutBack-attempt w m n (put_back log later earlier h) =
    let (made, same, all) = process_message-Budget w m log in
    let one : All (Budget w (with_key w m)) (later ++ enqueue_call n ∷ earlier) =
      subst (All (Budget w (with_key w m))) (append_cancel_right made _ log (sym same ∙ h)) all in
    let (kept, _) = All-without (Budget w (with_key w m)) later (enqueue_call n) earlier one in
    (kept.1 ∙ ap inc (with_key-attempt w m), kept.2)

-- A message with attempt count `a` is put back at most `max_retries - a` times in a row, whatever the
-- collaborators answer. (The budget is below the largest `int`.)
pub Rounds-le :
    {E : Type 0} (w : Worker E) (k a : ℕ) (m : QueueMessage)
    → w.max_retries < max_int
    → a ≤ w.max_retries
    → m.attempt ≡ pos a
    → Rounds w k m
    → a + k ≤ w.max_retries
Rounds-le w zero a m small le h r = omega arith
Rounds-le w (suc k) a m small le h (again _ n p r) =
    let (next, within) = PutBack-attempt w m n p in
    let (h', le') = next_attempt n m a w.max_retries next within h le small in
    omega (arith, Rounds-le w k (suc a) n small le' h' r)
