-- ===== src/Ingestion/Worker/Process/Poison.antt =====
-- internal/services/ingestion/service.go over the queue in memory of queue_provider.go: a message
-- whose blob cannot be read.
use fine_rag_core.Prelude.{
  ℕ, zero, suc, ◌+◌, ◌≡◌, ◌<◌, refl, ap, ◌∙◌, ℤ, pos, inc, leb_ℤ, max_int, true, false, List, [],
  ◌∷◌, ◌++◌, is_empty, arith,
}
use fine_rag_core.Text.{txt}
use fine_rag_core.Result.{ok}
use fine_rag_core.Contracts.Job.{QueueMessage, validate_queue_message}
use fine_rag_core.Ingestion.Queue.{InMemoryQueueAdapter, enqueue, publish}
use fine_rag_core.Ingestion.Queue.Fifo.{dequeue-cons}
use fine_rag_core.Ingestion.Worker.Effects.{dequeue_call, Log}
use fine_rag_core.Ingestion.Worker.{Worker}
use fine_rag_core.Ingestion.Worker.Process.{retried, retry_or_dlq, process_next}
use fine_rag_core.Ingestion.Worker.Process.InMemory.{
  apply, queue_of, in_memory, rounds, Failing, tried, process_message-fails, queue_of-tried,
  retry-within, retry-over, process_next-head, Holds,
}

retried-valid :
    {E : Type 0} (w : Worker E) (f : Failing w) (m : QueueMessage) (log : Log E) (a : ℕ)
    → validate_queue_message m ≡ ok tt
    → m.attempt ≡ pos a
    → a < max_int
    → (validate_queue_message (retried w m log) ≡ ok tt) × ((retried w m log).attempt ≡ pos (suc a))
unfolding validate_queue_message retried
retried-valid w f m log a valid h small = (ground (arith, f.ticks log), ground arith)

module _ {E : Type 0} (w : Worker E) (m : QueueMessage) (log : Log E) where
  named_retried :
      is_empty m.idempotency_key ≡ false → is_empty (retried w m log).idempotency_key ≡ false
  unfolding retried
  named_retried h = h

  job_retried : (retried w m log).job ≡ m.job
  unfolding retried
  job_retried = refl

budget_over : (x : ℤ) (b : ℕ) → x ≡ pos b → b < max_int → leb_ℤ (inc x) (pos b) ≡ false
budget_over x b h small = ground arith

budget_within : (x : ℤ) (a b : ℕ) → x ≡ pos a → a < b → b < max_int → leb_ℤ (inc x) (pos b) ≡ true
budget_within x a b h lt small = ground arith

module _ {E : Type 0} (q : InMemoryQueueAdapter) (w : Worker E) (f : Failing (in_memory q w))
    (small : w.max_retries < max_int) where
  round-calls :
      (m : QueueMessage) (dead : List QueueMessage) (log : Log E)
      → validate_queue_message m ≡ ok tt
      → is_empty m.idempotency_key ≡ false
      → Holds q m dead log
      → process_next (in_memory q w) log
        ≡ retry_or_dlq
            (in_memory q w)
            m
            (txt "blob_fetch_failed")
            f.cause
            (tried (in_memory q w) f m (dequeue_call ∷ log))
  round-calls m dead log valid named h =
      process_next-head q w m [] log (ap (λ r. r.messages) h)
      ∙ process_message-fails (in_memory q w) f m (dequeue_call ∷ log) valid named

  -- After the calls before it is handed on, the queue has lost the message.
  taken :
      (m : QueueMessage) (dead : List QueueMessage) (log : Log E)
      → Holds q m dead log
      → queue_of q (tried (in_memory q w) f m (dequeue_call ∷ log))
        ≡ record { messages = []; dlq = dead }
  unfolding queue_of apply
  taken m dead log h =
      queue_of-tried q (in_memory q w) f m (dequeue_call ∷ log)
      ∙ (ap (λ r. r.1) (dequeue-cons (queue_of q log) m [] (ap (λ r. r.messages) h))
          ∙ ap (λ (r : InMemoryQueueAdapter). record r { messages = [] }) h)

  round-over :
      (m : QueueMessage) (dead : List QueueMessage) (log : Log E)
      → leb_ℤ (inc m.attempt) (pos w.max_retries) ≡ false
      → validate_queue_message m ≡ ok tt
      → is_empty m.idempotency_key ≡ false
      → Holds q m dead log
      → queue_of q (process_next (in_memory q w) log).1
        ≡ record { messages = []; dlq = dead ++ m ∷ [] }
  unfolding queue_of apply
  round-over m dead log over valid named h =
      ap (λ r. queue_of q r.1) (round-calls m dead log valid named h)
      ∙ (ap (queue_of q) (retry-over q w m _ f.cause _ over) ∙ ap (publish m) (taken m dead log h))

  round-within :
      (m : QueueMessage) (dead : List QueueMessage) (log : Log E)
      → leb_ℤ (inc m.attempt) (pos w.max_retries) ≡ true
      → validate_queue_message m ≡ ok tt
      → is_empty m.idempotency_key ≡ false
      → Holds q m dead log
      → let before = tried (in_memory q w) f m (dequeue_call ∷ log) in
        Holds q (retried (in_memory q w) m before) dead (process_next (in_memory q w) log).1
  unfolding queue_of apply
  round-within m dead log within valid named h =
      let again = retried (in_memory q w) m (tried (in_memory q w) f m (dequeue_call ∷ log)) in
      ap (λ r. queue_of q r.1) (round-calls m dead log valid named h)
      ∙ (ap (queue_of q) (retry-within q w m _ f.cause _ within)
          ∙ ap (enqueue again) (taken m dead log h))

  -- Where no blob can be read, the store of keys says of every key that it is not done, the clock is
  -- set and `max_retries` is below the largest `int`: a message that is valid and has an idempotency
  -- key, with an attempt count `a` of at most `max_retries` and nothing else in the queue, leaves the
  -- queue empty after `max_retries - a + 1` rounds, and behind the earlier dead letters there is one
  -- more, with the message's job and the attempt count `max_retries`.
  pub poison-dead :
      (k a : ℕ) (m : QueueMessage) (dead : List QueueMessage) (log : Log E)
      → a + k ≡ w.max_retries
      → m.attempt ≡ pos a
      → validate_queue_message m ≡ ok tt
      → is_empty m.idempotency_key ≡ false
      → Holds q m dead log
      → (n : QueueMessage) × (queue_of q (rounds (in_memory q w) (suc k) log)
          ≡ record { messages = []; dlq = dead ++ n ∷ [] })
        × (n.job ≡ m.job)
        × (n.attempt ≡ pos w.max_retries)
  unfolding rounds
  poison-dead zero a m dead log budget h valid named holds =
      let last : m.attempt ≡ pos w.max_retries = h ∙ ap pos (omega arith) in
      (
        m,
        round-over m dead log (budget_over m.attempt w.max_retries last small) valid named holds,
        refl,
        last,
      )
  poison-dead (suc k) a m dead log budget h valid named holds =
      let W = in_memory q w in
      let before : Log E = tried W f m (dequeue_call ∷ log) in
      let within = budget_within m.attempt a w.max_retries h (omega arith) small in
      let (valid', h') = retried-valid W f m before a valid h (omega arith) in
      let (n, ends, job, attempt) =
        poison-dead k (suc a) (retried W m before) dead (process_next W log).1 (omega arith) h'
          valid' (named_retried W m before named)
          (round-within m dead log within valid named holds) in
      (n, ends, job ∙ job_retried W m before, attempt)
