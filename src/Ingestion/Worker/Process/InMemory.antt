-- ===== src/Ingestion/Worker/Process/InMemory.antt =====
-- internal/services/ingestion/service.go over the queue in memory of queue_provider.go: one round of a
-- worker that cannot read a blob.
use fine_rag_core.Prelude.{
  ℕ, zero, suc, ◌≡◌, refl, ap, ◌∙◌, pos, inc, leb_ℤ, true, false, Option, none, some, List, [], ◌∷◌,
  is_empty,
}
use fine_rag_core.Text.{Text, txt}
use fine_rag_core.Result.{Err, Result, ok, err, map_err}
use fine_rag_core.Contracts.Tenant.{TenantId, is_zero, wrap_validation_err}
use fine_rag_core.Contracts.Job.{QueueMessage, validate_queue_message}
use fine_rag_core.Ingestion.Queue.{InMemoryQueueAdapter, enqueue, publish, dequeue}
use fine_rag_core.Ingestion.Queue.Fifo.{dequeue-cons}
use fine_rag_core.Ingestion.Worker.Effects.{
  Call, dequeue_call, enqueue_call, publish_call, get_call, Log, either, either_of_ok,
  either_of_err, lift, fail, call, pure,
}
use fine_rag_core.Ingestion.Worker.{Worker, IdempotencyStore}
use fine_rag_core.Ingestion.Worker.Process.{
  retried, retry, dead_letter, retry_or_dlq, load_from, load_payload, chunk_and_embed, process_new,
  with_key, exists_in, already_done, unless_done, process_message, process_next,
}

module _ {E : Type 0} where
  -- What a call does to the queue in memory.
  unfoldable pub apply : Call E → InMemoryQueueAdapter → InMemoryQueueAdapter
  unfolding enqueue publish dequeue
  apply (enqueue_call m) q = enqueue m q
  apply (publish_call m reason) q = publish m q
  apply dequeue_call q = (dequeue q).1
  apply _ q = q

  -- The queue after the calls of a log, which began with `q`.
  unfoldable pub queue_of : InMemoryQueueAdapter → Log E → InMemoryQueueAdapter
  unfolding apply
  queue_of q [] = q
  queue_of q (c ∷ log) = apply c (queue_of q log)

  -- A worker on the queue in memory: producer, consumer and dead letters are one adapter.
  abbrev pub in_memory : InMemoryQueueAdapter → Worker E → Worker E
  in_memory q w = record w {
    producer = some (λ log m. none);
    consumer = some (λ log. (dequeue (queue_of q log)).0);
    dlq = some (λ log m reason. none);
  }

  -- `ProcessNext`, so many times; what it returns is not looked at.
  unfoldable pub rounds : Worker E → ℕ → Log E → Log E
  rounds w zero log = log
  rounds w (suc k) log = rounds w k (process_next w log).1

  -- No blob can be read, no message was done before, and the clock is set.
  pub record Failing (w : Worker E) : Type 0 where
    pub get : Log E → TenantId → Text → Result Text
    pub has_store : w.blob_store ≡ some get
    pub cause : Err
    pub fails : (log : Log E) (t : TenantId) (uri : Text) → get log t uri ≡ err cause
    pub not_done : (log : Log E) (key : Text) → (already_done w key log).0 ≡ ok false
    pub ticks : (log : Log E) → is_zero (w.clock log) ≡ false

module _ {E : Type 0} (w : Worker E) (f : Failing w) (m : QueueMessage) where
  -- The calls before the message is handed on.
  pub tried : Log E → Log E
  tried log = get_call m.job.tenant_id m.job.source_uri ∷ (already_done w m.idempotency_key log).1

  load-fails :
      (log : Log E)
      → load_payload w m.job log ≡ (err f.cause, get_call m.job.tenant_id m.job.source_uri ∷ log)
  unfolding load_payload load_from call
  load-fails log =
      ap (λ o. load_from w o m.job log) f.has_store
      ∙ ap (λ r. (r, get_call m.job.tenant_id m.job.source_uri ∷ log))
          (f.fails log m.job.tenant_id m.job.source_uri)

  process_new-fails :
      (log : Log E)
      → process_new w m log
        ≡ retry_or_dlq w m
            (txt "blob_fetch_failed")
            f.cause
            (get_call m.job.tenant_id m.job.source_uri ∷ log)
  unfolding process_new
  process_new-fails log =
      either_of_err (load_payload w m.job) (retry_or_dlq w m (txt "blob_fetch_failed"))
        (chunk_and_embed w m) log f.cause (ap (λ r. r.0) (load-fails log))
      ∙ ap (λ r. retry_or_dlq w m (txt "blob_fetch_failed") f.cause r.1) (load-fails log)

  with_key-named : is_empty m.idempotency_key ≡ false → with_key w m ≡ m
  unfolding with_key
  with_key-named named = rw named

  pub process_message-fails :
      (log : Log E)
      → validate_queue_message m ≡ ok tt
      → is_empty m.idempotency_key ≡ false
      → process_message w m log ≡ retry_or_dlq w m (txt "blob_fetch_failed") f.cause (tried log)
  unfolding process_message tried lift
  process_message-fails log valid named =
      either_of_ok
        (lift (map_err (wrap_validation_err (txt "queue_message")) (validate_queue_message m))) fail
        (λ _.
          either (already_done w (with_key w m).idempotency_key) fail
            (unless_done w (with_key w m)))
        log tt (ap (map_err (wrap_validation_err (txt "queue_message"))) valid)
      ∙ (ap (λ n. either (already_done w n.idempotency_key) fail (unless_done w n) log)
            (with_key-named named)
          ∙ (either_of_ok (already_done w m.idempotency_key) fail (unless_done w m) log false
                (f.not_done log m.idempotency_key)
              ∙ process_new-fails (already_done w m.idempotency_key log).1))

module _ {E : Type 0} (q : InMemoryQueueAdapter) where
  queue_of-already_done :
      (w : Worker E) (key : Text) (log : Log E)
      → queue_of q (already_done w key log).1 ≡ queue_of q log
  unfolding already_done
  queue_of-already_done w key log = looked (w.idem)
    where
      looked :
          (o : Option (IdempotencyStore E)) → queue_of q (exists_in w o key log).1 ≡ queue_of q log
      looked none = unfold exists_in pure in refl
      looked (some store) = unfold exists_in call queue_of in refl

  pub queue_of-tried :
      (w : Worker E) (f : Failing w) (m : QueueMessage) (log : Log E)
      → queue_of q (tried w f m log) ≡ queue_of q log
  unfolding tried queue_of
  queue_of-tried w f m log = queue_of-already_done w m.idempotency_key log

  -- Within the budget the message goes to the end of the queue, with one attempt more.
  pub retry-within :
      (w : Worker E) (m : QueueMessage) (reason : Text) (cause : Err) (log : Log E)
      → leb_ℤ (inc m.attempt) (pos w.max_retries) ≡ true
      → (retry_or_dlq (in_memory q w) m reason cause log).1
        ≡ enqueue_call (retried (in_memory q w) m log) ∷ log
  unfolding retry_or_dlq retry either
  retry-within w m reason cause log h = rw h

  -- Out of budget it goes to the dead letters.
  pub retry-over :
      (w : Worker E) (m : QueueMessage) (reason : Text) (cause : Err) (log : Log E)
      → leb_ℤ (inc m.attempt) (pos w.max_retries) ≡ false
      → (retry_or_dlq (in_memory q w) m reason cause log).1 ≡ publish_call m reason ∷ log
  unfolding retry_or_dlq retry dead_letter either
  retry-over w m reason cause log h = rw h

  -- One round takes the message at the head of the queue.
  pub process_next-head :
      (w : Worker E) (m : QueueMessage) (rest : List QueueMessage) (log : Log E)
      → (queue_of q log).messages ≡ m ∷ rest
      → process_next (in_memory q w) log ≡ process_message (in_memory q w) m (dequeue_call ∷ log)
  unfolding process_next call
  process_next-head w m rest log h =
      either_of_ok (call dequeue_call (λ l. (dequeue (queue_of q l)).0)) fail
        (process_message (in_memory q w)) log m
        (ap (λ r. r.0) (dequeue-cons (queue_of q log) m rest h))

  -- The queue between two rounds: one message, and the dead letters.
  abbrev pub Holds : QueueMessage → List QueueMessage → Log E → Type 0
  Holds m dead log = queue_of q log ≡ record { messages = m ∷ []; dlq = dead }
