-- ===== src/Ingestion/Worker/Process.antt =====
-- internal/services/ingestion/service.go: `ProcessNext`, `ProcessMessage`, `retryOrDLQ` and
-- `ReplayDLQMessage`.
pub mod InMemory
pub mod Indexing
pub mod Calls
pub mod Records
pub mod Retry
pub mod Poison
pub mod Finish
pub mod Ids
pub mod Success
pub mod Tenants
use fine_rag_core.Prelude.{
  ℕ, ◌+◌, ◌*◌, pos, leb_ℤ, inc, Bool, false, Option, none, some, List, [], ◌∷◌, ◌++◌, ◌==◌,
  if◌then◌else◌, is_empty, length,
}
use fine_rag_core.Text.{Text, txt}
use fine_rag_core.Result.{Err, new, wrap, Result, ok, err, map_err}
use fine_rag_core.Contracts.Tenant.{Time, TenantId, wrap_validation_err}
use fine_rag_core.Contracts.Job.{
  IngestionJob, QueueMessage, validate_queue_message, VectorRecord, validate_vector_record,
  raw_blob, chunk, audit_event, RetentionRecord, validate_retention_record,
}
use fine_rag_core.Ingestion.Chunk.{chunk_payload}
use fine_rag_core.Ingestion.Worker.Effects.{
  dequeue_call, enqueue_call, publish_call, get_call, embed_call, upsert_call, exists_call,
  save_call, apply_call, Log, Action, pure, fail, lift, call, call_err, reading, either, ◌>>=◌,
  ◌>>◌,
}
use fine_rag_core.Ingestion.Worker.{
  IdempotencyStore, Worker, hours, hash_parts, idempotency_key, decimal,
}

module _ {E : Type 0} (w : Worker E) where
  -- The message for the next attempt.
  unfoldable pub retried : QueueMessage → Log E → QueueMessage
  retried m log = record m { attempt = inc m.attempt; enqueued_at = w.clock log }

  -- `fmt.Errorf("%s: %w", reason, cause)`, after the message was handed on
  dead_letter :
      Option (Log E → QueueMessage → Text → Option Err)
      → QueueMessage
      → Text
      → Err
      → Action E (Unit {0})
  dead_letter none m reason cause = fail (wrap reason cause)
  dead_letter (some publish) m reason cause =
      either (call_err (publish_call m reason) (λ log. publish log m reason))
        (λ e. fail (wrap reason e)) (λ _. fail (wrap reason cause))

  retry :
      Option (Log E → QueueMessage → Option Err) → QueueMessage → Text → Err → Action E (Unit {0})
  unfolding dead_letter
  retry none m reason cause = dead_letter w.dlq m reason cause
  retry (some enqueue) m reason cause =
      if leb_ℤ (inc m.attempt) (pos w.max_retries)
      then reading (λ log.
        let again = retried m log in
        either (call_err (enqueue_call again) (λ log. enqueue log again))
          (λ e. fail (wrap reason e)) (λ _. fail (wrap reason cause)))
      else dead_letter w.dlq m reason cause

  unfoldable pub retry_or_dlq : QueueMessage → Text → Err → Action E (Unit {0})
  unfolding retry
  retry_or_dlq m reason cause = retry w.producer m reason cause

  load_from : Option (Log E → TenantId → Text → Result Text) → IngestionJob → Action E Text
  load_from none j = fail (new (txt "artifact blob store is required"))
  load_from (some get) j =
      call (get_call j.tenant_id j.source_uri) (λ log. get log j.tenant_id j.source_uri)

  unfoldable pub load_payload : IngestionJob → Action E Text
  unfolding load_from
  load_payload j = load_from w.blob_store j

  unfoldable pub vector_record : QueueMessage → Time → ℕ → Text → List E → VectorRecord E
  unfolding hash_parts
  vector_record m now i text embedding = record {
    record_id =
        hash_parts w.hex_sha256
          (txt "vec" ∷ m.job.tenant_id ∷ m.job.job_id ∷ m.job.checksum ∷ decimal i ∷ []);
    tenant_id = m.job.tenant_id;
    job_id = m.job.job_id;
    chunk_text = text;
    embedding = embedding;
    metadata =
        (txt "tenant_id", m.job.tenant_id)
        ∷ (txt "job_id", m.job.job_id)
        ∷ (txt "source_uri", m.job.source_uri)
        ∷ (txt "idempotency_key", m.idempotency_key)
        ∷ [];
    indexed_at = now;
    source_uri = m.job.source_uri;
    object_key = m.job.source_uri;
    checksum = m.job.checksum;
    retry_count = m.attempt;
  }

  -- One round of the loop: the record is validated before the next is made.
  add_record :
      Result (Unit {0})
      → VectorRecord E
      → Result (List (VectorRecord E))
      → Result (List (VectorRecord E))
  add_record (err e) r rest = err (wrap_validation_err (txt "vector_record") e)
  add_record (ok _) r (err e) = err e
  add_record (ok _) r (ok records) = ok (r ∷ records)

  -- The loop over the chunks. The lists are of one length, so no chunk is without its vector.
  unfoldable pub build_records :
      QueueMessage → Time → ℕ → List Text → List (List E) → Result (List (VectorRecord E))
  unfolding add_record
  build_records m now i [] vectors = ok []
  build_records m now i (text ∷ texts) [] = ok []
  build_records m now i (text ∷ texts) (vector ∷ vectors) =
      let r = vector_record m now i text vector in
      add_record (validate_vector_record r) r (build_records m now (i + 1) texts vectors)

  unfoldable pub retention_set : QueueMessage → Time → List RetentionRecord
  retention_set m now =
      record {
        tenant_id = m.job.tenant_id;
        job_id = m.job.job_id;
        retention_class = raw_blob;
        resource = m.job.source_uri;
        retention_until = now + hours (30 * 24);
      }
      ∷ record {
        tenant_id = m.job.tenant_id;
        job_id = m.job.job_id;
        retention_class = chunk;
        resource = m.job.job_id;
        retention_until = now + hours (90 * 24);
      }
      ∷ record {
        tenant_id = m.job.tenant_id;
        job_id = m.job.job_id;
        retention_class = audit_event;
        resource = txt "governance.ingestion.policy_decision";
        retention_until = now + hours (365 * 24);
      }
      ∷ []

  unfoldable pub apply_retention :
      (Log E → RetentionRecord → Option Err) → List RetentionRecord → Action E (Unit {0})
  apply_retention hook [] = pure tt
  apply_retention hook (r ∷ rs) =
      let rest = apply_retention hook rs in
      do
        lift (map_err (wrap_validation_err (txt "retention_record")) (validate_retention_record r))
        call_err (apply_call r) (λ log. hook log r)
        rest

  save_in : Option (IdempotencyStore E) → Text → Action E (Unit {0})
  save_in none key = pure tt
  save_in (some store) key =
      call_err (save_call key w.idempotency_ttl) (λ log. store.save log key w.idempotency_ttl)

  retain_by :
      Option (Log E → RetentionRecord → Option Err) → List RetentionRecord → Action E (Unit {0})
  retain_by none records = pure tt
  retain_by (some hook) records = apply_retention hook records

  -- What follows a successful write of the vectors.
  unfoldable pub finish : QueueMessage → Time → Action E (Unit {0})
  unfolding save_in retain_by
  finish m now = do save_in w.idem m.idempotency_key; retain_by w.retention (retention_set m now)

  upsert_to :
      Option (Log E → List (VectorRecord E) → Option Err)
      → QueueMessage
      → Time
      → List (VectorRecord E)
      → Action E (Unit {0})
  upsert_to none m now records = fail (new (txt "vector index is required"))
  upsert_to (some upsert) m now records =
      either (call_err (upsert_call records) (λ log. upsert log records))
        (retry_or_dlq m (txt "vector_upsert_failed")) (λ _. finish m now)

  unfoldable pub upsert_records : QueueMessage → Time → List (VectorRecord E) → Action E (Unit {0})
  unfolding upsert_to
  upsert_records m now records = upsert_to w.index m now records

  unfoldable pub index_vectors : QueueMessage → List Text → List (List E) → Action E (Unit {0})
  index_vectors m chunks vectors =
      if length vectors == length chunks
      then reading (λ log.
        let now = w.clock log in
        either (lift (build_records m now 0 chunks vectors)) fail (upsert_records m now))
      else retry_or_dlq m (txt "embedding_count_mismatch") (
          new
            (txt "got=" ++ (decimal (length vectors) ++ (txt " want=" ++ decimal (length chunks)))))

  embed_by :
      Option (Log E → TenantId → List Text → Result (List (List E)))
      → QueueMessage
      → List Text
      → Action E (Unit {0})
  embed_by none m chunks = fail (new (txt "embedding provider is required"))
  embed_by (some embed) m chunks =
      either (call (embed_call m.job.tenant_id chunks) (λ log. embed log m.job.tenant_id chunks))
        (retry_or_dlq m (txt "embedding_failed")) (index_vectors m chunks)

  unfoldable pub embed_chunks : QueueMessage → List Text → Action E (Unit {0})
  unfolding embed_by
  embed_chunks m chunks = embed_by w.embedder m chunks

  unfoldable pub chunk_and_embed : QueueMessage → Text → Action E (Unit {0})
  chunk_and_embed m payload =
      let chunks = chunk_payload payload (pos w.chunk_size) in
      if is_empty chunks
      then retry_or_dlq m (txt "chunking_failed") (new (txt "no chunks generated"))
      else embed_chunks m chunks

  unfoldable pub process_new : QueueMessage → Action E (Unit {0})
  process_new m =
      either (load_payload m.job) (retry_or_dlq m (txt "blob_fetch_failed")) (chunk_and_embed m)

  unfoldable pub with_key : QueueMessage → QueueMessage
  with_key m =
      if is_empty m.idempotency_key
      then record m { idempotency_key = idempotency_key w.hex_sha256 m.job }
      else m

  exists_in : Option (IdempotencyStore E) → Text → Action E Bool
  exists_in none key = pure false
  exists_in (some store) key = call (exists_call key) (λ log. store.exists log key)

  unfoldable pub already_done : Text → Action E Bool
  unfolding exists_in
  already_done key = exists_in w.idem key

  unless_done : QueueMessage → Bool → Action E (Unit {0})
  unless_done m done = if done then pure tt else process_new m

  unfoldable pub process_message : QueueMessage → Action E (Unit {0})
  unfolding with_key unless_done
  process_message message =
      let m = with_key message in
      do
        lift (map_err (wrap_validation_err (txt "queue_message")) (validate_queue_message message))
        done ← already_done m.idempotency_key
        unless_done m done

  next_from : Option (Log E → Result QueueMessage) → Action E (Unit {0})
  next_from none = fail (new (txt "queue consumer is required"))
  next_from (some dequeue) = do message ← call dequeue_call dequeue; process_message message

  unfoldable pub process_next : Action E (Unit {0})
  unfolding next_from
  process_next = next_from w.consumer

  replay_to : Option (Log E → QueueMessage → Option Err) → QueueMessage → Action E (Unit {0})
  unfolding with_key
  replay_to none message = fail (new (txt "queue producer is required"))
  replay_to (some enqueue) message = reading (λ log.
      let m = with_key (record message { attempt = pos 0; enqueued_at = w.clock log }) in
      do
        lift (map_err (wrap_validation_err (txt "queue_message")) (validate_queue_message m))
        call_err (enqueue_call m) (λ log. enqueue log m))

  unfoldable pub replay_dlq_message : QueueMessage → Action E (Unit {0})
  unfolding replay_to
  replay_dlq_message message = replay_to w.producer message
