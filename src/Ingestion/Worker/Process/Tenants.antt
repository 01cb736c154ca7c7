-- ===== src/Ingestion/Worker/Process/Tenants.antt =====
-- internal/services/ingestion/service.go: the processing of a message keeps to the tenant of its
-- job, whatever the collaborators answer.
use fine_rag_core.Prelude.{◌≡◌, pos, inc, All}
use fine_rag_core.Text.{Text}
use fine_rag_core.Contracts.Job.{QueueMessage}
use fine_rag_core.Ingestion.Chunk.{chunk_payload}
use fine_rag_core.Ingestion.Worker.Effects.{
  Call, dequeue_call, enqueue_call, publish_call, get_call, embed_call, upsert_call, exists_call,
  save_call, apply_call,
}
use fine_rag_core.Ingestion.Worker.{Worker}
use fine_rag_core.Ingestion.Worker.Process.Calls.{IsPayload}
use fine_rag_core.Ingestion.Worker.Process.Records.{OfJob}

-- What each call may name. The blob, the vectors, the retention records and the text are those of the
-- tenant and the job of `m`, the key is that of `m`; the message that goes back is `m` but for its
-- attempt count and its time, and the dead one is `m`.
abbrev pub Concerns : {E : Type 0} → Worker E → QueueMessage → Call E → Type 0
Concerns w m dequeue_call = Unit
Concerns w m (enqueue_call n) =
    n ≡ record m { attempt = inc m.attempt; enqueued_at = n.enqueued_at }
Concerns w m (publish_call n reason) = n ≡ m
Concerns w m (get_call t uri) = (t ≡ m.job.tenant_id) × (uri ≡ m.job.source_uri)
Concerns w m (embed_call t chunks) =
    (t ≡ m.job.tenant_id)
    × ((payload : Text) × IsPayload w m payload
        × (chunks ≡ chunk_payload payload (pos w.chunk_size)))
Concerns w m (upsert_call records) = All (OfJob m.job) records
Concerns w m (exists_call key) = key ≡ m.idempotency_key
Concerns w m (save_call key ttl) = key ≡ m.idempotency_key
Concerns w m (apply_call r) = (r.tenant_id ≡ m.job.tenant_id) × (r.job_id ≡ m.job.job_id)
