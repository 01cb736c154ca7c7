-- ===== src/Ingestion/Worker.antt =====
-- internal/services/ingestion/service.go: the worker that takes a message from the queue, embeds its
-- payload and writes the vectors.
--
-- The worker's collaborators are interfaces; a nil one is `none`. A call is recorded in a log, the
-- latest first, and a collaborator answers by what was called before. So the answers may depend on
-- anything that happened, and a statement about the log is one about every collaborator.
pub mod Effects
pub mod Decimal
pub mod Keys
pub mod Process
use fine_rag_core.Prelude.{
  ℕ, zero, suc, ◌+◌, ◌*◌, ◌/◌, ◌%◌, ℤ, pos, or_default, Bool, not, Option, none, some, List, [],
  ◌∷◌, ◌++◌, ltb, if◌then◌else◌,
}
use fine_rag_core.Text.{Text, txt, str_eq, join}
use fine_rag_core.Result.{Err, new, Result, map_err, reject_if}
use fine_rag_core.Contracts.Tenant.{
  Time, TenantId, RequestMetadata, validate_request_metadata, wrap_validation_err,
}
use fine_rag_core.Contracts.Job.{
  is_approved, status_text, IngestionJob, validate_ingestion_job, QueueMessage,
  validate_queue_message, VectorRecord, RetentionRecord,
}
use Effects.{enqueue_call, Log, Action, pure, fail, lift, call_err, reading, ◌>>=◌, ◌>>◌}

pub record IdempotencyStore (E : Type 0) : Type 0 where
  pub exists : Log E → Text → Result Bool
  pub save : Log E → Text → Time → Option Err

-- `hex_sha256` and the collaborators are no part of this package.
pub record Worker (E : Type 0) : Type 0 where
  pub producer : Option (Log E → QueueMessage → Option Err)
  pub consumer : Option (Log E → Result QueueMessage)
  pub dlq : Option (Log E → QueueMessage → Text → Option Err)
  pub blob_store : Option (Log E → TenantId → Text → Result Text)
  pub embedder : Option (Log E → TenantId → List Text → Result (List (List E)))
  pub index : Option (Log E → List (VectorRecord E) → Option Err)
  pub idem : Option (IdempotencyStore E)
  pub retention : Option (Log E → RetentionRecord → Option Err)
  pub clock : Log E → Time
  pub hex_sha256 : Text → Text
  pub max_retries : ℕ
  pub chunk_size : ℕ
  pub idempotency_ttl : Time

pub record WorkerConfig (E : Type 0) : Type 0 where
  pub max_retries : ℤ
  pub chunk_size : ℤ
  pub idempotency_ttl : ℤ
  pub clock : Option (Log E → Time)

-- A duration of so many hours, in nanoseconds.
abbrev pub hours : ℕ → Time
hours n = n * 3_600_000_000_000

-- The options that `NewDeterministicAsyncWorker` fills in; `now` stands for `time.Now`.
unfoldable pub configured : {E : Type 0} → (Log E → Time) → WorkerConfig E → Worker E → Worker E
configured now config w = record w {
  clock = elim config.clock [ none ↦ now | some c ↦ c ];
  max_retries = or_default config.max_retries 3;
  chunk_size = or_default config.chunk_size 200;
  idempotency_ttl = or_default config.idempotency_ttl (hours 24);
}

unfoldable pub hash_parts : (Text → Text) → List Text → Text
hash_parts hex parts = hex (join parts (b'|' ∷ []))

unfoldable pub idempotency_key : (Text → Text) → IngestionJob → Text
unfolding hash_parts
idempotency_key hex j = hash_parts hex (txt "idem" ∷ j.tenant_id ∷ j.job_id ∷ j.checksum ∷ [])

-- `fmt.Sprintf("%d", n)`, on fuel; n + 1 is enough.
digits : ℕ → ℕ → Text → Text
digits zero n out = out
digits (suc f) n out =
    let d = (b'0' + n % 10) ∷ out in let more = digits f (n / 10) d in if ltb n 10 then d else more

unfoldable pub decimal : ℕ → Text
unfolding digits
decimal n = digits (suc n) n []

module _ {E : Type 0} (w : Worker E) where
  unfoldable pub enqueue_approved_job : RequestMetadata → IngestionJob → Action E QueueMessage
  unfolding validate_request_metadata validate_ingestion_job validate_queue_message idempotency_key
  enqueue_approved_job metadata j = do
    lift (
        map_err (wrap_validation_err (txt "request_metadata")) (validate_request_metadata metadata))
    lift (map_err (wrap_validation_err (txt "ingestion_job")) (validate_ingestion_job j))
    lift (
        reject_if (not (str_eq metadata.tenant_id j.tenant_id)) (
          new (
            txt "tenant mismatch: metadata="
            ++ (metadata.tenant_id ++ (txt " job=" ++ j.tenant_id)))))
    lift (
        reject_if (not (is_approved j.policy_decision))
          (new (txt "job policy decision must be approved, got " ++ status_text j.policy_decision)))
    message ← reading (λ log. pure (record {
      message_id = hash_parts w.hex_sha256 (txt "msg" ∷ j.tenant_id ∷ j.job_id ∷ j.checksum ∷ []);
      job = j;
      idempotency_key = idempotency_key w.hex_sha256 j;
      attempt = pos 0;
      enqueued_at = w.clock log;
    }))
    lift (map_err (wrap_validation_err (txt "queue_message")) (validate_queue_message message))
    elim w.producer [
      | none ↦ fail (new (txt "queue producer is required"))
      | some enqueue ↦ (do
        call_err (enqueue_call message) (λ log. enqueue log message)
        pure message)
    ]
