-- ===== src/Contracts/Job.antt =====
-- internal/contracts/contracts.go: ingestion jobs, queue messages, vector records, retention records.
use fine_rag_core.Prelude.{ℤ, is_neg, Bool, true, false, List, ◌++◌, is_empty}
use fine_rag_core.Text.{Text, txt, is_blank}
use fine_rag_core.Result.{Err, new, message, Result, ◌>>◌, reject_if, map_err}
use fine_rag_core.Contracts.Tenant.{Time, is_zero, TenantId, validate_tenant_id}

-- `other` is any string that is none of the constants.
pub data IngestionStatus : Type 0 where
  queued approved quarantine rejected indexing indexed failed : IngestionStatus
  other : Text → IngestionStatus

-- s == IngestionStatusApproved
abbrev pub is_approved : IngestionStatus → Bool
is_approved approved = true
is_approved _ = false

unfoldable pub status_text : IngestionStatus → Text
status_text queued = txt "queued"
status_text approved = txt "approved"
status_text quarantine = txt "quarantine"
status_text rejected = txt "rejected"
status_text indexing = txt "indexing"
status_text indexed = txt "indexed"
status_text failed = txt "failed"
status_text (other t) = t

pub record IngestionJob : Type 0 where
  pub job_id : Text
  pub tenant_id : TenantId
  pub source_uri : Text
  pub checksum : Text
  pub policy_decision : IngestionStatus
  pub created_at : Time

unfoldable pub validate_ingestion_job : IngestionJob → Result (Unit {0})
unfolding validate_tenant_id
validate_ingestion_job j = do
  validate_tenant_id j.tenant_id
  reject_if (is_empty j.job_id) (new (txt "job_id is required"))
  reject_if (is_empty j.source_uri) (new (txt "source_uri is required"))
  reject_if (is_zero j.created_at) (new (txt "created_at is required"))

pub record QueueMessage : Type 0 where
  pub message_id : Text
  pub job : IngestionJob
  pub idempotency_key : Text
  pub attempt : ℤ
  pub enqueued_at : Time

job_invalid : Err → Err
job_invalid e = new (txt "job invalid: " ++ message e)

unfoldable pub validate_queue_message : QueueMessage → Result (Unit {0})
unfolding validate_ingestion_job job_invalid
validate_queue_message m = do
  reject_if (is_empty m.message_id) (new (txt "message_id is required"))
  map_err job_invalid (validate_ingestion_job m.job)
  reject_if (is_neg m.attempt) (new (txt "attempt must be >= 0"))
  reject_if (is_zero m.enqueued_at) (new (txt "enqueued_at is required"))

-- `map[string]string`: the entries, of which no two have one key
abbrev pub Attributes : Type 0
Attributes = List (Text × Text)

-- An embedding is a list of `E`, the program's `float32`.
pub record VectorRecord (E : Type 0) : Type 0 where
  pub record_id : Text
  pub tenant_id : TenantId
  pub job_id : Text
  pub chunk_text : Text
  pub embedding : List E
  pub metadata : Attributes
  pub indexed_at : Time
  pub source_uri : Text
  pub object_key : Text
  pub checksum : Text
  pub retry_count : ℤ

unfoldable pub validate_vector_record : {E : Type 0} → VectorRecord E → Result (Unit {0})
unfolding validate_tenant_id
validate_vector_record r = do
  reject_if (is_empty r.record_id) (new (txt "record_id is required"))
  validate_tenant_id r.tenant_id
  reject_if (is_empty r.job_id) (new (txt "job_id is required"))
  reject_if (is_blank r.chunk_text) (new (txt "chunk_text is required"))
  reject_if (is_empty r.embedding) (new (txt "embedding is required"))
  reject_if (is_zero r.indexed_at) (new (txt "indexed_at is required"))
  reject_if (is_empty r.source_uri) (new (txt "source_uri is required"))
  reject_if (is_empty r.checksum) (new (txt "checksum is required"))
  reject_if (is_neg r.retry_count) (new (txt "retry_count must be >= 0"))

pub data RetentionClass : Type 0 where
  raw_blob chunk audit_event : RetentionClass
  other_class : Text → RetentionClass

-- c == ""
abbrev pub is_no_class : RetentionClass → Bool
is_no_class (other_class t) = is_empty t
is_no_class _ = false

pub record RetentionRecord : Type 0 where
  pub tenant_id : TenantId
  pub job_id : Text
  pub retention_class : RetentionClass
  pub resource : Text
  pub retention_until : Time

unfoldable pub validate_retention_record : RetentionRecord → Result (Unit {0})
unfolding validate_tenant_id
validate_retention_record r = do
  validate_tenant_id r.tenant_id
  reject_if (is_empty r.job_id) (new (txt "job_id is required"))
  reject_if (is_no_class r.retention_class) (new (txt "retention class is required"))
  reject_if (is_blank r.resource) (new (txt "resource is required"))
  reject_if (is_zero r.retention_until) (new (txt "retention_until is required"))
