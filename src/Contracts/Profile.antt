-- ===== src/Contracts/Profile.antt =====
-- internal/contracts/contracts.go: tenant records, ingestion metadata and profiles.
use fine_rag_core.Prelude.{ℤ, is_neg, Bool, true, false, not, ◌&&◌, is_empty}
use fine_rag_core.Text.{Text, txt, is_blank}
use fine_rag_core.Result.{new, Result, ◌>>◌, reject_if}
use fine_rag_core.Contracts.Tenant.{Time, is_zero, TenantId, validate_tenant_id}

-- `other` is any string that is none of the constants.
pub data PayloadClassification : Type 0 where
  valid invalid_payload invalid_tenant invalid_source : PayloadClassification
  other : Text → PayloadClassification

abbrev pub is_valid_class : PayloadClassification → Bool
is_valid_class valid = true
is_valid_class _ = false

-- c == ""
abbrev pub is_no_class : PayloadClassification → Bool
is_no_class (other t) = is_empty t
is_no_class _ = false

pub record IngestionMetadata : Type 0 where
  pub tenant_id : TenantId
  pub checksum_sha256 : Text
  pub source_uri : Text
  pub lifecycle_class : Text
  pub captured_at : Time

pub record TenantRecord : Type 0 where
  pub tenant_id : TenantId
  pub display_name : Text
  pub plan_tier : Text
  pub active : Bool
  pub updated_at : Time

unfoldable pub validate_tenant_record : TenantRecord → Result (Unit {0})
unfolding validate_tenant_id
validate_tenant_record t = do
  validate_tenant_id t.tenant_id
  reject_if (is_blank t.display_name) (new (txt "display_name is required"))
  reject_if (is_blank t.plan_tier) (new (txt "plan_tier is required"))
  reject_if (is_zero t.updated_at) (new (txt "updated_at is required"))

unfoldable pub validate_ingestion_metadata : IngestionMetadata → Result (Unit {0})
unfolding validate_tenant_id
validate_ingestion_metadata m = do
  validate_tenant_id m.tenant_id
  reject_if (is_empty m.checksum_sha256) (new (txt "checksum_sha256 is required"))
  reject_if (is_empty m.source_uri) (new (txt "source_uri is required"))
  reject_if (is_empty m.lifecycle_class) (new (txt "lifecycle_class is required"))
  reject_if (is_zero m.captured_at) (new (txt "captured_at is required"))

pub record IngestionProfile : Type 0 where
  pub metadata : IngestionMetadata
  pub payload_bytes : ℤ
  pub content_type : Text
  pub line_count : ℤ
  pub word_count : ℤ
  pub classification : PayloadClassification
  pub error_reason : Text

unfoldable pub validate_ingestion_profile : IngestionProfile → Result (Unit {0})
unfolding validate_ingestion_metadata
validate_ingestion_profile p = do
  validate_ingestion_metadata p.metadata
  reject_if (is_neg p.payload_bytes) (new (txt "payload_bytes must be >= 0"))
  reject_if (is_no_class p.classification) (new (txt "classification is required"))
  reject_if (not (is_valid_class p.classification) && is_empty p.error_reason)
      (new (txt "error_reason is required for invalid classifications"))

pub record PolicyEngineInput : Type 0 where
  pub tenant_id : TenantId
  pub checksum_sha256 : Text
  pub source_uri : Text
  pub lifecycle_class : Text
  pub classification : PayloadClassification
  pub error_reason : Text

unfoldable pub to_policy_engine_input : IngestionProfile → PolicyEngineInput
to_policy_engine_input p = record {
  tenant_id = p.metadata.tenant_id;
  checksum_sha256 = p.metadata.checksum_sha256;
  source_uri = p.metadata.source_uri;
  lifecycle_class = p.metadata.lifecycle_class;
  classification = p.classification;
  error_reason = p.error_reason;
}
