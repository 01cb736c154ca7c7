-- ===== src/Ingestion/Profiler.antt =====
-- internal/services/ingestion/service.go and metadata_recorder.go: the profile of a payload, and the
-- recorder that saves the metadata of a profile.
--
-- The payload is the text that its bytes spell. SHA-256, in hexadecimal, and the clock come from
-- outside.
pub mod Total
use fine_rag_core.Prelude.{
  ℕ, ◌+◌, pos, Option, none, some, List, [], ◌∷◌, length, keep, is_empty, ◌==◌, if◌then◌else◌,
}
use fine_rag_core.Text.{Text, txt, trim_space, fields, byte_len, is_blank}
use fine_rag_core.Result.{Err, new, wrap, Result, ok, err, ◌>>=◌, ◌>>◌, map_err}
use fine_rag_core.Contracts.Tenant.{Time, TenantId, validate_tenant_id, wrap_validation_err}
use fine_rag_core.Contracts.Profile.{
  PayloadClassification, valid, invalid_payload, invalid_tenant, invalid_source, IngestionMetadata,
  IngestionProfile, validate_ingestion_profile,
}

pub record ProfileInput : Type 0 where
  pub tenant_id : TenantId
  pub source_uri : Text
  pub lifecycle_class : Text
  pub content_type : Text
  pub payload : Text

unfoldable pub fallback_lifecycle_class : Text → Text
fallback_lifecycle_class v = let t = trim_space v in if is_empty t then txt "standard" else t

unfoldable pub fallback_content_type : Text → Text
fallback_content_type v =
    let t = trim_space v in if is_empty t then txt "application/octet-stream" else t

unfoldable pub count_lines : Text → ℕ
count_lines v = if is_empty v then 0 else length (keep (λ c. c == 10) v) + 1

module _ (hex_sha256 : Text → Text) (now : Time) where
  -- What a valid and an invalid profile have in common.
  profile_of : ProfileInput → Text → PayloadClassification → Text → IngestionProfile
  unfolding fallback_lifecycle_class fallback_content_type count_lines
  profile_of input checksum class reason = record {
    metadata = record {
      tenant_id = input.tenant_id;
      checksum_sha256 = checksum;
      source_uri = input.source_uri;
      lifecycle_class = fallback_lifecycle_class input.lifecycle_class;
      captured_at = now;
    };
    payload_bytes = pos (byte_len input.payload);
    content_type = fallback_content_type input.content_type;
    line_count = pos (count_lines input.payload);
    word_count = pos (length (fields input.payload));
    classification = class;
    error_reason = reason;
  }

  unfoldable pub invalid_profile : ProfileInput → PayloadClassification → Text → IngestionProfile
  unfolding profile_of
  invalid_profile input class reason =
      profile_of input (if is_empty input.payload then [] else hex_sha256 input.payload) class
        reason

  -- The profile of an input without a defect.
  valid_profile : ProfileInput → IngestionProfile
  unfolding profile_of
  valid_profile input = profile_of input (hex_sha256 input.payload) valid []

  validation_failed : Err → Err
  validation_failed e = wrap (txt "profile validation failed") e

  checked_profile : IngestionProfile → Result IngestionProfile
  unfolding validation_failed validate_ingestion_profile
  checked_profile p = do map_err validation_failed (validate_ingestion_profile p); ok p

  profile_with_tenant : Result (Unit {0}) → ProfileInput → Result IngestionProfile
  unfolding invalid_profile valid_profile checked_profile txt
  profile_with_tenant (err e) input =
      ok (invalid_profile input invalid_tenant (txt "tenant_id_missing"))
  profile_with_tenant (ok _) input =
      if is_blank input.source_uri
      then ok (invalid_profile input invalid_source (txt "source_uri_missing"))
      else if is_empty input.payload
      then ok (invalid_profile input invalid_payload (txt "payload_empty"))
      else checked_profile (valid_profile input)

  unfoldable pub profile : ProfileInput → Result IngestionProfile
  unfolding profile_with_tenant
  profile input = profile_with_tenant (validate_tenant_id input.tenant_id) input

-- The recorder's answer, and what it saved. A nil repository is `none`.
save_metadata :
    Option (IngestionMetadata → Option Err)
    → IngestionMetadata
    → Option Err × List IngestionMetadata
save_metadata none m = (some (new (txt "metadata repository is required")), [])
save_metadata (some save) m = (save m, m ∷ [])

record_checked :
    Option (IngestionMetadata → Option Err)
    → IngestionProfile
    → Result (Unit {0})
    → Option Err × List IngestionMetadata
unfolding save_metadata
record_checked repo p (err e) = (some (wrap_validation_err (txt "ingestion_profile") e), [])
record_checked repo p (ok _) = save_metadata repo p.metadata

unfoldable pub record_profile :
    Option (IngestionMetadata → Option Err) → IngestionProfile → Option Err × List IngestionMetadata
unfolding record_checked
record_profile repo p = record_checked repo p (validate_ingestion_profile p)
