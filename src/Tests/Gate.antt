-- ===== src/Tests/Gate.antt =====
-- internal/services/governance/service.go at concrete inputs.
use fine_rag_core.Prelude.{◌≡◌, refl, true, false, Option, none, some, List, []}
use fine_rag_core.Governance
use fine_rag_core.Contracts.Audit
use fine_rag_core.Text
use fine_rag_core.Text.{Text, txt, Unicode}
use fine_rag_core.Result.{Err, ok}
use fine_rag_core.Contracts.Tenant.{RequestMetadata}
use fine_rag_core.Contracts.Job.{queued, approved, IngestionJob}
use fine_rag_core.Contracts.Audit.{AuditEvent}
use fine_rag_core.Governance.{
  Policy, default_region, contains_required_residency, has_pii_marker, decide, decision_event,
  admit, evaluate_ingestion,
}
use fine_rag_core.Governance.Gate.{Audited, evaluate_ingestion-approved, evaluate_ingestion-Audited}

abbrev plain : Unicode
plain = record { lower = λ c. c; is_letter = λ c. true; is_digit = λ c. false }

abbrev sink : List AuditEvent → AuditEvent → Option Err
sink log e = none

abbrev policy : Policy
policy = record {
  unicode = plain;
  sha256_prefix = λ t. t;
  format_time = λ t. [];
  residency_region = default_region;
  write = some sink;
}

abbrev metadata : RequestMetadata
metadata = record { tenant_id = txt "t"; request_id = txt "r"; source_ip = []; user_agent = [] }

abbrev job : IngestionJob
job = record {
  job_id = txt "j";
  tenant_id = txt "t";
  source_uri = txt "s3://AP-south-1/a.txt";
  checksum = txt "c";
  policy_decision = queued;
  created_at = 1;
}

job_admitted : admit policy metadata job ≡ ok tt
unfolding admit txt Text.str_eq
job_admitted = refl

job_approved : (evaluate_ingestion policy metadata job 5 []).0.0 ≡ approved
unfolding evaluate_ingestion admit txt Text.str_eq Governance.record_audit_event
    Audit.validate_audit_event decision_event Governance.deterministic_event_id decide
    contains_required_residency Text.contains Text.to_lower Text.has_prefix default_region
    Text.lower_rune has_pii_marker
job_approved = refl

evaluate_ingestion-approved_example :
    ((evaluate_ingestion policy metadata job 5 []).0.1 ≡ none)
    × (metadata.tenant_id ≡ job.tenant_id)
    × (contains_required_residency plain job.source_uri default_region ≡ true)
    × (has_pii_marker plain job.source_uri ≡ false)
evaluate_ingestion-approved_example =
    evaluate_ingestion-approved policy metadata job 5 [] job_approved

evaluate_ingestion-Audited_example :
    Audited policy metadata job sink []
      (decision_event policy metadata job 5 (decide policy job))
      (evaluate_ingestion policy metadata job 5 [])
evaluate_ingestion-Audited_example =
    evaluate_ingestion-Audited policy metadata job sink 5 [] job_admitted refl refl
