-- ===== src/Governance.antt =====
-- internal/services/governance/service.go: the policy gate in front of ingestion. SHA-256, the
-- Unicode tables, the layout of a timestamp and the audit sink are parameters; a nil sink is `none`.
-- What the sink has been given is part of the state: the events in the order of the calls.
pub mod Gate
use fine_rag_core.Prelude.{Bool, not, ◌||◌, Option, none, some, List, [], ◌∷◌, ◌++◌, if◌then◌else◌}
use fine_rag_core.Text.{Text, txt, str_eq, contains, Unicode, to_lower}
use fine_rag_core.Result.{Err, new, Result, ok, err, ◌>>=◌, ◌>>◌, reject_if, map_err}
use fine_rag_core.Contracts.Tenant.{
  Time, RequestMetadata, validate_request_metadata, wrap_validation_err,
}
use fine_rag_core.Contracts.Job.{
  IngestionStatus, approved, quarantine, rejected, is_approved, status_text, IngestionJob,
  validate_ingestion_job,
}
use fine_rag_core.Contracts.Audit.{AuditOutcome, allowed, denied, AuditEvent, validate_audit_event}

-- `write` answers for the events that were written before, and the one at hand.
pub record Policy : Type 0 where
  pub unicode : Unicode
  pub sha256_prefix : Text → Text
  pub format_time : Time → Text
  pub residency_region : Text
  pub write : Option (List AuditEvent → AuditEvent → Option Err)

-- The service that `NewDeterministicPolicyServiceWithClock` returns.
unfoldable pub default_region : Text
default_region = txt "ap-south-1"

unfoldable pub contains_required_residency : Unicode → Text → Text → Bool
contains_required_residency u source_uri region =
    contains (to_lower u source_uri) (to_lower u region)

unfoldable pub has_pii_marker : Unicode → Text → Bool
has_pii_marker u source_uri =
    let normalized = to_lower u source_uri in
    contains normalized (txt "pii")
    || contains normalized (txt "ssn")
    || contains normalized (txt "passport")

unfoldable pub to_audit_outcome : IngestionStatus → AuditOutcome
to_audit_outcome decision = if is_approved decision then allowed else denied

module _ (s : Policy) where
  unfoldable pub deterministic_event_id :
      RequestMetadata → IngestionJob → IngestionStatus → Text → Text
  unfolding status_text
  deterministic_event_id m j decision code =
      let bar = txt "|" in
      txt "evt_"
      ++ s.sha256_prefix (
          m.tenant_id
          ++ (bar
              ++ (m.request_id
                  ++ (bar ++ (j.job_id ++ (bar ++ (status_text decision ++ (bar ++ code))))))))

  -- The decision and its policy code.
  unfoldable pub decide : IngestionJob → IngestionStatus × Text
  decide j =
      if not (contains_required_residency s.unicode j.source_uri s.residency_region)
      then (rejected, txt "residency_lock_violation")
      else if has_pii_marker s.unicode j.source_uri
      then (quarantine, txt "pii_redaction_required")
      else (approved, txt "policy_approved")

  unfoldable pub decision_event :
      RequestMetadata → IngestionJob → Time → IngestionStatus × Text → AuditEvent
  decision_event m j now (decision, code) = record {
    event_id = deterministic_event_id m j decision code;
    tenant_id = m.tenant_id;
    event_type = txt "governance.ingestion.policy_decision";
    resource = j.source_uri;
    actor = txt "governance.policy_engine";
    outcome = to_audit_outcome decision;
    occurred_at = now;
    attributes =
        (txt "request_id", m.request_id)
        ∷ (txt "job_id", j.job_id)
        ∷ (txt "source_uri", j.source_uri)
        ∷ (txt "policy_code", code)
        ∷ (txt "decision", status_text decision)
        ∷ (txt "timestamp", s.format_time now)
        ∷ [];
  }

  -- A write that fails has still been tried: the sink was called with the event.
  write_event :
      Option (List AuditEvent → AuditEvent → Option Err)
      → List AuditEvent
      → AuditEvent
      → Option Err × List AuditEvent
  write_event none log e = (none, log)
  write_event (some sink) log e = (sink log e, log ++ e ∷ [])

  checked_event : Result (Unit {0}) → List AuditEvent → AuditEvent → Option Err × List AuditEvent
  checked_event (err x) log e = (some (wrap_validation_err (txt "audit_event") x), log)
  checked_event (ok _) log e = write_event s.write log e

  unfoldable pub record_audit_event : List AuditEvent → AuditEvent → Option Err × List AuditEvent
  unfolding checked_event write_event
  record_audit_event log e = checked_event (validate_audit_event e) log e

  -- The guards of `EvaluateIngestion`.
  unfoldable pub admit : RequestMetadata → IngestionJob → Result (Unit {0})
  unfolding validate_request_metadata validate_ingestion_job
  admit m j = do
    map_err (wrap_validation_err (txt "request_metadata")) (validate_request_metadata m)
    map_err (wrap_validation_err (txt "ingestion_job")) (validate_ingestion_job j)
    reject_if (not (str_eq m.tenant_id j.tenant_id))
        (new (txt "tenant mismatch: metadata=" ++ (m.tenant_id ++ (txt " job=" ++ j.tenant_id))))

  -- A status and an error, both of which the caller reads.
  abbrev pub Verdict : Type 0
  Verdict = IngestionStatus × Option Err

  recorded : IngestionStatus → Option Err × List AuditEvent → Verdict × List AuditEvent
  recorded decision (none, log) = ((decision, none), log)
  recorded decision (some e, log) = ((rejected, some e), log)

  gated :
      RequestMetadata
      → IngestionJob
      → Time
      → List AuditEvent
      → Result (Unit {0})
      → Verdict × List AuditEvent
  unfolding recorded
  gated m j now log (err e) = ((rejected, some e), log)
  gated m j now log (ok _) =
      let d = decide j in recorded d.0 (record_audit_event log (decision_event m j now d))

  unfoldable pub evaluate_ingestion :
      RequestMetadata → IngestionJob → Time → List AuditEvent → Verdict × List AuditEvent
  unfolding gated
  evaluate_ingestion m j now log = gated m j now log (admit m j)
