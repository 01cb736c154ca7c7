-- ===== src/Governance/Gate.antt =====
-- internal/services/governance/service.go: what the gate lets through, and what it records.
use fine_rag_core.Prelude.{
  ◌≡◌, refl, ap, sym, subst, ◌∙◌, ◌↔◌, true, false, Option, none, some, List, [], ◌∷◌, ◌++◌, arith,
  is_empty,
}
use fine_rag_core.Text.{Text, txt, str_eq_iff}
use fine_rag_core.Result.{Err, Result, ok, err}
use fine_rag_core.Contracts.Tenant.{Time, is_zero, RequestMetadata}
use fine_rag_core.Contracts.Job.{IngestionStatus, approved, rejected, IngestionJob}
use fine_rag_core.Contracts.Audit.{allowed, AuditEvent, validate_audit_event}
use fine_rag_core.Governance.{
  Policy, contains_required_residency, has_pii_marker, to_audit_outcome, deterministic_event_id,
  decide, decision_event, write_event, checked_event, record_audit_event, admit, recorded, gated,
  evaluate_ingestion,
}

module _ (s : Policy) (m : RequestMetadata) (j : IngestionJob) where
  admit-tenants : admit s m j ≡ ok tt → (m.tenant_id ≡ j.tenant_id) × (is_empty m.tenant_id ≡ false)
  unfolding admit
  admit-tenants h = ground (arith, str_eq_iff m.tenant_id j.tenant_id)

  event_id-named :
      (decision : IngestionStatus) (code : Text)
      → is_empty (deterministic_event_id s m j decision code) ≡ false
  unfolding deterministic_event_id txt
  event_id-named decision code = refl

  -- The event of a decision is valid whenever the clock is set.
  event-valid :
      (now : Time)
      → admit s m j ≡ ok tt
      → is_zero now ≡ false
      → validate_audit_event (decision_event s m j now (decide s j)) ≡ ok tt
  unfolding validate_audit_event decision_event txt
  event-valid now h set =
      ground (arith, (admit-tenants h).1, event_id-named (decide s j).0 (decide s j).1)

  recorded-approved :
      (decision : IngestionStatus) (r : Option Err × List AuditEvent)
      → (recorded s decision r).0.0 ≡ approved
      → ((recorded s decision r).0.1 ≡ none) × (decision ≡ approved)
  unfolding recorded
  recorded-approved decision (none, log) h = (refl, h)
  recorded-approved decision (some e, log) h = cc

  decide-approved :
      (decide s j).0 ≡ approved
      → (contains_required_residency s.unicode j.source_uri s.residency_region ≡ true)
        × (has_pii_marker s.unicode j.source_uri ≡ false)
  unfolding decide
  decide-approved h = ground arith

  gated-approved :
      (now : Time) (log : List AuditEvent) (r : Result (Unit {0}))
      → admit s m j ≡ r
      → (gated s m j now log r).0.0 ≡ approved
      → ((gated s m j now log r).0.1 ≡ none)
        × (m.tenant_id ≡ j.tenant_id)
        × (contains_required_residency s.unicode j.source_uri s.residency_region ≡ true)
        × (has_pii_marker s.unicode j.source_uri ≡ false)
  unfolding gated
  gated-approved now log (err e) same h = cc
  gated-approved now log (ok tt) same h =
      let (no_error, decided) = recorded-approved (decide s j).0 _ h in
      let (inside, unmarked) = decide-approved decided in
      (no_error, (admit-tenants same).0, inside, unmarked)

  -- A job passes the gate only if its tenant is the caller's, its source lies in the region, and its
  -- name carries no mark of personal data; and then the caller gets no error.
  pub evaluate_ingestion-approved :
      (now : Time) (log : List AuditEvent)
      → (evaluate_ingestion s m j now log).0.0 ≡ approved
      → ((evaluate_ingestion s m j now log).0.1 ≡ none)
        × (m.tenant_id ≡ j.tenant_id)
        × (contains_required_residency s.unicode j.source_uri s.residency_region ≡ true)
        × (has_pii_marker s.unicode j.source_uri ≡ false)
  unfolding evaluate_ingestion
  evaluate_ingestion-approved now log h = gated-approved now log (admit s m j) refl h

  -- What happens to an admitted job with a sink and a clock that is set.
  pub record Audited (sink : List AuditEvent → AuditEvent → Option Err) (log : List AuditEvent)
      (e : AuditEvent) (after : (IngestionStatus × Option Err) × List AuditEvent) : Type 0 where
    pub logged : after.1 ≡ log ++ e ∷ []
    pub tenant : e.tenant_id ≡ j.tenant_id
    pub outcome : (e.outcome ≡ allowed) ↔ ((decide s j).0 ≡ approved)
    pub decided : sink log e ≡ none → after.0 ≡ ((decide s j).0, none)
    pub closed : (x : Err) → sink log e ≡ some x → after.0 ≡ (rejected, some x)

  evaluate_ingestion-recorded :
      (sink : List AuditEvent → AuditEvent → Option Err) (now : Time) (log : List AuditEvent)
      → admit s m j ≡ ok tt
      → is_zero now ≡ false
      → s.write ≡ some sink
      → let e = decision_event s m j now (decide s j) in
        evaluate_ingestion s m j now log ≡ recorded s (decide s j).0 (sink log e, log ++ e ∷ [])
  unfolding evaluate_ingestion record_audit_event gated
  evaluate_ingestion-recorded sink now log admitted set has =
      let e = decision_event s m j now (decide s j) in
      ap (gated s m j now log) admitted
      ∙ ap (recorded s (decide s j).0) (
          ap (λ v. checked_event s v log e) (event-valid now admitted set)
          ∙ ap (λ o. write_event s o log e) has)

  recorded-logged :
      (decision : IngestionStatus) (r : Option Err) (log : List AuditEvent)
      → ((recorded s decision (r, log)).1 ≡ log)
        × (r ≡ none → (recorded s decision (r, log)).0 ≡ (decision, none))
        × ((x : Err) → r ≡ some x → (recorded s decision (r, log)).0 ≡ (rejected, some x))
  unfolding recorded
  recorded-logged decision none log = (refl, λ h. refl, λ x h. cc)
  recorded-logged decision (some e) log = (refl, λ h. cc, λ x h. cc)

  outcome-approved :
      (decision : IngestionStatus) → (to_audit_outcome decision ≡ allowed) ↔ (decision ≡ approved)
  unfolding to_audit_outcome
  outcome-approved decision = ground arith

  -- Where a sink is configured and the clock is set, every decision on an admitted job is audited (with
  -- no sink a decision is returned with no event): one event is written, for the job's tenant, which
  -- says `allowed` exactly if the decision is to approve; the caller gets the decision if the write
  -- succeeds, and a rejection with the error of the write if it fails.
  pub evaluate_ingestion-Audited :
      (sink : List AuditEvent → AuditEvent → Option Err) (now : Time) (log : List AuditEvent)
      → admit s m j ≡ ok tt
      → is_zero now ≡ false
      → s.write ≡ some sink
      → Audited sink log (decision_event s m j now (decide s j)) (evaluate_ingestion s m j now log)
  evaluate_ingestion-Audited sink now log admitted set has =
      let e = decision_event s m j now (decide s j) in
      let (logged, decided, closed) = recorded-logged (decide s j).0 (sink log e) (log ++ e ∷ []) in
      subst (Audited sink log e) (sym (evaluate_ingestion-recorded sink now log admitted set has))
        (record {
          logged = logged;
          tenant = unfold decision_event in (admit-tenants admitted).0;
          outcome = unfold decision_event in outcome-approved (decide s j).0;
          decided = decided;
          closed = closed;
        })
