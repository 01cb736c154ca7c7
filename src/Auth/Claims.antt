-- ===== src/Auth/Claims.antt =====
-- internal/auth/apikey.go: who is authenticated, and what is audited.
use fine_rag_core.Prelude.{
  ap, ◌≡◌, ◌≢◌, refl, sym, subst, Bool, true, false, Option, none, some, List, [], ◌∷◌, ◌++◌,
  is_empty, Bool-cases, inl, inr,
}
use fine_rag_core.Text.{Text}
use fine_rag_core.Result.{Err, Result, ok, err}
use fine_rag_core.Contracts.Tenant.{
  AuthClaims, validate_auth_claims, RequestMetadata, validate_request_metadata,
}
use fine_rag_core.Contracts.Job.{Attributes}
use fine_rag_core.Contracts.Audit.{AuditOutcome, allowed, denied, error, AuditEvent}
use fine_rag_core.Auth.{
  ApiKeyRecord, Authenticator, claims_of, auth_event, write_audit, claims_checked, unless_revoked,
  looked_up, key_checked, metadata_checked, store_checked, authenticate, Outcome,
}

module _ (a : Authenticator) (m : RequestMetadata) where
  -- The claims are read off the record that the store has for the key, which is not revoked.
  pub record Known (raw_api_key : Text) (claims : AuthClaims) : Type 0 where
    pub get : Text → Result (Option ApiKeyRecord)
    pub has_store : a.store ≡ some get
    pub key : ApiKeyRecord
    pub found : get (a.hash_api_key raw_api_key) ≡ ok (some key)
    pub live : key.revoked ≡ false
    pub given : is_empty raw_api_key ≡ false
    pub tenant : claims.tenant_id ≡ key.tenant_id
    pub subject : claims.subject ≡ key.subject
    pub id : claims.api_key_id ≡ key.api_key_id
    pub scopes : claims.scopes ≡ key.allowed_scopes
    pub issued : claims.issued_at ≡ key.issued_at
    pub valid : validate_auth_claims claims ≡ ok tt

  -- The fields of the claims, one by one.
  claimed :
      (r : ApiKeyRecord) (claims : AuthClaims)
      → claims ≡ claims_of r
      → (claims.tenant_id ≡ r.tenant_id)
        × (claims.subject ≡ r.subject)
        × (claims.api_key_id ≡ r.api_key_id)
        × (claims.scopes ≡ r.allowed_scopes)
        × (claims.issued_at ≡ r.issued_at)
  unfolding claims_of
  claimed r claims h = (
    ap (λ c. c.tenant_id) h,
    ap (λ c. c.subject) h,
    ap (λ c. c.api_key_id) h,
    ap (λ c. c.scopes) h,
    ap (λ c. c.issued_at) h,
  )

  claims_checked-ok :
      (r : ApiKeyRecord) (log : List AuditEvent) (v : Result (Unit {0})) (claims : AuthClaims)
      → (claims_checked a m r log v).0 ≡ ok claims
      → (v ≡ ok tt) × (claims ≡ claims_of r)
  unfolding claims_checked
  claims_checked-ok r log (ok _) claims h = (refl, cc)
  claims_checked-ok r log (err e) claims h = cc

  unless_revoked-ok :
      (revoked : Bool) (r : ApiKeyRecord) (log : List AuditEvent) (claims : AuthClaims)
      → (unless_revoked a m revoked r log).0 ≡ ok claims
      → (revoked ≡ false) × (validate_auth_claims (claims_of r) ≡ ok tt) × (claims ≡ claims_of r)
  unfolding unless_revoked
  unless_revoked-ok true r log claims h = cc
  unless_revoked-ok false r log claims h =
      let (valid, same) = claims_checked-ok r log _ claims h in (refl, valid, same)

  looked_up-ok :
      (log : List AuditEvent) (found : Result (Option ApiKeyRecord)) (claims : AuthClaims)
      → (looked_up a m log found).0 ≡ ok claims
      → (r : ApiKeyRecord) × (found ≡ ok (some r))
        × (r.revoked ≡ false)
        × (validate_auth_claims (claims_of r) ≡ ok tt)
        × (claims ≡ claims_of r)
  unfolding looked_up
  looked_up-ok log (err e) claims h = cc
  looked_up-ok log (ok none) claims h = cc
  looked_up-ok log (ok (some r)) claims h =
      let (live, valid, same) = unless_revoked-ok r.revoked r log claims h in
      (r, refl, live, valid, same)

  known :
      (get : Text → Result (Option ApiKeyRecord)) (raw_api_key : Text) (log : List AuditEvent)
      (claims : AuthClaims)
      → a.store ≡ some get
      → (key_checked a m get raw_api_key log).0 ≡ ok claims
      → Known raw_api_key claims
  unfolding key_checked
  known get raw_api_key log claims has h = elim (Bool-cases (is_empty raw_api_key)) [
    | inl e ↦ absurd (missing e)
    | inr e ↦
        let (r, found, live, valid, same) = looked_up-ok log _ claims (rw e at h) in
        let (tenant, subject, id, scopes, issued) = claimed r claims same in
        record {
          get = get;
          has_store = has;
          key = r;
          found = found;
          live = live;
          given = e;
          tenant = tenant;
          subject = subject;
          id = id;
          scopes = scopes;
          issued = issued;
          valid = rw same valid;
        }
  ]
    where
      missing : is_empty raw_api_key ≡ true → ⊥
      missing e = let bad = rw e at h in cc

  stored-Known :
      (store : Option (Text → Result (Option ApiKeyRecord))) (raw_api_key : Text)
      (log : List AuditEvent) (claims : AuthClaims)
      → a.store ≡ store
      → (store_checked a m store raw_api_key log).0 ≡ ok claims
      → Known raw_api_key claims
  unfolding store_checked
  stored-Known none raw_api_key log claims has h = cc
  stored-Known (some get) raw_api_key log claims has h = admitted (validate_request_metadata m) h
    where
      admitted :
          (v : Result (Unit {0}))
          → (metadata_checked a m v get raw_api_key log).0 ≡ ok claims
          → Known raw_api_key claims
      admitted (err e) h = cc
      admitted (ok _) h = known get raw_api_key log claims has h

  -- A request is authenticated only by a key that is given, that the store knows by its hash and that
  -- is not revoked; the claims have the tenant, the subject, the id, the scopes and the time of
  -- issue of its record, and they are valid.
  pub authenticate-Known :
      (raw_api_key : Text) (log : List AuditEvent) (claims : AuthClaims)
      → (authenticate a m raw_api_key log).0 ≡ ok claims
      → Known raw_api_key claims
  unfolding authenticate
  authenticate-Known raw_api_key log claims h = stored-Known a.store raw_api_key log claims refl h

  -- One event more, for the tenant and the id of the request, which says allowed just if there are
  -- claims.
  pub record Audited (log : List AuditEvent) (after : Outcome a m) : Type 0 where
    pub event : AuditEvent
    pub logged : after.1 ≡ log ++ event ∷ []
    pub tenant : event.tenant_id ≡ m.tenant_id
    pub actor : event.actor ≡ m.request_id
    pub passed : (claims : AuthClaims) → after.0 ≡ ok claims → event.outcome ≡ allowed
    pub refused : (e : Err) → after.0 ≡ err e → event.outcome ≢ allowed

  write_audit-event :
      (outcome : AuditOutcome) (attributes : Attributes) (log : List AuditEvent)
      → a.has_sink ≡ true
      → write_audit a m outcome attributes log ≡ log ++ auth_event a m outcome attributes ∷ []
  unfolding write_audit
  write_audit-event outcome attributes log sink = rw sink refl

  failed-Audited :
      (e : Err) (outcome : AuditOutcome) (attributes : Attributes) (log : List AuditEvent)
      → a.has_sink ≡ true
      → outcome ≢ allowed
      → Audited log (err e, write_audit a m outcome attributes log)
  unfolding auth_event
  failed-Audited e outcome attributes log sink other = record {
    event = auth_event a m outcome attributes;
    logged = write_audit-event outcome attributes log sink;
    tenant = refl;
    actor = refl;
    passed = λ claims h. cc;
    refused = λ e h. other;
  }

  claims_checked-Audited :
      (r : ApiKeyRecord) (log : List AuditEvent) (v : Result (Unit {0}))
      → a.has_sink ≡ true
      → Audited log (claims_checked a m r log v)
  unfolding claims_checked auth_event
  claims_checked-Audited r log (err e) sink = failed-Audited _ error _ log sink (λ h. cc)
  claims_checked-Audited r log (ok _) sink = record {
    event = auth_event a m allowed _;
    logged = write_audit-event allowed _ log sink;
    tenant = refl;
    actor = refl;
    passed = λ claims h. refl;
    refused = λ e h. cc;
  }

  unless_revoked-Audited :
      (revoked : Bool) (r : ApiKeyRecord) (log : List AuditEvent)
      → a.has_sink ≡ true
      → Audited log (unless_revoked a m revoked r log)
  unfolding unless_revoked
  unless_revoked-Audited true r log sink = failed-Audited _ denied _ log sink (λ h. cc)
  unless_revoked-Audited false r log sink = claims_checked-Audited r log _ sink

  looked_up-Audited :
      (log : List AuditEvent) (found : Result (Option ApiKeyRecord))
      → a.has_sink ≡ true
      → Audited log (looked_up a m log found)
  unfolding looked_up
  looked_up-Audited log (err e) sink = failed-Audited e error _ log sink (λ h. cc)
  looked_up-Audited log (ok none) sink = failed-Audited _ denied _ log sink (λ h. cc)
  looked_up-Audited log (ok (some r)) sink = unless_revoked-Audited r.revoked r log sink

  key_checked-Audited :
      (get : Text → Result (Option ApiKeyRecord)) (raw_api_key : Text) (log : List AuditEvent)
      → a.has_sink ≡ true
      → Audited log (key_checked a m get raw_api_key log)
  unfolding key_checked
  key_checked-Audited get raw_api_key log sink = elim (Bool-cases (is_empty raw_api_key)) [
    | inl e ↦ rw e (failed-Audited _ denied _ log sink (λ h. cc))
    | inr e ↦ rw e (looked_up-Audited log _ sink)
  ]

  -- Where there are a store and a sink and the metadata is valid, an attempt is audited by one event
  -- for the tenant and the id of the request, whose outcome is that it was allowed just if it was.
  pub authenticate-Audited :
      (get : Text → Result (Option ApiKeyRecord)) (raw_api_key : Text) (log : List AuditEvent)
      → a.store ≡ some get
      → a.has_sink ≡ true
      → validate_request_metadata m ≡ ok tt
      → Audited log (authenticate a m raw_api_key log)
  unfolding authenticate store_checked metadata_checked
  authenticate-Audited get raw_api_key log has sink valid =
      subst (λ o. Audited log (store_checked a m o raw_api_key log)) (sym has)
        (subst (λ v. Audited log (metadata_checked a m v get raw_api_key log)) (sym valid)
          (key_checked-Audited get raw_api_key log sink))
