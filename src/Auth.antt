-- ===== src/Auth.antt =====
-- internal/auth/apikey.go: API keys. SHA-256 in hexadecimal, the id of an event and the time are
-- parameters. What the audit sink was given is the state; its answers are ignored by the program.
pub mod Claims
use fine_rag_core.Prelude.{
  Bool, true, false, Option, none, some, List, [], ◌∷◌, ◌++◌, is_empty, if◌then◌else◌,
}
use fine_rag_core.Text.{Text, txt}
use fine_rag_core.Result.{Err, new, wrap, Result, ok, err}
use fine_rag_core.Dict.{Dict, lookup, insert}
use fine_rag_core.Contracts.Tenant.{
  Time, TenantId, AuthClaims, validate_auth_claims, RequestMetadata, validate_request_metadata,
  wrap_validation_err,
}
use fine_rag_core.Contracts.Job.{Attributes}
use fine_rag_core.Contracts.Audit.{AuditOutcome, allowed, denied, error, AuditEvent}

pub record ApiKeyRecord : Type 0 where
  pub api_key_id : Text
  pub tenant_id : TenantId
  pub subject : Text
  pub raw_key_sha256 : Text
  pub revoked : Bool
  pub revoked_at : Time
  pub issued_at : Time
  pub allowed_scopes : List Text

-- The store in memory: the lock makes each method one step.
abbrev pub InMemoryApiKeyStore : Type 0
InMemoryApiKeyStore = Dict ApiKeyRecord

unfoldable pub put : ApiKeyRecord → InMemoryApiKeyStore → InMemoryApiKeyStore
put r store = insert r.raw_key_sha256 r store

-- Never an error; a record that is missing is `none`.
unfoldable pub get_by_hash : InMemoryApiKeyStore → Text → Result (Option ApiKeyRecord)
get_by_hash store hash = ok (lookup hash store)

pub record Authenticator : Type 0 where
  pub store : Option (Text → Result (Option ApiKeyRecord))
  pub has_sink : Bool
  pub hash_api_key : Text → Text
  pub event_id : Text
  pub now : Time

unfoldable pub err_api_key_missing : Err
err_api_key_missing = new (txt "api key is required")

unfoldable pub err_api_key_invalid : Err
err_api_key_invalid = new (txt "api key is invalid")

unfoldable pub err_api_key_revoked : Err
err_api_key_revoked = new (txt "api key is revoked")

abbrev reason : Text → Attributes
reason text = (txt "reason", text) ∷ []

abbrev key_attribute : ApiKeyRecord → Attributes
key_attribute r = (txt "api_key_id", r.api_key_id) ∷ []

unfoldable pub claims_of : ApiKeyRecord → AuthClaims
claims_of r = record {
  tenant_id = r.tenant_id;
  subject = r.subject;
  api_key_id = r.api_key_id;
  scopes = r.allowed_scopes;
  issued_at = r.issued_at;
}

module _ (a : Authenticator) (m : RequestMetadata) where
  unfoldable pub auth_event : AuditOutcome → Attributes → AuditEvent
  auth_event outcome attributes = record {
    event_id = a.event_id;
    tenant_id = m.tenant_id;
    event_type = txt "api_key.auth";
    resource = txt "api_key";
    actor = m.request_id;
    outcome = outcome;
    occurred_at = a.now;
    attributes = attributes;
  }

  unfoldable pub write_audit : AuditOutcome → Attributes → List AuditEvent → List AuditEvent
  write_audit outcome attributes log =
      if a.has_sink then log ++ auth_event outcome attributes ∷ [] else log

  abbrev pub Outcome : Type 0
  Outcome = Result AuthClaims × List AuditEvent

  claims_checked : ApiKeyRecord → List AuditEvent → Result (Unit {0}) → Outcome
  claims_checked r log (err e) = (
    err (wrap (txt "auth claims validation failed") e),
    write_audit error (reason (txt "invalid_claims") ++ key_attribute r) log,
  )
  claims_checked r log (ok _) = (ok (claims_of r), write_audit allowed (key_attribute r) log)

  unless_revoked : Bool → ApiKeyRecord → List AuditEvent → Outcome
  unfolding claims_checked
  unless_revoked true r log = (
    err err_api_key_revoked,
    write_audit denied (reason (txt "revoked_key") ++ key_attribute r) log,
  )
  unless_revoked false r log = claims_checked r log (validate_auth_claims (claims_of r))

  looked_up : List AuditEvent → Result (Option ApiKeyRecord) → Outcome
  unfolding unless_revoked
  looked_up log (err e) = (err e, write_audit error (reason (txt "store_error")) log)
  looked_up log (ok none) =
      (err err_api_key_invalid, write_audit denied (reason (txt "invalid_key")) log)
  looked_up log (ok (some r)) = unless_revoked r.revoked r log

  key_checked : (Text → Result (Option ApiKeyRecord)) → Text → List AuditEvent → Outcome
  unfolding looked_up
  key_checked get raw_api_key log =
      let found = looked_up log (get (a.hash_api_key raw_api_key)) in
      if is_empty raw_api_key
      then (err err_api_key_missing, write_audit denied (reason (txt "missing_key")) log)
      else found

  metadata_checked :
      Result (Unit {0}) → (Text → Result (Option ApiKeyRecord)) → Text → List AuditEvent → Outcome
  unfolding key_checked
  metadata_checked (err e) get raw_api_key log =
      (err (wrap_validation_err (txt "request_metadata") e), log)
  metadata_checked (ok _) get raw_api_key log = key_checked get raw_api_key log

  store_checked : Option (Text → Result (Option ApiKeyRecord)) → Text → List AuditEvent → Outcome
  unfolding metadata_checked
  store_checked none raw_api_key log = (err (new (txt "api key store is required")), log)
  store_checked (some get) raw_api_key log =
      metadata_checked (validate_request_metadata m) get raw_api_key log

  unfoldable pub authenticate : Text → List AuditEvent → Result AuthClaims × List AuditEvent
  unfolding store_checked
  authenticate raw_api_key log = store_checked a.store raw_api_key log
