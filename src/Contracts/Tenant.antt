-- ===== src/Contracts/Tenant.antt =====
-- internal/contracts/contracts.go: the tenant, the tenant and the actor of a request's context, the
-- request's metadata and the claims of an API key.
pub mod Scope
use fine_rag_core.Prelude.{
  ℕ, Bool, Option, none, some, List, ◌++◌, ◌==◌, is_empty, if◌then◌else◌, not,
}
use fine_rag_core.Text.{Text, txt, str_eq, is_blank, trim_space, fields, join}
use fine_rag_core.Result.{Err, new, message, Result, ok, err, ◌>>=◌, ◌>>◌, reject_if, map_err}

-- `time.Time`: nanoseconds since Go's zero time, so that `IsZero` is a test for 0.
abbrev pub Time : Type 0
Time = ℕ

abbrev pub is_zero : Time → Bool
is_zero t = t == 0

abbrev pub TenantId : Type 0
TenantId = Text

unfoldable pub validate_tenant_id : TenantId → Result (Unit {0})
validate_tenant_id t = reject_if (is_empty t) (new (txt "tenant_id is required"))

pub record TenantContext : Type 0 where
  pub tenant_id : TenantId
  pub request_id : Text

unfoldable pub validate_tenant_context : TenantContext → Result (Unit {0})
unfolding validate_tenant_id
validate_tenant_context c = do
  validate_tenant_id c.tenant_id
  reject_if (is_empty c.request_id) (new (txt "request_id is required"))

unfoldable pub err_tenant_context_missing : Text
err_tenant_context_missing = txt "tenant context missing"

unfoldable pub err_tenant_context_malformed : Text
err_tenant_context_malformed = txt "tenant context malformed"

unfoldable pub err_tenant_scope_required : Text
err_tenant_scope_required = txt "tenant scope is required"

unfoldable pub err_tenant_scope_mismatch : Text
err_tenant_scope_mismatch = txt "tenant scope mismatch"

-- A `context.Context` as far as the program reads it. The two keys are of unexported types, so
-- only the functions below store under them, each a value of the type that is read back.
pub record Context : Type 0 where
  pub tenant_value : Option TenantContext
  pub actor_value : Option Text

abbrev pub background : Context
background = record { tenant_value = none; actor_value = none }

-- A nil context counts as the empty one.
abbrev pub or_background : Option Context → Context
or_background none = background
or_background (some c) = c

malformed : Err → Err
malformed e = new (err_tenant_context_malformed ++ (txt ": " ++ message e))

unfoldable pub with_tenant_context : Option Context → TenantContext → Result Context
unfolding validate_tenant_context malformed
with_tenant_context ctx tenant_context = do
  map_err malformed (validate_tenant_context tenant_context)
  ok (record (or_background ctx) { tenant_value = some tenant_context })

validated : Option TenantContext → Result TenantContext
unfolding validate_tenant_context malformed
validated none = err (new err_tenant_context_missing)
validated (some c) = do map_err malformed (validate_tenant_context c); ok c

unfoldable pub tenant_context_from_context : Option Context → Result TenantContext
unfolding validated
tenant_context_from_context none = err (new err_tenant_context_missing)
tenant_context_from_context (some ctx) = validated ctx.tenant_value

scope_required : Err → Err
scope_required e = new (err_tenant_scope_required ++ (txt ": " ++ message e))

unfoldable pub require_tenant_scope : Option Context → Result TenantContext
unfolding tenant_context_from_context scope_required
require_tenant_scope ctx = map_err scope_required (tenant_context_from_context ctx)

scope_mismatch : TenantId → TenantId → Err
scope_mismatch scope target =
    new (err_tenant_scope_mismatch ++ (txt ": scope=" ++ (scope ++ (txt " target=" ++ target))))

unfoldable pub ensure_tenant_match : Option Context → TenantId → Result (Unit {0})
unfolding require_tenant_scope validate_tenant_id scope_mismatch
ensure_tenant_match ctx tenant_id = do
  scope ← require_tenant_scope ctx
  validate_tenant_id tenant_id
  reject_if (not (str_eq scope.tenant_id tenant_id)) (scope_mismatch scope.tenant_id tenant_id)

unfoldable pub with_actor_id : Option Context → Text → Context
with_actor_id ctx actor_id =
    let trimmed = trim_space actor_id in
    if is_empty trimmed
    then or_background ctx
    else record (or_background ctx) { actor_value = some trimmed }

trimmed_actor : Option Text → Option Text
trimmed_actor none = none
trimmed_actor (some raw) = let t = trim_space raw in if is_empty t then none else some t

-- `(string, bool)` is an `Option`.
unfoldable pub actor_id_from_context : Option Context → Option Text
unfolding trimmed_actor
actor_id_from_context none = none
actor_id_from_context (some ctx) = trimmed_actor ctx.actor_value

unfoldable pub normalize_provider_user_part : Text → Text
normalize_provider_user_part value =
    let trimmed = trim_space value in
    if is_empty trimmed then txt "" else join (fields trimmed) (txt "_")

join_parts : Text → Text → Option Text
join_parts actor_part tenant_part =
    if is_empty actor_part
    then (if is_empty tenant_part then none else some tenant_part)
    else if is_empty tenant_part
    then some actor_part
    else some (actor_part ++ (txt "_" ++ tenant_part))

with_tenant_part : Text → Result TenantContext → Option Text
unfolding normalize_provider_user_part join_parts
with_tenant_part actor_id (err e) = some (normalize_provider_user_part actor_id)
with_tenant_part actor_id (ok c) =
    if is_blank c.tenant_id
    then some (normalize_provider_user_part actor_id)
    else join_parts (normalize_provider_user_part actor_id)
        (normalize_provider_user_part c.tenant_id)

unfoldable pub provider_user_id_from_context : Option Context → Option Text
unfolding actor_id_from_context with_tenant_part
provider_user_id_from_context ctx = elim (actor_id_from_context ctx) [
  | none ↦ none
  | some actor_id ↦ with_tenant_part actor_id (tenant_context_from_context ctx)
]

pub record AuthClaims : Type 0 where
  pub tenant_id : TenantId
  pub subject : Text
  pub api_key_id : Text
  pub scopes : List Text
  pub issued_at : Time

unfoldable pub validate_auth_claims : AuthClaims → Result (Unit {0})
unfolding validate_tenant_id
validate_auth_claims c = do
  validate_tenant_id c.tenant_id
  reject_if (is_empty c.subject) (new (txt "subject is required"))
  reject_if (is_empty c.api_key_id) (new (txt "api_key_id is required"))
  reject_if (is_zero c.issued_at) (new (txt "issued_at is required"))

pub record RequestMetadata : Type 0 where
  pub tenant_id : TenantId
  pub request_id : Text
  pub source_ip : Text
  pub user_agent : Text

unfoldable pub validate_request_metadata : RequestMetadata → Result (Unit {0})
unfolding validate_tenant_id
validate_request_metadata m = do
  validate_tenant_id m.tenant_id
  reject_if (is_empty m.request_id) (new (txt "request_id is required"))

-- `WrapValidationErr` of an error
unfoldable pub wrap_validation_err : Text → Err → Err
wrap_validation_err contract e =
    new (contract ++ (txt " contract validation failed: " ++ message e))
