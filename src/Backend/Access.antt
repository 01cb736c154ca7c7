-- ===== src/Backend/Access.antt =====
-- backend/util/serverUtil.go: the layers in front of a handler, which give a request its id, its user
-- and its tenant, and the limiter of requests for a tenant and a path.
--
-- A layer answers the request itself or hands its context on. Reading a header, the tables of the
-- database and the clock come from outside; the mutex of the limiter makes a call one step.
pub mod Admission
use fine_rag_core.Prelude.{
  ℕ, ◌+◌, ◌-◌, ℤ, pos, negsuc, Bool, true, false, not, ◌&&◌, ◌||◌, Option, none, some, List, [],
  ◌∷◌, ◌++◌, length, keep, is_empty, ltb, leb, ◌==◌, if◌then◌else◌, or_default,
}
use fine_rag_core.Text.{Text, txt, str_eq, trim_space, has_prefix, Unicode, to_lower}
use fine_rag_core.Text.Bytes.{drop_bytes}
use fine_rag_core.Result.{message, Result, ok, err}
use fine_rag_core.Dict.{Dict, lookup, insert, get_or_zero}
use fine_rag_core.Contracts.Tenant.{
  Time, is_zero, TenantId, Context, with_actor_id, with_tenant_context,
}
use fine_rag_core.Backend.Tokens.{AuthClaims, Codec, verify_jwt}

-- The context of a request: the values under the keys of the backend, and those of the contracts.
pub record RequestContext : Type 0 where
  pub user_id : Option ℤ
  pub request_id : Text
  pub scope : Context

-- An error that is written, with its code and its name, or the context for the next layer.
pub data Layer : Type 0 where
  refusal : ℕ → Text → Text → Layer
  pass : RequestContext → Layer

-- `fresh` is `RandomUUIDv4Like()`, and `header` reads a header.
unfoldable pub with_request_id : Text → (Text → Text) → RequestContext → RequestContext
with_request_id fresh header ctx =
    let first = trim_space (header (txt "X-Request-Id")) in
    let second = trim_space (header (txt "X-Request-ID")) in
    record ctx {
      request_id = if is_empty first then (if is_empty second then fresh else second) else first;
    }

abbrev pub authorized : RequestContext → AuthClaims → RequestContext
authorized ctx claims = record ctx {
  user_id = some claims.uid;
  scope = with_actor_id (some ctx.scope) claims.sub;
}

token_checked : RequestContext → Result AuthClaims → Layer
unfolding txt
token_checked ctx (err e) = refusal 401 (txt "auth_invalid") (txt "invalid or expired token")
token_checked ctx (ok claims) = pass (authorized ctx claims)

-- What stands behind "Bearer ": where the lower case of a text begins with "bearer ", the text begins
-- with seven symbols of one byte.
abbrev pub bearer_token : Text → Text
bearer_token authz = trim_space (drop_bytes 7 authz)

unfoldable pub with_auth : Codec → Unicode → Text → ℤ → (Text → Text) → RequestContext → Layer
unfolding token_checked txt
with_auth k u secret now header ctx =
    let authz = trim_space (header (txt "Authorization")) in
    let checked = token_checked ctx (verify_jwt k (bearer_token authz) secret now) in
    if not (has_prefix (to_lower u authz) (txt "bearer "))
    then refusal 401 (txt "auth_required") (txt "bearer token is required")
    else checked

abbrev pub eq_int : ℤ → ℤ → Bool
eq_int (pos a) (pos b) = a == b
eq_int (negsuc a) (negsuc b) = a == b
eq_int (pos a) (negsuc b) = false
eq_int (negsuc a) (pos b) = false

-- The rows of `user_tenants`, or the error of the query.
abbrev pub UserTenants : Type 0
UserTenants = Result (List (ℤ × TenantId))

abbrev pub assigned : ℤ → TenantId → List (ℤ × TenantId) → Bool
assigned uid t rows = ltb 0 (length (keep (λ row. eq_int row.0 uid && str_eq row.1 t) rows))

unfoldable pub user_has_tenant : UserTenants → ℤ → TenantId → Result Bool
user_has_tenant (err e) uid t = err e
user_has_tenant (ok rows) uid t = ok (assigned uid t rows)

pub record WindowState : Type 0 where
  pub start : Time
  pub count : ℕ

pub record WindowLimiter : Type 0 where
  pub limit : ℕ
  pub window : Time
  pub state : Dict WindowState

unfoldable pub new_window_limiter : ℤ → WindowLimiter
new_window_limiter limit = record {
  limit = or_default limit 120;
  window = 60_000_000_000;
  state = [];
}

abbrev pub no_window : WindowState
no_window = record { start = 0; count = 0 }

unfoldable pub allow_key : WindowLimiter → Time → Text → Bool × WindowLimiter
allow_key l now key =
    let cur = get_or_zero no_window (lookup key l.state) in
    if is_zero cur.start || leb l.window (now - cur.start)
    then (true, record l { state = insert key (record { start = now; count = 1 }) l.state })
    else if leb l.limit cur.count
    then (false, l)
    else (true, record l { state = insert key (record cur { count = cur.count + 1 }) l.state })

scope_taken_over : RequestContext → Result Context → Layer
scope_taken_over ctx (err e) = refusal 500 (txt "tenant_context_failed") (message e)
scope_taken_over ctx (ok scope) = pass (record ctx { scope = scope })

limit_checked : RequestContext → TenantId → Bool × WindowLimiter → Layer × WindowLimiter
unfolding scope_taken_over with_tenant_context txt
limit_checked ctx t (false, l) = (refusal 429 (txt "rate_limited") (txt "rate limit exceeded"), l)
limit_checked ctx t (true, l) = (
  scope_taken_over ctx (
      with_tenant_context (some ctx.scope) (record { tenant_id = t; request_id = ctx.request_id })),
  l,
)

membership_checked :
    RequestContext → TenantId → Text → Time → WindowLimiter → Result Bool → Layer × WindowLimiter
unfolding limit_checked allow_key txt
membership_checked ctx t path now l (err e) =
    (refusal 500 (txt "tenant_check_failed") (message e), l)
membership_checked ctx t path now l (ok false) =
    (refusal 403 (txt "tenant_forbidden") (txt "tenant not assigned"), l)
membership_checked ctx t path now l (ok true) =
    limit_checked ctx t (allow_key l now (t ++ (b':' ∷ path)))

user_checked :
    UserTenants
    → RequestContext
    → TenantId
    → Text
    → Time
    → WindowLimiter
    → Option ℤ
    → Layer × WindowLimiter
unfolding user_has_tenant membership_checked txt
user_checked rows ctx t path now l none =
    (refusal 401 (txt "auth_required") (txt "missing user context"), l)
user_checked rows ctx t path now l (some uid) =
    membership_checked ctx t path now l (user_has_tenant rows uid t)

unfoldable pub with_tenant :
    UserTenants
    → (Text → Text)
    → Text
    → Time
    → WindowLimiter
    → RequestContext
    → Layer × WindowLimiter
unfolding user_checked txt
with_tenant rows header path now l ctx =
    let t = trim_space (header (txt "X-Tenant-ID")) in
    let checked = user_checked rows ctx t path now l ctx.user_id in
    if is_empty t
    then (refusal 400 (txt "tenant_required") (txt "X-Tenant-ID is required"), l)
    else checked
