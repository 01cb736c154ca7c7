-- ===== src/Backend/Access/Admission.antt =====
-- backend/util/serverUtil.go: who gets past the layers, and with which tenant.
use fine_rag_core.Prelude.{
  ℕ, ◌≡◌, ◌↔◌, refl, ap, ◌∙◌, ℤ, Bool, true, false, ◌++◌, ◌∷◌, Option, none, some, List, is_empty,
  if◌then◌else◌,
}
use fine_rag_core.Text.{Text, txt, trim_space, Unicode}
use fine_rag_core.Result.{Result, ok, err}
use fine_rag_core.Contracts.Tenant.{Time, TenantId, Context, with_tenant_context}
use fine_rag_core.Repository.{
  guard_read_scope, guard_write_scope, guard_read_scope-with_tenant_context,
}
use fine_rag_core.Backend.Tokens.{AuthClaims, Codec, verify_jwt}
use fine_rag_core.Backend.Access.{
  RequestContext, Layer, refusal, pass, authorized, token_checked, bearer_token, with_auth,
  UserTenants, assigned, user_has_tenant, WindowLimiter, allow_key, scope_taken_over, limit_checked,
  membership_checked, user_checked, with_tenant,
}

-- A request that gets past a refusal.
past :
    (test : Bool) (status : ℕ) (code text : Text) (rest : Layer) (ctx : RequestContext)
    → (if test then refusal status code text else rest) ≡ pass ctx
    → rest ≡ pass ctx
past true status code text rest ctx h = cc
past false status code text rest ctx h = h

past_layer :
    (test : Bool) (status : ℕ) (code text : Text) (l : WindowLimiter) (rest : Layer × WindowLimiter)
    (ctx : RequestContext)
    → (if test then (refusal status code text, l) else rest).0 ≡ pass ctx
    → rest.0 ≡ pass ctx
past_layer true status code text l rest ctx h = cc
past_layer false status code text l rest ctx h = h

token_checked-pass :
    (ctx after : RequestContext) (r : Result AuthClaims)
    → token_checked ctx r ≡ pass after
    → (claims : AuthClaims) × (r ≡ ok claims) × (after ≡ authorized ctx claims)
unfolding token_checked
token_checked-pass ctx after (err e) h = cc
token_checked-pass ctx after (ok claims) h = (claims, refl, cc)

with_auth-pass :
    (k : Codec) (u : Unicode) (secret : Text) (now : ℤ) (header : Text → Text)
    (ctx after : RequestContext)
    → with_auth k u secret now header ctx ≡ pass after
    → (claims : AuthClaims) × (verify_jwt k
          (bearer_token (trim_space (header (txt "Authorization"))))
          secret
          now
        ≡ ok claims)
      × (after ≡ authorized ctx claims)
unfolding with_auth
with_auth-pass k u secret now header ctx after h =
    token_checked-pass ctx after _ (past _ _ _ _ _ after h)

-- What a request has that reaches the handler for a tenant.
pub record Admitted (rows : UserTenants) (t : TenantId) (path : Text) (now : Time)
    (l : WindowLimiter) (uid : ℤ) (after : RequestContext) : Type 0 where
  pub tenants : List (ℤ × TenantId)
  pub known : rows ≡ ok tenants
  pub member : assigned uid t tenants ≡ true
  pub unlimited : (allow_key l now (t ++ (b':' ∷ path))).0 ≡ true
  pub same_user : after.user_id ≡ some uid
  pub reads : (s : TenantId) → (guard_read_scope (some after.scope) s ≡ ok tt) ↔ (t ≡ s)
  pub writes : (s : TenantId) → (guard_write_scope (some after.scope) s ≡ ok tt) ↔ (t ≡ s)

scope_taken_over-pass :
    (ctx after : RequestContext) (r : Result Context)
    → scope_taken_over ctx r ≡ pass after
    → (scope : Context) × (r ≡ ok scope) × (after ≡ record ctx { scope = scope })
unfolding scope_taken_over
scope_taken_over-pass ctx after (err e) h = cc
scope_taken_over-pass ctx after (ok scope) h = (scope, refl, cc)

limit_checked-pass :
    (ctx after : RequestContext) (t : TenantId) (r : Bool × WindowLimiter)
    → (limit_checked ctx t r).0 ≡ pass after
    → (r.0 ≡ true)
      × (scope : Context) × (with_tenant_context
            (some ctx.scope)
            (record { tenant_id = t; request_id = ctx.request_id })
          ≡ ok scope)
      × (after ≡ record ctx { scope = scope })
unfolding limit_checked
limit_checked-pass ctx after t (false, l) h = cc
limit_checked-pass ctx after t (true, l) h =
    let (scope, taken, same) = scope_taken_over-pass ctx after _ h in (refl, scope, taken, same)

membership_checked-pass :
    (rows : UserTenants) (ctx after : RequestContext) (t : TenantId) (path : Text) (now : Time)
    (l : WindowLimiter) (uid : ℤ) (r : Result Bool)
    → ctx.user_id ≡ some uid
    → user_has_tenant rows uid t ≡ r
    → (membership_checked ctx t path now l r).0 ≡ pass after
    → Admitted rows t path now l uid after
unfolding membership_checked
membership_checked-pass rows ctx after t path now l uid (err e) hu hr h = cc
membership_checked-pass rows ctx after t path now l uid (ok false) hu hr h = cc
membership_checked-pass rows ctx after t path now l uid (ok true) hu hr h =
    let (room, scope, taken, same) =
      limit_checked-pass ctx after t (allow_key l now (t ++ (b':' ∷ path))) h in
    let (tenants, known, member) = listed rows hr in
    let guards =
      λ (s : TenantId). guard_read_scope-with_tenant_context (some ctx.scope) _ scope s taken in
    record {
      tenants = tenants;
      known = known;
      member = member;
      unlimited = room;
      same_user = ap (λ c. c.user_id) same ∙ hu;
      reads = λ s. rw same ((guards s).0);
      writes = λ s. rw same ((guards s).1);
    }
  where
    listed :
        (rows : UserTenants)
        → user_has_tenant rows uid t ≡ ok true
        → (tenants : List (ℤ × TenantId)) × (rows ≡ ok tenants) × (assigned uid t tenants ≡ true)
    listed (err e) h = unfold user_has_tenant in cc h
    listed (ok tenants) h = unfold user_has_tenant in (tenants, refl, cc h)

user_checked-pass :
    (rows : UserTenants) (ctx after : RequestContext) (t : TenantId) (path : Text) (now : Time)
    (l : WindowLimiter) (uid : ℤ) (user : Option ℤ)
    → ctx.user_id ≡ some uid
    → user ≡ some uid
    → (user_checked rows ctx t path now l user).0 ≡ pass after
    → Admitted rows t path now l uid after
unfolding user_checked
user_checked-pass rows ctx after t path now l uid none hu e h = cc
user_checked-pass rows ctx after t path now l uid (some v) hu e h =
    let same : v ≡ uid = cc e in
    membership_checked-pass rows ctx after t path now l uid _ hu refl (rw (← same) h)

-- A request that gets through both layers carries a token that was verified, whose user is assigned
-- to the tenant that the request names and has not used up the limit of the path; its context opens
-- the repository for this tenant, for reads and for writes, and for no other.
pub with_tenant-Admitted :
    (k : Codec) (u : Unicode) (secret : Text) (unix : ℤ) (header : Text → Text)
    (ctx authenticated after : RequestContext) (rows : UserTenants) (path : Text) (now : Time)
    (l : WindowLimiter)
    → with_auth k u secret unix header ctx ≡ pass authenticated
    → (with_tenant rows header path now l authenticated).0 ≡ pass after
    → (claims : AuthClaims) × (verify_jwt k
          (bearer_token (trim_space (header (txt "Authorization"))))
          secret
          unix
        ≡ ok claims)
      × Admitted rows (trim_space (header (txt "X-Tenant-ID"))) path now l claims.uid after
unfolding with_tenant
with_tenant-Admitted k u secret unix header ctx authenticated after rows path now l auth h =
    let (claims, verified, same) = with_auth-pass k u secret unix header ctx authenticated auth in
    let t = trim_space (header (txt "X-Tenant-ID")) in
    (
      claims,
      verified,
      user_checked-pass rows authenticated after t path now l claims.uid authenticated.user_id
          (ap (λ c. c.user_id) same) (ap (λ c. c.user_id) same)
          (past_layer (is_empty t) _ _ _ l _ after h),
    )
