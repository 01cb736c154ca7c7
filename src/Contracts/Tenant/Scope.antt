-- ===== src/Contracts/Tenant/Scope.antt =====
-- internal/contracts/contracts.go: the tenant that a context holds, and the check against it.
use fine_rag_core.Prelude.{◌≡◌, ◌≢◌, refl, sym, ap, ◌↔◌, Bool, true, false, not, Option, none, some}
use fine_rag_core.Text.{str_eq, str_eq→eq, eq→str_eq}
use fine_rag_core.Result.{Err, Result, ok, err, map_err, reject_if, ◌>>◌}
use fine_rag_core.Contracts.Tenant.{
  TenantId, validate_tenant_id, TenantContext, validate_tenant_context, Context, or_background,
  with_tenant_context, malformed, validated, tenant_context_from_context, require_tenant_scope,
  ensure_tenant_match,
}

-- A step that must pass before the value `a` is given.
passed_before :
    {A : Type 0} (v : Result (Unit {0})) (wrapped : Err → Err) (a b : A)
    → (map_err wrapped v >> ok a) ≡ ok b
    → (v ≡ ok tt) × (a ≡ b)
passed_before (ok _) wrapped a b h = (refl, cc)
passed_before (err e) wrapped a b h = cc

-- A context that takes a tenant holds it, in a valid form, and keeps the actor.
pub with_tenant_context-ok :
    (ctx : Option Context) (c : TenantContext) (after : Context)
    → with_tenant_context ctx c ≡ ok after
    → (validate_tenant_context c ≡ ok tt)
      × (after.tenant_value ≡ some c)
      × (after.actor_value ≡ (or_background ctx).actor_value)
unfolding with_tenant_context
with_tenant_context-ok ctx c after h =
    let (valid, same) = passed_before (validate_tenant_context c) malformed _ after h in
    (valid, ap (λ x. x.tenant_value) (sym same), ap (λ x. x.actor_value) (sym same))

tenant_context_from_context-held :
    (ctx : Context) (c : TenantContext)
    → ctx.tenant_value ≡ some c
    → validate_tenant_context c ≡ ok tt
    → tenant_context_from_context (some ctx) ≡ ok c
unfolding tenant_context_from_context validated
tenant_context_from_context-held ctx c held valid = rw (held, valid) refl

validate_tenant_context-id :
    (c : TenantContext) → validate_tenant_context c ≡ ok tt → validate_tenant_id c.tenant_id ≡ ok tt
unfolding validate_tenant_context
validate_tenant_context-id c h = inverted (validate_tenant_id c.tenant_id) _ h
  where
    inverted : (a b : Result (Unit {0})) → (a >> b) ≡ ok tt → a ≡ ok tt
    inverted (ok _) b h = refl
    inverted (err e) b h = cc

-- Where a context holds the valid tenant of `c`, the check passes for it and for no other.
pub ensure_tenant_match_iff :
    (ctx : Context) (c : TenantContext) (t : TenantId)
    → ctx.tenant_value ≡ some c
    → validate_tenant_context c ≡ ok tt
    → (ensure_tenant_match (some ctx) t ≡ ok tt) ↔ (c.tenant_id ≡ t)
unfolding ensure_tenant_match require_tenant_scope
ensure_tenant_match_iff ctx c t held valid =
    let known = tenant_context_from_context-held ctx c held valid in
    (
      λ h.
          str_eq→eq c.tenant_id t
            (inverted (validate_tenant_id t) (str_eq c.tenant_id t) _ (rw known at h)),
      λ same.
          rw
            (
              known,
              ← same,
              validate_tenant_context-id c valid,
              eq→str_eq c.tenant_id c.tenant_id refl,
            )
            refl,
    )
  where
    inverted :
        (a : Result (Unit {0})) (b : Bool) (e : Err) → (a >> reject_if (not b) e) ≡ ok tt → b ≡ true
    inverted (ok _) true e h = refl
    inverted (ok _) false e h = cc
    inverted (err x) b e h = cc

-- Without a tenant in the context the check fails for every tenant.
pub ensure_tenant_match-ne-ok :
    (ctx : Context) (t : TenantId)
    → ctx.tenant_value ≡ none
    → ensure_tenant_match (some ctx) t ≢ ok tt
unfolding ensure_tenant_match require_tenant_scope tenant_context_from_context validated
ensure_tenant_match-ne-ok ctx t h passed = let bad = rw h at passed in cc
