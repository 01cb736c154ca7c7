-- ===== src/Repository.antt =====
-- internal/repository/tenant_guard.go: the guards before the statements of a repository.
use fine_rag_core.Prelude.{◌≡◌, ◌≢◌, ◌↔◌, refl, Option, none, some, ◌++◌}
use fine_rag_core.Text.{Text, txt}
use fine_rag_core.Result.{Err, new, message, Result, ok, err, map_err}
use fine_rag_core.Contracts.Tenant.{
  TenantId, TenantContext, Context, or_background, with_tenant_context, ensure_tenant_match,
}
use fine_rag_core.Contracts.Tenant.Scope.{
  with_tenant_context-ok, ensure_tenant_match_iff, ensure_tenant_match-ne-ok,
}

unfoldable pub err_unscoped_repository_access : Text
err_unscoped_repository_access = txt "repository access requires tenant scope"

unscoped : Err → Err
unscoped e = new (err_unscoped_repository_access ++ (txt ": " ++ message e))

unfoldable pub guard_read_scope : Option Context → TenantId → Result (Unit {0})
unfolding unscoped
guard_read_scope ctx target = map_err unscoped (ensure_tenant_match ctx target)

unfoldable pub guard_write_scope : Option Context → TenantId → Result (Unit {0})
unfolding unscoped
guard_write_scope ctx target = map_err unscoped (ensure_tenant_match ctx target)

map_err-ok_iff : (f : Err → Err) (r : Result (Unit {0})) → (map_err f r ≡ ok tt) ↔ (r ≡ ok tt)
map_err-ok_iff f (ok _) = (λ h. refl, λ h. refl)
map_err-ok_iff f (err e) = (λ h. cc, λ h. cc)

guards_iff :
    (ctx : Option Context) (t : TenantId)
    → ((guard_read_scope ctx t ≡ ok tt) ↔ (ensure_tenant_match ctx t ≡ ok tt))
      × ((guard_write_scope ctx t ≡ ok tt) ↔ (ensure_tenant_match ctx t ≡ ok tt))
unfolding guard_read_scope guard_write_scope
guards_iff ctx t = (map_err-ok_iff unscoped _, map_err-ok_iff unscoped _)

-- After a request's context has taken a tenant, reads and writes are let through for that tenant and
-- for no other, and the actor of the context is as before.
pub guard_read_scope-with_tenant_context :
    (ctx : Option Context) (c : TenantContext) (after : Context) (t : TenantId)
    → with_tenant_context ctx c ≡ ok after
    → ((guard_read_scope (some after) t ≡ ok tt) ↔ (c.tenant_id ≡ t))
      × ((guard_write_scope (some after) t ≡ ok tt) ↔ (c.tenant_id ≡ t))
      × (after.actor_value ≡ (or_background ctx).actor_value)
guard_read_scope-with_tenant_context ctx c after t h =
    let (valid, held, actor) = with_tenant_context-ok ctx c after h in
    let (read, write) = guards_iff (some after) t in
    let check = ensure_tenant_match_iff after c t held valid in
    (
      (λ x. check.0 (read.0 x), λ x. read.1 (check.1 x)),
      (λ x. check.0 (write.0 x), λ x. write.1 (check.1 x)),
      actor,
    )

-- With no tenant in the context neither a read nor a write is let through, for any tenant.
pub guard_read_scope-ne-ok :
    (ctx : Context) (t : TenantId)
    → ctx.tenant_value ≡ none
    → (guard_read_scope (some ctx) t ≢ ok tt) × (guard_write_scope (some ctx) t ≢ ok tt)
guard_read_scope-ne-ok ctx t h =
    let (read, write) = guards_iff (some ctx) t in
    (
      λ x. ensure_tenant_match-ne-ok ctx t h (read.0 x),
      λ x. ensure_tenant_match-ne-ok ctx t h (write.0 x),
    )
