-- ===== src/Middleware.antt =====
-- internal/middleware/tenant_context.go: the tenant of a request, from its headers. Reading a header
-- is a parameter, and so is the handler, which is given the context that the middleware passes on.
pub mod Label
use fine_rag_core.Prelude.{ℕ, ◌≡◌, ◌↔◌, refl, Bool, true, false, some, is_empty, if◌then◌else◌}
use fine_rag_core.Text.{Text, txt, trim_space}
use fine_rag_core.Result.{Result, ok, err}
use fine_rag_core.Contracts.Tenant.{TenantId, Context, with_tenant_context}
use fine_rag_core.Repository.{
  guard_read_scope, guard_write_scope, guard_read_scope-with_tenant_context,
}

unfoldable pub authenticated_tenant_id_header : Text
authenticated_tenant_id_header = txt "X-Authenticated-Tenant-ID"

unfoldable pub request_id_header : Text
request_id_header = txt "X-Request-ID"

-- A response of the middleware itself, or the context that the next handler is given.
pub data Served : Type 0 where
  rejection : ℕ → Text → Text → Served
  next : Context → Served

served : Result Context → Served
served (err e) = rejection 400 (txt "tenant_context_malformed") (txt "tenant context is malformed")
served (ok ctx) = next ctx

unfoldable pub tenant_context_middleware : (Text → Text) → Context → Served
unfolding served
tenant_context_middleware header ctx =
    let tenant_raw = trim_space (header authenticated_tenant_id_header) in
    let request_id = trim_space (header request_id_header) in
    if is_empty tenant_raw
    then rejection 401 (txt "tenant_context_missing")
        (txt "authenticated tenant context is required")
    else if is_empty request_id
    then rejection 400 (txt "request_id_missing") (txt "request id is required")
    else served (
        with_tenant_context (some ctx) (record { tenant_id = tenant_raw; request_id = request_id }))

served-next : (r : Result Context) (after : Context) → served r ≡ next after → r ≡ ok after
unfolding served
served-next (ok ctx) after h = cc
served-next (err e) after h = cc

passed :
    (a b : Bool) (s t : ℕ) (c d e f : Text) (rest : Served) (after : Context)
    → (if a then rejection s c d else if b then rejection t e f else rest) ≡ next after
    → (a ≡ false) × (b ≡ false) × (rest ≡ next after)
passed true b s t c d e f rest after h = cc
passed false true s t c d e f rest after h = cc
passed false false s t c d e f rest after h = (refl, refl, h)

-- A request that reaches the next handler has named a tenant and an id, and its context opens the
-- repository for that tenant, for reads and for writes, and for no other.
pub tenant_context_middleware-next :
    (header : Text → Text) (ctx after : Context) (t : TenantId)
    → tenant_context_middleware header ctx ≡ next after
    → (is_empty (trim_space (header authenticated_tenant_id_header)) ≡ false)
      × (is_empty (trim_space (header request_id_header)) ≡ false)
      × ((guard_read_scope (some after) t ≡ ok tt)
          ↔ (trim_space (header authenticated_tenant_id_header) ≡ t))
      × ((guard_write_scope (some after) t ≡ ok tt)
          ↔ (trim_space (header authenticated_tenant_id_header) ≡ t))
unfolding tenant_context_middleware
tenant_context_middleware-next header ctx after t h =
    let (tenant, id, rest) = passed _ _ _ _ _ _ _ _ _ after h in
    let (read, write, _) =
      guard_read_scope-with_tenant_context (some ctx) _ after t (served-next _ after rest) in
    (tenant, id, read, write)
