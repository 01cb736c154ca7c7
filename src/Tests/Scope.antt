-- ===== src/Tests/Scope.antt =====
-- internal/repository/tenant_guard.go and internal/middleware/tenant_context.go at concrete inputs.
use fine_rag_core.Prelude.{if◌then◌else◌, ◌≡◌, refl, none, some}
use fine_rag_core.Text
use fine_rag_core.Text.{Text, txt, str_eq, trim_space}
use fine_rag_core.Middleware.{
  next, authenticated_tenant_id_header, request_id_header, tenant_context_middleware,
}
use fine_rag_core.Result.{ok}
use fine_rag_core.Contracts.Tenant
use fine_rag_core.Contracts.Tenant.{TenantContext, Context, background, with_tenant_context}

abbrev scope : TenantContext
scope = record { tenant_id = txt "t"; request_id = txt "r" }

abbrev scoped : Context
scoped = record { tenant_value = some scope; actor_value = none }

scope_taken : with_tenant_context (some background) scope ≡ ok scoped
unfolding with_tenant_context txt Tenant.validate_tenant_context
scope_taken = refl

-- A request of the tenant `t`.
abbrev headers : Text → Text
headers name = if str_eq name (txt "X-Request-ID") then txt "r" else txt " t"

request_passes : tenant_context_middleware headers background ≡ next scoped
unfolding tenant_context_middleware authenticated_tenant_id_header request_id_header
    with_tenant_context txt Tenant.validate_tenant_context Text.str_eq Text.trim_space
    Text.trim_left Text.trim_right Text.is_space
request_passes = refl
