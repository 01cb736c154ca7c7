-- ===== src/Contracts/Audit.antt =====
-- internal/contracts/contracts.go: audit events, rate limit decisions and provider errors.
use fine_rag_core.Prelude.{ℤ, Bool, Option, none, some, ◌++◌, not, ◌&&◌, is_empty}
use fine_rag_core.Text.{Text, txt}
use fine_rag_core.Result.{Err, new, message, Result, ◌>>◌, reject_if}
use fine_rag_core.Contracts.Tenant.{Time, is_zero, TenantId, validate_tenant_id}
use fine_rag_core.Contracts.Job.{Attributes}

pub data AuditOutcome : Type 0 where
  allowed denied error : AuditOutcome

pub record AuditEvent : Type 0 where
  pub event_id : Text
  pub tenant_id : TenantId
  pub event_type : Text
  pub resource : Text
  pub actor : Text
  pub outcome : AuditOutcome
  pub occurred_at : Time
  pub attributes : Attributes

unfoldable pub validate_audit_event : AuditEvent → Result (Unit {0})
unfolding validate_tenant_id
validate_audit_event a = do
  validate_tenant_id a.tenant_id
  reject_if (is_empty a.event_id) (new (txt "event_id is required"))
  reject_if (is_empty a.event_type) (new (txt "event_type is required"))
  reject_if (is_zero a.occurred_at) (new (txt "occurred_at is required"))

pub record RateLimitDecision : Type 0 where
  pub allowed : Bool
  pub reason : Text
  pub remaining : ℤ
  pub retry_after : Time

unfoldable pub validate_rate_limit_decision : RateLimitDecision → Result (Unit {0})
validate_rate_limit_decision d =
    reject_if (not d.allowed && is_empty d.reason)
      (new (txt "reason is required when request is denied"))

pub data ProviderErrorCategory : Type 0 where
  validation unavailable timeout unauthorized internal : ProviderErrorCategory

unfoldable pub category_text : ProviderErrorCategory → Text
category_text validation = txt "validation"
category_text unavailable = txt "unavailable"
category_text timeout = txt "timeout"
category_text unauthorized = txt "unauthorized"
category_text internal = txt "internal"

pub record ProviderError : Type 0 where
  pub category : ProviderErrorCategory
  pub provider : Text
  pub op : Text
  pub cause : Option Err

with_cause : Option Err → Text → Text → Text → Text
with_cause (some e) provider category op =
    provider
    ++ (txt " provider error (" ++ (category ++ (txt ") on " ++ (op ++ (txt ": " ++ message e)))))
with_cause none provider category op =
    provider ++ (txt " provider error (" ++ (category ++ (txt "): " ++ op)))

-- `ProviderError.Error`
unfoldable pub provider_error_text : ProviderError → Text
unfolding with_cause category_text
provider_error_text e = with_cause e.cause e.provider (category_text e.category) e.op
