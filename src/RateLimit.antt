-- ===== src/RateLimit.antt =====
-- internal/ratelimit/limiter.go: a request counter for each tenant and one for all, both over the
-- current second. The mutex makes each call of `Allow` one step. The second that the clock shows,
-- counted from 1970, is an argument of the step.
pub mod Window
pub mod Log
use fine_rag_core.Prelude.{
  ℕ, ◌+◌, ℤ, pos, true, false, Option, none, some, [], ◌++◌, ◌==◌, leb_ℤ, sub_int, if◌then◌else◌,
}
use fine_rag_core.Text.{Text, txt}
use fine_rag_core.Result.{new, Result, ok, err, ◌>>=◌, ◌>>◌}
use fine_rag_core.Contracts.Tenant.{TenantId, validate_tenant_id}
use fine_rag_core.Contracts.Audit.{RateLimitDecision, validate_rate_limit_decision}
use fine_rag_core.Dict.{Dict, lookup, insert, get_or_zero}

pub record WindowCounter : Type 0 where
  pub window_epoch_second : ℕ
  pub count : ℕ

abbrev pub zero_counter : WindowCounter
zero_counter = record { window_epoch_second = 0; count = 0 }

-- The clock is the argument `now` of `allow`.
pub record Limiter : Type 0 where
  pub tenant_steady_rps : ℤ
  pub tenant_burst_rps : ℤ
  pub global_burst_rps : ℤ
  pub tenant : Dict WindowCounter
  pub global : WindowCounter

abbrev pub default_tenant_steady_rps : ℤ
default_tenant_steady_rps = pos 2

abbrev pub default_tenant_burst_rps : ℤ
default_tenant_burst_rps = pos 4

abbrev pub default_global_burst_rps : ℤ
default_global_burst_rps = pos 600

unfoldable pub new_limiter : Limiter
new_limiter = record {
  tenant_steady_rps = default_tenant_steady_rps;
  tenant_burst_rps = default_tenant_burst_rps;
  global_burst_rps = default_global_burst_rps;
  tenant = [];
  global = zero_counter;
}

unfoldable pub next_window : WindowCounter → ℕ → WindowCounter
next_window counter now =
    if counter.window_epoch_second == now
    then counter
    else record { window_epoch_second = now; count = 0 }

-- The counter of a tenant, in the window of `now`.
unfoldable pub tenant_window : Dict WindowCounter → TenantId → ℕ → WindowCounter
unfolding next_window
tenant_window m t now = next_window (get_or_zero zero_counter (lookup t m)) now

-- counter.count++
abbrev pub bump : WindowCounter → WindowCounter
bump c = record c { count = c.count + 1 }

-- `return decision, decision.Validate()`
unfoldable pub denied : Text → Result RateLimitDecision
unfolding validate_rate_limit_decision
denied reason = do
  let d : RateLimitDecision = record {
    allowed = false;
    reason = reason;
    remaining = pos 0;
    retry_after = 1_000_000_000;
  }
  validate_rate_limit_decision d
  ok d

unfoldable pub allowed : ℤ → Result RateLimitDecision
allowed remaining =
    ok (record { allowed = true; reason = []; remaining = remaining; retry_after = 0 })

-- `Allow` after its guards, under the lock.
unfoldable pub count_request : Limiter → ℕ → TenantId → Result RateLimitDecision × Limiter
unfolding next_window tenant_window denied allowed
count_request l now t =
    let g = next_window l.global now in
    let c = tenant_window l.tenant t now in
    if leb_ℤ l.global_burst_rps (pos g.count)
    then (denied (txt "global_burst_limit_exceeded"), record l { global = g })
    else if leb_ℤ l.tenant_burst_rps (pos c.count)
    then (denied (txt "tenant_burst_limit_exceeded:" ++ t), record l { global = g })
    else (
      allowed (sub_int l.tenant_burst_rps (c.count + 1)),
      record l { tenant = insert t (bump c) l.tenant; global = bump g },
    )

checked : Limiter → ℕ → TenantId → Result (Unit {0}) → Result RateLimitDecision × Limiter
unfolding count_request
checked l now t (err e) = (err e, l)
checked l now t (ok _) = count_request l now t

unfoldable pub allow : Limiter → ℕ → TenantId → Result RateLimitDecision × Limiter
unfolding checked validate_tenant_id
allow l now t = checked l now t (validate_tenant_id t)

-- A nil `*Limiter` is an error.
unfoldable pub allow_or_nil :
    Option Limiter → ℕ → TenantId → Result RateLimitDecision × Option Limiter
allow_or_nil none now t = (err (new (txt "rate limiter is required")), none)
allow_or_nil (some l) now t = let (r, l') = allow l now t in (r, some l')
