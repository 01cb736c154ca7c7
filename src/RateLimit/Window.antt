-- ===== src/RateLimit/Window.antt =====
-- internal/ratelimit/limiter.go: how many requests pass within one second, over every sequence of
-- requests on a clock that does not run backwards.
use fine_rag_core.Prelude.{
  ℕ, ◌+◌, ◌≡◌, ◌≢◌, ◌≤◌, ◌<◌, ◌-◌, ◌∙◌, ◌↔◌, refl, pos, Bool, true, false, ◌&&◌, List, [], ◌∷◌,
  ◌==◌, arith,
}
use native.Mathlib.Decide.{dec_lt}
use fine_rag_core.Text.{txt, str_eq, str_eq_iff}
use fine_rag_core.Result.{Err, Result, ok, err}
use fine_rag_core.Contracts.Tenant.{TenantId}
use fine_rag_core.Contracts.Audit.{RateLimitDecision}
use fine_rag_core.Dict.{lookup, lookup-insert}
use fine_rag_core.RateLimit.{Limiter, next_window, tenant_window, bump, allow, new_limiter}

-- A request: the second at which it is made, and its tenant.
abbrev pub Request : Type 0
Request = ℕ × TenantId

abbrev pub passed : Result RateLimitDecision → Bool
passed (ok d) = d.allowed
passed (err e) = false

-- How much of the limits is used up at second `s`.
abbrev pub tenant_used : ℕ → TenantId → Limiter → ℕ
tenant_used s t l = (tenant_window l.tenant t s).count

abbrev pub global_used : ℕ → Limiter → ℕ
global_used s l = (next_window l.global s).count

-- The requests at second `s` of tenant `t` that pass, and those of all tenants.
abbrev pub one : Bool → ℕ
one true = 1
one false = 0

unfoldable pub tenant_hit : ℕ → TenantId → Limiter → Request → ℕ
tenant_hit s t l (now, u) = one (now == s && str_eq u t && passed (allow l now u).0)

unfoldable pub global_hit : ℕ → Limiter → Request → ℕ
global_hit s l (now, u) = one (now == s && passed (allow l now u).0)

unfoldable pub total : (Limiter → Request → ℕ) → Limiter → List Request → ℕ
total hit l [] = 0
total hit l ((now, u) ∷ rest) = hit l (now, u) + total hit (allow l now u).1 rest

-- The clock does not run backwards.
abbrev pub Monotone : ℕ → List Request → Type 0
Monotone last [] = Unit
Monotone last ((now, u) ∷ rest) = (last ≤ now) × Monotone now rest

-- What one request does to the part of a limit `b` that is used at second `s`.
pub record Counts (s b now used hit used' : ℕ) : Type 0 where
  pub same : now ≡ s → used' ≡ used + hit
  pub apart : now ≢ s → (used' ≤ used) × (hit ≡ 0)
  pub within : used ≤ b → used' ≤ b

pub allow-limits :
    (l : Limiter) (now : ℕ) (u : TenantId)
    → ((allow l now u).1.tenant_burst_rps ≡ l.tenant_burst_rps)
      × ((allow l now u).1.global_burst_rps ≡ l.global_burst_rps)
unfolding allow
allow-limits l now u = ground arith

pub tenant-Counts :
    (s b now : ℕ) (t u : TenantId) (l : Limiter)
    → l.tenant_burst_rps ≡ pos b
    → Counts s b now
        (tenant_used s t l)
        (tenant_hit s t l (now, u))
        (tenant_used s t (allow l now u).1)
unfolding allow tenant_hit
tenant-Counts s b now t u l h =
    let stored = lookup-insert u t (bump (tenant_window l.tenant u now)) l.tenant in
    record {
      same = ground (arith, stored, str_eq_iff u t);
      apart = ground (arith, stored, str_eq_iff u t);
      within = ground (arith, stored, str_eq_iff u t);
    }

pub global-Counts :
    (s b now : ℕ) (u : TenantId) (l : Limiter)
    → l.global_burst_rps ≡ pos b
    → Counts s b now (global_used s l) (global_hit s l (now, u)) (global_used s (allow l now u).1)
unfolding allow global_hit
global-Counts s b now u l h = record {
  same = ground arith;
  apart = ground arith;
  within = ground arith;
}

-- The rule for both limits: `used` is what a limiter has used up at second `s`.
module _ (s b : ℕ) (hit : Limiter → Request → ℕ) (used : Limiter → ℕ) (Within : Limiter → Type 0)
    (keep : (l : Limiter) (now : ℕ) (u : TenantId) → Within l → Within (allow l now u).1)
    (counts : (l : Limiter) (now : ℕ) (u : TenantId)
      → Within l
      → Counts s b now (used l) (hit l (now, u)) (used (allow l now u).1)) where
  total-late :
      (reqs : List Request) (last : ℕ) (l : Limiter)
      → Within l
      → Monotone last reqs
      → s < last
      → total hit l reqs ≡ 0
  unfolding total
  total-late [] last l w m h = refl
  total-late ((now, u) ∷ rest) last l w (le, m) h = ground (
    arith,
    (counts l now u w).apart,
    total-late rest now (allow l now u).1 (keep l now u w) m (omega arith),
  )

  total-le :
      (reqs : List Request) (last : ℕ) (l : Limiter)
      → Within l
      → Monotone last reqs
      → used l ≤ b
      → (last < s → used l ≡ 0)
      → last ≤ s
      → used l + total hit l reqs ≤ b
  unfolding total
  total-le [] last l w m fits fresh h = omega arith
  total-le ((now, u) ∷ rest) last l w (le, m) fits fresh h =
      let c = counts l now u w in
      let w' = keep l now u w in
      elim (dec_lt s now) [
        | yes late ↦ omega (arith, c.apart, total-late rest now (allow l now u).1 w' m late)
        | no early ↦
            let rest_le = λ (soon : now < s → used (allow l now u).1 ≡ 0).
              total-le rest now (allow l now u).1 w' m (c.within fits) soon (omega arith) in
            elim (dec_lt now s) [
              | yes before ↦
                  let (less, none_hit) = c.apart (omega arith) in
                  omega (arith, rest_le (λ soon. omega (arith, fresh)), fresh)
              | no after ↦
                  omega (arith, c.same (omega arith), rest_le (λ soon. absurd (after soon)))
            ]
      ]

abbrev TenantLimit : ℕ → Limiter → Type 0
TenantLimit b l = l.tenant_burst_rps ≡ pos b

abbrev GlobalLimit : ℕ → Limiter → Type 0
GlobalLimit b l = l.global_burst_rps ≡ pos b

-- A new limiter with other limits.
abbrev pub limited : ℕ → ℕ → Limiter
limited b g = record new_limiter { tenant_burst_rps = pos b; global_burst_rps = pos g }

pub limited-used :
    (b g s : ℕ) (t : TenantId)
    → (tenant_used s t (limited b g) ≡ 0) × (global_used s (limited b g) ≡ 0)
unfolding new_limiter tenant_window next_window lookup
limited-used b g s t = (ground arith, ground arith)

-- From a new limiter whose limits are set to `b` and `g`, on a clock that does not run backwards,
-- whatever the requests: at most `b` requests of one tenant pass within one second, and at most `g`
-- requests of all tenants.
pub total-le-burst :
    (b g s : ℕ) (t : TenantId) (reqs : List Request)
    → Monotone 0 reqs
    → (total (tenant_hit s t) (limited b g) reqs ≤ b)
      × (total (global_hit s) (limited b g) reqs ≤ g)
unfolding new_limiter
total-le-burst b g s t reqs m = (
  omega (
    arith,
    total-le s b (tenant_hit s t) (tenant_used s t) (TenantLimit b)
        (λ l now u w. (allow-limits l now u).0 ∙ w) (λ l now u w. tenant-Counts s b now t u l w)
        reqs 0 (limited b g) refl m (omega (arith, limited-used b g s t))
        (λ _. (limited-used b g s t).0) (omega arith),
  ),
  omega (
    arith,
    total-le s g (global_hit s) (global_used s) (GlobalLimit g)
        (λ l now u w. (allow-limits l now u).1 ∙ w) (λ l now u w. global-Counts s g now u l w) reqs
        0 (limited b g) refl m (omega (arith, limited-used b g s t)) (λ _. (limited-used b g s t).1)
        (omega arith),
  ),
)

-- The decision on one request, for limits `b` and `g` that are not negative: a tenant never gets an
-- error, passes exactly if neither its own limit nor the global one is used up, and is then told what
-- is left of its own limit. The counters of the other tenants stay as they were.
pub allow-decides :
    (b g now : ℕ) (t : TenantId) (l : Limiter)
    → l.tenant_burst_rps ≡ pos b
    → l.global_burst_rps ≡ pos g
    → t ≢ []
    → ((e : Err) → (allow l now t).0 ≢ err e)
      × ((passed (allow l now t).0 ≡ true) ↔ ((tenant_used now t l < b) × (global_used now l < g)))
      × ((d : RateLimitDecision)
          → (allow l now t).0 ≡ ok d
          → d.allowed ≡ true
          → d.remaining ≡ pos (b - tenant_used now t (allow l now t).1))
      × ((u : TenantId) → u ≢ t → lookup u (allow l now t).1.tenant ≡ lookup u l.tenant)
unfolding allow txt
allow-decides b g now t l hb hg ht = (
  ground (arith, str_eq_iff t t),
  ground (arith, str_eq_iff t t),
  λ d same.
      ground
        (arith, str_eq_iff t t, lookup-insert t t (bump (tenant_window l.tenant t now)) l.tenant),
  λ u ne.
      ground
        (arith, str_eq_iff t u, lookup-insert t u (bump (tenant_window l.tenant t now)) l.tenant),
)
