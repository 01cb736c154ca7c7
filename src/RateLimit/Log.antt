-- ===== src/RateLimit/Log.antt =====
-- internal/ratelimit/limiter.go: the counters of the limiter implement a limiter that keeps the whole
-- list of the requests it let through.
use fine_rag_core.Prelude.{
  ℕ, ◌+◌, ◌≡◌, ◌↔◌, ◌≤◌, ◌<◌, ◌∙◌, refl, sym, pos, Bool, true, false, ◌&&◌, List, [], ◌∷◌, ◌==◌,
  ltb, not, is_empty, arith, if◌then◌else◌, ap,
}
use fine_rag_core.Text.{str_eq}
use fine_rag_core.Contracts.Tenant.{TenantId}
use fine_rag_core.RateLimit.{Limiter, allow, new_limiter}
use fine_rag_core.RateLimit.Window.{
  Request, passed, tenant_used, global_used, tenant_hit, global_hit, one, Monotone, allow-decides,
  allow-limits, tenant-Counts, global-Counts, limited, limited-used,
}

-- The requests of one tenant, and of all, that were let through at second `s`.
pub tenant_count : ℕ → TenantId → List Request → ℕ
tenant_count s t [] = 0
tenant_count s t ((now, u) ∷ log) = one (now == s && str_eq u t) + tenant_count s t log

pub global_count : ℕ → List Request → ℕ
global_count s [] = 0
global_count s ((now, u) ∷ log) = one (now == s) + global_count s log

-- The limiter as it is meant: a request of a tenant passes if fewer than `b` of the tenant and fewer
-- than `g` of all were let through at its second.
unfoldable pub has_room : ℕ → ℕ → List Request → Request → Bool
unfolding tenant_count global_count
has_room b g log (now, u) =
    not (is_empty u) && ltb (tenant_count now u log) b && ltb (global_count now log) g

abbrev pub logged : Bool → Request → List Request → List Request
logged b r log = if b then r ∷ log else log

-- What the counters stand for, from the second `last` on.
record Refines (b g last : ℕ) (l : Limiter) (log : List Request) : Type 0 where
  tenant_limit : l.tenant_burst_rps ≡ pos b
  global_limit : l.global_burst_rps ≡ pos g
  tenants : (s : ℕ) (t : TenantId) → last ≤ s → tenant_used s t l ≡ tenant_count s t log
  globals : (s : ℕ) → last ≤ s → global_used s l ≡ global_count s log
  tenants_fresh : (s : ℕ) (t : TenantId) → last < s → tenant_used s t l ≡ 0
  globals_fresh : (s : ℕ) → last < s → global_used s l ≡ 0

nobody_fails : (l : Limiter) (now : ℕ) (u : TenantId) → u ≡ [] → passed (allow l now u).0 ≡ false
unfolding allow
nobody_fails l now [] h = refl
nobody_fails l now (c ∷ u) h = cc

-- The decision of the limiter is the one that is meant.
allow-has_room :
    (b g last now : ℕ) (u : TenantId) (l : Limiter) (log : List Request)
    → Refines b g last l log
    → last ≤ now
    → passed (allow l now u).0 ≡ has_room b g log (now, u)
unfolding has_room
allow-has_room b g last now [] l log r le = nobody_fails l now [] refl
allow-has_room b g last now (c ∷ u) l log r le =
    let (_, decides, _, _) =
      allow-decides b g now (c ∷ u) l r.tenant_limit r.global_limit (λ e. cc) in
    agree (passed (allow l now (c ∷ u)).0) (tenant_used now (c ∷ u) l) (global_used now l) _ _
      decides (r.tenants now (c ∷ u) le) (r.globals now le)
  where
    agree :
        (p : Bool) (x y x' y' : ℕ)
        → (p ≡ true) ↔ ((x < b) × (y < g))
        → x ≡ x'
        → y ≡ y'
        → p ≡ (ltb x' b && ltb y' g)
    agree true x y x' y' (to, from) hx hy = ground (arith, to refl)
    agree false x y x' y' (to, from) hx hy = ground arith

tenant_count-logged :
    (s now : ℕ) (t u : TenantId) (p : Bool) (log : List Request)
    → tenant_count s t (logged p (now, u) log)
      ≡ one (now == s && str_eq u t && p) + tenant_count s t log
unfolding tenant_count
tenant_count-logged s now t u true log = ground arith
tenant_count-logged s now t u false log = ground arith

global_count-logged :
    (s now : ℕ) (u : TenantId) (p : Bool) (log : List Request)
    → global_count s (logged p (now, u) log) ≡ one (now == s && p) + global_count s log
unfolding global_count
global_count-logged s now u true log = ground arith
global_count-logged s now u false log = ground arith

-- One request keeps the counters and the log together.
allow-Refines :
    (b g last now : ℕ) (u : TenantId) (l : Limiter) (log : List Request)
    → Refines b g last l log
    → last ≤ now
    → Refines b g now (allow l now u).1 (logged (passed (allow l now u).0) (now, u) log)
unfolding tenant_hit global_hit
allow-Refines b g last now u l log r le =
    let p = passed (allow l now u).0 in
    let (same_tenant, same_global) = allow-limits l now u in
    record {
      tenant_limit = same_tenant ∙ r.tenant_limit;
      global_limit = same_global ∙ r.global_limit;
      tenants = λ s t h.
          let c = tenant-Counts s b now t u l r.tenant_limit in
          ground (
            arith,
            c.same,
            c.apart,
            tenant_count-logged s now t u p log,
            r.tenants s t (omega arith),
            r.tenants_fresh s t,
          );
      globals = λ s h.
          let c = global-Counts s g now u l r.global_limit in
          ground (
            arith,
            c.same,
            c.apart,
            global_count-logged s now u p log,
            r.globals s (omega arith),
            r.globals_fresh s,
          );
      tenants_fresh = λ s t h.
          let c = tenant-Counts s b now t u l r.tenant_limit in
          omega (arith, c.apart (omega arith), r.tenants_fresh s t (omega arith));
      globals_fresh = λ s h.
          let c = global-Counts s g now u l r.global_limit in
          omega (arith, c.apart (omega arith), r.globals_fresh s (omega arith));
    }

-- What each of the requests is told, by the limiter and by the log.
pub decisions : Limiter → List Request → List Bool
decisions l [] = []
decisions l ((now, u) ∷ rest) = passed (allow l now u).0 ∷ decisions (allow l now u).1 rest

pub meant_decisions : ℕ → ℕ → List Request → List Request → List Bool
unfolding has_room
meant_decisions b g log [] = []
meant_decisions b g log (r ∷ rest) =
    let p = has_room b g log r in p ∷ meant_decisions b g (logged p r log) rest

decisions-refine :
    (b g last : ℕ) (l : Limiter) (log reqs : List Request)
    → Refines b g last l log
    → Monotone last reqs
    → decisions l reqs ≡ meant_decisions b g log reqs
unfolding decisions meant_decisions
decisions-refine b g last l log [] r m = refl
decisions-refine b g last l log ((now, u) ∷ rest) r (le, m) =
    let p = passed (allow l now u).0 in
    let same : has_room b g log (now, u) ≡ p = sym (allow-has_room b g last now u l log r le) in
    rw same (
      ap (λ ds. p ∷ ds)
        (decisions-refine b g now (allow l now u).1 (logged p (now, u) log) rest
          (allow-Refines b g last now u l log r le) m))

-- From a new limiter with the limits `b` and `g`, on a clock that does not run backwards, every
-- sequence of requests gets the decisions that the log of the accepted requests calls for: a request
-- passes if it names a tenant and at its second fewer than `b` requests of the tenant and fewer than
-- `g` of all were let through before it.
pub decisions-limited :
    (b g : ℕ) (reqs : List Request)
    → Monotone 0 reqs
    → decisions (limited b g) reqs ≡ meant_decisions b g [] reqs
unfolding tenant_count global_count new_limiter
decisions-limited b g reqs m =
    decisions-refine b g 0 (limited b g) [] reqs
      (record {
        tenant_limit = refl;
        global_limit = refl;
        tenants = λ s t h. (limited-used b g s t).0;
        globals = λ s h. (limited-used b g s []).1;
        tenants_fresh = λ s t h. (limited-used b g s t).0;
        globals_fresh = λ s h. (limited-used b g s []).1;
      })
      m
