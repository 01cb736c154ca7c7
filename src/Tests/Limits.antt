-- ===== src/Tests/Limits.antt =====
-- internal/ratelimit/limiter.go at concrete inputs.
use fine_rag_core.Prelude.{◌≡◌, ◌≤◌, refl, List, [], ◌∷◌, arith}
use fine_rag_core.Text
use fine_rag_core.Dict
use fine_rag_core.Text.{Text, txt}
use fine_rag_core.Dict.{lookup}
use fine_rag_core.RateLimit.{allow, new_limiter}
use fine_rag_core.RateLimit.Window.{Request, tenant_hit, global_hit, total, limited, total-le-burst}
use fine_rag_core.RateLimit.Log.{decisions, meant_decisions, decisions-limited}

abbrev tenant_a : Text
tenant_a = b'a' ∷ []

abbrev burst : List Request
burst = (7, tenant_a) ∷ (7, tenant_a) ∷ (7, tenant_a) ∷ (8, tenant_a) ∷ []

-- Two of three pass in second 7, where the limit is two.
burst_passes : total (tenant_hit 7 tenant_a) (limited 2 9) burst ≡ 2
unfolding total tenant_hit allow new_limiter txt Text.str_eq Dict.lookup Dict.insert
burst_passes = refl

total-le-burst_example :
    (total (tenant_hit 7 tenant_a) (limited 2 9) burst ≤ 2)
    × (total (global_hit 7) (limited 2 9) burst ≤ 9)
total-le-burst_example = total-le-burst 2 9 7 tenant_a burst (omega arith)

decisions-limited_example : decisions (limited 2 9) burst ≡ meant_decisions 2 9 [] burst
decisions-limited_example = decisions-limited 2 9 burst (omega arith)
