-- ===== src/Prelude/Int.antt =====
-- Go's `int`: a signed 64-bit integer as the integer that it stands for, with the tests that the
-- code makes and an increment that wraps.
use Prim.Native.Nat.{ℕ, zero, suc, ◌+◌, ◌-◌, ◌^◌, ◌<◌}
use mathlib.Core.Bool.{Bool, true, false}
use native.Mathlib.Omega.{arith}
use fine_rag_core.Prelude.Tests.{ltb, leb, if◌then◌else◌}

-- `negsuc n` is -(n + 1).
pub data ℤ : Type 0 where
  pos : ℕ → ℤ
  negsuc : ℕ → ℤ

-- n < 0
abbrev pub is_neg : ℤ → Bool
is_neg (pos n) = false
is_neg (negsuc n) = true

-- n <= 0
abbrev pub is_nonpos : ℤ → Bool
is_nonpos (pos n) = leb n 0
is_nonpos (negsuc n) = true

-- a <= b
abbrev pub leb_ℤ : ℤ → ℤ → Bool
leb_ℤ (pos a) (pos b) = leb a b
leb_ℤ (pos a) (negsuc b) = false
leb_ℤ (negsuc a) (pos b) = true
leb_ℤ (negsuc a) (negsuc b) = leb b a

-- a < b
abbrev pub ltb_ℤ : ℤ → ℤ → Bool
ltb_ℤ (pos a) (pos b) = ltb a b
ltb_ℤ (pos a) (negsuc b) = false
ltb_ℤ (negsuc a) (pos b) = true
ltb_ℤ (negsuc a) (negsuc b) = ltb b a

abbrev pub max_int : ℕ
max_int = 2 ^ 63 - 1

-- a + 1 at 64 bits: the largest value wraps to the smallest.
abbrev pub inc : ℤ → ℤ
inc (pos n) = if ltb n max_int then pos (n + 1) else negsuc max_int
inc (negsuc zero) = pos 0
inc (negsuc (suc n)) = negsuc n

-- `if n <= 0 { n = d }`: a positive option or its default
abbrev pub or_default : ℤ → ℕ → ℕ
or_default (pos n) d = if leb n 0 then d else n
or_default (negsuc n) d = d

pub or_default-pos : (n : ℤ) (d : ℕ) → 0 < d → 0 < or_default n d
or_default-pos (pos n) d h = ground arith
or_default-pos (negsuc n) d h = h

-- a - b for a count `b`
abbrev pub sub_int : ℤ → ℕ → ℤ
sub_int (pos a) b = if leb b a then pos (a - b) else negsuc (b - a - 1)
sub_int (negsuc a) b = negsuc (a + b)
