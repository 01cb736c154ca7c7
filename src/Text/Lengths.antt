-- ===== src/Text/Lengths.antt =====
-- How many bytes a text has.
use fine_rag_core.Prelude.{
  ℕ, ◌+◌, ◌-◌, ◌≤◌, ◌≡◌, List, [], ◌∷◌, ◌++◌, map, take, length, length-take, leb, Bool-cases, inl,
  inr, arith,
}
use fine_rag_core.Text.{Text, width, byte_len}
use fine_rag_core.Text.Bytes.{symbol_bytes, stray, take_bytes}

pub byte_len-append : (s t : Text) → byte_len (s ++ t) ≡ byte_len s + byte_len t
unfolding byte_len
byte_len-append [] t = omega arith
byte_len-append (c ∷ s) t = omega (arith, byte_len-append s t)

-- A stray byte is one byte.
byte_len-stray : (bytes : List ℕ) → byte_len (map stray bytes) ≡ length bytes
unfolding byte_len width
byte_len-stray [] = omega arith
byte_len-stray (b ∷ bytes) = ground (arith, byte_len-stray bytes)

-- A cut at `n` bytes leaves no more than these.
pub byte_len-take_bytes_le : (n : ℕ) (s : Text) → byte_len (take_bytes n s) ≤ n
unfolding byte_len take_bytes
byte_len-take_bytes_le n [] = omega arith
byte_len-take_bytes_le n (c ∷ s) = elim (Bool-cases (leb (width c) n)) [
  | inl e ↦ rw e (ground (arith, byte_len-take_bytes_le (n - width c) s))
  | inr e ↦
      rw e (omega (arith, byte_len-stray (take n (symbol_bytes c)), length-take n (symbol_bytes c)))
]
