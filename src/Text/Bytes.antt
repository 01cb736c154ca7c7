-- ===== src/Text/Bytes.antt =====
-- The bytes of a Go string, and a cut at a byte.
use fine_rag_core.Prelude.{
  ℕ, ◌+◌, ◌-◌, ◌/◌, ◌%◌, List, [], ◌∷◌, ◌++◌, map, take, ltb, leb, ◌==◌, if◌then◌else◌,
}
use fine_rag_core.Text.{Text, width}

abbrev continuation : ℕ → ℕ
continuation n = 0x80 + n % 0x40

-- The bytes of one symbol: UTF-8 of a code point, or the byte that is no part of it.
unfoldable pub symbol_bytes : ℕ → List ℕ
symbol_bytes c =
    if ltb c 0x80
    then c ∷ []
    else if ltb c 0x800
    then (0xc0 + c / 0x40) ∷ continuation c ∷ []
    else if ltb c 0x10000
    then (0xe0 + c / 0x1000) ∷ continuation (c / 0x40) ∷ continuation c ∷ []
    else if ltb c 0x110000
    then (0xf0 + c / 0x40000)
      ∷ continuation (c / 0x1000)
      ∷ continuation (c / 0x40)
      ∷ continuation c
      ∷ []
    else (c - 0x110000) ∷ []

unfoldable pub bytes_of : Text → List ℕ
unfolding symbol_bytes
bytes_of [] = []
bytes_of (c ∷ s) = symbol_bytes c ++ bytes_of s

-- A byte that is no part of valid UTF-8.
abbrev pub stray : ℕ → ℕ
stray b = 0x110000 + b

-- `s[:n]`: a symbol that is cut leaves the bytes before the cut, of which none is valid any more.
unfoldable pub take_bytes : ℕ → Text → Text
unfolding symbol_bytes
take_bytes n [] = []
take_bytes n (c ∷ s) =
    let rest = take_bytes (n - width c) s in
    if leb (width c) n then c ∷ rest else map stray (take n (symbol_bytes c))

-- `s[n:]`: a symbol that is cut leaves the bytes behind the cut.
unfoldable pub drop_bytes : ℕ → Text → Text
unfolding symbol_bytes
drop_bytes n [] = []
drop_bytes n (c ∷ s) =
    let rest = drop_bytes (n - width c) s in
    if n == 0
    then c ∷ s
    else if leb (width c) n
    then rest
    else map stray (dropped n (symbol_bytes c)) ++ s
  where
    dropped : ℕ → List ℕ → List ℕ
    dropped k [] = []
    dropped k (b ∷ bytes) = let more = dropped (k - 1) bytes in if k == 0 then b ∷ bytes else more
