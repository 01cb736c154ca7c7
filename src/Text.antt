-- ===== src/Text.antt =====
-- The part of Go's `strings`, `unicode` and `unicode/utf8` that the program calls.
--
-- A Go string is a sequence of bytes that the program reads as UTF-8. It is modelled by what that
-- reading yields: a list of symbols, where a symbol below `0x110000` is a code point and
-- `0x110000 + b` is a byte `b` that is no part of valid UTF-8. Each sequence of bytes has one such
-- list. `byte_len` is Go's `len`.
pub mod Words
pub mod Bytes
pub mod Lengths
use fine_rag_core.Prelude.{
  ℕ, ◌+◌, ◌≡◌, refl, Bool, true, false, ◌&&◌, ◌||◌, List, [], ◌∷◌, ◌++◌, map, String, arith, ltb,
  leb, ◌==◌, if◌then◌else◌, is_empty, ◌↔◌,
}
use Prim.Native.Char.{code}

abbrev pub Text : Type 0
Text = List ℕ

-- A literal of the source.
unfoldable pub txt : String → Text
txt String.[] = []
txt (String.◌∷◌ c s) = code c ∷ txt s

unfoldable pub str_eq : Text → Text → Bool
str_eq [] [] = true
str_eq [] (d ∷ t) = false
str_eq (c ∷ s) [] = false
str_eq (c ∷ s) (d ∷ t) = c == d && str_eq s t

pub str_eq_refl : (s : Text) → str_eq s s ≡ true
unfolding str_eq
str_eq_refl [] = refl
str_eq_refl (c ∷ s) = ground (arith, str_eq_refl s)

pub str_eq→eq : (s t : Text) → str_eq s t ≡ true → s ≡ t
unfolding str_eq
str_eq→eq [] [] h = refl
str_eq→eq [] (d ∷ t) h = cc
str_eq→eq (c ∷ s) [] h = cc
str_eq→eq (c ∷ s) (d ∷ t) h = ground (arith, str_eq→eq s t)

pub eq→str_eq : (s t : Text) → s ≡ t → str_eq s t ≡ true
eq→str_eq s t h = rw (← h) (str_eq_refl s)

pub str_eq_iff : (s t : Text) → (str_eq s t ≡ true) ↔ (s ≡ t)
str_eq_iff s t = (str_eq→eq s t, eq→str_eq s t)

abbrev pub is_ascii_digit : ℕ → Bool
is_ascii_digit c = leb b'0' c && leb c b'9'

-- The number of bytes of one symbol in UTF-8.
unfoldable pub width : ℕ → ℕ
width c =
    if ltb c 0x80
    then 1
    else if ltb c 0x800
    then 2
    else if ltb c 0x10000
    then 3
    else if ltb c 0x110000
    then 4
    else 1

unfoldable pub byte_len : Text → ℕ
byte_len [] = 0
byte_len (c ∷ s) = width c + byte_len s

-- `unicode.IsSpace`
unfoldable pub is_space : ℕ → Bool
is_space c =
    (leb 9 c && leb c 13)
    || c == 0x20
    || c == 0x85
    || c == 0xa0
    || c == 0x1680
    || (leb 0x2000 c && leb c 0x200a)
    || c == 0x2028
    || c == 0x2029
    || c == 0x202f
    || c == 0x205f
    || c == 0x3000

-- `strings.TrimLeft` by `unicode.IsSpace`
unfoldable pub trim_left : Text → Text
trim_left [] = []
trim_left (c ∷ s) = if is_space c then trim_left s else c ∷ s

-- `strings.TrimRight` by `unicode.IsSpace`
unfoldable pub trim_right : Text → Text
trim_right [] = []
trim_right (c ∷ s) = let rest = trim_right s in if is_space c && is_empty rest then [] else c ∷ rest

unfoldable pub trim_space : Text → Text
trim_space s = trim_right (trim_left s)

-- `strings.TrimSpace(s) == ""`
abbrev pub is_blank : Text → Bool
is_blank s = is_empty (trim_space s)

-- `strings.Fields`: `cur` is the word that is being read
unfoldable pub fields_from : Text → Text → List Text
fields_from cur [] = if is_empty cur then [] else cur ∷ []
fields_from cur (c ∷ s) =
    let word = fields_from (cur ++ c ∷ []) s in
    let next = fields_from [] s in
    if is_space c then (if is_empty cur then next else cur ∷ next) else word

unfoldable pub fields : Text → List Text
fields s = fields_from [] s

-- `strings.Join`
unfoldable pub join : List Text → Text → Text
join [] sep = []
join (w ∷ []) sep = w
join (w ∷ v ∷ ws) sep = w ++ (sep ++ join (v ∷ ws) sep)

unfoldable pub has_prefix : Text → Text → Bool
has_prefix s [] = true
has_prefix [] (d ∷ t) = false
has_prefix (c ∷ s) (d ∷ t) = c == d && has_prefix s t

-- `strings.Contains`
unfoldable pub contains : Text → Text → Bool
contains [] t = has_prefix [] t
contains (c ∷ s) t = has_prefix (c ∷ s) t || contains s t

-- What the program takes from Go's Unicode tables beyond ASCII: `unicode.ToLower`,
-- `unicode.IsLetter` and `unicode.IsDigit` of the code points from 128 on.
pub record Unicode : Type 0 where
  pub lower : ℕ → ℕ
  pub is_letter : ℕ → Bool
  pub is_digit : ℕ → Bool

-- `unicode.ToLower`, as `strings.ToLower` applies it: an invalid byte becomes U+FFFD.
unfoldable pub lower_rune : Unicode → ℕ → ℕ
lower_rune u c =
    if ltb c 0x80
    then (if leb b'A' c && leb c b'Z' then c + 32 else c)
    else if ltb c 0x110000
    then u.lower c
    else 0xfffd

-- `strings.ToLower`
unfoldable pub to_lower : Unicode → Text → Text
to_lower u s = map (lower_rune u) s
