-- ===== src/Backend/Chunks/Windows.antt =====
-- backend/util/apiutil/text.go: the windows of `ChunkText` cover the words, overlap as they are asked
-- to, and are short enough.
use fine_rag_core.Prelude.{
  ℕ, zero, suc, ◌+◌, ◌-◌, ◌≡◌, ◌≤◌, ◌<◌, refl, ℤ, or_default, Bool, true, false, ◌&&◌, List, [],
  ◌∷◌, ◌++◌, map, take, drop, length, if◌then◌else◌, is_empty, ltb, leb, All, ◌⊎◌, inl, inr,
  Bool-cases, arith,
}
use fine_rag_core.Text.Lengths.{byte_len-append}
use fine_rag_core.Text.{Text, trim_space, fields, byte_len, join, width}
use fine_rag_core.Text.Words.{fields-trim_space, fields-is_blank}
use fine_rag_core.Backend.Chunks.{
  fill, at_least_one, stride, windows, default_max_len, at_least_zero, joined, chunk_text,
}

pub fill-le : (m : ℕ) (begun : Bool) (cur : ℕ) (ws : List Text) → fill m begun cur ws ≤ length ws
unfolding fill
fill-le m begun cur [] = omega arith
fill-le m begun cur (w ∷ ws) =
    ground (arith, fill-le m true (cur + byte_len w + (if begun then 1 else 0)) ws)

-- The length of the window while words are added to it.
extended : Bool → ℕ → List Text → ℕ
extended begun cur [] = cur
extended begun cur (w ∷ ws) = extended true (cur + byte_len w + (if begun then 1 else 0)) ws

-- It fits, or it is one word that is too long by itself.
fill-fits :
    (m : ℕ) (begun : Bool) (cur : ℕ) (ws : List Text)
    → cur ≤ m
    → (extended begun cur (take (fill m begun cur ws) ws) ≤ m)
      ⊎ ((begun ≡ false) × (fill m begun cur ws ≡ 1))
unfolding fill extended
fill-fits m begun cur [] h = inl h
fill-fits m begun cur (w ∷ ws) h =
    let c = cur + byte_len w + (if begun then 1 else 0) in
    elim (Bool-cases (ltb m c && begun)) [
      | inl e ↦ rw e (inl h)
      | inr e ↦ elim (Bool-cases (leb m c)) [
        | inl g ↦ rw (e, g) (full c begun e)
        | inr g ↦ rw (e, g) (longer (fill-fits m true c ws (ground arith)))
      ]
    ]
  where
    full :
        (c : ℕ) (begun : Bool)
        → (ltb m c && begun) ≡ false
        → (c ≤ m) ⊎ ((begun ≡ false) × (◌≡◌ {A = ℕ} 1 1))
    full c true e = inl (ground arith)
    full c false e = inr (refl, refl)

    longer :
        {n k : ℕ} {b : Bool}
        → (n ≤ m) ⊎ ((true ≡ false) × (k ≡ 1))
        → (n ≤ m) ⊎ ((b ≡ false) × (suc k ≡ 1))
    longer (inl e) = inl e
    longer (inr (e, _)) = cc

-- At least one word goes into a window.
pub fill-pos : (m cur : ℕ) (w : Text) (ws : List Text) → 0 < fill m false cur (w ∷ ws)
unfolding fill
fill-pos m cur w ws = ground arith

tail_len : List Text → ℕ
tail_len [] = 0
tail_len (w ∷ ws) = 1 + byte_len w + tail_len ws

extended-tail_len : (cur : ℕ) (ws : List Text) → extended true cur ws ≡ cur + tail_len ws
unfolding extended tail_len
extended-tail_len cur [] = omega arith
extended-tail_len cur (w ∷ ws) = omega (arith, extended-tail_len (cur + byte_len w + 1) ws)

byte_len-join : (w : Text) (ws : List Text) → byte_len (joined (w ∷ ws)) ≡ byte_len w + tail_len ws
unfolding join tail_len
byte_len-join w [] = omega arith
byte_len-join w (v ∷ ws) = omega (
  arith,
  byte_len-append w ((b' ' ∷ []) ++ joined (v ∷ ws)),
  byte_len-append (b' ' ∷ []) (joined (v ∷ ws)),
  byte_len-join v ws,
  one_space,
)
  where
    one_space : byte_len (b' ' ∷ []) ≡ 1
    one_space = unfold byte_len width in refl

-- The count of the loop is the length of what it makes.
extended-joined : (ws : List Text) → extended false 0 ws ≡ byte_len (joined ws)
unfolding extended
extended-joined [] = unfold byte_len join in refl
extended-joined (w ∷ ws) =
    omega (arith, extended-tail_len (0 + byte_len w + 0) ws, byte_len-join w ws)

-- How far the next window starts after this one of `n` words: it takes up the last `overlap` words
-- again, or none where there are no more than these.
abbrev pub Moves : ℕ → ℕ → ℕ → Type 0
Moves overlap n s = (0 < s) × (s ≤ n) × (overlap < n → s + overlap ≡ n) × (n ≤ overlap → s ≡ n)

-- The windows start with the words, leave none out and end with the last one.
unfoldable pub Covers : ℕ → List Text → List (List Text) → Type 0
Covers overlap words [] = words ≡ []
Covers overlap words (c ∷ cs) =
    (n : ℕ) × (0 < n)
    × (c ≡ take n words)
    × (((n ≡ length words) × (cs ≡ []))
        ⊎ ((n < length words) × (s : ℕ) × Moves overlap n s × Covers overlap (drop s words) cs))

stride-Moves : (overlap n : ℕ) → 0 < n → Moves overlap n (stride overlap n)
unfolding stride
stride-Moves overlap n h = (ground arith, ground arith, λ p. ground arith, λ p. ground arith)

pub at_least_one-lem : (n : ℕ) → 0 < n → at_least_one n ≡ n
unfolding at_least_one
at_least_one-lem n h = ground arith

pub length-drop : (n : ℕ) (ws : List Text) → length (drop n ws) ≡ length ws - n
length-drop zero ws = omega arith
length-drop (suc n) [] = omega arith
length-drop (suc n) (w ∷ ws) = omega (arith, length-drop n ws)

-- A window is short enough, or one word.
abbrev pub Short : ℕ → List Text → Type 0
Short m c = (byte_len (joined c) ≤ m) ⊎ (length c ≡ 1)

first-Short :
    (m : ℕ) (w : Text) (ws : List Text) → Short m (take (fill m false 0 (w ∷ ws)) (w ∷ ws))
first-Short m w ws = short (fill-fits m false 0 (w ∷ ws) (omega arith)) (fill-le m false 0 (w ∷ ws))
  where
    short :
        {n : ℕ}
        → (extended false 0 (take n (w ∷ ws)) ≤ m) ⊎ ((false ≡ false) × (n ≡ 1))
        → n ≤ length (w ∷ ws)
        → Short m (take n (w ∷ ws))
    short {n} (inl h) le = inl (rw (← extended-joined (take n (w ∷ ws))) h)
    short {n} (inr (_, h)) le = inr (rw h refl)

-- One window more, whichever way the test for the last one goes.
window-Covers :
    (m overlap n : ℕ) (words : List Text) (more : List (List Text)) (last : Bool)
    → leb (length words) n ≡ last
    → 0 < n
    → n ≤ length words
    → Short m (take n words)
    → Covers overlap (drop (stride overlap n) words) more × All (Short m) more
    → Covers overlap words (take n words ∷ (if last then [] else more))
      × All (Short m) (take n words ∷ (if last then [] else more))
unfolding Covers
window-Covers m overlap n words more true e pos le short (covers, all) =
    ((n, pos, refl, inl (ground arith, refl)), (short, tt))
window-Covers m overlap n words more false e pos le short (covers, all) = (
  (n, pos, refl, inr (ground arith, stride overlap n, stride-Moves overlap n pos, covers)),
  (short, all),
)

windows-Covers :
    (f m overlap : ℕ) (words : List Text)
    → length words ≤ f
    → Covers overlap words (windows f m overlap words) × All (Short m) (windows f m overlap words)
unfolding windows
windows-Covers zero m overlap [] h = unfold Covers in (refl, tt)
windows-Covers zero m overlap (w ∷ ws) h = absurd (omega arith)
windows-Covers (suc f) m overlap [] h = unfold Covers in (refl, tt)
windows-Covers (suc f) m overlap (w ∷ ws) h =
    let n = fill m false 0 (w ∷ ws) in
    let positive = fill-pos m 0 w ws in
    rw (at_least_one-lem n positive) (
      window-Covers m overlap n (w ∷ ws) (windows f m overlap (drop (stride overlap n) (w ∷ ws)))
        (leb (length (w ∷ ws)) n) refl positive (fill-le m false 0 (w ∷ ws)) (first-Short m w ws)
        (windows-Covers f m overlap (drop (stride overlap n) (w ∷ ws)) (
          ground
            (arith, length-drop (stride overlap n) (w ∷ ws), stride-Moves overlap n positive))))

-- The chunks of a text are its words in windows, each joined by spaces: the windows begin with the
-- first word, leave no word out and end with the last one, each next one takes up the last words of
-- the one before as often as the overlap says (none where the window has no more than these), and a
-- chunk is at most as long as the limit (900 bytes where the limit given is not positive) or is one
-- word. A text of spaces has no windows.
pub chunk_text-Covers :
    (text : Text) (max_len overlap_words : ℤ)
    → (ws : List (List Text)) × (chunk_text text max_len overlap_words ≡ map joined ws)
      × Covers (at_least_zero overlap_words) (fields text) ws
      × All (Short (or_default max_len default_max_len)) ws
unfolding chunk_text
chunk_text-Covers text max_len overlap_words =
    let m = or_default max_len default_max_len in
    let o = at_least_zero overlap_words in
    elim (Bool-cases (is_empty (trim_space text))) [
      | inl e ↦ ([], rw e refl, unfold Covers in fields-is_blank text e, tt)
      | inr e ↦
          let (covers, short) =
            windows-Covers (length (fields text)) m o (fields text) (omega arith) in
          (
            windows (length (fields text)) m o (fields text),
            rw (e, fields-trim_space) refl,
            covers,
            short,
          )
    ]
