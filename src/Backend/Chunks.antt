-- ===== src/Backend/Chunks.antt =====
-- backend/util/apiutil/text.go: `ChunkText`, which cuts a text into windows of whole words that may
-- overlap.
pub mod Windows
pub mod WindowWords
pub mod SamePacking
use fine_rag_core.Prelude.{
  ℕ, zero, suc, ◌+◌, ◌-◌, ℤ, pos, negsuc, or_default, Bool, true, false, ◌&&◌, List, [], ◌∷◌, map,
  take, drop, length, if◌then◌else◌, is_empty, ltb, leb,
}
use fine_rag_core.Text.{Text, trim_space, fields, byte_len, join}

-- The inner loop: how many words go into a window. `begun` is `end > start`.
unfoldable pub fill : ℕ → Bool → ℕ → List Text → ℕ
fill max_len begun current_len [] = 0
fill max_len begun current_len (word ∷ words) =
    let candidate_len = current_len + byte_len word + (if begun then 1 else 0) in
    let more = fill max_len true candidate_len words in
    if ltb max_len candidate_len && begun
    then 0
    else if leb max_len candidate_len
    then 1
    else suc more

-- `if end <= start { end = start + 1 }`
unfoldable pub at_least_one : ℕ → ℕ
at_least_one n = if leb n 0 then 1 else n

-- How far the start moves: `nextStart := end - overlapWords`, or `end` if that is not past `start`.
unfoldable pub stride : ℕ → ℕ → ℕ
stride overlap n = if leb n overlap then n else n - overlap

-- The outer loop over `words[start:]`, on fuel; the number of the words is enough.
unfoldable pub windows : ℕ → ℕ → ℕ → List Text → List (List Text)
windows zero max_len overlap words = []
windows (suc f) max_len overlap [] = []
windows (suc f) max_len overlap (w ∷ ws) =
    let n = at_least_one (fill max_len false 0 (w ∷ ws)) in
    let more = windows f max_len overlap (drop (stride overlap n) (w ∷ ws)) in
    take n (w ∷ ws) ∷ (if leb (length (w ∷ ws)) n then [] else more)

unfoldable pub default_max_len : ℕ
default_max_len = 900

-- `if n < 0 { n = 0 }`
abbrev pub at_least_zero : ℤ → ℕ
at_least_zero (pos n) = n
at_least_zero (negsuc n) = 0

abbrev pub joined : List Text → Text
joined words = join words (b' ' ∷ [])

unfoldable pub chunk_text : Text → ℤ → ℤ → List Text
unfolding windows default_max_len
chunk_text text max_len overlap_words =
    let trimmed = trim_space text in
    let words = fields trimmed in
    if is_empty trimmed
    then []
    else map joined (
        windows (length words) (or_default max_len default_max_len) (at_least_zero overlap_words)
          words)
