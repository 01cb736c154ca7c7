-- ===== src/Backend/Chunks/WindowWords.antt =====
-- backend/util/apiutil/text.go: the chunks of `ChunkText` have words in them, and these are the words
-- of their windows.
use fine_rag_core.Prelude.{
  ℕ, zero, suc, ◌≡◌, ◌≢◌, ◌<◌, refl, sym, ◌∙◌, ℤ, false, List, [], ◌∷◌, map, take, drop, length,
  All, inl, inr, arith,
}
use fine_rag_core.Text.{Text, is_space, fields, join, is_blank}
use fine_rag_core.Text.Words.{
  IsWord, fields-IsWord, fields-word, fields-nil, fields-space, is_blank-fields,
}
use fine_rag_core.Backend.Chunks.{at_least_zero, joined, chunk_text}
use fine_rag_core.Backend.Chunks.Windows.{Covers, chunk_text-Covers}

pub words-drop : (n : ℕ) (ws : List Text) → All IsWord ws → All IsWord (drop n ws)
words-drop zero ws h = h
words-drop (suc n) [] h = tt
words-drop (suc n) (w ∷ ws) (_, h) = words-drop n ws h

pub words-take : (n : ℕ) (ws : List Text) → All IsWord ws → All IsWord (take n ws)
words-take zero ws h = tt
words-take (suc n) [] h = tt
words-take (suc n) (w ∷ ws) (hw, h) = (hw, words-take n ws h)

-- The words of a chunk are those of its window.
pub fields-joined : (ws : List Text) → All IsWord ws → fields (joined ws) ≡ ws
unfolding join
fields-joined [] h = fields-nil
fields-joined (w ∷ []) (hw, h) = fields-word w hw
fields-joined (w ∷ v ∷ ws) (hw, h) =
    fields-space b' ' w (joined (v ∷ ws)) (unfold is_space in refl)
    ∙ rw (fields-word w hw, fields-joined (v ∷ ws) h) refl

Worded : List Text → Type 0
Worded c = All IsWord c × (c ≢ [])

take-nonempty : (n : ℕ) (ws : List Text) → 0 < n → 0 < length ws → take n ws ≢ []
take-nonempty zero ws hn h = absurd (omega arith)
take-nonempty (suc n) [] hn h = absurd (omega arith)
take-nonempty (suc n) (w ∷ ws) hn h = λ e. cc

Covers-Worded :
    (overlap : ℕ) (words : List Text) (cs : List (List Text))
    → All IsWord words
    → Covers overlap words cs
    → All Worded cs
unfolding Covers Worded
Covers-Worded overlap words [] h c = tt
Covers-Worded overlap words (c ∷ cs) h (n, pos, same, inl (e, last)) =
    rw (same, last) ((words-take n words h, take-nonempty n words pos (omega arith)), tt)
Covers-Worded overlap words (c ∷ cs) h (n, pos, same, inr (lt, s, moves, rest)) = rw same (
  (words-take n words h, take-nonempty n words pos (omega arith)),
  Covers-Worded overlap (drop s words) cs (words-drop s words h) rest,
)

joined-is_blank :
    (ws : List (List Text)) → All Worded ws → All (λ c. is_blank c ≡ false) (map joined ws)
unfolding Worded
joined-is_blank [] h = tt
joined-is_blank (c ∷ cs) ((hw, ne), h) =
    (is_blank-fields (joined c) (λ e. ne (sym (fields-joined c hw) ∙ e)), joined-is_blank cs h)

-- No chunk is blank.
pub chunk_text-is_blank :
    (text : Text) (max_len overlap_words : ℤ)
    → All (λ c. is_blank c ≡ false) (chunk_text text max_len overlap_words)
chunk_text-is_blank text max_len overlap_words =
    let (ws, same, covers, short) = chunk_text-Covers text max_len overlap_words in
    rw same (
      joined-is_blank ws
        (Covers-Worded (at_least_zero overlap_words) (fields text) ws (fields-IsWord text) covers))
