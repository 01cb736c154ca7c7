-- ===== src/Ingestion/Chunk/Tight.antt =====
-- internal/services/ingestion/service.go: the chunks of `chunkPayload` are packed tightly.
use mathlib.Core.List.{concat-ne-nil}
use fine_rag_core.Prelude.{
  ℕ, ◌≡◌, ◌≢◌, ◌<◌, refl, sym, ◌∙◌, ap, ℤ, or_default, true, List, [], ◌∷◌, ◌++◌, arith, is_empty,
  All, Bool-cases, inl, inr,
}
use fine_rag_core.Text.{Text, trim_space, fields, byte_len}
use fine_rag_core.Text.Words.{IsWord, fields-IsWord, fields-nil, fields-word, fields-trim_space}
use fine_rag_core.Ingestion.Chunk.Packing.{fields-candidate, overflows, pack-flush, pack-grow}
use fine_rag_core.Ingestion.Chunk.{candidate, pack, default_chunk_size, chunk_payload}

abbrev pub head_or : List Text → Text
head_or [] = []
head_or (w ∷ ws) = w

-- The first word of a text.
abbrev pub first_word : Text → Text
first_word t = head_or (fields t)

-- No chunk has room for the word that the next one begins with.
abbrev pub Tight : ℕ → List Text → Type 0
Tight limit [] = Unit
Tight limit (c ∷ []) = Unit
Tight limit (c ∷ d ∷ rest) =
    (limit < byte_len (candidate c (first_word d))) × Tight limit (d ∷ rest)

head_or-snoc : (ws : List Text) (w : Text) → ws ≢ [] → head_or (ws ++ w ∷ []) ≡ head_or ws
head_or-snoc [] w h = absurd (h refl)
head_or-snoc (v ∷ ws) w h = refl

candidate-fields : (current word : Text) → IsWord word → fields (candidate current word) ≢ []
candidate-fields current word h e =
    concat-ne-nil word (fields current) (sym (fields-candidate current word h) ∙ e)

-- What the first chunk that is still to come begins with.
Leads : List Text → Text → Type 0
Leads chunks current =
    (d : Text) × (rest : List Text) × (chunks ≡ d ∷ rest) × (first_word d ≡ first_word current)

pack-Leads :
    (limit : ℕ) (current : Text) (words : List Text)
    → All IsWord words
    → fields current ≢ []
    → Leads (pack limit current words) current
unfolding Leads
pack-Leads limit [] words h ne = absurd (ne fields-nil)
pack-Leads limit (c ∷ current) [] h ne = (c ∷ current, [], unfold pack in refl, refl)
pack-Leads limit (c ∷ current) (word ∷ words) (hw, h) ne =
    elim (Bool-cases (overflows limit (c ∷ current) word)) [
      | inl e ↦
          (c ∷ current, pack limit word words, pack-flush limit (c ∷ current) word words e, refl)
      | inr e ↦
          let longer = candidate (c ∷ current) word in
          let (d, rest, same, first) =
            pack-Leads limit longer words h (candidate-fields (c ∷ current) word hw) in
          (
            d,
            rest,
            pack-grow limit (c ∷ current) word words e ∙ same,
            first
                ∙ (ap head_or (fields-candidate (c ∷ current) word hw)
                    ∙ head_or-snoc (fields (c ∷ current)) word ne),
          )
    ]

Tight-cons :
    (limit : ℕ) (current word : Text) (chunks : List Text)
    → IsWord word
    → overflows limit current word ≡ true
    → Leads chunks word
    → Tight limit chunks
    → Tight limit (current ∷ chunks)
unfolding overflows Leads
Tight-cons limit current word [] hw e (d, rest, same, first) t = cc
Tight-cons limit current word (x ∷ xs) hw e (d, rest, same, first) t =
    let begins : first_word x ≡ word =
      ap first_word (ap head_or same) ∙ (first ∙ ap head_or (fields-word word hw)) in
    (rw begins (ground arith), t)

pack-Tight :
    (limit : ℕ) (current : Text) (words : List Text)
    → All IsWord words
    → Tight limit (pack limit current words)
pack-Tight limit [] [] h = unfold pack in tt
pack-Tight limit (c ∷ current) [] h = unfold pack in tt
pack-Tight limit current (word ∷ words) (hw, h) = elim (Bool-cases (overflows limit current word)) [
  | inl e ↦ rw (pack-flush limit current word words e) (
      Tight-cons limit current word (pack limit word words) hw e
        (pack-Leads limit word words h (λ nil. cc (nil, fields-word word hw)))
        (pack-Tight limit word words h))
  | inr e ↦
      rw (pack-grow limit current word words e) (pack-Tight limit (candidate current word) words h)
]

-- The packing is greedy: no chunk has room for a space and the word that the next one begins with.
pub chunk_payload-Tight :
    (payload : Text) (size : ℤ)
    → Tight (or_default size default_chunk_size) (chunk_payload payload size)
unfolding chunk_payload
chunk_payload-Tight payload size = elim (Bool-cases (is_empty (trim_space payload))) [
  | inl e ↦ rw e tt
  | inr e ↦
      rw (e, fields-trim_space)
        (pack-Tight (or_default size default_chunk_size) [] (fields payload)
          (fields-IsWord payload))
]
