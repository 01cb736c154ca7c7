-- ===== src/Ingestion/Chunk/Packing.antt =====
-- internal/services/ingestion/service.go: what `chunkPayload` keeps of a payload, and how long its
-- chunks are.
use mathlib.Core.List.{concat-ne-nil}
use fine_rag_core.Prelude.{
  ℕ, ◌≡◌, ◌≢◌, ◌≤◌, refl, sym, ◌∙◌, ap, ℤ, or_default, Bool, true, false, not, ◌&&◌, List, [], ◌∷◌,
  ◌++◌, append_assoc, arith, is_empty, All, Bool-cases, inl, inr, ◌⊎◌, ltb,
}
use fine_rag_core.Text.{Text, is_space, trim_space, fields, byte_len, is_blank}
use fine_rag_core.Text.Words.{
  IsWord, fields-IsWord, fields-is_blank, is_blank-fields, fields-nil, fields-word, fields-space,
  fields-trim_space,
}
use fine_rag_core.Ingestion.Chunk.{candidate, pack, default_chunk_size, chunk_payload}

-- The words of a list of texts, in order.
abbrev pub words_of : List Text → List Text
words_of [] = []
words_of (t ∷ ts) = fields t ++ words_of ts

pub fields-candidate :
    (current word : Text)
    → IsWord word
    → fields (candidate current word) ≡ fields current ++ word ∷ []
unfolding candidate
fields-candidate [] word h = rw fields-nil (fields-word word h)
fields-candidate (c ∷ current) word h =
    fields-space b' ' (c ∷ current) word (unfold is_space in refl)
    ∙ ap (λ ws. fields (c ∷ current) ++ ws) (fields-word word h)

-- The test of the loop, whichever way it goes.
unfoldable pub overflows : ℕ → Text → Text → Bool
overflows limit current word =
    ltb limit (byte_len (candidate current word)) && not (is_empty current)

pub pack-flush :
    (limit : ℕ) (current word : Text) (words : List Text)
    → overflows limit current word ≡ true
    → pack limit current (word ∷ words) ≡ current ∷ pack limit word words
unfolding pack overflows
pack-flush limit current word words h = rw h

pub pack-grow :
    (limit : ℕ) (current word : Text) (words : List Text)
    → overflows limit current word ≡ false
    → pack limit current (word ∷ words) ≡ pack limit (candidate current word) words
unfolding pack overflows
pack-grow limit current word words h = rw h

pack-words :
    (limit : ℕ) (current : Text) (words : List Text)
    → All IsWord words
    → words_of (pack limit current words) ≡ fields current ++ words
pack-words limit [] [] h = unfold pack in rw fields-nil
pack-words limit (c ∷ current) [] h = unfold pack in refl
pack-words limit current (word ∷ words) (hw, h) = elim (Bool-cases (overflows limit current word)) [
  | inl e ↦
      rw (pack-flush limit current word words e, pack-words limit word words h, fields-word word hw)
  | inr e ↦ rw (
    pack-grow limit current word words e,
    pack-words limit (candidate current word) words h,
    fields-candidate current word hw,
    append_assoc,
  )
]

-- The words of the chunks, chunk after chunk, are the words of the payload: none is lost, added,
-- split or moved.
pub chunk_payload-words :
    (payload : Text) (size : ℤ) → words_of (chunk_payload payload size) ≡ fields payload
unfolding chunk_payload
chunk_payload-words payload size = elim (Bool-cases (is_empty (trim_space payload))) [
  | inl e ↦ rw e (sym (fields-is_blank payload e))
  | inr e ↦
      rw (e, fields-trim_space)
        (pack-words (or_default size default_chunk_size) [] (fields payload) (fields-IsWord payload)
          ∙ ap (λ ws. ws ++ fields payload) fields-nil)
]

-- The bound on a chunk: it is short enough, or it is one word that is too long by itself.
abbrev pub Fits : ℕ → Text → Type 0
Fits limit t = (byte_len t ≤ limit) ⊎ IsWord t

-- What holds of each chunk.
abbrev pub IsChunk : ℕ → Text → Type 0
IsChunk limit t = Fits limit t × (is_blank t ≡ false)

-- A chunk that is being filled, once it has begun.
Begun : ℕ → Text → Type 0
Begun limit current = (is_empty current ≡ true) ⊎ (Fits limit current × (fields current ≢ []))

word-Begun : (limit : ℕ) (word : Text) → IsWord word → Begun limit word
unfolding Begun
word-Begun limit word h = inr (inr h, λ e. cc (e, fields-word word h))

candidate-Begun :
    (limit : ℕ) (current word : Text)
    → IsWord word
    → overflows limit current word ≡ false
    → Begun limit (candidate current word)
unfolding overflows
candidate-Begun limit [] word h e = unfold candidate in word-Begun limit word h
candidate-Begun limit (c ∷ current) word h e =
    unfold Begun in
    inr (
      inl (ground arith),
      λ nil. concat-ne-nil word (fields (c ∷ current)) (sym (fields-candidate _ word h) ∙ nil),
    )

flushed-IsChunk :
    (limit : ℕ) (current word : Text)
    → overflows limit current word ≡ true
    → Begun limit current
    → IsChunk limit current
unfolding overflows Begun
flushed-IsChunk limit [] word e b = ground arith
flushed-IsChunk limit (c ∷ current) word e (inl nil) = cc
flushed-IsChunk limit (c ∷ current) word e (inr (fits, ne)) =
    (fits, is_blank-fields (c ∷ current) ne)

pack-IsChunk :
    (limit : ℕ) (current : Text) (words : List Text)
    → All IsWord words
    → Begun limit current
    → All (IsChunk limit) (pack limit current words)
unfolding Begun
pack-IsChunk limit [] [] h b = unfold pack in tt
pack-IsChunk limit (c ∷ current) [] h (inl e) = cc
pack-IsChunk limit (c ∷ current) [] h (inr (fits, ne)) =
    unfold pack in ((fits, is_blank-fields (c ∷ current) ne), tt)
pack-IsChunk limit current (word ∷ words) (hw, h) b =
    elim (Bool-cases (overflows limit current word)) [
      | inl e ↦ rw (pack-flush limit current word words e) (
        flushed-IsChunk limit current word e b,
        pack-IsChunk limit word words h (word-Begun limit word hw),
      )
      | inr e ↦ rw (pack-grow limit current word words e) (
          pack-IsChunk limit (candidate current word) words h
            (candidate-Begun limit current word hw e))
    ]

-- Every chunk has a word in it, and is at most as long as the limit (200 bytes where the limit given
-- is not positive) or is one word that is longer by itself.
pub chunk_payload-IsChunk :
    (payload : Text) (size : ℤ)
    → All (IsChunk (or_default size default_chunk_size)) (chunk_payload payload size)
unfolding chunk_payload
chunk_payload-IsChunk payload size = elim (Bool-cases (is_empty (trim_space payload))) [
  | inl e ↦ rw e tt
  | inr e ↦
      rw (e, fields-trim_space)
        (pack-IsChunk (or_default size default_chunk_size) [] (fields payload)
          (fields-IsWord payload) (unfold Begun in inl refl))
]
