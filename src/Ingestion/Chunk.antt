-- ===== src/Ingestion/Chunk.antt =====
-- internal/services/ingestion/service.go: `chunkPayload`, which packs the words of a payload into
-- chunks of a bounded number of bytes.
pub mod Tight
pub mod Packing
use fine_rag_core.Prelude.{
  ℕ, ℤ, or_default, not, ◌&&◌, List, [], ◌∷◌, ◌++◌, if◌then◌else◌, is_empty, ltb,
}
use fine_rag_core.Text.{Text, trim_space, fields, byte_len}

-- `current + " " + word`, or `word` where there is no current chunk
unfoldable pub candidate : Text → Text → Text
candidate current word = if is_empty current then word else current ++ (b' ' ∷ word)

-- The loop over the words: `current` is the chunk that is being filled. What is appended to
-- `chunks` comes out in front of what the rest of the loop appends.
unfoldable pub pack : ℕ → Text → List Text → List Text
unfolding candidate
pack limit current [] = if is_empty current then [] else current ∷ []
pack limit current (word ∷ words) =
    let longer = candidate current word in
    let flush = current ∷ pack limit word words in
    let grow = pack limit longer words in
    if ltb limit (byte_len longer) && not (is_empty current) then flush else grow

unfoldable pub default_chunk_size : ℕ
default_chunk_size = 200

unfoldable pub chunk_payload : Text → ℤ → List Text
unfolding pack default_chunk_size
chunk_payload payload max_chunk_size =
    let text = trim_space payload in
    if is_empty text
    then []
    else pack (or_default max_chunk_size default_chunk_size) [] (fields text)
