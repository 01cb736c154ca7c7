-- ===== src/Tests/Chunks.antt =====
-- `chunkPayload` of internal/services/ingestion/service.go at concrete inputs.
use fine_rag_core.Prelude.{◌≡◌, refl, pos, or_default, [], ◌∷◌, All}
use fine_rag_core.Text
use fine_rag_core.Text.{Text, txt, fields}
use fine_rag_core.Ingestion.Chunk.{chunk_payload, default_chunk_size}
use fine_rag_core.Ingestion.Chunk.Packing.{
  words_of, IsChunk, chunk_payload-words, chunk_payload-IsChunk,
}

abbrev payload : Text
payload = txt " ab cd  efghijklmn\no "

-- A word that is too long by itself is a chunk; the others are packed.
payload_chunks : chunk_payload payload (pos 5) ≡ txt "ab cd" ∷ txt "efghijklmn" ∷ txt "o" ∷ []
unfolding chunk_payload txt Text.trim_space Text.trim_right Text.trim_left Text.is_space Text.fields
    Text.fields_from Text.byte_len Text.width
payload_chunks = refl

chunk_payload-words_example : words_of (chunk_payload payload (pos 5)) ≡ fields payload
chunk_payload-words_example = chunk_payload-words payload (pos 5)

chunk_payload-IsChunk_example :
    All (IsChunk (or_default (pos 5) default_chunk_size)) (chunk_payload payload (pos 5))
chunk_payload-IsChunk_example = chunk_payload-IsChunk payload (pos 5)
