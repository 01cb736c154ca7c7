-- ===== src/Backend/Artifacts.antt =====
-- backend/managers/ingestion.go: `indexPayloadArtifacts`, which reads the objects of a job, cuts
-- their text into chunks, embeds the chunks and writes the vectors.
pub mod Gathering
pub mod Batch
pub mod Counts
pub mod Shape
pub mod ChunkId
pub mod Ids
use fine_rag_core.Prelude.{
  ℕ, ◌+◌, Option, none, some, List, [], ◌∷◌, ◌++◌, map, length, is_empty, ◌==◌, if◌then◌else◌,
}
use fine_rag_core.Text.{Text, txt, trim_space}
use fine_rag_core.Result.{Err, new, message, Result, ok, err}
use fine_rag_core.Dict.{Dict}
use fine_rag_core.Contracts.Tenant.{TenantId}
use fine_rag_core.Contracts.Job.{VectorRecord}
use fine_rag_core.Backend.Chunks.{chunk_text}
use fine_rag_core.Backend.Json.{Any, object, value_of, read_string_array}
use fine_rag_core.Backend.Objects.{
  Body, Indexer, read_limited, PendingChunk, local_items, object_chunks,
}

module _ {E : Type 0} (m : Indexer E) (t : TenantId) (job_id checksum fallback : Text) where
  with_rest :
      List PendingChunk → ℕ → Result (List PendingChunk × ℕ) → Result (List PendingChunk × ℕ)
  with_rest chunks n (err e) = err e
  with_rest chunks n (ok (pending, bytes)) = ok (chunks ++ pending, n + bytes)

  with_bytes :
      Dict (Dict Any)
      → ℕ
      → Text
      → Result (List PendingChunk × ℕ)
      → Result (List ℕ)
      → Result (List PendingChunk × ℕ)
  unfolding object_chunks with_rest txt
  with_bytes items i key rest (err e) =
      err (new (txt "read object body " ++ (key ++ (txt ": " ++ message e))))
  with_bytes items i key rest (ok bytes) =
      with_rest (object_chunks m t job_id checksum fallback items i key bytes) (length bytes) rest

  with_object :
      Dict (Dict Any)
      → ℕ
      → Text
      → Result (List PendingChunk × ℕ)
      → Result Body
      → Result (List PendingChunk × ℕ)
  unfolding read_limited with_bytes txt
  with_object items i key rest (err e) =
      err (new (txt "read object " ++ (key ++ (txt ": " ++ message e))))
  with_object items i key rest (ok body) =
      with_bytes items i key rest (read_limited m.max_object_bytes body)

  -- The loop over the keys: the chunks, and the number of bytes that were read.
  unfoldable pub gather :
      (ℕ → Text → Result Body) → Dict (Dict Any) → ℕ → List Text → Result (List PendingChunk × ℕ)
  unfolding with_object
  gather get items i [] = ok ([], 0)
  gather get items i (object_key ∷ keys) =
      let key = trim_space object_key in
      let rest = gather get items (i + 1) keys in
      let read = with_object items i key rest (get i key) in if is_empty key then rest else read

  unfoldable pub record_of : PendingChunk → List E → VectorRecord E
  record_of p vector = record {
    record_id = p.record_id;
    tenant_id = p.tenant_id;
    job_id = p.job_id;
    chunk_text = p.chunk;
    embedding = vector;
    metadata = p.metadata;
    indexed_at = p.indexed_at;
    source_uri = p.source_uri;
    object_key = p.object_key;
    checksum = p.checksum;
    retry_count = p.retry_count;
  }

  -- The loop over the pending chunks, each with the vector at its place.
  unfoldable pub records_of : List PendingChunk → List (List E) → List (VectorRecord E)
  unfolding record_of
  records_of [] vs = []
  records_of (p ∷ ps) [] = []
  records_of (p ∷ ps) (v ∷ vs) = record_of p v ∷ records_of ps vs

  -- What a run answers, and the batches that it handed to the index.
  abbrev pub Run : Type 0
  Run = Result (ℕ × ℕ) × List (List (VectorRecord E))

  written : ℕ → ℕ → List (VectorRecord E) → Option Err → Run
  written n bytes batch (some e) = (err e, batch ∷ [])
  written n bytes batch none = (ok (n, bytes), batch ∷ [])

  with_vectors :
      (List (VectorRecord E) → Option Err) → List PendingChunk → ℕ → Result (List (List E)) → Run
  unfolding records_of written txt
  with_vectors upsert pending bytes (err e) = (err (new (txt "embed chunks: " ++ message e)), [])
  with_vectors upsert pending bytes (ok vectors) =
      let batch = records_of pending vectors in
      let done = written (length pending) bytes batch (upsert batch) in
      if length vectors == length pending
      then done
      else (err (new (txt "embedding count mismatch")), [])

  with_pending :
      (List (VectorRecord E) → Option Err)
      → (TenantId → List Text → Result (List (List E)))
      → Result (List PendingChunk × ℕ)
      → Run
  unfolding with_vectors
  with_pending upsert embed (err e) = (err e, [])
  with_pending upsert embed (ok (pending, bytes)) =
      let embedded = with_vectors upsert pending bytes (embed t (map (λ p. p.chunk) pending)) in
      if is_empty pending then (ok (0, bytes), []) else embedded

  -- What is left to do where there is an embedder, or none.
  with_embedder :
      (List (VectorRecord E) → Option Err)
      → (ℕ → Text → Result Body)
      → Option (TenantId → List Text → Result (List (List E)))
      → Dict (Dict Any)
      → List Text
      → Run
  unfolding gather with_pending txt
  with_embedder upsert get none items keys = (err (new (txt "embedding provider unavailable")), [])
  with_embedder upsert get (some embed) items keys =
      with_pending upsert embed (gather get items 0 keys)

  with_collaborators :
      Option (List (VectorRecord E) → Option Err)
      → Option (ℕ → Text → Result Body)
      → Dict (Dict Any)
      → List Text
      → Run
  unfolding with_embedder
  with_collaborators none get items keys = (ok (0, 0), [])
  with_collaborators (some upsert) none items keys = (ok (0, 0), [])
  with_collaborators (some upsert) (some get) items keys =
      let started = with_embedder upsert get m.embedder items keys in
      if is_empty keys then (ok (0, 0), []) else started

  unfoldable pub index_payload_artifacts : Dict Any → Run
  unfolding value_of read_string_array local_items with_collaborators txt
  index_payload_artifacts payload =
      with_collaborators m.index m.object_store (local_items payload)
        (read_string_array (value_of (txt "objectKeys") payload))
