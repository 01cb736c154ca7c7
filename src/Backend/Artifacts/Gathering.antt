-- ===== src/Backend/Artifacts/Gathering.antt =====
-- backend/managers/ingestion.go: what holds of all chunks that `indexPayloadArtifacts` gathers, and of
-- all records that it hands to the index.
use fine_rag_core.Prelude.{
  ℕ, ◌+◌, ◌≡◌, refl, Option, none, some, List, [], ◌∷◌, map, length, is_empty, ◌==◌, All,
  All-append, Bool-cases, inl, inr,
}
use fine_rag_core.Text.{Text, txt, trim_space}
use fine_rag_core.Result.{Result, ok, err}
use fine_rag_core.Dict.{Dict}
use fine_rag_core.Contracts.Tenant.{TenantId}
use fine_rag_core.Contracts.Job.{VectorRecord}
use fine_rag_core.Backend.Json.{Any, value_of, read_string_array}
use fine_rag_core.Backend.Objects.{
  Body, Indexer, PendingChunk, pending_chunks, object_chunks, read_limited, local_items,
}
use fine_rag_core.Backend.Artifacts.{
  with_rest, with_bytes, with_object, gather, record_of, records_of, Run, written, with_vectors,
  with_pending, with_embedder, with_collaborators, index_payload_artifacts,
}

module _ {E : Type 0} (m : Indexer E) (t : TenantId) (job_id checksum fallback : Text) where
  pub pending_chunks-All :
      (P : PendingChunk → Type 0) (Q : Text → Type 0) (make : ℕ → Text → PendingChunk) (j : ℕ)
      (cs : List Text)
      → ((j : ℕ) (c : Text) → Q c → P (make j c))
      → All Q cs
      → All P (pending_chunks m t job_id checksum fallback make j cs)
  unfolding pending_chunks
  pending_chunks-All P Q make j [] each h = tt
  pending_chunks-All P Q make j (c ∷ cs) each (hc, h) =
      (each j c hc, pending_chunks-All P Q make (j + 1) cs each h)

  -- What holds of the chunks of every object holds of all that are gathered.
  abbrev Gathered : (PendingChunk → Type 0) → Result (List PendingChunk × ℕ) → Type 0
  Gathered P (err e) = Unit
  Gathered P (ok (ps, n)) = All P ps

  module _ (P : PendingChunk → Type 0)
      (every : (items : Dict (Dict Any)) (i : ℕ) (key : Text) (bytes : List ℕ)
        → All P (object_chunks m t job_id checksum fallback items i key bytes)) where
    with_rest-All :
        (chunks : List PendingChunk) (n : ℕ) (rest : Result (List PendingChunk × ℕ))
        → All P chunks
        → Gathered P rest
        → Gathered P (with_rest m t job_id checksum fallback chunks n rest)
    unfolding with_rest
    with_rest-All chunks n (err e) h g = tt
    with_rest-All chunks n (ok (ps, k)) h g = All-append P chunks ps h g

    with_bytes-All :
        (items : Dict (Dict Any)) (i : ℕ) (key : Text) (rest : Result (List PendingChunk × ℕ))
        (r : Result (List ℕ))
        → Gathered P rest
        → Gathered P (with_bytes m t job_id checksum fallback items i key rest r)
    unfolding with_bytes
    with_bytes-All items i key rest (err e) g = tt
    with_bytes-All items i key rest (ok bytes) g =
        with_rest-All (object_chunks m t job_id checksum fallback items i key bytes) (length bytes)
          rest (every items i key bytes) g

    with_object-All :
        (items : Dict (Dict Any)) (i : ℕ) (key : Text) (rest : Result (List PendingChunk × ℕ))
        (r : Result Body)
        → Gathered P rest
        → Gathered P (with_object m t job_id checksum fallback items i key rest r)
    unfolding with_object
    with_object-All items i key rest (err e) g = tt
    with_object-All items i key rest (ok body) g =
        with_bytes-All items i key rest (read_limited m.max_object_bytes body) g

    gather-All :
        (get : ℕ → Text → Result Body) (items : Dict (Dict Any)) (i : ℕ) (keys : List Text)
        → Gathered P (gather m t job_id checksum fallback get items i keys)
    unfolding gather
    gather-All get items i [] = tt
    gather-All get items i (object_key ∷ keys) =
        let key = trim_space object_key in
        let rest = gather m t job_id checksum fallback get items (i + 1) keys in
        let g = gather-All get items (i + 1) keys in
        elim (Bool-cases (is_empty key)) [
          | inl e ↦ rw e g
          | inr e ↦ rw e (with_object-All items i key rest (get i key) g)
        ]

    module _ (V : List E → Type 0) (R : VectorRecord E → Type 0)
        (each : (p : PendingChunk) (v : List E)
          → P p
          → V v
          → R (record_of m t job_id checksum fallback p v))
        (embeds : (embed : TenantId → List Text → Result (List (List E)))
          → m.embedder ≡ some embed
          → (texts : List Text) (vs : List (List E)) → embed t texts ≡ ok vs
          → All V vs) where
      records_of-All :
          (ps : List PendingChunk) (vs : List (List E))
          → All P ps
          → All V vs
          → All R (records_of m t job_id checksum fallback ps vs)
      unfolding records_of
      records_of-All [] vs hp hv = tt
      records_of-All (p ∷ ps) [] hp hv = tt
      records_of-All (p ∷ ps) (v ∷ vs) (hp, hps) (hv, hvs) =
          (each p v hp hv, records_of-All ps vs hps hvs)

      abbrev Batches : Run m t job_id checksum fallback → Type 0
      Batches (r, batches) = All (All R) batches

      written-All :
          (n bytes : ℕ) (batch : List (VectorRecord E)) (e : Option _)
          → All R batch
          → Batches (written m t job_id checksum fallback n bytes batch e)
      unfolding written
      written-All n bytes batch none h = (h, tt)
      written-All n bytes batch (some e) h = (h, tt)

      with_vectors-All :
          (upsert : List (VectorRecord E) → Option _) (ps : List PendingChunk) (bytes : ℕ)
          (r : Result (List (List E)))
          → All P ps
          → ((vs : List (List E)) → r ≡ ok vs → All V vs)
          → Batches (with_vectors m t job_id checksum fallback upsert ps bytes r)
      unfolding with_vectors
      with_vectors-All upsert ps bytes (err e) h g = tt
      with_vectors-All upsert ps bytes (ok vs) h g =
          let batch = records_of m t job_id checksum fallback ps vs in
          elim (Bool-cases (length vs == length ps)) [
            | inl e ↦ rw e (
                written-All (length ps) bytes batch (upsert batch)
                  (records_of-All ps vs h (g vs refl)))
            | inr e ↦ rw e tt
          ]

      with_pending-All :
          (upsert : List (VectorRecord E) → Option _)
          (embed : TenantId → List Text → Result (List (List E)))
          (r : Result (List PendingChunk × ℕ))
          → m.embedder ≡ some embed
          → Gathered P r
          → Batches (with_pending m t job_id checksum fallback upsert embed r)
      unfolding with_pending
      with_pending-All upsert embed (err e) he h = tt
      with_pending-All upsert embed (ok (ps, bytes)) he h =
          let texts = map (λ p. p.chunk) ps in
          elim (Bool-cases (is_empty ps)) [
            | inl e ↦ rw e tt
            | inr e ↦
                rw e (with_vectors-All upsert ps bytes (embed t texts) h (embeds embed he texts))
          ]

      with_embedder-All :
          (upsert : List (VectorRecord E) → Option _) (get : ℕ → Text → Result Body)
          (embedder : Option (TenantId → List Text → Result (List (List E))))
          (items : Dict (Dict Any)) (keys : List Text)
          → m.embedder ≡ embedder
          → Batches (with_embedder m t job_id checksum fallback upsert get embedder items keys)
      unfolding with_embedder
      with_embedder-All upsert get none items keys he = tt
      with_embedder-All upsert get (some embed) items keys he =
          with_pending-All upsert embed _ he (gather-All get items 0 keys)

      with_collaborators-All :
          (index : Option (List (VectorRecord E) → Option _))
          (store : Option (ℕ → Text → Result Body)) (items : Dict (Dict Any)) (keys : List Text)
          → Batches (with_collaborators m t job_id checksum fallback index store items keys)
      unfolding with_collaborators
      with_collaborators-All none store items keys = tt
      with_collaborators-All (some upsert) none items keys = tt
      with_collaborators-All (some upsert) (some get) items keys =
          elim (Bool-cases (is_empty keys)) [
            | inl e ↦ rw e tt
            | inr e ↦ rw e (with_embedder-All upsert get m.embedder items keys refl)
          ]

      -- What holds of each chunk of an object and of each vector of the embedder holds, as `R`, of
      -- every record that the index gets.
      pub index_payload_artifacts-All :
          (payload : Dict Any)
          → Batches (index_payload_artifacts m t job_id checksum fallback payload)
      unfolding index_payload_artifacts
      index_payload_artifacts-All payload =
          with_collaborators-All m.index m.object_store (local_items payload)
            (read_string_array (value_of (txt "objectKeys") payload))
