-- ===== src/Backend/Artifacts/Shape.antt =====
-- backend/managers/ingestion.go: `indexPayloadArtifacts` writes one batch or none, and each record of
-- it carries the vector of its own text.
use fine_rag_core.Prelude.{
  ℕ, ◌≡◌, refl, Option, none, some, List, [], ◌∷◌, map, length, is_empty, ◌==◌, inl, inr, All,
  Bool-cases, arith,
}
use fine_rag_core.Text.{Text, txt}
use fine_rag_core.Result.{Err, Result, ok, err}
use fine_rag_core.Dict.{Dict}
use fine_rag_core.Contracts.Tenant.{TenantId}
use fine_rag_core.Contracts.Job.{VectorRecord}
use fine_rag_core.Backend.Json.{Any, value_of, read_string_array}
use fine_rag_core.Backend.Objects.{Body, Indexer, PendingChunk, local_items}
use fine_rag_core.Backend.Artifacts.{
  gather, record_of, records_of, written, with_vectors, with_pending, with_embedder,
  with_collaborators, index_payload_artifacts,
}

module _ {E : Type 0} (m : Indexer E) (t : TenantId) (job_id checksum fallback : Text) where
  -- Where a batch comes from: what was gathered and the vectors for its texts, one for each.
  pub record Source (items : Dict (Dict Any)) (keys : List Text) (batch : List (VectorRecord E))
      : Type 0 where
    pub get : ℕ → Text → Result Body
    pub pending : List PendingChunk
    pub bytes : ℕ
    pub embed : TenantId → List Text → Result (List (List E))
    pub vectors : List (List E)
    pub gathered : gather m t job_id checksum fallback get items 0 keys ≡ ok (pending, bytes)
    pub embedder : m.embedder ≡ some embed
    pub embedded : embed t (map (λ p. p.chunk) pending) ≡ ok vectors
    pub one_each : length vectors ≡ length pending
    pub same : batch ≡ records_of m t job_id checksum fallback pending vectors

  abbrev pub Sourced : Dict (Dict Any) → List Text → List (List (VectorRecord E)) → Type 0
  Sourced items keys [] = Unit
  Sourced items keys (batch ∷ []) = Source items keys batch
  Sourced items keys (batch ∷ other ∷ more) = ⊥

  module _ (items : Dict (Dict Any)) (keys : List Text)
      (upsert : List (VectorRecord E) → Option Err) (get : ℕ → Text → Result Body)
      (embed : TenantId → List Text → Result (List (List E))) (he : m.embedder ≡ some embed) where
    written-Sourced :
        (n bytes : ℕ) (batch : List (VectorRecord E)) (e : Option Err)
        → Source items keys batch
        → Sourced items keys (written m t job_id checksum fallback n bytes batch e).1
    unfolding written
    written-Sourced n bytes batch none s = s
    written-Sourced n bytes batch (some e) s = s

    with_vectors-Sourced :
        (ps : List PendingChunk) (bytes : ℕ) (r : Result (List (List E)))
        → gather m t job_id checksum fallback get items 0 keys ≡ ok (ps, bytes)
        → embed t (map (λ p. p.chunk) ps) ≡ r
        → Sourced items keys (with_vectors m t job_id checksum fallback upsert ps bytes r).1
    unfolding with_vectors
    with_vectors-Sourced ps bytes (err e) hg hr = tt
    with_vectors-Sourced ps bytes (ok vs) hg hr =
        let batch = records_of m t job_id checksum fallback ps vs in
        elim (Bool-cases (length vs == length ps)) [
          | inl e ↦ rw e (
              written-Sourced (length ps) bytes batch (upsert batch) (record {
                get = get;
                pending = ps;
                bytes = bytes;
                embed = embed;
                vectors = vs;
                gathered = hg;
                embedder = he;
                embedded = hr;
                one_each = ground arith;
                same = refl;
              }))
          | inr e ↦ rw e tt
        ]

    with_pending-Sourced :
        (r : Result (List PendingChunk × ℕ))
        → gather m t job_id checksum fallback get items 0 keys ≡ r
        → Sourced items keys (with_pending m t job_id checksum fallback upsert embed r).1
    unfolding with_pending
    with_pending-Sourced (err e) h = tt
    with_pending-Sourced (ok (ps, bytes)) h = elim (Bool-cases (is_empty ps)) [
      | inl e ↦ rw e tt
      | inr e ↦ rw e (with_vectors-Sourced ps bytes (embed t (map (λ p. p.chunk) ps)) h refl)
    ]

  with_embedder-Sourced :
      (items : Dict (Dict Any)) (keys : List Text) (upsert : List (VectorRecord E) → Option Err)
      (get : ℕ → Text → Result Body)
      (embedder : Option (TenantId → List Text → Result (List (List E))))
      → m.embedder ≡ embedder
      → Sourced items keys
          (with_embedder m t job_id checksum fallback upsert get embedder items keys).1
  unfolding with_embedder
  with_embedder-Sourced items keys upsert get none he = tt
  with_embedder-Sourced items keys upsert get (some embed) he =
      with_pending-Sourced items keys upsert get embed he _ refl

  with_collaborators-Sourced :
      (items : Dict (Dict Any)) (keys : List Text)
      (index : Option (List (VectorRecord E) → Option Err))
      (store : Option (ℕ → Text → Result Body))
      → Sourced items keys
          (with_collaborators m t job_id checksum fallback index store items keys).1
  unfolding with_collaborators
  with_collaborators-Sourced items keys none store = tt
  with_collaborators-Sourced items keys (some upsert) none = tt
  with_collaborators-Sourced items keys (some upsert) (some get) =
      elim (Bool-cases (is_empty keys)) [
        | inl e ↦ rw e tt
        | inr e ↦ rw e (with_embedder-Sourced items keys upsert get m.embedder refl)
      ]

  pub index_payload_artifacts-Sourced :
      (payload : Dict Any)
      → Sourced
          (local_items payload)
          (read_string_array (value_of (txt "objectKeys") payload))
          (index_payload_artifacts m t job_id checksum fallback payload).1
  unfolding index_payload_artifacts
  index_payload_artifacts-Sourced payload =
      with_collaborators-Sourced (local_items payload)
        (read_string_array (value_of (txt "objectKeys") payload)) m.index m.object_store

  -- A property of every batch that follows from where the batch comes from.
  pub for_batches :
      (P : List (VectorRecord E) → Type 0) (items : Dict (Dict Any)) (keys : List Text)
      (batches : List (List (VectorRecord E)))
      → ((batch : List (VectorRecord E)) → Source items keys batch → P batch)
      → Sourced items keys batches
      → All P batches
  for_batches P items keys [] each s = tt
  for_batches P items keys (batch ∷ []) each s = (each batch s, tt)
  for_batches P items keys (batch ∷ other ∷ more) each s = absurd s

  texts_of_records :
      (ps : List PendingChunk) (vs : List (List E))
      → length vs ≡ length ps
      → map (λ r. r.chunk_text) (records_of m t job_id checksum fallback ps vs)
        ≡ map (λ p. p.chunk) ps
  unfolding records_of record_of
  texts_of_records [] vs h = refl
  texts_of_records (p ∷ ps) [] h = absurd (omega arith)
  texts_of_records (p ∷ ps) (v ∷ vs) h = rw (texts_of_records ps vs (omega arith)) refl

  vectors_of_records :
      (ps : List PendingChunk) (vs : List (List E))
      → length vs ≡ length ps
      → map (λ r. r.embedding) (records_of m t job_id checksum fallback ps vs) ≡ vs
  unfolding records_of record_of
  vectors_of_records [] [] h = refl
  vectors_of_records [] (v ∷ vs) h = absurd (omega arith)
  vectors_of_records (p ∷ ps) [] h = refl
  vectors_of_records (p ∷ ps) (v ∷ vs) h = rw (vectors_of_records ps vs (omega arith)) refl

  -- The embedder's answer for the texts of a batch is the list of its vectors.
  abbrev pub Aligned : List (VectorRecord E) → Type 0
  Aligned batch =
      (embed : TenantId → List Text → Result (List (List E))) × (m.embedder ≡ some embed)
      × (embed t (map (λ r. r.chunk_text) batch) ≡ ok (map (λ r. r.embedding) batch))

  Source-Aligned :
      (items : Dict (Dict Any)) (keys : List Text) (batch : List (VectorRecord E))
      → Source items keys batch
      → Aligned batch
  Source-Aligned items keys batch s = rw s.same (
    s.embed,
    s.embedder,
    rw
        (
          texts_of_records s.pending s.vectors s.one_each,
          vectors_of_records s.pending s.vectors s.one_each,
        )
        s.embedded,
  )

  -- Each batch that is handed to the index has, in the order of its records, exactly the vectors that
  -- the embedder gives for the texts of its records, with the tenant's name.
  pub index_payload_artifacts-Aligned :
      (payload : Dict Any)
      → All Aligned (index_payload_artifacts m t job_id checksum fallback payload).1
  index_payload_artifacts-Aligned payload =
      for_batches Aligned (local_items payload)
        (read_string_array (value_of (txt "objectKeys") payload)) _
        (Source-Aligned (local_items payload)
          (read_string_array (value_of (txt "objectKeys") payload)))
        (index_payload_artifacts-Sourced payload)
