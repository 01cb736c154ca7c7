-- ===== src/Backend/Artifacts/Counts.antt =====
-- backend/managers/ingestion.go: what `indexPayloadArtifacts` counts, and which vector each record
-- gets.
use fine_rag_core.Prelude.{
  ℕ, suc, ◌+◌, ◌*◌, ◌≡◌, ◌≤◌, refl, ℤ, pos, negsuc, Option, none, some, List, [], ◌∷◌, map, length,
  length-take, is_empty, ◌==◌, leb, Bool-cases, inl, inr, arith,
}
use fine_rag_core.Text.{Text, txt, trim_space}
use fine_rag_core.Result.{Err, Result, ok, err}
use fine_rag_core.Dict.{Dict}
use fine_rag_core.Contracts.Tenant.{TenantId}
use fine_rag_core.Contracts.Job.{VectorRecord}
use fine_rag_core.Backend.Chunks.{at_least_zero}
use fine_rag_core.Backend.Json.{Any, value_of, read_string_array}
use fine_rag_core.Backend.Objects.{
  Body, Indexer, PendingChunk, read_limited, local_items, object_chunks,
}
use fine_rag_core.Backend.Artifacts.{
  with_rest, with_bytes, with_object, gather, records_of, Run, written, with_vectors, with_pending,
  with_embedder, with_collaborators, index_payload_artifacts,
}

-- A read that succeeds gives no more bytes than the limit.
abbrev Within : ℕ → Result (List ℕ) → Type 0
Within n (err e) = Unit
Within n (ok bytes) = length bytes ≤ n

read_limited-Within : (n : ℤ) (b : Body) → Within (at_least_zero n) (read_limited n b)
unfolding read_limited
read_limited-Within (negsuc n) b = omega arith
read_limited-Within (pos n) b = elim (Bool-cases (leb n (length b.bytes))) [
  | inl e ↦ rw e (omega (arith, length-take n b.bytes))
  | inr e ↦ rw e (whole b.fault (ground arith))
]
  where
    whole :
        (fault : Option Err)
        → length b.bytes ≤ n
        → Within n (elim fault [ none ↦ ok b.bytes | some e ↦ err e ])
    whole none h = h
    whole (some e) h = tt

-- The records of all batches.
abbrev pub record_count : {E : Type 0} → List (List (VectorRecord E)) → ℕ
record_count [] = 0
record_count (b ∷ bs) = length b + record_count bs

module _ {E : Type 0} (m : Indexer E) (t : TenantId) (job_id checksum fallback : Text) where
  -- At most so many keys were read, each up to the limit.
  Read : ℕ → Result (List PendingChunk × ℕ) → Type 0
  Read keys (err e) = Unit
  Read keys (ok (ps, bytes)) = bytes ≤ keys * at_least_zero m.max_object_bytes

  with_rest-Read :
      (k : ℕ) (chunks : List PendingChunk) (n : ℕ) (rest : Result (List PendingChunk × ℕ))
      → n ≤ at_least_zero m.max_object_bytes
      → Read k rest
      → Read (suc k) (with_rest m t job_id checksum fallback chunks n rest)
  unfolding with_rest Read
  with_rest-Read k chunks n (err e) h r = tt
  with_rest-Read k chunks n (ok (ps, bytes)) h r = more (at_least_zero m.max_object_bytes) h r
    where
      more : (limit : ℕ) → n ≤ limit → bytes ≤ k * limit → n + bytes ≤ suc k * limit
      more limit h r = omega arith

  with_bytes-Read :
      (k : ℕ) (items : Dict (Dict Any)) (i : ℕ) (key : Text) (rest : Result (List PendingChunk × ℕ))
      (r : Result (List ℕ))
      → Within (at_least_zero m.max_object_bytes) r
      → Read k rest
      → Read (suc k) (with_bytes m t job_id checksum fallback items i key rest r)
  unfolding with_bytes
  with_bytes-Read k items i key rest (err e) h g = unfold Read in tt
  with_bytes-Read k items i key rest (ok bytes) h g =
      with_rest-Read k (object_chunks m t job_id checksum fallback items i key bytes) (length bytes)
        rest h g

  with_object-Read :
      (k : ℕ) (items : Dict (Dict Any)) (i : ℕ) (key : Text) (rest : Result (List PendingChunk × ℕ))
      (r : Result Body)
      → Read k rest
      → Read (suc k) (with_object m t job_id checksum fallback items i key rest r)
  unfolding with_object
  with_object-Read k items i key rest (err e) g = unfold Read in tt
  with_object-Read k items i key rest (ok body) g =
      with_bytes-Read k items i key rest (read_limited m.max_object_bytes body)
        (read_limited-Within m.max_object_bytes body) g

  Read-suc : (k : ℕ) (r : Result (List PendingChunk × ℕ)) → Read k r → Read (suc k) r
  unfolding Read
  Read-suc k (err e) h = tt
  Read-suc k (ok (ps, bytes)) h = more (at_least_zero m.max_object_bytes) h
    where
      more : (limit : ℕ) → bytes ≤ k * limit → bytes ≤ suc k * limit
      more limit h = omega arith

  gather-Read :
      (get : ℕ → Text → Result Body) (items : Dict (Dict Any)) (i : ℕ) (keys : List Text)
      → Read (length keys) (gather m t job_id checksum fallback get items i keys)
  unfolding gather
  gather-Read get items i [] = unfold Read in omega arith
  gather-Read get items i (object_key ∷ keys) =
      let key = trim_space object_key in
      let rest = gather m t job_id checksum fallback get items (i + 1) keys in
      let g = gather-Read get items (i + 1) keys in
      elim (Bool-cases (is_empty key)) [
        | inl e ↦ rw e (Read-suc (length keys) rest g)
        | inr e ↦ rw e (with_object-Read (length keys) items i key rest (get i key) g)
      ]

  -- A run that succeeds answers the number of the records it wrote, and a number of bytes that is at
  -- most so many times the limit of an object.
  abbrev pub Counted : ℕ → Run m t job_id checksum fallback → Type 0
  Counted keys (err e, batches) = Unit
  Counted keys (ok (n, bytes), batches) =
      (n ≡ record_count batches) × (bytes ≤ keys * at_least_zero m.max_object_bytes)

  length-records_of :
      (ps : List PendingChunk) (vs : List (List E))
      → length vs ≡ length ps
      → length (records_of m t job_id checksum fallback ps vs) ≡ length ps
  unfolding records_of
  length-records_of [] vs h = refl
  length-records_of (p ∷ ps) [] h = h
  length-records_of (p ∷ ps) (v ∷ vs) h = omega (arith, length-records_of ps vs (omega arith))

  written-Counted :
      (k n bytes : ℕ) (batch : List (VectorRecord E)) (e : Option Err)
      → length batch ≡ n
      → bytes ≤ k * at_least_zero m.max_object_bytes
      → Counted k (written m t job_id checksum fallback n bytes batch e)
  unfolding written
  written-Counted k n bytes batch none h le = (omega arith, le)
  written-Counted k n bytes batch (some e) h le = tt

  with_vectors-Counted :
      (k : ℕ) (upsert : List (VectorRecord E) → Option Err) (ps : List PendingChunk) (bytes : ℕ)
      (r : Result (List (List E)))
      → bytes ≤ k * at_least_zero m.max_object_bytes
      → Counted k (with_vectors m t job_id checksum fallback upsert ps bytes r)
  unfolding with_vectors
  with_vectors-Counted k upsert ps bytes (err e) le = tt
  with_vectors-Counted k upsert ps bytes (ok vs) le =
      let batch = records_of m t job_id checksum fallback ps vs in
      elim (Bool-cases (length vs == length ps)) [
        | inl e ↦ rw e (
            written-Counted k (length ps) bytes batch (upsert batch)
              (length-records_of ps vs (ground arith)) le)
        | inr e ↦ rw e tt
      ]

  with_pending-Counted :
      (k : ℕ) (upsert : List (VectorRecord E) → Option Err)
      (embed : TenantId → List Text → Result (List (List E))) (r : Result (List PendingChunk × ℕ))
      → Read k r
      → Counted k (with_pending m t job_id checksum fallback upsert embed r)
  unfolding with_pending Read
  with_pending-Counted k upsert embed (err e) h = tt
  with_pending-Counted k upsert embed (ok (ps, bytes)) h = elim (Bool-cases (is_empty ps)) [
    | inl e ↦ rw e (refl, h)
    | inr e ↦ rw e (with_vectors-Counted k upsert ps bytes (embed t (map (λ p. p.chunk) ps)) h)
  ]

  with_embedder-Counted :
      (upsert : List (VectorRecord E) → Option Err) (get : ℕ → Text → Result Body)
      (embedder : Option (TenantId → List Text → Result (List (List E)))) (items : Dict (Dict Any))
      (keys : List Text)
      → Counted
          (length keys)
          (with_embedder m t job_id checksum fallback upsert get embedder items keys)
  unfolding with_embedder
  with_embedder-Counted upsert get none items keys = tt
  with_embedder-Counted upsert get (some embed) items keys =
      with_pending-Counted (length keys) upsert embed _ (gather-Read get items 0 keys)

  with_collaborators-Counted :
      (index : Option (List (VectorRecord E) → Option Err))
      (store : Option (ℕ → Text → Result Body)) (items : Dict (Dict Any)) (keys : List Text)
      → Counted
          (length keys)
          (with_collaborators m t job_id checksum fallback index store items keys)
  unfolding with_collaborators
  with_collaborators-Counted none store items keys = (refl, omega arith)
  with_collaborators-Counted (some upsert) none items keys = (refl, omega arith)
  with_collaborators-Counted (some upsert) (some get) items keys =
      elim (Bool-cases (is_empty keys)) [
        | inl e ↦ rw e (refl, omega arith)
        | inr e ↦ rw e (with_embedder-Counted upsert get m.embedder items keys)
      ]

  -- A run that succeeds answers the number of the records that it handed to the index, and a number
  -- of bytes that is at most the limit of an object times the number of the object keys.
  pub index_payload_artifacts-Counted :
      (payload : Dict Any)
      → Counted
          (length (read_string_array (value_of (txt "objectKeys") payload)))
          (index_payload_artifacts m t job_id checksum fallback payload)
  unfolding index_payload_artifacts
  index_payload_artifacts-Counted payload =
      with_collaborators-Counted m.index m.object_store (local_items payload)
        (read_string_array (value_of (txt "objectKeys") payload))
