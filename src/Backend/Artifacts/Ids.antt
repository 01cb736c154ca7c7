-- ===== src/Backend/Artifacts/Ids.antt =====
-- backend/managers/ingestion.go: the ids of the records of one run are different, so that no record
-- replaces another one of its batch.
use fine_rag_core.Prelude.{
  ℕ, ◌+◌, ◌≡◌, ◌≢◌, ◌≤◌, refl, sym, ap, ◌∙◌, List, [], ◌∷◌, ◌++◌, map, length, is_empty, All,
  All-append, subst, Bool-cases, inl, inr, arith,
}
use fine_rag_core.Text.{Text, txt, trim_space}
use fine_rag_core.Result.{Result, ok, err}
use fine_rag_core.Dict.{Dict}
use fine_rag_core.Contracts.Tenant.{TenantId}
use fine_rag_core.Contracts.Job.{VectorRecord}
use fine_rag_core.Backend.Json.{Any, value_of, read_string_array}
use fine_rag_core.Backend.Objects.{
  Body, Indexer, PendingChunk, chunk_id, pending_chunk, pending_chunks, object_chunks, read_limited,
  local_items,
}
use fine_rag_core.Backend.Artifacts.{
  with_rest, with_bytes, with_object, gather, record_of, records_of, index_payload_artifacts,
}
use fine_rag_core.Backend.Artifacts.Shape.{Source, for_batches, index_payload_artifacts-Sourced}
use fine_rag_core.Backend.Artifacts.ChunkId.{Distinct, Distinct-append, chunk_id-injective}

module _ {E : Type 0} (m : Indexer E) (t : TenantId) (job_id checksum fallback : Text) where
  ids : List PendingChunk → List Text
  ids ps = map (λ p. p.record_id) ps

  -- The id of a chunk of the object `i`, from the place `j` on.
  WithinObject : ℕ → ℕ → PendingChunk → Type 0
  WithinObject i j p = (b : ℕ) × (j ≤ b) × (p.record_id ≡ chunk_id job_id i b)

  -- The id of a chunk of an object from `i` on.
  AfterObject : ℕ → Text → Type 0
  AfterObject i x = (a : ℕ) × (b : ℕ) × (i ≤ a) × (x ≡ chunk_id job_id a b)

  weaken :
      (i j : ℕ) (ps : List PendingChunk)
      → All (WithinObject i (j + 1)) ps
      → All (WithinObject i j) ps
  unfolding WithinObject
  weaken i j [] h = tt
  weaken i j (p ∷ ps) ((b, le, e), h) = ((b, omega arith, e), weaken i j ps h)

  module _ (i : ℕ) (make : ℕ → Text → PendingChunk)
      (named : (j : ℕ) (c : Text) → (make j c).record_id ≡ chunk_id job_id i j) where
    chunks-WithinObject :
        (j : ℕ) (cs : List Text)
        → All (WithinObject i j) (pending_chunks m t job_id checksum fallback make j cs)
    unfolding pending_chunks
    chunks-WithinObject j [] = tt
    chunks-WithinObject j (c ∷ cs) = (
      unfold WithinObject in (j, omega arith, named j c),
      weaken i j (pending_chunks m t job_id checksum fallback make (j + 1) cs)
          (chunks-WithinObject (j + 1) cs),
    )

    later :
        (j : ℕ) (c : Text) (ps : List PendingChunk)
        → All (WithinObject i (j + 1)) ps
        → All (λ y. (make j c).record_id ≢ y) (ids ps)
    unfolding ids WithinObject
    later j c [] h = tt
    later j c (p ∷ ps) ((b, le, e), h) = (
      λ same.
          let (_, place) = chunk_id-injective job_id i j i b (sym (named j c) ∙ (same ∙ e)) in
          omega arith,
      later j c ps h,
    )

    chunks-Distinct :
        (j : ℕ) (cs : List Text)
        → Distinct (ids (pending_chunks m t job_id checksum fallback make j cs))
    unfolding pending_chunks ids Distinct
    chunks-Distinct j [] = tt
    chunks-Distinct j (c ∷ cs) = (
      later j c (pending_chunks m t job_id checksum fallback make (j + 1) cs)
          (chunks-WithinObject (j + 1) cs),
      chunks-Distinct (j + 1) cs,
    )

  -- What is gathered from the object `i` on has different ids, which tell its object.
  Told : ℕ → Result (List PendingChunk × ℕ) → Type 0
  Told i (err e) = Unit
  Told i (ok (ps, n)) = Distinct (ids ps) × All (AfterObject i) (ids ps)

  ids-append : (ps qs : List PendingChunk) → ids (ps ++ qs) ≡ ids ps ++ ids qs
  unfolding ids
  ids-append [] qs = refl
  ids-append (p ∷ ps) qs = ap (λ xs. p.record_id ∷ xs) (ids-append ps qs)

  AfterObject-le :
      (i k : ℕ) (xs : List Text) → i ≤ k → All (AfterObject k) xs → All (AfterObject i) xs
  unfolding AfterObject
  AfterObject-le i k [] le h = tt
  AfterObject-le i k (x ∷ xs) le ((a, b, from, e), h) =
      ((a, b, omega arith, e), AfterObject-le i k xs le h)

  Within-After :
      (i : ℕ) (ps : List PendingChunk) → All (WithinObject i 0) ps → All (AfterObject i) (ids ps)
  unfolding ids WithinObject AfterObject
  Within-After i [] h = tt
  Within-After i (p ∷ ps) ((b, le, e), h) = ((i, b, omega arith, e), Within-After i ps h)

  -- The ids of one object are not those of a later one.
  other_object :
      (i b : ℕ) (x : Text) (ys : List Text)
      → x ≡ chunk_id job_id i b
      → All (AfterObject (i + 1)) ys
      → All (λ y. x ≢ y) ys
  unfolding AfterObject
  other_object i b x [] e h = tt
  other_object i b x (y ∷ ys) e ((a, c, le, named), h) = (
    λ same.
        let (object, _) = chunk_id-injective job_id i b a c (sym e ∙ (same ∙ named)) in omega arith,
    other_object i b x ys e h,
  )

  other_objects :
      (i : ℕ) (ps : List PendingChunk) (ys : List Text)
      → All (WithinObject i 0) ps
      → All (AfterObject (i + 1)) ys
      → All (λ x. All (λ y. x ≢ y) ys) (ids ps)
  unfolding ids WithinObject
  other_objects i [] ys h hy = tt
  other_objects i (p ∷ ps) ys ((b, le, e), h) hy =
      (other_object i b p.record_id ys e hy, other_objects i ps ys h hy)

  with_rest-Told :
      (i : ℕ) (chunks : List PendingChunk) (n : ℕ) (rest : Result (List PendingChunk × ℕ))
      → Distinct (ids chunks)
      → All (WithinObject i 0) chunks
      → Told (i + 1) rest
      → Told i (with_rest m t job_id checksum fallback chunks n rest)
  unfolding with_rest Told
  with_rest-Told i chunks n (err e) d w h = tt
  with_rest-Told i chunks n (ok (ps, k)) d w (hd, ha) = rw (ids-append chunks ps) (
    Distinct-append (ids chunks) (ids ps) d hd (other_objects i chunks (ids ps) w ha),
    All-append (AfterObject i) (ids chunks) (ids ps) (Within-After i chunks w)
        (AfterObject-le i (i + 1) (ids ps) (omega arith) ha),
  )

  with_bytes-Told :
      (items : Dict (Dict Any)) (i : ℕ) (key : Text) (rest : Result (List PendingChunk × ℕ))
      (r : Result (List ℕ))
      → Told (i + 1) rest
      → Told i (with_bytes m t job_id checksum fallback items i key rest r)
  unfolding with_bytes
  with_bytes-Told items i key rest (err e) h = unfold Told in tt
  with_bytes-Told items i key rest (ok bytes) h =
      with_rest-Told i (object_chunks m t job_id checksum fallback items i key bytes) (length bytes)
        rest (unfold object_chunks pending_chunk in chunks-Distinct i _ (λ j c. refl) 0 _)
        (unfold object_chunks pending_chunk in chunks-WithinObject i _ (λ j c. refl) 0 _) h

  with_object-Told :
      (items : Dict (Dict Any)) (i : ℕ) (key : Text) (rest : Result (List PendingChunk × ℕ))
      (r : Result Body)
      → Told (i + 1) rest
      → Told i (with_object m t job_id checksum fallback items i key rest r)
  unfolding with_object
  with_object-Told items i key rest (err e) h = unfold Told in tt
  with_object-Told items i key rest (ok body) h =
      with_bytes-Told items i key rest (read_limited m.max_object_bytes body) h

  Told-le : (i : ℕ) (r : Result (List PendingChunk × ℕ)) → Told (i + 1) r → Told i r
  unfolding Told
  Told-le i (err e) h = tt
  Told-le i (ok (ps, n)) (d, h) = (d, AfterObject-le i (i + 1) (ids ps) (omega arith) h)

  gather-Told :
      (get : ℕ → Text → Result Body) (items : Dict (Dict Any)) (i : ℕ) (keys : List Text)
      → Told i (gather m t job_id checksum fallback get items i keys)
  unfolding gather
  gather-Told get items i [] = unfold Told ids Distinct in (tt, tt)
  gather-Told get items i (object_key ∷ keys) =
      let key = trim_space object_key in
      let rest = gather m t job_id checksum fallback get items (i + 1) keys in
      let h = gather-Told get items (i + 1) keys in
      elim (Bool-cases (is_empty key)) [
        | inl e ↦ rw e (Told-le i rest h)
        | inr e ↦ rw e (with_object-Told items i key rest (get i key) h)
      ]

  ids-records_of :
      (ps : List PendingChunk) (vs : List (List E))
      → length vs ≡ length ps
      → map (λ r. r.record_id) (records_of m t job_id checksum fallback ps vs) ≡ ids ps
  unfolding records_of record_of ids
  ids-records_of [] vs h = refl
  ids-records_of (p ∷ ps) [] h = absurd (omega arith)
  ids-records_of (p ∷ ps) (v ∷ vs) h =
      ap (λ xs. p.record_id ∷ xs) (ids-records_of ps vs (omega arith))

  Source-Distinct :
      (items : Dict (Dict Any)) (keys : List Text) (batch : List (VectorRecord E))
      → Source m t job_id checksum fallback items keys batch
      → Distinct (map (λ r. r.record_id) batch)
  unfolding Told
  Source-Distinct items keys batch s =
      let (d, _) = subst (Told 0) s.gathered (gather-Told s.get items 0 keys) in
      rw (s.same, ids-records_of s.pending s.vectors s.one_each) d

  -- No two records of a batch that is handed to the index have the same id.
  pub index_payload_artifacts-Distinct :
      (payload : Dict Any)
      → All
          (λ batch. Distinct (map (λ r. r.record_id) batch))
          (index_payload_artifacts m t job_id checksum fallback payload).1
  index_payload_artifacts-Distinct payload =
      let keys = read_string_array (value_of (txt "objectKeys") payload) in
      for_batches m t job_id checksum fallback (λ batch. Distinct (map (λ r. r.record_id) batch))
        (local_items payload) keys _ (Source-Distinct (local_items payload) keys)
        (index_payload_artifacts-Sourced m t job_id checksum fallback payload)
