-- ===== src/Backend/Artifacts/Batch.antt =====
-- backend/managers/ingestion.go: whose the records are that `indexPayloadArtifacts` hands to the
-- index, and that the index finds them valid.
use fine_rag_core.Prelude.{
  ℕ, ◌≡◌, refl, pos, false, some, List, [], ◌∷◌, ◌++◌, is_empty, All, if◌then◌else◌,
}
use fine_rag_core.Text.{Text, txt, is_blank}
use fine_rag_core.Result.{Result, ok}
use fine_rag_core.Dict.{Dict}
use fine_rag_core.Contracts.Tenant.{TenantId, validate_tenant_id, is_zero}
use fine_rag_core.Contracts.Job.{VectorRecord, validate_vector_record}
use fine_rag_core.Backend.Chunks.WindowWords.{chunk_text-is_blank}
use fine_rag_core.Backend.Json.{Any}
use fine_rag_core.Backend.Objects.{Indexer, PendingChunk, pending_chunk, object_chunks, chunk_id}
use fine_rag_core.Backend.Artifacts.{record_of, index_payload_artifacts}
use fine_rag_core.Backend.Artifacts.Gathering.{pending_chunks-All, index_payload_artifacts-All}

All-unit : {A : Type 0} (xs : List A) → All (λ x. Unit {0}) xs
All-unit [] = tt
All-unit (x ∷ xs) = (tt, All-unit xs)

module _ {E : Type 0} (m : Indexer E) (t : TenantId) (job_id checksum fallback : Text) where
  -- The tenant, the job and the checksum that a record carries are those of the run.
  abbrev pub Owned : VectorRecord E → Type 0
  Owned r =
      (r.tenant_id ≡ t) × (r.job_id ≡ job_id) × (r.checksum ≡ checksum) × (r.retry_count ≡ pos 0)

  PendingOwned : PendingChunk → Type 0
  PendingOwned p =
      (p.tenant_id ≡ t) × (p.job_id ≡ job_id) × (p.checksum ≡ checksum) × (p.retry_count ≡ pos 0)

  object_chunks-Owned :
      (items : Dict (Dict Any)) (i : ℕ) (key : Text) (bytes : List ℕ)
      → All PendingOwned (object_chunks m t job_id checksum fallback items i key bytes)
  unfolding object_chunks PendingOwned pending_chunk
  object_chunks-Owned items i key bytes =
      pending_chunks-All m t job_id checksum fallback PendingOwned (λ c. Unit {0}) _ 0 _
        (λ j c h. (refl, refl, refl, refl)) (All-unit _)

  -- Whatever the objects, the parser and the embedder give, each record that is handed to the index
  -- is the tenant's and the job's, has the job's checksum and no retries.
  pub index_payload_artifacts-Owned :
      (payload : Dict Any)
      → All (All Owned) (index_payload_artifacts m t job_id checksum fallback payload).1
  unfolding PendingOwned record_of
  index_payload_artifacts-Owned payload =
      index_payload_artifacts-All m t job_id checksum fallback PendingOwned object_chunks-Owned
        (λ v. Unit {0}) Owned (λ p v h g. h) (λ embed he texts vs e. All-unit vs) payload

  -- What the index asks of a record, as far as it does not come from the embedder.
  Complete : PendingChunk → Type 0
  Complete p =
      (is_blank p.chunk ≡ false)
      × (is_empty p.source_uri ≡ false)
      × (is_empty p.record_id ≡ false)
      × (p.indexed_at ≡ m.now)
      × PendingOwned p

  source-nonempty :
      (given key : Text)
      → is_empty
          (if is_empty given then txt "s3://" ++ (m.upload_bucket ++ (b'/' ∷ key)) else given)
        ≡ false
  unfolding txt
  source-nonempty [] key = refl
  source-nonempty (c ∷ s) key = refl

  object_chunks-Complete :
      (items : Dict (Dict Any)) (i : ℕ) (key : Text) (bytes : List ℕ)
      → All Complete (object_chunks m t job_id checksum fallback items i key bytes)
  unfolding object_chunks Complete PendingOwned pending_chunk chunk_id txt
  object_chunks-Complete items i key bytes =
      pending_chunks-All m t job_id checksum fallback Complete (λ c. is_blank c ≡ false) _ 0 _
        (λ j c h. (h, source-nonempty fallback key, refl, refl, (refl, refl, refl, refl)))
        (chunk_text-is_blank _ m.chunk_size_chars m.chunk_overlap_words)

  record-valid :
      (p : PendingChunk) (v : List E)
      → validate_tenant_id t ≡ ok tt
      → is_empty job_id ≡ false
      → is_empty checksum ≡ false
      → is_zero m.now ≡ false
      → Complete p
      → is_empty v ≡ false
      → validate_vector_record (record_of m t job_id checksum fallback p v) ≡ ok tt
  unfolding Complete PendingOwned record_of validate_vector_record
  record-valid p v ht hj hc hn (blank, source, id, at, (owner, job, sum, retries)) hv =
      rw (owner, job, sum, retries, at, ht, blank, source, id, hj, hc, hn, hv) refl

  -- Where the tenant is valid, the job and its checksum have names, the clock has started and the
  -- embedder gives no empty vector, each record that is handed to the index passes its validation.
  pub index_payload_artifacts-valid :
      (payload : Dict Any)
      → validate_tenant_id t ≡ ok tt
      → is_empty job_id ≡ false
      → is_empty checksum ≡ false
      → is_zero m.now ≡ false
      → ((embed : TenantId → List Text → Result (List (List E)))
          → m.embedder ≡ some embed
          → (texts : List Text) (vs : List (List E)) → embed t texts ≡ ok vs
          → All (λ v. is_empty v ≡ false) vs)
      → All
          (All (λ r. validate_vector_record r ≡ ok tt))
          (index_payload_artifacts m t job_id checksum fallback payload).1
  index_payload_artifacts-valid payload ht hj hc hn embeds =
      index_payload_artifacts-All m t job_id checksum fallback Complete object_chunks-Complete
        (λ v. is_empty v ≡ false) (λ r. validate_vector_record r ≡ ok tt)
        (λ p v h g. record-valid p v ht hj hc hn h g) embeds payload
