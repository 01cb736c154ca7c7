-- ===== src/Backend/Jobs/Outcome.antt =====
-- backend/managers/ingestion.go: what a run in the background leaves in the table.
use fine_rag_core.Prelude.{
  ℕ, ◌≡◌, refl, ap, Bool, true, not, none, List, [], ◌∷◌, keep, All, ◌⊎◌, inl, inr, Bool-cases,
}
use fine_rag_core.Text.{txt, str_eq}
use fine_rag_core.Result.{Result, ok, err}
use fine_rag_core.Contracts.Tenant.{Time}
use fine_rag_core.Contracts.Job.{VectorRecord}
use fine_rag_core.Backend.Json.{infer_total_files}
use fine_rag_core.Backend.Objects.{Indexer}
use fine_rag_core.Backend.Artifacts.{Run, index_payload_artifacts}
use fine_rag_core.Backend.Artifacts.Counts.{Counted, record_count, index_payload_artifacts-Counted}
use fine_rag_core.Backend.Jobs.{
  JobRow, Background, update_where, settle, end_job, process_ingestion_background,
}

-- Indexed, with the number of the records that were written, or failed with all its files.
abbrev pub Ended : {E : Type 0} → Background → List (List (VectorRecord E)) → JobRow → Type 0
Ended b batches row =
    ((row.status ≡ txt "indexed")
      × (row.chunk_count ≡ record_count batches)
      × (row.successful_files ≡ infer_total_files b.payload))
    ⊎ ((row.status ≡ txt "failed")
        × (row.chunk_count ≡ 0)
        × (row.failed_files ≡ infer_total_files b.payload))

-- What the rows of the job are, and that the other rows are as they were.
abbrev pub EndedIn :
    {E : Type 0} → Background → List JobRow → List (List (VectorRecord E)) × List JobRow → Type 0
EndedIn b before (batches, after) =
    All (λ row. str_eq row.job_id b.job_id ≡ true → Ended b batches row) after
    × (keep (λ row. not (str_eq row.job_id b.job_id)) after
        ≡ keep (λ row. not (str_eq row.job_id b.job_id)) before)

module _ (p : JobRow → Bool) (f : JobRow → JobRow) (same : (row : JobRow) → p (f row) ≡ p row) where
  update_where-others :
      (rows : List JobRow)
      → keep (λ row. not (p row)) (update_where p f rows) ≡ keep (λ row. not (p row)) rows
  unfolding update_where
  update_where-others [] = refl
  update_where-others (row ∷ rows) = elim (Bool-cases (p row)) [
    | inl e ↦ rw (e, same row, e) (update_where-others rows)
    | inr e ↦ rw (e, e) (ap (λ rs. row ∷ rs) (update_where-others rows))
  ]

  update_where-changed :
      (Q : JobRow → Type 0)
      → ((row : JobRow) → Q (f row))
      → (rows : List JobRow) → All (λ row. p row ≡ true → Q row) (update_where p f rows)
  unfolding update_where
  update_where-changed Q changed [] = tt
  update_where-changed Q changed (row ∷ rows) = elim (Bool-cases (p row)) [
    | inl e ↦ rw e (λ h. changed row, update_where-changed Q changed rows)
    | inr e ↦ rw e (λ h. cc (h, e), update_where-changed Q changed rows)
  ]

settle-id :
    (b : Background) (result : Result (ℕ × ℕ)) (n : ℕ) (now : Time) (row : JobRow)
    → str_eq (settle result n now row).job_id b.job_id ≡ str_eq row.job_id b.job_id
unfolding settle
settle-id b (err e) n now row = refl
settle-id b (ok (chunks, bytes)) n now row = refl

module _ {E : Type 0} (m : Indexer E) (now : Time) (b : Background) where
  counted :
      (k : ℕ) (run : Run m b.tenant_id b.job_id b.checksum b.source_uri) (chunks bytes : ℕ)
      → Counted m b.tenant_id b.job_id b.checksum b.source_uri k run
      → run.0 ≡ ok (chunks, bytes)
      → chunks ≡ record_count run.1
  counted k (err e, batches) chunks bytes c h = cc
  counted k (ok (n, read), batches) chunks bytes (same, le) h = cc

  settle-Ended :
      (result : Result (ℕ × ℕ)) (batches : List (List (VectorRecord E))) (row : JobRow)
      → ((chunks bytes : ℕ) → result ≡ ok (chunks, bytes) → chunks ≡ record_count batches)
      → Ended b batches (settle result (infer_total_files b.payload) now row)
  unfolding settle
  settle-Ended (err e) batches row h = inr (refl, refl, refl)
  settle-Ended (ok (chunks, bytes)) batches row h = inl (refl, h chunks bytes refl, refl)

  -- A run whose update the database carries out leaves every row of its job either indexed, with the
  -- number of the records that were handed to the index and all files successful, or failed, with no
  -- chunks and all files failed; the rows of other jobs stay as they were, in their order.
  pub process_ingestion_background-EndedIn :
      (table : List JobRow) → EndedIn b table (process_ingestion_background m none now b table)
  unfolding process_ingestion_background end_job
  process_ingestion_background-EndedIn table =
      let run = index_payload_artifacts m b.tenant_id b.job_id b.checksum b.source_uri b.payload in
      let n = infer_total_files b.payload in
      let p = λ (row : JobRow). str_eq row.job_id b.job_id in
      (
        update_where-changed p (settle run.0 n now) (settle-id b run.0 n now) (Ended b run.1)
            (λ row. settle-Ended run.0 run.1 row (λ chunks bytes e.
              counted _ run chunks bytes
                (index_payload_artifacts-Counted m b.tenant_id b.job_id b.checksum b.source_uri
                  b.payload)
                e))
            table,
        update_where-others p (settle run.0 n now) (settle-id b run.0 n now) table,
      )
