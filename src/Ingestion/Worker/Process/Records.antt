-- ===== src/Ingestion/Worker/Process/Records.antt =====
-- internal/services/ingestion/service.go: the records that the worker builds from the chunks.
use fine_rag_core.Prelude.{
  ℕ, ◌+◌, ◌≡◌, refl, sym, subst, ap, List, [], ◌∷◌, map, All, length, arith,
}
use fine_rag_core.Text.{Text}
use fine_rag_core.Result.{Result, ok, err}
use fine_rag_core.Contracts.Tenant.{Time}
use fine_rag_core.Contracts.Job.{IngestionJob, QueueMessage, VectorRecord, validate_vector_record}
use fine_rag_core.Ingestion.Worker.{Worker}
use fine_rag_core.Ingestion.Worker.Process.{add_record, vector_record, build_records}

-- The record is one of this job.
abbrev pub OfJob : {E : Type 0} → IngestionJob → VectorRecord E → Type 0
OfJob j r =
    (r.tenant_id ≡ j.tenant_id)
    × (r.job_id ≡ j.job_id)
    × (r.object_key ≡ j.source_uri)
    × (r.checksum ≡ j.checksum)

module _ {E : Type 0} (w : Worker E) where
  add_record-ok :
      (v : Result (Unit {0})) (r : VectorRecord E) (rest : Result (List (VectorRecord E)))
      (records : List (VectorRecord E))
      → add_record w v r rest ≡ ok records
      → (qs : List (VectorRecord E)) × (records ≡ r ∷ qs) × (rest ≡ ok qs) × (v ≡ ok tt)
  unfolding add_record
  add_record-ok (err e) r rest records h = cc
  add_record-ok (ok tt) r (err e) records h = cc
  add_record-ok (ok tt) r (ok qs) records h = (qs, cc, refl, refl)

  ok-injective : {a b : List (VectorRecord E)} → ok a ≡ ok b → a ≡ b
  ok-injective h = cc

  -- What the loop returns, if it returns: a valid record of the job for each chunk, in order, with
  -- the chunk's text and its vector.
  pub record Built (m : QueueMessage) (texts : List Text) (vectors : List (List E))
      (records : List (VectorRecord E)) : Type 0 where
    pub texts_kept : map (λ (r : VectorRecord E). r.chunk_text) records ≡ texts
    pub vectors_kept : map (λ (r : VectorRecord E). r.embedding) records ≡ vectors
    pub jobs : All (OfJob m.job) records
    pub checks : All (λ r. validate_vector_record r ≡ ok tt) records

  pub build_records-Built :
      (m : QueueMessage) (now : Time) (i : ℕ) (texts : List Text) (vectors : List (List E))
      (records : List (VectorRecord E))
      → build_records w m now i texts vectors ≡ ok records
      → length vectors ≡ length texts
      → Built m texts vectors records
  unfolding build_records vector_record
  build_records-Built m now i [] [] records h n =
      subst (Built m [] []) (ok-injective h)
        (record { texts_kept = refl; vectors_kept = refl; jobs = tt; checks = tt })
  build_records-Built m now i [] (v ∷ vs) records h n = absurd (omega arith)
  build_records-Built m now i (t ∷ ts) [] records h n = absurd (omega arith)
  build_records-Built m now i (t ∷ ts) (v ∷ vs) records h n =
      let r = vector_record w m now i t v in
      let (qs, same, rest, valid) =
        add_record-ok (validate_vector_record r) r (build_records w m now (i + 1) ts vs) records
          h in
      let built = build_records-Built m now (i + 1) ts vs qs rest (omega arith) in
      subst (Built m (t ∷ ts) (v ∷ vs)) (sym same) (record {
        texts_kept = ap (λ xs. t ∷ xs) built.texts_kept;
        vectors_kept = ap (λ xs. v ∷ xs) built.vectors_kept;
        jobs = ((refl, refl, refl, refl), built.jobs);
        checks = (valid, built.checks);
      })
