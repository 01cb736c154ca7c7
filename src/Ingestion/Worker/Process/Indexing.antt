-- ===== src/Ingestion/Worker/Process/Indexing.antt =====
-- internal/services/ingestion/service.go: the index has taken the records when a step of `ProcessMessage`
-- returns no error.
use fine_rag_core.Prelude.{
  ◌≡◌, ◌≢◌, refl, sym, ap, ◌∙◌, ==_iff, Option, none, some, List, [], ◌∷◌, map, ◌++◌, length, ◌==◌,
  inl, inr, arith, Bool-cases,
}
use fine_rag_core.Text.{Text, txt}
use fine_rag_core.Result.{Err, Result, ok, err}
use fine_rag_core.Contracts.Tenant.{Time}
use fine_rag_core.Contracts.Job.{
  QueueMessage, VectorRecord, RetentionRecord, raw_blob, chunk, audit_event,
}
use fine_rag_core.Ingestion.Worker.Effects.{upsert_call, Log, answered, either, fail, lift}
use fine_rag_core.Ingestion.Worker.{Worker}
use fine_rag_core.Ingestion.Worker.Process.{
  retention_set, dead_letter, retry, retry_or_dlq, build_records, finish, upsert_to, upsert_records,
  index_vectors,
}
use fine_rag_core.Ingestion.Worker.Process.Finish.{
  settle-ok, answered-ok, saved_calls, Saved, Retained, finished_calls, finish-calls,
  finish-accepted,
}
use fine_rag_core.Ingestion.Worker.Process.Records.{Built, build_records-Built}

module _ {E : Type 0} (w : Worker E) (m : QueueMessage) where
  dead_letter-ne-ok :
      (dlq : Option (Log E → QueueMessage → Text → Option Err)) (reason : Text) (cause : Err)
      (log : Log E)
      → (dead_letter w dlq m reason cause log).0 ≢ ok tt
  unfolding dead_letter either
  dead_letter-ne-ok none reason cause log h = cc
  dead_letter-ne-ok (some publish) reason cause log h = ground arith

  retry-ne-ok :
      (producer : Option (Log E → QueueMessage → Option Err)) (reason : Text) (cause : Err)
      (log : Log E)
      → (retry w producer m reason cause log).0 ≢ ok tt
  unfolding retry either
  retry-ne-ok none reason cause log h = dead_letter-ne-ok w.dlq reason cause log h
  retry-ne-ok (some enqueue) reason cause log h =
      ground (arith, dead_letter-ne-ok w.dlq reason cause log)

  -- A failure that is handed on is still an error to the caller.
  pub retry_or_dlq-ne-ok :
      (reason : Text) (cause : Err) (log : Log E) → (retry_or_dlq w m reason cause log).0 ≢ ok tt
  unfolding retry_or_dlq
  retry_or_dlq-ne-ok reason cause log = retry-ne-ok w.producer reason cause log

  -- The index has taken the records, the key is saved and the retention records are applied.
  pub record Indexed (records : List (VectorRecord E)) (log : Log E)
      (after : Result (Unit {0}) × Log E) : Type 0 where
    pub now : Time
    pub upsert : Log E → List (VectorRecord E) → Option Err
    pub has_index : w.index ≡ some upsert
    pub taken : upsert log records ≡ none
    pub classes :
        map (λ (r : RetentionRecord). r.retention_class) (retention_set w m now)
        ≡ raw_blob ∷ chunk ∷ audit_event ∷ []
    pub key_saved : Saved w w.idem m.idempotency_key (upsert_call records ∷ log)
    pub retention_applied :
        Retained w w.retention
          (retention_set w m now)
          (saved_calls w w.idem m.idempotency_key ++ upsert_call records ∷ log)
    pub finished : after.1 ≡ finished_calls w m now ++ upsert_call records ∷ log

  upsert_to-ok :
      (index : Option (Log E → List (VectorRecord E) → Option Err)) (now : Time)
      (records : List (VectorRecord E)) (log : Log E)
      → w.index ≡ index
      → (upsert_to w index m now records log).0 ≡ ok tt
      → Indexed records log (upsert_to w index m now records log)
  unfolding upsert_to either
  upsert_to-ok none now records log has h = cc
  upsert_to-ok (some upsert) now records log has h =
      let (_, same, next) =
        settle-ok (answered (upsert log records)) (retry_or_dlq w m (txt "vector_upsert_failed"))
          (λ _. finish w m now) (upsert_call records ∷ log) tt (λ e. retry_or_dlq-ne-ok _ e _) h in
      let (saved, retained) =
        finish-accepted w m now (upsert_call records ∷ log) (sym (ap (λ r. r.0) next) ∙ h) in
      record {
        now = now;
        classes = unfold retention_set in refl;
        key_saved = saved;
        retention_applied = retained;
        upsert = upsert;
        has_index = has;
        taken = answered-ok (upsert log records) _ same;
        finished =
            ap (λ r. r.1) next
            ∙ finish-calls w m now (upsert_call records ∷ log) (sym (ap (λ r. r.0) next) ∙ h);
      }

  built-ok :
      (now : Time) (r : Result (List (VectorRecord E))) (log : Log E)
      → (either (lift r) fail (upsert_records w m now) log).0 ≡ ok tt
      → (records : List (VectorRecord E)) × (r ≡ ok records)
        × Indexed records log (either (lift r) fail (upsert_records w m now) log)
  unfolding either upsert_records
  built-ok now (ok records) log h = (records, refl, upsert_to-ok w.index now records log refl h)
  built-ok now (err e) log h = cc

  pub index_vectors-ok :
      (chunks : List Text) (vectors : List (List E)) (log : Log E)
      → (index_vectors w m chunks vectors log).0 ≡ ok tt
      → (records : List (VectorRecord E)) × Built w m chunks vectors records
        × Indexed records log (index_vectors w m chunks vectors log)
  unfolding index_vectors either
  index_vectors-ok chunks vectors log h = elim (Bool-cases (length vectors == length chunks)) [
    | inl e ↦
        let now = w.clock log in
        let (records, built, indexed) =
          built-ok now (build_records w m now 0 chunks vectors) log (rw e at h) in
        (
          records,
          build_records-Built w m now 0 chunks vectors records built ((==_iff _ _).0 e),
          rw e indexed,
        )
    | inr e ↦ absurd (retry_or_dlq-ne-ok _ _ log (rw e at h))
  ]
