-- ===== src/Ingestion/Worker/Process/Ids.antt =====
-- internal/services/ingestion/service.go: the ids of the records of one message.
use mathlib.Core.List.{append_cancel_left}
use fine_rag_core.Prelude.{tail_of, ℕ, ◌≡◌, refl, ◌∙◌, sym, List, ◌∷◌, ◌++◌}
use fine_rag_core.Text.{Text, txt, join}
use fine_rag_core.Contracts.Tenant.{Time}
use fine_rag_core.Contracts.Job.{QueueMessage}
use fine_rag_core.Ingestion.Worker.{Worker, hash_parts, decimal}
use fine_rag_core.Ingestion.Worker.Decimal.{decimal-injective}
use fine_rag_core.Ingestion.Worker.Process.{vector_record}

-- What is hashed for the record of a chunk.
pub record_text : QueueMessage → ℕ → Text
record_text m i =
    txt "vec"
    ++ (b'|'
        ∷ (m.job.tenant_id
            ++ (b'|' ∷ (m.job.job_id ++ (b'|' ∷ (m.job.checksum ++ (b'|' ∷ decimal i)))))))

record_text-injective : (m : QueueMessage) (i j : ℕ) → record_text m i ≡ record_text m j → i ≡ j
unfolding record_text
record_text-injective m i j h =
    let a = tail_of (append_cancel_left (txt "vec") _ _ h) in
    let b = tail_of (append_cancel_left m.job.tenant_id _ _ a) in
    let c = tail_of (append_cancel_left m.job.job_id _ _ b) in
    decimal-injective i j (tail_of (append_cancel_left m.job.checksum _ _ c))

module _ {E : Type 0} (w : Worker E) where
  record_id-text :
      (m : QueueMessage) (now : Time) (i : ℕ) (text : Text) (embedding : List E)
      → (vector_record w m now i text embedding).record_id ≡ w.hex_sha256 (record_text m i)
  unfolding vector_record hash_parts join record_text
  record_id-text m now i text embedding = refl

  -- Two chunks of one message have different ids, if SHA-256 tells their hashed texts apart where
  -- these differ: a record of one does not replace a record of the other.
  pub vector_record-injective :
      (m : QueueMessage) (now : Time) (i j : ℕ) (s t : Text) (x y : List E)
      → (w.hex_sha256 (record_text m i) ≡ w.hex_sha256 (record_text m j)
          → record_text m i ≡ record_text m j)
      → (vector_record w m now i s x).record_id ≡ (vector_record w m now j t y).record_id
      → i ≡ j
  vector_record-injective m now i j s t x y apart h =
      record_text-injective m i j
        (apart (sym (record_id-text m now i s x) ∙ (h ∙ record_id-text m now j t y)))
