-- ===== src/Tests/Manager.antt =====
-- backend/managers/ingestion.go and `ChunkText` of backend/util/apiutil/text.go at concrete inputs.
use fine_rag_core.Prelude.{
  ℕ, ◌≡◌, refl, ap, ◌∙◌, subst, pos, or_default, true, false, none, some, List, [], ◌∷◌, map,
  length, is_empty, All, arith,
}
use fine_rag_core.Text
use fine_rag_core.Text.{Text, txt, fields, Unicode}
use fine_rag_core.Result.{Result, ok}
use fine_rag_core.Dict.{Dict}
use fine_rag_core.Contracts.Tenant
use fine_rag_core.Contracts.Tenant.{TenantId}
use fine_rag_core.Contracts.Job.{validate_vector_record}
use fine_rag_core.Ingestion.Chunk.{chunk_payload}
use fine_rag_core.Backend.Chunks
use fine_rag_core.Backend.Chunks.{chunk_text, joined, at_least_zero, default_max_len}
use fine_rag_core.Backend.Chunks.Windows.{Covers, Short, chunk_text-Covers}
use fine_rag_core.Backend.Chunks.SamePacking.{chunk_text_same}
use fine_rag_core.Backend.Json.{Any, string, array, item, no_items, value_of, read_string_array}
use fine_rag_core.Backend.Objects.{Indexer}
use fine_rag_core.Backend.Artifacts.{index_payload_artifacts}
use fine_rag_core.Backend.Artifacts.Batch.{
  Owned, index_payload_artifacts-Owned, index_payload_artifacts-valid,
}
use fine_rag_core.Backend.Artifacts.Counts.{Counted, index_payload_artifacts-Counted}
use fine_rag_core.Backend.Artifacts.Shape.{Aligned, index_payload_artifacts-Aligned}
use fine_rag_core.Backend.Artifacts.ChunkId.{Distinct}
use fine_rag_core.Backend.Artifacts.Ids.{index_payload_artifacts-Distinct}
use fine_rag_core.Backend.Jobs.{
  Background, Submission, submitted_row, handle_submit_job, handle_retry_job,
  process_ingestion_background,
}
use fine_rag_core.Backend.Jobs.Outcome.{EndedIn, process_ingestion_background-EndedIn}
use fine_rag_core.Backend.Jobs.Links.{Sound}
use fine_rag_core.Backend.Jobs.Lifecycle.{
  System, submit, retry, launch, Reachable, start, next, Reachable-Sound,
}

abbrev text : Text
text = txt "aa bb cc dd"

-- Windows of two words, of which the last one is taken up again.
text_chunks : chunk_text text (pos 5) (pos 1) ≡ txt "aa bb" ∷ txt "bb cc" ∷ txt "cc dd" ∷ []
unfolding chunk_text txt Chunks.windows Chunks.fill Chunks.at_least_one Chunks.stride
    Chunks.default_max_len Text.trim_space Text.trim_right Text.trim_left Text.is_space Text.fields
    Text.fields_from Text.byte_len Text.width Text.join
text_chunks = refl

chunk_text-Covers_example :
    (ws : List (List Text)) × (chunk_text text (pos 5) (pos 1) ≡ map joined ws)
    × Covers (at_least_zero (pos 1)) (fields text) ws
    × All (Short (or_default (pos 5) default_max_len)) ws
chunk_text-Covers_example = chunk_text-Covers text (pos 5) (pos 1)

chunk_text_same_example : chunk_text text (pos 5) (pos 0) ≡ chunk_payload text (pos 5)
chunk_text_same_example = chunk_text_same text 5 (omega arith)

abbrev ascii : Unicode
ascii = record { lower = λ c. c; is_letter = λ c. true; is_digit = λ c. false }

abbrev one_vector : Text → List ℕ
one_vector s = 1 ∷ []

abbrev unit_vectors : TenantId → List Text → Result (List (List ℕ))
unit_vectors t texts = ok (map one_vector texts)

abbrev manager : Indexer ℕ
manager = record {
  index = some (λ batch. none);
  object_store = some (λ i key. ok (record { bytes = txt "alpha beta gamma"; fault = none }));
  embedder = some unit_vectors;
  parser = none;
  upload_bucket = txt "bucket";
  max_object_bytes = pos 10;
  chunk_size_chars = pos 5;
  chunk_overlap_words = pos 0;
  pdf_text = λ bytes. [];
  unicode = ascii;
  now = 1;
  map_order = λ items. items;
}

abbrev payload : Dict Any
payload =
    (
      txt "objectKeys",
      array (item (string (txt "a/one.txt")) (item (string (txt "two.txt")) no_items)),
    )
    ∷ (txt "sourceUri", string (txt "s3://x"))
    ∷ []

index_payload_artifacts-Owned_example :
    All
      (All (Owned manager (txt "t") (txt "j") (txt "c") (txt "s")))
      (index_payload_artifacts manager (txt "t") (txt "j") (txt "c") (txt "s") payload).1
index_payload_artifacts-Owned_example =
    index_payload_artifacts-Owned manager (txt "t") (txt "j") (txt "c") (txt "s") payload

units : (texts : List Text) → All (λ v. is_empty v ≡ false) (map one_vector texts)
units [] = tt
units (s ∷ texts) = (refl, units texts)

nonempty_vectors :
    (embed : TenantId → List Text → Result (List (List ℕ)))
    → manager.embedder ≡ some embed
    → (texts : List Text) (vs : List (List ℕ)) → embed (txt "t") texts ≡ ok vs
    → All (λ v. is_empty v ≡ false) vs
nonempty_vectors embed he texts vs e =
    subst (λ ws. All (λ v. is_empty v ≡ false) ws)
      (ok-injective (ap (λ f. f (txt "t") texts) (some-injective he) ∙ e)) (units texts)
  where
    some-injective : {A : Type 0} {a b : A} → some a ≡ some b → a ≡ b
    some-injective h = cc

    ok-injective : {A : Type 0} {a b : A} → ◌≡◌ {A = Result A} (ok a) (ok b) → a ≡ b
    ok-injective h = cc

index_payload_artifacts-valid_example :
    All
      (All (λ r. validate_vector_record r ≡ ok tt))
      (index_payload_artifacts manager (txt "t") (txt "j") (txt "c") (txt "s") payload).1
unfolding txt Tenant.validate_tenant_id
index_payload_artifacts-valid_example =
    index_payload_artifacts-valid manager (txt "t") (txt "j") (txt "c") (txt "s") payload refl refl
      refl refl nonempty_vectors

index_payload_artifacts-Counted_example :
    Counted manager
      (txt "t")
      (txt "j")
      (txt "c")
      (txt "s")
      (length (read_string_array (value_of (txt "objectKeys") payload)))
      (index_payload_artifacts manager (txt "t") (txt "j") (txt "c") (txt "s") payload)
index_payload_artifacts-Counted_example =
    index_payload_artifacts-Counted manager (txt "t") (txt "j") (txt "c") (txt "s") payload

index_payload_artifacts-Aligned_example :
    All
      (Aligned manager (txt "t") (txt "j") (txt "c") (txt "s"))
      (index_payload_artifacts manager (txt "t") (txt "j") (txt "c") (txt "s") payload).1
index_payload_artifacts-Aligned_example =
    index_payload_artifacts-Aligned manager (txt "t") (txt "j") (txt "c") (txt "s") payload

index_payload_artifacts-Distinct_example :
    All
      (λ batch. Distinct (map (λ r. r.record_id) batch))
      (index_payload_artifacts manager (txt "t") (txt "j") (txt "c") (txt "s") payload).1
index_payload_artifacts-Distinct_example =
    index_payload_artifacts-Distinct manager (txt "t") (txt "j") (txt "c") (txt "s") payload

abbrev submission : Submission
submission = record {
  tenant_header = txt " t ";
  body = ok payload;
  random10 = txt "0123456789";
  random12 = txt "0123456789ab";
  payload_json = txt "{}";
  now = 5;
  exec = none;
}

abbrev run : Background
run = record {
  job_id = txt "job-0123456789";
  tenant_id = txt "t";
  checksum = txt "c";
  source_uri = txt "s3://x";
  payload = payload;
}

process_ingestion_background-EndedIn_example :
    EndedIn run
      (submitted_row submission payload ∷ [])
      (process_ingestion_background manager none 9 run (submitted_row submission payload ∷ []))
process_ingestion_background-EndedIn_example =
    process_ingestion_background-EndedIn manager 9 run (submitted_row submission payload ∷ [])

abbrev empty_system : System
empty_system = record { table = []; running = [] }

-- A job is submitted and retried.
abbrev one_job : System
one_job = record {
  table = (handle_submit_job submission []).1.1;
  running = launch (handle_submit_job submission []).1.0 [];
}

abbrev retried_job : System
retried_job = record one_job {
  table = (handle_retry_job (txt "t") (txt "job-0123456789") 9 none one_job.table).1;
}

retried_job-Reachable : Reachable retried_job
retried_job-Reachable =
    next (next start (submit submission empty_system (λ e. refl)))
      (retry (txt "t") (txt "job-0123456789") 9 none one_job)

Reachable-Sound_example : All Sound retried_job.table
Reachable-Sound_example = Reachable-Sound retried_job retried_job-Reachable

-- The row that the submission puts into the table.
submitted_id : map (λ row. row.tenant_id) ((submitted_row submission payload) ∷ []) ≡ txt "t" ∷ []
unfolding submitted_row txt Text.trim_space Text.trim_right Text.trim_left Text.is_space
submitted_id = refl
