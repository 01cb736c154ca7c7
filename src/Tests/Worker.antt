-- ===== src/Tests/Worker.antt =====
-- The worker of internal/services/ingestion/service.go at concrete inputs.
use fine_rag_core.Prelude.{ℕ, ◌+◌, ◌≡◌, ◌≤◌, refl, pos, none, some, [], ◌∷◌, map, ◌⊎◌, arith}
use fine_rag_core.Ingestion.Worker.Process
use fine_rag_core.Ingestion.Worker.Effects
use fine_rag_core.Text
use fine_rag_core.Text.{Text, txt, fields, join}
use fine_rag_core.Result.{new, ok, err}
use fine_rag_core.Contracts.Job.{
  approved, IngestionJob, QueueMessage, VectorRecord, validate_queue_message,
  validate_vector_record,
}
use fine_rag_core.Ingestion.Queue.{InMemoryQueueAdapter}
use fine_rag_core.Ingestion.Chunk.Packing.{words_of}
use fine_rag_core.Ingestion.Worker.Effects.{get_call, Extends}
use fine_rag_core.Ingestion.Chunk.{chunk_payload}
use fine_rag_core.Ingestion.Worker.{Worker, hash_parts, decimal, idempotency_key}
use fine_rag_core.Ingestion.Worker.Keys.{idempotency_key-collides}
use fine_rag_core.Ingestion.Worker.Process.{
  retried, retry_or_dlq, load_payload, vector_record, build_records, finish, upsert_records,
  index_vectors, chunk_and_embed, process_new, with_key, process_message,
}
use fine_rag_core.Ingestion.Worker.Process.Success.{Skipped, Stored, looked_up, process_message-ok}
use fine_rag_core.Ingestion.Worker.Process.Retry.{
  Budget, PutBack, put_back, stop, again, process_message-Budget, Rounds-le,
}
use fine_rag_core.Ingestion.Worker.Process.InMemory.{queue_of, in_memory, rounds, Failing}
use fine_rag_core.Ingestion.Worker.Process.Poison.{poison-dead}

abbrev job : IngestionJob
job = record {
  job_id = txt "j";
  tenant_id = txt "t";
  source_uri = txt "u";
  checksum = txt "c";
  policy_decision = approved;
  created_at = 1;
}

abbrev message : QueueMessage
message = record {
  message_id = txt "m";
  job = job;
  idempotency_key = txt "k";
  attempt = pos 0;
  enqueued_at = 1;
}

-- A worker whose collaborators all answer; its embeddings are numbers.
abbrev worker : Worker ℕ
worker = record {
  producer = some (λ log m. none);
  consumer = none;
  dlq = some (λ log m reason. none);
  blob_store = some (λ log t uri. ok (txt "alpha beta"));
  embedder = some (λ log t chunks. ok (map (λ c. 1 ∷ []) chunks));
  index = some (λ log records. none);
  idem = none;
  retention = none;
  clock = λ log. 5;
  hex_sha256 = λ t. t;
  max_retries = 1;
  chunk_size = 200;
  idempotency_ttl = 9;
}

message_done : (process_message worker message []).0 ≡ ok tt
unfolding process_message Effects.either validate_queue_message txt Process.already_done process_new
    load_payload chunk_and_embed chunk_payload Text.trim_space Text.trim_right Text.trim_left
    Text.is_space Text.fields Text.fields_from Text.byte_len Text.width Process.embed_chunks
    index_vectors build_records vector_record hash_parts join decimal validate_vector_record
    upsert_records finish
message_done = refl

process_message-ok_example :
    let m = with_key worker message in
    Skipped worker m [] (process_message worker message []).1
    ⊎ ((s : Stored worker m (looked_up worker m []) (process_message worker message [])) × (words_of
            (map (λ (r : VectorRecord ℕ). r.chunk_text) s.records)
          ≡ fields s.payload))
process_message-ok_example = process_message-ok worker message [] message_done

process_message-Budget_example :
    Extends (Budget worker (with_key worker message)) [] (process_message worker message []).1
process_message-Budget_example = process_message-Budget worker message []

-- The same worker where no blob can be read.
abbrev blind : Worker ℕ
blind = record worker { blob_store = some (λ log t uri. err (new (txt "no blob"))) }

abbrev once_more : QueueMessage
once_more = record message { attempt = pos 1; enqueued_at = 5 }

message-PutBack : PutBack blind message once_more
unfolding process_message Effects.either validate_queue_message txt Process.already_done process_new
    load_payload retry_or_dlq retried
message-PutBack = put_back [] [] (get_call (txt "t") (txt "u") ∷ []) refl

Rounds-le_example : 0 + 1 ≤ 1
Rounds-le_example =
    Rounds-le blind 1 0 message (omega arith) (omega arith) refl
      (again message once_more message-PutBack (stop once_more))

abbrev waiting : InMemoryQueueAdapter
waiting = record { messages = message ∷ []; dlq = [] }

message_valid : validate_queue_message message ≡ ok tt
unfolding validate_queue_message txt
message_valid = refl

blind-Failing : Failing (in_memory waiting blind)
unfolding Process.already_done Effects.pure
blind-Failing = record {
  get = λ log t uri. err (new (txt "no blob"));
  has_store = refl;
  cause = new (txt "no blob");
  fails = λ log t uri. refl;
  not_done = λ log key. refl;
  ticks = λ log. refl;
}

message_waits : queue_of {E = ℕ} waiting [] ≡ record { messages = message ∷ []; dlq = [] }
unfolding queue_of
message_waits = refl

poison-dead_example :
    (n : QueueMessage) × (queue_of waiting (rounds (in_memory waiting blind) 2 [])
      ≡ record { messages = []; dlq = n ∷ [] })
    × (n.job ≡ job)
    × (n.attempt ≡ pos 1)
unfolding txt
poison-dead_example =
    poison-dead waiting blind blind-Failing (omega arith) 1 0 message [] [] refl refl message_valid
      refl message_waits

-- Another content of the same job.
abbrev changed : IngestionJob
changed = record job { source_uri = txt "v" }

same_key : idempotency_key (λ t. t) job ≡ idempotency_key (λ t. t) changed
unfolding idempotency_key
same_key = refl

-- The tenants `t` and `t|u`.
abbrev of_tu : IngestionJob
of_tu = record job { tenant_id = txt "t|u" }

abbrev of_t : IngestionJob
of_t = record job { job_id = txt "u|j" }

idempotency_key-collides_example : idempotency_key (λ t. t) of_tu ≡ idempotency_key (λ t. t) of_t
unfolding txt
idempotency_key-collides_example =
    idempotency_key-collides (λ t. t) (txt "t") (txt "u") (txt "j") of_tu of_t refl refl refl refl
      refl

-- The id of a record depends on the place of its chunk, not on the text.
same_id :
    (vector_record worker message 5 3 (txt "a") []).record_id
    ≡ (vector_record worker message 5 3 (txt "b") []).record_id
unfolding vector_record
same_id = refl
