-- ===== src/Tests/Intake.antt =====
-- The profiler and the queue over SQS of internal/services/ingestion at concrete inputs.
use fine_rag_core.Prelude.{◌≡◌, refl, pos, false, none, [], ◌∷◌}
use fine_rag_core.Contracts.Job
use fine_rag_core.Text.{Text, txt}
use fine_rag_core.Result.{ok}
use fine_rag_core.Contracts.Profile.{IngestionProfile}
use fine_rag_core.Contracts.Job.{approved, QueueMessage, validate_queue_message}
use fine_rag_core.Ingestion.Profiler.{ProfileInput, profile}
use fine_rag_core.Ingestion.Profiler.Total.{Profiled, profile-Profiled}
use fine_rag_core.Ingestion.Queue.{QueueProviderConfig}
use fine_rag_core.Ingestion.Sqs.{
  SqsSendInput, SqsMessage, SqsClient, send, MessageCodec, sqs_enqueue,
}
use fine_rag_core.Ingestion.Sqs.Delivery.{IsDelivered, sqs_dequeue-sqs_enqueue}

abbrev input : ProfileInput
input = record {
  tenant_id = txt "t";
  source_uri = txt "s3://x";
  lifecycle_class = [];
  content_type = txt "text/plain";
  payload = txt "two words";
}

abbrev digest : Text → Text
digest s = txt "d"

profile-Profiled_example :
    (p : IngestionProfile) × (profile digest 1 input ≡ ok p) × Profiled (λ m. none) input p
unfolding txt
profile-Profiled_example = profile-Profiled digest 1 (λ m. none) refl (λ t. refl) input

abbrev config : QueueProviderConfig
config = record {
  provider = txt "sqs";
  aws_region = txt "r";
  queue_url = txt "q";
  dlq_url = txt "d";
  message_group_id = txt "g";
  local_fallback_mode = false;
}

abbrev message : QueueMessage
message = record {
  message_id = txt "m";
  job = record {
    job_id = txt "j";
    tenant_id = txt "t";
    source_uri = txt "s";
    checksum = txt "c";
    policy_decision = approved;
    created_at = 1;
  };
  idempotency_key = [];
  attempt = pos 0;
  enqueued_at = 2;
}

abbrev raw : SqsMessage
raw = record { message_id = txt "x"; body = txt "body"; receipt_handle = txt "h" }

-- A queue that holds one message.
abbrev client : SqsClient
client = record {
  send_message = λ i. ok (txt "x");
  receive_messages = λ i. ok (raw ∷ []);
  delete_message = λ url handle. none;
}

abbrev json : MessageCodec
json = record {
  marshal = λ m. ok (txt "body");
  marshal_dead = λ m reason. ok (txt "dead");
  unmarshal = λ body. ok message;
}

message-valid : validate_queue_message message ≡ ok tt
unfolding validate_queue_message txt Job.validate_ingestion_job
message-valid = refl

-- Every message that is sent has the body "body".
body_sent :
    (i : SqsSendInput)
    → (sqs_enqueue client json config 9 message).1 ≡ send i ∷ []
    → raw.body ≡ i.body
unfolding sqs_enqueue txt Job.validate_queue_message Job.validate_ingestion_job
body_sent i h = cc

sqs_dequeue-sqs_enqueue_example : IsDelivered client json config 9 message (txt "body") raw
sqs_dequeue-sqs_enqueue_example =
    sqs_dequeue-sqs_enqueue client json config 9 message (txt "body") raw [] message-valid refl refl
      (λ i. (txt "x", refl)) refl body_sent
