-- ===== src/Ingestion/Sqs.antt =====
-- internal/services/ingestion/queue_provider.go: the queue over SQS. The client, JSON and the clock
-- come from outside; a step returns its result with the calls that it made of the client.
pub mod Delivery
use fine_rag_core.Prelude.{ℕ, Option, none, some, List, [], ◌∷◌, ◌++◌, is_empty, if◌then◌else◌}
use fine_rag_core.Text.{Text, txt}
use fine_rag_core.Result.{Err, wrap, Result, ok, err}
use fine_rag_core.Contracts.Tenant.{Time, is_zero, wrap_validation_err}
use fine_rag_core.Contracts.Job.{QueueMessage, validate_queue_message}
use fine_rag_core.Ingestion.Queue.{QueueProviderConfig, err_queue_empty}

pub record SqsSendInput : Type 0 where
  pub queue_url : Text
  pub body : Text
  pub message_group_id : Text
  pub message_deduplication_id : Text

pub record SqsReceiveInput : Type 0 where
  pub queue_url : Text
  pub max_number_of_messages : ℕ
  pub wait_time_seconds : ℕ

pub record SqsMessage : Type 0 where
  pub message_id : Text
  pub body : Text
  pub receipt_handle : Text

pub record SqsClient : Type 0 where
  pub send_message : SqsSendInput → Result Text
  pub receive_messages : SqsReceiveInput → Result (List SqsMessage)
  pub delete_message : Text → Text → Option Err

-- A call of the client.
pub data SqsCall : Type 0 where
  send : SqsSendInput → SqsCall
  receive : SqsReceiveInput → SqsCall
  delete : Text → Text → SqsCall

-- JSON of a message, and of a message with the reason why it is dead.
pub record MessageCodec : Type 0 where
  pub marshal : QueueMessage → Result Text
  pub marshal_dead : QueueMessage → Text → Result Text
  pub unmarshal : Text → Result QueueMessage

module _ (client : SqsClient) (json : MessageCodec) (cfg : QueueProviderConfig) (now : Time) where
  unfoldable pub send_input : Text → QueueMessage → Text → SqsSendInput
  send_input url m body = record {
    queue_url = url;
    body = body;
    message_group_id = cfg.message_group_id;
    message_deduplication_id =
        if is_empty m.idempotency_key then m.message_id else m.idempotency_key;
  }

  sent : SqsSendInput → Result Text → Option Err × List SqsCall
  sent input (err e) = (some e, send input ∷ [])
  sent input (ok id) = (none, send input ∷ [])

  send_body : Text → QueueMessage → Result Text → Option Err × List SqsCall
  unfolding send_input sent
  send_body url m (err e) = (some e, [])
  send_body url m (ok body) =
      let input = send_input url m body in sent input (client.send_message input)

  send_checked : Text → QueueMessage → Result Text → Result (Unit {0}) → Option Err × List SqsCall
  unfolding send_body
  send_checked url m body (err e) = (some (wrap_validation_err (txt "queue_message") e), [])
  send_checked url m body (ok _) = send_body url m body

  unfoldable pub sqs_enqueue : QueueMessage → Option Err × List SqsCall
  unfolding send_checked
  sqs_enqueue m = send_checked cfg.queue_url m (json.marshal m) (validate_queue_message m)

  unfoldable pub sqs_publish : QueueMessage → Text → Option Err × List SqsCall
  unfolding send_checked
  sqs_publish m reason =
      send_checked cfg.dlq_url m (json.marshal_dead m reason) (validate_queue_message m)

  abbrev pub receive_input : SqsReceiveInput
  receive_input = record {
    queue_url = cfg.queue_url;
    max_number_of_messages = 1;
    wait_time_seconds = 5;
  }

  -- The message with what SQS knows in place of what is missing.
  unfoldable pub completed : SqsMessage → QueueMessage → QueueMessage
  completed raw m = record m {
    enqueued_at = if is_zero m.enqueued_at then now else m.enqueued_at;
    message_id = if is_empty m.message_id then raw.message_id else m.message_id;
  }

  deleted : SqsMessage → QueueMessage → Option Err → Result QueueMessage × List SqsCall
  deleted raw m (some e) =
      (err e, receive receive_input ∷ delete cfg.queue_url raw.receipt_handle ∷ [])
  deleted raw m none = (ok m, receive receive_input ∷ delete cfg.queue_url raw.receipt_handle ∷ [])

  decode_failed : SqsMessage → Err → Err
  decode_failed raw e = wrap (txt "decode sqs message " ++ raw.message_id) e

  read_message : SqsMessage → Result QueueMessage → Result QueueMessage × List SqsCall
  unfolding completed deleted decode_failed
  read_message raw (err e) = (err (decode_failed raw e), receive receive_input ∷ [])
  read_message raw (ok m) =
      deleted raw (completed raw m) (client.delete_message cfg.queue_url raw.receipt_handle)

  received : Result (List SqsMessage) → Result QueueMessage × List SqsCall
  unfolding read_message
  received (err e) = (err e, receive receive_input ∷ [])
  received (ok []) = (err err_queue_empty, receive receive_input ∷ [])
  received (ok (raw ∷ more)) = read_message raw (json.unmarshal raw.body)

  unfoldable pub sqs_dequeue : Result QueueMessage × List SqsCall
  unfolding received
  sqs_dequeue = received (client.receive_messages receive_input)
