-- ===== src/Ingestion/Sqs/Delivery.antt =====
-- internal/services/ingestion/queue_provider.go: what is sent to SQS comes back from it, and what the
-- adapter deletes there.
use fine_rag_core.Prelude.{
  ◌≡◌, refl, ap, ◌∙◌, if◌then◌else◌, Option, some, Bool, true, false, none, List, [], ◌∷◌, is_empty,
  Bool-cases, inl, inr, is_neg,
}
use fine_rag_core.Text.{Text}
use fine_rag_core.Result.{Err, Result, ok, err, ◌>>◌, map_err, reject_if}
use fine_rag_core.Contracts.Tenant.{Time, is_zero}
use fine_rag_core.Contracts.Job.{QueueMessage, validate_ingestion_job, validate_queue_message}
use fine_rag_core.Ingestion.Queue.{QueueProviderConfig}
use fine_rag_core.Ingestion.Sqs.{
  SqsSendInput, SqsMessage, SqsClient, send, receive, delete, MessageCodec, send_input, sent,
  send_body, send_checked, sqs_enqueue, receive_input, completed, deleted, read_message, received,
  sqs_dequeue,
}

module _ (client : SqsClient) (json : MessageCodec) (cfg : QueueProviderConfig) (now : Time) where
  -- A message that is valid needs nothing in addition.
  valid_complete :
      (m : QueueMessage)
      → validate_queue_message m ≡ ok tt
      → (is_empty m.message_id ≡ false) × (is_zero m.enqueued_at ≡ false)
  unfolding validate_queue_message
  valid_complete m h = elim (Bool-cases (is_empty m.message_id)) [
    | inl e ↦ cc (rw e at h)
    | inr e ↦ (
      e,
      stamped _ _ _ (validate_ingestion_job m.job) (is_neg m.attempt) (is_zero m.enqueued_at)
          (rw e at h),
    )
  ]
    where
      stamped :
          (f : Err → Err) (e g : Err) (job : Result (Unit {0})) (negative unset : Bool)
          → (map_err f job >> (reject_if negative e >> reject_if unset g)) ≡ ok tt
          → unset ≡ false
      stamped f e g (err x) negative unset h = cc
      stamped f e g (ok _) true unset h = cc
      stamped f e g (ok _) false true h = cc
      stamped f e g (ok _) false false h = refl

  completed-same :
      (raw : SqsMessage) (m : QueueMessage)
      → validate_queue_message m ≡ ok tt
      → completed client json cfg now raw m ≡ m
  unfolding completed
  completed-same raw m h = let (named, stamped) = valid_complete m h in rw (named, stamped) refl

  deleted-kept :
      (raw : SqsMessage) (m : QueueMessage) (o : Option Err)
      → let after = deleted client json cfg now raw m o in
        (after.1
          ≡ receive (receive_input client json cfg now)
            ∷ delete cfg.queue_url raw.receipt_handle
            ∷ [])
        × (o ≡ none → after.0 ≡ ok m)
        × ((e : Err) → o ≡ some e → after.0 ≡ err e)
  unfolding deleted
  deleted-kept raw m none = (refl, λ h. refl, λ e h. cc)
  deleted-kept raw m (some x) = (refl, λ h. cc, λ e h. cc)

  -- What is sent of a message with a text.
  abbrev pub as_sent : QueueMessage → Text → SqsSendInput
  as_sent m body = record {
    queue_url = cfg.queue_url;
    body = body;
    message_group_id = cfg.message_group_id;
    message_deduplication_id =
        if is_empty m.idempotency_key then m.message_id else m.idempotency_key;
  }

  -- The adapter's way with a message, from its sending to its deletion.
  pub record IsDelivered (m : QueueMessage) (body : Text) (raw : SqsMessage) : Type 0 where
    pub put : sqs_enqueue client json cfg now m ≡ (none, send (as_sent m body) ∷ [])
    pub calls :
        (sqs_dequeue client json cfg now).1
        ≡ receive (receive_input client json cfg now) ∷ delete cfg.queue_url raw.receipt_handle ∷ []
    pub taken :
        client.delete_message cfg.queue_url raw.receipt_handle ≡ none
        → (sqs_dequeue client json cfg now).0 ≡ ok m
    pub kept :
        (e : Err)
        → client.delete_message cfg.queue_url raw.receipt_handle ≡ some e
        → (sqs_dequeue client json cfg now).0 ≡ err e

  -- SQS accepts what is sent, and gives a message with the body of what the adapter sent; JSON reads
  -- what it wrote. Then a valid message is sent once, under its idempotency key or else its id, and the
  -- one that is received is deleted by its own receipt: if the deletion succeeds, the message comes
  -- out as it went in, and if it fails, its error does and no message is handed out.
  pub sqs_dequeue-sqs_enqueue :
      (m : QueueMessage) (body : Text) (raw : SqsMessage) (more : List SqsMessage)
      → validate_queue_message m ≡ ok tt
      → json.marshal m ≡ ok body
      → json.unmarshal body ≡ ok m
      → ((i : SqsSendInput) → (id : Text) × (client.send_message i ≡ ok id))
      → client.receive_messages (receive_input client json cfg now) ≡ ok (raw ∷ more)
      → ((i : SqsSendInput)
          → (sqs_enqueue client json cfg now m).1 ≡ send i ∷ []
          → raw.body ≡ i.body)
      → IsDelivered m body raw
  unfolding sqs_enqueue send_checked send_body sent send_input sqs_dequeue received read_message
  sqs_dequeue-sqs_enqueue m body raw more valid marshalled unmarshalled takes given handed =
      let (id, taken) = takes (as_sent m body) in
      let put : sqs_enqueue client json cfg now m ≡ (none, send (as_sent m body) ∷ []) =
        rw (valid, marshalled, taken) refl in
      let same : raw.body ≡ body = handed (as_sent m body) (ap (λ r. r.1) put) in
      let out : sqs_dequeue client json cfg now
          ≡ deleted client json cfg now raw m
              (client.delete_message cfg.queue_url raw.receipt_handle) =
        rw (given, same, unmarshalled, completed-same raw m valid) refl in
      let (calls, taken, kept) =
        deleted-kept raw m (client.delete_message cfg.queue_url raw.receipt_handle) in
      record {
        put = put;
        calls = ap (λ r. r.1) out ∙ calls;
        taken = λ h. ap (λ r. r.0) out ∙ taken h;
        kept = λ e h. ap (λ r. r.0) out ∙ kept e h;
      }
