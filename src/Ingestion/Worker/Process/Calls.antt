-- ===== src/Ingestion/Worker/Process/Calls.antt =====
-- internal/services/ingestion/service.go: the calls that `ProcessMessage` can make at all. What
-- holds of each of these holds of every call that is made.
use fine_rag_core.Prelude.{
  ◌≡◌, refl, pos, leb_ℤ, inc, Bool, true, false, Option, none, some, List, [], ◌∷◌, ◌==◌, is_empty,
  length, All, ==_iff, inl, inr, ◌⊎◌,
}
use fine_rag_core.Text.{Text}
use fine_rag_core.Result.{Err, Result, ok, err}
use fine_rag_core.Contracts.Tenant.{Time, TenantId}
use fine_rag_core.Contracts.Job.{QueueMessage, VectorRecord, RetentionRecord}
use fine_rag_core.Ingestion.Chunk.{chunk_payload}
use fine_rag_core.Ingestion.Worker.Effects.{
  Call, enqueue_call, publish_call, get_call, embed_call, upsert_call, exists_call, save_call,
  apply_call, Log, fail, lift, call, either, Makes, Makes-either, Makes-either_given, Makes-pure,
  Makes-fail, Makes-lift, Makes-call, Makes-call_err, Makes-reading, Makes-if, makes_rules,
}
use fine_rag_core.Ingestion.Worker.{Worker, IdempotencyStore}
use fine_rag_core.Ingestion.Worker.Process.{
  retried, dead_letter, retry, retry_or_dlq, load_payload, build_records, retention_set,
  apply_retention, upsert_records, index_vectors, embed_chunks, chunk_and_embed, process_new,
  with_key, already_done, load_from, save_in, retain_by, finish, upsert_to, embed_by, exists_in,
  unless_done, process_message,
}

-- The store of blobs has given the payload at the source of the message's job.
pub record IsPayload {E : Type 0} (w : Worker E) (m : QueueMessage) (payload : Text) : Type 0 where
  pub get : Log E → TenantId → Text → Result Text
  pub has_store : w.blob_store ≡ some get
  pub before : Log E
  pub loaded : get before m.job.tenant_id m.job.source_uri ≡ ok payload

-- The calls that the processing of `m`, which has its key, can make.
pub record Permits {E : Type 0} (w : Worker E) (m : QueueMessage) (P : Call E → Type 0)
    : Type 0 where
  pub lookups : P (exists_call m.idempotency_key)
  pub loads : P (get_call m.job.tenant_id m.job.source_uri)
  pub embeds :
      (payload : Text)
      → IsPayload w m payload
      → P (embed_call m.job.tenant_id (chunk_payload payload (pos w.chunk_size)))
  pub upserts :
      (now : Time) (chunks : List Text) (vectors : List (List E)) (records : List (VectorRecord E))
      → build_records w m now 0 chunks vectors ≡ ok records
      → length vectors ≡ length chunks
      → P (upsert_call records)
  pub saves : P (save_call m.idempotency_key w.idempotency_ttl)
  pub applies : (now : Time) → All (λ r. P (apply_call r)) (retention_set w m now)
  pub enqueues :
      (log : Log E)
      → leb_ℤ (inc m.attempt) (pos w.max_retries) ≡ true
      → P (enqueue_call (retried w m log))
  pub publishes :
      (reason : Text)
      → (w.producer ≡ none) ⊎ (leb_ℤ (inc m.attempt) (pos w.max_retries) ≡ false)
      → P (publish_call m reason)

module _ {E : Type 0} (w : Worker E) (m : QueueMessage) (P : Call E → Type 0)
    (permits : Permits w m P) where
  dead_letter-Makes :
      (dlq : Option (Log E → QueueMessage → Text → Option Err)) (reason : Text) (cause : Err)
      → P (publish_call m reason)
      → Makes P (dead_letter w dlq m reason cause)
  unfolding dead_letter
  dead_letter-Makes none reason cause p = search makes_rules
  dead_letter-Makes (some publish) reason cause p = search makes_rules

  retry-Makes :
      (producer : Option (Log E → QueueMessage → Option Err)) (reason : Text) (cause : Err)
      → ((producer ≡ none) ⊎ (leb_ℤ (inc m.attempt) (pos w.max_retries) ≡ false)
          → P (publish_call m reason))
      → Makes P (retry w producer m reason cause)
  unfolding retry
  retry-Makes none reason cause p = dead_letter-Makes w.dlq reason cause (p (inl refl))
  retry-Makes (some enqueue) reason cause p =
      Makes-if (leb_ℤ (inc m.attempt) (pos w.max_retries)) _ _
        (λ e. Makes-reading _ λ log.
          let sent : P (enqueue_call (retried w m log)) = permits.enqueues log e in
          search makes_rules)
        (λ e. dead_letter-Makes w.dlq reason cause (p (inr e)))

  retry_or_dlq-Makes : (reason : Text) (cause : Err) → Makes P (retry_or_dlq w m reason cause)
  unfolding retry_or_dlq
  retry_or_dlq-Makes reason cause = retry-Makes w.producer reason cause (permits.publishes reason)

  apply_retention-Makes :
      (hook : Log E → RetentionRecord → Option Err) (rs : List RetentionRecord)
      → All (λ r. P (apply_call r)) rs
      → Makes P (apply_retention w hook rs)
  unfolding apply_retention
  apply_retention-Makes hook [] ps = Makes-pure tt
  apply_retention-Makes hook (r ∷ rs) (p, ps) = Makes-either _ _ _ (Makes-lift _) Makes-fail λ _.
      Makes-either _ _ _ (Makes-call_err _ _ p) Makes-fail λ _. apply_retention-Makes hook rs ps

  save_in-Makes :
      (store : Option (IdempotencyStore E)) → Makes P (save_in w store m.idempotency_key)
  unfolding save_in
  save_in-Makes none = Makes-pure tt
  save_in-Makes (some store) = Makes-call_err _ _ permits.saves

  retain_by-Makes :
      (hook : Option (Log E → RetentionRecord → Option Err)) (now : Time)
      → Makes P (retain_by w hook (retention_set w m now))
  unfolding retain_by
  retain_by-Makes none now = Makes-pure tt
  retain_by-Makes (some hook) now = apply_retention-Makes hook _ (permits.applies now)

  finish-Makes : (now : Time) → Makes P (finish w m now)
  unfolding finish
  finish-Makes now = search (makes_rules, save_in-Makes, retain_by-Makes)

  upsert_to-Makes :
      (index : Option (Log E → List (VectorRecord E) → Option Err)) (now : Time)
      (records : List (VectorRecord E))
      → P (upsert_call records)
      → Makes P (upsert_to w index m now records)
  unfolding upsert_to
  upsert_to-Makes none now records p = Makes-fail _
  upsert_to-Makes (some upsert) now records p =
      search (makes_rules, retry_or_dlq-Makes, finish-Makes)

  -- The records are built before the index is called, or there is no call.
  built-Makes :
      (now : Time) (r : Result (List (VectorRecord E)))
      → ((records : List (VectorRecord E)) → r ≡ ok records → P (upsert_call records))
      → Makes P (either (lift r) fail (upsert_records w m now))
  unfolding upsert_records either
  built-Makes now (ok records) p = record {
    at = λ log. (upsert_to-Makes w.index now records (p records refl)).at log;
  }
  built-Makes now (err e) p = record { at = λ log. ([], refl, tt) }

  index_vectors-Makes :
      (chunks : List Text) (vectors : List (List E)) → Makes P (index_vectors w m chunks vectors)
  unfolding index_vectors
  index_vectors-Makes chunks vectors =
      Makes-if (length vectors == length chunks) _ _
        (λ e. Makes-reading _ λ log.
          built-Makes (w.clock log) (build_records w m (w.clock log) 0 chunks vectors)
            (λ records built.
              permits.upserts (w.clock log) chunks vectors records built ((==_iff _ _).0 e)))
        (λ e. retry_or_dlq-Makes _ _)

  embed_by-Makes :
      (embed : Option (Log E → TenantId → List Text → Result (List (List E)))) (chunks : List Text)
      → P (embed_call m.job.tenant_id chunks)
      → Makes P (embed_by w embed m chunks)
  unfolding embed_by
  embed_by-Makes none chunks p = Makes-fail _
  embed_by-Makes (some embed) chunks p =
      Makes-either _ _ _ (Makes-call _ _ p) (retry_or_dlq-Makes _) (index_vectors-Makes chunks)

  chunk_and_embed-Makes :
      (payload : Text) → IsPayload w m payload → Makes P (chunk_and_embed w m payload)
  unfolding chunk_and_embed embed_chunks
  chunk_and_embed-Makes payload read =
      Makes-if (is_empty (chunk_payload payload (pos w.chunk_size))) _ _
        (λ e. retry_or_dlq-Makes _ _)
        (λ e. embed_by-Makes w.embedder _ (permits.embeds payload read))

  load_from-Makes :
      (store : Option (Log E → TenantId → Text → Result Text)) → Makes P (load_from w store m.job)
  unfolding load_from
  load_from-Makes none = Makes-fail _
  load_from-Makes (some get) = Makes-call _ _ permits.loads

  load_from-IsPayload :
      (store : Option (Log E → TenantId → Text → Result Text)) (log : Log E) (payload : Text)
      → w.blob_store ≡ store
      → (load_from w store m.job log).0 ≡ ok payload
      → IsPayload w m payload
  unfolding load_from fail call
  load_from-IsPayload none log payload has h = cc
  load_from-IsPayload (some get) log payload has h = record {
    get = get;
    has_store = has;
    before = log;
    loaded = h;
  }

  process_new-Makes : Makes P (process_new w m)
  unfolding process_new load_payload
  process_new-Makes =
      Makes-either_given _ _ _ (load_from-Makes w.blob_store) (retry_or_dlq-Makes _)
        λ log payload h.
          chunk_and_embed-Makes payload (load_from-IsPayload w.blob_store log payload refl h)

  exists_in-Makes :
      (store : Option (IdempotencyStore E)) → Makes P (exists_in w store m.idempotency_key)
  unfolding exists_in
  exists_in-Makes none = Makes-pure false
  exists_in-Makes (some store) = Makes-call _ _ permits.lookups

  unless_done-Makes : (done : Bool) → Makes P (unless_done w m done)
  unfolding unless_done
  unless_done-Makes true = Makes-pure tt
  unless_done-Makes false = process_new-Makes

-- What holds of each call that the processing of a message can make holds of the calls made.
pub process_message-Makes :
    {E : Type 0} (w : Worker E) (message : QueueMessage) (P : Call E → Type 0)
    → Permits w (with_key w message) P
    → Makes P (process_message w message)
unfolding process_message already_done
process_message-Makes w message P permits = Makes-either _ _ _ (Makes-lift _) Makes-fail λ _.
    Makes-either _ _ _ (exists_in-Makes w (with_key w message) P permits w.idem) Makes-fail
      (unless_done-Makes w (with_key w message) P permits)
