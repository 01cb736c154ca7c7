-- ===== src/Ingestion/Worker/Process/Success.antt =====
-- internal/services/ingestion/service.go: what has happened when `ProcessMessage` returns no error.
use fine_rag_core.Prelude.{
  ◌≡◌, ◌≢◌, refl, sym, ap, ◌∙◌, subst, pos, Bool, true, false, Option, none, some, List, ◌∷◌, map,
  is_empty, ◌⊎◌, inl, inr, Bool-cases,
}
use fine_rag_core.Text.{Text, txt, fields}
use fine_rag_core.Result.{Err, Result, ok, err}
use fine_rag_core.Contracts.Tenant.{TenantId}
use fine_rag_core.Contracts.Job.{QueueMessage, VectorRecord}
use fine_rag_core.Ingestion.Chunk.{chunk_payload}
use fine_rag_core.Ingestion.Chunk.Packing.{words_of, chunk_payload-words}
use fine_rag_core.Ingestion.Worker.Effects.{
  get_call, embed_call, exists_call, Log, Action, either, fail, lift,
}
use fine_rag_core.Ingestion.Worker.{Worker, IdempotencyStore}
use fine_rag_core.Ingestion.Worker.Process.{
  retry_or_dlq, index_vectors, embed_by, embed_chunks, chunk_and_embed, load_from, load_payload,
  process_new, with_key, exists_in, already_done, unless_done, process_message,
}
use fine_rag_core.Ingestion.Worker.Process.Finish.{settle-ok}
use fine_rag_core.Ingestion.Worker.Process.Records.{Built}
use fine_rag_core.Ingestion.Worker.Process.Indexing.{Indexed, retry_or_dlq-ne-ok, index_vectors-ok}

module _ {E : Type 0} (w : Worker E) (m : QueueMessage) where
  -- The blob was loaded, its chunks embedded, and the records that were built from them taken.
  pub record Stored (log : Log E) (after : Result (Unit {0}) × Log E) : Type 0 where
    pub get : Log E → TenantId → Text → Result Text
    pub payload : Text
    pub embed : Log E → TenantId → List Text → Result (List (List E))
    pub vectors : List (List E)
    pub records : List (VectorRecord E)
    pub has_store : w.blob_store ≡ some get
    pub loaded : get log m.job.tenant_id m.job.source_uri ≡ ok payload
    pub has_embedder : w.embedder ≡ some embed
    pub embedded :
        embed
          (get_call m.job.tenant_id m.job.source_uri ∷ log)
          m.job.tenant_id
          (chunk_payload payload (pos w.chunk_size))
        ≡ ok vectors
    pub built : Built w m (chunk_payload payload (pos w.chunk_size)) vectors records
    pub indexed :
        Indexed w m records
          (embed_call m.job.tenant_id (chunk_payload payload (pos w.chunk_size))
            ∷ get_call m.job.tenant_id m.job.source_uri
            ∷ log)
          after

  embed_by-ok :
      (embedder : Option (Log E → TenantId → List Text → Result (List (List E))))
      (chunks : List Text) (log : Log E)
      → (embed_by w embedder m chunks log).0 ≡ ok tt
      → (embed : Log E → TenantId → List Text → Result (List (List E))) × (vectors : List (List E))
        × (records : List (VectorRecord E)) × (embedder ≡ some embed)
        × (embed log m.job.tenant_id chunks ≡ ok vectors)
        × Built w m chunks vectors records
        × Indexed w m records
            (embed_call m.job.tenant_id chunks ∷ log)
            (embed_by w embedder m chunks log)
  unfolding embed_by either
  embed_by-ok none chunks log h = cc
  embed_by-ok (some embed) chunks log h =
      let after = embed_call m.job.tenant_id chunks ∷ log in
      let (vectors, same, next) =
        settle-ok (embed log m.job.tenant_id chunks) (retry_or_dlq w m (txt "embedding_failed"))
          (index_vectors w m chunks) after tt (λ e. retry_or_dlq-ne-ok w m _ e _) h in
      let (records, built, indexed) =
        index_vectors-ok w m chunks vectors after (sym (ap (λ r. r.0) next) ∙ h) in
      (embed, vectors, records, refl, same, built, rw next indexed)

  load_from-ok :
      (store : Option (Log E → TenantId → Text → Result Text)) (log : Log E)
      → (either
          (load_from w store m.job)
          (retry_or_dlq w m (txt "blob_fetch_failed"))
          (chunk_and_embed w m)
          log).0
        ≡ ok tt
      → (get : Log E → TenantId → Text → Result Text) × (payload : Text) × (store ≡ some get)
        × (get log m.job.tenant_id m.job.source_uri ≡ ok payload)
        × (either
              (load_from w store m.job)
              (retry_or_dlq w m (txt "blob_fetch_failed"))
              (chunk_and_embed w m)
              log
            ≡ chunk_and_embed w m payload (get_call m.job.tenant_id m.job.source_uri ∷ log))
  unfolding load_from either
  load_from-ok none log h = absurd (retry_or_dlq-ne-ok w m _ _ log h)
  load_from-ok (some get) log h =
      let (payload, same, next) =
        settle-ok (get log m.job.tenant_id m.job.source_uri)
          (retry_or_dlq w m (txt "blob_fetch_failed")) (chunk_and_embed w m)
          (get_call m.job.tenant_id m.job.source_uri ∷ log) tt (λ e. retry_or_dlq-ne-ok w m _ e _)
          h in
      (get, payload, refl, same, next)

  chunk_and_embed-ok :
      (payload : Text) (log : Log E)
      → (chunk_and_embed w m payload log).0 ≡ ok tt
      → chunk_and_embed w m payload log
        ≡ embed_by w w.embedder m (chunk_payload payload (pos w.chunk_size)) log
  unfolding chunk_and_embed embed_chunks
  chunk_and_embed-ok payload log h =
      elim (Bool-cases (is_empty (chunk_payload payload (pos w.chunk_size)))) [
        | inl e ↦ absurd (retry_or_dlq-ne-ok w m _ _ log (rw e at h))
        | inr e ↦ rw e
      ]

  process_new-ok :
      (log : Log E) → (process_new w m log).0 ≡ ok tt → Stored log (process_new w m log)
  unfolding process_new load_payload
  process_new-ok log h =
      let (get, payload, has_store, loaded, next) = load_from-ok w.blob_store log h in
      let fetched : Log E = get_call m.job.tenant_id m.job.source_uri ∷ log in
      let h' : (chunk_and_embed w m payload fetched).0 ≡ ok tt = sym (ap (λ r. r.0) next) ∙ h in
      let next' = chunk_and_embed-ok payload fetched h' in
      let (embed, vectors, records, has_embedder, embedded, built, indexed) =
        embed_by-ok w.embedder (chunk_payload payload (pos w.chunk_size)) fetched
          (sym (ap (λ r. r.0) next') ∙ h') in
      record {
        get = get;
        payload = payload;
        embed = embed;
        vectors = vectors;
        records = records;
        has_store = has_store;
        loaded = loaded;
        has_embedder = has_embedder;
        embedded = embedded;
        built = built;
        indexed = rw (next ∙ next') indexed;
      }

-- The message was done before: its key was known, and nothing else was asked.
pub record Skipped {E : Type 0} (w : Worker E) (m : QueueMessage) (log after : Log E) : Type 0 where
  pub store : IdempotencyStore E
  pub has_store : w.idem ≡ some store
  pub known : store.exists log m.idempotency_key ≡ ok true
  pub asked : after ≡ exists_call m.idempotency_key ∷ log

module _ {E : Type 0} (w : Worker E) (m : QueueMessage) where
  -- After the lookup, if there is a store to look into.
  pub looked_up : Log E → Log E
  looked_up log = (already_done w m.idempotency_key log).1

  unless_done-ok :
      (idem : Option (IdempotencyStore E)) (log : Log E)
      → w.idem ≡ idem
      → (either (exists_in w idem m.idempotency_key) fail (unless_done w m) log).0 ≡ ok tt
      → Skipped w m log (either (exists_in w idem m.idempotency_key) fail (unless_done w m) log).1
        ⊎ Stored w m
            (exists_in w idem m.idempotency_key log).1
            (either (exists_in w idem m.idempotency_key) fail (unless_done w m) log)
  unfolding either exists_in unless_done
  unless_done-ok none log has h = inr (process_new-ok w m log h)
  unless_done-ok (some store) log has h =
      let (done, same, next) =
        settle-ok (store.exists log m.idempotency_key) fail (unless_done w m)
          (exists_call m.idempotency_key ∷ log) tt
          (λ e. fail-ne-ok e (exists_call m.idempotency_key ∷ log)) h in
      rw next (decided done same (sym (ap (λ r. r.0) next) ∙ h))
    where
      fail-ne-ok : (e : Err) (log : Log E) → (fail {E = E} {A = Unit {0}} e log).0 ≢ ok tt
      fail-ne-ok e log h = cc

      decided :
          (done : Bool)
          → store.exists log m.idempotency_key ≡ ok done
          → (unless_done w m done (exists_call m.idempotency_key ∷ log)).0 ≡ ok tt
          → Skipped w m log (unless_done w m done (exists_call m.idempotency_key ∷ log)).1
            ⊎ Stored w m
                (exists_call m.idempotency_key ∷ log)
                (unless_done w m done (exists_call m.idempotency_key ∷ log))
      decided true same h =
          inl (record { store = store; has_store = has; known = same; asked = refl })
      decided false same h = inr (process_new-ok w m (exists_call m.idempotency_key ∷ log) h)

  Stored-words :
      (log : Log E) (after : Result (Unit {0}) × Log E) (s : Stored w m log after)
      → words_of (map (λ (r : VectorRecord E). r.chunk_text) s.records) ≡ fields s.payload
  Stored-words log after s =
      ap words_of s.built.texts_kept ∙ chunk_payload-words s.payload (pos w.chunk_size)

  with_words :
      (log : Log E) (after : Result (Unit {0}) × Log E)
      → Stored w m log after
      → (s : Stored w m log after) × (words_of
            (map (λ (r : VectorRecord E). r.chunk_text) s.records)
          ≡ fields s.payload)
  with_words log after s = (s, Stored-words log after s)

validated-ok :
    {E : Type 0} (v : Result (Unit {0})) (next : Action E (Unit {0})) (log : Log E)
    → (either (lift v) fail (λ _. next) log).0 ≡ ok tt
    → either (lift v) fail (λ _. next) log ≡ next log
unfolding either
validated-ok (ok u) next log h = refl
validated-ok (err e) next log h = cc

-- What it means that a message is processed without an error. Either its idempotency key was known,
-- and the lookup is the only call that was made. Or the blob was loaded and its chunks embedded, the
-- index took the records, which carry the words of the blob, in order and none besides, each record
-- valid and of the message's job; then, and nothing besides, the key was saved if there is a store
-- for it, which accepted it, and the three retention records, of the blob, the chunks and the audit
-- event, were applied if there is a hook, which accepted each of them.
pub process_message-ok :
    {E : Type 0} (w : Worker E) (message : QueueMessage) (log : Log E)
    → (process_message w message log).0 ≡ ok tt
    → let m = with_key w message in
      Skipped w m log (process_message w message log).1
      ⊎ ((s : Stored w m (looked_up w m log) (process_message w message log)) × (words_of
              (map (λ (r : VectorRecord E). r.chunk_text) s.records)
            ≡ fields s.payload))
unfolding process_message already_done looked_up
process_message-ok w message log h =
    let m = with_key w message in
    let next = validated-ok _ _ log h in
    elim (unless_done-ok w m w.idem log refl (sym (ap (λ r. r.0) next) ∙ h)) [
      | inl s ↦ inl (rw next s)
      | inr s ↦ inr (with_words w m _ _ (subst (Stored w m (looked_up w m log)) (sym next) s))
    ]
