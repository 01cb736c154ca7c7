-- ===== src/Vectors.antt =====
-- internal/adapters/vector/stub/adapter.go: the vector store in memory, with a list of records for
-- each tenant. The mutex makes each call one step; how long a call took is an argument of the step.
pub mod Shards
pub mod Isolation
pub mod Errors
use fine_rag_core.Prelude.{
  ℤ, pos, is_nonpos, ltb_ℤ, ◌||◌, Option, none, some, List, [], ◌∷◌, ◌++◌, map, length, is_empty,
  if◌then◌else◌,
}
use fine_rag_core.Text.{Text, txt, trim_space, is_blank, contains, Unicode, to_lower}
use fine_rag_core.Result.{Err, new, Result, ok, err, ◌>>=◌, ◌>>◌, reject_if}
use fine_rag_core.Dict.{Dict, lookup, insert, remove, get_or_zero}
use fine_rag_core.Sorting.{sort_stable}
use fine_rag_core.Contracts.Tenant.{TenantId, validate_tenant_id}
use fine_rag_core.Contracts.Job.{VectorRecord, validate_vector_record}
use fine_rag_core.Contracts.Retrieval.{Float64, RetrievalDocument, VectorCallTrace, take_int}

pub record Adapter (E : Type 0) : Type 0 where
  pub store : Dict (List (VectorRecord E))
  pub last_trace : VectorCallTrace

-- `var lastTrace contracts.VectorCallTrace`
abbrev pub no_trace : VectorCallTrace
no_trace = record { provider = []; status = []; latency_millis = pos 0 }

unfoldable pub new_adapter : {E : Type 0} → Adapter E
new_adapter = record { store = []; last_trace = no_trace }

-- What the similarity does with a `float32` and with a `float64`, beyond `Float64`; the scores 0.1
-- and 1 of a search by text.
pub record Arithmetic (E S : Type 0) : Type 0 where
  pub of_float32 : E → S
  pub mul : S → S → S
  pub div : S → S → S
  pub sqrt : S → S
  pub zero : S
  pub one : S
  pub tenth : S

module _ {E : Type 0} where
  unfoldable pub mark_trace : Text → ℤ → Adapter E → Adapter E
  mark_trace status latency a = record a {
    last_trace = record { provider = txt "stub"; status = status; latency_millis = latency };
  }

  -- `a.store[t]`
  abbrev pub stored : TenantId → Dict (List (VectorRecord E)) → List (VectorRecord E)
  stored t store = get_or_zero [] (lookup t store)

  append_valid :
      Result (Unit {0})
      → Dict (List (VectorRecord E))
      → Option Err × Dict (List (VectorRecord E))
      → Option Err × Dict (List (VectorRecord E))
  append_valid (err e) store rest = (some e, store)
  append_valid (ok _) store rest = rest

  -- The loop of `Upsert`: the records before the first one that is not valid stay in the store.
  unfoldable pub append_records :
      List (VectorRecord E)
      → Dict (List (VectorRecord E))
      → Option Err × Dict (List (VectorRecord E))
  unfolding append_valid
  append_records [] store = (none, store)
  append_records (r ∷ rs) store =
      let longer = insert r.tenant_id (stored r.tenant_id store ++ r ∷ []) store in
      append_valid (validate_vector_record r) store (append_records rs longer)

  unfoldable pub upsert : List (VectorRecord E) → ℤ → Adapter E → Option Err × Adapter E
  unfolding mark_trace append_records
  upsert records latency a =
      let marked = mark_trace (txt "ok") latency a in
      let (e, store) = append_records records a.store in
      if is_empty records
      then (some (new (txt "at least one record is required")), marked)
      else (e, record marked { store = store })

  purged : Result (Unit {0}) → TenantId → Adapter E → Option Err × Adapter E
  purged (err e) t a = (some e, a)
  purged (ok _) t a = (none, record a { store = remove t a.store })

  unfoldable pub purge_tenant : TenantId → Adapter E → Option Err × Adapter E
  unfolding purged
  purge_tenant t a = purged (validate_tenant_id t) t a

  abbrev pub last_vector_trace : Adapter E → VectorCallTrace
  last_vector_trace a = a.last_trace

  module _ {S : Type 0} (f : Float64 S) (x : Arithmetic E S) where
    abbrev dot_from : List E → List E → S × (S × S) → S × (S × S)
    dot_from [] right sums = sums
    dot_from (l ∷ left) [] sums = sums
    dot_from (l ∷ left) (r ∷ right) (dot, (left_norm, right_norm)) =
        let a = x.of_float32 l in
        let b = x.of_float32 r in
        dot_from left right
          (f.add dot (x.mul a b), (f.add left_norm (x.mul a a), f.add right_norm (x.mul b b)))

    unfoldable pub cosine_similarity : List E → List E → S
    cosine_similarity left right =
        let (dot, (left_norm, right_norm)) = dot_from left right (x.zero, (x.zero, x.zero)) in
        if is_empty left || is_empty right
        then x.zero
        else if f.eq left_norm x.zero || f.eq right_norm x.zero
        then x.zero
        else x.div dot (x.mul (x.sqrt left_norm) (x.sqrt right_norm))

    unfoldable pub document_of : (VectorRecord E → S) → VectorRecord E → RetrievalDocument S
    document_of score r = record {
      document_id = r.record_id;
      tenant_id = r.tenant_id;
      content = r.chunk_text;
      score = score r;
      source_uri = r.source_uri;
      metadata = [];
    }

    -- The documents of some records, the best first, cut at `topK`.
    unfoldable pub best :
        (VectorRecord E → S) → ℤ → List (VectorRecord E) → List (RetrievalDocument S)
    unfolding document_of sort_stable
    best score top_k records =
        let docs = sort_stable (λ a b. f.gt a.score b.score) (map (document_of score) records) in
        if ltb_ℤ top_k (pos (length docs)) then take_int top_k docs else docs

    unfoldable pub text_score : Unicode → Text → VectorRecord E → S
    text_score u query r =
        if contains (to_lower u r.chunk_text) (to_lower u (trim_space query))
        then x.one
        else x.tenth

    -- The answers to the two searches from the records of a tenant.
    unfoldable pub search_records :
        Unicode → TenantId → Text → ℤ → List (VectorRecord E) → Result (List (RetrievalDocument S))
    unfolding best text_score
    search_records u t query top_k records = do
      validate_tenant_id t
      reject_if (is_blank query) (new (txt "query text is required"))
      reject_if (is_nonpos top_k) (new (txt "top_k must be > 0"))
      ok (best (text_score u query) top_k records)

    unfoldable pub search_records_by_embedding :
        TenantId → List E → ℤ → List (VectorRecord E) → Result (List (RetrievalDocument S))
    unfolding best cosine_similarity
    search_records_by_embedding t query top_k records = do
      validate_tenant_id t
      reject_if (is_empty query) (new (txt "query embedding is required"))
      reject_if (is_nonpos top_k) (new (txt "top_k must be > 0"))
      ok (best (λ r. cosine_similarity query r.embedding) top_k records)

    unfoldable pub search :
        Unicode
        → TenantId
        → Text
        → ℤ
        → ℤ
        → Adapter E
        → Result (List (RetrievalDocument S)) × Adapter E
    unfolding mark_trace search_records
    search u t query top_k latency a =
        (search_records u t query top_k (stored t a.store), mark_trace (txt "ok") latency a)

    unfoldable pub search_by_embedding :
        TenantId → List E → ℤ → ℤ → Adapter E → Result (List (RetrievalDocument S)) × Adapter E
    unfolding mark_trace search_records_by_embedding
    search_by_embedding t query top_k latency a = (
      search_records_by_embedding t query top_k (stored t a.store),
      mark_trace (txt "ok") latency a,
    )
