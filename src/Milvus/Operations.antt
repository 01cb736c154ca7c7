-- ===== src/Milvus/Operations.antt =====
-- internal/adapters/vector/milvus/adapter.go: the operations of the adapter.
pub mod Purged
pub mod Best
pub mod Held
use fine_rag_core.Prelude.{
  ℕ, ℤ, pos, Bool, Option, none, some, List, [], ◌∷◌, map, length, is_empty, get_elem?, ltb, take,
  if◌then◌else◌,
}
use fine_rag_core.Text.{Text, txt, trim_space, Unicode, to_lower}
use fine_rag_core.Result.{Err}
use fine_rag_core.Sorting.{sort_stable}
use fine_rag_core.Contracts.Tenant.{TenantId, validate_tenant_id}
use fine_rag_core.Contracts.Job.{VectorRecord}
use fine_rag_core.Contracts.Retrieval.{Float64, RetrievalDocument}
use fine_rag_core.Milvus.{
  ResultColumn, SearchResult, Client, Adapter, M, ◌>>=◌, ◌>>◌, pure, checked, call, Reply, ended,
}
use fine_rag_core.Milvus.Collection.{
  field_record_id, field_chunk_text, field_source_uri, field_metadata, field_embedding,
  ensure_collection,
}
use fine_rag_core.Milvus.Guards.{query_limit, admit_text, admit_embedding, admit_records}
use fine_rag_core.Milvus.Rows.{
  MetadataCodec, unmarshal_metadata, columns_of, read_column_string, read_field, each_from,
  rows_from_result_set, tenant_expr, lexical_score,
}

-- What the operations take from outside: `strconv.Atoi`, the verb `%q` and JSON.
pub record Formats : Type 0 where
  pub atoi : Text → Option ℤ
  pub quoted : Text → Text
  pub json : MetadataCodec

module _ {W E : Type 0} (u : Unicode) (is_deadline : Err → Bool) (x : Formats)
    (k : Client W E) where
  flush_step : M W (Unit {0})
  unfolding txt
  flush_step = call (txt "error") λ c. k.flush c.collection

  upsert_steps : List (VectorRecord E) → M W (Unit {0})
  unfolding ensure_collection columns_of flush_step txt
  upsert_steps records = do
    dim ← checked (txt "validation_error") (admit_records records)
    ensure_collection u x.atoi k (txt "collection_error") (pos dim)
    call (txt "error") λ c. k.upsert c.collection (columns_of x.json (pos dim) records)
    flush_step

  unfoldable pub upsert : List (VectorRecord E) → ℤ → Adapter W → Reply (Unit {0}) × Adapter W
  unfolding upsert_steps ended txt
  upsert records latency a = ended u is_deadline (txt "upsert") latency (upsert_steps records a)

  delete_step : TenantId → M W (Unit {0})
  unfolding tenant_expr txt
  delete_step t = call (txt "error") λ c. k.delete c.collection (tenant_expr x.quoted t)

  purge_steps : TenantId → M W (Unit {0})
  unfolding delete_step flush_step txt
  purge_steps t = do
    checked (txt "validation_error") (validate_tenant_id t)
    ensure_collection u x.atoi k (txt "error") (pos 0)
    delete_step t
    flush_step

  unfoldable pub purge_tenant : TenantId → ℤ → Adapter W → Reply (Unit {0}) × Adapter W
  unfolding purge_steps ended txt
  purge_tenant t latency a = ended u is_deadline (txt "purge") latency (purge_steps t a)

  module _ {S : Type 0} (f : Float64 S) (hundredths : ℕ → S) (of_float32 : E → S) where
    -- The documents of the rows, each with its score.
    scored_rows : TenantId → Text → List ResultColumn → List (RetrievalDocument S)
    unfolding rows_from_result_set lexical_score
    scored_rows t query_text columns =
        let query = trim_space (to_lower u query_text) in
        map
          (λ (d : RetrievalDocument S). record d {
            score = lexical_score f hundredths u query d.content;
          })
          (rows_from_result_set f x.json columns t)

    -- The best first, cut at `topK`.
    unfoldable pub ranked_rows :
        TenantId → Text → ℕ → List ResultColumn → List (RetrievalDocument S)
    unfolding scored_rows sort_stable
    ranked_rows t query_text top_k columns =
        let docs = sort_stable (λ a b. f.gt a.score b.score) (scored_rows t query_text columns) in
        if ltb top_k (length docs) then take top_k docs else docs

    pub query_step : TenantId → ℕ → M W (List ResultColumn)
    unfolding tenant_expr query_limit txt
    query_step t n = call (txt "error") λ c.
        k.query c.collection (tenant_expr x.quoted t)
          (field_record_id ∷ field_chunk_text ∷ field_source_uri ∷ field_metadata ∷ [])
          (query_limit n)

    documents_of : TenantId → Text → ℕ → List ResultColumn → List (RetrievalDocument S)
    unfolding ranked_rows
    documents_of t query_text n columns =
        if is_empty columns then [] else ranked_rows t query_text n columns

    search_steps : TenantId → Text → ℤ → M W (List (RetrievalDocument S))
    unfolding ensure_collection query_step documents_of txt
    search_steps t query_text top_k = do
      n ← checked (txt "validation_error") (admit_text t query_text top_k)
      ensure_collection u x.atoi k (txt "error") (pos 0)
      columns ← query_step t n
      pure (documents_of t query_text n columns)

    unfoldable pub search :
        TenantId → Text → ℤ → ℤ → Adapter W → Reply (List (RetrievalDocument S)) × Adapter W
    unfolding search_steps ended txt
    search t query_text top_k latency a =
        ended u is_deadline (txt "search") latency (search_steps t query_text top_k a)

    score_at : List E → ℕ → S
    score_at scores i = elim (get_elem? scores i) [ none ↦ f.of_int 0 | some s ↦ of_float32 s ]

    found_document : TenantId → SearchResult E → ℕ → RetrievalDocument S
    unfolding read_field read_column_string unmarshal_metadata score_at
    found_document t r i = record {
      document_id = read_column_string r.ids i;
      tenant_id = t;
      content = read_field r.fields field_chunk_text i;
      score = score_at r.scores i;
      source_uri = read_field r.fields field_source_uri i;
      metadata = unmarshal_metadata x.json (read_field r.fields field_metadata i);
    }

    -- The documents of the first result.
    first_result : TenantId → List (SearchResult E) → List (RetrievalDocument S)
    unfolding found_document
    first_result t [] = []
    first_result t (r ∷ rs) = each_from r.result_count 0 (found_document t r)

    search_by_embedding_steps : TenantId → List E → ℤ → M W (List (RetrievalDocument S))
    unfolding ensure_collection tenant_expr first_result txt
    search_by_embedding_steps t query top_k = do
      n ← checked (txt "validation_error") (admit_embedding t query top_k)
      ensure_collection u x.atoi k (txt "error") (pos (length query))
      call (txt "error") λ c. k.load_collection c.collection
      checked (txt "error") k.search_param
      results ← call (txt "error") λ c.
          k.search c.collection (tenant_expr x.quoted t)
            (field_chunk_text ∷ field_source_uri ∷ field_metadata ∷ []) query field_embedding
            (pos n)
      pure (first_result t results)

    unfoldable pub search_by_embedding :
        TenantId → List E → ℤ → ℤ → Adapter W → Reply (List (RetrievalDocument S)) × Adapter W
    unfolding search_by_embedding_steps ended txt
    search_by_embedding t query top_k latency a =
        ended u is_deadline (txt "search_by_embedding") latency
          (search_by_embedding_steps t query top_k a)
