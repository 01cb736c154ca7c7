-- ===== src/Milvus/Rows.antt =====
-- internal/adapters/vector/milvus/adapter.go: records as columns, columns as documents, the filter of
-- a tenant and the score by words.
pub mod Written
use fine_rag_core.Prelude.{
  ℕ, zero, suc, ◌+◌, ◌-◌, ◌/◌, ◌%◌, ℤ, pos, negsuc, Option, none, some, List, [], ◌∷◌, ◌++◌, map,
  is_empty, leb, ◌==◌, if◌then◌else◌,
}
use fine_rag_core.Text.{
  Text, txt, str_eq, trim_space, fields, byte_len, contains, Unicode, to_lower,
}
use fine_rag_core.Contracts.Tenant.{Time, TenantId}
use fine_rag_core.Contracts.Job.{Attributes, VectorRecord}
use fine_rag_core.Contracts.Retrieval.{Float64, RetrievalDocument}
use fine_rag_core.Milvus.{Column, texts, numbers, vectors, ResultColumn}
use fine_rag_core.Milvus.Collection.{
  field_record_id, field_tenant_id, field_job_id, field_chunk_text, field_source_uri,
  field_object_key, field_checksum, field_retry_count, field_indexed_at_ms, field_metadata,
  field_embedding,
}

-- `json.Marshal` of a map, and `json.Unmarshal` into one.
pub record MetadataCodec : Type 0 where
  pub marshal : Attributes → Option Text
  pub unmarshal : Text → Option Attributes

or_braces : Option Text → Text
or_braces none = txt "{}"
or_braces (some encoded) = encoded

unfoldable pub marshal_metadata : MetadataCodec → Attributes → Text
unfolding or_braces txt
marshal_metadata j metadata = if is_empty metadata then txt "{}" else or_braces (j.marshal metadata)

or_no_metadata : Option Attributes → Attributes
or_no_metadata none = []
or_no_metadata (some decoded) = decoded

unfoldable pub unmarshal_metadata : MetadataCodec → Text → Attributes
unfolding or_no_metadata
unmarshal_metadata j raw =
    let text = trim_space raw in if is_empty text then [] else or_no_metadata (j.unmarshal text)

-- 1970-01-01 in nanoseconds since Go's zero time.
abbrev unix_epoch : Time
unix_epoch = 62_135_596_800_000_000_000

-- `UnixMilli`, which rounds down.
unfoldable pub unix_milli : Time → ℤ
unix_milli t =
    if leb unix_epoch t
    then pos ((t - unix_epoch) / 1_000_000)
    else negsuc ((unix_epoch - t - 1) / 1_000_000)

-- The columns of `Upsert`, in the order of the call.
unfoldable pub columns_of :
    {E : Type 0} → MetadataCodec → ℤ → List (VectorRecord E) → List (Column E)
unfolding unix_milli
columns_of j dim rs =
    texts field_record_id (map (λ r. r.record_id) rs)
    ∷ texts field_tenant_id (map (λ r. r.tenant_id) rs)
    ∷ texts field_job_id (map (λ r. r.job_id) rs)
    ∷ texts field_chunk_text (map (λ r. r.chunk_text) rs)
    ∷ texts field_source_uri (map (λ r. r.source_uri) rs)
    ∷ texts field_object_key (map (λ r. r.object_key) rs)
    ∷ texts field_checksum (map (λ r. r.checksum) rs)
    ∷ numbers field_retry_count (map (λ r. r.retry_count) rs)
    ∷ numbers field_indexed_at_ms (map (λ r. unix_milli r.indexed_at) rs)
    ∷ texts field_metadata (map (λ r. marshal_metadata j r.metadata) rs)
    ∷ vectors field_embedding dim (map (λ r. r.embedding) rs)
    ∷ []

or_else : Option Text → Option Text → Text
or_else (some v) second = trim_space v
or_else none (some v) = trim_space v
or_else none none = []

-- The value of a column at a row: as text, or as it is printed.
unfoldable pub value_at : ResultColumn → ℕ → Text
unfolding or_else
value_at c i = or_else (c.get_as_string i) (c.get i)

-- `readColumnString`
unfoldable pub read_column_string : Option ResultColumn → ℕ → Text
unfolding value_at
read_column_string none i = []
read_column_string (some c) i = value_at c i

-- `readResultField` and `readSearchField`: the first column with the name.
unfoldable pub read_field : List ResultColumn → Text → ℕ → Text
unfolding value_at
read_field [] field i = []
read_field (c ∷ cs) field i = if str_eq c.name field then value_at c i else read_field cs field i

-- `for i := 0; i < n; i++`, from an `i` on with so many rounds to go.
abbrev pub each_from {ℓ} : {A : Type ℓ} → ℕ → ℕ → (ℕ → A) → List A
each_from zero i f = []
each_from (suc n) i f = f i ∷ each_from n (i + 1) f

-- `resultSet[0].Len()`
abbrev pub row_count : List ResultColumn → ℕ
row_count [] = 0
row_count (c ∷ cs) = c.len

-- `hundredths n` is `float64(n) / 100.0`.
module _ {S : Type 0} (f : Float64 S) (j : MetadataCodec) where
  unfoldable pub row_document : List ResultColumn → TenantId → ℕ → RetrievalDocument S
  unfolding field_record_id field_chunk_text field_source_uri field_metadata
  row_document columns t i = record {
    document_id = read_field columns field_record_id i;
    tenant_id = t;
    content = read_field columns field_chunk_text i;
    score = f.of_int 0;
    source_uri = read_field columns field_source_uri i;
    metadata = unmarshal_metadata j (read_field columns field_metadata i);
  }

  unfoldable pub rows_from_result_set : List ResultColumn → TenantId → List (RetrievalDocument S)
  unfolding row_document
  rows_from_result_set columns t = each_from (row_count columns) 0 (row_document columns t)

unfoldable pub escape_expr_string : Text → Text
escape_expr_string [] = []
escape_expr_string (c ∷ s) =
    let rest = escape_expr_string s in
    if c == b'\\' then b'\\' ∷ b'\\' ∷ rest else if c == b'"' then b'\\' ∷ b'"' ∷ rest else c ∷ rest

-- `field == %q` of a text; `quoted` is the verb.
unfoldable pub tenant_is : (Text → Text) → Text → Text
unfolding field_tenant_id txt
tenant_is quoted literal = field_tenant_id ++ (txt " == " ++ quoted literal)

-- The filter of every query for a tenant.
unfoldable pub tenant_expr : (Text → Text) → TenantId → Text
unfolding escape_expr_string
tenant_expr quoted t = tenant_is quoted (escape_expr_string t)

abbrev hits_of : Text → List Text → ℕ
hits_of content [] = 0
hits_of content (w ∷ ws) = (if contains content w then 1 else 0) + hits_of content ws

unfoldable pub lexical_score : {S : Type 0} → Float64 S → (ℕ → S) → Unicode → Text → Text → S
lexical_score f hundredths u query content =
    let tokens = fields (to_lower u (trim_space query)) in
    let hits = hits_of (to_lower u content) tokens in
    if is_empty tokens
    then f.of_int 0
    else if hits == 0
    then hundredths (byte_len content % 13)
    else f.add (f.of_int hits) (hundredths (byte_len content % 10))
