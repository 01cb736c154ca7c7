-- ===== src/Milvus/Collection.antt =====
-- internal/adapters/vector/milvus/adapter.go: the collection is made, indexed and loaded before it is
-- used.
pub mod Prepared
use fine_rag_core.Prelude.{
  ℕ, ℤ, is_nonpos, Bool, true, false, ◌||◌, Option, none, some, List, [], ◌∷◌, ◌++◌, any_of,
  if◌then◌else◌,
}
use fine_rag_core.Text.{Text, txt, str_eq, contains, Unicode, to_lower}
use fine_rag_core.Result.{Err, new, message, Result, ok, err, reject_if}
use fine_rag_core.Milvus.{
  var_char, int64, float_vector, SchemaField, Schema, FieldInfo, Call, Client, Adapter, Outcome,
  done, stopped, M, ◌>>=◌, ◌>>◌, checked, call,
}

-- The names of the fields.
unfoldable pub field_record_id : Text
field_record_id = txt "record_id"

unfoldable pub field_tenant_id : Text
field_tenant_id = txt "tenant_id"

unfoldable pub field_job_id : Text
field_job_id = txt "job_id"

unfoldable pub field_chunk_text : Text
field_chunk_text = txt "chunk_text"

unfoldable pub field_source_uri : Text
field_source_uri = txt "source_uri"

unfoldable pub field_object_key : Text
field_object_key = txt "object_key"

unfoldable pub field_checksum : Text
field_checksum = txt "checksum"

unfoldable pub field_retry_count : Text
field_retry_count = txt "retry_count"

unfoldable pub field_indexed_at_ms : Text
field_indexed_at_ms = txt "indexed_at_ms"

unfoldable pub field_metadata : Text
field_metadata = txt "metadata_json"

unfoldable pub field_embedding : Text
field_embedding = txt "embedding"

text_field : Text → ℕ → SchemaField
text_field name length = record {
  name = name;
  field_type = var_char length;
  is_primary_key = false;
}

number_field : Text → SchemaField
number_field name = record { name = name; field_type = int64; is_primary_key = false }

unfoldable pub schema_of : Text → ℤ → Schema
unfolding text_field number_field field_record_id field_tenant_id field_job_id field_chunk_text
    field_source_uri field_object_key field_checksum field_retry_count field_indexed_at_ms
    field_metadata field_embedding
schema_of collection dim = record {
  name = collection;
  description = txt "FineR tenant-scoped vector collection";
  fields =
      (record { name = field_record_id; field_type = var_char 256; is_primary_key = true })
      ∷ text_field field_tenant_id 128
      ∷ text_field field_job_id 128
      ∷ text_field field_chunk_text 65535
      ∷ text_field field_source_uri 2048
      ∷ text_field field_object_key 1024
      ∷ text_field field_checksum 128
      ∷ number_field field_retry_count
      ∷ number_field field_indexed_at_ms
      ∷ text_field field_metadata 65535
      ∷ (record { name = field_embedding; field_type = float_vector dim; is_primary_key = false })
      ∷ [];
}

-- An error whose message is expected counts as none.
tolerate : (Text → Bool) → Result (Unit {0}) → Result (Unit {0})
tolerate expected (ok _) = ok tt
tolerate expected (err e) = if expected (message e) then ok tt else err e

tolerant : {W : Type 0} → (Text → Bool) → Call W (Unit {0}) → Call W (Unit {0})
unfolding tolerate
tolerant expected c w = let (r, w') = c w in (tolerate expected r, w')

-- The dimension that a field tells, or the one that is known; `atoi` is `strconv.Atoi`.
learnt_by : Option ℤ → ℤ → ℤ
learnt_by none known = known
learnt_by (some d) known = if is_nonpos d then known else d

told : (Text → Option ℤ) → Option Text → ℤ → ℤ
unfolding learnt_by
told atoi none known = known
told atoi (some d) known = learnt_by (atoi d) known

-- The loop over the fields of a collection: the last dimension that one tells stays.
unfoldable pub learnt : (Text → Option ℤ) → List FieldInfo → ℤ → ℤ
unfolding told field_embedding
learnt atoi [] known = known
learnt atoi (f ∷ fs) known =
    learnt atoi fs (if str_eq f.name field_embedding then told atoi f.dim known else known)

schema_mismatch : Text → Err
unfolding field_object_key txt
schema_mismatch collection = new (
    txt "milvus collection schema mismatch: "
    ++ (field_object_key
        ++ (txt " field is missing in "
            ++ (collection
                ++ txt
                    ". Please drop the collection to allow the backend to recreate it with the correct schema (required for efficient purging)."))))

module _ {W E : Type 0} (u : Unicode) (atoi : Text → Option ℤ) (k : Client W E) where
  mentions : Text → Text → Bool
  mentions word msg = contains (to_lower u msg) word

  -- The steps; all stops have the status `status`.
  index_step : Text → M W (Unit {0})
  unfolding tolerant mentions field_embedding txt
  index_step status = call status λ c.
      tolerant (λ msg. mentions (txt "already") msg || mentions (txt "exist") msg)
        (k.create_index c.collection field_embedding)

  load_step : Text → M W (Unit {0})
  unfolding tolerant mentions txt
  load_step status = call status λ c.
      tolerant (λ msg. mentions (txt "already") msg || mentions (txt "loaded") msg)
        (k.load_collection c.collection)

  unfoldable pub ensure_index_and_load : Text → M W (Unit {0})
  unfolding index_step load_step
  ensure_index_and_load status =
      checked status k.auto_index >> (index_step status >> load_step status)

  -- `a.dim`, after a description; a description that fails is passed over.
  described : Text → Outcome (List FieldInfo) × Adapter W → Outcome (Unit {0}) × Adapter W
  unfolding schema_mismatch learnt field_object_key
  described status (stopped label e, s) = (done tt, s)
  described status (done fields, s) =
      let s' = record s { dim = learnt atoi fields s.dim } in
      if any_of (λ (f : FieldInfo). str_eq f.name field_object_key) fields
      then (done tt, s')
      else (stopped status (schema_mismatch s.cfg.collection), s')

  checked_schema : Text → M W (Unit {0})
  unfolding described
  checked_schema status s =
      described status (call status (λ c. k.describe_collection c.collection) s)

  learn : ℤ → M W (Unit {0})
  learn dim s = (done tt, record s { dim = dim })

  create_step : Text → ℤ → M W (Unit {0})
  unfolding schema_of
  create_step status dim = call status λ c. k.create_collection (schema_of c.collection dim)

  created : Text → ℤ → M W (Unit {0})
  unfolding create_step learn ensure_index_and_load txt
  created status dim = do
    checked status (
        reject_if (is_nonpos dim)
          (new (txt "embedding dimension is required to initialize collection")))
    create_step status dim
    learn dim
    ensure_index_and_load status

  present : Text → ℤ → Bool → M W (Unit {0})
  unfolding checked_schema created ensure_index_and_load
  present status dim true = checked_schema status >> ensure_index_and_load status
  present status dim false = created status dim

  has_step : Text → M W Bool
  has_step status = call status λ c. k.has_collection c.collection

  -- `ensureCollection`, for a dimension or, where it is not positive, for the one that is known.
  unfoldable pub ensure_collection : Text → ℤ → M W (Unit {0})
  unfolding has_step present
  ensure_collection status dim s =
      (has_step status >>= present status (if is_nonpos dim then s.dim else dim)) s
