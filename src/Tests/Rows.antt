-- ===== src/Tests/Rows.antt =====
-- internal/adapters/vector/milvus/adapter.go at concrete inputs.
use fine_rag_core.Prelude.{
  ℕ, ◌<◌, ◌≡◌, refl, ℤ, pos, true, false, Bool, none, List, [], ◌∷◌, drop, if◌then◌else◌, arith,
}
use fine_rag_core.Text
use fine_rag_core.Text.{Text, txt, str_eq}
use fine_rag_core.Result.{Err, ok}
use fine_rag_core.Sorting.{IsAsymmetric}
use fine_rag_core.Contracts.Tenant
use fine_rag_core.Contracts.Job.{VectorRecord}
use fine_rag_core.Contracts.Retrieval.{RetrievalDocument}
use fine_rag_core.Milvus.{Client, Adapter, answered}
use fine_rag_core.Milvus.Collection
use fine_rag_core.Milvus.Collection.Prepared.{IsPreparing}
use fine_rag_core.Milvus.Rows
use fine_rag_core.Milvus.Rows.{MetadataCodec, columns_of, escape_expr_string, rows_from_result_set}
use fine_rag_core.Milvus.Guards
use fine_rag_core.Milvus.Operations.Held.{given}
use fine_rag_core.Milvus.Operations
use fine_rag_core.Milvus.Operations.{Formats}
use fine_rag_core.Milvus.Operations.Best.{IsBest, search-answered}
use fine_rag_core.Milvus.Operations.Purged.{
  is_plain, of_tenant, without, Deletes, purge_tenant-answered,
}
use fine_rag_core.Vectors.{no_trace}
use fine_rag_core.Tests.Search.{plain, whole}

abbrev json : MetadataCodec
json = record { marshal = λ m. none; unmarshal = λ t. none }

abbrev formats : Formats
formats = record { atoi = λ t. none; quoted = λ t. t; json = json }

abbrev vector : Text → Text → VectorRecord ℕ
vector t id = record {
  record_id = id;
  tenant_id = t;
  job_id = txt "j";
  chunk_text = txt "some text";
  embedding = 1 ∷ [];
  metadata = [];
  indexed_at = 1;
  source_uri = txt "s";
  object_key = [];
  checksum = txt "c";
  retry_count = pos 0;
}

abbrev Store : Type 0
Store = List (VectorRecord ℕ)

abbrev no_text : {A : Type 0} → A → Text
no_text a = []

abbrev tenant_of : VectorRecord ℕ → Text
tenant_of r = r.tenant_id

-- A store that holds records. What stands behind `tenant_id == ` is the name of the tenant.
abbrev client : Client Store ℕ
client = record {
  has_collection = λ c w. (ok true, w);
  describe_collection =
      λ c w. (ok ((record { name = Collection.field_object_key; dim = none }) ∷ []), w);
  create_collection = λ s w. (ok tt, w);
  create_index = λ c f w. (ok tt, w);
  load_collection = λ c w. (ok tt, w);
  flush = λ c w. (ok tt, w);
  upsert = λ c columns w. (ok tt, w);
  query = λ c expr fs limit w. (
    ok (given whole formats no_text no_text (pos 1) fs (of_tenant tenant_of (drop 13 expr) w)),
    w,
  );
  search = λ c expr fs query f n w. (ok [], w);
  delete = λ c expr w. (ok tt, without (λ r. r.tenant_id) (drop 13 expr) w);
  auto_index = ok tt;
  search_param = ok tt;
}

abbrev adapter : Adapter Store
adapter = record {
  cfg = record {
    endpoint = txt "e";
    database = txt "d";
    collection = txt "c";
    username = [];
    password = [];
    token = txt "k";
    tls = true;
  };
  world = vector (txt "t") (txt "1") ∷ vector (txt "v") (txt "2") ∷ [];
  dim = pos 1;
  last_trace = no_trace;
}

abbrev never : Err → Bool
never e = false

abbrev rows : Text → Store → List (VectorRecord ℕ)
rows c w = w

client-IsPreparing : IsPreparing (rows (txt "c")) client
client-IsPreparing = record {
  has = λ c w. refl;
  describe = λ c w. refl;
  create = λ s w. refl;
  index = λ c f w. refl;
  load = λ c w. refl;
  flush = λ c w. refl;
}

client-Deletes : Deletes tenant_of plain never formats client rows (txt "c")
unfolding Rows.tenant_is Collection.field_tenant_id txt
client-Deletes t w h = refl

purge_answered :
    (Operations.purge_tenant plain never formats client (txt "t") (pos 1) adapter).0 ≡ answered tt
unfolding Operations.purge_tenant Collection.ensure_collection Collection.field_object_key txt
    Text.str_eq Collection.field_embedding Tenant.validate_tenant_id
purge_answered = refl

purge_tenant-answered_example :
    (of_tenant tenant_of
        (txt "t")
        (Operations.purge_tenant plain never formats client (txt "t") (pos 1) adapter).1.world
      ≡ (if is_plain (txt "t") then [] else of_tenant tenant_of (txt "t") adapter.world))
    × (of_tenant tenant_of
          (txt "v")
          (Operations.purge_tenant plain never formats client (txt "t") (pos 1) adapter).1.world
        ≡ (if str_eq (txt "v") (escape_expr_string (txt "t"))
            then []
            else of_tenant tenant_of (txt "v") adapter.world))
purge_tenant-answered_example =
    purge_tenant-answered tenant_of plain never formats client rows (txt "t") adapter
      client-IsPreparing client-Deletes (pos 1) (txt "v") purge_answered

-- The records of the tenant that the filter names.
abbrev held : Text → ℤ → Store → List (VectorRecord ℕ)
held t limit w = of_tenant tenant_of (escape_expr_string t) w

abbrev read_again : Text → RetrievalDocument ℕ
read_again id = record {
  document_id = id;
  tenant_id = txt "t";
  content = txt "some text";
  score = 10;
  source_uri = txt "s";
  metadata = [];
}

abbrev best : List (RetrievalDocument ℕ)
best = read_again (txt "1") ∷ []

whole-IsAsymmetric : IsAsymmetric whole.gt
whole-IsAsymmetric a b h = ground arith

search_done :
    (Operations.search plain never formats client whole
      (λ n. n)
      (λ e. e)
      (txt "t")
      (txt "Text")
      (pos 1)
      (pos 1)
      adapter).0
    ≡ answered best
unfolding Operations.search Collection.ensure_collection Collection.field_object_key txt Text.str_eq
    Collection.field_embedding Guards.admit_text Rows.columns_of Rows.rows_from_result_set
    Rows.read_field Rows.value_at Tenant.validate_tenant_id Text.trim_space Text.trim_right
    Text.trim_left Text.is_space Text.fields Text.fields_from Text.to_lower Text.lower_rune
    Text.contains Text.has_prefix Text.byte_len Text.width Rows.unmarshal_metadata
    Rows.marshal_metadata Rows.tenant_is
search_done = refl

search-answered_example : (n : ℕ) × (pos 1 ≡ pos n) × (0 < n) × IsBest whole (txt "t") n best
search-answered_example =
    search-answered whole plain never formats client (λ n. n) (λ e. e) whole-IsAsymmetric (txt "t")
      (txt "Text") (pos 1) (pos 1) adapter best search_done
