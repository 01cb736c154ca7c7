-- ===== src/Backend/Objects.antt =====
-- backend/managers/ingestion.go: the objects of a job, and the chunks that `indexPayloadArtifacts` cuts
-- of the text of one.
--
-- The object store, the parser, the embedder and the index are interfaces; a nil one is `none`. The
-- answers for an object may depend on its place among the keys, so that one key may be read twice
-- with different answers.
use fine_rag_core.Prelude.{
  ℕ, ◌+◌, ℤ, pos, negsuc, ◌||◌, Option, none, some, List, [], ◌∷◌, ◌++◌, length, take, is_empty,
  leb, if◌then◌else◌,
}
use fine_rag_core.Text.{Text, txt, str_eq, trim_space, Unicode}
use fine_rag_core.Result.{Err, Result, ok, err}
use fine_rag_core.Dict.{Dict, insert}
use fine_rag_core.Contracts.Tenant.{Time, TenantId}
use fine_rag_core.Contracts.Job.{Attributes, VectorRecord}
use fine_rag_core.Ingestion.Worker.{decimal}
use fine_rag_core.Backend.Chunks.{chunk_text}
use fine_rag_core.Backend.Json.{Any, object, members_of, value_of, as_string, as_array}
use fine_rag_core.Backend.Content.{
  has_suffix, last_part, infer_person_hint, is_text_like_content, is_pdf_content,
  infer_content_type, is_complex_content, extract_searchable_text,
}

-- The body of an object: its bytes, and an error that reading on meets.
pub record Body : Type 0 where
  pub bytes : List ℕ
  pub fault : Option Err

-- `now` and the text of a PDF come from outside of this file. A Go map is met in any order:
-- `map_order` is the one of this run.
pub record Indexer (E : Type 0) : Type 0 where
  pub index : Option (List (VectorRecord E) → Option Err)
  pub object_store : Option (ℕ → Text → Result Body)
  pub embedder : Option (TenantId → List Text → Result (List (List E)))
  pub parser : Option (ℕ → TenantId → Text → List ℕ → Text × Option Err)
  pub upload_bucket : Text
  pub max_object_bytes : ℤ
  pub chunk_size_chars : ℤ
  pub chunk_overlap_words : ℤ
  pub pdf_text : List ℕ → Text
  pub unicode : Unicode
  pub now : Time
  pub map_order : Dict (Dict Any) → Dict (Dict Any)

-- `io.ReadAll(io.LimitReader(body, n))`: at the limit it stops, as at the end.
unfoldable pub read_limited : ℤ → Body → Result (List ℕ)
read_limited (negsuc n) b = ok []
read_limited (pos n) b =
    if leb n (length b.bytes)
    then ok (take n b.bytes)
    else elim b.fault [ none ↦ ok b.bytes | some e ↦ err e ]

-- What the loops gather of a chunk.
pub record PendingChunk : Type 0 where
  pub record_id : Text
  pub chunk : Text
  pub metadata : Attributes
  pub source_uri : Text
  pub indexed_at : Time
  pub checksum : Text
  pub retry_count : ℤ
  pub tenant_id : TenantId
  pub job_id : Text
  pub object_key : Text

-- `localItemByPath`, from `payload["localItems"]`
abbrev pub add_item : Any → Dict (Dict Any) → Dict (Dict Any)
add_item (object ms) paths =
    let relative_path = trim_space (as_string (value_of (txt "relativePath") (members_of ms))) in
    if is_empty relative_path then paths else insert relative_path (members_of ms) paths
add_item _ paths = paths

abbrev pub add_items : List Any → Dict (Dict Any) → Dict (Dict Any)
add_items [] paths = paths
add_items (v ∷ vs) paths = add_items vs (add_item v paths)

unfoldable pub local_items : Dict Any → Dict (Dict Any)
unfolding value_of txt
local_items payload = elim (as_array (value_of (txt "localItems") payload)) [
  | none ↦ []
  | some vs ↦ add_items vs []
]

-- The loop over the items, up to the first one whose path fits.
unfoldable pub declared_type : Text → Text → Dict (Dict Any) → Text
unfolding has_suffix str_eq value_of txt
declared_type key relative_path [] = []
declared_type key relative_path ((rel, it) ∷ rest) =
    let more = declared_type key relative_path rest in
    if has_suffix key rel || str_eq rel relative_path
    then trim_space (as_string (value_of (txt "type") it))
    else more

unfoldable pub chunk_metadata : Text → Text → Text → Text → Attributes
unfolding txt
chunk_metadata key relative_path source_uri person_hint =
    (txt "object_key", key)
    ∷ (txt "relative_path", relative_path)
    ∷ (txt "file_name", relative_path)
    ∷ (txt "source_uri", source_uri)
    ∷ (if is_empty person_hint then [] else (txt "person_hint", person_hint) ∷ [])

-- "vec-" + jobID + "-" + strconv.Itoa(keyIndex) + "-" + strconv.Itoa(chunkIndex)
unfoldable pub chunk_id : Text → ℕ → ℕ → Text
chunk_id job_id i j = txt "vec-" ++ (job_id ++ (txt "-" ++ (decimal i ++ (txt "-" ++ decimal j))))

module _ {E : Type 0} (m : Indexer E) (t : TenantId) (job_id checksum fallback : Text) where
  -- The text that the parser returns is taken even where it returns an error as well.
  unfoldable pub complex_text : ℕ → Text → List ℕ → Text
  complex_text i content_type bytes = elim m.parser [
    | none ↦ []
    | some parse ↦
        let (text, error) = parse i t content_type bytes in
        if is_complex_content m.unicode content_type then text else []
  ]

  unfoldable pub object_text : ℕ → Text → Text → Text → List ℕ → Text
  unfolding complex_text
  object_text i key relative_path declared bytes =
      let first = complex_text i (infer_content_type m.unicode declared key) bytes in
      let basic =
        if is_pdf_content m.unicode declared key
        then m.pdf_text bytes
        else if is_text_like_content m.unicode declared key
        then extract_searchable_text bytes
        else [] in
      let text = if is_empty first then basic else first in
      let placeholder =
        txt "uploaded document "
        ++ (relative_path
            ++ (txt " for tenant "
                ++ (t ++ (if is_empty declared then [] else txt " (" ++ (declared ++ txt ")"))))) in
      if is_empty text then placeholder else text

  unfoldable pub pending_chunk : ℕ → Text → Text → Text → Text → ℕ → Text → PendingChunk
  unfolding chunk_metadata chunk_id
  pending_chunk i key relative_path source_uri person_hint j chunk = record {
    record_id = chunk_id job_id i j;
    chunk = chunk;
    metadata = chunk_metadata key relative_path source_uri person_hint;
    source_uri = source_uri;
    indexed_at = m.now;
    checksum = checksum;
    retry_count = pos 0;
    tenant_id = t;
    job_id = job_id;
    object_key = key;
  }

  -- The loop over the chunks of one object.
  unfoldable pub pending_chunks : (ℕ → Text → PendingChunk) → ℕ → List Text → List PendingChunk
  pending_chunks make j [] = []
  pending_chunks make j (c ∷ cs) = make j c ∷ pending_chunks make (j + 1) cs

  unfoldable pub object_chunks : Dict (Dict Any) → ℕ → Text → List ℕ → List PendingChunk
  unfolding last_part declared_type object_text pending_chunk pending_chunks
  object_chunks items i key bytes =
      let relative_path = last_part key in
      let source_uri =
        if is_empty fallback then txt "s3://" ++ (m.upload_bucket ++ (b'/' ∷ key)) else fallback in
      let declared = declared_type key relative_path (m.map_order items) in
      let text = object_text i key relative_path declared bytes in
      pending_chunks
        (pending_chunk i key relative_path source_uri (infer_person_hint m.unicode relative_path)) 0
        (chunk_text text m.chunk_size_chars m.chunk_overlap_words)
