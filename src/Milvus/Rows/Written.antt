-- ===== src/Milvus/Rows/Written.antt =====
-- internal/adapters/vector/milvus/adapter.go: the columns of records as the store gives them back, and
-- the documents that they are to be read as.
use fine_rag_core.Prelude.{
  ℕ, zero, suc, ◌+◌, ◌≡◌, refl, ap, ◌∙◌, ℤ, none, some, List, [], ◌∷◌, map, length, get_elem?,
  arith,
}
use fine_rag_core.Text.{Text, trim_space}
use fine_rag_core.Contracts.Tenant.{TenantId}
use fine_rag_core.Contracts.Job.{VectorRecord}
use fine_rag_core.Contracts.Retrieval.{Float64, RetrievalDocument}
use fine_rag_core.Milvus.{Column, texts, numbers, vectors, ResultColumn}
use fine_rag_core.Milvus.Rows.{
  MetadataCodec, marshal_metadata, unmarshal_metadata, columns_of, each_from,
}

-- A column as it is read again: the texts as such, and what `shown` makes of other values.
abbrev pub read_back : {E : Type 0} → (ℤ → Text) → (List E → Text) → Column E → ResultColumn
read_back number vector (texts name ts) = record {
  name = name;
  len = length ts;
  get_as_string = λ i. get_elem? ts i;
  get = λ i. get_elem? ts i;
}
read_back number vector (numbers name ns) = record {
  name = name;
  len = length ns;
  get_as_string = λ i. none;
  get = λ i. get_elem? (map number ns) i;
}
read_back number vector (vectors name dim vs) = record {
  name = name;
  len = length vs;
  get_as_string = λ i. none;
  get = λ i. get_elem? (map vector vs) i;
}

-- The document that a record is to be read as.
abbrev pub read_document :
    {E S : Type 0} → Float64 S → MetadataCodec → TenantId → VectorRecord E → RetrievalDocument S
read_document f j t r = record {
  document_id = trim_space r.record_id;
  tenant_id = t;
  content = trim_space r.chunk_text;
  score = f.of_int 0;
  source_uri = trim_space r.source_uri;
  metadata = unmarshal_metadata j (trim_space (marshal_metadata j r.metadata));
}

pub get_elem?-map :
    {A B : Type 0} (g : A → B) (xs : List A) (i : ℕ) (x : A)
    → get_elem? xs i ≡ some x
    → get_elem? (map g xs) i ≡ some (g x)
get_elem?-map g [] i x h = cc
get_elem?-map g (y ∷ ys) zero x h = cc
get_elem?-map g (y ∷ ys) (suc i) x h = get_elem?-map g ys i x h

pub length-map : {A B : Type 0} (g : A → B) (xs : List A) → length (map g xs) ≡ length xs
length-map g [] = refl
length-map g (x ∷ xs) = ap suc (length-map g xs)

-- A loop over the indices of a list is a loop over the list.
pub each_from-map :
    {A B : Type 0} (f : ℕ → B) (g : A → B) (xs : List A) (i : ℕ)
    → ((k : ℕ) (x : A) → get_elem? xs k ≡ some x → f (i + k) ≡ g x)
    → each_from (length xs) i f ≡ map g xs
each_from-map f g [] i h = refl
each_from-map f g (x ∷ xs) i h =
    let first : f i ≡ g x = ap f (omega arith) ∙ h 0 x refl in
    let rest = each_from-map f g xs (i + 1) λ k y e.
      let moved : f (i + 1 + k) ≡ f (i + suc k) = ap f (omega arith) in moved ∙ h (suc k) y e in
    cc

module _ {E S : Type 0} (f : Float64 S) (j : MetadataCodec) (number : ℤ → Text)
    (vector : List E → Text) (dim : ℤ) where
  -- The columns of records, read back.
  abbrev pub columns_again : List (VectorRecord E) → List ResultColumn
  columns_again rs = map (read_back number vector) (columns_of j dim rs)
