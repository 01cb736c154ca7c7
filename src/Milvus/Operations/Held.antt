-- ===== src/Milvus/Operations/Held.antt =====
-- internal/adapters/vector/milvus/adapter.go: what `Search` asks for is what its documents need.
use fine_rag_core.Prelude.{◌≡◌, ℤ, List, [], ◌∷◌, keep, any_of}
use fine_rag_core.Text.{Text, str_eq}
use fine_rag_core.Result.{ok}
use fine_rag_core.Contracts.Tenant.{TenantId}
use fine_rag_core.Contracts.Job.{VectorRecord}
use fine_rag_core.Contracts.Retrieval.{Float64}
use fine_rag_core.Milvus.{Client, ResultColumn}
use fine_rag_core.Milvus.Collection.{
  field_record_id, field_chunk_text, field_source_uri, field_metadata,
}
use fine_rag_core.Milvus.Rows.{tenant_expr}
use fine_rag_core.Milvus.Rows.Written.{columns_again}
use fine_rag_core.Milvus.Operations.{Formats}

-- The columns with one of the names.
abbrev pub selected : List Text → List ResultColumn → List ResultColumn
selected fields columns = keep (λ c. any_of (str_eq c.name) fields) columns

-- The columns that the documents are made of.
abbrev needed : List Text
needed = field_record_id ∷ field_chunk_text ∷ field_source_uri ∷ field_metadata ∷ []

module _ {E S : Type 0} (f : Float64 S) (x : Formats) (number : ℤ → Text) (vector : List E → Text)
    (dim : ℤ) where
  -- The columns of records of which a query asks some.
  abbrev pub given : List Text → List (VectorRecord E) → List ResultColumn
  given fields rs = selected fields (columns_again f x.json number vector dim rs)

  module _ {W : Type 0} where
    -- A query for a tenant's rows gives the columns that it names, of the records held for the tenant.
    abbrev pub Selects : Client W E → (TenantId → ℤ → W → List (VectorRecord E)) → Text → Type 0
    Selects k held c =
        (t : TenantId) (fields : List Text) (limit : ℤ) (w : W)
        → (k.query c (tenant_expr x.quoted t) fields limit w).0 ≡ ok (given fields (held t limit w))
