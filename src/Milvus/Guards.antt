-- ===== src/Milvus/Guards.antt =====
-- internal/adapters/vector/milvus/adapter.go: what the operations check before they call the store.
use fine_rag_core.Prelude.{
  ℕ, ◌-◌, ◌*◌, ◌%◌, ◌^◌, ℤ, pos, negsuc, ltb_ℤ, not, List, [], ◌∷◌, ◌++◌, length, is_empty, ltb,
  ◌==◌, if◌then◌else◌,
}
use fine_rag_core.Text.{Text, txt, is_blank}
use fine_rag_core.Result.{new, Result, ok, err, ◌>>◌, reject_if}
use fine_rag_core.Ingestion.Worker.{decimal}
use fine_rag_core.Contracts.Tenant.{TenantId, validate_tenant_id}
use fine_rag_core.Contracts.Job.{VectorRecord, validate_vector_record}

-- What `topK * 24` is in an `int` of 64 bits, for a count `topK`.
abbrev pub times_24 : ℕ → ℤ
times_24 k =
    let wrapped = k * 24 % 2 ^ 64 in
    if ltb wrapped (2 ^ 63) then pos wrapped else negsuc (2 ^ 64 - wrapped - 1)

-- How many rows `Search` reads.
unfoldable pub query_limit : ℕ → ℤ
query_limit k =
    let limit = if ltb_ℤ (times_24 k) (pos k) then pos k else times_24 k in
    if ltb_ℤ (pos 512) limit then pos 512 else limit

-- `topK <= 0` is refused, so what is left is a count.
unfoldable pub positive : ℤ → Result ℕ
unfolding txt
positive (negsuc n) = err (new (txt "top_k must be > 0"))
positive (pos n) = if n == 0 then err (new (txt "top_k must be > 0")) else ok n

unfoldable pub admit_text : TenantId → Text → ℤ → Result ℕ
unfolding positive txt
admit_text t query top_k = do
  validate_tenant_id t
  reject_if (is_blank query) (new (txt "query text is required"))
  positive top_k

module _ {E : Type 0} where
  unfoldable pub admit_embedding : TenantId → List E → ℤ → Result ℕ
  unfolding positive txt
  admit_embedding t query top_k = do
    validate_tenant_id t
    reject_if (is_empty query) (new (txt "query embedding is required"))
    positive top_k

  -- The loop of `Upsert` over the records, of which each has `dim` numbers.
  unfoldable pub validate_records : ℕ → List (VectorRecord E) → Result (Unit {0})
  validate_records dim [] = ok tt
  validate_records dim (r ∷ rs) =
      let rest = validate_records dim rs in
      do
        validate_vector_record r
        reject_if (not (length r.embedding == dim)) (
            new (
              txt "embedding dimension mismatch: got="
              ++ (decimal (length r.embedding) ++ (txt " want=" ++ decimal dim))))
        rest

  -- The dimension of the records of `Upsert`, that of the first.
  unfoldable pub admit_records : List (VectorRecord E) → Result ℕ
  unfolding validate_records txt
  admit_records [] = err (new (txt "at least one record is required"))
  admit_records (r ∷ rs) = do
    let dim = length r.embedding
    reject_if (dim == 0) (new (txt "embedding is required"))
    validate_records dim (r ∷ rs)
    ok dim
