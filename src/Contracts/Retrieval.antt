-- ===== src/Contracts/Retrieval.antt =====
-- internal/contracts/contracts.go: retrieval queries, documents and results, rerank requests.
-- `S` is the type of the scores, the program's `float64`.
use fine_rag_core.Prelude.{
  ℕ, ℤ, pos, negsuc, is_nonpos, leb_ℤ, Bool, not, ◌||◌, Option, List, [], ◌∷◌, is_empty, length,
  take, if◌then◌else◌,
}
use fine_rag_core.Text.{Text, txt, str_eq}
use fine_rag_core.Result.{new, Result, ok, ◌>>◌, reject_if}
use fine_rag_core.Contracts.Tenant.{TenantId, validate_tenant_id}
use fine_rag_core.Contracts.Job.{Attributes}
use fine_rag_core.Sorting.{sort_stable}

-- What the program does with a `float64`: Go's `>`, `==` and `+`, and the conversion of an `int`.
pub record Float64 (S : Type 0) : Type 0 where
  pub gt : S → S → Bool
  pub eq : S → S → Bool
  pub add : S → S → S
  pub of_int : ℕ → S

pub record RetrievalQuery : Type 0 where
  pub tenant_id : TenantId
  pub request_id : Text
  pub query_text : Text
  pub top_k : ℤ

unfoldable pub validate_retrieval_query : RetrievalQuery → Result (Unit {0})
unfolding validate_tenant_id
validate_retrieval_query q = do
  validate_tenant_id q.tenant_id
  reject_if (is_empty q.request_id) (new (txt "request_id is required"))
  reject_if (is_empty q.query_text) (new (txt "query text is required"))
  reject_if (is_nonpos q.top_k) (new (txt "top_k must be > 0"))

pub record MetadataFilters : Type 0 where
  pub category : Text
  pub date_range : Text
  pub priority : Option ℤ

pub record StructuredQuery : Type 0 where
  pub expanded_queries : List Text
  pub metadata_filters : MetadataFilters

pub record RetrievalDocument (S : Type 0) : Type 0 where
  pub document_id : Text
  pub tenant_id : TenantId
  pub content : Text
  pub score : S
  pub source_uri : Text
  pub metadata : Attributes

pub record RetrievalTrace : Type 0 where
  pub tenant_filter_applied : Bool
  pub candidate_count : ℕ
  pub rerank_applied : Bool
  pub fallback_reason : Text
  pub duration_millis : ℤ
  pub vector_provider : Text
  pub vector_status : Text
  pub vector_latency_millis : ℤ
  pub gateway_provider : Text
  pub gateway_status : Text
  pub gateway_model : Text
  pub gateway_latency_millis : ℤ
  pub gateway_token_input : ℤ
  pub gateway_token_output : ℤ
  pub gateway_token_total : ℤ

pub record VectorCallTrace : Type 0 where
  pub provider : Text
  pub status : Text
  pub latency_millis : ℤ

pub record GatewayCallTrace : Type 0 where
  pub provider : Text
  pub model : Text
  pub latency_millis : ℤ
  pub token_input : ℤ
  pub token_output : ℤ
  pub token_total : ℤ
  pub status : Text
  pub fallback_reason : Text

pub record RetrievalResult (S : Type 0) : Type 0 where
  pub tenant_id : TenantId
  pub request_id : Text
  pub documents : List (RetrievalDocument S)
  pub citations : List Text
  pub trace : RetrievalTrace

module _ {S : Type 0} where
  -- the loop of `RetrievalResult.Validate`
  unfoldable pub validate_documents : TenantId → List (RetrievalDocument S) → Result (Unit {0})
  validate_documents t [] = ok tt
  validate_documents t (d ∷ ds) =
      let rest = validate_documents t ds in
      do
        reject_if (is_empty d.document_id) (new (txt "document_id is required"))
        validate_tenant_id d.tenant_id
        reject_if (not (str_eq d.tenant_id t)) (new (txt "document tenant mismatch"))
        rest

  unfoldable pub validate_retrieval_result : RetrievalResult S → Result (Unit {0})
  unfolding validate_tenant_id
  validate_retrieval_result r = do
    validate_tenant_id r.tenant_id
    reject_if (is_empty r.request_id) (new (txt "request_id is required"))
    validate_documents r.tenant_id r.documents

pub record RerankCandidate (S : Type 0) : Type 0 where
  pub document_id : Text
  pub candidate_text : Text
  pub score : S

pub record RerankRequest (S : Type 0) : Type 0 where
  pub tenant_id : TenantId
  pub request_id : Text
  pub query_text : Text
  pub candidates : List (RerankCandidate S)
  pub top_n : ℤ

-- `xs[:n]` for `0 <= n`
abbrev pub take_int {ℓ} : {A : Type ℓ} → ℤ → List A → List A
take_int (pos n) xs = take n xs
take_int (negsuc n) xs = []

module _ {S : Type 0} (f : Float64 S) where
  higher_score : RerankCandidate S → RerankCandidate S → Bool
  higher_score a b = f.gt a.score b.score

  unfoldable pub top_candidates : RerankRequest S → List (RerankCandidate S)
  unfolding sort_stable higher_score
  top_candidates r =
      let sorted = sort_stable higher_score r.candidates in
      if is_nonpos r.top_n || leb_ℤ (pos (length sorted)) r.top_n
      then sorted
      else take_int r.top_n sorted

unfoldable pub validate_rerank_request : {S : Type 0} → RerankRequest S → Result (Unit {0})
unfolding validate_tenant_id
validate_rerank_request r = do
  validate_tenant_id r.tenant_id
  reject_if (is_empty r.request_id) (new (txt "request_id is required"))
  reject_if (is_empty r.query_text) (new (txt "query_text is required"))
  reject_if (is_empty r.candidates) (new (txt "at least one candidate is required"))
  reject_if (is_nonpos r.top_n) (new (txt "top_n must be > 0"))
