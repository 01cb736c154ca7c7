-- ===== src/Vectors/Isolation.antt =====
-- internal/adapters/vector/stub/adapter.go: a tenant finds its own documents only, and none after it
-- was purged.
use fine_rag_core.Prelude.{
  zero, suc, ◌≡◌, ℤ, pos, negsuc, ltb_ℤ, Bool, true, false, List, [], ◌∷◌, map, length, All,
  Bool-cases, inl, inr, is_empty, is_nonpos,
}
use fine_rag_core.Text.{Text, str_eq, str_eq→eq, Unicode, is_blank}
use fine_rag_core.Result.{Err, Result, ok, err, ◌>>◌, reject_if}
use fine_rag_core.Sorting.{sort_stable, sort_stable-All}
use fine_rag_core.Contracts.Tenant.{TenantId, validate_tenant_id}
use fine_rag_core.Contracts.Job.{VectorRecord}
use fine_rag_core.Contracts.Retrieval.{Float64, RetrievalDocument, take_int}
use fine_rag_core.Vectors.{
  Arithmetic, new_adapter, document_of, best, search_records, search_records_by_embedding,
}
use fine_rag_core.Vectors.Shards.{
  Op, Reply, upsert_op, search_op, embedding_op, purge_op, found, owned, flat_step, flat_replies,
  replies, replies-new_adapter,
}

module _ {E S : Type 0} (f : Float64 S) (x : Arithmetic E S) where
  -- A document of the tenant.
  abbrev pub Of : TenantId → RetrievalDocument S → Type 0
  Of t d = d.tenant_id ≡ t

  documents-Of :
      (t : TenantId) (score : VectorRecord E → S) (log : List (VectorRecord E))
      → All (Of t) (map (document_of f x score) (owned t log))
  unfolding document_of
  documents-Of t score [] = tt
  documents-Of t score (r ∷ log) = elim (Bool-cases (str_eq r.tenant_id t)) [
    | inl e ↦ rw e (str_eq→eq r.tenant_id t e, documents-Of t score log)
    | inr e ↦ rw e (documents-Of t score log)
  ]

  take_int-All :
      (t : TenantId) (n : ℤ) (ds : List (RetrievalDocument S))
      → All (Of t) ds
      → All (Of t) (take_int n ds)
  take_int-All t (negsuc n) ds h = tt
  take_int-All t (pos zero) ds h = tt
  take_int-All t (pos (suc n)) [] h = tt
  take_int-All t (pos (suc n)) (d ∷ ds) (hd, h) = (hd, take_int-All t (pos n) ds h)

  best-Of :
      (t : TenantId) (score : VectorRecord E → S) (k : ℤ) (log : List (VectorRecord E))
      → All (Of t) (best f x score k (owned t log))
  unfolding best
  best-Of t score k log =
      let docs = map (document_of f x score) (owned t log) in
      let sorted = sort_stable (λ a b. f.gt a.score b.score) docs in
      let all =
        sort_stable-All (λ a b. f.gt a.score b.score) (Of t) docs (documents-Of t score log) in
      elim (Bool-cases (ltb_ℤ k (pos (length sorted)))) [
        | inl e ↦ rw e (take_int-All t k sorted all)
        | inr e ↦ rw e all
      ]

  -- What a search of a tenant found is the tenant's.
  abbrev pub Isolated : Op E → Reply S → Type 0
  Isolated (search_op t query k) (found (ok docs)) = All (Of t) docs
  Isolated (embedding_op t query k) (found (ok docs)) = All (Of t) docs
  Isolated _ _ = Unit

  abbrev pub AllIsolated : List (Op E × ℤ) → List (Reply S) → Type 0
  AllIsolated [] rs = Unit
  AllIsolated ((op, latency) ∷ ops) [] = Unit
  AllIsolated ((op, latency) ∷ ops) (r ∷ rs) = Isolated op r × AllIsolated ops rs

  -- The answer of a search, or the error of a guard before it.
  FoundOf : TenantId → Result (List (RetrievalDocument S)) → Type 0
  FoundOf t (err e) = Unit
  FoundOf t (ok docs) = All (Of t) docs

  guarded :
      (t : TenantId) (v : Result (Unit {0})) (b c : Bool) (e g : Err)
      (docs : List (RetrievalDocument S))
      → All (Of t) docs
      → FoundOf t (v >> (reject_if b e >> (reject_if c g >> ok docs)))
  unfolding FoundOf
  guarded t (err _) b c e g docs h = tt
  guarded t (ok _) true c e g docs h = tt
  guarded t (ok _) false true e g docs h = tt
  guarded t (ok _) false false e g docs h = h

  text-Isolated :
      (t : TenantId) (query : Text) (k : ℤ) (r : Result (List (RetrievalDocument S)))
      → FoundOf t r
      → Isolated (search_op t query k) (found r)
  unfolding FoundOf
  text-Isolated t query k (err e) h = tt
  text-Isolated t query k (ok docs) h = h

  embedding-Isolated :
      (t : TenantId) (query : List E) (k : ℤ) (r : Result (List (RetrievalDocument S)))
      → FoundOf t r
      → Isolated (embedding_op t query k) (found r)
  unfolding FoundOf
  embedding-Isolated t query k (err e) h = tt
  embedding-Isolated t query k (ok docs) h = h

  module _ (u : Unicode) where
    flat_step-Isolated :
        (op : Op E) (log : List (VectorRecord E)) → Isolated op (flat_step f x u op log).0
    unfolding flat_step search_records search_records_by_embedding
    flat_step-Isolated (upsert_op rs) log = tt
    flat_step-Isolated (search_op t query k) log =
        text-Isolated t query k _ (
          guarded t (validate_tenant_id t) (is_blank query) (is_nonpos k) _ _ _ (best-Of t _ k log))
    flat_step-Isolated (embedding_op t query k) log =
        embedding-Isolated t query k _ (
          guarded t (validate_tenant_id t) (is_empty query) (is_nonpos k) _ _ _ (best-Of t _ k log))
    flat_step-Isolated (purge_op t) log = tt

    flat_replies-Isolated :
        (ops : List (Op E × ℤ)) (log : List (VectorRecord E))
        → AllIsolated ops (flat_replies f x u ops log)
    unfolding flat_replies
    flat_replies-Isolated [] log = tt
    flat_replies-Isolated ((op, latency) ∷ ops) log =
        (flat_step-Isolated op log, flat_replies-Isolated ops (flat_step f x u op log).1)

    -- From an empty store, whatever the calls: every document that a search finds, by text or by
    -- embedding, is one of the tenant that searched.
    pub replies-Isolated : (ops : List (Op E × ℤ)) → AllIsolated ops (replies f x u ops new_adapter)
    replies-Isolated ops = rw (replies-new_adapter f x u ops) (flat_replies-Isolated ops [])
