-- ===== src/Vectors/Shards.antt =====
-- internal/adapters/vector/stub/adapter.go: the lists of the tenants implement one list of records, in
-- which a tenant finds its own.
use fine_rag_core.Prelude.{
  ◌≡◌, refl, ap, ℤ, Bool, not, Option, none, some, List, [], ◌∷◌, ◌++◌, append-nil, keep, is_empty,
  Bool-cases, inl, inr, arith, if◌then◌else◌,
}
use fine_rag_core.Text.{Text, txt, str_eq, str_eq→eq, str_eq_iff, Unicode}
use fine_rag_core.Result.{Err, new, Result, ok, err}
use fine_rag_core.Dict.{Dict, insert, remove, lookup-nil, lookup-insert, lookup-remove}
use fine_rag_core.Contracts.Tenant.{TenantId, validate_tenant_id}
use fine_rag_core.Contracts.Job.{VectorRecord, validate_vector_record}
use fine_rag_core.Contracts.Retrieval.{Float64, RetrievalDocument}
use fine_rag_core.Vectors.{
  Adapter, Arithmetic, new_adapter, mark_trace, stored, append_valid, append_records, upsert,
  purged, purge_tenant, search_records, search_records_by_embedding, search, search_by_embedding,
}

-- The calls of the store, and what they answer.
pub data Op (E : Type 0) : Type 0 where
  upsert_op : List (VectorRecord E) → Op E
  search_op : TenantId → Text → ℤ → Op E
  embedding_op : TenantId → List E → ℤ → Op E
  purge_op : TenantId → Op E

pub data Reply (S : Type 0) : Type 0 where
  done : Option Err → Reply S
  found : Result (List (RetrievalDocument S)) → Reply S

module _ {E : Type 0} where
  -- The records of one tenant.
  abbrev pub owned : TenantId → List (VectorRecord E) → List (VectorRecord E)
  owned t log = keep (λ r. str_eq r.tenant_id t) log

  flat_valid :
      Result (Unit {0})
      → List (VectorRecord E)
      → Option Err × List (VectorRecord E)
      → Option Err × List (VectorRecord E)
  flat_valid (err e) log rest = (some e, log)
  flat_valid (ok _) log rest = rest

  -- The records up to the first one that is not valid.
  pub flat_append :
      List (VectorRecord E) → List (VectorRecord E) → Option Err × List (VectorRecord E)
  unfolding flat_valid
  flat_append [] log = (none, log)
  flat_append (r ∷ rs) log =
      flat_valid (validate_vector_record r) log (flat_append rs (log ++ r ∷ []))

  flat_purged :
      Result (Unit {0}) → TenantId → List (VectorRecord E) → Option Err × List (VectorRecord E)
  flat_purged (err e) t log = (some e, log)
  flat_purged (ok _) t log = (none, keep (λ r. not (str_eq r.tenant_id t)) log)

  pub flat_purge : TenantId → List (VectorRecord E) → Option Err × List (VectorRecord E)
  unfolding flat_purged
  flat_purge t log = flat_purged (validate_tenant_id t) t log

  -- The store holds for each tenant what the list holds of it.
  Shards : Dict (List (VectorRecord E)) → List (VectorRecord E) → Type 0
  Shards store log = (t : TenantId) → stored t store ≡ owned t log

  keep-append :
      (p : VectorRecord E → Bool) (xs ys : List (VectorRecord E))
      → keep p (xs ++ ys) ≡ keep p xs ++ keep p ys
  keep-append p [] ys = refl
  keep-append p (x ∷ xs) ys = elim (Bool-cases (p x)) [
    | inl e ↦ rw e (ap (λ zs. x ∷ zs) (keep-append p xs ys))
    | inr e ↦ rw e (keep-append p xs ys)
  ]

  -- Another record at the end of the list and at the end of its tenant's.
  insert-Shards :
      (r : VectorRecord E) (store : Dict (List (VectorRecord E))) (log : List (VectorRecord E))
      → Shards store log
      → Shards (insert r.tenant_id (stored r.tenant_id store ++ r ∷ []) store) (log ++ r ∷ [])
  unfolding Shards
  insert-Shards r store log h t =
      rw
        (
          lookup-insert r.tenant_id t (stored r.tenant_id store ++ r ∷ []) store,
          keep-append (λ q. str_eq q.tenant_id t) log (r ∷ []),
        )
        (elim (Bool-cases (str_eq r.tenant_id t)) [
          | inl e ↦
              rw (e, h r.tenant_id) (ap (λ u. owned u log ++ r ∷ []) (str_eq→eq r.tenant_id t e))
          | inr e ↦ rw (e, append-nil) (h t)
        ])

  append_records-Shards :
      (rs : List (VectorRecord E)) (store : Dict (List (VectorRecord E)))
      (log : List (VectorRecord E))
      → Shards store log
      → ((append_records rs store).0 ≡ (flat_append rs log).0)
        × Shards (append_records rs store).1 (flat_append rs log).1
  unfolding append_records flat_append
  append_records-Shards [] store log h = (refl, h)
  append_records-Shards (r ∷ rs) store log h = step (validate_vector_record r) _ _ (
      append_records-Shards rs (insert r.tenant_id (stored r.tenant_id store ++ r ∷ []) store)
        (log ++ r ∷ []) (insert-Shards r store log h))
    where
      step :
          (v : Result (Unit {0})) (a : Option Err × Dict (List (VectorRecord E)))
          (b : Option Err × List (VectorRecord E))
          → (a.0 ≡ b.0) × Shards a.1 b.1
          → ((append_valid v store a).0 ≡ (flat_valid v log b).0)
            × Shards (append_valid v store a).1 (flat_valid v log b).1
      step (err e) a b g = unfold append_valid flat_valid in (refl, h)
      step (ok _) a b g = unfold append_valid flat_valid in g

  owned-others :
      (t u : TenantId) (log : List (VectorRecord E))
      → owned u (keep (λ r. not (str_eq r.tenant_id t)) log)
        ≡ (if str_eq t u then [] else owned u log)
  owned-others t u [] = ground arith
  owned-others t u (r ∷ log) = ground (
    arith,
    str_eq_iff t u,
    str_eq_iff r.tenant_id t,
    str_eq_iff r.tenant_id u,
    owned-others t u log,
  )

  remove-Shards :
      (t : TenantId) (store : Dict (List (VectorRecord E))) (log : List (VectorRecord E))
      → Shards store log
      → Shards (remove t store) (keep (λ r. not (str_eq r.tenant_id t)) log)
  unfolding Shards
  remove-Shards t store log h u =
      rw (lookup-remove t u store, owned-others t u log)
        (elim (Bool-cases (str_eq t u)) [ inl e ↦ rw e refl | inr e ↦ rw e (h u) ])

  module _ {S : Type 0} (f : Float64 S) (x : Arithmetic E S) (u : Unicode) where
    -- One call of the store, which took `latency`, and one of the list.
    pub step : Op E → ℤ → Adapter E → Reply S × Adapter E
    step (upsert_op rs) latency a = let (e, a') = upsert rs latency a in (done e, a')
    step (search_op t query k) latency a =
        let (r, a') = search f x u t query k latency a in (found r, a')
    step (embedding_op t query k) latency a =
        let (r, a') = search_by_embedding f x t query k latency a in (found r, a')
    step (purge_op t) latency a = let (e, a') = purge_tenant t a in (done e, a')

    unfoldable pub flat_step : Op E → List (VectorRecord E) → Reply S × List (VectorRecord E)
    unfolding flat_append flat_purge
    flat_step (upsert_op rs) log =
        let (e, log') = flat_append rs log in
        if is_empty rs
        then (done (some (new (txt "at least one record is required"))), log)
        else (done e, log')
    flat_step (search_op t query k) log =
        (found (search_records f x u t query k (owned t log)), log)
    flat_step (embedding_op t query k) log =
        (found (search_records_by_embedding f x t query k (owned t log)), log)
    flat_step (purge_op t) log = let (e, log') = flat_purge t log in (done e, log')

    purge-flat :
        (v : Result (Unit {0})) (t : TenantId) (a : Adapter E) (log : List (VectorRecord E))
        → Shards a.store log
        → (◌≡◌ {A = Reply S} (done (purged v t a).0) (done (flat_purged v t log).0))
          × Shards (purged v t a).1.store (flat_purged v t log).1
    unfolding purged flat_purged
    purge-flat (err e) t a log h = (refl, h)
    purge-flat (ok _) t a log h = (refl, remove-Shards t a.store log h)

    step-flat :
        (op : Op E) (latency : ℤ) (a : Adapter E) (log : List (VectorRecord E))
        → Shards a.store log
        → ((step op latency a).0 ≡ (flat_step op log).0)
          × Shards (step op latency a).1.store (flat_step op log).1
    unfolding step flat_step upsert search search_by_embedding purge_tenant flat_purge mark_trace
    step-flat (upsert_op []) latency a log h = (refl, h)
    step-flat (upsert_op (r ∷ rs)) latency a log h =
        let (same, shards) = append_records-Shards (r ∷ rs) a.store log h in (ap done same, shards)
    step-flat (search_op t query k) latency a log h = (unfold Shards in rw (h t) refl, h)
    step-flat (embedding_op t query k) latency a log h = (unfold Shards in rw (h t) refl, h)
    step-flat (purge_op t) latency a log h = purge-flat (validate_tenant_id t) t a log h

    -- What a sequence of calls is answered, each with the time it took.
    pub replies : List (Op E × ℤ) → Adapter E → List (Reply S)
    unfolding step
    replies [] a = []
    replies ((op, latency) ∷ ops) a = (step op latency a).0 ∷ replies ops (step op latency a).1

    unfoldable pub flat_replies : List (Op E × ℤ) → List (VectorRecord E) → List (Reply S)
    unfolding flat_step
    flat_replies [] log = []
    flat_replies ((op, latency) ∷ ops) log =
        (flat_step op log).0 ∷ flat_replies ops (flat_step op log).1

    replies-flat :
        (ops : List (Op E × ℤ)) (a : Adapter E) (log : List (VectorRecord E))
        → Shards a.store log
        → replies ops a ≡ flat_replies ops log
    unfolding replies flat_replies
    replies-flat [] a log h = refl
    replies-flat ((op, latency) ∷ ops) a log h =
        let (same, shards) = step-flat op latency a log h in
        rw (same, replies-flat ops (step op latency a).1 (flat_step op log).1 shards) refl

    -- From an empty store, every sequence of calls is answered as one list of records answers it: an
    -- upsert adds the records up to the first that is not valid at its end, a search ranks the list's
    -- records of the tenant, in their order, and a purge takes these out.
    pub replies-new_adapter :
        (ops : List (Op E × ℤ)) → replies ops new_adapter ≡ flat_replies ops []
    unfolding new_adapter Shards
    replies-new_adapter ops = replies-flat ops new_adapter [] (λ t. rw lookup-nil refl)
