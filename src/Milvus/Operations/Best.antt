-- ===== src/Milvus/Operations/Best.antt =====
-- internal/adapters/vector/milvus/adapter.go: what a search by text answers.
use fine_rag_core.Prelude.{
  take-All, ◌<◌, ap, ◌==◌, ℕ, zero, suc, ◌+◌, ◌≤◌, ◌≡◌, refl, subst, ℤ, pos, negsuc, Bool, List, [],
  ◌∷◌, map, take, length, length-take, ltb, if◌then◌else◌, All, Bool-cases, inl, inr, arith,
}
use fine_rag_core.Text.{Text, Unicode, is_blank, txt}
use fine_rag_core.Result.{Err, Result, ok, err, bind-ok, reject-ok}
use fine_rag_core.Sorting.{sort_stable, sort_stable-All, Ordered, IsAsymmetric, sort_stable-Ordered}
use fine_rag_core.Contracts.Tenant.{TenantId, validate_tenant_id}
use fine_rag_core.Contracts.Retrieval.{Float64, RetrievalDocument}
use fine_rag_core.Milvus.{
  ResultColumn, Client, Adapter, done, answered, M, ◌>>=◌, ◌>>◌, pure, checked, outcome,
}
use fine_rag_core.Milvus.Steps.{Ends, then_do-Ends, ended-answered}
use fine_rag_core.Milvus.Collection.{ensure_collection}
use fine_rag_core.Milvus.Guards.{positive, admit_text}
use fine_rag_core.Milvus.Rows.{each_from, row_document, row_count, rows_from_result_set}
use fine_rag_core.Milvus.Operations.{
  Formats, scored_rows, ranked_rows, query_step, documents_of, search_steps, search,
}

take-Ordered {ℓ} :
    {A : Type ℓ} (less : A → A → Bool) (n : ℕ) (xs : List A)
    → Ordered less xs
    → Ordered less (take n xs)
take-Ordered less zero xs h = tt
take-Ordered less (suc n) [] h = tt
take-Ordered less (suc n) (x ∷ []) h = single n
  where
    single : (n : ℕ) → Ordered less (x ∷ take n [])
    single zero = tt
    single (suc n) = tt
take-Ordered less (suc zero) (x ∷ y ∷ ys) h = tt
take-Ordered less (suc (suc n)) (x ∷ y ∷ ys) h = (h.0, take-Ordered less (suc n) (y ∷ ys) h.1)

each_from-All {ℓ κ} :
    {A : Type ℓ} (P : A → Type κ) (n i : ℕ) (f : ℕ → A)
    → ((i : ℕ) → P (f i))
    → All P (each_from n i f)
each_from-All P zero i f h = tt
each_from-All P (suc n) i f h = (h i, each_from-All P n (i + 1) f h)

map-All {ℓ κ} :
    {A B : Type ℓ} (P : B → Type κ) (Q : A → Type κ) (g : A → B) (xs : List A)
    → ((x : A) → Q x → P (g x))
    → All Q xs
    → All P (map g xs)
map-All P Q g [] k h = tt
map-All P Q g (x ∷ xs) k (h, hs) = (k x h, map-All P Q g xs k hs)

module _ {S : Type 0} (f : Float64 S) where
  -- Documents of a tenant, the best first, not more than a count.
  pub record IsBest (t : TenantId) (n : ℕ) (docs : List (RetrievalDocument S)) : Type 0 where
    pub own : All (λ (d : RetrievalDocument S). d.tenant_id ≡ t) docs
    pub ordered : Ordered (λ (a b : RetrievalDocument S). f.gt a.score b.score) docs
    pub few : length docs ≤ n

  cut-IsBest :
      (t : TenantId) (n : ℕ) (docs : List (RetrievalDocument S))
      → All (λ (d : RetrievalDocument S). d.tenant_id ≡ t) docs
      → Ordered (λ (a b : RetrievalDocument S). f.gt a.score b.score) docs
      → IsBest t n (if ltb n (length docs) then take n docs else docs)
  cut-IsBest t n docs own ordered = elim (Bool-cases (ltb n (length docs))) [
    | inl e ↦ rw e (record {
      own = take-All _ n docs own;
      ordered = take-Ordered _ n docs ordered;
      few = omega (arith, length-take n docs);
    })
    | inr e ↦ rw e (record { own = own; ordered = ordered; few = ground arith })
  ]

  module _ {W E : Type 0} (u : Unicode) (is_deadline : Err → Bool) (x : Formats) (k : Client W E)
      (hundredths : ℕ → S) (of_float32 : E → S) (asym : IsAsymmetric f.gt) where
    scored_rows-own :
        (t : TenantId) (query : Text) (columns : List ResultColumn)
        → All
            (λ (d : RetrievalDocument S). d.tenant_id ≡ t)
            (scored_rows u is_deadline x k f hundredths of_float32 t query columns)
    unfolding scored_rows rows_from_result_set row_document
    scored_rows-own t query columns =
        map-All (λ (d : RetrievalDocument S). d.tenant_id ≡ t)
          (λ (d : RetrievalDocument S). d.tenant_id ≡ t) _ _ (λ d h. h)
          (each_from-All (λ (d : RetrievalDocument S). d.tenant_id ≡ t) (row_count columns) 0
            (row_document f x.json columns t) (λ i. refl))

    ranked_rows-IsBest :
        (t : TenantId) (query : Text) (n : ℕ) (columns : List ResultColumn)
        → IsBest t n (ranked_rows u is_deadline x k f hundredths of_float32 t query n columns)
    unfolding ranked_rows
    ranked_rows-IsBest t query n columns =
        let docs = scored_rows u is_deadline x k f hundredths of_float32 t query columns in
        cut-IsBest t n (sort_stable higher docs)
          (sort_stable-All higher (λ (d : RetrievalDocument S). d.tenant_id ≡ t) docs
            (scored_rows-own t query columns))
          (sort_stable-Ordered higher (λ a b h. asym a.score b.score h) docs)
      where
        higher : RetrievalDocument S → RetrievalDocument S → Bool
        higher a b = f.gt a.score b.score

    -- The count that the guards let through.
    admit_text-ok :
        (t : TenantId) (query : Text) (top_k : ℤ) (n : ℕ)
        → admit_text t query top_k ≡ ok n
        → (top_k ≡ pos n) × (0 < n)
    unfolding admit_text positive
    admit_text-ok t query top_k n h =
        let (_, _, h1) = bind-ok (validate_tenant_id t) _ n h in
        let (_, h2) = reject-ok (is_blank query) _ (positive top_k) n h1 in counted top_k h2
      where
        counted : (top_k : ℤ) → positive top_k ≡ ok n → (top_k ≡ pos n) × (0 < n)
        counted (negsuc m) h = cc
        counted (pos m) h = elim (Bool-cases (m == 0)) [
          | inl e ↦ let none_of = rw e at h in cc
          | inr e ↦
              let same : m ≡ n = let found = rw e at h in cc in
              (ap pos same, ground (arith, same, e))
        ]

    documents_of-IsBest :
        (t : TenantId) (query : Text) (n : ℕ) (columns : List ResultColumn)
        → IsBest t n (documents_of u is_deadline x k f hundredths of_float32 t query n columns)
    unfolding documents_of
    documents_of-IsBest t query n [] = record { own = tt; ordered = tt; few = omega arith }
    documents_of-IsBest t query n (c ∷ cs) = ranked_rows-IsBest t query n (c ∷ cs)

    abbrev Answers : TenantId → ℤ → List (RetrievalDocument S) → Type 0
    Answers t top_k docs = (n : ℕ) × (top_k ≡ pos n) × (0 < n) × IsBest t n docs

    search_steps-Ends :
        (t : TenantId) (query : Text) (top_k : ℤ) (a : Adapter W)
        → Ends
            (Answers t top_k)
            (search_steps u is_deadline x k f hundredths of_float32 t query top_k a).0
    unfolding search_steps
    search_steps-Ends t query top_k a =
        then_do-Ends P (λ n. prepare >> read n)
          (checked (txt "validation_error") (admit_text t query top_k) a)
          λ n s admitted.
            then_do-Ends P (λ _. read n) (prepare s)
              λ _ s' _.
                then_do-Ends P (λ columns. pure (found n columns))
                  (query_step u is_deadline x k f hundredths of_float32 t n s')
                  λ columns _ _.
                    let (same, positive) =
                      admit_text-ok t query top_k n
                        (outcome-done (admit_text t query top_k) admitted) in
                    (n, same, positive, documents_of-IsBest t query n columns)
      where
        P : List (RetrievalDocument S) → Type 0
        P = Answers t top_k

        prepare : M W (Unit {0})
        prepare = ensure_collection u x.atoi k (txt "error") (pos 0)

        found : ℕ → List ResultColumn → List (RetrievalDocument S)
        found n columns = documents_of u is_deadline x k f hundredths of_float32 t query n columns

        read : ℕ → M W (List (RetrievalDocument S))
        read n = query_step u is_deadline x k f hundredths of_float32 t n >>= λ columns.
            pure (found n columns)

        outcome-done :
            {n : ℕ} (r : Result ℕ) → outcome (txt "validation_error") r ≡ done n → r ≡ ok n
        outcome-done (ok m) h = cc
        outcome-done (err e) h = cc

    -- A search by text that is answered has a positive count, and gives documents of the tenant that asked, not
    -- more than the count, of which none has a higher score than the one before it, whatever rows the store
    -- gives, if `>` of the scores is asymmetric.
    pub search-answered :
        (t : TenantId) (query : Text) (top_k latency : ℤ) (a : Adapter W)
        (docs : List (RetrievalDocument S))
        → (search u is_deadline x k f hundredths of_float32 t query top_k latency a).0
          ≡ answered docs
        → (n : ℕ) × (top_k ≡ pos n) × (0 < n) × IsBest t n docs
    unfolding search
    search-answered t query top_k latency a docs h =
        let (finished, _) =
          ended-answered u is_deadline (txt "search") latency
            (search_steps u is_deadline x k f hundredths of_float32 t query top_k a) docs h in
        subst (Ends (Answers t top_k)) finished (search_steps-Ends t query top_k a)
