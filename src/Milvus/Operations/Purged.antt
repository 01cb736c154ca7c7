-- ===== src/Milvus/Operations/Purged.antt =====
-- internal/adapters/vector/milvus/adapter.go: which rows a purge removes.
use fine_rag_core.Prelude.{
  ℕ, ◌≤◌, ◌≡◌, refl, sym, ap, ◌∙◌, ℤ, pos, Bool, false, not, ◌||◌, List, [], ◌∷◌, keep, any_of,
  length, ◌==◌, Bool-cases, inl, inr, if◌then◌else◌, arith,
}
use fine_rag_core.Text.{Text, txt, str_eq, str_eq→eq, str_eq_iff, Unicode}
use fine_rag_core.Result.{Err, Result, ok, err}
use fine_rag_core.Contracts.Tenant.{TenantId, validate_tenant_id}
use fine_rag_core.Milvus.{Config, outcome, Client, Adapter, Outcome, done, answered, ◌>>◌, checked}
use fine_rag_core.Milvus.Steps.{then_do-done, ended-answered}
use fine_rag_core.Milvus.Collection.{ensure_collection}
use fine_rag_core.Milvus.Collection.Prepared.{IsPreparing, ensure_collection-Keeps}
use fine_rag_core.Milvus.Rows.{escape_expr_string, tenant_is, tenant_expr}
use fine_rag_core.Milvus.Operations.{Formats, delete_step, flush_step, purge_steps, purge_tenant}

-- No symbol is a backslash or a quotation mark.
abbrev pub is_plain : Text → Bool
is_plain t = not (any_of (λ c. c == b'\\' || c == b'"') t)

length-escape_le : (t : Text) → length t ≤ length (escape_expr_string t)
unfolding escape_expr_string
length-escape_le [] = omega arith
length-escape_le (c ∷ t) = ground (arith, length-escape_le t)

longer : (d : ℕ) (t : Text) → str_eq t (d ∷ escape_expr_string t) ≡ false
longer d t = elim (Bool-cases (str_eq t (d ∷ escape_expr_string t))) [
  | inl e ↦
      absurd (omega (arith, ap (λ (s : Text). length s) (str_eq→eq t _ e), length-escape_le t))
  | inr e ↦ e
]

-- A tenant is its own escaped name only if it is plain.
escape-is_plain : (t : Text) → str_eq t (escape_expr_string t) ≡ is_plain t
unfolding escape_expr_string str_eq
escape-is_plain [] = refl
escape-is_plain (c ∷ t) = ground (arith, escape-is_plain t, longer b'\\' t)

module _ {Row : Type 0} (tenant_of : Row → Text) where
  -- The rows of a tenant.
  abbrev pub of_tenant : Text → List Row → List Row
  of_tenant t rows = keep (λ r. str_eq (tenant_of r) t) rows

  abbrev pub without : Text → List Row → List Row
  without t rows = keep (λ r. not (str_eq (tenant_of r) t)) rows

  of_tenant-without :
      (v t : Text) (rows : List Row)
      → of_tenant v (without t rows) ≡ (if str_eq v t then [] else of_tenant v rows)
  of_tenant-without v t [] = ground arith
  of_tenant-without v t (r ∷ rows) = ground (
    arith,
    str_eq_iff (tenant_of r) t,
    str_eq_iff (tenant_of r) v,
    str_eq_iff v t,
    of_tenant-without v t rows,
  )

  module _ {W E : Type 0} (u : Unicode) (is_deadline : Err → Bool) (x : Formats) (k : Client W E)
      (rows : Text → W → List Row) where
    -- A deletion by `tenant_id == …` that succeeds removes the rows of that tenant from a collection.
    abbrev pub Deletes : Text → Type 0
    Deletes c =
        (t : Text) (w : W)
        → (k.delete c (tenant_is x.quoted t) w).0 ≡ ok tt
        → rows c (k.delete c (tenant_is x.quoted t) w).1 ≡ without t (rows c w)

    module _ (t : TenantId) (a : Adapter W) (p : IsPreparing (rows a.cfg.collection) k)
        (d : Deletes a.cfg.collection) where
      -- The rows of the adapter's collection.
      abbrev seen : Adapter W → List Row
      seen s = rows a.cfg.collection s.world

      outcome-done :
          (status : Text) (r : Result (Unit {0})) → outcome status r ≡ done tt → r ≡ ok tt
      outcome-done status (ok _) h = refl
      outcome-done status (err e) h = cc

      delete_step-done :
          (s : Adapter W)
          → s.cfg ≡ a.cfg
          → (delete_step u is_deadline x k t s).0 ≡ done tt
          → seen (delete_step u is_deadline x k t s).1 ≡ without (escape_expr_string t) (seen s)
      unfolding delete_step tenant_expr
      delete_step-done s same h =
          let e : s.cfg.collection ≡ a.cfg.collection = ap (λ (c : Config). c.collection) same in
          let deleted : (k.delete a.cfg.collection (tenant_is x.quoted (escape_expr_string t))
                s.world).0
              ≡ ok tt =
            outcome-done (txt "error") _ (rw e at h) in
          rw e (d (escape_expr_string t) s.world deleted)

      flush_step-Keeps : (s : Adapter W) → seen (flush_step u is_deadline x k s).1 ≡ seen s
      unfolding flush_step
      flush_step-Keeps s = p.flush s.cfg.collection s.world

      -- The deletion and the flush, from a state of the adapter with its configuration.
      last_steps-done :
          (s : Adapter W)
          → s.cfg ≡ a.cfg
          → ((delete_step u is_deadline x k t >> flush_step u is_deadline x k) s).0 ≡ done tt
          → seen ((delete_step u is_deadline x k t >> flush_step u is_deadline x k) s).1
            ≡ without (escape_expr_string t) (seen s)
      last_steps-done s same h =
          let (_, deleted, rest) =
            then_do-done (λ _. flush_step u is_deadline x k) (delete_step u is_deadline x k t s) tt
              h in
          ap (λ (o : Outcome (Unit {0}) × Adapter W). seen o.1) rest
          ∙ (flush_step-Keeps (delete_step u is_deadline x k t s).1
              ∙ delete_step-done s same deleted)

      purge_steps-done :
          (purge_steps u is_deadline x k t a).0 ≡ done tt
          → seen (purge_steps u is_deadline x k t a).1 ≡ without (escape_expr_string t) (seen a)
      unfolding purge_steps
      purge_steps-done h =
          let prepare = ensure_collection u x.atoi k (txt "error") (pos 0) in
          let last = delete_step u is_deadline x k t >> flush_step u is_deadline x k in
          let same =
            ensure_collection-Keeps u x.atoi k (rows a.cfg.collection) p (txt "error") (pos 0) a in
          let (_, _, e) =
            then_do-done (λ _. prepare >> last)
              (checked (txt "validation_error") (validate_tenant_id t) a) tt h in
          let (_, _, e') = then_do-done (λ _. last) (prepare a) tt (ap (λ o. o.0) (sym e) ∙ h) in
          let both = e ∙ e' in
          ap (λ o. seen o.1) both
          ∙ (last_steps-done (prepare a).1 same.cfg (ap (λ o. o.0) (sym both) ∙ h)
              ∙ ap (without (escape_expr_string t)) same.seen)

      -- What a purge of a tenant that is answered with success leaves in the collection, where a
      -- deletion by the tenant's literal removes the rows of that tenant and the other calls none. If
      -- the name of the tenant has no backslash and no quotation mark, its rows are gone, and those of
      -- every other tenant are there. If it has one, the name is escaped twice, all rows of the tenant
      -- are still there, and a tenant with the escaped name has lost its rows.
      pub purge_tenant-answered :
          (latency : ℤ) (v : TenantId)
          → (purge_tenant u is_deadline x k t latency a).0 ≡ answered tt
          → (of_tenant t (seen (purge_tenant u is_deadline x k t latency a).1)
              ≡ (if is_plain t then [] else of_tenant t (seen a)))
            × (of_tenant v (seen (purge_tenant u is_deadline x k t latency a).1)
                ≡ (if str_eq v (escape_expr_string t) then [] else of_tenant v (seen a)))
      unfolding purge_tenant
      purge_tenant-answered latency v h =
          let (finished, world) =
            ended-answered u is_deadline (txt "purge") latency (purge_steps u is_deadline x k t a)
              tt h in
          let left = ap (rows a.cfg.collection) world ∙ purge_steps-done finished in
          let of = λ (w : Text).
            ap (of_tenant w) left ∙ of_tenant-without w (escape_expr_string t) (seen a) in
          (of t ∙ ap (λ b. if b then [] else of_tenant t (seen a)) (escape-is_plain t), of v)
