-- ===== src/Milvus/Collection/Prepared.antt =====
-- internal/adapters/vector/milvus/adapter.go: making sure of the collection changes no row.
use fine_rag_core.Prelude.{
  ℤ, refl, Bool, true, false, Option, List, any_of, is_nonpos, if◌then◌else◌, Bool-cases, inl, inr,
}
use fine_rag_core.Text.{Text, txt, str_eq, Unicode}
use fine_rag_core.Result.{Result, new, reject_if}
use fine_rag_core.Milvus.{
  FieldInfo, Schema, Client, Adapter, Outcome, done, stopped, ◌>>◌, checked, call,
}
use fine_rag_core.Milvus.Steps.{Silent, Same, Keeps, bind-Keeps, checked-Keeps}
use fine_rag_core.Milvus.Collection.{
  field_object_key, field_embedding, schema_of, tolerant, index_step, load_step, create_step,
  has_step, described, checked_schema, learn, created, present, ensure_index_and_load,
  ensure_collection,
}

-- The calls that prepare a collection, and the flush, change nothing that is seen of the rows: they
-- describe, make, index, load or write out a collection.
pub record IsPreparing {W E V : Type 0} (view : W → V) (k : Client W E) : Type 0 where
  pub has : (c : Text) → Silent view (k.has_collection c)
  pub describe : (c : Text) → Silent view (k.describe_collection c)
  pub create : (s : Schema) → Silent view (k.create_collection s)
  pub index : (c f : Text) → Silent view (k.create_index c f)
  pub load : (c : Text) → Silent view (k.load_collection c)
  pub flush : (c : Text) → Silent view (k.flush c)

module _ {W E V : Type 0} (u : Unicode) (atoi : Text → Option ℤ) (k : Client W E) (view : W → V)
    (p : IsPreparing view k) where
  index_step-Keeps : (status : Text) → Keeps view (index_step u atoi k status)
  unfolding index_step tolerant
  index_step-Keeps status a = record {
    cfg = refl;
    seen = p.index a.cfg.collection field_embedding a.world;
  }

  load_step-Keeps : (status : Text) → Keeps view (load_step u atoi k status)
  unfolding load_step tolerant
  load_step-Keeps status a = record { cfg = refl; seen = p.load a.cfg.collection a.world }

  create_step-Keeps : (status : Text) (dim : ℤ) → Keeps view (create_step u atoi k status dim)
  unfolding create_step
  create_step-Keeps status dim a = record {
    cfg = refl;
    seen = p.create (schema_of a.cfg.collection dim) a.world;
  }

  learn-Keeps : (dim : ℤ) → Keeps view (learn u atoi k dim)
  unfolding learn
  learn-Keeps dim a = record { cfg = refl; seen = refl }

  ensure_index_and_load-Keeps : (status : Text) → Keeps view (ensure_index_and_load u atoi k status)
  unfolding ensure_index_and_load
  ensure_index_and_load-Keeps status =
      bind-Keeps view (checked status k.auto_index)
        (λ _. index_step u atoi k status >> load_step u atoi k status)
        (checked-Keeps view status k.auto_index)
        (λ _.
          bind-Keeps view (index_step u atoi k status) (λ _. load_step u atoi k status)
            (index_step-Keeps status) (λ _. load_step-Keeps status))

  checked_schema-Keeps : (status : Text) → Keeps view (checked_schema u atoi k status)
  unfolding checked_schema described
  checked_schema-Keeps status a =
      by_outcome (call status (λ c. k.describe_collection c.collection) a)
        (record { cfg = refl; seen = p.describe a.cfg.collection a.world })
    where
      by_outcome :
          (o : Outcome (List FieldInfo) × Adapter W)
          → Same view a o.1
          → Same view a (described u atoi k status o).1
      by_outcome (stopped label e, s) h = h
      by_outcome (done fs, s) h =
          elim (Bool-cases (any_of (λ (f : FieldInfo). str_eq f.name field_object_key) fs)) [
            | inl e ↦ rw e (record { cfg = h.cfg; seen = h.seen })
            | inr e ↦ rw e (record { cfg = h.cfg; seen = h.seen })
          ]

  created-Keeps : (status : Text) (dim : ℤ) → Keeps view (created u atoi k status dim)
  unfolding created
  created-Keeps status dim =
      bind-Keeps view (checked status asked)
        (λ _.
          create_step u atoi k status dim
          >> (learn u atoi k dim >> ensure_index_and_load u atoi k status))
        (checked-Keeps view status asked)
        (λ _.
          bind-Keeps view (create_step u atoi k status dim)
            (λ _. learn u atoi k dim >> ensure_index_and_load u atoi k status)
            (create_step-Keeps status dim)
            (λ _.
              bind-Keeps view (learn u atoi k dim) (λ _. ensure_index_and_load u atoi k status)
                (learn-Keeps dim) (λ _. ensure_index_and_load-Keeps status)))
    where
      asked : Result (Unit {0})
      asked =
          reject_if (is_nonpos dim)
            (new (txt "embedding dimension is required to initialize collection"))

  present-Keeps : (status : Text) (dim : ℤ) (b : Bool) → Keeps view (present u atoi k status dim b)
  unfolding present
  present-Keeps status dim true =
      bind-Keeps view (checked_schema u atoi k status) (λ _. ensure_index_and_load u atoi k status)
        (checked_schema-Keeps status) (λ _. ensure_index_and_load-Keeps status)
  present-Keeps status dim false = created-Keeps status dim

  has_step-Keeps : (status : Text) → Keeps view (has_step u atoi k status)
  unfolding has_step
  has_step-Keeps status a = record { cfg = refl; seen = p.has a.cfg.collection a.world }

  pub ensure_collection-Keeps :
      (status : Text) (dim : ℤ) → Keeps view (ensure_collection u atoi k status dim)
  unfolding ensure_collection
  ensure_collection-Keeps status dim a =
      bind-Keeps view (has_step u atoi k status)
        (present u atoi k status (if is_nonpos dim then a.dim else dim)) (has_step-Keeps status)
        (present-Keeps status (if is_nonpos dim then a.dim else dim)) a
