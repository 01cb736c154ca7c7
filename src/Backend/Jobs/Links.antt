-- ===== src/Backend/Jobs/Links.antt =====
-- backend/managers/ingestion.go: what holds of a row of the table of jobs, and what a run that is under
-- way has to do with the rows.
use fine_rag_core.Prelude.{
  any_of-append, ℕ, ◌+◌, ◌≡◌, ◌≤◌, refl, sym, ap, ◌∙◌, Bool, true, false, List, [], ◌∷◌, ◌++◌,
  any_of, All, All-append, Bool-cases, inl, inr, ◌⊎◌, arith,
}
use fine_rag_core.Text.{Text, txt, str_eq, str_eq→eq}
use fine_rag_core.Result.{Result, ok, err}
use fine_rag_core.Contracts.Tenant.{Time}
use fine_rag_core.Backend.Json.{infer_total_files}
use fine_rag_core.Backend.Jobs.{JobRow, Background, update_where, settle}

-- The files of a job add up.
abbrev pub Accounted : JobRow → Type 0
Accounted row =
    (row.successful_files + row.failed_files ≡ row.processed_files)
    × (row.processed_files ≤ row.total_files)

-- The statuses that a row can have.
abbrev pub KnownStatus : JobRow → Type 0
KnownStatus row =
    (row.status ≡ txt "indexing")
    ⊎ (row.status ≡ txt "queued")
    ⊎ (row.status ≡ txt "indexed")
    ⊎ (row.status ≡ txt "failed")

abbrev pub Sound : JobRow → Type 0
Sound row = Accounted row × KnownStatus row

-- A run has a row, whose number of files is the one that the run counts.
unfoldable pub Expected : Background → JobRow → Type 0
Expected b row = str_eq row.job_id b.job_id ≡ true → row.total_files ≡ infer_total_files b.payload

unfoldable pub Linked : List JobRow → Background → Type 0
Linked table b = (any_of (λ row. str_eq row.job_id b.job_id) table ≡ true) × All (Expected b) table

module _ (p : JobRow → Bool) (f : JobRow → JobRow) where
  pub update_where-All :
      (P Q : JobRow → Type 0)
      → ((row : JobRow) → p row ≡ true → P row → Q (f row))
      → ((row : JobRow) → P row → Q row)
      → (rows : List JobRow) → All P rows
      → All Q (update_where p f rows)
  unfolding update_where
  update_where-All P Q changed same [] h = tt
  update_where-All P Q changed same (row ∷ rows) (hr, h) = elim (Bool-cases (p row)) [
    | inl e ↦ rw e (changed row e hr, update_where-All P Q changed same rows h)
    | inr e ↦ rw e (same row hr, update_where-All P Q changed same rows h)
  ]

  -- An update that keeps the ids keeps who has a row.
  update_where-any :
      (x : Text)
      → ((row : JobRow) → (f row).job_id ≡ row.job_id)
      → (rows : List JobRow)
      → any_of (λ row. str_eq row.job_id x) (update_where p f rows)
        ≡ any_of (λ row. str_eq row.job_id x) rows
  unfolding update_where
  update_where-any x keeps [] = refl
  update_where-any x keeps (row ∷ rows) = elim (Bool-cases (p row)) [
    | inl e ↦ rw (e, keeps row, update_where-any x keeps rows) refl
    | inr e ↦ rw (e, update_where-any x keeps rows) refl
  ]

pub settle-keeps :
    (result : Result (ℕ × ℕ)) (n : ℕ) (now : Time) (row : JobRow)
    → ((settle result n now row).job_id ≡ row.job_id)
      × ((settle result n now row).total_files ≡ row.total_files)
unfolding settle
settle-keeps (err e) n now row = (refl, refl)
settle-keeps (ok (chunks, bytes)) n now row = (refl, refl)

pub settle-Sound :
    (result : Result (ℕ × ℕ)) (n : ℕ) (now : Time) (row : JobRow)
    → row.total_files ≡ n
    → Sound (settle result n now row)
unfolding settle
settle-Sound (err e) n now row h = ((omega arith, omega (arith, h)), inr (inr (inr refl)))
settle-Sound (ok (chunks, bytes)) n now row h =
    ((omega arith, omega (arith, h)), inr (inr (inl refl)))

-- An update that keeps ids and numbers of files keeps the links.
pub update_where-Linked :
    (p : JobRow → Bool) (f : JobRow → JobRow)
    → ((row : JobRow) → ((f row).job_id ≡ row.job_id) × ((f row).total_files ≡ row.total_files))
    → (table : List JobRow) (b : Background) → Linked table b
    → Linked (update_where p f table) b
unfolding Linked Expected
update_where-Linked p f keeps table b (has, expected) = (
  update_where-any p f b.job_id (λ row. (keeps row).0) table ∙ has,
  update_where-All p f (Expected b) (Expected b)
      (λ row e h same. (keeps row).1 ∙ h (ap (λ x. str_eq x b.job_id) (sym (keeps row).0) ∙ same))
      (λ row h. h) table expected,
)

-- Where no row has the id of a run, the run expects nothing of the rows.
pub fresh-Expected :
    (b : Background) (table : List JobRow)
    → any_of (λ row. str_eq row.job_id b.job_id) table ≡ false
    → All (Expected b) table
unfolding Expected
fresh-Expected b [] h = tt
fresh-Expected b (row ∷ table) h =
    (λ e. absurd (ground (arith, h, e)), fresh-Expected b table (ground arith))

pub insert-Linked :
    (row : JobRow) (table : List JobRow) (b : Background)
    → any_of (λ r. str_eq r.job_id row.job_id) table ≡ false
    → Linked table b
    → Linked (table ++ row ∷ []) b
unfolding Linked Expected
insert-Linked row table b fresh (has, expected) = (
  any_of-append (λ r. str_eq r.job_id b.job_id) table (row ∷ []) has,
  All-append (Expected b) table (row ∷ []) expected (
    λ e.
        let same = str_eq→eq row.job_id b.job_id e in
        let twice : true ≡ false =
          sym has ∙ (ap (λ x. any_of (λ r. str_eq r.job_id x) table) (sym same) ∙ fresh) in
        cc twice,
    tt,
  ),
)
