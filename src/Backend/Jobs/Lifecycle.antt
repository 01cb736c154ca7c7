-- ===== src/Backend/Jobs/Lifecycle.antt =====
-- backend/managers/ingestion.go: the jobs of all tenants as a state machine, whose state is the table
-- and the goroutines that run, and what holds of every row at any time.
use fine_rag_core.Prelude.{
  All-both, All-each, All-without, any_of-last, ℕ, ◌≡◌, refl, false, ◌&&◌, Option, none, some, List,
  [], ◌∷◌, ◌++◌, any_of, is_empty, All, All-append, Bool-cases, inl, inr, arith,
}
use fine_rag_core.Text.{Text, txt, str_eq, str_eq_refl, trim_space}
use fine_rag_core.Result.{Err, Result, ok, err}
use fine_rag_core.Dict.{Dict}
use fine_rag_core.Contracts.Tenant.{Time, TenantId}
use fine_rag_core.Backend.Json.{Any, infer_total_files}
use fine_rag_core.Backend.Jobs.{
  JobRow, Background, Submission, submitted_row, launched, inserted, decoded, handle_submit_job,
  update_where, settle, end_job, requeued, requeue_job, handle_retry_job,
}
use fine_rag_core.Backend.Jobs.Links.{
  Sound, Expected, Linked, update_where-All, update_where-Linked, settle-keeps, settle-Sound,
  fresh-Expected, insert-Linked,
}

pub record System : Type 0 where
  pub table : List JobRow
  pub running : List Background

abbrev pub launch : Option Background → List Background → List Background
launch none running = running
launch (some b) running = b ∷ running

-- A step of the system. The database accepts a row only under an id that no row has: `job_id` is the
-- primary key.
pub data Step : System → System → Type 0 where
  submit :
      (q : Submission) (s : System)
      → (q.exec ≡ none
          → any_of (λ row. str_eq row.job_id (txt "job-" ++ q.random10)) s.table ≡ false)
      → Step s (record {
        table = (handle_submit_job q s.table).1.1;
        running = launch (handle_submit_job q s.table).1.0 s.running;
      })
  end_run :
      (exec : Option Err) (now : Time) (b : Background) (result : Result (ℕ × ℕ))
      (table : List JobRow) (before after : List Background)
      → Step
          (record { table = table; running = before ++ b ∷ after })
          (record { table = end_job exec now b result table; running = before ++ after })
  retry :
      (tenant_header job_path : Text) (now : Time) (exec : Option Err) (s : System)
      → Step s (record s { table = (handle_retry_job tenant_header job_path now exec s.table).1 })

pub data Reachable : System → Type 0 where
  start : Reachable (record { table = []; running = [] })
  next : {s r : System} → Reachable s → Step s r → Reachable r

record Invariant (s : System) : Type 0 where
  sound : All Sound s.table
  linked : All (Linked s.table) s.running

end_job-Invariant :
    (exec : Option Err) (now : Time) (b : Background) (result : Result (ℕ × ℕ))
    (table : List JobRow) (before after : List Background)
    → Invariant (record { table = table; running = before ++ b ∷ after })
    → Invariant (record { table = end_job exec now b result table; running = before ++ after })
unfolding end_job Linked Expected
end_job-Invariant (some e) now b result table before after i = record {
  sound = i.sound;
  linked = (All-without (Linked table) before b after i.linked).1;
}
end_job-Invariant none now b result table before after i =
    let ((has, expected), others) = All-without (Linked table) before b after i.linked in
    let n = infer_total_files b.payload in
    let p = λ (row : JobRow). str_eq row.job_id b.job_id in
    record {
      sound =
          update_where-All p (settle result n now) (λ row. Sound row × Expected b row) Sound
            (λ row e h. settle-Sound result n now row (h.1 e)) (λ row h. h.0) table
            (All-both Sound (Expected b) table i.sound expected);
      linked =
          All-each (Linked table) (Linked (update_where p (settle result n now) table))
            (update_where-Linked p (settle result n now) (settle-keeps result n now) table)
            (before ++ after) others;
    }

requeue_job-Invariant :
    (exec : Option Err) (t : TenantId) (job : Text) (now : Time) (s : System)
    → Invariant s
    → Invariant (record s { table = (requeue_job exec t job now s.table).1 })
unfolding requeue_job
requeue_job-Invariant (some e) t job now s i = i
requeue_job-Invariant none t job now s i =
    let p = λ (row : JobRow). str_eq row.tenant_id t && str_eq row.job_id job in
    record {
      sound =
          update_where-All p (requeued now) Sound Sound (λ row e h. (h.0, inr (inl refl)))
            (λ row h. h) s.table i.sound;
      linked =
          All-each (Linked s.table) (Linked (update_where p (requeued now) s.table))
            (update_where-Linked p (requeued now) (λ row. (refl, refl)) s.table) s.running i.linked;
    }

retry-Invariant :
    (tenant_header job_path : Text) (now : Time) (exec : Option Err) (s : System)
    → Invariant s
    → Invariant (record s { table = (handle_retry_job tenant_header job_path now exec s.table).1 })
unfolding handle_retry_job
retry-Invariant tenant_header job_path now exec s i =
    elim (Bool-cases (is_empty (trim_space job_path))) [
      | inl e ↦ rw e i
      | inr e ↦
          rw e (requeue_job-Invariant exec (trim_space tenant_header) (trim_space job_path) now s i)
    ]

inserted-Invariant :
    (exec : Option Err) (row : JobRow) (payload : Dict Any) (s : System)
    → (exec ≡ none → any_of (λ r. str_eq r.job_id row.job_id) s.table ≡ false)
    → Sound row
    → row.total_files ≡ infer_total_files payload
    → Invariant s
    → Invariant (record {
      table = (inserted exec row payload s.table).1.1;
      running = launch (inserted exec row payload s.table).1.0 s.running;
    })
unfolding inserted
inserted-Invariant (some e) row payload s fresh h total i = i
inserted-Invariant none row payload s fresh h total i =
    let b = launched row payload in
    record {
      sound = All-append Sound s.table (row ∷ []) i.sound (h, tt);
      linked = (
        unfold Linked Expected in
            (
              any_of-last (λ r. str_eq r.job_id row.job_id) s.table row (str_eq_refl row.job_id),
              All-append (Expected b) s.table (row ∷ []) (fresh-Expected b s.table (fresh refl))
                  (λ e. total, tt),
            ),
        All-each (Linked s.table) (Linked (s.table ++ row ∷ []))
            (λ c l. insert-Linked row s.table c (fresh refl) l) s.running i.linked,
      );
    }

decoded-Invariant :
    (q : Submission) (r : Result (Dict Any)) (s : System)
    → (q.exec ≡ none → any_of (λ row. str_eq row.job_id (txt "job-" ++ q.random10)) s.table ≡ false)
    → Invariant s
    → Invariant (record {
      table = (decoded q r s.table).1.1;
      running = launch (decoded q r s.table).1.0 s.running;
    })
unfolding decoded submitted_row
decoded-Invariant q (err e) s fresh i = i
decoded-Invariant q (ok payload) s fresh i =
    let row = submitted_row q payload in
    elim (Bool-cases (is_empty row.source_uri)) [
      | inl e ↦ rw e i
      | inr e ↦ rw e (
          inserted-Invariant q.exec row payload s fresh ((omega arith, omega arith), inl refl) refl
            i)
    ]

step-Invariant : {s r : System} → Step s r → Invariant s → Invariant r
step-Invariant (submit q s fresh) i =
    unfold handle_submit_job in decoded-Invariant q q.body s fresh i
step-Invariant (end_run exec now b result table before after) i =
    end_job-Invariant exec now b result table before after i
step-Invariant (retry tenant_header job_path now exec s) i =
    retry-Invariant tenant_header job_path now exec s i

Reachable-Invariant : {s : System} → Reachable s → Invariant s
Reachable-Invariant start = record { sound = tt; linked = tt }
Reachable-Invariant (next h step) = step-Invariant step (Reachable-Invariant h)

-- At any time, after any submissions, ends of runs (with any result) and retries, whatever the
-- database refuses: in every row the successful and failed files add up to the processed ones, which
-- are at most all of the job's, and the status is one of indexing, queued, indexed and failed.
pub Reachable-Sound : (s : System) → Reachable s → All Sound s.table
Reachable-Sound s h = (Reachable-Invariant h).sound
