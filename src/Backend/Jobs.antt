-- ===== src/Backend/Jobs.antt =====
-- backend/managers/ingestion.go: the handlers of ingestion jobs, the table `ingestion_jobs` and the
-- run in the background.
--
-- A handler is one step on the table. Its statement is carried out, or the database answers with an
-- error and changes nothing; which of the two, the time and the random texts are arguments.
pub mod Links
pub mod Lifecycle
pub mod Outcome
use fine_rag_core.Prelude.{
  ℕ, Bool, ◌&&◌, Option, none, some, List, [], ◌∷◌, ◌++◌, keep, take, is_empty, ltb, if◌then◌else◌,
}
use fine_rag_core.Text.{Text, txt, str_eq, trim_space}
use fine_rag_core.Result.{Err, message, Result, ok, err}
use fine_rag_core.Dict.{Dict}
use fine_rag_core.Sorting.{sort_stable}
use fine_rag_core.Contracts.Tenant.{Time, TenantId}
use fine_rag_core.Contracts.Job.{VectorRecord}
use fine_rag_core.Backend.Json.{Any, value_of, as_string, infer_total_files}
use fine_rag_core.Backend.Objects.{Indexer}
use fine_rag_core.Backend.Artifacts.{index_payload_artifacts}

-- A row of `ingestion_jobs`. The payload is kept as its JSON text.
pub record JobRow : Type 0 where
  pub job_id : Text
  pub tenant_id : TenantId
  pub source_uri : Text
  pub checksum : Text
  pub status : Text
  pub stage : Text
  pub processed_files : ℕ
  pub total_files : ℕ
  pub successful_files : ℕ
  pub failed_files : ℕ
  pub policy_code : Text
  pub policy_reason : Text
  pub source_mode : Text
  pub payload_json : Text
  pub chunk_count : ℕ
  pub payload_bytes : ℕ
  pub submitted_at : Time
  pub updated_at : Time

-- The arguments of a goroutine `processIngestionBackground`.
pub record Background : Type 0 where
  pub job_id : Text
  pub tenant_id : TenantId
  pub checksum : Text
  pub source_uri : Text
  pub payload : Dict Any

-- The status code and what is written.
pub data Reply : Type 0 where
  failure : ℕ → Text → Text → Reply
  created : ℕ → Text → Text → ℕ → Time → Reply
  jobs : ℕ → List JobRow → Reply
  no_content : ℕ → Reply

-- What a handler gets from outside: the decoded body, random texts of 10 and 12 symbols, the payload
-- as JSON, the time and the answer of the database.
pub record Submission : Type 0 where
  pub tenant_header : Text
  pub body : Result (Dict Any)
  pub random10 : Text
  pub random12 : Text
  pub payload_json : Text
  pub now : Time
  pub exec : Option Err

abbrev pub or_text : Text → Text → Text
or_text s d = if is_empty s then d else s

unfoldable pub submitted_row : Submission → Dict Any → JobRow
unfolding value_of infer_total_files
submitted_row q payload =
    let source_uri = trim_space (as_string (value_of (txt "sourceUri") payload)) in
    record {
      job_id = txt "job-" ++ q.random10;
      tenant_id = trim_space q.tenant_header;
      source_uri = source_uri;
      checksum = or_text (trim_space (as_string (value_of (txt "checksum") payload))) q.random12;
      status = txt "indexing";
      stage = txt "parsing";
      processed_files = 0;
      total_files = infer_total_files payload;
      successful_files = 0;
      failed_files = 0;
      policy_code = [];
      policy_reason = [];
      source_mode =
          or_text (trim_space (as_string (value_of (txt "sourceMode") payload))) (txt "uri");
      payload_json = q.payload_json;
      chunk_count = 0;
      payload_bytes = 0;
      submitted_at = q.now;
      updated_at = q.now;
    }

-- The reply, the goroutine that is launched, and the table.
abbrev pub Handled : Type 0
Handled = Reply × (Option Background × List JobRow)

abbrev pub launched : JobRow → Dict Any → Background
launched row payload = record {
  job_id = row.job_id;
  tenant_id = row.tenant_id;
  checksum = row.checksum;
  source_uri = row.source_uri;
  payload = payload;
}

inserted : Option Err → JobRow → Dict Any → List JobRow → Handled
inserted (some e) row payload table =
    (failure 500 (txt "job_submit_failed") (message e), (none, table))
inserted none row payload table = (
  created 201 row.job_id row.source_uri row.total_files row.submitted_at,
  (some (launched row payload), table ++ row ∷ []),
)

decoded : Submission → Result (Dict Any) → List JobRow → Handled
unfolding submitted_row inserted
decoded q (err e) table = (failure 400 (txt "invalid_json") (message e), (none, table))
decoded q (ok payload) table =
    let row = submitted_row q payload in
    let done = inserted q.exec row payload table in
    if is_empty row.source_uri
    then (failure 400 (txt "invalid_payload") (txt "sourceUri is required"), (none, table))
    else done

unfoldable pub handle_submit_job : Submission → List JobRow → Handled
unfolding decoded
handle_submit_job q table = decoded q q.body table

-- `UPDATE ingestion_jobs SET … WHERE …`
unfoldable pub update_where : (JobRow → Bool) → (JobRow → JobRow) → List JobRow → List JobRow
update_where p f [] = []
update_where p f (row ∷ rows) =
    let rest = update_where p f rows in if p row then f row ∷ rest else row ∷ rest

-- The row of a job whose run has ended: the chunks and bytes of a run that failed are 0.
unfoldable pub settle : Result (ℕ × ℕ) → ℕ → Time → JobRow → JobRow
settle (err e) total_files now row = record row {
  status = txt "failed";
  stage = txt "error";
  policy_reason = message e;
  chunk_count = 0;
  payload_bytes = 0;
  processed_files = total_files;
  successful_files = 0;
  failed_files = total_files;
  updated_at = now;
}
settle (ok (chunks, bytes)) total_files now row = record row {
  status = txt "indexed";
  stage = txt "complete";
  policy_reason = [];
  chunk_count = chunks;
  payload_bytes = bytes;
  processed_files = total_files;
  successful_files = total_files;
  failed_files = 0;
  updated_at = now;
}

-- The update after a run with this result; an error of the database is only logged.
unfoldable pub end_job : Option Err → Time → Background → Result (ℕ × ℕ) → List JobRow → List JobRow
unfolding update_where settle infer_total_files
end_job (some e) now b result table = table
end_job none now b result table =
    update_where (λ row. str_eq row.job_id b.job_id)
      (settle result (infer_total_files b.payload) now) table

-- The batches that were handed to the index, and the table.
unfoldable pub process_ingestion_background :
    {E : Type 0}
    → Indexer E
    → Option Err
    → Time
    → Background
    → List JobRow
    → List (List (VectorRecord E)) × List JobRow
unfolding end_job
process_ingestion_background m exec now b table =
    let (result, batches) =
      index_payload_artifacts m b.tenant_id b.job_id b.checksum b.source_uri b.payload in
    (batches, end_job exec now b result table)

-- `WHERE tenant_id = $1 ORDER BY submitted_at DESC LIMIT 100`
unfoldable pub tenant_jobs : ℕ → TenantId → List JobRow → List JobRow
unfolding sort_stable
tenant_jobs limit t table = take limit (
    sort_stable (λ a b. ltb b.submitted_at a.submitted_at)
      (keep (λ row. str_eq row.tenant_id t) table))

unfoldable pub handle_list_jobs : Text → Option Err → List JobRow → Reply
unfolding tenant_jobs
handle_list_jobs tenant_header (some e) table = failure 500 (txt "job_list_failed") (message e)
handle_list_jobs tenant_header none table =
    jobs 200 (tenant_jobs 100 (trim_space tenant_header) table)

abbrev pub requeued : Time → JobRow → JobRow
requeued now row = record row { status = txt "queued"; stage = txt "cleanup"; updated_at = now }

requeue_job : Option Err → TenantId → Text → Time → List JobRow → Reply × List JobRow
unfolding update_where
requeue_job (some e) t job now table = (failure 500 (txt "job_retry_failed") (message e), table)
requeue_job none t job now table = (
  no_content 204,
  update_where (λ row. str_eq row.tenant_id t && str_eq row.job_id job) (requeued now) table,
)

unfoldable pub handle_retry_job :
    Text → Text → Time → Option Err → List JobRow → Reply × List JobRow
unfolding requeue_job
handle_retry_job tenant_header job_path now exec table =
    let job = trim_space job_path in
    let done = requeue_job exec (trim_space tenant_header) job now table in
    if is_empty job
    then (failure 400 (txt "job_id_required") (txt "job id is required"), table)
    else done
