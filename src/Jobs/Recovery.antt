-- ===== src/Jobs/Recovery.antt =====
-- `JobStore.recover_expired_jobs` and `JobStore.clear_document_references`.
use mathlib.Core.Option
use trustguard_rag.Prelude.{
  ℕ, Bool, true, not, ◌&&◌, Option, none, some, List, [], ◌∷◌, ◌++◌, String, if◌then◌else◌,
  option_eq, str_eq, contains, filter_by,
}
use trustguard_rag.Domain.{IngestJobStatus, IngestStep}
use trustguard_rag.Store.Table
use trustguard_rag.Store.Table.{Table}
use trustguard_rag.Store.Values.{Dict, text, get, or_empty, truthy}
use trustguard_rag.Store.Rows.{
  IngestJobRow, Db, OutboxEvent, resolve_conflict, ingest_document, reviewed_ingest_document,
  add_outbox_event,
}
use trustguard_rag.Jobs.Claim.{
  save_job, clear_lease, reclaimable, is_exhausted, exhaust_row, fail_document,
}

-- `bool(keep_document_id and job.pending_document_id)`.
unfoldable pub is_resolving : IngestJobRow → Bool
is_resolving job =
    truthy (get "keep_document_id" (or_empty job.options_json))
    && not (option_eq job.pending_document_id none)
    && not (option_eq job.pending_document_id (some ""))

-- The log entry of a lost lease; the lease is taken away.
unfoldable pub released_row : ℕ → IngestJobRow → IngestJobRow
unfolding clear_lease
released_row now job = clear_lease (record job {
  step_logs =
      job.step_logs
      ++ record { step = job.current_step; status = "lease_expired"; at = now; detail = none } ∷ [];
})

unfoldable pub requeued_row : IngestJobRow → IngestJobRow
requeued_row job = record job {
  status =
      if is_resolving job
      then IngestJobStatus.resolve_retrying
      else IngestJobStatus.ingest_retrying;
  current_step = some IngestStep.retry_wait;
  error_code = some "WORKER_LEASE_EXPIRED";
  error_message = some "Previous Worker stopped before completing the task";
}

-- The command that takes the job up again.
unfoldable pub recovery_event : IngestJobRow → String
unfolding is_resolving
recovery_event job =
    if is_resolving job
    then resolve_conflict
    else if truthy (get "review_approved" (or_empty job.options_json))
    then reviewed_ingest_document
    else ingest_document

unfoldable pub recovery_payload : String → IngestJobRow → Dict
unfolding is_resolving
recovery_payload id job =
    if is_resolving job
    then ("job_id", text id)
      ∷ ("keep_document_id", get "keep_document_id" (or_empty job.options_json))
      ∷ []
    else ("job_id", text id) ∷ []

-- `if job.document_id:`, so an empty id is skipped.
abbrev nonempty : Option String → Option String
nonempty none = none
nonempty (some s) = if str_eq s "" then none else some s

-- One round of the loop.
unfoldable pub recover_job : ℕ → String → IngestJobRow → Db → List OutboxEvent × Db
recover_job now id job db =
    if is_exhausted job
    then fail_document now (nonempty job.document_id) (
        save_job id
          (exhaust_row now "Worker crashed and retry limit was exceeded" (released_row now job)) db)
    else (let (event, db') =
          add_outbox_event now (recovery_event job) id (recovery_payload id job)
            (save_job id (requeued_row (released_row now job)) db) in
        (event ∷ [], db'))

unfoldable pub recover_jobs : ℕ → Table IngestJobRow → Db → List OutboxEvent × Db
recover_jobs now [] db = ([], db)
recover_jobs now ((id, job) ∷ rest) db =
    let (events, db') = recover_job now id job db in
    let (more, db'') = recover_jobs now rest db' in (events ++ more, db'')

-- `recover_expired_jobs`; `locked` are the rows that other sessions hold, which are skipped.
unfoldable pub recover_expired_jobs : ℕ → List String → Db → List OutboxEvent × Db
recover_expired_jobs now locked db =
    recover_jobs now
      (Table.select_where (λ id job. reclaimable now job && not (contains id locked)) db.jobs) db

-- `clear_document_references`.
unfoldable pub unlink_row : String → IngestJobRow → IngestJobRow
unlink_row document_id job = record job {
  document_id = if option_eq job.document_id (some document_id) then none else job.document_id;
  pending_document_id =
      if option_eq job.pending_document_id (some document_id)
      then none
      else job.pending_document_id;
  conflict_candidates_json =
      Option.map (filter_by (λ c. not (str_eq c document_id))) job.conflict_candidates_json;
}

unfoldable pub clear_document_references : String → Db → Db
clear_document_references document_id db = record db {
  jobs = Table.update_where (λ id job. true) (unlink_row document_id) db.jobs;
}
