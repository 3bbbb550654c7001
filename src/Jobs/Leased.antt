-- ===== src/Jobs/Leased.antt =====
-- `JobStore`: the methods that a worker calls while it runs a job.
-- A caller that gives a lease token must still hold the lease.
use trustguard_rag.Prelude.{
  ℕ, ◌+◌, Bool, false, not, Option, none, some, List, [], ◌∷◌, ◌++◌, String, if◌then◌else◌, or_else,
  option_eq, is_some,
}
use trustguard_rag.Domain.{IngestJobStatus, IngestStep, is_running}
use trustguard_rag.Store.Table
use trustguard_rag.Store.Rows.{IngestJobRow, Settings, ok, err, Tx, lease_lost_error}
use trustguard_rag.Jobs.Claim.{save_job, clear_lease, is_exhausted, holds_lease}

-- `lease_token is not None and (status != RUNNING or lease_token differs)`.
unfoldable pub lease_lost : Option String → IngestJobRow → Bool
lease_lost none job = false
lease_lost (some token) job = not (holds_lease token job)

-- A change of one job under the guard; a missing job is passed over.
unfoldable pub guarded_update :
    String → Option String → (IngestJobRow → IngestJobRow) → Tx (Unit {0})
guarded_update job_id token change db = elim (Table.lookup job_id db.jobs) [
  | none ↦ (ok tt, db)
  | some job ↦
      if lease_lost token job
      then (err lease_lost_error, db)
      else (ok tt, save_job job_id (change job) db)
]

-- `UPDATE ... WHERE id AND lease`, which raises if it was to be guarded and met no row.
unfoldable pub guarded_write :
    String → Option String → (IngestJobRow → IngestJobRow) → Tx (Unit {0})
guarded_write job_id token change db = elim (Table.lookup job_id db.jobs) [
  | none ↦ if is_some token then (err lease_lost_error, db) else (ok tt, db)
  | some job ↦
      if lease_lost token job
      then (err lease_lost_error, db)
      else (ok tt, save_job job_id (change job) db)
]

-- The columns that `lease_token is not None` renews.
abbrev pub renewed : Option String → Option ℕ → Option ℕ → Option ℕ
renewed none old new = old
renewed (some token) old new = new

unfoldable pub running_row : Settings → ℕ → IngestStep → Option String → IngestJobRow → IngestJobRow
running_row settings now step token job = record job {
  status = IngestJobStatus.running;
  current_step = some step;
  started_at = or_else job.started_at (some now);
  heartbeat_at = renewed token job.heartbeat_at (some now);
  lease_expires_at =
      renewed token job.lease_expires_at (some (now + settings.worker_job_lease_seconds));
  step_logs =
      job.step_logs
      ++ record { step = some step; status = "started"; at = now; detail = none } ∷ [];
}

-- `mark_running`.
unfoldable pub mark_running : Settings → ℕ → String → IngestStep → Option String → Tx (Unit {0})
mark_running settings now job_id step token =
    guarded_update job_id token (running_row settings now step token)

unfoldable pub conflict_row : String → List String → IngestJobRow → IngestJobRow
conflict_row pending_document_id conflict_candidates job = record job {
  pending_document_id = some pending_document_id;
  conflict_candidates_json = some conflict_candidates;
  error_code = some "FILENAME_CONFLICT";
  error_message = some "Filename or source conflict detected";
}

-- `attach_conflict`.
unfoldable pub attach_conflict : String → String → List String → Option String → Tx (Unit {0})
attach_conflict job_id pending_document_id conflict_candidates token =
    guarded_update job_id token (conflict_row pending_document_id conflict_candidates)

-- `set_document_id`.
unfoldable pub set_document_id : String → Option String → Option String → Tx (Unit {0})
set_document_id job_id document_id token =
    guarded_write job_id token (λ job. record job { document_id = document_id })

-- The optional arguments of `finish`.
pub record FinishValues : Type 0 where
  pub document_id : Option String
  pub pending_document_id : Option String
  pub conflict_candidates : Option (List String)
  pub error_code : Option String
  pub error_message : Option String

unfoldable pub finished_row : ℕ → IngestJobStatus → FinishValues → IngestJobRow → IngestJobRow
unfolding clear_lease
finished_row now status values job = clear_lease (record job {
  status = status;
  finished_at = some now;
  error_code = values.error_code;
  error_message = values.error_message;
  document_id = or_else values.document_id job.document_id;
  pending_document_id = or_else values.pending_document_id job.pending_document_id;
  conflict_candidates_json = or_else values.conflict_candidates job.conflict_candidates_json;
})

-- `finish`.
unfoldable pub finish : ℕ → String → IngestJobStatus → FinishValues → Option String → Tx (Unit {0})
finish now job_id status values token = guarded_write job_id token (finished_row now status values)

unfoldable pub retry_row : ℕ → String → String → IngestJobStatus → IngestJobRow → IngestJobRow
retry_row now error_code error_message status job = clear_lease (
    if is_exhausted job
    then record job {
      status = IngestJobStatus.failed;
      current_step = some IngestStep.failed;
      finished_at = some now;
      error_code = some error_code;
      error_message = some error_message;
    }
    else record job {
      status = status;
      current_step = some IngestStep.retry_wait;
      finished_at = none;
      error_code = some error_code;
      error_message = some error_message;
    })

-- `mark_retrying`: whether the job is to be tried again.
unfoldable pub mark_retrying :
    ℕ → String → String → String → IngestJobStatus → Option String → Tx Bool
mark_retrying now job_id error_code error_message status token db =
    elim (Table.lookup job_id db.jobs) [
      | none ↦ (ok false, db)
      | some job ↦
          if not (is_running job.status)
          then (ok false, db)
          else if lease_lost token job
          then (err lease_lost_error, db)
          else (
            ok (not (is_exhausted job)),
            save_job job_id (retry_row now error_code error_message status job) db,
          )
    ]

-- `append_step_log`; an empty detail is left out.
unfoldable pub append_step_log : ℕ → String → IngestStep → String → Option String → Tx (Unit {0})
append_step_log now job_id step status detail db = elim (Table.lookup job_id db.jobs) [
  | none ↦ (ok tt, db)
  | some job ↦ (
    ok tt,
    save_job job_id
        (record job {
          step_logs =
              job.step_logs
              ++ record {
                step = some step;
                status = status;
                at = now;
                detail = if option_eq detail (some "") then none else detail;
              }
                ∷ [];
        })
        db,
  )
]
