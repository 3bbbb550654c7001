-- ===== src/Jobs/Rows.antt =====
-- What the row of a job satisfies between two transactions of app/stores/job_store.py, and that each
-- change of a row keeps it.
use trustguard_rag.Prelude.{
  ℕ, ◌≤◌, ◌≡◌, true, false, Option, none, some, List, String, arith, or_default,
}
use trustguard_rag.Domain.{IngestJobStatus, IngestStep, is_running}
use trustguard_rag.Store.Values.{Dict}
use trustguard_rag.Store.Rows.{StepLog, IngestJobRow, Settings}
use trustguard_rag.Jobs.Claim.{
  clear_lease, holds_lease, new_job, exhaust_row, grant_row, is_exhausted,
}
use trustguard_rag.Jobs.Leased.{FinishValues, running_row, conflict_row, finished_row, retry_row}
use trustguard_rag.Jobs.Publication.{published_row, resolving_row, is_conflict}
use trustguard_rag.Jobs.Recovery.{released_row, requeued_row, unlink_row}

-- No lease outlives the run of its job, and no job has more attempts than it may have.
pub record IsConsistent (job : IngestJobRow) : Type 0 where
  pub no_token : is_running job.status ≡ false → job.lease_token ≡ none
  pub no_owner : is_running job.status ≡ false → job.lease_owner ≡ none
  pub no_end : is_running job.status ≡ false → job.lease_expires_at ≡ none
  pub no_heartbeat : is_running job.status ≡ false → job.heartbeat_at ≡ none
  pub bounded : job.attempt ≤ or_default job.max_attempts 3

pub new_job-IsConsistent :
    (k : Option String) (source_type source : String) (o : Option Dict) (s : IngestJobStatus)
    → IsConsistent (new_job k source_type source o s)
unfolding new_job
new_job-IsConsistent k source_type source o s = ground arith

module _ (job : IngestJobRow) (h : IsConsistent job) where
  pub exhaust_row-IsConsistent : (now : ℕ) (m : String) → IsConsistent (exhaust_row now m job)
  unfolding exhaust_row clear_lease
  exhaust_row-IsConsistent now m = ground arith

  pub grant_row-IsConsistent :
      (now : ℕ) (owner token : String) (t : ℕ)
      → is_exhausted job ≡ false
      → IsConsistent (grant_row now owner token t job)
  unfolding grant_row is_exhausted
  grant_row-IsConsistent now owner token t e = ground arith

  pub running_row-IsConsistent :
      (s : Settings) (now : ℕ) (step : IngestStep) (token : Option String)
      → IsConsistent (running_row s now step token job)
  unfolding running_row
  running_row-IsConsistent s now step token = ground arith

  pub conflict_row-IsConsistent :
      (p : String) (c : List String) → IsConsistent (conflict_row p c job)
  unfolding conflict_row
  conflict_row-IsConsistent p c = ground arith

  pub finished_row-IsConsistent :
      (now : ℕ) (s : IngestJobStatus) (v : FinishValues) → IsConsistent (finished_row now s v job)
  unfolding finished_row
  finished_row-IsConsistent now s v = ground arith

  pub retry_row-IsConsistent :
      (now : ℕ) (c m : String) (s : IngestJobStatus) → IsConsistent (retry_row now c m s job)
  unfolding retry_row clear_lease
  retry_row-IsConsistent now c m s = ground arith

  pub published_row-IsConsistent : (now : ℕ) (d : String) → IsConsistent (published_row now d job)
  unfolding published_row
  published_row-IsConsistent now d = ground arith

  pub resolving_row-IsConsistent :
      (keep : String) → is_conflict job.status ≡ true → IsConsistent (resolving_row keep job)
  unfolding resolving_row
  resolving_row-IsConsistent keep e = ground arith

  pub requeued_row-IsConsistent : (now : ℕ) → IsConsistent (requeued_row (released_row now job))
  unfolding requeued_row released_row
  requeued_row-IsConsistent now = ground arith

  pub released_row-IsConsistent : (now : ℕ) → IsConsistent (released_row now job)
  unfolding released_row
  released_row-IsConsistent now = ground arith

  pub unlink_row-IsConsistent : (d : String) → IsConsistent (unlink_row d job)
  unfolding unlink_row
  unlink_row-IsConsistent d = ground arith

  pub renewed_row-IsConsistent :
      (token : String) (b e : ℕ)
      → holds_lease token job ≡ true
      → IsConsistent (record job { heartbeat_at = some b; lease_expires_at = some e })
  unfolding holds_lease
  renewed_row-IsConsistent token b e held = ground arith

  pub document_row-IsConsistent :
      (d : Option String) → IsConsistent (record job { document_id = d })
  document_row-IsConsistent d = ground arith

  pub logged_row-IsConsistent : (l : List StepLog) → IsConsistent (record job { step_logs = l })
  logged_row-IsConsistent l = ground arith
