-- ===== src/Crawl/Control.antt =====
-- `CrawlerStore`: the control of a running job, its end, its cancellation, its resumption, and the
-- recovery of jobs whose worker has stopped.
use trustguard_rag.Prelude.{
  ℕ, ◌+◌, Bool, true, false, not, ◌&&◌, ◌||◌, Option, none, some, List, [], ◌∷◌, String, leb,
  if◌then◌else◌, or_else, str_eq, take_text, contains,
}
use trustguard_rag.Store.Table
use trustguard_rag.Store.Table.{Table}
use trustguard_rag.Store.Rows.{OutboxEvent, Result, ok, err, lookup_error, value_error}
use trustguard_rag.Crawl.Values.{Progress}
use trustguard_rag.Crawl.Rows.{
  CrawlJobStatus, is_terminal, is_running, is_paused, is_cancelled, CrawlJobRow, CrawlDb,
  CrawlSettings,
}
use trustguard_rag.Crawl.Jobs.{save, command, is_run_of, runs_attempt}

-- What `control_state` answers, which is `None` for a job that may go on.
pub data Control : Type 0 where
  lost cancel pause go_on : Control

-- The guard `expected_attempt is not None and ...` of the methods of a runner.
unfoldable pub is_lost : Option ℕ → CrawlJobRow → Bool
is_lost none row = false
is_lost (some attempt) row = not (runs_attempt attempt row)

-- `control_state`.
unfoldable pub control_state : String → Option ℕ → CrawlDb → Control
control_state id expected_attempt db = elim (Table.lookup id db.crawl_jobs) [
  | none ↦ cancel
  | some row ↦
      if is_lost expected_attempt row
      then lost
      else if row.cancel_requested || is_cancelled row.status
      then cancel
      else if row.pause_requested || is_paused row.status
      then pause
      else go_on
]

-- `error_message[:4000] if error_message else None`.
unfoldable pub short_message : Option String → Option String
short_message none = none
short_message (some s) = if str_eq s "" then none else some (take_text 4000 s)

unfoldable pub finished_row :
    ℕ → CrawlJobStatus → Option Progress → Option String → CrawlJobRow → CrawlJobRow
unfolding short_message
finished_row now status progress message row = record row {
  status = status;
  progress_json = or_else progress row.progress_json;
  error_message = short_message message;
  finished_at = if is_paused status then none else some now;
  updated_at = now;
}

-- `finish`.
unfoldable pub finish :
    ℕ
    → String
    → CrawlJobStatus
    → Option Progress
    → Option String
    → Option ℕ
    → CrawlDb
    → Bool × CrawlDb
finish now id status progress message expected_attempt db = elim (Table.lookup id db.crawl_jobs) [
  | none ↦ (false, db)
  | some row ↦
      if is_lost expected_attempt row
      then (false, db)
      else (true, save id (finished_row now status progress message row) db)
]

-- `request_pause`.
unfoldable pub request_pause : ℕ → String → CrawlDb → Result CrawlJobRow × CrawlDb
request_pause now id db = elim (Table.lookup id db.crawl_jobs) [
  | none ↦ (err lookup_error, db)
  | some row ↦
      if is_running row.status
      then (let row' = record row { pause_requested = true; updated_at = now } in
          (ok row', save id row' db))
      else (err value_error, db)
]

-- The statuses of a job that no worker runs, which is cancelled at once.
abbrev pub is_idle : CrawlJobStatus → Bool
is_idle CrawlJobStatus.queued = true
is_idle CrawlJobStatus.paused = true
is_idle CrawlJobStatus.failed = true
is_idle _ = false

-- A job that is asked to stop.
unfoldable pub cancelled_row : ℕ → CrawlJobRow → CrawlJobRow
cancelled_row now row = record row {
  cancel_requested = true;
  status = if is_idle row.status then CrawlJobStatus.cancelled else row.status;
  finished_at = if is_idle row.status then some now else row.finished_at;
  updated_at = now;
}

-- `request_cancel`.
unfoldable pub request_cancel : ℕ → String → CrawlDb → Result CrawlJobRow × CrawlDb
request_cancel now id db = elim (Table.lookup id db.crawl_jobs) [
  | none ↦ (err lookup_error, db)
  | some row ↦
      if is_terminal row.status
      then (ok row, db)
      else (ok (cancelled_row now row), save id (cancelled_row now row) db)
]

-- `request_cancel_for_source`: every run of the source that has not ended.
unfoldable pub request_cancel_for_source : ℕ → String → CrawlDb → CrawlDb
request_cancel_for_source now source_id db = record db {
  crawl_jobs =
      Table.update_where
        (λ id row. is_run_of source_id db.crawler_source_runs id && not (is_terminal row.status))
        (cancelled_row now) db.crawl_jobs;
}

-- The row of a job that is queued again.
unfoldable pub resumed_row : ℕ → CrawlJobRow → CrawlJobRow
resumed_row now row = record row {
  attempt = if leb row.max_attempts row.attempt then 0 else row.attempt;
  status = CrawlJobStatus.queued;
  pause_requested = false;
  cancel_requested = false;
  finished_at = none;
  updated_at = now;
}

-- The statuses from which `resume` starts.
abbrev pub is_resumable : CrawlJobStatus → Bool
is_resumable CrawlJobStatus.paused = true
is_resumable CrawlJobStatus.failed = true
is_resumable _ = false

-- `resume`.
unfoldable pub resume : ℕ → String → CrawlDb → Result OutboxEvent × CrawlDb
unfolding command
resume now id db = elim (Table.lookup id db.crawl_jobs) [
  | none ↦ (err lookup_error, db)
  | some row ↦
      if is_resumable row.status
      then (let (event, db') = command now id (save id (resumed_row now row) db) in (ok event, db'))
      else (err value_error, db)
]

-- The condition of the query of `recover_stale_jobs`.
unfoldable pub is_stale : CrawlSettings → ℕ → CrawlJobRow → Bool
is_stale settings now row =
    is_running row.status && leb (row.updated_at + settings.crawler_stale_seconds) now

unfoldable pub recovered_row : ℕ → CrawlJobRow → CrawlJobRow
recovered_row now row = record row {
  status = CrawlJobStatus.failed;
  error_message = some "Crawler worker heartbeat expired; task was recovered";
  updated_at = now;
}

-- One round of the loop, and the loop.
unfoldable pub recover_jobs : ℕ → Table CrawlJobRow → CrawlDb → List OutboxEvent × CrawlDb
unfolding command
recover_jobs now [] db = ([], db)
recover_jobs now ((id, row) ∷ rows) db =
    let (event, db') = command now id (save id (recovered_row now row) db) in
    let (events, db'') = recover_jobs now rows db' in (event ∷ events, db'')

-- `recover_stale_jobs`; the rows in `locked` are held by other sessions and skipped.
unfoldable pub recover_stale_jobs :
    CrawlSettings → ℕ → List String → CrawlDb → List OutboxEvent × CrawlDb
recover_stale_jobs settings now locked db =
    recover_jobs now
      (Table.select_where (λ id row. is_stale settings now row && not (contains id locked))
        db.crawl_jobs)
      db
