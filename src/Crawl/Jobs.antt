-- ===== src/Crawl/Jobs.antt =====
-- `CrawlerStore`: creating a job, claiming it, running it and controlling it.
use trustguard_rag.Prelude.{
  ℕ, suc, Bool, true, false, not, ◌&&◌, ◌||◌, none, some, List, [], ◌∷◌, String, leb, ◌==◌,
  if◌then◌else◌, is_some, or_else, str_eq,
}
use trustguard_rag.Store.Table
use trustguard_rag.Store.Table.{Table}
use trustguard_rag.Store.Values.{Dict, text}
use trustguard_rag.Store.Rows.{
  OutboxEvent, Result, ok, err, lookup_error, value_error, integrity_error, run_crawler,
  add_outbox_event,
}
use trustguard_rag.Crawl.Values.{Progress, no_progress}
use trustguard_rag.Crawl.Values
use trustguard_rag.Crawl.Rows.{
  CrawlJobStatus, is_terminal, is_running, CrawlJobRow, CrawlerSourceRow, CrawlerSourceRunRow,
  CrawlDb,
}

-- The written row of a job.
unfoldable pub save : String → CrawlJobRow → CrawlDb → CrawlDb
save id row db = record db { crawl_jobs = Table.set id row db.crawl_jobs }

-- The progress of a job that has found nothing.
unfoldable pub initial_progress : Progress
initial_progress = record no_progress {
  queued_for_ingest = some 0;
  fields =
      ("discovered", Values.number 0)
      ∷ ("fetched", Values.number 0)
      ∷ ("skipped", Values.number 0)
      ∷ ("failed", Values.number 0)
      ∷ ("errors", Values.other false "[]")
      ∷ [];
}

-- `_new_crawl_job`, with the columns' defaults.
unfoldable pub new_crawl_job : ℕ → String → Dict → CrawlJobRow
new_crawl_job now knowledge_base_id config = record {
  knowledge_base_id = knowledge_base_id;
  status = CrawlJobStatus.queued;
  config_json = config;
  progress_json = some initial_progress;
  ingest_job_ids_json = some [];
  error_message = none;
  attempt = 0;
  max_attempts = 3;
  cancel_requested = false;
  pause_requested = false;
  created_at = now;
  started_at = none;
  finished_at = none;
  updated_at = now;
}

-- The outbox command that starts the job.
unfoldable pub command : ℕ → String → CrawlDb → OutboxEvent × CrawlDb
command now id db =
    let (event, core) =
      add_outbox_event now run_crawler id (("crawl_job_id", text id) ∷ []) db.core in
    (event, record db { core = core })

-- The insertion of a row with its command; its primary key must be new.
unfoldable pub insert_job : ℕ → String → CrawlJobRow → CrawlDb → Result OutboxEvent × CrawlDb
unfolding command
insert_job now id row db =
    if is_some (Table.lookup id db.crawl_jobs)
    then (err integrity_error, db)
    else (let (event, db') =
          command now id (record db { crawl_jobs = Table.add id row db.crawl_jobs }) in
        (ok event, db'))

-- `create_job`; the caller has drawn the id that `job_id or str(uuid4())` stands for.
unfoldable pub create_job : ℕ → String → Dict → String → CrawlDb → Result OutboxEvent × CrawlDb
unfolding insert_job new_crawl_job
create_job now knowledge_base_id config id db =
    if is_some (Table.lookup knowledge_base_id db.core.knowledge_bases)
    then insert_job now id (new_crawl_job now knowledge_base_id config) db
    else (err lookup_error, db)

-- `active_statuses` of `create_source_job`.
abbrev pub is_active : CrawlJobStatus → Bool
is_active CrawlJobStatus.queued = true
is_active CrawlJobStatus.running = true
is_active CrawlJobStatus.paused = true
is_active _ = false

-- The job is a run of the source: the join with the runs.
unfoldable pub is_run_of : String → Table CrawlerSourceRunRow → String → Bool
is_run_of source_id runs id = elim (Table.lookup id runs) [
  | none ↦ false
  | some run ↦ str_eq run.source_id source_id
]

-- The runs of the source with an active job.
unfoldable pub active_runs : String → CrawlDb → Table CrawlJobRow
active_runs source_id db =
    Table.select_where
      (λ id row. is_run_of source_id db.crawler_source_runs id && is_active row.status)
      db.crawl_jobs

abbrev pub is_empty {ℓ} : {A : Type ℓ} → List A → Bool
is_empty [] = true
is_empty (x ∷ xs) = false

unfoldable pub new_source_run : String → String → CrawlerSourceRunRow
new_source_run source_id trigger_type = record {
  source_id = source_id;
  trigger_type = trigger_type;
  status = "queued";
  approved_count = 0;
  rejected_count = 0;
  error_message = none;
  finished_at = none;
}

-- The rows that a new run of the source writes beside its job.
unfoldable pub start_run : ℕ → String → String → String → CrawlerSourceRow → CrawlDb → CrawlDb
unfolding new_source_run
start_run now source_id trigger_type id source db = record db {
  crawler_source_runs = Table.add id (new_source_run source_id trigger_type) db.crawler_source_runs;
  crawler_sources =
      Table.set source_id
        (record source { last_job_id = some id; last_run_at = some now; updated_at = now })
        db.crawler_sources;
}

-- `create_source_job` after the source is found and locked.
unfoldable pub create_run :
    ℕ → String → Dict → String → String → CrawlerSourceRow → CrawlDb → Result OutboxEvent × CrawlDb
create_run now source_id config trigger_type id source db =
    if not source.enabled || not (is_empty (active_runs source_id db))
    then (err value_error, db)
    else if not (is_some (Table.lookup source.knowledge_base_id db.core.knowledge_bases))
    then (err lookup_error, db)
    else if is_some (Table.lookup id db.crawl_jobs)
        || is_some (Table.lookup id db.crawler_source_runs)
    then (err integrity_error, db)
    else insert_job now id (new_crawl_job now source.knowledge_base_id config)
        (start_run now source_id trigger_type id source db)

-- `create_source_job`.
unfoldable pub create_source_job :
    ℕ → String → Dict → String → String → CrawlDb → Result OutboxEvent × CrawlDb
create_source_job now source_id config trigger_type id db =
    elim (Table.lookup source_id db.crawler_sources) [
      | none ↦ (err lookup_error, db)
      | some source ↦ create_run now source_id config trigger_type id source db
    ]

-- The row of a job that a worker has claimed.
unfoldable pub claimed_row : ℕ → CrawlJobRow → CrawlJobRow
claimed_row now row = record row {
  status = CrawlJobStatus.running;
  attempt = suc row.attempt;
  started_at = or_else row.started_at (some now);
  finished_at = none;
  error_message = none;
  cancel_requested = false;
  pause_requested = false;
  updated_at = now;
}

-- The guards of `claim`.
abbrev pub is_waiting : CrawlJobStatus → Bool
is_waiting CrawlJobStatus.queued = true
is_waiting CrawlJobStatus.failed = true
is_waiting _ = false

unfoldable pub is_claimable : CrawlJobRow → Bool
is_claimable row =
    not (is_terminal row.status) && is_waiting row.status && not (leb row.max_attempts row.attempt)

-- `claim`.
unfoldable pub claim : ℕ → String → CrawlDb → Bool × CrawlDb
claim now id db = elim (Table.lookup id db.crawl_jobs) [
  | none ↦ (false, db)
  | some row ↦ if is_claimable row then (true, save id (claimed_row now row) db) else (false, db)
]

-- The caller runs the job in this attempt.
unfoldable pub runs_attempt : ℕ → CrawlJobRow → Bool
runs_attempt attempt row = is_running row.status && row.attempt == attempt

-- `heartbeat`: one guarded update.
unfoldable pub heartbeat : ℕ → String → ℕ → CrawlDb → Bool × CrawlDb
heartbeat now id expected_attempt db = elim (Table.lookup id db.crawl_jobs) [
  | none ↦ (false, db)
  | some row ↦
      if runs_attempt expected_attempt row
      then (true, save id (record row { updated_at = now }) db)
      else (false, db)
]
