-- ===== src/Crawl/Changes.antt =====
-- Every call moves the jobs along the machine.
use trustguard_rag.Prelude.{
  ℕ, ◌≡◌, refl, true, false, Option, none, some, String, arith, not, ◌||◌, if_cases, if_elim,
  option_cases, Bool-cases, inl, inr, is_some,
}
use trustguard_rag.Store.Table.{lookup}
use trustguard_rag.Store.Values.{Dict}
use trustguard_rag.Store.Rows.{add_outbox_event}
use trustguard_rag.Crawl.Values.{Progress}
use trustguard_rag.Crawl.Rows.{
  CrawlJobStatus, CrawlJobRow, CrawlDb, CrawlSettings, CrawlerSourceRow, is_terminal, is_running,
}
use trustguard_rag.Crawl.Jobs
use trustguard_rag.Crawl.Jobs.{
  save, command, insert_job, new_crawl_job, claimed_row, is_claimable, runs_attempt, create_run,
}
use trustguard_rag.Crawl.Control
use trustguard_rag.Crawl.Control.{
  is_lost, finished_row, cancelled_row, resumed_row, recovered_row, is_idle, is_stale, recover_jobs,
}
use trustguard_rag.Crawl.Review
use trustguard_rag.Crawl.Machine.{
  Advances, edits, claims, ends, cancels, fails, Moves, resumes, IsNew, Change, stays, writes, adds,
  sweeps,
}

claimed_row-Advances :
    (now : ℕ) (row : CrawlJobRow) → is_claimable row ≡ true → Advances row (claimed_row now row)
unfolding is_claimable claimed_row
claimed_row-Advances now row e = claims (ground arith) (ground arith) refl refl refl refl

finished_row-Advances :
    (now : ℕ) (status : CrawlJobStatus) (p : Option Progress) (m : Option String) (n : ℕ)
    (row : CrawlJobRow)
    → is_lost (some n) row ≡ false
    → Advances row (finished_row now status p m row)
unfolding is_lost runs_attempt finished_row
finished_row-Advances now status p m n row e =
    ends (ground arith) refl refl (λ k. ground arith) (λ k. ground arith)

cancelled_row-Advances :
    (now : ℕ) (row : CrawlJobRow)
    → is_terminal row.status ≡ false
    → Advances row (cancelled_row now row)
unfolding cancelled_row
cancelled_row-Advances now row e = elim (Bool-cases (is_idle row.status)) [
  | inl idle ↦ cancels idle (rw idle refl) refl refl (rw idle (ground arith))
  | inr busy ↦ edits (rw busy refl) refl refl (rw busy refl)
]

resumed_row-Moves :
    (now : ℕ) (row : CrawlJobRow)
    → Control.is_resumable row.status ≡ true
    → Moves row (resumed_row now row)
unfolding resumed_row
resumed_row-Moves now row e = resumes e refl refl (ground arith) refl

pub recovered_row-Advances :
    (s : CrawlSettings) (now : ℕ) (row : CrawlJobRow)
    → is_stale s now row ≡ true
    → Advances row (recovered_row now row)
unfolding is_stale recovered_row
recovered_row-Advances s now row e = fails (ground arith) refl refl refl

-- What a call leaves of the table of jobs.
pub record Leaves {ℓ} (R : CrawlJobRow → CrawlJobRow → Type 0) (db : CrawlDb) {A : Type ℓ}
    (r : A × CrawlDb) : Type 0 where
  pub change : Change R db.crawl_jobs r.1.crawl_jobs

module _ {R : CrawlJobRow → CrawlJobRow → Type 0} (db : CrawlDb) where
  pub unchanged {ℓ} : {A : Type ℓ} {a : A} → Leaves R db (a, db)
  unchanged = record { change = stays }

  pub written {ℓ} :
      {A : Type ℓ} {a : A} (id : String) (row row' : CrawlJobRow)
      → lookup id db.crawl_jobs ≡ some row
      → R row row'
      → Leaves R db (a, save id row' db)
  unfolding save
  written id row row' e r = record { change = writes id row row' stays e r }

new_crawl_job-IsNew : (now : ℕ) (k : String) (config : Dict) → IsNew (new_crawl_job now k config)
unfolding new_crawl_job
new_crawl_job-IsNew now k config = record {
  queued = refl;
  attempt = refl;
  max_attempts = refl;
  finished_at = refl;
}

none_of : {A : Type 0} (o : Option A) → is_some o ≡ false → o ≡ none
none_of none e = refl
none_of (some a) e = cc

-- An insertion.
insert_job-Leaves :
    (now : ℕ) (id k : String) (config : Dict) (db : CrawlDb)
    → Leaves Advances db (insert_job now id (new_crawl_job now k config) db)
unfolding insert_job command add_outbox_event
insert_job-Leaves now id k config db =
    if_cases (Leaves Advances db) (is_some (lookup id db.crawl_jobs)) (λ _. unchanged db)
      λ e. record { change = adds id _ (none_of _ e) (new_crawl_job-IsNew now k config) }

module _ (now : ℕ) (db : CrawlDb) where
  pub create_job-Leaves :
      (k : String) (config : Dict) (id : String)
      → Leaves Advances db (Jobs.create_job now k config id db)
  unfolding Jobs.create_job
  create_job-Leaves k config id =
      if_elim (Leaves Advances db) (is_some (lookup k db.core.knowledge_bases))
        (insert_job-Leaves now id k config db) (unchanged db)

  create_run-Leaves :
      (source : String) (config : Dict) (trigger id : String) (row : CrawlerSourceRow)
      → Leaves Advances db (create_run now source config trigger id row db)
  unfolding create_run Jobs.start_run
  create_run-Leaves source config trigger id row =
      if_elim (Leaves Advances db)
        (not row.enabled || not (Jobs.is_empty (Jobs.active_runs source db))) (unchanged db)
        (if_elim (Leaves Advances db)
          (not (is_some (lookup row.knowledge_base_id db.core.knowledge_bases))) (unchanged db)
          (if_elim (Leaves Advances db)
            (is_some (lookup id db.crawl_jobs) || is_some (lookup id db.crawler_source_runs))
            (unchanged db)
            (record {
              change =
                  (insert_job-Leaves now id row.knowledge_base_id config
                    (Jobs.start_run now source trigger id row db)).change;
            })))

  pub create_source_job-Leaves :
      (source : String) (config : Dict) (trigger id : String)
      → Leaves Advances db (Jobs.create_source_job now source config trigger id db)
  unfolding Jobs.create_source_job
  create_source_job-Leaves source config trigger id =
      option_cases (Leaves Advances db) (lookup source db.crawler_sources) (λ _. unchanged db)
        λ row _. create_run-Leaves source config trigger id row

  pub claim-Leaves : (id : String) → Leaves Advances db (Jobs.claim now id db)
  unfolding Jobs.claim
  claim-Leaves id =
      option_cases (Leaves Advances db) (lookup id db.crawl_jobs) (λ _. unchanged db)
        λ row e.
          if_cases (Leaves Advances db) (is_claimable row)
            (λ h. written db id row (claimed_row now row) e (claimed_row-Advances now row h))
            (λ _. unchanged db)

  pub heartbeat-Leaves : (id : String) (n : ℕ) → Leaves Advances db (Jobs.heartbeat now id n db)
  unfolding Jobs.heartbeat
  heartbeat-Leaves id n =
      option_cases (Leaves Advances db) (lookup id db.crawl_jobs) (λ _. unchanged db)
        λ row e.
          if_elim (Leaves Advances db) (runs_attempt n row)
            (written db id row _ e (edits refl refl refl refl)) (unchanged db)

  pub update_progress-Leaves :
      (id : String) (p : Option Progress) (j : Option String) (n : ℕ)
      → Leaves Advances db (Review.update_progress now id p j (some n) db)
  unfolding Review.update_progress
  update_progress-Leaves id p j n =
      option_cases (Leaves Advances db) (lookup id db.crawl_jobs) (λ _. unchanged db)
        λ row e.
          if_elim (Leaves Advances db) (is_lost (some n) row) (unchanged db)
            (written db id row _ e (edits refl refl refl refl))

  pub finish-Leaves :
      (id : String) (status : CrawlJobStatus) (p : Option Progress) (m : Option String) (n : ℕ)
      → Leaves Advances db (Control.finish now id status p m (some n) db)
  unfolding Control.finish
  finish-Leaves id status p m n =
      option_cases (Leaves Advances db) (lookup id db.crawl_jobs) (λ _. unchanged db)
        λ row e.
          if_cases (Leaves Advances db) (is_lost (some n) row) (λ _. unchanged db)
            λ h. written db id row _ e (finished_row-Advances now status p m n row h)

  pub request_pause-Leaves : (id : String) → Leaves Advances db (Control.request_pause now id db)
  unfolding Control.request_pause
  request_pause-Leaves id =
      option_cases (Leaves Advances db) (lookup id db.crawl_jobs) (λ _. unchanged db)
        λ row e.
          if_elim (Leaves Advances db) (is_running row.status)
            (written db id row _ e (edits refl refl refl refl)) (unchanged db)

  pub request_cancel-Leaves : (id : String) → Leaves Advances db (Control.request_cancel now id db)
  unfolding Control.request_cancel
  request_cancel-Leaves id =
      option_cases (Leaves Advances db) (lookup id db.crawl_jobs) (λ _. unchanged db)
        λ row e.
          if_cases (Leaves Advances db) (is_terminal row.status) (λ _. unchanged db)
            λ h. written db id row _ e (cancelled_row-Advances now row h)

  pub request_cancel_for_source-Change :
      (source : String)
      → Change Advances db.crawl_jobs (Control.request_cancel_for_source now source db).crawl_jobs
  unfolding Control.request_cancel_for_source
  request_cancel_for_source-Change source =
      sweeps _ _ (λ id row e. cancelled_row-Advances now row (ground arith))

  pub resume-Leaves : (id : String) → Leaves Moves db (Control.resume now id db)
  unfolding Control.resume command save
  resume-Leaves id =
      option_cases (Leaves Moves db) (lookup id db.crawl_jobs) (λ _. unchanged db)
        λ row e.
          if_cases (Leaves Moves db) (Control.is_resumable row.status)
            (λ h. record { change = writes id row _ stays e (resumed_row-Moves now row h) })
            (λ _. unchanged db)
