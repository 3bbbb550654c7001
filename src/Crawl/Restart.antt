-- ===== src/Crawl/Restart.antt =====
-- A job that is resumed or whose worker has stopped is taken up again.
use mathlib.Core.Path.{subst}
use trustguard_rag.Prelude.{ℕ, suc, ◌≤◌, ◌≡◌, ◌∙◌, ap, true, some, String, arith, eq_iff}
use trustguard_rag.Store.Table.{lookup, lookup-set}
use trustguard_rag.Store.Rows.{add_outbox_event}
use trustguard_rag.Crawl.Rows.{CrawlJobRow, CrawlDb}
use trustguard_rag.Crawl.Jobs
use trustguard_rag.Crawl.Jobs.{save, command, claimed_row, is_claimable, runs_attempt}
use trustguard_rag.Crawl.Control
use trustguard_rag.Crawl.Control.{
  go_on, is_lost, resumed_row, recovered_row, is_resumable, is_stale, recover_jobs, control_state,
}
use trustguard_rag.Crawl.Lifecycle.{IsConsistent}

module _ (now : ℕ) (id : String) (row : CrawlJobRow) (db : CrawlDb)
    (e : lookup id db.crawl_jobs ≡ some row) (r : is_resumable row.status ≡ true) where
  lookup-resumed : lookup id (Control.resume now id db).1.crawl_jobs ≡ some (resumed_row now row)
  unfolding Control.resume command save add_outbox_event
  lookup-resumed =
      ground (arith, lookup-set id id (resumed_row now row) db.crawl_jobs, eq_iff id id)

pub claims_of :
    (now : ℕ) (id : String) (row : CrawlJobRow) (db : CrawlDb)
    → lookup id db.crawl_jobs ≡ some row
    → (Jobs.claim now id db).0 ≡ is_claimable row
unfolding Jobs.claim
claims_of now id row db e = ground arith

lookup-claimed :
    (now : ℕ) (id : String) (row : CrawlJobRow) (db : CrawlDb)
    → lookup id db.crawl_jobs ≡ some row
    → is_claimable row ≡ true
    → lookup id (Jobs.claim now id db).1.crawl_jobs ≡ some (claimed_row now row)
unfolding Jobs.claim save
lookup-claimed now id row db e c =
    ground (arith, lookup-set id id (claimed_row now row) db.crawl_jobs, eq_iff id id)

resumed-is_claimable :
    (now : ℕ) (row : CrawlJobRow) → IsConsistent row → is_claimable (resumed_row now row) ≡ true
unfolding is_claimable resumed_row
resumed-is_claimable now row c = ground arith

-- No paused or failed crawl job is stuck: if its row is consistent, then after `resume` a worker that
-- claims the job is granted it, however many attempts the job has used.
pub resumed_job_claims :
    (now later : ℕ) (id : String) (row : CrawlJobRow) (db : CrawlDb)
    → lookup id db.crawl_jobs ≡ some row
    → is_resumable row.status ≡ true
    → IsConsistent row
    → (Jobs.claim later id (Control.resume now id db).1).0 ≡ true
resumed_job_claims now later id row db e r c =
    claims_of later id (resumed_row now row) (Control.resume now id db).1
      (lookup-resumed now id row db e r)
    ∙ resumed-is_claimable now row c

-- What a runner with the attempt `n` is told.
pub record PassesFence (n : ℕ) (id : String) (db : CrawlDb) : Type 0 where
  pub heartbeat : (now : ℕ) → (Jobs.heartbeat now id n db).0 ≡ true
  pub control : control_state id (some n) db ≡ go_on

passes :
    (now : ℕ) (id : String) (row : CrawlJobRow) (db : CrawlDb)
    → lookup id db.crawl_jobs ≡ some (claimed_row now row)
    → PassesFence (suc row.attempt) id db
unfolding Jobs.heartbeat control_state is_lost runs_attempt claimed_row
passes now id row db e = record { heartbeat = λ t. ground arith; control = ground arith }

-- The fence does not outlast a resumption of a job that has used its attempts up: `resume` sets the
-- count back to 0, so the next claim gives the attempt 1 again, and a runner of the job's first
-- attempt, if it is still at work, renews the claim and is told to go on.
pub resumed_attempts_repeat :
    (now later : ℕ) (id : String) (row : CrawlJobRow) (db : CrawlDb)
    → lookup id db.crawl_jobs ≡ some row
    → is_resumable row.status ≡ true
    → IsConsistent row
    → row.max_attempts ≤ row.attempt
    → PassesFence 1 id (Jobs.claim later id (Control.resume now id db).1).1
unfolding resumed_row
resumed_attempts_repeat now later id row db e r c m =
    let db' = (Control.resume now id db).1 in
    let found = lookup-resumed now id row db e r in
    let count : (resumed_row now row).attempt ≡ 0 = ground arith in
    subst (λ n. PassesFence n id (Jobs.claim later id db').1) (ap suc count)
      (passes later id (resumed_row now row) (Jobs.claim later id db').1
        (lookup-claimed later id (resumed_row now row) db' found (resumed-is_claimable now row c)))
