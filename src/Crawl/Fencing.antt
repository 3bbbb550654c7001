-- ===== src/Crawl/Fencing.antt =====
-- A runner whose job was claimed again can write nothing, until the attempts of the job are counted
-- anew.
use trustguard_rag.Prelude.{
  ℕ, ◌≤◌, ◌<◌, ◌≡◌, refl, ◌∙◌, sym, Bool, true, false, Option, some, List, [], ◌∷◌, String, arith,
  eq_iff, str_eq, Option-cases, inl, inr, if_cases, option_cases, All,
}
use trustguard_rag.Store.Table.{lookup, lookup-set, IsUnique}
use trustguard_rag.Store.Rows.{OutboxEvent, Result, add_outbox_event}
use trustguard_rag.Crawl.Values.{Progress}
use trustguard_rag.Crawl.Rows.{CrawlJobStatus, CrawlJobRow, CrawlDb}
use trustguard_rag.Crawl.Jobs
use trustguard_rag.Crawl.Jobs.{save, command, claimed_row, is_claimable, runs_attempt}
use trustguard_rag.Crawl.Control
use trustguard_rag.Crawl.Control.{Control, lost, is_lost, resumed_row, is_resumable, control_state}
use trustguard_rag.Crawl.Review
use trustguard_rag.Crawl.Machine.{Advances, Star, here, and_then, both}
use trustguard_rag.Crawl.Tracks.{Tracks, Change-Tracks}
use trustguard_rag.Crawl.Calls.{Environment, Call, perform, run}
use trustguard_rag.Crawl.Runs.{perform-Advances, perform-IsUnique, run-IsUnique}

-- The call queues this job again.
abbrev pub is_resume_of : String → Call → Bool
is_resume_of id (Call.resume j) = str_eq j id
is_resume_of id call = false

lookup-resume :
    (now : ℕ) (j id : String) (db : CrawlDb)
    → str_eq j id ≡ false
    → lookup id (Control.resume now j db).1.crawl_jobs ≡ lookup id db.crawl_jobs
unfolding Control.resume command save add_outbox_event
lookup-resume now j id db ne =
    option_cases
      (λ (r : Result OutboxEvent × CrawlDb). lookup id r.1.crawl_jobs ≡ lookup id db.crawl_jobs)
      (lookup j db.crawl_jobs) (λ _. refl)
      λ row _.
        if_cases
          (λ (r : Result OutboxEvent × CrawlDb). lookup id r.1.crawl_jobs ≡ lookup id db.crawl_jobs)
          (is_resumable row.status)
          (λ _. ground (arith, lookup-set j id (resumed_row now row) db.crawl_jobs)) (λ _. refl)

module _ (e : Environment) (id : String) where
  perform-Tracks :
      (now : ℕ) (call : Call) (a : CrawlJobRow) (db : CrawlDb)
      → is_resume_of id call ≡ false
      → IsUnique db.crawl_jobs
      → lookup id db.crawl_jobs ≡ some a
      → Tracks Advances id a (perform e now call db).crawl_jobs
  perform-Tracks now (Call.resume j) a db n u h =
      unfold perform in record { row = a; found = lookup-resume now j id db n ∙ h; path = here }
  perform-Tracks now call a db n u h = Change-Tracks id a (perform-Advances e now db call refl u) h

  run-Advances :
      (calls : List (ℕ × Call)) (a : CrawlJobRow) (db : CrawlDb)
      → All (λ c. is_resume_of id c.1 ≡ false) calls
      → IsUnique db.crawl_jobs
      → lookup id db.crawl_jobs ≡ some a
      → Tracks Advances id a (run e calls db).crawl_jobs
  unfolding run
  run-Advances [] a db n u h = record { row = a; found = h; path = here }
  run-Advances ((now, call) ∷ calls) a db n u h =
      let w = perform-Tracks now call a db n.0 u h in
      let rest =
        run-Advances calls w.row (perform e now call db) n.1 (perform-IsUnique e now call db u)
          w.found in
      record { row = rest.row; found = rest.found; path = both w.path rest.path }

attempt_le : (a b : CrawlJobRow) → Advances a b → a.attempt ≤ b.attempt
attempt_le a b r = ground arith

attempts_le : (a : CrawlJobRow) {b : CrawlJobRow} → Star Advances a b → a.attempt ≤ b.attempt
attempts_le a here = omega arith
attempts_le a (and_then {b} {c} s r) = omega (arith, attempts_le a s, attempt_le b c r)

-- No call of a runner in this attempt does anything, and its control state is "lost".
pub record IsFenced (n : ℕ) (id : String) (db : CrawlDb) : Type 0 where
  pub heartbeat : (now : ℕ) → Jobs.heartbeat now id n db ≡ (false, db)
  pub update_progress :
      (now : ℕ) (p : Option Progress) (j : Option String)
      → Review.update_progress now id p j (some n) db ≡ (false, db)
  pub finish :
      (now : ℕ) (status : CrawlJobStatus) (p : Option Progress) (m : Option String)
      → Control.finish now id status p m (some n) db ≡ (false, db)
  pub control : control_state id (some n) db ≡ lost

later_attempt_fences :
    (n : ℕ) (id : String) (row : CrawlJobRow) (db : CrawlDb)
    → lookup id db.crawl_jobs ≡ some row
    → n < row.attempt
    → IsFenced n id db
unfolding Jobs.heartbeat Review.update_progress Control.finish control_state is_lost runs_attempt
later_attempt_fences n id row db e l = record {
  heartbeat = λ now. ground arith;
  update_progress = λ now p j. ground arith;
  finish = λ now status p m. ground arith;
  control = ground arith;
}

-- What a claim that is granted has seen and left.
record Granted (now : ℕ) (id : String) (db : CrawlDb) : Type 0 where
  before : CrawlJobRow
  seen : lookup id db.crawl_jobs ≡ some before
  now_found : lookup id (Jobs.claim now id db).1.crawl_jobs ≡ some (claimed_row now before)

granted :
    (now : ℕ) (id : String) (db : CrawlDb) → (Jobs.claim now id db).0 ≡ true → Granted now id db
unfolding Jobs.claim save
granted now id db g = elim (Option-cases (lookup id db.crawl_jobs)) [
  | inl e ↦ cc
  | inr (row, e) ↦ record {
    before = row;
    seen = e;
    now_found = ground (arith, lookup-set id id (claimed_row now row) db.crawl_jobs, eq_iff id id);
  }
]

same_attempt : {a b : CrawlJobRow} → some a ≡ some b → a.attempt ≡ b.attempt
same_attempt e = cc

module _ (e : Environment) (id : String) where
  claim-IsUnique :
      (now : ℕ) (db : CrawlDb)
      → IsUnique db.crawl_jobs
      → IsUnique (Jobs.claim now id db).1.crawl_jobs
  claim-IsUnique now db u = unfold perform in perform-IsUnique e now (Call.claim id) db u

  -- Fencing of the crawler's runners, where no two jobs share an id. If a job is in the attempt `n`,
  -- and later, after any run of calls, another claim of the job is granted, then after any further
  -- run a runner in the attempt `n` can do nothing: its heartbeats, writes of progress and ends
  -- return `False` and leave the database as it is, and its control state is "lost". In both runs
  -- nobody resumes this job.
  pub runner-IsFenced :
      (a : CrawlJobRow) (before after : List (ℕ × Call)) (now : ℕ) (db : CrawlDb)
      → IsUnique db.crawl_jobs
      → lookup id db.crawl_jobs ≡ some a
      → All (λ c. is_resume_of id c.1 ≡ false) before
      → (Jobs.claim now id (run e before db)).0 ≡ true
      → All (λ c. is_resume_of id c.1 ≡ false) after
      → IsFenced a.attempt id (run e after (Jobs.claim now id (run e before db)).1)
  unfolding claimed_row
  runner-IsFenced a before after now db u h n g m =
      let first = run-Advances e id before a db n u h in
      let db' = run e before db in
      let claim = granted now id db' g in
      let then_ =
        run-Advances e id after (claimed_row now claim.before) (Jobs.claim now id db').1 m
          (claim-IsUnique now db' (run-IsUnique e before db u)) claim.now_found in
      later_attempt_fences a.attempt id then_.row _ then_.found (
        omega (
          arith,
          attempts_le a first.path,
          same_attempt (sym first.found ∙ claim.seen),
          attempts_le (claimed_row now claim.before) then_.path,
        ))
