-- ===== src/Crawl/Lifecycle.antt =====
-- What every run of calls keeps of the crawl jobs.
use trustguard_rag.Prelude.{
  ℕ, ◌<◌, ◌≤◌, ◌≡◌, ◌≢◌, refl, true, false, none, some, List, [], ◌∷◌, String, arith,
}
use trustguard_rag.Store.Table.{lookup, IsUnique, Rows}
use trustguard_rag.Crawl.Rows.{CrawlJobRow, CrawlDb, is_terminal, is_paused, is_running}
use trustguard_rag.Crawl.Jobs
use trustguard_rag.Crawl.Jobs.{is_waiting, is_claimable}
use trustguard_rag.Crawl.Machine.{Advances, Moves, advances, resumes, IsNew, Star, here, and_then}
use trustguard_rag.Crawl.Tracks.{Rows-Change}
use trustguard_rag.Crawl.Calls.{Environment, Call, perform, run}
use trustguard_rag.Crawl.Runs.{perform-Moves, perform-IsUnique, run-Tracks}

-- What the columns of a job say together.
pub record IsConsistent (a : CrawlJobRow) : Type 0 where
  pub bounded : a.attempt ≤ a.max_attempts
  pub allowed : 0 < a.max_attempts
  pub started : is_running a.status ≡ true → 0 < a.attempt
  pub ended : is_terminal a.status ≡ true → a.finished_at ≢ none
  pub waiting : is_paused a.status ≡ true → a.finished_at ≡ none

Advances-IsConsistent : (a b : CrawlJobRow) → Advances a b → IsConsistent a → IsConsistent b
Advances-IsConsistent a b r c = ground arith

Moves-IsConsistent : (a b : CrawlJobRow) → Moves a b → IsConsistent a → IsConsistent b
Moves-IsConsistent a b (advances r) c = Advances-IsConsistent a b r c
Moves-IsConsistent a b (resumes f q m n e) c = ground arith

IsNew-IsConsistent : (a : CrawlJobRow) → IsNew a → IsConsistent a
IsNew-IsConsistent a n = ground arith

-- Every crawl job is consistent, and their primary keys differ.
pub record IsValid (db : CrawlDb) : Type 0 where
  pub rows : Rows IsConsistent db.crawl_jobs
  pub unique : IsUnique db.crawl_jobs

module _ (e : Environment) where
  -- From a valid database every run of timed calls, by any services and runners in any order, leads
  -- to one: no crawl job has more attempts than it may have, a running job is in an attempt, a job
  -- that has succeeded or was cancelled has an end, a paused one has none, and no two crawl jobs share
  -- an id.
  pub run_crawls-IsValid :
      (calls : List (ℕ × Call)) (db : CrawlDb) → IsValid db → IsValid (run e calls db)
  unfolding run
  run_crawls-IsValid [] db h = h
  run_crawls-IsValid ((now, call) ∷ calls) db h =
      run_crawls-IsValid calls (perform e now call db) (record {
        rows =
            Rows-Change IsConsistent Moves-IsConsistent IsNew-IsConsistent
              (perform-Moves e now db call h.unique) h.rows;
        unique = perform-IsUnique e now call db h.unique;
      })

-- What a job that has ended keeps.
pub record IsSame (a b : CrawlJobRow) : Type 0 where
  pub status : b.status ≡ a.status
  pub attempt : b.attempt ≡ a.attempt
  pub finished_at : b.finished_at ≡ a.finished_at

Moves-IsSame :
    (o a b : CrawlJobRow) → is_terminal o.status ≡ true → Moves a b → IsSame o a → IsSame o b
Moves-IsSame o a b t (advances r) s = ground arith
Moves-IsSame o a b t (resumes f q m n e) s = ground arith

Star-IsSame :
    (a : CrawlJobRow) {b : CrawlJobRow} → is_terminal a.status ≡ true → Star Moves a b → IsSame a b
Star-IsSame a t here = record { status = refl; attempt = refl; finished_at = refl }
Star-IsSame a t (and_then {b} {c} s r) = Moves-IsSame a b c t r (Star-IsSame a t s)

-- The row that a run leaves of an ended job, which no claim takes.
pub record IsFinal (id : String) (a : CrawlJobRow) (db : CrawlDb) : Type 0 where
  pub row : CrawlJobRow
  pub found : lookup id db.crawl_jobs ≡ some row
  pub same : IsSame a row
  pub refused : (now : ℕ) → Jobs.claim now id db ≡ (false, db)

refuses :
    (now : ℕ) (id : String) (row : CrawlJobRow) (db : CrawlDb)
    → lookup id db.crawl_jobs ≡ some row
    → is_terminal row.status ≡ true
    → Jobs.claim now id db ≡ (false, db)
unfolding Jobs.claim is_claimable
refuses now id row db e t = ground arith

-- Success and cancellation are final, where no two jobs share an id: after any run of calls,
-- recoveries, resumptions and the calls of runners that have not noticed among them, the job has the
-- status, the attempt and the end that it had, and no worker can claim it.
pub terminal-IsFinal :
    (e : Environment) (id : String) (a : CrawlJobRow) (calls : List (ℕ × Call)) (db : CrawlDb)
    → IsUnique db.crawl_jobs
    → lookup id db.crawl_jobs ≡ some a
    → is_terminal a.status ≡ true
    → IsFinal id a (run e calls db)
terminal-IsFinal e id a calls db u h t =
    let w = run-Tracks e id a calls db u h in
    let same = Star-IsSame a t w.path in
    record {
      row = w.row;
      found = w.found;
      same = same;
      refused = λ now. refuses now id w.row (run e calls db) w.found (rw same.status t);
    }
