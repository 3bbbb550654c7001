-- ===== src/Crawl/Machine.antt =====
-- The state machine of a crawl job, and the tables that its moves lead to.
use trustguard_rag.Prelude.{suc, ◌<◌, ◌≤◌, ◌≡◌, ◌≢◌, Bool, true, false, none, some, String, ◌⊎◌}
use trustguard_rag.Store.Table
use trustguard_rag.Store.Table.{Table, lookup, lookup-set, lookup-update_where, IsUnique}
use trustguard_rag.Crawl.Rows.{CrawlJobStatus, CrawlJobRow, is_paused}
use trustguard_rag.Crawl.Jobs.{is_waiting}
use trustguard_rag.Crawl.Control.{is_idle, is_resumable}

-- The moves of a job within the attempts of one start.
pub data Advances (a b : CrawlJobRow) : Type 0 where
  -- Its progress, its time of change and its request to pause are written.
  edits :
      b.status ≡ a.status
      → b.attempt ≡ a.attempt
      → b.max_attempts ≡ a.max_attempts
      → b.finished_at ≡ a.finished_at
      → Advances a b
  -- A worker claims it.
  claims :
      is_waiting a.status ≡ true
      → a.attempt < a.max_attempts
      → b.status ≡ CrawlJobStatus.running
      → b.attempt ≡ suc a.attempt
      → b.max_attempts ≡ a.max_attempts
      → b.finished_at ≡ none
      → Advances a b
  -- Its runner ends.
  ends :
      a.status ≡ CrawlJobStatus.running
      → b.attempt ≡ a.attempt
      → b.max_attempts ≡ a.max_attempts
      → (is_paused b.status ≡ false → b.finished_at ≢ none)
      → (is_paused b.status ≡ true → b.finished_at ≡ none)
      → Advances a b
  -- It is cancelled while no worker runs it.
  cancels :
      is_idle a.status ≡ true
      → b.status ≡ CrawlJobStatus.cancelled
      → b.attempt ≡ a.attempt
      → b.max_attempts ≡ a.max_attempts
      → b.finished_at ≢ none
      → Advances a b
  -- Its worker has stopped.
  fails :
      a.status ≡ CrawlJobStatus.running
      → b.status ≡ CrawlJobStatus.failed
      → b.attempt ≡ a.attempt
      → b.max_attempts ≡ a.max_attempts
      → Advances a b

-- All moves: a job may also be started again.
pub data Moves (a b : CrawlJobRow) : Type 0 where
  advances : Advances a b → Moves a b
  resumes :
      is_resumable a.status ≡ true
      → b.status ≡ CrawlJobStatus.queued
      → b.max_attempts ≡ a.max_attempts
      → (b.attempt ≡ a.attempt) × (a.attempt < a.max_attempts)
        ⊎ (b.attempt ≡ 0) × (a.max_attempts ≤ a.attempt)
      → b.finished_at ≡ none
      → Moves a b

-- Any number of moves.
pub data Star (R : CrawlJobRow → CrawlJobRow → Type 0) (a : CrawlJobRow)
    : CrawlJobRow → Type 0 where
  here : Star R a a
  and_then : {b c : CrawlJobRow} → Star R a b → R b c → Star R a c

module _ {R : CrawlJobRow → CrawlJobRow → Type 0} where
  pub one : {a b : CrawlJobRow} → R a b → Star R a b
  one r = Star.and_then Star.here r

  pub both : {a b c : CrawlJobRow} → Star R a b → Star R b c → Star R a c
  both s here = s
  both s (and_then t r) = Star.and_then (both s t) r

-- A new job.
pub record IsNew (a : CrawlJobRow) : Type 0 where
  pub queued : a.status ≡ CrawlJobStatus.queued
  pub attempt : a.attempt ≡ 0
  pub max_attempts : a.max_attempts ≡ 3
  pub finished_at : a.finished_at ≡ none

-- The ways in which a call changes the table of jobs.
pub data Change (R : CrawlJobRow → CrawlJobRow → Type 0) (t : Table CrawlJobRow)
    : Table CrawlJobRow → Type 0 where
  stays : Change R t t
  writes :
      {u : Table CrawlJobRow} (id : String) (a b : CrawlJobRow)
      → Change R t u
      → lookup id u ≡ some a
      → R a b
      → Change R t (Table.set id b u)
  adds :
      (id : String) (a : CrawlJobRow) → lookup id t ≡ none → IsNew a → Change R t (Table.add id a t)
  sweeps :
      (p : String → CrawlJobRow → Bool) (f : CrawlJobRow → CrawlJobRow)
      → ((id : String) (a : CrawlJobRow) → p id a ≡ true → R a (f a))
      → Change R t (Table.update_where p f t)

pub widened : {t u : Table CrawlJobRow} → Change Advances t u → Change Moves t u
widened stays = Change.stays
widened (writes id a b c e r) = Change.writes id a b (widened c) e (Moves.advances r)
widened (adds id a e n) = Change.adds id a e n
widened (sweeps p f g) = Change.sweeps p f (λ id a e. Moves.advances (g id a e))
