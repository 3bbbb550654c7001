-- ===== src/Crawl/Recovery.antt =====
-- What `recover_stale_jobs` leaves behind.
use mathlib.Core.Path.{subst}
use trustguard_rag.Prelude.{
  ℕ, ◌+◌, ◌<◌, ◌≡◌, ◌∙◌, refl, Bool, true, not, ◌&&◌, none, some, List, [], ◌∷◌, String, arith,
  eq_iff, str_eq, contains, if◌then◌else◌, inl, inr, is_some, Bool-cases, false, if_elim,
}
use trustguard_rag.Store.Table
use trustguard_rag.Store.Table.{
  Table, lookup, lookup-set, lookup-cons, IsUnique, IsUnique-set, lookup-select_where,
  IsUnique-select_where,
}
use trustguard_rag.Store.Values.{text, get, truthy}
use trustguard_rag.Outbox.Queued.{IsQueued, add_outbox_event-IsQueued, IsQueued-add_outbox_event}
use trustguard_rag.Worker.Messages.{command_of_event, routing_key}
use trustguard_rag.Worker.RoundTrip.{is_readable}
use trustguard_rag.Worker.Handlers.{Effects, dispatch_command}
use trustguard_rag.Store.Rows.{
  Db, Settings, OutboxEvent, add_outbox_event, event_from_row, new_event, run_crawler,
}
use trustguard_rag.Crawl.Rows.{CrawlJobRow, CrawlDb, CrawlSettings}
use trustguard_rag.Crawl.Jobs
use trustguard_rag.Crawl.Jobs.{save, command, is_claimable}
use trustguard_rag.Crawl.Control
use trustguard_rag.Crawl.Control.{recovered_row, is_stale, recover_jobs}
use trustguard_rag.Crawl.Restart.{claims_of}

-- The event of the command that runs a job.
abbrev pub run_event : String → String → OutboxEvent
run_event event_id id = record {
  id = event_id;
  event_type = run_crawler;
  aggregate_id = id;
  payload = ("crawl_job_id", text id) ∷ [];
}

-- The outbox has the command of the job in a row that waits for the relay.
abbrev pub IsAnnounced : String → CrawlDb → Type 0
IsAnnounced id db = (event_id : String) × IsQueued (run_event event_id id) db.core.outbox

module _ (now : ℕ) where
  lookup-round :
      (k id : String) (row : CrawlJobRow) (db : CrawlDb)
      → lookup k (command now id (save id (recovered_row now row) db)).1.crawl_jobs ≡ (
          if str_eq id k
          then (if is_some (lookup id db.crawl_jobs) then some (recovered_row now row) else none)
          else lookup k db.crawl_jobs)
  unfolding command save add_outbox_event
  lookup-round k id row db = lookup-set id k (recovered_row now row) db.crawl_jobs

  lookup-recover_jobs-none :
      (k : String) (rows : Table CrawlJobRow) (db : CrawlDb)
      → lookup k rows ≡ none
      → lookup k (recover_jobs now rows db).1.crawl_jobs ≡ lookup k db.crawl_jobs
  unfolding recover_jobs
  lookup-recover_jobs-none k [] db e = refl
  lookup-recover_jobs-none k ((id, row) ∷ rest) db e = ground (
    arith,
    lookup-cons k id row rest,
    lookup-round k id row db,
    lookup-recover_jobs-none k rest (command now id (save id (recovered_row now row) db)).1,
  )

  command-IsAnnounced :
      (k id : String) (db : CrawlDb) → str_eq id k ≡ true → IsAnnounced k (command now id db).1
  unfolding command add_outbox_event event_from_row new_event
  command-IsAnnounced k id db e = (
    db.core.uuid4 db.core.drawn,
    subst
        (λ i.
          IsQueued (run_event (db.core.uuid4 db.core.drawn) i) (command now id db).1.core.outbox)
        ((eq_iff id k).0 e)
        (add_outbox_event-IsQueued now run_crawler id (("crawl_job_id", text id) ∷ []) db.core),
  )

  IsAnnounced-recover_jobs :
      (k : String) (rows : Table CrawlJobRow) (db : CrawlDb)
      → IsAnnounced k db
      → IsAnnounced k (recover_jobs now rows db).1
  unfolding recover_jobs command save
  IsAnnounced-recover_jobs k [] db h = h
  IsAnnounced-recover_jobs k ((id, row) ∷ rest) db h =
      IsAnnounced-recover_jobs k rest (command now id (save id (recovered_row now row) db)).1 (
        h.0,
        IsQueued-add_outbox_event now run_crawler id (("crawl_job_id", text id) ∷ []) db.core
            (run_event h.0 k) h.1,
      )

  lookup-recover_jobs :
      (k : String) (row old : CrawlJobRow) (rows : Table CrawlJobRow) (db : CrawlDb)
      → IsUnique rows
      → lookup k rows ≡ some row
      → lookup k db.crawl_jobs ≡ some old
      → (lookup k (recover_jobs now rows db).1.crawl_jobs ≡ some (recovered_row now row))
        × IsAnnounced k (recover_jobs now rows db).1
  unfolding recover_jobs
  lookup-recover_jobs k row old [] db u e f = unfold lookup in cc
  lookup-recover_jobs k row old ((id, r) ∷ rest) db u e f =
      let saved = save id (recovered_row now r) db in
      let db' = (command now id saved).1 in
      elim (Bool-cases (str_eq id k)) [
        | inl same ↦ (
          ground (
            arith,
            eq_iff id k,
            lookup-cons k id r rest,
            lookup-round k id r db,
            lookup-recover_jobs-none k rest db',
            u.0,
          ),
          IsAnnounced-recover_jobs k rest db' (command-IsAnnounced k id saved same),
        )
        | inr other ↦
            lookup-recover_jobs k row old rest db' u.1 (ground (arith, lookup-cons k id r rest))
              (ground (arith, lookup-round k id r db))
      ]

-- Whether the recovery takes the job up: it runs, its last write is too old, and no other session
-- holds its row.
abbrev pub is_abandoned : CrawlSettings → ℕ → List String → String → CrawlJobRow → Bool
is_abandoned s now locked id row = is_stale s now row && not (contains id locked)

module _ (s : CrawlSettings) (now : ℕ) (locked : List String) (id : String) (row : CrawlJobRow)
    (db : CrawlDb) (u : IsUnique db.crawl_jobs) (e : lookup id db.crawl_jobs ≡ some row) where
  lookup-recovered :
      is_abandoned s now locked id row ≡ true
      → (lookup id (Control.recover_stale_jobs s now locked db).1.crawl_jobs
          ≡ some (recovered_row now row))
        × IsAnnounced id (Control.recover_stale_jobs s now locked db).1
  unfolding Control.recover_stale_jobs
  lookup-recovered h =
      let p = λ (i : String) (r : CrawlJobRow). is_abandoned s now locked i r in
      let found = lookup-select_where p id row db.crawl_jobs u e in
      lookup-recover_jobs now id row row (Table.select_where p db.crawl_jobs) db
        (IsUnique-select_where p db.crawl_jobs u) (rw h at found) e

  lookup-kept :
      is_abandoned s now locked id row ≡ false
      → lookup id (Control.recover_stale_jobs s now locked db).1.crawl_jobs ≡ some row
  unfolding Control.recover_stale_jobs
  lookup-kept h =
      let p = λ (i : String) (r : CrawlJobRow). is_abandoned s now locked i r in
      let found = lookup-select_where p id row db.crawl_jobs u e in
      lookup-recover_jobs-none now id (Table.select_where p db.crawl_jobs) db (rw h at found) ∙ e

recovered-is_claimable :
    (s : CrawlSettings) (now : ℕ) (row : CrawlJobRow)
    → is_stale s now row ≡ true
    → row.attempt < row.max_attempts
    → is_claimable (recovered_row now row) ≡ true
unfolding is_claimable recovered_row
recovered-is_claimable s now row h l = ground arith

-- The command is read from the relay's message, and reaches the crawler's handler with the job's id.
dispatch-run_event :
    (effects : Effects) (s : Settings) (now : ℕ) (owner event_id id : String) (db : Db)
    → dispatch_command effects s now owner (command_of_event (run_event event_id id)) db
      ≡ effects.run_crawl id db
unfolding dispatch_command command_of_event get
dispatch-run_event effects s now owner event_id id db =
    if_elim (λ j. effects.run_crawl j db ≡ effects.run_crawl id db) (truthy (text id)) refl refl

run_event-readable :
    (event_id id : String) → is_readable (command_of_event (run_event event_id id)) ≡ true
unfolding command_of_event routing_key
run_event-readable event_id id = refl

-- A crawl whose worker has stopped is taken up again, where no two jobs share an id: if a running job
-- has not been written for the stale time, no other session holds its row and it has attempts left,
-- then the outbox that the recovery leaves has the command that runs the job in a row that a relay
-- may claim at any time; its message is one that a worker reads and hands to the crawler's handler
-- with the job's id; and a worker that claims the job in the database that the recovery leaves is
-- granted it.
pub recovered_crawl_claims :
    (effects : Effects) (settings : Settings) (s : CrawlSettings) (now later : ℕ)
    (locked : List String) (id owner : String) (row : CrawlJobRow) (db : CrawlDb)
    → IsUnique db.crawl_jobs
    → lookup id db.crawl_jobs ≡ some row
    → is_abandoned s now locked id row ≡ true
    → row.attempt < row.max_attempts
    → let db' = (Control.recover_stale_jobs s now locked db).1 in
      (event_id : String) × IsQueued (run_event event_id id) db'.core.outbox
      × (is_readable (command_of_event (run_event event_id id)) ≡ true)
      × (dispatch_command effects settings later owner
            (command_of_event (run_event event_id id))
            db'.core
          ≡ effects.run_crawl id db'.core)
      × ((Jobs.claim later id db').0 ≡ true)
recovered_crawl_claims effects settings s now later locked id owner row db u e h l =
    let db' = (Control.recover_stale_jobs s now locked db).1 in
    let r = lookup-recovered s now locked id row db u e h in
    let (event_id, waits) = r.1 in
    (
      event_id,
      waits,
      run_event-readable event_id id,
      dispatch-run_event effects settings later owner event_id id db'.core,
      claims_of later id (recovered_row now row) db' r.0
          ∙ recovered-is_claimable s now row (ground arith) l,
    )

heartbeat_writes :
    (now : ℕ) (id : String) (row : CrawlJobRow) (db : CrawlDb)
    → lookup id db.crawl_jobs ≡ some row
    → (Jobs.heartbeat now id row.attempt db).0 ≡ true
    → (Jobs.heartbeat now id row.attempt db).1 ≡ save id (record row { updated_at = now }) db
unfolding Jobs.heartbeat
heartbeat_writes now id row db e h = ground arith

-- A heartbeat protects a running job, where no two jobs share an id: a recovery that runs before the
-- stale time has passed since the heartbeat leaves the job's row as the heartbeat wrote it.
pub heartbeat_protects :
    (s : CrawlSettings) (then_ now : ℕ) (locked : List String) (id : String) (row : CrawlJobRow)
    (db : CrawlDb)
    → IsUnique db.crawl_jobs
    → lookup id db.crawl_jobs ≡ some row
    → (Jobs.heartbeat then_ id row.attempt db).0 ≡ true
    → now < then_ + s.crawler_stale_seconds
    → lookup id
        (Control.recover_stale_jobs s now locked
          (Jobs.heartbeat then_ id row.attempt db).1).1.crawl_jobs
      ≡ some (record row { updated_at = then_ })
heartbeat_protects s then_ now locked id row db u e h l =
    let row' = record row { updated_at = then_ } in
    let db' = save id row' db in
    let kept : lookup id (Control.recover_stale_jobs s now locked db').1.crawl_jobs ≡ some row' =
      lookup-kept s now locked id row' db' (unfold save in IsUnique-set id row' db.crawl_jobs u)
        (unfold save in ground (arith, lookup-set id id row' db.crawl_jobs, eq_iff id id))
        (unfold is_stale in ground arith) in
    rw (heartbeat_writes then_ id row db e h) kept
