-- ===== src/Crawl/Overlap.antt =====
-- The active runs of a source.
use trustguard_rag.Prelude.{
  ℕ, ◌≡◌, refl, Bool, true, false, ◌&&◌, Option, none, some, List, [], ◌∷◌, String, arith, eq_iff,
  str_eq, is_some, Option-cases, inl, inr, if◌then◌else◌,
}
use trustguard_rag.Store.Table
use trustguard_rag.Store.Table.{Table, lookup, lookup-set}
use trustguard_rag.Store.Loops.{lookup-add, select_where-nil}
use trustguard_rag.Store.Values.{Dict}
use trustguard_rag.Store.Rows.{OutboxEvent, Error, ok, err, add_outbox_event}
use trustguard_rag.Crawl.Rows.{CrawlJobStatus, CrawlJobRow, CrawlerSourceRow, CrawlDb}
use trustguard_rag.Crawl.Jobs
use trustguard_rag.Crawl.Jobs.{
  save, command, insert_job, new_crawl_job, new_source_run, create_run, create_source_job,
  is_active, is_run_of, active_runs, is_empty,
}
use trustguard_rag.Crawl.Control
use trustguard_rag.Crawl.Control.{resumed_row}

-- The job is an active run of the source.
abbrev pub is_active_run : String → CrawlDb → String → Bool
is_active_run source db id = elim (lookup id db.crawl_jobs) [
  | none ↦ false
  | some row ↦ is_run_of source db.crawler_source_runs id && is_active row.status
]

-- What a call that created a run has seen, and the tables that it leaves.
record Created (now : ℕ) (source trigger id : String) (config : Dict) (db after : CrawlDb)
    : Type 0 where
  idle : active_runs source db ≡ []
  new_job : lookup id db.crawl_jobs ≡ none
  new_run : lookup id db.crawler_source_runs ≡ none
  knowledge_base_id : String
  jobs : after.crawl_jobs ≡ Table.add id (new_crawl_job now knowledge_base_id config) db.crawl_jobs
  runs :
      after.crawler_source_runs
      ≡ Table.add id (new_source_run source trigger) db.crawler_source_runs

empty_of {ℓ} : {A : Type ℓ} (xs : List A) → is_empty xs ≡ true → xs ≡ []
empty_of [] e = refl
empty_of (x ∷ xs) e = cc

none_of {ℓ} : {A : Type ℓ} (o : Option A) → is_some o ≡ false → o ≡ none
none_of none e = refl
none_of (some a) e = cc

not_ok {ℓ} : {A : Type ℓ} {x : Error} {a : A} → err x ≡ ok a → ⊥
not_ok e = cc

idle_source :
    (source : String) (db : CrawlDb)
    → active_runs source db ≡ []
    → (j : String) → is_active_run source db j ≡ false
unfolding active_runs
idle_source source db e j = elim (Option-cases (lookup j db.crawl_jobs)) [
  | inl none_ ↦ rw (is_active_run, none_) refl
  | inr (row, found) ↦
      rw (is_active_run, found)
        (select_where-nil
          (λ id row. is_run_of source db.crawler_source_runs id && is_active row.status) j row
          db.crawl_jobs e found)
]

-- The jobs and runs with one more of the source.
sole_run :
    (now : ℕ) (source trigger id : String) (config : Dict) (k : String) (db after : CrawlDb)
    → lookup id db.crawl_jobs ≡ none
    → lookup id db.crawler_source_runs ≡ none
    → after.crawl_jobs ≡ Table.add id (new_crawl_job now k config) db.crawl_jobs
    → after.crawler_source_runs
      ≡ Table.add id (new_source_run source trigger) db.crawler_source_runs
    → (j : String) → is_active_run source db j ≡ false
    → is_active_run source after j ≡ str_eq id j
unfolding is_run_of new_crawl_job new_source_run
sole_run now source trigger id config k db after nj nr ej er j idle = ground (
  arith,
  lookup-add j id (new_crawl_job now k config) db.crawl_jobs,
  lookup-add j id (new_source_run source trigger) db.crawler_source_runs,
  eq_iff id j,
  eq_iff source source,
)

module _ (now : ℕ) (source trigger id : String) (config : Dict) (db : CrawlDb) where
  create_run-Created :
      (row : CrawlerSourceRow) (e : OutboxEvent)
      → (create_run now source config trigger id row db).0 ≡ ok e
      → Created now source trigger id config db (create_run now source config trigger id row db).1
  unfolding create_run insert_job command add_outbox_event Jobs.start_run
  create_run-Created row e h = record {
    idle = ground (arith, empty_of (active_runs source db));
    new_job = ground (arith, none_of (lookup id db.crawl_jobs));
    new_run = ground (arith, none_of (lookup id db.crawler_source_runs));
    knowledge_base_id = row.knowledge_base_id;
    jobs = ground arith;
    runs = ground arith;
  }

  create_source_job-Created :
      (e : OutboxEvent)
      → (create_source_job now source config trigger id db).0 ≡ ok e
      → Created now source trigger id config db
          (create_source_job now source config trigger id db).1
  unfolding create_source_job
  create_source_job-Created e h = elim (Option-cases (lookup source db.crawler_sources)) [
    | inl missing ↦ absurd (not_ok (rw (create_source_job, missing) at h))
    | inr (row, found) ↦
        rw (create_source_job, found)
          (create_run-Created row e (rw (create_source_job, found) at h))
  ]

  -- A run of a source is created alone: if `create_source_job` answers with an event, then no job was
  -- an active run of the source, and after it exactly the new job is one.
  pub source_runs_alone :
      (e : OutboxEvent)
      → (create_source_job now source config trigger id db).0 ≡ ok e
      → (j : String)
      → (is_active_run source db j ≡ false)
        × (is_active_run source (create_source_job now source config trigger id db).1 j
            ≡ str_eq id j)
  source_runs_alone e h j =
      let c = create_source_job-Created e h in
      (
        idle_source source db c.idle j,
        sole_run now source trigger id config c.knowledge_base_id db
            (create_source_job now source config trigger id db).1 c.new_job c.new_run c.jobs c.runs
            j (idle_source source db c.idle j),
      )

-- The jobs that a resumption leaves.
lookup-resume :
    (now : ℕ) (j k : String) (row : CrawlJobRow) (db : CrawlDb)
    → lookup j db.crawl_jobs ≡ some row
    → row.status ≡ CrawlJobStatus.failed
    → lookup k (Control.resume now j db).1.crawl_jobs
      ≡ (if str_eq j k then some (resumed_row now row) else lookup k db.crawl_jobs)
unfolding Control.resume command save add_outbox_event
lookup-resume now j k row db e f =
    ground (arith, lookup-set j k (resumed_row now row) db.crawl_jobs)

runs-resume :
    (now : ℕ) (j : String) (db : CrawlDb)
    → (Control.resume now j db).1.crawler_source_runs ≡ db.crawler_source_runs
unfolding Control.resume command save add_outbox_event
runs-resume now j db = ground arith

module _ (now later : ℕ) (source trigger id j : String) (config : Dict) (row : CrawlJobRow)
    (db : CrawlDb) where
  -- The jobs `id`, which a call has created, and `j`, which another resumes.
  both_active :
      (k : String) (after : CrawlDb)
      → lookup id db.crawl_jobs ≡ none
      → lookup id db.crawler_source_runs ≡ none
      → after.crawl_jobs ≡ Table.add id (new_crawl_job now k config) db.crawl_jobs
      → after.crawler_source_runs
        ≡ Table.add id (new_source_run source trigger) db.crawler_source_runs
      → lookup j db.crawl_jobs ≡ some row
      → row.status ≡ CrawlJobStatus.failed
      → is_run_of source db.crawler_source_runs j ≡ true
      → (is_active_run source (Control.resume later j after).1 id ≡ true)
        × (is_active_run source (Control.resume later j after).1 j ≡ true)
  unfolding is_run_of new_crawl_job new_source_run resumed_row
  both_active k after nj nr ej er found failed run =
      let old : lookup j after.crawl_jobs ≡ some row =
        rw ej (ground (arith, lookup-add j id (new_crawl_job now k config) db.crawl_jobs)) in
      (
        ground (
          arith,
          lookup-resume later j id row after old failed,
          runs-resume later j after,
          lookup-add id id (new_crawl_job now k config) db.crawl_jobs,
          lookup-add id id (new_source_run source trigger) db.crawler_source_runs,
          eq_iff j id,
          eq_iff id id,
          eq_iff source source,
        ),
        ground (
          arith,
          lookup-resume later j j row after old failed,
          runs-resume later j after,
          lookup-add j id (new_source_run source trigger) db.crawler_source_runs,
          eq_iff j j,
        ),
      )

  -- The runs of a source can overlap all the same: if a call has created the run `id` of the source,
  -- and a failed run `j` of it is resumed, then both are active.
  pub resumed_runs_overlap :
      (e : OutboxEvent)
      → (create_source_job now source config trigger id db).0 ≡ ok e
      → lookup j db.crawl_jobs ≡ some row
      → row.status ≡ CrawlJobStatus.failed
      → is_run_of source db.crawler_source_runs j ≡ true
      → (is_active_run source
            (Control.resume later j (create_source_job now source config trigger id db).1).1
            id
          ≡ true)
        × (is_active_run source
              (Control.resume later j (create_source_job now source config trigger id db).1).1
              j
            ≡ true)
  resumed_runs_overlap e h found failed run =
      let c = create_source_job-Created now source trigger id config db e h in
      both_active c.knowledge_base_id (create_source_job now source config trigger id db).1
        c.new_job c.new_run c.jobs c.runs found failed run
