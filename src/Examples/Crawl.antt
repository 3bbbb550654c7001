-- ===== src/Examples/Crawl.antt =====
-- The theorems on crawls at the example database.
use trustguard_rag.Prelude.{ℕ, ◌≡◌, refl, true, some, List, [], ◌∷◌, String, arith}
use trustguard_rag.Store.Table
use trustguard_rag.Store.Table.{lookup, IsUnique}
use trustguard_rag.Crawl.Jobs
use trustguard_rag.Crawl.Control
use trustguard_rag.Crawl.Machine.{Moves}
use trustguard_rag.Crawl.Tracks.{Tracks}
use trustguard_rag.Crawl.Calls.{Call, run, perform}
use trustguard_rag.Crawl.Runs.{run-Tracks}
use trustguard_rag.Crawl.Lifecycle.{
  IsValid, IsConsistent, IsFinal, run_crawls-IsValid, terminal-IsFinal,
}
use trustguard_rag.Crawl.Fencing.{IsFenced, runner-IsFenced}
use trustguard_rag.Crawl.Restart.{PassesFence, resumed_job_claims, resumed_attempts_repeat}
use trustguard_rag.Crawl.Recovery.{run_event, recovered_crawl_claims}
use trustguard_rag.Crawl.Rows.{CrawlDb}
use trustguard_rag.Outbox.Queued.{IsQueued}
use trustguard_rag.Worker.Messages.{command_of_event}
use trustguard_rag.Worker.RoundTrip.{is_readable}
use trustguard_rag.Worker.Handlers.{dispatch_command}
use trustguard_rag.Examples.Data.{effects, settings}
use trustguard_rag.Examples.CrawlData.{
  crawl_settings, environment, running_crawl, failed_crawl, ended_crawl, crawl_db,
}

crawls-IsUnique : IsUnique crawl_db.crawl_jobs
unfolding lookup
crawls-IsUnique = (refl, (refl, (refl, tt)))

running_found : lookup "running" crawl_db.crawl_jobs ≡ some running_crawl
unfolding lookup
running_found = refl

failed_found : lookup "failed" crawl_db.crawl_jobs ≡ some failed_crawl
unfolding lookup
failed_found = refl

ended_found : lookup "ended" crawl_db.crawl_jobs ≡ some ended_crawl
unfolding lookup
ended_found = refl

-- Recovery finds the runner's job stale, and the job is cancelled.
abbrev calls : List (ℕ × Call)
calls = (700, Call.recover_stale_jobs []) ∷ (710, Call.request_cancel "running") ∷ []

run-Tracks_example :
    Tracks Moves "running" running_crawl (run environment calls crawl_db).crawl_jobs
run-Tracks_example =
    run-Tracks environment "running" running_crawl calls crawl_db crawls-IsUnique running_found

running-IsConsistent : IsConsistent running_crawl
running-IsConsistent = ground arith

failed-IsConsistent : IsConsistent failed_crawl
failed-IsConsistent = ground arith

ended-IsConsistent : IsConsistent ended_crawl
ended-IsConsistent = ground arith

run_crawls-IsValid_example : IsValid (run environment calls crawl_db)
run_crawls-IsValid_example = run_crawls-IsValid environment calls crawl_db (record {
  rows = (running-IsConsistent, (failed-IsConsistent, (ended-IsConsistent, tt)));
  unique = crawls-IsUnique;
})

abbrev late_calls : List (ℕ × Call)
late_calls = (40, Call.resume "ended") ∷ (50, Call.claim "ended") ∷ []

terminal-IsFinal_example : IsFinal "ended" ended_crawl (run environment late_calls crawl_db)
terminal-IsFinal_example =
    terminal-IsFinal environment "ended" ended_crawl late_calls crawl_db crawls-IsUnique ended_found
      refl

-- The runner's job goes to another worker.
abbrev before : List (ℕ × Call)
before = (700, Call.recover_stale_jobs []) ∷ []

abbrev after : List (ℕ × Call)
after = (720, Call.heartbeat "running" 2) ∷ []

reclaimed : (Jobs.claim 710 "running" (run environment before crawl_db)).0 ≡ true
unfolding run perform Control.recover_stale_jobs Jobs.claim lookup Control.recover_jobs
    Table.select_where Control.is_stale Jobs.save Table.set Jobs.is_claimable Control.recovered_row
reclaimed = refl

runner-IsFenced_example :
    IsFenced 1 "running"
      (run environment after (Jobs.claim 710 "running" (run environment before crawl_db)).1)
runner-IsFenced_example =
    runner-IsFenced environment "running" running_crawl before after 710 crawl_db crawls-IsUnique
      running_found (refl, tt) reclaimed (refl, tt)

resumed_job_claims_example :
    (Jobs.claim 110 "failed" (Control.resume 100 "failed" crawl_db).1).0 ≡ true
resumed_job_claims_example =
    resumed_job_claims 100 110 "failed" failed_crawl crawl_db failed_found refl failed-IsConsistent

resumed_attempts_repeat_example :
    PassesFence 1 "failed" (Jobs.claim 110 "failed" (Control.resume 100 "failed" crawl_db).1).1
resumed_attempts_repeat_example =
    resumed_attempts_repeat 100 110 "failed" failed_crawl crawl_db failed_found refl
      failed-IsConsistent (omega arith)

abbrev after_recovery : CrawlDb
after_recovery = (Control.recover_stale_jobs crawl_settings 700 [] crawl_db).1

recovered_crawl_claims_example :
    (event_id : String) × IsQueued (run_event event_id "running") after_recovery.core.outbox
    × (is_readable (command_of_event (run_event event_id "running")) ≡ true)
    × (dispatch_command effects settings 710 "w2"
          (command_of_event (run_event event_id "running"))
          after_recovery.core
        ≡ effects.run_crawl "running" after_recovery.core)
    × ((Jobs.claim 710 "running" after_recovery).0 ≡ true)
unfolding Control.is_stale
recovered_crawl_claims_example =
    recovered_crawl_claims effects settings crawl_settings 700 710 [] "running" "w2" running_crawl
      crawl_db crawls-IsUnique running_found refl (omega arith)
