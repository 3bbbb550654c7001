-- ===== src/Examples/Reviews.antt =====
-- The theorems on the runs of sources and on reviews at the example database.
use trustguard_rag.Prelude.{◌≡◌, refl, true, false, none, some, List, [], ◌∷◌, arith, str_eq}
use trustguard_rag.Store.Table
use trustguard_rag.Store.Table.{lookup, IsUnique}
use trustguard_rag.Store.Rows.{OutboxEvent, ok, run_crawler, add_outbox_event}
use trustguard_rag.Store.Values
use trustguard_rag.Crawl.Values.{Progress, items_of, field, update, text_of, str}
use trustguard_rag.Crawl.Jobs
use trustguard_rag.Crawl.Control
use trustguard_rag.Crawl.Review
use trustguard_rag.Crawl.Claims
use trustguard_rag.Crawl.Overlap.{is_active_run, source_runs_alone, resumed_runs_overlap}
use trustguard_rag.Crawl.Reviewers.{
  Request, serve, hands_out, NoneHandsOut, review_claims_exclusive,
}
use trustguard_rag.Crawl.Merging.{Keeps, stored_progress, is_item, update_progress-Keeps}
use trustguard_rag.Examples.Data.{db}
use trustguard_rag.Examples.CrawlData.{crawl_settings, page, progress, failed_crawl, crawl_db}

abbrev event : OutboxEvent
event = record {
  id = db.uuid4 1;
  event_type = run_crawler;
  aggregate_id = "new";
  payload = ("crawl_job_id", Values.text "new") ∷ [];
}

created : (Jobs.create_source_job 100 "source" [] "manual" "new" crawl_db).0 ≡ ok event
unfolding Jobs.create_source_job lookup Jobs.create_run Jobs.active_runs Table.select_where
    Jobs.is_run_of Jobs.insert_job Jobs.start_run add_outbox_event
created = refl

source_runs_alone_example :
    (is_active_run "source" crawl_db "new" ≡ false)
    × (is_active_run "source"
          (Jobs.create_source_job 100 "source" [] "manual" "new" crawl_db).1
          "new"
        ≡ str_eq "new" "new")
source_runs_alone_example =
    source_runs_alone 100 "source" "manual" "new" [] crawl_db event created "new"

failed_found : lookup "failed" crawl_db.crawl_jobs ≡ some failed_crawl
unfolding lookup
failed_found = refl

failed_run : Jobs.is_run_of "source" crawl_db.crawler_source_runs "failed" ≡ true
unfolding Jobs.is_run_of lookup
failed_run = refl

resumed_runs_overlap_example :
    (is_active_run "source"
        (Control.resume 110 "failed"
          (Jobs.create_source_job 100 "source" [] "manual" "new" crawl_db).1).1
        "new"
      ≡ true)
    × (is_active_run "source"
          (Control.resume 110 "failed"
            (Jobs.create_source_job 100 "source" [] "manual" "new" crawl_db).1).1
          "failed"
        ≡ true)
resumed_runs_overlap_example =
    resumed_runs_overlap 100 110 "source" "manual" "new" "failed" [] failed_crawl crawl_db event
      created failed_found refl failed_run

abbrev request : Request
request = record {
  at = 100;
  action = Claims.approve;
  item_ids = "page" ∷ [];
  allow_rejected_approval = false;
}

-- A second reviewer asks twice to reject what the first approves.
abbrev others : List Request
others =
    record request { at = 120; action = Claims.reject }
    ∷ record request { at = 650; action = Claims.reject }
    ∷ []

handed_out : hands_out "page" (serve crawl_settings "running" request crawl_db).0 ≡ true
unfolding serve Claims.claim_review_items lookup Review.item_id text_of field str
    Claims.is_claimable_item update Table.store
handed_out = refl

review_claims_exclusive_example :
    NoneHandsOut crawl_settings "running" "page" others
      (serve crawl_settings "running" request crawl_db).1
review_claims_exclusive_example =
    review_claims_exclusive crawl_settings "running" "page" request others crawl_db handed_out
      (omega arith, (omega arith, tt))

page_found :
    Claims.find_last (is_item "page") (items_of (stored_progress "running" crawl_db)) ≡ some page
unfolding Claims.find_last lookup field Review.item_id text_of str
page_found = refl

page-IsUnique : IsUnique page
unfolding lookup
page-IsUnique = (refl, (refl, (refl, tt)))

-- A runner sends no items at all.
abbrev sent : Progress
sent = record progress { review_items = none; queued_for_ingest = some 1 }

update_progress-Keeps_example : Keeps page (stored_progress "running" crawl_db) (
    stored_progress "running"
      (Review.update_progress 100 "running" (some sent) none (some 1) crawl_db).1)
update_progress-Keeps_example =
    update_progress-Keeps 100 "running" sent none 1 "page" page crawl_db page_found page-IsUnique
