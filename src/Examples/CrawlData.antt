-- ===== src/Examples/CrawlData.antt =====
-- A database with three crawls: one that a runner works on, with an item to review, one that has
-- failed in its last attempt as a run of a source, and one that has succeeded.
use trustguard_rag.Prelude.{true, false, none, some, [], ◌∷◌}
use trustguard_rag.Crawl.Values.{Fields, Progress, text, no_progress}
use trustguard_rag.Crawl.Rows.{
  CrawlJobStatus, CrawlJobRow, CrawlerSourceRow, CrawlerSourceRunRow, CrawlDb, CrawlSettings,
}
use trustguard_rag.Crawl.Calls.{Environment}
use trustguard_rag.Examples.Data.{db}

abbrev pub crawl_settings : CrawlSettings
crawl_settings = record { crawler_stale_seconds = 600; crawler_review_claim_seconds = 600 }

abbrev pub environment : Environment
environment = record { settings = crawl_settings; url_hash = λ url. url; id_le = λ a b. true }

abbrev pub page : Fields
page = ("id", text "page") ∷ ("status", text "pending") ∷ ("reviewer", text "agent") ∷ []

abbrev pub progress : Progress
progress = record no_progress { review_items = some (page ∷ []); queued_for_ingest = some 2 }

abbrev pub running_crawl : CrawlJobRow
running_crawl = record {
  knowledge_base_id = "kb";
  status = CrawlJobStatus.running;
  config_json = [];
  progress_json = some progress;
  ingest_job_ids_json = some [];
  error_message = none;
  attempt = 1;
  max_attempts = 3;
  cancel_requested = false;
  pause_requested = false;
  created_at = 10;
  started_at = some 20;
  finished_at = none;
  updated_at = 30;
}

abbrev pub failed_crawl : CrawlJobRow
failed_crawl = record running_crawl {
  status = CrawlJobStatus.failed;
  attempt = 3;
  finished_at = some 25;
}

abbrev pub ended_crawl : CrawlJobRow
ended_crawl = record running_crawl { status = CrawlJobStatus.succeeded; finished_at = some 25 }

abbrev pub source : CrawlerSourceRow
source = record {
  knowledge_base_id = "kb";
  enabled = true;
  last_run_at = none;
  last_job_id = some "failed";
  updated_at = 10;
}

abbrev pub source_run : CrawlerSourceRunRow
source_run = record {
  source_id = "source";
  trigger_type = "manual";
  status = "failed";
  approved_count = 0;
  rejected_count = 0;
  error_message = none;
  finished_at = some 25;
}

abbrev pub crawl_db : CrawlDb
crawl_db = record {
  core = db;
  crawl_jobs = ("running", running_crawl) ∷ ("failed", failed_crawl) ∷ ("ended", ended_crawl) ∷ [];
  crawler_sources = ("source", source) ∷ [];
  crawler_source_runs = ("failed", source_run) ∷ [];
  crawl_url_records = λ k. [];
}
