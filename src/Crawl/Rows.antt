-- ===== src/Crawl/Rows.antt =====
-- app/domain/crawler.py, and the rows of app/stores/models.py that app/stores/crawler_store.py reads
-- and writes, with the database that holds them.
use trustguard_rag.Prelude.{ℕ, Bool, true, false, Option, List, String}
use trustguard_rag.Store.Table.{Table}
use trustguard_rag.Store.Values.{Dict}
use trustguard_rag.Store.Rows.{Db}
use trustguard_rag.Crawl.Values.{Progress}

-- `CrawlJobStatus`.
pub data CrawlJobStatus : Type 0 where
  queued running paused succeeded failed cancelled : CrawlJobStatus

-- `status in CRAWL_TERMINAL_STATUSES`.
abbrev pub is_terminal : CrawlJobStatus → Bool
is_terminal CrawlJobStatus.succeeded = true
is_terminal CrawlJobStatus.cancelled = true
is_terminal _ = false

abbrev pub is_running : CrawlJobStatus → Bool
is_running CrawlJobStatus.running = true
is_running _ = false

abbrev pub is_paused : CrawlJobStatus → Bool
is_paused CrawlJobStatus.paused = true
is_paused _ = false

abbrev pub is_cancelled : CrawlJobStatus → Bool
is_cancelled CrawlJobStatus.cancelled = true
is_cancelled _ = false

pub record CrawlJobRow : Type 0 where
  pub knowledge_base_id : String
  pub status : CrawlJobStatus
  pub config_json : Dict
  pub progress_json : Option Progress
  pub ingest_job_ids_json : Option (List String)
  pub error_message : Option String
  pub attempt : ℕ
  pub max_attempts : ℕ
  pub cancel_requested : Bool
  pub pause_requested : Bool
  pub created_at : ℕ
  pub started_at : Option ℕ
  pub finished_at : Option ℕ
  pub updated_at : ℕ

-- The columns of `CrawlerSourceRow` that the store reads or writes.
pub record CrawlerSourceRow : Type 0 where
  pub knowledge_base_id : String
  pub enabled : Bool
  pub last_run_at : Option ℕ
  pub last_job_id : Option String
  pub updated_at : ℕ

-- A run of a source, under the id of its job.
pub record CrawlerSourceRunRow : Type 0 where
  pub source_id : String
  pub trigger_type : String
  pub status : String
  pub approved_count : ℕ
  pub rejected_count : ℕ
  pub error_message : Option String
  pub finished_at : Option ℕ

pub record CrawlUrlRecordRow : Type 0 where
  pub url : String
  pub content_hash : Option String
  pub ingest_job_id : Option String
  pub last_status : String
  pub last_error : Option String
  pub last_crawled_at : Option ℕ
  pub updated_at : ℕ

-- The database with the crawler's tables. The primary key of a record of an address is a pair, so
-- the records of each knowledge base are a table of their own, under the hash of the address.
pub record CrawlDb : Type 0 where
  pub core : Db
  pub crawl_jobs : Table CrawlJobRow
  pub crawler_sources : Table CrawlerSourceRow
  pub crawler_source_runs : Table CrawlerSourceRunRow
  pub crawl_url_records : String → Table CrawlUrlRecordRow

-- The settings that the store reads.
pub record CrawlSettings : Type 0 where
  pub crawler_stale_seconds : ℕ
  pub crawler_review_claim_seconds : ℕ
