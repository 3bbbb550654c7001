-- ===== src/Crawl/Urls.antt =====
-- `CrawlerStore`: the records of crawled addresses, which keep a crawl from fetching one twice. The
-- hash of an address, SHA-256 in hexadecimal, is a parameter.
use trustguard_rag.Prelude.{
  ℕ, Bool, true, false, Option, none, some, List, [], ◌∷◌, String, if◌then◌else◌, is_some, str_eq,
  contains,
}
use trustguard_rag.Store.Table
use trustguard_rag.Store.Table.{store}
use trustguard_rag.Crawl.Rows.{CrawlDb}
use trustguard_rag.Crawl.Control.{short_message}

module _ (url_hash : String → String) where
  -- The statuses of an address that is not fetched again.
  abbrev pub settled_statuses : List String
  settled_statuses = "pending_review" ∷ "queued_for_ingest" ∷ "rejected" ∷ "rejected_by_review" ∷ []

  -- `is_url_crawled`.
  unfoldable pub is_url_crawled : String → String → CrawlDb → Bool
  is_url_crawled knowledge_base_id url db =
      elim (Table.lookup (url_hash url) (db.crawl_url_records knowledge_base_id)) [
        | none ↦ false
        | some row ↦ contains row.last_status settled_statuses
      ]

  -- `record_url`.
  unfoldable pub record_url :
      ℕ
      → String
      → String
      → String
      → Option String
      → Option String
      → Option String
      → CrawlDb
      → Bool × CrawlDb
  unfolding short_message
  record_url now knowledge_base_id url status content_hash ingest_job_id error db =
      if is_some (Table.lookup knowledge_base_id db.core.knowledge_bases)
      then (
        true,
        record db {
          crawl_url_records = λ k.
              if str_eq k knowledge_base_id
              then store (url_hash url)
                  (record {
                    url = url;
                    content_hash = content_hash;
                    ingest_job_id = ingest_job_id;
                    last_status = status;
                    last_error = short_message error;
                    last_crawled_at = some now;
                    updated_at = now;
                  })
                  (db.crawl_url_records k)
              else db.crawl_url_records k;
        },
      )
      else (false, db)
