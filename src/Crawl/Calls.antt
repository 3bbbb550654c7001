-- ===== src/Crawl/Calls.antt =====
-- The calls that the services and the runners of the crawler make of `CrawlerStore`, in any order.
-- Each is one transaction. A runner passes its attempt to `update_progress` and to `finish`, as
-- app/core/crawler/runner.py does at every call.
use trustguard_rag.Prelude.{ℕ, Option, some, List, [], ◌∷◌, String, Bool}
use trustguard_rag.Store.Values.{Dict}
use trustguard_rag.Crawl.Values.{Progress}
use trustguard_rag.Crawl.Rows.{CrawlJobStatus, CrawlDb, CrawlSettings}
use trustguard_rag.Crawl.Review.{ReviewUpdate}
use trustguard_rag.Crawl.Claims.{Action}
use trustguard_rag.Crawl.Cleanup.{ReviewContentCleanupClaim}
use trustguard_rag.Crawl.Jobs
use trustguard_rag.Crawl.Control
use trustguard_rag.Crawl.Review
use trustguard_rag.Crawl.Claims
use trustguard_rag.Crawl.Cleanup
use trustguard_rag.Crawl.Urls

-- The settings, the hash of an address and the database's order of ids.
pub record Environment : Type 0 where
  pub settings : CrawlSettings
  pub url_hash : String → String
  pub id_le : String → String → Bool

pub data Call : Type 0 where
  create_job : String → Dict → String → Call
  create_source_job : String → Dict → String → String → Call
  claim : String → Call
  heartbeat : String → ℕ → Call
  update_progress : String → Option Progress → Option String → ℕ → Call
  finish : String → CrawlJobStatus → Option Progress → Option String → ℕ → Call
  request_pause : String → Call
  request_cancel : String → Call
  request_cancel_for_source : String → Call
  resume : String → Call
  recover_stale_jobs : List String → Call
  claim_review_items : String → Action → List String → Bool → Call
  update_review_item : String → String → ReviewUpdate → Call
  patch_review_progress : String → Progress → Call
  claim_expired_review_content : ℕ → List String → Call
  finalize_review_content_cleanup : ReviewContentCleanupClaim → Call
  release_review_content_cleanup : ReviewContentCleanupClaim → Call
  record_url : String → String → String → Option String → Option String → Option String → Call

-- The database after a call at the time `now`.
unfoldable pub perform : Environment → ℕ → Call → CrawlDb → CrawlDb
perform e now (create_job k config id) db = (Jobs.create_job now k config id db).1
perform e now (create_source_job source config trigger id) db =
    (Jobs.create_source_job now source config trigger id db).1
perform e now (claim id) db = (Jobs.claim now id db).1
perform e now (heartbeat id attempt) db = (Jobs.heartbeat now id attempt db).1
perform e now (update_progress id p j attempt) db =
    (Review.update_progress now id p j (some attempt) db).1
perform e now (finish id status p message attempt) db =
    (Control.finish now id status p message (some attempt) db).1
perform e now (request_pause id) db = (Control.request_pause now id db).1
perform e now (request_cancel id) db = (Control.request_cancel now id db).1
perform e now (request_cancel_for_source source) db =
    Control.request_cancel_for_source now source db
perform e now (resume id) db = (Control.resume now id db).1
perform e now (recover_stale_jobs locked) db =
    (Control.recover_stale_jobs e.settings now locked db).1
perform e now (claim_review_items id action ids allow) db =
    (Claims.claim_review_items e.settings now id action ids allow db).1
perform e now (update_review_item id item u) db = (Review.update_review_item now id item u db).1
perform e now (patch_review_progress id values) db =
    (Review.patch_review_progress now id values db).1
perform e now (claim_expired_review_content limit locked) db =
    (Cleanup.claim_expired_review_content e.id_le e.settings now limit locked db).1
perform e now (finalize_review_content_cleanup c) db =
    (Cleanup.finalize_review_content_cleanup now c db).1
perform e now (release_review_content_cleanup c) db =
    (Cleanup.release_review_content_cleanup now c db).1
perform e now (record_url k url status hash j error) db =
    (Urls.record_url e.url_hash now k url status hash j error db).1

-- A run of timed calls.
unfoldable pub run : Environment → List (ℕ × Call) → CrawlDb → CrawlDb
run e [] db = db
run e ((now, call) ∷ calls) db = run e calls (perform e now call db)
