-- ===== src/Crawl/Runs.antt =====
-- Every run of calls moves the jobs along the machine.
use trustguard_rag.Prelude.{
  ℕ, ◌≡◌, refl, Bool, true, false, Option, some, List, [], ◌∷◌, String, if_elim, option_cases,
  is_some,
}
use trustguard_rag.Store.Table.{lookup, IsUnique}
use trustguard_rag.Crawl.Values.{Progress, Fields, items_of, progress_or}
use trustguard_rag.Crawl.Rows.{CrawlJobRow, CrawlDb}
use trustguard_rag.Crawl.Jobs.{save}
use trustguard_rag.Crawl.Review
use trustguard_rag.Crawl.Review.{ReviewUpdate, find_first, has_id, may_update}
use trustguard_rag.Crawl.Claims
use trustguard_rag.Crawl.Claims.{Action, all_known}
use trustguard_rag.Crawl.Cleanup
use trustguard_rag.Crawl.Cleanup.{ReviewContentCleanupClaim, holds_cleanup}
use trustguard_rag.Crawl.Urls
use trustguard_rag.Crawl.Machine.{
  Advances, edits, Moves, Change, stays, writes, widened, here, both,
}
use trustguard_rag.Crawl.Tracks.{Tracks, Change-Tracks, IsUnique-Change}
use trustguard_rag.Crawl.Changes.{
  Leaves, unchanged, written, create_job-Leaves, create_source_job-Leaves, claim-Leaves,
  heartbeat-Leaves, update_progress-Leaves, finish-Leaves, request_pause-Leaves,
  request_cancel-Leaves, request_cancel_for_source-Change, resume-Leaves,
}
use trustguard_rag.Crawl.Sweeps.{recover_stale_jobs-Change, claim_expired_review_content-Change}
use trustguard_rag.Crawl.Calls.{Environment, Call, perform, run}

module _ (now : ℕ) (db : CrawlDb) where
  edited {ℓ} :
      {A : Type ℓ} {a : A} (id : String) (row : CrawlJobRow) (p : Option Progress)
      (j : Option (List String))
      → lookup id db.crawl_jobs ≡ some row
      → Leaves Advances db (
        a,
        save id (record row { progress_json = p; ingest_job_ids_json = j; updated_at = now }) db,
      )
  edited id row p j e = written db id row _ e (edits refl refl refl refl)

  update_review_item-Leaves :
      (job_id id : String) (u : ReviewUpdate)
      → Leaves Advances db (Review.update_review_item now job_id id u db)
  unfolding Review.update_review_item Review.updated_row
  update_review_item-Leaves job_id id u =
      option_cases (Leaves Advances db) (lookup job_id db.crawl_jobs) (λ _. unchanged db)
        λ row e.
          option_cases (Leaves Advances db)
            (find_first (has_id id) (items_of (progress_or row.progress_json))) (λ _. unchanged db)
            λ item _.
              if_elim (Leaves Advances db) (may_update u item) (edited job_id row _ _ e)
                (unchanged db)

  patch_review_progress-Leaves :
      (job_id : String) (values : Progress)
      → Leaves Advances db (Review.patch_review_progress now job_id values db)
  unfolding Review.patch_review_progress
  patch_review_progress-Leaves job_id values =
      option_cases (Leaves Advances db) (lookup job_id db.crawl_jobs) (λ _. unchanged db)
        λ row e. edited job_id row _ row.ingest_job_ids_json e

  update_cleanup_claim-Leaves :
      (claim : ReviewContentCleanupClaim) (values : Fields)
      → Leaves Advances db (Cleanup.update_cleanup_claim now claim values db)
  unfolding Cleanup.update_cleanup_claim
  update_cleanup_claim-Leaves claim values =
      option_cases (Leaves Advances db) (lookup claim.crawl_job_id db.crawl_jobs)
        (λ _. unchanged db)
        λ row e.
          option_cases (Leaves Advances db)
            (find_first (has_id claim.item_id) (items_of (progress_or row.progress_json)))
            (λ _. unchanged db)
            λ item _.
              if_elim (Leaves Advances db) (holds_cleanup claim.claim_token item)
                (edited claim.crawl_job_id row _ row.ingest_job_ids_json e) (unchanged db)

  claim_review_items-Leaves :
      (e : Environment) (job_id : String) (action : Action) (ids : List String) (allow : Bool)
      → Leaves Advances db (Claims.claim_review_items e.settings now job_id action ids allow db)
  unfolding Claims.claim_review_items save
  claim_review_items-Leaves env job_id action ids allow =
      option_cases (Leaves Advances db) (lookup job_id db.crawl_jobs) (λ _. unchanged db)
        λ row e.
          if_elim (Leaves Advances db) (all_known (items_of (progress_or row.progress_json)) ids)
            (record { change = writes job_id row _ stays e (edits refl refl refl refl) })
            (unchanged db)

  record_url-Change :
      (e : Environment) (k url status : String) (h j error : Option String)
      → Change Advances db.crawl_jobs
          (Urls.record_url e.url_hash now k url status h j error db).1.crawl_jobs
  unfolding Urls.record_url
  record_url-Change env k url status h j error =
      if_elim (λ (r : Bool × CrawlDb). Change Advances db.crawl_jobs r.1.crawl_jobs)
        (is_some (lookup k db.core.knowledge_bases)) stays stays

-- The call queues a job again.
abbrev pub is_resume : Call → Bool
is_resume (Call.resume id) = true
is_resume call = false

module _ (e : Environment) (now : ℕ) (db : CrawlDb) where
  -- Every call but `resume` advances the jobs.
  pub perform-Advances :
      (call : Call)
      → is_resume call ≡ false
      → IsUnique db.crawl_jobs
      → Change Advances db.crawl_jobs (perform e now call db).crawl_jobs
  unfolding perform
  perform-Advances (Call.create_job k config id) h u = (create_job-Leaves now db k config id).change
  perform-Advances (Call.create_source_job source config trigger id) h u =
      (create_source_job-Leaves now db source config trigger id).change
  perform-Advances (Call.claim id) h u = (claim-Leaves now db id).change
  perform-Advances (Call.heartbeat id n) h u = (heartbeat-Leaves now db id n).change
  perform-Advances (Call.update_progress id p j n) h u =
      (update_progress-Leaves now db id p j n).change
  perform-Advances (Call.finish id status p m n) h u = (finish-Leaves now db id status p m n).change
  perform-Advances (Call.request_pause id) h u = (request_pause-Leaves now db id).change
  perform-Advances (Call.request_cancel id) h u = (request_cancel-Leaves now db id).change
  perform-Advances (Call.request_cancel_for_source source) h u =
      request_cancel_for_source-Change now db source
  perform-Advances (Call.resume id) h u = cc
  perform-Advances (Call.recover_stale_jobs locked) h u =
      recover_stale_jobs-Change e.settings now locked db u
  perform-Advances (Call.claim_review_items id action ids allow) h u =
      (claim_review_items-Leaves now db e id action ids allow).change
  perform-Advances (Call.update_review_item id item v) h u =
      (update_review_item-Leaves now db id item v).change
  perform-Advances (Call.patch_review_progress id values) h u =
      (patch_review_progress-Leaves now db id values).change
  perform-Advances (Call.claim_expired_review_content limit locked) h u =
      claim_expired_review_content-Change e.settings now e.id_le limit locked db u
  perform-Advances (Call.finalize_review_content_cleanup c) h u =
      unfold Cleanup.finalize_review_content_cleanup in
      (update_cleanup_claim-Leaves now db c _).change
  perform-Advances (Call.release_review_content_cleanup c) h u =
      unfold Cleanup.release_review_content_cleanup in
      (update_cleanup_claim-Leaves now db c _).change
  perform-Advances (Call.record_url k url status hash j error) h u =
      record_url-Change now db e k url status hash j error

  -- Every call moves them.
  pub perform-Moves :
      (call : Call)
      → IsUnique db.crawl_jobs
      → Change Moves db.crawl_jobs (perform e now call db).crawl_jobs
  perform-Moves (Call.resume id) u = unfold perform in (resume-Leaves now db id).change
  perform-Moves call u = widened (perform-Advances call refl u)

module _ (e : Environment) where
  pub perform-IsUnique :
      (now : ℕ) (call : Call) (db : CrawlDb)
      → IsUnique db.crawl_jobs
      → IsUnique (perform e now call db).crawl_jobs
  perform-IsUnique now call db u = IsUnique-Change (perform-Moves e now db call u) u

  pub run-IsUnique :
      (calls : List (ℕ × Call)) (db : CrawlDb)
      → IsUnique db.crawl_jobs
      → IsUnique (run e calls db).crawl_jobs
  unfolding run
  run-IsUnique [] db u = u
  run-IsUnique ((now, call) ∷ calls) db u =
      run-IsUnique calls (perform e now call db) (perform-IsUnique now call db u)

  -- No run of timed calls, by any services and runners in any order, loses a crawl job, and each job
  -- goes along the state machine: its row after the run is reached by moves from its row before,
  -- where no two jobs share an id.
  pub run-Tracks :
      (id : String) (a : CrawlJobRow) (calls : List (ℕ × Call)) (db : CrawlDb)
      → IsUnique db.crawl_jobs
      → lookup id db.crawl_jobs ≡ some a
      → Tracks Moves id a (run e calls db).crawl_jobs
  unfolding run
  run-Tracks id a [] db u h = record { row = a; found = h; path = here }
  run-Tracks id a ((now, call) ∷ calls) db u h =
      let w = Change-Tracks id a (perform-Moves e now db call u) h in
      let rest =
        run-Tracks id w.row calls (perform e now call db) (perform-IsUnique now call db u)
          w.found in
      record { row = rest.row; found = rest.found; path = both w.path rest.path }
