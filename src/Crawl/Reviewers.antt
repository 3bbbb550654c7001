-- ===== src/Crawl/Reviewers.antt =====
-- Reviewers that claim items of one crawl, one after another.
use mathlib.Core.Path.{subst}
use trustguard_rag.Prelude.{
  ℕ, ◌+◌, ◌<◌, ◌≡◌, refl, Bool, true, false, List, [], ◌∷◌, String, arith, eq_iff, some, All,
  if_elim, option_cases, sym, ◌∙◌,
}
use trustguard_rag.Store.Table.{lookup, lookup-set}
use trustguard_rag.Store.Rows.{Result, ok, err, lookup_error}
use trustguard_rag.Crawl.Values.{Fields, items_of, progress_or}
use trustguard_rag.Crawl.Rows.{CrawlJobRow, CrawlDb, CrawlSettings}
use trustguard_rag.Crawl.Jobs.{save}
use trustguard_rag.Crawl.Review.{refresh_review_counts, with_items}
use trustguard_rag.Crawl.Claims.{
  Action, Claimed, claim_items, distinct, all_known, claim_review_items,
}
use trustguard_rag.Crawl.Exclusive.{Held, takes, claim_all-Held, claim_all_holds, some_eq}

-- A call of `claim_review_items` at a time.
pub record Request : Type 0 where
  pub at : ℕ
  pub action : Action
  pub item_ids : List String
  pub allow_rejected_approval : Bool

unfoldable pub serve : CrawlSettings → String → Request → CrawlDb → Result (List Fields) × CrawlDb
serve s job_id r db =
    claim_review_items s r.at job_id r.action r.item_ids r.allow_rejected_approval db

-- The answer hands out the item with this id.
abbrev pub hands_out : String → Result (List Fields) → Bool
hands_out k (ok items) = takes k items
hands_out k (err e) = false

-- None of the requests, served in turn, hands out the item.
abbrev pub NoneHandsOut : CrawlSettings → String → String → List Request → CrawlDb → Type 0
NoneHandsOut s job_id k [] db = Unit
NoneHandsOut s job_id k (r ∷ rs) db =
    (hands_out k (serve s job_id r db).0 ≡ false)
    × NoneHandsOut s job_id k rs (serve s job_id r db).1

record HeldIn (t : ℕ) (job_id k : String) (db : CrawlDb) : Type 0 where
  row : CrawlJobRow
  found : lookup job_id db.crawl_jobs ≡ some row
  held : Held t k (items_of (progress_or row.progress_json))

module _ (s : CrawlSettings) (job_id k : String) where
  saved_items :
      (t : ℕ) (row row' : CrawlJobRow) (db : CrawlDb)
      → lookup job_id db.crawl_jobs ≡ some row
      → Held t k (items_of (progress_or row'.progress_json))
      → HeldIn t job_id k (save job_id row' db)
  unfolding save
  saved_items t row row' db e h = record {
    row = row';
    found = ground (arith, lookup-set job_id job_id row' db.crawl_jobs, eq_iff job_id job_id);
    held = h;
  }

  -- The row that a served request writes.
  served_row : Request → CrawlJobRow → Claimed → CrawlJobRow
  served_row r row c = record row {
    progress_json =
        some (refresh_review_counts (with_items c.items (progress_or row.progress_json)));
    updated_at = r.at;
  }

  claimed_of : Request → CrawlJobRow → CrawlDb → Claimed
  claimed_of r row db =
      claim_items s r.at r.action r.allow_rejected_approval r.item_ids
        (items_of (progress_or row.progress_json)) db.core

  served : Request → CrawlJobRow → CrawlDb → Result (List Fields) × CrawlDb
  unfolding served_row claimed_of
  served r row db = (
    ok (claimed_of r row db).claimed,
    save job_id (served_row r row (claimed_of r row db))
        (record db { core = record db.core { drawn = (claimed_of r row db).drawn } }),
  )

  serve_cases :
      (P : Result (List Fields) × CrawlDb → Type 0) (r : Request) (db : CrawlDb)
      → P (err lookup_error, db)
      → ((row : CrawlJobRow) → lookup job_id db.crawl_jobs ≡ some row → P (served r row db))
      → P (serve s job_id r db)
  unfolding serve claim_review_items served served_row claimed_of
  serve_cases P r db refused done =
      option_cases P (lookup job_id db.crawl_jobs) (λ _. refused)
        λ row e.
          if_elim P (all_known (items_of (progress_or row.progress_json)) r.item_ids) (done row e)
            refused

  serve-hands_out :
      (r : Request) (db : CrawlDb)
      → hands_out k (serve s job_id r db).0 ≡ true
      → HeldIn r.at job_id k (serve s job_id r db).1
  unfolding served served_row claimed_of claim_items refresh_review_counts with_items
  serve-hands_out r db =
      serve_cases (λ d. hands_out k d.0 ≡ true → HeldIn r.at job_id k d.1) r db (λ h. cc)
        λ row e h. saved_items r.at row (served_row r row (claimed_of r row db)) _ e (
          claim_all_holds s r.at r.action r.allow_rejected_approval db.core.uuid4 k
            (distinct [] r.item_ids) _ (λ t. cc) h)

  serve_holds :
      (t : ℕ) (r : Request) (db : CrawlDb)
      → r.at < t + s.crawler_review_claim_seconds
      → HeldIn t job_id k db
      → (hands_out k (serve s job_id r db).0 ≡ false) × HeldIn t job_id k (serve s job_id r db).1
  unfolding served served_row claimed_of claim_items refresh_review_counts with_items
  serve_holds t r db l h =
      serve_cases (λ d. (hands_out k d.0 ≡ false) × HeldIn t job_id k d.1) r db (refl, h)
        λ row e.
          let held : Held t k (items_of (progress_or row.progress_json)) =
            subst (λ (x : CrawlJobRow). Held t k (items_of (progress_or x.progress_json)))
              (some_eq (sym h.found ∙ e)) h.held in
          let kept =
            claim_all-Held s r.at r.action r.allow_rejected_approval db.core.uuid4 k t
              (distinct [] r.item_ids)
              (record {
                claimed = [];
                items = items_of (progress_or row.progress_json);
                drawn = db.core.drawn;
              })
              l (held, refl) in
          (kept.1, saved_items t row (served_row r row (claimed_of r row db)) _ e kept.0)

  none_hands_out :
      (t : ℕ) (rs : List Request) (db : CrawlDb)
      → All (λ r. r.at < t + s.crawler_review_claim_seconds) rs
      → HeldIn t job_id k db
      → NoneHandsOut s job_id k rs db
  none_hands_out t [] db l h = tt
  none_hands_out t (r ∷ rs) db l h =
      let next = serve_holds t r db l.0 h in
      (next.0, none_hands_out t rs (serve s job_id r db).1 l.1 next.1)

  -- Reviewers do not share an item: if a request hands out the item `k` of the crawl, then none of
  -- the requests that follow it before the claim of a review expires hands it out again, whatever
  -- they ask for.
  pub review_claims_exclusive :
      (first : Request) (rs : List Request) (db : CrawlDb)
      → hands_out k (serve s job_id first db).0 ≡ true
      → All (λ r. r.at < first.at + s.crawler_review_claim_seconds) rs
      → NoneHandsOut s job_id k rs (serve s job_id first db).1
  review_claims_exclusive first rs db h l =
      none_hands_out first.at rs (serve s job_id first db).1 l (serve-hands_out first db h)
