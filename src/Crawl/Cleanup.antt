-- ===== src/Crawl/Cleanup.antt =====
-- `CrawlerStore`: the cleanup of the stored content of items that the agent has rejected.
use trustguard_rag.Prelude.{
  ℕ, suc, ◌+◌, max, Bool, true, false, not, ◌&&◌, ◌||◌, none, some, List, [], ◌∷◌, ◌++◌, String,
  leb, ltb, ◌==◌, if◌then◌else◌, str_eq, contains, length,
}
use trustguard_rag.Prelude.Sort
use trustguard_rag.Store.Table
use trustguard_rag.Store.Table.{Table}
use trustguard_rag.Crawl.Values.{
  Fields, field, update, truth, is_text, review_timestamp, items_of, progress_or, null, flag, text,
  moment,
}
use trustguard_rag.Crawl.Rows.{CrawlJobRow, CrawlDb, CrawlSettings}
use trustguard_rag.Crawl.Jobs.{save, is_empty}
use trustguard_rag.Crawl.Review.{item_id, has_id, find_first, change_first, items_or, with_items}

-- `ReviewContentCleanupClaim`.
pub record ReviewContentCleanupClaim : Type 0 where
  pub crawl_job_id : String
  pub item_id : String
  pub claim_token : String

-- The content of the item is to be deleted and no other cleanup holds it.
unfoldable pub is_cleanable : CrawlSettings → ℕ → Fields → Bool
unfolding item_id
is_cleanable settings now item =
    is_text "rejected" (field "status" item)
    && is_text "agent" (field "reviewer" item)
    && is_text "reject" (field "agent_decision" item)
    && (truth (field "review_content_cleanup_pending" item)
        || (truth (field "review_content_available" item)
            && elim (review_timestamp (field "review_content_expires_at" item)) [
              | none ↦ false
              | some expires_at ↦ leb expires_at now
            ]))
    && not (
        truth (field "review_content_cleanup_claim_token" item)
        && elim (review_timestamp (field "review_content_cleanup_claimed_at" item)) [
          | none ↦ false
          | some claimed_at ↦ ltb now (claimed_at + settings.crawler_review_claim_seconds)
        ])
    && not (str_eq (item_id item) "")

unfoldable pub cleaned_item : ℕ → String → Fields → Fields
cleaned_item now token item = update item (
    ("review_content_available", flag false)
    ∷ ("review_content_cleanup_pending", flag true)
    ∷ ("review_content_cleanup_claim_token", text token)
    ∷ ("review_content_cleanup_claimed_at", moment now)
    ∷ [])

-- The loop on the items of one job, after `n` claims; the tokens are `token 0`, `token 1` and so on.
unfoldable pub clean_items :
    CrawlSettings
    → ℕ
    → (ℕ → String)
    → ℕ
    → String
    → ℕ
    → List Fields
    → List ReviewContentCleanupClaim × List Fields
unfolding is_cleanable cleaned_item
clean_items settings now token limit job_id n [] = ([], [])
clean_items settings now token limit job_id n (item ∷ items) =
    let taken = ltb n limit && is_cleanable settings now item in
    let (claims, rest) =
      clean_items settings now token limit job_id (if taken then suc n else n) items in
    if taken
    then (
      record { crawl_job_id = job_id; item_id = item_id item; claim_token = token n } ∷ claims,
      cleaned_item now (token n) item ∷ rest,
    )
    else (claims, item ∷ rest)

-- `ORDER BY updated_at, id`.
abbrev pub row_le : (String → String → Bool) → String × CrawlJobRow → String × CrawlJobRow → Bool
row_le id_le (i, a) (j, b) =
    ltb a.updated_at b.updated_at || (a.updated_at == b.updated_at && id_le i j)

-- A job whose items have changed is written.
unfoldable pub clean_job :
    CrawlSettings
    → ℕ
    → ℕ
    → String
    → CrawlJobRow
    → ℕ
    → CrawlDb
    → List ReviewContentCleanupClaim × CrawlDb
unfolding clean_items with_items
clean_job settings now limit id row n db =
    let (claims, items) =
      clean_items settings now (λ k. db.core.uuid4 (db.core.drawn + k)) limit id n
        (items_of (progress_or row.progress_json)) in
    (
      claims,
      if is_empty claims
          then db
          else save id
              (record row {
                progress_json = some (with_items items (progress_or row.progress_json));
                updated_at = now;
              })
              db,
    )

-- The loop on the jobs, which ends when `limit` claims are taken.
unfoldable pub clean_jobs :
    CrawlSettings
    → ℕ
    → ℕ
    → Table CrawlJobRow
    → ℕ
    → CrawlDb
    → List ReviewContentCleanupClaim × CrawlDb
unfolding clean_job
clean_jobs settings now limit [] n db = ([], db)
clean_jobs settings now limit ((id, row) ∷ rows) n db =
    let (claims, db') = clean_job settings now limit id row n db in
    let (rest, db'') = clean_jobs settings now limit rows (n + length claims) db' in
    (claims ++ rest, db'')

abbrev pub has_progress : CrawlJobRow → Bool
has_progress row = elim row.progress_json [ none ↦ false | some p ↦ true ]

-- `claim_expired_review_content`; `locked` are the rows that other sessions hold.
unfoldable pub claim_expired_review_content :
    (String → String → Bool)
    → CrawlSettings
    → ℕ
    → ℕ
    → List String
    → CrawlDb
    → List ReviewContentCleanupClaim × CrawlDb
unfolding clean_jobs
claim_expired_review_content id_le settings now limit locked db =
    let (claims, db') =
      clean_jobs settings now (max 1 limit)
        (Sort.sort (row_le id_le) (
          Table.select_where (λ id row. has_progress row && not (contains id locked))
            db.crawl_jobs))
        0 db in
    (claims, record db' { core = record db'.core { drawn = db'.core.drawn + length claims } })

-- The caller holds the claim of the cleanup on the item.
unfoldable pub holds_cleanup : String → Fields → Bool
holds_cleanup token item = is_text token (field "review_content_cleanup_claim_token" item)

-- `_update_review_content_cleanup_claim`.
unfoldable pub update_cleanup_claim :
    ℕ → ReviewContentCleanupClaim → Fields → CrawlDb → Bool × CrawlDb
unfolding find_first change_first holds_cleanup
update_cleanup_claim now claim values db = elim (Table.lookup claim.crawl_job_id db.crawl_jobs) [
  | none ↦ (false, db)
  | some row ↦ elim (find_first (has_id claim.item_id) (items_of (progress_or row.progress_json))) [
    | none ↦ (false, db)
    | some item ↦
        if holds_cleanup claim.claim_token item
        then (
          true,
          save claim.crawl_job_id
              (record row {
                progress_json = some (
                    with_items
                      (items_or (
                        change_first (has_id claim.item_id) (λ i. update i values)
                          (items_of (progress_or row.progress_json))))
                      (progress_or row.progress_json));
                updated_at = now;
              })
              db,
        )
        else (false, db)
  ]
]

unfoldable pub finalize_review_content_cleanup :
    ℕ → ReviewContentCleanupClaim → CrawlDb → Bool × CrawlDb
finalize_review_content_cleanup now claim db =
    update_cleanup_claim now claim
      (("review_content_cleanup_pending", flag false)
        ∷ ("review_content_cleanup_claim_token", null)
        ∷ ("review_content_cleanup_claimed_at", null)
        ∷ ("review_content_expired_at", moment now)
        ∷ [])
      db

unfoldable pub release_review_content_cleanup :
    ℕ → ReviewContentCleanupClaim → CrawlDb → Bool × CrawlDb
release_review_content_cleanup now claim db =
    update_cleanup_claim now claim
      (("review_content_cleanup_claim_token", null)
        ∷ ("review_content_cleanup_claimed_at", null)
        ∷ [])
      db
