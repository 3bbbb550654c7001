-- ===== src/Crawl/Claims.antt =====
-- `CrawlerStore`: the claims of reviewers on items.
use trustguard_rag.Prelude.{
  ℕ, suc, ◌+◌, Bool, true, false, ◌&&◌, ◌||◌, Option, none, some, List, [], ◌∷◌, ◌++◌, String, leb,
  ltb, if◌then◌else◌, is_some, or_else, str_eq, contains,
}
use trustguard_rag.Store.Table
use trustguard_rag.Store.Table.{Table}
use trustguard_rag.Store.Rows.{Db, Result, ok, err, lookup_error}
use trustguard_rag.Crawl.Values.{
  Fields, field, update, truth, is_text, text_of, review_timestamp, items_of, progress_or, text,
  moment,
}
use trustguard_rag.Crawl.Rows.{CrawlDb, CrawlSettings}
use trustguard_rag.Crawl.Jobs.{save}
use trustguard_rag.Crawl.Review.{item_id, with_items, refresh_review_counts}

-- `approve` and `reject` of `action`.
pub data Action : Type 0 where
  approve reject : Action

abbrev is_approval : Action → Bool
is_approval approve = true
is_approval reject = false

abbrev pub claimed_status : Action → String
claimed_status approve = "processing"
claimed_status reject = "rejecting"

-- `_review_claim_expired`: what is no time has expired.
unfoldable pub review_claim_expired : CrawlSettings → ℕ → Fields → Bool
review_claim_expired settings now item = elim (review_timestamp (field "review_claimed_at" item)) [
  | none ↦ true
  | some claimed_at ↦ leb (claimed_at + settings.crawler_review_claim_seconds) now
]

-- `expires_at is not None and expires_at > now`.
abbrev is_later : ℕ → Option ℕ → Bool
is_later now none = false
is_later now (some t) = ltb now t

abbrev pub status_of : Fields → String
status_of item = text_of (field "status" item)

-- An item that the agent has rejected and whose content is still stored may be approved.
unfoldable pub is_rejected_approval : ℕ → Action → Bool → Fields → Bool
is_rejected_approval now action allow item =
    is_approval action
    && allow
    && str_eq (status_of item) "rejected"
    && is_text "agent" (field "reviewer" item)
    && is_text "reject" (field "agent_decision" item)
    && truth (field "review_content_available" item)
    && is_later now (review_timestamp (field "review_content_expires_at" item))

unfoldable pub is_claimable_item : CrawlSettings → ℕ → Action → Bool → Fields → Bool
unfolding is_rejected_approval review_claim_expired
is_claimable_item settings now action allow item =
    str_eq (status_of item) "pending"
    || is_rejected_approval now action allow item
    || ((str_eq (status_of item) "processing" || str_eq (status_of item) "rejecting")
        && review_claim_expired settings now item)

abbrev is_open_status : String → Bool
is_open_status s = str_eq s "pending" || str_eq s "rejected"

-- The status that an item goes back to when its review fails.
unfoldable pub previous_status : Fields → String
previous_status item =
    let previous = text_of (field "review_previous_status" item) in
    if is_open_status previous
    then previous
    else if is_open_status (status_of item)
    then status_of item
    else "pending"

-- The claimed item.
unfoldable pub claimed_item : ℕ → Action → String → Fields → Fields
unfolding previous_status
claimed_item now action token item = update item (
    ("review_previous_status", text (previous_status item))
    ∷ ("status", text (claimed_status action))
    ∷ ("review_claim_token", text token)
    ∷ ("review_claimed_at", moment now)
    ∷ [])

-- `index[id]`: of the items with one id the last is found.
unfoldable pub find_last : (Fields → Bool) → List Fields → Option Fields
find_last p [] = none
find_last p (item ∷ items) = or_else (find_last p items) (if p item then some item else none)

unfoldable pub change_last : (Fields → Bool) → (Fields → Fields) → List Fields → List Fields
unfolding find_last
change_last p f [] = []
change_last p f (item ∷ items) =
    let rest = change_last p f items in
    if is_some (find_last p items)
    then item ∷ rest
    else if p item
    then f item ∷ items
    else item ∷ items

abbrev pub has_key : String → Fields → Bool
has_key id item = str_eq (item_id item) id

-- `dict.fromkeys(ids)`, where `seen` are the ids before.
unfoldable pub distinct : List String → List String → List String
distinct seen [] = []
distinct seen (id ∷ ids) =
    let rest = distinct (id ∷ seen) ids in if contains id seen then rest else id ∷ rest

-- Every id is one of an item.
unfoldable pub all_known : List Fields → List String → Bool
unfolding find_last
all_known items [] = true
all_known items (id ∷ ids) =
    let rest = all_known items ids in is_some (find_last (has_key id) items) && rest

-- The loop: what is claimed, the items, and the number of tokens drawn.
pub record Claimed : Type 0 where
  pub claimed : List Fields
  pub items : List Fields
  pub drawn : ℕ

unfoldable pub claim_one :
    CrawlSettings → ℕ → Action → Bool → (ℕ → String) → String → Claimed → Claimed
unfolding find_last change_last claimed_item
claim_one settings now action allow uuid4 id c = elim (find_last (has_key id) c.items) [
  | none ↦ c
  | some item ↦
      if is_claimable_item settings now action allow item
      then record {
        claimed = c.claimed ++ claimed_item now action (uuid4 c.drawn) item ∷ [];
        items = change_last (has_key id) (claimed_item now action (uuid4 c.drawn)) c.items;
        drawn = suc c.drawn;
      }
      else c
]

unfoldable pub claim_all :
    CrawlSettings → ℕ → Action → Bool → (ℕ → String) → List String → Claimed → Claimed
unfolding claim_one
claim_all settings now action allow uuid4 [] c = c
claim_all settings now action allow uuid4 (id ∷ ids) c =
    claim_all settings now action allow uuid4 ids (claim_one settings now action allow uuid4 id c)

-- The loop on the items of a job.
unfoldable pub claim_items :
    CrawlSettings → ℕ → Action → Bool → List String → List Fields → Db → Claimed
unfolding claim_all distinct
claim_items settings now action allow ids items core =
    claim_all settings now action allow core.uuid4 (distinct [] ids)
      (record { claimed = []; items = items; drawn = core.drawn })

-- `claim_review_items`.
unfoldable pub claim_review_items :
    CrawlSettings
    → ℕ
    → String
    → Action
    → List String
    → Bool
    → CrawlDb
    → Result (List Fields) × CrawlDb
unfolding claim_items all_known
claim_review_items settings now job_id action ids allow db =
    elim (Table.lookup job_id db.crawl_jobs) [
      | none ↦ (err lookup_error, db)
      | some row ↦
          (let progress = progress_or row.progress_json in
            let c = claim_items settings now action allow ids (items_of progress) db.core in
            if all_known (items_of progress) ids
            then (
              ok c.claimed,
              save job_id
                  (record row {
                    progress_json = some (refresh_review_counts (with_items c.items progress));
                    updated_at = now;
                  })
                  (record db { core = record db.core { drawn = c.drawn } }),
            )
            else (err lookup_error, db))
    ]
