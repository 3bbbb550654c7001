-- ===== src/Crawl/Review.antt =====
-- `CrawlerStore`: the items of a crawl that wait for a review, and the progress of its runner.
use trustguard_rag.Prelude.{
  ℕ, suc, ◌+◌, max, Bool, true, false, not, ◌&&◌, ◌||◌, Option, none, some, List, [], ◌∷◌, ◌++◌,
  map, String, ◌==◌, if◌then◌else◌, str_eq, contains,
}
use trustguard_rag.Store.Table
use trustguard_rag.Store.Table.{Table, store}
use trustguard_rag.Store.Rows.{Result, ok, err, lookup_error}
use trustguard_rag.Crawl.Values.{
  Fields, Progress, field, update, truth, is_text, text_of, items_of, queued, progress_or, patched,
}
use trustguard_rag.Crawl.Rows.{CrawlJobRow, CrawlDb}
use trustguard_rag.Crawl.Jobs.{save}
use trustguard_rag.Crawl.Control.{is_lost}

-- An item whose review is not done.
unfoldable pub is_unreviewed : Fields → Bool
is_unreviewed item =
    is_text "pending" (field "status" item)
    || is_text "processing" (field "status" item)
    || is_text "rejecting" (field "status" item)

unfoldable pub count_unreviewed : List Fields → ℕ
unfolding is_unreviewed
count_unreviewed [] = 0
count_unreviewed (item ∷ items) =
    let rest = count_unreviewed items in if is_unreviewed item then suc rest else rest

-- `_refresh_review_counts`.
unfoldable pub refresh_review_counts : Progress → Progress
unfolding count_unreviewed
refresh_review_counts progress =
    let pending = count_unreviewed (items_of progress) in
    record progress {
      pending_review = some pending;
      review_status = some (if pending == 0 then "completed" else "pending");
    }

-- `str(item.get("id") or "")`.
unfoldable pub item_id : Fields → String
item_id item = text_of (field "id" item)

-- The items that have an id, under it: `current_items`.
unfoldable pub index_from : Table Fields → List Fields → Table Fields
unfolding item_id
index_from d [] = d
index_from d (item ∷ items) =
    index_from (if truth (field "id" item) then store (item_id item) item d else d) items

-- What is kept of an incoming item: the fields that the store has for it win.
unfoldable pub kept_item : Table Fields → Fields → Fields
unfolding item_id
kept_item current item = elim (Table.lookup (item_id item) current) [
  | none ↦ item
  | some known ↦ update item known
]

-- The current items that the runner does not send.
unfoldable pub unseen : List String → Table Fields → List Fields
unseen seen [] = []
unseen seen ((id, item) ∷ d) =
    let rest = unseen seen d in if contains id seen then rest else item ∷ rest

unfoldable pub merged_items : Table Fields → List Fields → List Fields
unfolding kept_item unseen
merged_items current incoming =
    map (kept_item current) incoming ++ unseen (map item_id incoming) current

-- `_merge_runner_review_progress`.
unfoldable pub merge_runner_review_progress : Progress → Progress → Progress
unfolding refresh_review_counts merged_items index_from
merge_runner_review_progress current incoming = elim (index_from [] (items_of current)) [
  | [] ↦ incoming
  | entry ∷ rest ↦ refresh_review_counts (record incoming {
    review_items = some (merged_items (entry ∷ rest) (items_of incoming));
    queued_for_ingest = some (max (queued current) (queued incoming));
  })
]

-- The progress that `update_progress` stores: only a runner's is merged.
unfoldable pub new_progress : Option ℕ → Option Progress → Option Progress → Option Progress
new_progress expected_attempt current none = current
new_progress none current (some incoming) = some incoming
new_progress (some attempt) current (some incoming) =
    some (merge_runner_review_progress (progress_or current) incoming)

abbrev ids_or : Option (List String) → List String
ids_or none = []
ids_or (some ids) = ids

-- `if ingest_job_id:`, which adds an id that is not there.
unfoldable pub with_ingest_job : Option String → Option (List String) → Option (List String)
with_ingest_job none ids = ids
with_ingest_job (some id) ids =
    if str_eq id ""
    then ids
    else some (if contains id (ids_or ids) then ids_or ids else ids_or ids ++ id ∷ [])

-- `update_progress`.
unfoldable pub update_progress :
    ℕ → String → Option Progress → Option String → Option ℕ → CrawlDb → Bool × CrawlDb
unfolding new_progress with_ingest_job
update_progress now id progress ingest_job_id expected_attempt db =
    elim (Table.lookup id db.crawl_jobs) [
      | none ↦ (false, db)
      | some row ↦ if is_lost expected_attempt row then (false, db) else (
        true,
        save id
            (record row {
              progress_json = new_progress expected_attempt row.progress_json progress;
              ingest_job_ids_json = with_ingest_job ingest_job_id row.ingest_job_ids_json;
              updated_at = now;
            })
            db,
      )
    ]

-- The first item that `p` holds of, changed by `f`; `none` where there is none.
unfoldable pub change_first :
    (Fields → Bool) → (Fields → Fields) → List Fields → Option (List Fields)
change_first p f [] = none
change_first p f (item ∷ items) =
    let rest = change_first p f items in
    if p item
    then some (f item ∷ items)
    else elim rest [ none ↦ none | some items' ↦ some (item ∷ items') ]

unfoldable pub find_first : (Fields → Bool) → List Fields → Option Fields
find_first p [] = none
find_first p (item ∷ items) = let rest = find_first p items in if p item then some item else rest

-- `candidate.get("id") == item_id`.
unfoldable pub has_id : String → Fields → Bool
has_id id item = is_text id (field "id" item)

-- What `update_review_item` is given beside the job and the item.
pub record ReviewUpdate : Type 0 where
  pub expected_statuses : List String
  pub values : Fields
  pub ingest_job_id : Option String
  pub increment_queued : Bool
  pub expected_claim_token : Option String

-- `expected_claim_token is not None and item.get(...) != expected_claim_token`.
abbrev pub is_fenced : String → Option String → Fields → Bool
is_fenced key none item = false
is_fenced key (some token) item = not (is_text token (field key item))

-- The guards of `update_review_item`.
unfoldable pub may_update : ReviewUpdate → Fields → Bool
may_update u item =
    contains (text_of (field "status" item)) u.expected_statuses
    && not (is_fenced "review_claim_token" u.expected_claim_token item)

unfoldable pub with_items : List Fields → Progress → Progress
with_items items progress = record progress { review_items = some items }

-- The row after an accepted update, whose items are `items`.
unfoldable pub updated_row : ℕ → ReviewUpdate → List Fields → CrawlJobRow → CrawlJobRow
unfolding refresh_review_counts with_items with_ingest_job
updated_row now u items row =
    let progress = progress_or row.progress_json in
    record row {
      progress_json = some (
          refresh_review_counts (
            with_items items (record progress {
              queued_for_ingest =
                  if u.increment_queued
                  then some (queued progress + 1)
                  else progress.queued_for_ingest;
            })));
      ingest_job_ids_json = with_ingest_job u.ingest_job_id row.ingest_job_ids_json;
      updated_at = now;
    }

abbrev pub items_or : Option (List Fields) → List Fields
items_or none = []
items_or (some items) = items

-- `update_review_item`.
unfoldable pub update_review_item :
    ℕ → String → String → ReviewUpdate → CrawlDb → Result Bool × CrawlDb
unfolding updated_row find_first change_first
update_review_item now job_id id u db = elim (Table.lookup job_id db.crawl_jobs) [
  | none ↦ (err lookup_error, db)
  | some row ↦ elim (find_first (has_id id) (items_of (progress_or row.progress_json))) [
    | none ↦ (err lookup_error, db)
    | some item ↦
        if may_update u item
        then (
          ok true,
          save job_id
              (updated_row now u
                (items_or (
                  change_first (has_id id) (λ i. update i u.values)
                    (items_of (progress_or row.progress_json))))
                row)
              db,
        )
        else (ok false, db)
  ]
]

-- `patch_review_progress`.
unfoldable pub patch_review_progress : ℕ → String → Progress → CrawlDb → Result Progress × CrawlDb
unfolding patched refresh_review_counts
patch_review_progress now job_id values db = elim (Table.lookup job_id db.crawl_jobs) [
  | none ↦ (err lookup_error, db)
  | some row ↦
      (let progress = refresh_review_counts (patched (progress_or row.progress_json) values) in
        (
          ok progress,
          save job_id (record row { progress_json = some progress; updated_at = now }) db,
        ))
]
