-- ===== src/Crawl/Merging.antt =====
-- `_merge_runner_review_progress` keeps what reviewers have decided.
use mathlib.Core.Path.{subst}
use trustguard_rag.Prelude.{
  ℕ, ◌≤◌, ◌≡◌, refl, ◌∙◌, sym, Bool, true, false, Option, none, some, List, [], ◌∷◌, ◌++◌, map,
  String, arith, eq_iff, str_eq, contains, inl, inr, ◌⊎◌, ◌&&◌, Bool-cases, Option-cases, or_else,
  if◌then◌else◌, if_cases,
}
use trustguard_rag.Store.Table.{
  Table, lookup, lookup-cons, store, lookup-store, lookup-set, IsUnique,
}
use trustguard_rag.Crawl.Values.{
  Fields, Progress, Json, field, update, truth, items_of, progress_or, queued, no_progress,
}
use trustguard_rag.Crawl.Rows.{CrawlJobRow, CrawlDb}
use trustguard_rag.Crawl.Claims.{has_key, find_last}
use trustguard_rag.Crawl.Exclusive.{some_eq}
use trustguard_rag.Crawl.Jobs.{save}
use trustguard_rag.Crawl.Control.{is_lost}
use trustguard_rag.Crawl.Review
use trustguard_rag.Crawl.Review.{
  new_progress, with_ingest_job, item_id, index_from, kept_item, unseen, merged_items,
  merge_runner_review_progress, refresh_review_counts,
}

-- `d.update(values)`, at each key, where the keys of `values` are distinct.
lookup-update :
    (k : String) (values d : Fields)
    → IsUnique values
    → lookup k (update d values) ≡ or_else (lookup k values) (lookup k d)
unfolding update
lookup-update k [] d u = unfold lookup in refl
lookup-update k ((j, v) ∷ values) d u = ground (
  arith,
  lookup-update k values (store j v d) u.1,
  lookup-store j k v d,
  lookup-cons k j v values,
  eq_iff j k,
  u.0,
)

-- Every field of `item` has the same value in `m`.
abbrev pub Extends : Fields → Fields → Type 0
Extends item m = (k : String) (v : Json) → lookup k item ≡ some v → lookup k m ≡ some v

update-Extends : (item d : Fields) → IsUnique item → Extends item (update d item)
update-Extends item d u k v e = ground (arith, lookup-update k item d u)

-- One of the items has `P`.
abbrev pub Some : (Fields → Type 0) → List Fields → Type 0
Some P [] = ⊥
Some P (item ∷ items) = P item ⊎ Some P items

module _ (P : Fields → Type 0) where
  Some-left : (xs ys : List Fields) → Some P xs → Some P (xs ++ ys)
  Some-left (x ∷ xs) ys (inl p) = inl p
  Some-left (x ∷ xs) ys (inr p) = inr (Some-left xs ys p)
  Some-left [] ys p = absurd p

  Some-right : (xs ys : List Fields) → Some P ys → Some P (xs ++ ys)
  Some-right [] ys p = p
  Some-right (x ∷ xs) ys p = inr (Some-right xs ys p)

module _ (current : Table Fields) (k : String) (item : Fields) (u : IsUnique item)
    (e : lookup k current ≡ some item) where
  seen-Some :
      (incoming : List Fields)
      → contains k (map item_id incoming) ≡ true
      → Some (Extends item) (map (kept_item current) incoming)
  unfolding kept_item
  seen-Some [] h = cc
  seen-Some (i ∷ incoming) h = elim (Bool-cases (str_eq k (item_id i))) [
    | inl same ↦
        (let found : lookup (item_id i) current ≡ some item =
            subst (λ j. lookup j current ≡ some item) ((eq_iff k (item_id i)).0 same) e in
          inl (rw (kept_item, found) (update-Extends item i u)))
    | inr other ↦ inr (seen-Some incoming (ground arith))
  ]

unseen-Some :
    (k : String) (item : Fields) (seen : List String) (current : Table Fields)
    → lookup k current ≡ some item
    → contains k seen ≡ false
    → Some (Extends item) (unseen seen current)
unfolding unseen lookup
unseen-Some k item seen [] e h = cc
unseen-Some k item seen ((j, x) ∷ current) e h = elim (Bool-cases (str_eq j k)) [
  | inl same ↦
      (let item_eq : x ≡ item = some_eq (rw same at e) in
        let unseen_ : contains j seen ≡ false = ground (arith, eq_iff j k) in
        rw unseen_ (inl (subst (Extends item) (sym item_eq) (λ f v p. p))))
  | inr other ↦
      (let rest = unseen-Some k item seen current (rw other at e) h in
        if_cases (Some (Extends item)) (contains j seen) (λ _. rest) (λ _. inr rest))
]

merged_items-Some :
    (k : String) (item : Fields) (current : Table Fields) (incoming : List Fields)
    → IsUnique item
    → lookup k current ≡ some item
    → Some (Extends item) (merged_items current incoming)
unfolding merged_items
merged_items-Some k item current incoming u e =
    elim (Bool-cases (contains k (map item_id incoming))) [
      | inl seen ↦
          Some-left (Extends item) (map (kept_item current) incoming)
            (unseen (map item_id incoming) current) (seen-Some current k item u e incoming seen)
      | inr unseen_ ↦
          Some-right (Extends item) (map (kept_item current) incoming)
            (unseen (map item_id incoming) current)
            (unseen-Some k item (map item_id incoming) current e unseen_)
    ]

-- The item has an id, and it is `k`.
abbrev pub is_item : String → Fields → Bool
is_item k item = truth (field "id" item) && has_key k item

-- The index has the last item of each id.
lookup-index :
    (k : String) (items : List Fields) (d : Table Fields)
    → lookup k (index_from d items) ≡ or_else (find_last (is_item k) items) (lookup k d)
unfolding index_from find_last
lookup-index k [] d = refl
lookup-index k (i ∷ items) d = ground (
  arith,
  lookup-index k items (if truth (field "id" i) then store (item_id i) i d else d),
  lookup-store (item_id i) k i d,
)

-- The store's item has survived, with all its fields, and no count has gone down.
pub record Keeps (item : Fields) (current merged : Progress) : Type 0 where
  pub kept : Some (Extends item) (items_of merged)
  pub queued_le : queued current ≤ queued merged

merge-Keeps :
    (k : String) (item : Fields) (current incoming : Progress) (index : Table Fields)
    → index_from [] (items_of current) ≡ index
    → IsUnique item
    → lookup k index ≡ some item
    → Keeps item current (merge_runner_review_progress current incoming)
unfolding merge_runner_review_progress refresh_review_counts
merge-Keeps k item current incoming [] e u h = unfold lookup in cc
merge-Keeps k item current incoming (entry ∷ rest) e u h =
    rw (merge_runner_review_progress, e)
      (record {
        kept = merged_items-Some k item (entry ∷ rest) (items_of incoming) u h;
        queued_le = ground arith;
      })

-- The progress that the database has of a job.
abbrev pub stored_progress : String → CrawlDb → Progress
stored_progress id db = elim (lookup id db.crawl_jobs) [
  | none ↦ no_progress
  | some row ↦ progress_or row.progress_json
]

nothing_found : (p : Fields → Bool) (item : Fields) → find_last p [] ≡ some item → ⊥
unfolding find_last
nothing_found p item e = cc

stored_of :
    (id : String) (row : CrawlJobRow) (db : CrawlDb)
    → lookup id db.crawl_jobs ≡ some row
    → stored_progress id db ≡ progress_or row.progress_json
stored_of id row db e = ground arith

find_last-Some :
    (p : Fields → Bool) (item : Fields) (items : List Fields)
    → find_last p items ≡ some item
    → Some (Extends item) items
unfolding find_last
find_last-Some p item [] e = cc
find_last-Some p item (i ∷ items) e = elim (Option-cases (find_last p items)) [
  | inl no_ ↦
      (let item_eq : i ≡ item = ground (arith, no_) in
        inl (subst (Extends item) (sym item_eq) (λ f v h. h)))
  | inr (x, yes_) ↦ inr (find_last-Some p item items (yes_ ∙ ground (arith, yes_)))
]

module _ (now : ℕ) (id : String) (incoming : Progress) (j : Option String) (n : ℕ) (k : String)
    (item : Fields) where
  -- What a runner's write of its progress does to a job's row.
  written_row : CrawlJobRow → CrawlJobRow
  written_row row = record row {
    progress_json = new_progress (some n) row.progress_json (some incoming);
    ingest_job_ids_json = with_ingest_job j row.ingest_job_ids_json;
    updated_at = now;
  }

  stored_written :
      (row : CrawlJobRow) (db : CrawlDb)
      → lookup id db.crawl_jobs ≡ some row
      → stored_progress id (save id (written_row row) db)
        ≡ merge_runner_review_progress (progress_or row.progress_json) incoming
  unfolding save written_row new_progress
  stored_written row db e =
      ground (arith, lookup-set id id (written_row row) db.crawl_jobs, eq_iff id id)

  row-Keeps :
      (row : CrawlJobRow) (db : CrawlDb)
      → lookup id db.crawl_jobs ≡ some row
      → find_last (is_item k) (items_of (progress_or row.progress_json)) ≡ some item
      → IsUnique item
      → Keeps item
          (progress_or row.progress_json)
          (stored_progress id (Review.update_progress now id (some incoming) j (some n) db).1)
  unfolding Review.update_progress written_row
  row-Keeps row db e f u =
      rw (Review.update_progress, e)
        (if_cases
          (λ (r : Bool × CrawlDb).
            Keeps item (progress_or row.progress_json) (stored_progress id r.1))
          (is_lost (some n) row)
          (λ _. rw (stored_of id row db e) (record {
            kept = find_last-Some (is_item k) item (items_of (progress_or row.progress_json)) f;
            queued_le = omega arith;
          }))
          λ _. rw (stored_written row db e) (
            merge-Keeps k item (progress_or row.progress_json) incoming _ refl u
              (lookup-index k (items_of (progress_or row.progress_json)) [] ∙ rw f refl)))

  -- A runner that writes its progress with `update_progress` undoes no review. Of every item that the
  -- database has under the id `k`, all fields keep their values, its status and the reviewer's decision
  -- among them, whatever the runner sends and whether or not its write is accepted, and the number of
  -- items that are queued for ingestion does not go down. A dictionary has each key once. The progress
  -- that a runner gives to `finish` is not merged, and nothing is said of it here.
  pub update_progress-Keeps :
      (db : CrawlDb)
      → find_last (is_item k) (items_of (stored_progress id db)) ≡ some item
      → IsUnique item
      → Keeps item
          (stored_progress id db)
          (stored_progress id (Review.update_progress now id (some incoming) j (some n) db).1)
  update_progress-Keeps db f u = elim (Option-cases (lookup id db.crawl_jobs)) [
    | inl no_ ↦ absurd (nothing_found (is_item k) item (rw (stored_progress, no_) at f))
    | inr (row, yes_) ↦
        (let same = stored_of id row db yes_ in rw same (row-Keeps row db yes_ (rw same at f) u))
  ]
