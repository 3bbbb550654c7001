-- ===== src/Crawl/Values.antt =====
-- The dictionaries of app/stores/crawler_store.py: the items under review and the progress of a
-- crawl, as the store reads and writes them.
use Prim.Native.String.{◌++◌ as join}
use trustguard_rag.Prelude.{
  ℕ, ◌+◌, ◌-◌, ◌*◌, ◌/◌, ◌%◌, ◌≡◌, Bool, true, false, Option, none, some, List, [], ◌∷◌, String,
  arith, eq_iff, if◌then◌else◌, str_eq, ltb, leb, or_else, ◌==◌,
}
use trustguard_rag.Prelude.Text.{show}
use trustguard_rag.Store.Table.{Table, lookup, store, lookup-store}

-- `moment t` is the text that `isoformat` makes of the time `t`, which `fromisoformat` reads back.
-- Any other text is not a time. `other` is a list or a dict, with its truth value and its `str()`.
pub data Json : Type 0 where
  null : Json
  flag : Bool → Json
  number : ℕ → Json
  text : String → Json
  moment : ℕ → Json
  other : Bool → String → Json

abbrev pub Fields : Type 0
Fields = Table Json

-- `d.get(key)`.
unfoldable pub field : String → Fields → Json
field k d = elim (lookup k d) [ none ↦ null | some v ↦ v ]

-- `d.update(values)`.
unfoldable pub update : Fields → Fields → Fields
update d [] = d
update d ((k, v) ∷ values) = update (store k v d) values

-- `bool(value)`.
abbrev pub truth : Json → Bool
truth null = false
truth (flag b) = b
truth (number n) = if n == 0 then false else true
truth (text s) = if str_eq s "" then false else true
truth (moment t) = true
truth (other b s) = b

two_digits : ℕ → String
two_digits n = if ltb n 10 then join "0" (show n) else show n

four_digits : ℕ → String
unfolding two_digits
four_digits n =
    if ltb n 100 then join "00" (two_digits n) else if ltb n 1000 then join "0" (show n) else show n

-- The civil date of a day counted from 1 March of the year 0, by years of 400.
date_text : ℕ → String
unfolding two_digits four_digits
date_text days =
    let era = days / 146097 in
    let doe = days % 146097 in
    let yoe = (((doe - doe / 1460) + doe / 36524) - doe / 146096) / 365 in
    let doy = doe - ((365 * yoe + yoe / 4) - yoe / 100) in
    let mp = (5 * doy + 2) / 153 in
    let day = (doy - (153 * mp + 2) / 5) + 1 in
    let month = if ltb mp 10 then mp + 3 else mp - 9 in
    let year = (yoe + era * 400) + (if leb month 2 then 1 else 0) in
    join (four_digits year) (join "-" (join (two_digits month) (join "-" (two_digits day))))

-- `isoformat()` of a time in whole seconds from 1970.
unfoldable pub isoformat : ℕ → String
unfolding two_digits date_text
isoformat t =
    let seconds = t % 86400 in
    join (date_text (t / 86400 + 719468)) (
      join "T" (
        join (two_digits (seconds / 3600)) (
          join ":"
            (join (two_digits ((seconds % 3600) / 60)) (join ":" (two_digits (seconds % 60)))))))

-- `str(value)`.
unfoldable pub str : Json → String
str null = "None"
str (flag b) = if b then "True" else "False"
str (number n) = show n
str (text s) = s
str (moment t) = isoformat t
str (other b s) = s

-- `str(value or "")`.
unfoldable pub text_of : Json → String
text_of v = if truth v then str v else ""

-- `value == text`.
abbrev pub is_text : String → Json → Bool
is_text s (text r) = str_eq r s
is_text s _ = false

-- `_review_timestamp`.
unfoldable pub review_timestamp : Json → Option ℕ
review_timestamp (moment t) = some t
review_timestamp _ = none

-- The progress of a crawl, `progress_json`: `none` for a key that is absent, and the keys that the
-- store does not read in `fields`.
pub record Progress : Type 0 where
  pub review_items : Option (List Fields)
  pub queued_for_ingest : Option ℕ
  pub pending_review : Option ℕ
  pub review_status : Option String
  pub fields : Fields

-- `progress.get("review_items") or []`.
abbrev pub items_of : Progress → List Fields
items_of p = elim p.review_items [ none ↦ [] | some items ↦ items ]

-- `progress.get("queued_for_ingest", 0)`.
abbrev pub queued : Progress → ℕ
queued p = elim p.queued_for_ingest [ none ↦ 0 | some n ↦ n ]

abbrev pub no_progress : Progress
no_progress = record {
  review_items = none;
  queued_for_ingest = none;
  pending_review = none;
  review_status = none;
  fields = [];
}

-- `row.progress_json or {}`.
abbrev pub progress_or : Option Progress → Progress
progress_or none = no_progress
progress_or (some p) = p

-- `progress.update(values)`.
unfoldable pub patched : Progress → Progress → Progress
patched p values = record {
  review_items = or_else values.review_items p.review_items;
  queued_for_ingest = or_else values.queued_for_ingest p.queued_for_ingest;
  pending_review = or_else values.pending_review p.pending_review;
  review_status = or_else values.review_status p.review_status;
  fields = update p.fields values.fields;
}

pub field-store :
    (k j : String) (v : Json) (d : Fields)
    → field j (store k v d) ≡ (if str_eq k j then v else field j d)
unfolding field
field-store k j v d = ground (arith, lookup-store k j v d, eq_iff k j)
