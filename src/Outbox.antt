-- ===== src/Outbox.antt =====
-- app/stores/outbox_store.py: the transactional outbox, and the relay that leases its events. The
-- database's order of ids, `id_le`, is a parameter.
pub mod Relay
pub mod Queued
pub mod Order
use trustguard_rag.Prelude.{
  ℕ, suc, ◌+◌, ◌^◌, min, Bool, true, false, not, ◌&&◌, ◌||◌, Option, none, some, List, [], ◌∷◌,
  String, leb, ltb, ◌==◌, if◌then◌else◌, contains, take, take_text, or_default,
}
use trustguard_rag.Prelude.Sort
use trustguard_rag.Domain.{OutboxStatus}
use trustguard_rag.Store.Table
use trustguard_rag.Store.Table.{Table}
use trustguard_rag.Store.Values.{Dict}
use trustguard_rag.Store.Rows.{
  OutboxEventRow, OutboxEvent, Db, Settings, add_outbox_event, event_from_row,
}

-- `add`.
unfoldable pub add : ℕ → String → String → Dict → Db → OutboxEvent × Db
add now event_type aggregate_id payload db = add_outbox_event now event_type aggregate_id payload db

-- `get`.
unfoldable pub get : String → Db → Option OutboxEventRow
get event_id db = Table.lookup event_id db.outbox

-- `locked_at <= stale_before`, which no row without a lock satisfies.
abbrev pub is_stale : Settings → ℕ → Option ℕ → Bool
is_stale settings now none = false
is_stale settings now (some locked_at) = leb (locked_at + settings.worker_outbox_lease_seconds) now

-- The status is one that may be claimed.
abbrev pub is_open : Settings → ℕ → OutboxEventRow → OutboxStatus → Bool
is_open settings now row OutboxStatus.pending = true
is_open settings now row OutboxStatus.publishing = is_stale settings now row.locked_at
is_open settings now row _ = false

-- `next_attempt_at IS NULL OR next_attempt_at <= now`.
abbrev pub is_due : ℕ → Option ℕ → Bool
is_due now none = true
is_due now (some t) = leb t now

-- The condition of the query of `claim_batch`.
unfoldable pub is_claimable : Settings → ℕ → OutboxEventRow → Bool
is_claimable settings now row =
    ltb row.attempt row.max_attempts
    && is_open settings now row row.status
    && is_due now row.next_attempt_at

unfoldable pub claimed_row : ℕ → OutboxEventRow → OutboxEventRow
claimed_row now row = record row { status = OutboxStatus.publishing; locked_at = some now }

abbrev pub keys {ℓ} : {V : Type ℓ} → Table V → List String
keys [] = []
keys ((k, _) ∷ t) = k ∷ keys t

abbrev pub events_of : Table OutboxEventRow → List OutboxEvent
events_of [] = []
events_of ((id, row) ∷ t) = event_from_row id row ∷ events_of t

-- `ORDER BY created_at, id`.
abbrev pub row_le :
    (String → String → Bool) → String × OutboxEventRow → String × OutboxEventRow → Bool
row_le id_le (i, a) (j, b) =
    ltb a.created_at b.created_at || (a.created_at == b.created_at && id_le i j)

-- The rows of the query; `locked` are held by other sessions and skipped, and `limit or default`
-- bounds their number.
unfoldable pub batch :
    (String → String → Bool) → Settings → ℕ → Option ℕ → List String → Db → Table OutboxEventRow
batch id_le settings now limit locked db =
    take (or_default (elim limit [ none ↦ 0 | some n ↦ n ]) settings.worker_outbox_batch_size) (
      Sort.sort (row_le id_le) (
        Table.select_where (λ id row. is_claimable settings now row && not (contains id locked))
          db.outbox))

-- `claim_batch`.
unfoldable pub claim_batch :
    (String → String → Bool) → Settings → ℕ → Option ℕ → List String → Db → List OutboxEvent × Db
claim_batch id_le settings now limit locked db =
    let rows = batch id_le settings now limit locked db in
    (
      events_of rows,
      record db {
        outbox = Table.update_where (λ id row. contains id (keys rows)) (claimed_row now) db.outbox;
      },
    )

unfoldable pub marked_published : ℕ → OutboxEventRow → OutboxEventRow
marked_published now row = record row {
  status = OutboxStatus.published;
  published_at = some now;
  locked_at = none;
  last_error = none;
}

-- `mark_published`.
unfoldable pub mark_published : ℕ → String → Db → Db
mark_published now event_id db = elim (Table.lookup event_id db.outbox) [
  | none ↦ db
  | some row ↦ record db { outbox = Table.set event_id (marked_published now row) db.outbox }
]

-- `timedelta(seconds=min(2 ** attempt, 60))`.
unfoldable pub backoff : ℕ → ℕ
backoff attempt = min (2 ^ attempt) 60

-- The failed row, with `error[:4000]`.
unfoldable pub marked_failed : ℕ → String → OutboxEventRow → OutboxEventRow
unfolding backoff
marked_failed now error row = record row {
  attempt = suc row.attempt;
  status =
      if leb row.max_attempts (suc row.attempt) then OutboxStatus.dead else OutboxStatus.pending;
  next_attempt_at = some (now + backoff (suc row.attempt));
  locked_at = none;
  last_error = some (take_text 4000 error);
}

-- `mark_failed`.
unfoldable pub mark_failed : ℕ → String → String → Db → Db
mark_failed now event_id error db = elim (Table.lookup event_id db.outbox) [
  | none ↦ db
  | some row ↦ record db { outbox = Table.set event_id (marked_failed now error row) db.outbox }
]
