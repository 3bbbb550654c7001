-- ===== src/Outbox/Relay.antt =====
-- What the relay's leases and its retries guarantee.
use native.Mathlib.Nat.{pow-suc}
use trustguard_rag.Prelude.{
  ℕ, zero, suc, ◌+◌, ◌^◌, ◌≤◌, ◌<◌, ◌≡◌, inl, inr, Bool, true, false, ◌&&◌, Option, none, some,
  List, [], ◌∷◌, String, arith, leb, ltb, contains, All, All-take, All-map_implies, length,
  length-take-le, or_default, if_cases, Bool-cases,
}
use trustguard_rag.Prelude.Sort
use trustguard_rag.Store.Table
use trustguard_rag.Store.Table.{Table}
use trustguard_rag.Store.Rows.{OutboxEventRow, OutboxEvent, Db, Settings, event_from_row}
use trustguard_rag.Outbox.{
  is_claimable, claimed_row, keys, events_of, row_le, batch, claim_batch, marked_published,
  marked_failed, backoff,
}

-- A row of the table that a query's condition lets through satisfies the condition, and keeps what
-- holds of every row of the table.
module _ (P : String × OutboxEventRow → Type 0) (p : String → OutboxEventRow → Bool) where
  All-select_where :
      (t : Table OutboxEventRow)
      → All P t
      → All (λ (e : String × OutboxEventRow). P e × (p e.0 e.1 ≡ true)) (Table.select_where p t)
  unfolding Table.select_where
  All-select_where [] h = tt
  All-select_where ((i, row) ∷ t) h =
      if_cases (All (λ (e : String × OutboxEventRow). P e × (p e.0 e.1 ≡ true))) (p i row)
        (λ e. ((h.0, e), All-select_where t h.1)) (λ _. All-select_where t h.1)

-- The bound on a batch.
abbrev pub batch_limit : Settings → Option ℕ → ℕ
batch_limit s limit = or_default (elim limit [ none ↦ 0 | some n ↦ n ]) s.worker_outbox_batch_size

module _ (id_le : String → String → Bool) (s : Settings) (now : ℕ) (limit : Option ℕ)
    (locked : List String) where
  -- What holds of every row holds of every row of a batch, and each may be claimed.
  All-batch :
      (P : String × OutboxEventRow → Type 0) (db : Db)
      → All P db.outbox
      → All
          (λ (e : String × OutboxEventRow). P e × (is_claimable s now e.1 ≡ true))
          (batch id_le s now limit locked db)
  unfolding batch
  All-batch P db h = All-take _ (batch_limit s limit) _ (
      Sort.All-sort (row_le id_le) _ _ (
        All-map_implies _ _ _ (λ e q. (q.0, ground (arith, q.1)))
          (All-select_where P _ db.outbox h)))

  -- A batch is no longer than its limit.
  pub length-batch-le : (db : Db) → length (batch id_le s now limit locked db) ≤ batch_limit s limit
  unfolding batch
  length-batch-le db = length-take-le (batch_limit s limit) _

  All-Unit : (t : Table OutboxEventRow) → All (λ (e : String × OutboxEventRow). Unit {0}) t
  All-Unit [] = tt
  All-Unit (e ∷ t) = (tt, All-Unit t)

  pub All-claimable :
      (db : Db)
      → All
          (λ (e : String × OutboxEventRow). is_claimable s now e.1 ≡ true)
          (batch id_le s now limit locked db)
  All-claimable db =
      All-map_implies _ _ _ (λ e q. q.1) (All-batch (λ _. Unit {0}) db (All-Unit db.outbox))

-- The rows after a claim: a row of the batch is not free before its lease has run out.
abbrev IsTaken : Settings → ℕ → List String → String × OutboxEventRow → Type 0
IsTaken s later ids (id, row) = contains id ids ≡ true → is_claimable s later row ≡ false

claimed_row-taken :
    (s : Settings) (now later : ℕ) (row : OutboxEventRow)
    → later < now + s.worker_outbox_lease_seconds
    → is_claimable s later (claimed_row now row) ≡ false
unfolding is_claimable claimed_row
claimed_row-taken s now later row h = ground arith

All-IsTaken :
    (s : Settings) (now later : ℕ) (ids : List String) (t : Table OutboxEventRow)
    → later < now + s.worker_outbox_lease_seconds
    → All (IsTaken s later ids) (Table.update_where (λ id row. contains id ids) (claimed_row now) t)
unfolding Table.update_where
All-IsTaken s now later ids [] h = tt
All-IsTaken s now later ids ((id, row) ∷ t) h = (
  if_cases (λ r. IsTaken s later ids (id, r)) (contains id ids)
      (λ _ _. claimed_row-taken s now later row h) (λ other mine. cc (other, mine)),
  All-IsTaken s now later ids t h,
)

All-events_of :
    (Q : String → Type 0) (t : Table OutboxEventRow)
    → All (λ (e : String × OutboxEventRow). Q e.0) t
    → All (λ (e : OutboxEvent). Q e.id) (events_of t)
unfolding event_from_row
All-events_of Q [] h = tt
All-events_of Q ((id, row) ∷ t) h = (h.0, All-events_of Q t h.1)

-- Two relays never hold one event: whatever a claim of a batch leased at `now`, a claim on the
-- database that it left, by any relay at any time before the lease has run out, leases no event of
-- that batch.
pub claim_batch_exclusive :
    (id_le : String → String → Bool) (s : Settings) (now later : ℕ) (limit limit' : Option ℕ)
    (locked locked' : List String) (db : Db)
    → later < now + s.worker_outbox_lease_seconds
    → let ids = keys (batch id_le s now limit locked db) in
      let db' = (claim_batch id_le s now limit locked db).1 in
      All
        (λ (e : OutboxEvent). contains e.id ids ≡ false)
        (claim_batch id_le s later limit' locked' db').0
unfolding claim_batch
claim_batch_exclusive id_le s now later limit limit' locked locked' db h =
    let ids = keys (batch id_le s now limit locked db) in
    All-events_of (λ id. contains id ids ≡ false) _
      (All-map_implies _ _ _ (λ e q. free e.0 e.1 ids q.0 q.1)
        (All-batch id_le s later limit' locked' (IsTaken s later ids) _
          (All-IsTaken s now later ids db.outbox h)))
  where
    free :
        (id : String) (row : OutboxEventRow) (ids : List String)
        → IsTaken s later ids (id, row)
        → is_claimable s later row ≡ true
        → contains id ids ≡ false
    free id row ids taken open_ = elim (Bool-cases (contains id ids)) [
      | inl mine ↦ cc (taken mine, open_)
      | inr other ↦ other
    ]

pow_pos : (n : ℕ) → 1 ≤ 2 ^ n
pow_pos zero = omega arith
pow_pos (suc n) = rw pow-suc (omega (arith, pow_pos n))

backoff_bounds : (n : ℕ) → (2 ≤ backoff (suc n)) × (backoff (suc n) ≤ 60)
unfolding backoff
backoff_bounds n = rw pow-suc (omega (arith, pow_pos n))

-- After a failed publication an event is claimable at a time exactly if it has an attempt left and its
-- delay has passed, and the delay is between 2 and 60 seconds. A published event is never claimable.
pub retry_schedule :
    (s : Settings) (now t : ℕ) (error : String) (row : OutboxEventRow)
    → (is_claimable s t (marked_failed now error row)
        ≡ (ltb (suc row.attempt) row.max_attempts && leb (now + backoff (suc row.attempt)) t))
      × ((2 ≤ backoff (suc row.attempt)) × (backoff (suc row.attempt) ≤ 60))
      × (is_claimable s t (marked_published now row) ≡ false)
unfolding is_claimable marked_failed marked_published
retry_schedule s now t error row = (ground arith, backoff_bounds row.attempt, ground arith)
