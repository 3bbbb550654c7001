-- ===== src/Outbox/Order.antt =====
-- Which events a relay leases.
use mathlib.Core.Option
use trustguard_rag.Prelude.{
  ℕ, ◌≤◌, ◌≡◌, refl, Bool, true, false, not, ◌&&◌, ◌||◌, ◌==◌, some, List, [], ◌∷◌, String, arith,
  ltb, contains, if◌then◌else◌, if_elim, All, length, eq_iff, str_eq, Option, Bool-cases, inl, inr,
  ◌⊎◌,
}
use trustguard_rag.Prelude.First.{Has, first-IsServed}
use trustguard_rag.Store.Table
use trustguard_rag.Store.Table.{Table, lookup, lookup-update_where}
use trustguard_rag.Store.Rows.{OutboxEventRow, Db, Settings}
use trustguard_rag.Outbox.{is_claimable, claimed_row, keys, events_of, row_le, batch, claim_batch}
use trustguard_rag.Outbox.Relay.{batch_limit, length-batch-le, All-claimable}

some_eq {ℓ} : {A : Type ℓ} (x y : A) → some x ≡ some y → x ≡ y
some_eq x y e = cc e

chosen :
    (p : String → OutboxEventRow → Bool) (j id : String) (r row : OutboxEventRow)
    (rest : Table OutboxEventRow)
    → j ≡ id
    → r ≡ row
    → p id row ≡ true
    → Has (id, row) (if p j r then (j, r) ∷ rest else rest)
chosen p j id r row rest a b h = rw (a, b, h) (inl refl)

Has-select_where :
    (p : String → OutboxEventRow → Bool) (id : String) (row : OutboxEventRow)
    (t : Table OutboxEventRow)
    → lookup id t ≡ some row
    → p id row ≡ true
    → Has (id, row) (Table.select_where p t)
unfolding lookup Table.select_where
Has-select_where p id row [] e h = cc e
Has-select_where p id row ((j, r) ∷ t) e h = elim (Bool-cases (str_eq j id)) [
  | inl same ↦
      chosen p j id r row (Table.select_where p t) ((eq_iff j id).0 same)
        (some_eq r row (ground (arith, e, same))) h
  | inr other ↦
      if_elim (Has (id, row)) (p j r)
        (inr (Has-select_where p id row t (ground (arith, e, other)) h))
        (Has-select_where p id row t (ground (arith, e, other)) h)
]

-- An event is created before another, or at the same time with an id that does not come later.
abbrev pub is_no_later :
    (String → String → Bool) → String × OutboxEventRow → String × OutboxEventRow → Bool
is_no_later id_le (i, a) (j, b) =
    ltb a.created_at b.created_at || (a.created_at == b.created_at && id_le i j)

module _ (id_le : String → String → Bool)
    (total : (i j : String) → id_le i j ≡ false → id_le j i ≡ true)
    (transitive : (i j k : String) → id_le i j ≡ true → id_le j k ≡ true → id_le i k ≡ true) where
  row_le_total :
      (a b : String × OutboxEventRow) → row_le id_le a b ≡ false → row_le id_le b a ≡ true
  row_le_total (i, a) (j, b) h = ground (arith, h, total i j)

  row_le_trans :
      (a b c : String × OutboxEventRow)
      → row_le id_le a b ≡ true
      → row_le id_le b c ≡ true
      → row_le id_le a c ≡ true
  row_le_trans (i, a) (j, b) (k, c) h g = ground (arith, h, g, transitive i j k)

  -- The relay leases the oldest events, by an order of the ids that is total and transitive. If an
  -- event of the outbox may be claimed and no other session holds its row, then a claim leases it, or
  -- it leases as many events as its limit, and none of them is later than this event. It never leases
  -- more, and only events that may be claimed; it returns those that it leases, and leaves all other
  -- rows of the outbox as they were.
  pub claim_batch_takes_oldest :
      (s : Settings) (now : ℕ) (limit : Option ℕ) (locked : List String) (db : Db) (id : String)
      (row : OutboxEventRow)
      → lookup id db.outbox ≡ some row
      → is_claimable s now row ≡ true
      → contains id locked ≡ false
      → let rows = batch id_le s now limit locked db in
        let (events, db') = claim_batch id_le s now limit locked db in
        (Has (id, row) rows
          ⊎ (length rows ≡ batch_limit s limit)
            × All (λ e. is_no_later id_le e (id, row) ≡ true) rows)
        × (length rows ≤ batch_limit s limit)
        × All (λ (e : String × OutboxEventRow). is_claimable s now e.1 ≡ true) rows
        × (events ≡ events_of rows)
        × ((k : String)
            → lookup k db'.outbox
              ≡ Option.map
                  (λ r. if contains k (keys rows) then claimed_row now r else r)
                  (lookup k db.outbox))
  unfolding claim_batch batch
  claim_batch_takes_oldest s now limit locked db id row e open_ free =
      let p =
        λ (i : String) (r : OutboxEventRow). is_claimable s now r && not (contains i locked) in
      (
        first-IsServed (row_le id_le) row_le_total row_le_trans (batch_limit s limit) (id, row)
            (Table.select_where p db.outbox)
            (Has-select_where p id row db.outbox e (ground (arith, open_, free))),
        length-batch-le id_le s now limit locked db,
        All-claimable id_le s now limit locked db,
        refl,
        λ k. lookup-update_where _ _ k db.outbox,
      )
