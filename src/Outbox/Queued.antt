-- ===== src/Outbox/Queued.antt =====
-- A row of the outbox that waits for the relay.
use trustguard_rag.Prelude.{◌≡◌, refl, true, [], ◌∷◌, ℕ, String, ◌⊎◌, inl, inr, ◌++◌}
use trustguard_rag.Store.Table
use trustguard_rag.Store.Table.{Table}
use trustguard_rag.Store.Values.{Dict}
use trustguard_rag.Store.Rows.{
  OutboxEventRow, OutboxEvent, Db, Settings, event_from_row, new_event, add_outbox_event,
}
use trustguard_rag.Outbox.{is_claimable}

-- The row is that of the event, and a relay may claim it at any time.
pub record IsWaiting (event : OutboxEvent) (id : String) (row : OutboxEventRow) : Type 0 where
  pub same : event_from_row id row ≡ event
  pub due : (s : Settings) (t : ℕ) → is_claimable s t row ≡ true

-- The outbox has the event in a row that waits.
abbrev pub IsQueued : OutboxEvent → Table OutboxEventRow → Type 0
IsQueued event [] = ⊥
IsQueued event ((id, row) ∷ t) = IsWaiting event id row ⊎ IsQueued event t

IsQueued-append_right :
    (event : OutboxEvent) (t u : Table OutboxEventRow) → IsQueued event u → IsQueued event (t ++ u)
IsQueued-append_right event [] u h = h
IsQueued-append_right event ((id, row) ∷ t) u h = inr (IsQueued-append_right event t u h)

IsQueued-append_left :
    (event : OutboxEvent) (t u : Table OutboxEventRow) → IsQueued event t → IsQueued event (t ++ u)
IsQueued-append_left event [] u h = absurd h
IsQueued-append_left event ((id, row) ∷ t) u (inl h) = inl h
IsQueued-append_left event ((id, row) ∷ t) u (inr h) = inr (IsQueued-append_left event t u h)

module _ (now : ℕ) (event_type aggregate_id : String) (payload : Dict) (db : Db) where
  -- A new event waits.
  pub add_outbox_event-IsQueued :
      IsQueued
        (add_outbox_event now event_type aggregate_id payload db).0
        (add_outbox_event now event_type aggregate_id payload db).1.outbox
  unfolding add_outbox_event Table.add is_claimable new_event event_from_row
  add_outbox_event-IsQueued =
      let row = new_event now event_type aggregate_id payload in
      IsQueued-append_right (event_from_row (db.uuid4 db.drawn) row) db.outbox _
        (inl (record { same = refl; due = λ s t. refl }))

  -- It leaves those that wait.
  pub IsQueued-add_outbox_event :
      (event : OutboxEvent)
      → IsQueued event db.outbox
      → IsQueued event (add_outbox_event now event_type aggregate_id payload db).1.outbox
  unfolding add_outbox_event Table.add
  IsQueued-add_outbox_event event h = IsQueued-append_left event db.outbox _ h
