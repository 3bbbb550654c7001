-- ===== src/Jobs/Announced.antt =====
-- The recovery of a job leaves its command in the outbox.
use trustguard_rag.Prelude.{
  ℕ, ◌≡◌, true, false, none, some, Option, List, [], ◌∷◌, String, arith, eq_iff, str_eq, if_elim,
  option_cases, inl, inr, Bool-cases,
}
use trustguard_rag.Domain.{CleanupAction, is_unfinished}
use trustguard_rag.Store.Table.{Table, lookup, IsUnique, lookup-cons, lookup-select_where}
use trustguard_rag.Store.Rows.{
  IngestJobRow, OutboxEvent, OutboxEventRow, Db, add_outbox_event, event_from_row, new_event,
  cleanup_document, cleanup_payload,
}
use trustguard_rag.Outbox.Queued.{IsQueued, add_outbox_event-IsQueued, IsQueued-add_outbox_event}
use trustguard_rag.Jobs.Claim.{is_exhausted, save_job, fail_document}
use trustguard_rag.Jobs.Recovery.{
  released_row, requeued_row, recover_job, recover_jobs, recover_expired_jobs, recovery_event,
  recovery_payload,
}
use trustguard_rag.Jobs.Recovered.{is_lost}

-- The event of the command that takes a job up again.
abbrev pub announcement : String → String → IngestJobRow → OutboxEvent
announcement event_id id job = record {
  id = event_id;
  event_type = recovery_event job;
  aggregate_id = id;
  payload = recovery_payload id job;
}

-- Events that wait still wait after a round of the recovery, and after the rounds that follow.
IsQueued-fail_document :
    (now : ℕ) (document_id : Option String) (event : OutboxEvent) (db : Db)
    → IsQueued event db.outbox
    → IsQueued event (fail_document now document_id db).1.outbox
unfolding fail_document
IsQueued-fail_document now none event db h = h
IsQueued-fail_document now (some document_id) event db h =
    option_cases (λ (r : List OutboxEvent × Db). IsQueued event r.1.outbox)
      (lookup document_id db.documents) (λ _. h)
      λ doc _.
        if_elim (λ (r : List OutboxEvent × Db). IsQueued event r.1.outbox)
          (is_unfinished doc.status)
          (IsQueued-add_outbox_event now cleanup_document document_id
            (cleanup_payload document_id CleanupAction.rollback) _ event h)
          h

IsQueued-recover_job :
    (now : ℕ) (id : String) (job : IngestJobRow) (event : OutboxEvent) (db : Db)
    → IsQueued event db.outbox
    → IsQueued event (recover_job now id job db).1.outbox
unfolding recover_job save_job
IsQueued-recover_job now id job event db h =
    if_elim (λ (r : List OutboxEvent × Db). IsQueued event r.1.outbox) (is_exhausted job)
      (IsQueued-fail_document now _ event _ h)
      (IsQueued-add_outbox_event now (recovery_event job) id (recovery_payload id job) _ event h)

IsQueued-recover_jobs :
    (now : ℕ) (rows : Table IngestJobRow) (event : OutboxEvent) (db : Db)
    → IsQueued event db.outbox
    → IsQueued event (recover_jobs now rows db).1.outbox
unfolding recover_jobs
IsQueued-recover_jobs now [] event db h = h
IsQueued-recover_jobs now ((id, job) ∷ rest) event db h =
    IsQueued-recover_jobs now rest event (recover_job now id job db).1
      (IsQueued-recover_job now id job event db h)

-- The outbox has the command of the job in a row that waits for the relay.
abbrev pub IsAnnounced : String → IngestJobRow → Table OutboxEventRow → Type 0
IsAnnounced id job outbox = (event_id : String) × IsQueued (announcement event_id id job) outbox

recover_job-IsAnnounced :
    (now : ℕ) (id : String) (job : IngestJobRow) (db : Db)
    → is_exhausted job ≡ false
    → IsAnnounced id job (recover_job now id job db).1.outbox
unfolding recover_job save_job add_outbox_event event_from_row new_event
recover_job-IsAnnounced now id job db e = rw e (
  db.uuid4 db.drawn,
  add_outbox_event-IsQueued now (recovery_event job) id (recovery_payload id job)
      (save_job id (requeued_row (released_row now job)) db),
)

same_job-IsAnnounced :
    (now : ℕ) (id k : String) (j job : IngestJobRow) (db : Db)
    → id ≡ k
    → j ≡ job
    → is_exhausted job ≡ false
    → IsAnnounced k job (recover_job now id j db).1.outbox
same_job-IsAnnounced now id k j job db p q e = rw (p, q) (recover_job-IsAnnounced now k job db e)

recover_jobs-IsAnnounced :
    (now : ℕ) (k : String) (job : IngestJobRow) (rows : Table IngestJobRow) (db : Db)
    → lookup k rows ≡ some job
    → is_exhausted job ≡ false
    → IsAnnounced k job (recover_jobs now rows db).1.outbox
unfolding recover_jobs
recover_jobs-IsAnnounced now k job [] db f e = unfold lookup in cc
recover_jobs-IsAnnounced now k job ((id, j) ∷ rest) db f e = elim (Bool-cases (str_eq id k)) [
  | inl same ↦
      (let (event_id, waits) =
          same_job-IsAnnounced now id k j job db ((eq_iff id k).0 same)
            (ground (arith, lookup-cons k id j rest)) e in
        (
          event_id,
          IsQueued-recover_jobs now rest (announcement event_id k job) (recover_job now id j db).1
              waits,
        ))
  | inr other ↦
      recover_jobs-IsAnnounced now k job rest (recover_job now id j db).1
        (ground (arith, lookup-cons k id j rest)) e
]

pub recover_expired_jobs-IsAnnounced :
    (now : ℕ) (locked : List String) (id : String) (job : IngestJobRow) (db : Db)
    → IsUnique db.jobs
    → lookup id db.jobs ≡ some job
    → is_lost now locked id job ≡ true
    → is_exhausted job ≡ false
    → IsAnnounced id job (recover_expired_jobs now locked db).1.outbox
unfolding recover_expired_jobs
recover_expired_jobs-IsAnnounced now locked id job db u f lost e =
    recover_jobs-IsAnnounced now id job _ db
      (ground (arith, lookup-select_where (λ i j. is_lost now locked i j) id job db.jobs u f)) e
