-- ===== src/Protocol/Runs.antt =====
-- The invariant of the jobs over every call and every run of calls.
use trustguard_rag.Prelude.{
  ℕ, ◌≡◌, ◌∙◌, refl, Option, none, some, List, [], ◌∷◌, String, arith, Bool, option_cases, if_elim,
  not, is_some,
}
use trustguard_rag.Domain.{is_ready, is_deletable, DocumentStatus, CleanupAction}
use trustguard_rag.Store.Table
use trustguard_rag.Store.Values.{Dict}
use trustguard_rag.Store.Table.{Table, Rows-update_where, Rows, IsUnique-update_where}
use trustguard_rag.Store.Rows.{IngestJobRow, DocumentRow, Db, Settings, add_outbox_event}
use trustguard_rag.Jobs.Claim.{is_exhausted, clear_lease}
use trustguard_rag.Jobs.Recovery
use trustguard_rag.Jobs.Rows.{
  IsConsistent, exhaust_row-IsConsistent, requeued_row-IsConsistent, released_row-IsConsistent,
  unlink_row-IsConsistent,
}
use trustguard_rag.Documents
use trustguard_rag.Outbox
use trustguard_rag.Protocol.{Call, perform, run}
use trustguard_rag.Protocol.Invariant.{
  IsValid, Leaves, left, IsValid-jobs, save_job-IsValid, IsValid-fail_document,
  IsValid-add_outbox_event, IsValid-increment_content_revision, claim-IsValid, create-IsValid,
  create_ingest_command-IsValid, heartbeat-IsValid, perform_leased-IsValid,
  publish_document-IsValid, request_resolution-IsValid, append_step_log-IsValid,
}

recover_job-IsValid :
    (now : ℕ) (id : String) (job : IngestJobRow) (db : Db)
    → IsValid db
    → IsConsistent job
    → Leaves (Recovery.recover_job now id job db)
unfolding Recovery.recover_job
recover_job-IsValid now id job db h c =
    if_elim Leaves (is_exhausted job)
      (left (
        IsValid-fail_document now _ _ (
          save_job-IsValid id _ db h
            (exhaust_row-IsConsistent _ (released_row-IsConsistent job c now) now _))))
      (left (
        IsValid-add_outbox_event now _ id _ _
          (save_job-IsValid id _ db h (requeued_row-IsConsistent job c now))))

recover_jobs-IsValid :
    (now : ℕ) (rows : Table IngestJobRow) (db : Db)
    → Rows IsConsistent rows
    → IsValid db
    → Leaves (Recovery.recover_jobs now rows db)
unfolding Recovery.recover_jobs
recover_jobs-IsValid now [] db c h = left h
recover_jobs-IsValid now ((id, job) ∷ rest) db c h =
    left
      (recover_jobs-IsValid now rest (Recovery.recover_job now id job db).1 c.1
        (recover_job-IsValid now id job db h c.0).valid).valid

Rows-select_where {ℓ κ} :
    {V : Type ℓ} (P : V → Type κ) (p : String → V → Bool) (t : Table V)
    → Rows P t
    → Rows P (Table.select_where p t)
unfolding Table.select_where
Rows-select_where P p [] h = tt
Rows-select_where P p ((k, v) ∷ t) h =
    if_elim (Rows P) (p k v) (h.0, Rows-select_where P p t h.1) (Rows-select_where P p t h.1)

cancelled_row-IsConsistent :
    (now : ℕ) (job : IngestJobRow)
    → IsConsistent job
    → IsConsistent (Documents.cancelled_row now job)
unfolding Documents.cancelled_row clear_lease
cancelled_row-IsConsistent now job c = ground arith

cancel_jobs-IsValid :
    (now : ℕ) (id : String) (db : Db) → IsValid db → IsValid (Documents.cancel_jobs now id db)
unfolding Documents.cancel_jobs
cancel_jobs-IsValid now id db h = record {
  rows = Rows-update_where IsConsistent _ _ _ (cancelled_row-IsConsistent now) h.rows;
  unique = IsUnique-update_where _ _ _ h.unique;
}

module _ (s : Settings) (now : ℕ) where
  delete_row-IsValid :
      (id : String) (doc : DocumentRow) (db : Db)
      → IsValid db
      → Leaves (Documents.delete_row now id doc db)
  unfolding Documents.delete_row Documents.save_document
  delete_row-IsValid id doc db h = left (
      IsValid-add_outbox_event now _ id _ _ (
        cancel_jobs-IsValid now id _ (
          if_elim IsValid (is_ready doc.status)
            (IsValid-increment_content_revision now doc.knowledge_base_id _
              (record { rows = h.rows; unique = h.unique }))
            (record { rows = h.rows; unique = h.unique }))))

  jobs-enqueue_cleanup :
      (id : String) (action : Option CleanupAction) (db : Db)
      → (Documents.enqueue_cleanup now id action db).1.jobs ≡ db.jobs
  unfolding add_outbox_event
  jobs-enqueue_cleanup id none db = refl
  jobs-enqueue_cleanup id (some action) db = refl

  jobs-enqueue_cleanups :
      (docs : Table DocumentRow) (db : Db)
      → (Documents.enqueue_cleanups now docs db).1.jobs ≡ db.jobs
  unfolding Documents.enqueue_cleanups add_outbox_event
  jobs-enqueue_cleanups [] db = refl
  jobs-enqueue_cleanups ((id, doc) ∷ rest) db =
      jobs-enqueue_cleanups rest _
      ∙ jobs-enqueue_cleanup id (Documents.pending_action doc.status) db

  jobs-recover_orphans :
      (docs : Table DocumentRow) (db : Db)
      → (Documents.recover_orphans now docs db).1.jobs ≡ db.jobs
  unfolding Documents.recover_orphans add_outbox_event Documents.save_document
  jobs-recover_orphans [] db = refl
  jobs-recover_orphans ((id, doc) ∷ rest) db = jobs-recover_orphans rest _

  update_status-IsValid :
      (id : String) (st : DocumentStatus) (path : Option String) (m : Option Dict) (db : Db)
      → IsValid db
      → IsValid (Documents.update_status now id st path m db)
  unfolding Documents.update_status Documents.save_document
  update_status-IsValid id st path m db h =
      option_cases IsValid (Table.lookup id db.documents) (λ _. h)
        λ row _.
          if_elim IsValid (Documents.bool_eq (is_ready row.status) (is_ready st))
            (record { rows = h.rows; unique = h.unique })
            (IsValid-increment_content_revision now row.knowledge_base_id _
              (record { rows = h.rows; unique = h.unique }))

  -- Every call keeps every job's row consistent.
  pub perform-IsValid : (call : Call) (db : Db) → IsValid db → IsValid (perform s now call db)
  unfolding perform
  perform-IsValid (Call.create_job t u o st id k) db h =
      (create-IsValid s now id db h t u o st k).valid
  perform-IsValid (Call.create_ingest_command id t u k o e) db h =
      (create_ingest_command-IsValid s now id db h t u k o e).valid
  perform-IsValid (Call.claim id allowed owner) db h =
      (claim-IsValid s now id db h allowed owner).valid
  perform-IsValid (Call.heartbeat id token) db h = (heartbeat-IsValid s now id db h token).valid
  perform-IsValid (Call.leased call id token) db h = perform_leased-IsValid s now id db h call token
  perform-IsValid (Call.publish_document id d token) db h =
      (publish_document-IsValid s now id db h d token).valid
  perform-IsValid (Call.request_resolution id keep) db h =
      (request_resolution-IsValid s now id db h keep).valid
  perform-IsValid (Call.append_step_log id step st detail) db h =
      (append_step_log-IsValid s now id db h step st detail).valid
  perform-IsValid (Call.recover_expired_jobs locked) db h =
      unfold Recovery.recover_expired_jobs in
      (recover_jobs-IsValid now _ db (Rows-select_where IsConsistent _ _ h.rows) h).valid
  perform-IsValid (Call.clear_document_references d) db h =
      unfold Recovery.clear_document_references in
      record {
        rows =
            Rows-update_where IsConsistent _ _ _ (λ job c. unlink_row-IsConsistent job c d) h.rows;
        unique = IsUnique-update_where _ _ _ h.unique;
      }
  perform-IsValid (Call.create_document id row) db h =
      unfold Documents.create in
      (if_elim Leaves (is_some (Table.lookup id db.documents)) (left h)
        (left (record { rows = h.rows; unique = h.unique }))).valid
  perform-IsValid (Call.update_status id st path m) db h = update_status-IsValid id st path m db h
  perform-IsValid (Call.request_delete id) db h =
      unfold Documents.request_delete in
      (option_cases Leaves (Table.lookup id db.documents) (λ _. left h)
        λ doc _.
          if_elim Leaves (not (is_deletable doc.status)) (left h)
            (delete_row-IsValid id doc db h)).valid
  perform-IsValid Call.enqueue_pending_cleanups db h =
      unfold Documents.enqueue_pending_cleanups in IsValid-jobs (jobs-enqueue_cleanups _ db) h
  perform-IsValid (Call.recover_orphan_publications locked) db h =
      unfold Documents.recover_orphan_publications in IsValid-jobs (jobs-recover_orphans _ db) h
  perform-IsValid (Call.add_event t a p) db h =
      unfold Outbox.add in IsValid-add_outbox_event now t a p db h
  perform-IsValid (Call.claim_batch id_le limit locked) db h =
      unfold Outbox.claim_batch in record { rows = h.rows; unique = h.unique }
  perform-IsValid (Call.mark_published id) db h =
      unfold Outbox.mark_published in
      option_cases IsValid (Table.lookup id db.outbox) (λ _. h)
        (λ row _. record { rows = h.rows; unique = h.unique })
  perform-IsValid (Call.mark_failed id e) db h =
      unfold Outbox.mark_failed in
      option_cases IsValid (Table.lookup id db.outbox) (λ _. h)
        (λ row _. record { rows = h.rows; unique = h.unique })

-- From a database whose jobs are consistent every run of timed calls, of any services and workers
-- in any order, leads to one: a job that is not running has no lease token, owner, end or heartbeat,
-- no job has more attempts than it may have, and no two jobs share an id.
pub run-IsValid :
    (s : Settings) (calls : List (ℕ × Call)) (db : Db) → IsValid db → IsValid (run s calls db)
unfolding run
run-IsValid s [] db h = h
run-IsValid s ((now, call) ∷ calls) db h =
    run-IsValid s calls (perform s now call db) (perform-IsValid s now call db h)
