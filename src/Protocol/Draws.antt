-- ===== src/Protocol/Draws.antt =====
-- Which of the values of `uuid4()` a call uses: the source of the values stays the same, and the
-- count of the draws only grows.
use trustguard_rag.Prelude.{
  ℕ, ◌≡◌, ◌≤◌, Option, none, some, List, [], ◌∷◌, String, arith, option_cases, if_elim, not,
}
use trustguard_rag.Domain.{is_deletable, IngestJobStatus, CleanupAction}
use trustguard_rag.Store.Table
use trustguard_rag.Store.Table.{Table}
use trustguard_rag.Store.Values.{Dict}
use trustguard_rag.Store.Rows.{IngestJobRow, DocumentRow, Db, Settings, add_outbox_event}
use trustguard_rag.Jobs.Claim
use trustguard_rag.Jobs.Claim.{
  save_job, fail_document, fail_documents, claim_row, insert_job, holds_lease, exhaust_row,
}
use trustguard_rag.Jobs.Recovery
use trustguard_rag.Jobs.Leased
use trustguard_rag.Jobs.Publication
use trustguard_rag.Jobs.Publication.{increment_content_revision, publishable}
use trustguard_rag.Documents
use trustguard_rag.Outbox
use trustguard_rag.Protocol.{Call, LeasedCall, perform, perform_leased, run}

pub record Draws (a : Db) (b : Db) : Type 0 where
  pub source : b.uuid4 ≡ a.uuid4
  pub count : a.drawn ≤ b.drawn

-- The draws of a method that also returns a value.
pub record DrawsIn {ℓ} {A : Type ℓ} (a : Db) (r : A × Db) : Type 0 where
  pub draws : Draws a r.1

drawn {ℓ} : {A : Type ℓ} {a : Db} {r : A × Db} → Draws a r.1 → DrawsIn a r
drawn h = record { draws = h }

Draws-refl : (a : Db) → Draws a a
Draws-refl a = ground arith

pub Draws-trans : (a b c : Db) → Draws a b → Draws b c → Draws a c
Draws-trans a b c p q = ground arith

add_outbox_event-Draws :
    (now : ℕ) (t a : String) (p : Dict) (db : Db) → Draws db (add_outbox_event now t a p db).1
unfolding add_outbox_event
add_outbox_event-Draws now t a p db = ground arith

fail_document-Draws : (now : ℕ) (d : Option String) (db : Db) → Draws db (fail_document now d db).1
unfolding fail_document add_outbox_event
fail_document-Draws now none db = ground arith
fail_document-Draws now (some d) db = ground arith

fail_documents-Draws :
    (now : ℕ) (job : IngestJobRow) (db : Db) → Draws db (fail_documents now job db)
unfolding fail_documents
fail_documents-Draws now job db = ground (
  arith,
  fail_document-Draws now job.document_id db,
  fail_document-Draws now job.pending_document_id (fail_document now job.document_id db).1,
)

increment_content_revision-Draws :
    (now : ℕ) (k : Option String) (db : Db) → Draws db (increment_content_revision now k db)
unfolding increment_content_revision
increment_content_revision-Draws now none db = ground arith
increment_content_revision-Draws now (some k) db = ground arith

module _ (s : Settings) (now : ℕ) where
  claim_row-Draws :
      (id : String) (allowed : List IngestJobStatus) (owner : String) (job : IngestJobRow) (db : Db)
      → Draws db (claim_row s now id allowed owner job db).1
  unfolding claim_row save_job
  claim_row-Draws id allowed owner job db = ground (
    arith,
    fail_documents-Draws now job
        (save_job id (exhaust_row now "Worker retry limit exceeded" job) db),
  )

  claim-Draws :
      (id : String) (allowed : List IngestJobStatus) (owner : String) (db : Db)
      → DrawsIn db (Claim.claim s now id allowed owner db)
  unfolding Claim.claim
  claim-Draws id allowed owner db =
      option_cases (DrawsIn db) (Table.lookup id db.jobs) (λ _. drawn (Draws-refl db))
        λ job _. drawn (claim_row-Draws id allowed owner job db)

  perform_leased-Draws :
      (call : LeasedCall) (id : String) (token : Option String) (db : Db)
      → Draws db (perform_leased s now call id token db)
  unfolding perform_leased Leased.mark_running Leased.attach_conflict Leased.set_document_id
      Leased.finish Leased.guarded_update Leased.guarded_write Leased.mark_retrying save_job
  perform_leased-Draws (LeasedCall.mark_running step) id token db = ground arith
  perform_leased-Draws call id token db = ground arith

  publish_row-Draws :
      (id d : String) (job : IngestJobRow) (doc : DocumentRow) (db : Db)
      → Draws db (Publication.publish_row now id d job doc db).1
  unfolding Publication.publish_row save_job increment_content_revision
  publish_row-Draws id d job doc db = ground arith

  publish_document-Draws :
      (id d token : String) (db : Db) → DrawsIn db (Publication.publish_document now id d token db)
  unfolding Publication.publish_document
  publish_document-Draws id d token db =
      option_cases (DrawsIn db) (Table.lookup id db.jobs) (λ _. drawn (Draws-refl db))
        λ job _. if_elim (DrawsIn db) (not (holds_lease token job)) (drawn (Draws-refl db)) (
          option_cases (DrawsIn db) (Table.lookup d db.documents) (λ _. drawn (Draws-refl db))
            λ doc _.
              if_elim (DrawsIn db) (not (publishable doc.status)) (drawn (Draws-refl db))
                (drawn (publish_row-Draws id d job doc db)))

  recover_job-Draws :
      (id : String) (job : IngestJobRow) (db : Db) → Draws db (Recovery.recover_job now id job db).1
  unfolding Recovery.recover_job add_outbox_event save_job fail_document
  recover_job-Draws id job db = ground arith

  recover_jobs-Draws :
      (rows : Table IngestJobRow) (db : Db) → Draws db (Recovery.recover_jobs now rows db).1
  unfolding Recovery.recover_jobs
  recover_jobs-Draws [] db = Draws-refl db
  recover_jobs-Draws ((id, job) ∷ rest) db =
      Draws-trans _ _ _ (recover_job-Draws id job db)
        (recover_jobs-Draws rest (Recovery.recover_job now id job db).1)

  enqueue_cleanup-Draws :
      (id : String) (action : Option CleanupAction) (db : Db)
      → Draws db (Documents.enqueue_cleanup now id action db).1
  unfolding add_outbox_event
  enqueue_cleanup-Draws id none db = ground arith
  enqueue_cleanup-Draws id (some action) db = ground arith

  enqueue_cleanups-Draws :
      (docs : Table DocumentRow) (db : Db) → Draws db (Documents.enqueue_cleanups now docs db).1
  unfolding Documents.enqueue_cleanups
  enqueue_cleanups-Draws [] db = Draws-refl db
  enqueue_cleanups-Draws ((id, doc) ∷ rest) db =
      Draws-trans _ _ _ (enqueue_cleanup-Draws id (Documents.pending_action doc.status) db) (
        enqueue_cleanups-Draws rest
          (Documents.enqueue_cleanup now id (Documents.pending_action doc.status) db).1)

  recover_orphans-Draws :
      (docs : Table DocumentRow) (db : Db) → Draws db (Documents.recover_orphans now docs db).1
  unfolding Documents.recover_orphans add_outbox_event Documents.save_document
  recover_orphans-Draws [] db = Draws-refl db
  recover_orphans-Draws ((id, doc) ∷ rest) db =
      Draws-trans _ _ _ (ground arith) (recover_orphans-Draws rest _)

  delete_row-Draws :
      (id : String) (doc : DocumentRow) (db : Db) → Draws db (Documents.delete_row now id doc db).1
  unfolding Documents.delete_row Documents.save_document Documents.cancel_jobs
      increment_content_revision add_outbox_event
  delete_row-Draws id doc db = ground arith

  request_delete-Draws : (id : String) (db : Db) → DrawsIn db (Documents.request_delete now id db)
  unfolding Documents.request_delete
  request_delete-Draws id db =
      option_cases (DrawsIn db) (Table.lookup id db.documents) (λ _. drawn (Draws-refl db))
        λ doc _.
          if_elim (DrawsIn db) (not (is_deletable doc.status)) (drawn (Draws-refl db))
            (drawn (delete_row-Draws id doc db))

  pub perform-Draws : (call : Call) (db : Db) → Draws db (perform s now call db)
  unfolding perform
  perform-Draws (Call.create_job t u o st id k) db = unfold Claim.create insert_job in ground arith
  perform-Draws (Call.create_ingest_command id t u k o e) db =
      unfold Claim.create_ingest_command add_outbox_event in ground arith
  perform-Draws (Call.claim id allowed owner) db = (claim-Draws id allowed owner db).draws
  perform-Draws (Call.heartbeat id token) db = unfold Claim.heartbeat save_job in ground arith
  perform-Draws (Call.leased call id token) db = perform_leased-Draws call id token db
  perform-Draws (Call.publish_document id d token) db = (publish_document-Draws id d token db).draws
  perform-Draws (Call.request_resolution id keep) db =
      unfold Publication.request_resolution add_outbox_event save_job in ground arith
  perform-Draws (Call.append_step_log id step st detail) db =
      unfold Leased.append_step_log save_job in ground arith
  perform-Draws (Call.recover_expired_jobs locked) db =
      unfold Recovery.recover_expired_jobs in recover_jobs-Draws _ db
  perform-Draws (Call.clear_document_references d) db =
      unfold Recovery.clear_document_references in ground arith
  perform-Draws (Call.create_document id row) db = unfold Documents.create in ground arith
  perform-Draws (Call.update_status id st path m) db =
      unfold Documents.update_status Documents.save_document increment_content_revision in
      ground arith
  perform-Draws (Call.request_delete id) db = (request_delete-Draws id db).draws
  perform-Draws Call.enqueue_pending_cleanups db =
      unfold Documents.enqueue_pending_cleanups in enqueue_cleanups-Draws _ db
  perform-Draws (Call.recover_orphan_publications locked) db =
      unfold Documents.recover_orphan_publications in recover_orphans-Draws _ db
  perform-Draws (Call.add_event t a p) db = unfold Outbox.add in add_outbox_event-Draws now t a p db
  perform-Draws (Call.claim_batch id_le limit locked) db = unfold Outbox.claim_batch in ground arith
  perform-Draws (Call.mark_published id) db = unfold Outbox.mark_published in ground arith
  perform-Draws (Call.mark_failed id e) db = unfold Outbox.mark_failed in ground arith

pub run-Draws : (s : Settings) (calls : List (ℕ × Call)) (db : Db) → Draws db (run s calls db)
unfolding run
run-Draws s [] db = Draws-refl db
run-Draws s ((now, call) ∷ calls) db =
    Draws-trans _ _ _ (perform-Draws s now call db) (run-Draws s calls (perform s now call db))
