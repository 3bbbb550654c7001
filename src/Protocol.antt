-- ===== src/Protocol.antt =====
-- The calls that the services and workers of app/ make of the job, document and outbox stores, in
-- any order. Each is one transaction, so an interleaving is a list of calls.
pub mod Invariant
pub mod Runs
pub mod Draws
pub mod Fencing
use trustguard_rag.Prelude.{ℕ, Option, some, List, [], ◌∷◌, String, Bool}
use trustguard_rag.Domain.{IngestJobStatus, IngestStep, DocumentStatus}
use trustguard_rag.Store.Values.{Dict}
use trustguard_rag.Store.Rows.{DocumentRow, Db, Settings}
use trustguard_rag.Jobs.Claim
use trustguard_rag.Jobs.Leased
use trustguard_rag.Jobs.Publication
use trustguard_rag.Jobs.Leased.{FinishValues}
use trustguard_rag.Jobs.Recovery
use trustguard_rag.Documents
use trustguard_rag.Outbox

-- The calls that take a lease token.
pub data LeasedCall : Type 0 where
  mark_running : IngestStep → LeasedCall
  attach_conflict : String → List String → LeasedCall
  set_document_id : Option String → LeasedCall
  mark_retrying : String → String → IngestJobStatus → LeasedCall
  finish : IngestJobStatus → FinishValues → LeasedCall

pub data Call : Type 0 where
  create_job : String → String → Option Dict → IngestJobStatus → String → Option String → Call
  create_ingest_command : String → String → String → String → Option Dict → String → Call
  claim : String → List IngestJobStatus → String → Call
  heartbeat : String → String → Call
  leased : LeasedCall → String → Option String → Call
  publish_document : String → String → String → Call
  request_resolution : String → String → Call
  append_step_log : String → IngestStep → String → Option String → Call
  recover_expired_jobs : List String → Call
  clear_document_references : String → Call
  create_document : String → DocumentRow → Call
  update_status : String → DocumentStatus → Option String → Option Dict → Call
  request_delete : String → Call
  enqueue_pending_cleanups : Call
  recover_orphan_publications : List String → Call
  add_event : String → String → Dict → Call
  claim_batch : (String → String → Bool) → Option ℕ → List String → Call
  mark_published : String → Call
  mark_failed : String → String → Call

-- The database after a leased call of a job by the caller that holds `token`.
unfoldable pub perform_leased : Settings → ℕ → LeasedCall → String → Option String → Db → Db
perform_leased s now (mark_running step) id token db =
    (Leased.mark_running s now id step token db).1
perform_leased s now (attach_conflict p c) id token db = (Leased.attach_conflict id p c token db).1
perform_leased s now (set_document_id d) id token db = (Leased.set_document_id id d token db).1
perform_leased s now (mark_retrying c m status) id token db =
    (Leased.mark_retrying now id c m status token db).1
perform_leased s now (finish status values) id token db =
    (Leased.finish now id status values token db).1

-- The database after a call at the time `now`.
unfoldable pub perform : Settings → ℕ → Call → Db → Db
perform s now (create_job t u o st id k) db = (Claim.create t u o st id k db).1
perform s now (create_ingest_command id t u k o e) db =
    (Claim.create_ingest_command now id t u k o e db).1
perform s now (claim id allowed owner) db = (Claim.claim s now id allowed owner db).1
perform s now (heartbeat id token) db = (Claim.heartbeat s now id token db).1
perform s now (leased call id token) db = perform_leased s now call id token db
perform s now (publish_document id d token) db = (Publication.publish_document now id d token db).1
perform s now (request_resolution id keep) db = (Publication.request_resolution now id keep db).1
perform s now (append_step_log id step status detail) db =
    (Leased.append_step_log now id step status detail db).1
perform s now (recover_expired_jobs locked) db = (Recovery.recover_expired_jobs now locked db).1
perform s now (clear_document_references d) db = Recovery.clear_document_references d db
perform s now (create_document id row) db = (Documents.create id row db).1
perform s now (update_status id status path metadata) db =
    Documents.update_status now id status path metadata db
perform s now (request_delete id) db = (Documents.request_delete now id db).1
perform s now enqueue_pending_cleanups db = (Documents.enqueue_pending_cleanups now db).1
perform s now (recover_orphan_publications locked) db =
    (Documents.recover_orphan_publications s now locked db).1
perform s now (add_event t a p) db = (Outbox.add now t a p db).1
perform s now (claim_batch id_le limit locked) db =
    (Outbox.claim_batch id_le s now limit locked db).1
perform s now (mark_published id) db = Outbox.mark_published now id db
perform s now (mark_failed id error) db = Outbox.mark_failed now id error db

-- A run of timed calls.
unfoldable pub run : Settings → List (ℕ × Call) → Db → Db
run s [] db = db
run s ((now, call) ∷ calls) db = run s calls (perform s now call db)
