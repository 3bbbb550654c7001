-- ===== src/Documents.antt =====
-- app/stores/document_store.py: the lifecycle of a document's row.
pub mod Deletion
pub mod Queries
use trustguard_rag.Prelude.{
  ℕ, ◌+◌, Bool, true, false, not, ◌&&◌, ◌||◌, Option, none, some, List, [], ◌∷◌, ◌++◌, String, leb,
  if◌then◌else◌, option_eq, is_some, contains, or_else,
}
use trustguard_rag.Domain.{
  IngestJobStatus, IngestStep, DocumentStatus, CleanupAction, is_deletable, is_ready, is_resumable,
  is_unfinished,
}
use trustguard_rag.Store.Table
use trustguard_rag.Store.Table.{Table}
use trustguard_rag.Store.Values.{Dict}
use trustguard_rag.Store.Rows.{
  IngestJobRow, DocumentRow, Db, Settings, OutboxEvent, ok, err, Tx, lookup_error, value_error,
  integrity_error, cleanup_document, add_outbox_event, cleanup_payload,
}
use trustguard_rag.Jobs.Claim.{clear_lease}
use trustguard_rag.Jobs.Publication.{increment_content_revision}

unfoldable pub save_document : String → DocumentRow → Db → Db
save_document id doc db = record db { documents = Table.set id doc db.documents }

-- `create`: the insertion of a row whose id the caller has drawn.
unfoldable pub create : String → DocumentRow → Tx DocumentRow
create document_id row db =
    if is_some (Table.lookup document_id db.documents)
    then (err integrity_error, db)
    else (ok row, record db { documents = Table.add document_id row db.documents })

-- `get`.
unfoldable pub get : String → Db → Option DocumentRow
get document_id db = Table.lookup document_id db.documents

unfoldable pub bool_eq : Bool → Bool → Bool
bool_eq true b = b
bool_eq false b = not b

-- `update_status`.
unfoldable pub update_status : ℕ → String → DocumentStatus → Option String → Option Dict → Db → Db
update_status now document_id status blob_path metadata db =
    elim (Table.lookup document_id db.documents) [
      | none ↦ db
      | some row ↦
          (let db' =
              save_document document_id
                (record row {
                  status = status;
                  updated_at = now;
                  blob_path = or_else blob_path row.blob_path;
                  metadata_json = or_else metadata row.metadata_json;
                })
                db in
            if bool_eq (is_ready row.status) (is_ready status)
            then db'
            else increment_content_revision now row.knowledge_base_id db')
    ]

-- `ready_ids`: the given ids that are those of ready documents of the knowledge base.
unfoldable pub is_ready_in : String → Option DocumentRow → Bool
is_ready_in knowledge_base_id none = false
is_ready_in knowledge_base_id (some doc) =
    option_eq doc.knowledge_base_id (some knowledge_base_id) && is_ready doc.status

unfoldable pub ready_ids : List String → String → Db → List String
unfolding is_ready_in
ready_ids [] knowledge_base_id db = []
ready_ids (id ∷ ids) knowledge_base_id db =
    let rest = ready_ids ids knowledge_base_id db in
    if is_ready_in knowledge_base_id (Table.lookup id db.documents) then id ∷ rest else rest

-- A job that works on the document.
unfoldable pub works_on : String → IngestJobRow → Bool
works_on document_id job =
    option_eq job.document_id (some document_id)
    || option_eq job.pending_document_id (some document_id)

unfoldable pub cancelled_row : ℕ → IngestJobRow → IngestJobRow
unfolding clear_lease
cancelled_row now job = clear_lease (record job {
  status = IngestJobStatus.cancelled;
  current_step = some IngestStep.cancelled;
  error_code = some "CANCELLED";
  error_message = some "Task cancelled because its document was deleted";
  finished_at = some now;
})

-- The bulk update of `request_delete`.
unfoldable pub cancel_jobs : ℕ → String → Db → Db
cancel_jobs now document_id db = record db {
  jobs =
      Table.update_where (λ id job. works_on document_id job && is_resumable job.status)
        (cancelled_row now) db.jobs;
}

unfoldable pub delete_row : ℕ → String → DocumentRow → Tx OutboxEvent
delete_row now document_id doc db =
    let marked =
      save_document document_id (record doc { status = DocumentStatus.deleting; updated_at = now })
        db in
    let counted =
      if is_ready doc.status
      then increment_content_revision now doc.knowledge_base_id marked
      else marked in
    let (event, db') =
      add_outbox_event now cleanup_document document_id
        (cleanup_payload document_id CleanupAction.delete) (cancel_jobs now document_id counted) in
    (ok event, db')

-- `request_delete`.
unfoldable pub request_delete : ℕ → String → Tx OutboxEvent
request_delete now document_id db = elim (Table.lookup document_id db.documents) [
  | none ↦ (err lookup_error, db)
  | some doc ↦
      if not (is_deletable doc.status)
      then (err value_error, db)
      else delete_row now document_id doc db
]

-- The `actions` of `enqueue_pending_cleanups`.
abbrev pub pending_action : DocumentStatus → Option CleanupAction
pending_action DocumentStatus.deleting = some CleanupAction.delete
pending_action DocumentStatus.superseding = some CleanupAction.supersede
pending_action DocumentStatus.failed = some CleanupAction.rollback
pending_action _ = none

abbrev pub enqueue_cleanup : ℕ → String → Option CleanupAction → Db → List OutboxEvent × Db
enqueue_cleanup now id none db = ([], db)
enqueue_cleanup now id (some action) db =
    let (event, db') = add_outbox_event now cleanup_document id (cleanup_payload id action) db in
    (event ∷ [], db')

unfoldable pub enqueue_cleanups : ℕ → Table DocumentRow → Db → List OutboxEvent × Db
enqueue_cleanups now [] db = ([], db)
enqueue_cleanups now ((id, doc) ∷ rest) db =
    let (events, db') = enqueue_cleanup now id (pending_action doc.status) db in
    let (more, db'') = enqueue_cleanups now rest db' in (events ++ more, db'')

-- `enqueue_pending_cleanups`.
unfoldable pub enqueue_pending_cleanups : ℕ → Db → List OutboxEvent × Db
enqueue_pending_cleanups now db =
    enqueue_cleanups now
      (Table.select_where (λ id doc. is_some (pending_action doc.status)) db.documents) db

-- The subquery `active_job` of `recover_orphan_publications`.
unfoldable pub has_active_job : String → Table IngestJobRow → Bool
unfolding works_on
has_active_job document_id [] = false
has_active_job document_id ((id, job) ∷ jobs) =
    if works_on document_id job && is_resumable job.status
    then true
    else has_active_job document_id jobs

unfoldable pub is_orphan : Settings → ℕ → Db → String → DocumentRow → Bool
is_orphan settings now db id doc =
    is_unfinished doc.status
    && leb (doc.updated_at + settings.worker_indexing_stale_seconds) now
    && not (has_active_job id db.jobs)

unfoldable pub recover_orphans : ℕ → Table DocumentRow → Db → List OutboxEvent × Db
recover_orphans now [] db = ([], db)
recover_orphans now ((id, doc) ∷ rest) db =
    let (event, db') =
      add_outbox_event now cleanup_document id (cleanup_payload id CleanupAction.rollback)
        (save_document id (record doc { status = DocumentStatus.failed; updated_at = now }) db) in
    let (more, db'') = recover_orphans now rest db' in (event ∷ more, db'')

-- `recover_orphan_publications`; `locked` rows are skipped.
unfoldable pub recover_orphan_publications : Settings → ℕ → List String → Db → List OutboxEvent × Db
recover_orphan_publications settings now locked db =
    recover_orphans now
      (Table.select_where (λ id doc. is_orphan settings now db id doc && not (contains id locked))
        db.documents)
      db
