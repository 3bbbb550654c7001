-- ===== src/Jobs/Publication.antt =====
-- `JobStore`: the publication of a document and the decision on a conflict, with
-- `increment_content_revision` of app/stores/document_store.py.
use trustguard_rag.Prelude.{
  ℕ, suc, Bool, true, false, not, ◌&&◌, Option, none, some, [], ◌∷◌, String, if◌then◌else◌,
  option_eq, str_eq, contains,
}
use trustguard_rag.Domain.{IngestJobStatus, IngestStep, DocumentStatus}
use trustguard_rag.Store.Table
use trustguard_rag.Store.Values.{text, put, or_empty}
use trustguard_rag.Store.Rows.{
  IngestJobRow, DocumentRow, Db, OutboxEvent, ok, err, Tx, lease_lost_error, value_error,
  resolve_conflict, add_outbox_event,
}
use trustguard_rag.Jobs.Claim.{save_job, clear_lease, holds_lease}

-- `increment_content_revision` of app/stores/document_store.py.
unfoldable pub increment_content_revision : ℕ → Option String → Db → Db
increment_content_revision now none db = db
increment_content_revision now (some knowledge_base_id) db =
    if str_eq knowledge_base_id "" then db else record db {
      knowledge_bases =
          Table.update_where (λ id kb. str_eq id knowledge_base_id)
            (λ kb. record kb { content_revision = suc kb.content_revision; updated_at = now })
            db.knowledge_bases;
    }

unfoldable pub published_row : ℕ → String → IngestJobRow → IngestJobRow
unfolding clear_lease
published_row now document_id job = clear_lease (record job {
  status = IngestJobStatus.succeeded;
  document_id = some document_id;
  finished_at = some now;
  error_code = none;
  error_message = none;
})

-- `not doc or doc.status != INDEXING`.
abbrev pub publishable : DocumentStatus → Bool
publishable DocumentStatus.indexing = true
publishable _ = false

unfoldable pub publish_row : ℕ → String → String → IngestJobRow → DocumentRow → Tx (Unit {0})
publish_row now job_id document_id job doc db = (
  ok tt,
  save_job job_id (published_row now document_id job) (
      increment_content_revision now doc.knowledge_base_id (record db {
        documents =
            Table.set document_id (record doc { status = DocumentStatus.ready; updated_at = now })
              db.documents;
      })),
)

-- `publish_document`.
unfoldable pub publish_document : ℕ → String → String → String → Tx (Unit {0})
publish_document now job_id document_id token db = elim (Table.lookup job_id db.jobs) [
  | none ↦ (err lease_lost_error, db)
  | some job ↦
      if not (holds_lease token job)
      then (err lease_lost_error, db)
      else elim (Table.lookup document_id db.documents) [
        | none ↦ (err lease_lost_error, db)
        | some doc ↦
            if not (publishable doc.status)
            then (err lease_lost_error, db)
            else publish_row now job_id document_id job doc db
      ]
]

-- `keep_document_id != pending_id and keep_document_id not in candidates`, negated.
unfoldable pub in_conflict_set : String → IngestJobRow → Bool
in_conflict_set keep_document_id job =
    if option_eq (some keep_document_id) job.pending_document_id
    then true
    else contains keep_document_id (elim job.conflict_candidates_json [ none ↦ [] | some c ↦ c ])

unfoldable pub resolving_row : String → IngestJobRow → IngestJobRow
resolving_row keep_document_id job = record job {
  options_json = some (put "keep_document_id" (text keep_document_id) (or_empty job.options_json));
  status = IngestJobStatus.resolving;
  current_step = some IngestStep.queued;
  attempt = 0;
  finished_at = none;
  error_code = none;
  error_message = none;
}

abbrev pub is_conflict : IngestJobStatus → Bool
is_conflict IngestJobStatus.conflict = true
is_conflict _ = false

-- `request_resolution`.
unfoldable pub request_resolution : ℕ → String → String → Tx (IngestJobRow × OutboxEvent)
request_resolution now job_id keep_document_id db = elim (Table.lookup job_id db.jobs) [
  | none ↦ (err value_error, db)
  | some job ↦
      if not (is_conflict job.status && in_conflict_set keep_document_id job)
      then (err value_error, db)
      else (let (event, db') =
            add_outbox_event now resolve_conflict job_id
              (("job_id", text job_id) ∷ ("keep_document_id", text keep_document_id) ∷ [])
              (save_job job_id (resolving_row keep_document_id job) db) in
          (ok (resolving_row keep_document_id job, event), db'))
]
