-- ===== src/Documents/Deletion.antt =====
-- What `request_delete` and `update_status` promise to the rest of the system.
use mathlib.Core.Option
use mathlib.Core.Path.{subst}
use trustguard_rag.Prelude.{
  ℕ, suc, ◌≡◌, refl, ap, if_elim, Option-cases, Bool, true, false, not, ◌&&◌, Option, none, some,
  [], ◌∷◌, String, arith, eq_iff, str_eq, if_cases, Bool-cases, inl, inr,
}
use trustguard_rag.Domain.{DocumentStatus, CleanupAction, is_ready, is_deletable, is_resumable}
use trustguard_rag.Store.Table
use trustguard_rag.Store.Table.{Table, Rows, lookup-set, lookup-update_where}
use trustguard_rag.Store.Rows.{
  IngestJobRow, DocumentRow, KnowledgeBaseRow, OutboxEvent, Db, Result, ok, err, add_outbox_event,
  cleanup_document, cleanup_payload, lease_lost_error,
}
use trustguard_rag.Store.Values.{Dict}
use trustguard_rag.Outbox.Queued.{IsQueued, add_outbox_event-IsQueued}
use trustguard_rag.Jobs.Claim.{clear_lease}
use trustguard_rag.Jobs.Publication
use trustguard_rag.Jobs.Publication.{increment_content_revision}
use trustguard_rag.Documents.{
  save_document, bool_eq, update_status, works_on, cancelled_row, cancel_jobs, delete_row,
  request_delete,
}

-- The content revision of a knowledge base, which its readers' caches compare.
abbrev pub revision : String → Db → Option ℕ
revision k db = Option.map (λ kb. kb.content_revision) (Table.lookup k db.knowledge_bases)

-- One more for a change between ready and not ready.
abbrev pub bump : Bool → Option ℕ → Option ℕ
bump true r = r
bump false r = Option.map suc r

revision-increment :
    (now : ℕ) (k : String) (db : Db)
    → str_eq k "" ≡ false
    → revision k (increment_content_revision now (some k) db) ≡ Option.map suc (revision k db)
unfolding increment_content_revision
revision-increment now k db h = ground (
  arith,
  h,
  eq_iff k k,
  lookup-update_where (λ id kb. str_eq id k)
      (λ (kb : KnowledgeBaseRow). record kb {
        content_revision = suc kb.content_revision;
        updated_at = now;
      })
      k db.knowledge_bases,
)

module _ (now : ℕ) (id k : String) (doc : DocumentRow) (db : Db)
    (found : Table.lookup id db.documents ≡ some doc) (owned : doc.knowledge_base_id ≡ some k)
    (named : str_eq k "" ≡ false) where
  revision-update_status :
      (status : DocumentStatus) (path : Option String) (metadata : Option Dict)
      → revision k (update_status now id status path metadata db)
        ≡ bump (bool_eq (is_ready doc.status) (is_ready status)) (revision k db)
  unfolding update_status save_document
  revision-update_status status path metadata =
      let change = bool_eq (is_ready doc.status) (is_ready status) in
      rw (found, update_status)
        (elim (Bool-cases change) [
          | inl same ↦ rw same
          | inr other ↦ rw (other, owned) (revision-increment now k _ named)
        ])

  revision-delete_row :
      revision k (delete_row now id doc db).1 ≡ bump (not (is_ready doc.status)) (revision k db)
  unfolding delete_row save_document cancel_jobs add_outbox_event
  revision-delete_row = elim (Bool-cases (is_ready doc.status)) [
    | inl ready_ ↦ rw (ready_, owned) (revision-increment now k _ named)
    | inr other ↦ rw other
  ]

  -- The content revision of a document's knowledge base counts the changes of what its readers can
  -- find, where the document is there and its knowledge base's id is not empty: a change of the
  -- document's status, whatever both statuses are, raises the revision by one if the document becomes
  -- ready or ceases to be, and leaves it otherwise; and a request to delete it raises the revision by
  -- one if the document may be deleted and was ready, and leaves it otherwise.
  pub revision_counts_changes :
      ((status : DocumentStatus) (path : Option String) (metadata : Option Dict)
        → revision k (update_status now id status path metadata db)
          ≡ bump (bool_eq (is_ready doc.status) (is_ready status)) (revision k db))
      × (revision k (request_delete now id db).1
          ≡ bump (not (is_deletable doc.status && is_ready doc.status)) (revision k db))
  unfolding request_delete
  revision_counts_changes = (
    revision-update_status,
    rw (found, request_delete)
        (elim (Bool-cases (is_deletable doc.status)) [
          | inl ok_ ↦ rw ok_ revision-delete_row
          | inr no_ ↦ rw no_ refl
        ]),
  )

-- What holds of the jobs after the bulk update of a deletion.
abbrev pub IsReleased : String → IngestJobRow → Type 0
IsReleased id job = works_on id job ≡ true → is_resumable job.status ≡ false

cancelled_row-IsReleased :
    (now : ℕ) (id : String) (job : IngestJobRow) → IsReleased id (cancelled_row now job)
unfolding cancelled_row clear_lease
cancelled_row-IsReleased now id job w = refl

cancel_jobs-IsReleased :
    (now : ℕ) (id : String) (t : Table IngestJobRow)
    → Rows (IsReleased id) (
        Table.update_where
          (λ i job. works_on id job && is_resumable job.status)
          (cancelled_row now)
          t)
unfolding Table.update_where
cancel_jobs-IsReleased now id [] = tt
cancel_jobs-IsReleased now id ((i, job) ∷ t) = (
  if_cases (IsReleased id) (works_on id job && is_resumable job.status)
      (λ _. cancelled_row-IsReleased now id job) (λ kept w. ground (arith, kept, w)),
  cancel_jobs-IsReleased now id t,
)

documents-increment :
    (now : ℕ) (k : Option String) (db : Db)
    → (increment_content_revision now k db).documents ≡ db.documents
unfolding increment_content_revision
documents-increment now none db = refl
documents-increment now (some k) db = ground arith

-- What the transaction of an accepted deletion leaves.
module _ (now : ℕ) (id : String) (doc : DocumentRow) (db : Db) where
  documents-delete_row :
      (delete_row now id doc db).1.documents
      ≡ Table.set id
          (record doc { status = DocumentStatus.deleting; updated_at = now })
          db.documents
  unfolding delete_row save_document cancel_jobs add_outbox_event
  documents-delete_row =
      if_elim
        (λ (d : Db).
          d.documents
          ≡ Table.set id (record doc { status = DocumentStatus.deleting; updated_at = now })
              db.documents)
        (is_ready doc.status) (documents-increment now doc.knowledge_base_id _) refl

  jobs-delete_row : Rows (IsReleased id) (delete_row now id doc db).1.jobs
  unfolding delete_row cancel_jobs add_outbox_event
  jobs-delete_row = cancel_jobs-IsReleased now id _

  lookup-delete_row :
      Table.lookup id db.documents ≡ some doc
      → Table.lookup id (delete_row now id doc db).1.documents
        ≡ some (record doc { status = DocumentStatus.deleting; updated_at = now })
  lookup-delete_row found = rw documents-delete_row (
      ground (
        arith,
        found,
        eq_iff id id,
        lookup-set id id (record doc { status = DocumentStatus.deleting; updated_at = now })
            db.documents,
      ))

-- The document that an accepted deletion found.
accepted :
    (now : ℕ) (id : String) (event : OutboxEvent) (db db' : Db)
    → request_delete now id db ≡ (ok event, db')
    → (doc : DocumentRow) × (Table.lookup id db.documents ≡ some doc)
      × (delete_row now id doc db ≡ (ok event, db'))
unfolding request_delete
accepted now id event db db' h = elim (Option-cases (Table.lookup id db.documents)) [
  | inl e ↦ ground arith
  | inr (doc, e) ↦ (doc, e, ground arith)
]

unpublishable :
    (later : ℕ) (job_id id token : String) (doc : DocumentRow) (db : Db)
    → Table.lookup id db.documents ≡ some doc
    → doc.status ≡ DocumentStatus.deleting
    → Publication.publish_document later job_id id token db ≡ (err lease_lost_error, db)
unfolding Publication.publish_document
unpublishable later job_id id token doc db found d = ground arith

module _ (now : ℕ) (id : String) (doc : DocumentRow) (event : OutboxEvent) (db db' : Db)
    (h : delete_row now id doc db ≡ (ok event, db')) where
  event_of_deletion : event.event_type ≡ cleanup_document
  unfolding delete_row add_outbox_event
  event_of_deletion = ground arith

  payload_of_deletion : event.payload ≡ cleanup_payload id CleanupAction.delete
  unfolding delete_row add_outbox_event
  payload_of_deletion = ground arith

-- What the transaction leaves in the outbox.
abbrev Queues : Result OutboxEvent × Db → Type 0
Queues (ok event, db) = IsQueued event db.outbox
Queues (err x, db) = Unit

delete_row-Queues :
    (now : ℕ) (id : String) (doc : DocumentRow) (db : Db) → Queues (delete_row now id doc db)
unfolding delete_row
delete_row-Queues now id doc db =
    add_outbox_event-IsQueued now cleanup_document id (cleanup_payload id CleanupAction.delete) _

deletion-IsQueued :
    (now : ℕ) (id : String) (doc : DocumentRow) (event : OutboxEvent) (db db' : Db)
    → delete_row now id doc db ≡ (ok event, db')
    → IsQueued event db'.outbox
deletion-IsQueued now id doc event db db' h = subst Queues h (delete_row-Queues now id doc db)

-- A deletion that is accepted leaves the document in the state `deleting`, no job that works on it is
-- left to be run or resumed, the outbox has the command of its cleanup in a row that a relay may
-- claim, and no worker can publish the document any more: whatever the job and the lease,
-- `publish_document` raises `LeaseLostError` and changes nothing.
pub deletion_is_final :
    (now : ℕ) (id : String) (event : OutboxEvent) (db db' : Db)
    → request_delete now id db ≡ (ok event, db')
    → (Option.map (λ (doc : DocumentRow). doc.status) (Table.lookup id db'.documents)
        ≡ some DocumentStatus.deleting)
      × Rows (IsReleased id) db'.jobs
      × (event.event_type ≡ cleanup_document)
      × (event.payload ≡ cleanup_payload id CleanupAction.delete)
      × IsQueued event db'.outbox
      × ((later : ℕ) (job_id token : String)
          → Publication.publish_document later job_id id token db' ≡ (err lease_lost_error, db'))
deletion_is_final now id event db db' h =
    let (doc, found, done_) = accepted now id event db db' h in
    let left = ap (λ r. r.1) done_ in
    let after = lookup-delete_row now id doc db found in
    let row = record doc { status = DocumentStatus.deleting; updated_at = now } in
    let gone : Table.lookup id db'.documents ≡ some row =
      subst (λ d. Table.lookup id d.documents ≡ some row) left after in
    (
      ap (Option.map (λ (d : DocumentRow). d.status)) gone,
      subst (λ d. Rows (IsReleased id) d.jobs) left (jobs-delete_row now id doc db),
      event_of_deletion now id doc event db db' done_,
      payload_of_deletion now id doc event db db' done_,
      deletion-IsQueued now id doc event db db' done_,
      λ later job_id token. unpublishable later job_id id token row db' gone refl,
    )
