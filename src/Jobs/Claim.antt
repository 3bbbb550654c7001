-- ===== src/Jobs/Claim.antt =====
-- `JobStore`: creating a job, claiming it and renewing its lease.
use trustguard_rag.Prelude.{
  ℕ, suc, ◌+◌, Bool, true, false, not, ◌&&◌, Option, none, some, List, [], ◌∷◌, String, leb,
  if◌then◌else◌, or_default, or_else, option_eq, is_some, str_eq,
}
use trustguard_rag.Domain.{
  IngestJobStatus, IngestStep, DocumentStatus, CleanupAction, is_running, is_unfinished, status_in,
}
use trustguard_rag.Store.Table
use trustguard_rag.Store.Table.{Table}
use trustguard_rag.Store.Values.{Dict, text, get, put, or_empty, to_column}
use trustguard_rag.Store.Rows.{
  IngestJobRow, Db, Settings, OutboxEvent, ok, err, Tx, lookup_error, integrity_error,
  cleanup_document, add_outbox_event, cleanup_payload,
}

-- The written row of a job.
unfoldable pub save_job : String → IngestJobRow → Db → Db
save_job id job db = record db { jobs = Table.set id job db.jobs }

-- A new row, with the columns' defaults.
unfoldable pub new_job :
    Option String → String → String → Option Dict → IngestJobStatus → IngestJobRow
new_job knowledge_base_id source_type source options status = record {
  knowledge_base_id = knowledge_base_id;
  source_type = source_type;
  source = source;
  options_json = options;
  status = status;
  current_step = none;
  document_id = none;
  pending_document_id = none;
  conflict_candidates_json = none;
  attempt = 0;
  max_attempts = 3;
  error_code = none;
  error_message = none;
  step_logs = [];
  started_at = none;
  lease_owner = none;
  lease_token = none;
  lease_expires_at = none;
  heartbeat_at = none;
  finished_at = none;
}

-- `knowledge_base_id or (options or {}).get("knowledge_base_id")`.
abbrev owner_knowledge_base : Option String → Option Dict → Option String
owner_knowledge_base none options = to_column (get "knowledge_base_id" (or_empty options))
owner_knowledge_base (some k) options =
    if str_eq k "" then to_column (get "knowledge_base_id" (or_empty options)) else some k

-- The insertion of a row: its primary key must be new.
unfoldable pub insert_job : String → IngestJobRow → Tx IngestJobRow
insert_job id job db =
    if is_some (Table.lookup id db.jobs)
    then (err integrity_error, db)
    else (ok job, record db { jobs = Table.add id job db.jobs })

-- `create`; the caller has drawn the id that `job_id or str(uuid4())` stands for.
unfoldable pub create :
    String → String → Option Dict → IngestJobStatus → String → Option String → Tx IngestJobRow
create source_type source options status job_id knowledge_base_id =
    insert_job job_id
      (new_job (owner_knowledge_base knowledge_base_id options) source_type source options status)

-- `create_ingest_command`: the job and its command in one transaction.
unfoldable pub create_ingest_command :
    ℕ → String → String → String → String → Option Dict → String → Tx (IngestJobRow × OutboxEvent)
create_ingest_command now job_id source_type source knowledge_base_id options event_type db =
    if not (is_some (Table.lookup knowledge_base_id db.knowledge_bases))
    then (err lookup_error, db)
    else if is_some (Table.lookup job_id db.jobs)
    then (err integrity_error, db)
    else (let row =
          new_job (some knowledge_base_id) source_type source
            (some (put "knowledge_base_id" (text knowledge_base_id) (or_empty options)))
            IngestJobStatus.queued in
        let (event, db') =
          add_outbox_event now event_type job_id (("job_id", text job_id) ∷ [])
            (record db { jobs = Table.add job_id row db.jobs }) in
        (ok (row, event), db'))

-- `_clear_lease`.
unfoldable pub clear_lease : IngestJobRow → IngestJobRow
clear_lease job = record job {
  lease_owner = none;
  lease_token = none;
  lease_expires_at = none;
  heartbeat_at = none;
}

pub record JobLease : Type 0 where
  pub job_id : String
  pub token : String
  pub owner : String
  pub expires_at : ℕ

-- `ClaimResult`, the union of a lease and `ClaimOutcome`.
pub data ClaimResult : Type 0 where
  lease : JobLease → ClaimResult
  busy terminal : ClaimResult

-- A lease without an end has expired.
abbrev pub is_expired : ℕ → Option ℕ → Bool
is_expired now none = true
is_expired now (some t) = leb t now

unfoldable pub reclaimable : ℕ → IngestJobRow → Bool
reclaimable now job = is_running job.status && is_expired now job.lease_expires_at

-- `(job.attempt or 0) >= (job.max_attempts or 3)`.
unfoldable pub is_exhausted : IngestJobRow → Bool
is_exhausted job = leb (or_default job.max_attempts 3) job.attempt

-- A half-built document fails, and its rollback is queued. The event goes with the change.
unfoldable pub fail_document : ℕ → Option String → Db → List OutboxEvent × Db
fail_document now none db = ([], db)
fail_document now (some document_id) db = elim (Table.lookup document_id db.documents) [
  | none ↦ ([], db)
  | some doc ↦
      if is_unfinished doc.status
      then (let (event, db') =
            add_outbox_event now cleanup_document document_id
              (cleanup_payload document_id CleanupAction.rollback)
              (record db {
                documents =
                    Table.set document_id
                      (record doc { status = DocumentStatus.failed; updated_at = now })
                      db.documents;
              }) in
          (event ∷ [], db'))
      else ([], db)
]

-- `for document_id in {job.document_id, job.pending_document_id} - {None}`: equal ids count once.
unfoldable pub fail_documents : ℕ → IngestJobRow → Db → Db
fail_documents now job db =
    let db' = (fail_document now job.document_id db).1 in
    if option_eq job.document_id job.pending_document_id
    then db'
    else (fail_document now job.pending_document_id db').1

-- The job of a claim that finds its attempts used up.
unfoldable pub exhaust_row : ℕ → String → IngestJobRow → IngestJobRow
exhaust_row now message job = clear_lease (record job {
  status = IngestJobStatus.failed;
  current_step = some IngestStep.failed;
  error_code = some "MAX_ATTEMPTS_EXCEEDED";
  error_message = some message;
  finished_at = some now;
})

-- The job under a new lease.
unfoldable pub grant_row : ℕ → String → String → ℕ → IngestJobRow → IngestJobRow
grant_row now owner token expires_at job = record job {
  status = IngestJobStatus.running;
  attempt = suc job.attempt;
  started_at = or_else job.started_at (some now);
  finished_at = none;
  lease_owner = some owner;
  lease_token = some token;
  heartbeat_at = some now;
  lease_expires_at = some expires_at;
}

unfoldable pub claim_row :
    Settings → ℕ → String → List IngestJobStatus → String → IngestJobRow → Db → ClaimResult × Db
claim_row settings now job_id allowed owner job db =
    if not (status_in job.status allowed) && not (reclaimable now job)
    then (if is_running job.status then busy else terminal, db)
    else if is_exhausted job
    then (
      terminal,
      fail_documents now job
          (save_job job_id (exhaust_row now "Worker retry limit exceeded" job) db),
    )
    else (let token = db.uuid4 db.drawn in
        let expires_at = now + settings.worker_job_lease_seconds in
        (
          lease (record { job_id = job_id; token = token; owner = owner; expires_at = expires_at }),
          save_job job_id (grant_row now owner token expires_at job)
              (record db { drawn = suc db.drawn }),
        ))

-- `claim`; `owner` is `owner or _worker_owner()`.
unfoldable pub claim : Settings → ℕ → String → List IngestJobStatus → String → Db → ClaimResult × Db
claim settings now job_id allowed owner db = elim (Table.lookup job_id db.jobs) [
  | none ↦ (terminal, db)
  | some job ↦ claim_row settings now job_id allowed owner job db
]

-- The caller's lease is the job's: `status == RUNNING and lease_token == token`.
unfoldable pub holds_lease : String → IngestJobRow → Bool
holds_lease token job = is_running job.status && option_eq job.lease_token (some token)

-- `heartbeat`.
unfoldable pub heartbeat : Settings → ℕ → String → String → Db → Bool × Db
heartbeat settings now job_id token db = elim (Table.lookup job_id db.jobs) [
  | none ↦ (false, db)
  | some job ↦
      if holds_lease token job
      then (
        true,
        save_job job_id
            (record job {
              heartbeat_at = some now;
              lease_expires_at = some (now + settings.worker_job_lease_seconds);
            })
            db,
      )
      else (false, db)
]
