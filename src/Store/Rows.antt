-- ===== src/Store/Rows.antt =====
-- The rows of app/stores/models.py that the worker protocol reads and writes, the database that
-- holds them, and `add_outbox_event` of app/stores/outbox_store.py. Times are whole seconds.
use trustguard_rag.Prelude.{ℕ, suc, Option, none, List, [], ◌∷◌, String}
use trustguard_rag.Domain.{IngestJobStatus, IngestStep, DocumentStatus, OutboxStatus, CleanupAction}
use trustguard_rag.Store.Table
use trustguard_rag.Store.Table.{Table}
use trustguard_rag.Store.Values.{Dict, text}

-- An entry of `step_logs`; `step` is `none` for "unknown".
pub record StepLog : Type 0 where
  pub step : Option IngestStep
  pub status : String
  pub at : ℕ
  pub detail : Option String

pub record IngestJobRow : Type 0 where
  pub knowledge_base_id : Option String
  pub source_type : String
  pub source : String
  pub options_json : Option Dict
  pub status : IngestJobStatus
  pub current_step : Option IngestStep
  pub document_id : Option String
  pub pending_document_id : Option String
  pub conflict_candidates_json : Option (List String)
  pub attempt : ℕ
  pub max_attempts : ℕ
  pub error_code : Option String
  pub error_message : Option String
  pub step_logs : List StepLog
  pub started_at : Option ℕ
  pub lease_owner : Option String
  pub lease_token : Option String
  pub lease_expires_at : Option ℕ
  pub heartbeat_at : Option ℕ
  pub finished_at : Option ℕ

pub record DocumentRow : Type 0 where
  pub knowledge_base_id : Option String
  pub source_type : String
  pub source_uri : String
  pub content_hash : String
  pub title : Option String
  pub mime_type : Option String
  pub original_filename : Option String
  pub doc_version : ℕ
  pub status : DocumentStatus
  pub blob_path : Option String
  pub metadata_json : Option Dict
  pub updated_at : ℕ

pub record KnowledgeBaseRow : Type 0 where
  pub content_revision : ℕ
  pub updated_at : ℕ

pub record OutboxEventRow : Type 0 where
  pub event_type : String
  pub aggregate_id : String
  pub payload_json : Dict
  pub status : OutboxStatus
  pub attempt : ℕ
  pub max_attempts : ℕ
  pub next_attempt_at : Option ℕ
  pub locked_at : Option ℕ
  pub last_error : Option String
  pub created_at : ℕ
  pub published_at : Option ℕ

-- `OutboxEvent`: what the relay and the callers get of a row.
pub record OutboxEvent : Type 0 where
  pub id : String
  pub event_type : String
  pub aggregate_id : String
  pub payload : Dict

-- The database. `uuid4 n` is the n-th value that `uuid4()` returns, and `drawn` counts the calls.
pub record Db : Type 0 where
  pub jobs : Table IngestJobRow
  pub documents : Table DocumentRow
  pub knowledge_bases : Table KnowledgeBaseRow
  pub outbox : Table OutboxEventRow
  pub uuid4 : ℕ → String
  pub drawn : ℕ

-- The settings of app/settings.py that this protocol reads.
pub record Settings : Type 0 where
  pub worker_job_lease_seconds : ℕ
  pub worker_outbox_lease_seconds : ℕ
  pub worker_outbox_batch_size : ℕ
  pub worker_indexing_stale_seconds : ℕ

-- How a method of a store ends: with a value, or with an exception.
pub data Error : Type 0 where
  lease_lost_error lookup_error value_error integrity_error : Error

pub data Result {ℓ} (A : Type ℓ) : Type ℓ where
  ok : A → Result A
  err : Error → Result A

-- A transaction returns the database that it leaves. One that raises before its commit leaves the
-- database as it was.
abbrev pub Tx : Type 0 → Type 0
Tx A = Db → Result A × Db

abbrev pub ingest_document : String
ingest_document = "document.ingest"

abbrev pub reviewed_ingest_document : String
reviewed_ingest_document = "document.ingest.reviewed"

abbrev pub cleanup_document : String
cleanup_document = "document.cleanup"

abbrev pub cleanup_job_staging : String
cleanup_job_staging = "job.staging.cleanup"

abbrev pub resolve_conflict : String
resolve_conflict = "document.resolve"

abbrev pub run_crawler : String
run_crawler = "crawler.run"

abbrev pub action_text : CleanupAction → String
action_text CleanupAction.delete = "delete"
action_text CleanupAction.rollback = "rollback"
action_text CleanupAction.supersede = "supersede"

-- `add_outbox_event`, with the columns' defaults. The row's id is drawn from `uuid4`.
unfoldable pub new_event : ℕ → String → String → Dict → OutboxEventRow
new_event now event_type aggregate_id payload = record {
  event_type = event_type;
  aggregate_id = aggregate_id;
  payload_json = payload;
  status = OutboxStatus.pending;
  attempt = 0;
  max_attempts = 20;
  next_attempt_at = none;
  locked_at = none;
  last_error = none;
  created_at = now;
  published_at = none;
}

unfoldable pub event_from_row : String → OutboxEventRow → OutboxEvent
event_from_row id row = record {
  id = id;
  event_type = row.event_type;
  aggregate_id = row.aggregate_id;
  payload = row.payload_json;
}

unfoldable pub add_outbox_event : ℕ → String → String → Dict → Db → OutboxEvent × Db
unfolding new_event event_from_row
add_outbox_event now event_type aggregate_id payload db =
    let row = new_event now event_type aggregate_id payload in
    (
      event_from_row (db.uuid4 db.drawn) row,
      record db { outbox = Table.add (db.uuid4 db.drawn) row db.outbox; drawn = suc db.drawn },
    )

-- The rollback command of a half-built document.
abbrev pub cleanup_payload : String → CleanupAction → Dict
cleanup_payload document_id action =
    ("document_id", text document_id) ∷ ("action", text (action_text action)) ∷ []
