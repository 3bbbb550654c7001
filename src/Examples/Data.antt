-- ===== src/Examples/Data.antt =====
-- A database with one job whose lease has run out, one document of one knowledge base and one event.
use Prim.Native.String.{String as Text}
use trustguard_rag.Prelude.{
  ℕ, zero, suc, ◌≡◌, refl, ap, Bool, true, false, none, some, [], ◌∷◌, String, arith,
}
use trustguard_rag.Domain.{IngestJobStatus, IngestStep, DocumentStatus, OutboxStatus}
use trustguard_rag.Worker.Handlers.{Effects, succeeded, done}
use trustguard_rag.Store.Rows.{
  IngestJobRow, DocumentRow, OutboxEventRow, Db, Settings, ingest_document,
}

-- Identifiers that never repeat.
abbrev pub unary : ℕ → String
unary zero = ""
unary (suc n) = Text.◌∷◌ "u" (unary n)

abbrev rest_of : String → String
rest_of Text.[] = ""
rest_of (Text.◌∷◌ c s) = s

abbrev is_empty : String → Bool
is_empty Text.[] = true
is_empty (Text.◌∷◌ c s) = false

pub unary_injective : (m n : ℕ) → unary m ≡ unary n → m ≡ n
unary_injective zero zero e = refl
unary_injective zero (suc n) e = ground (arith, ap is_empty e)
unary_injective (suc m) zero e = ground (arith, ap is_empty e)
unary_injective (suc m) (suc n) e = ap suc (unary_injective m n (ap rest_of e))

abbrev pub settings : Settings
settings = record {
  worker_job_lease_seconds = 60;
  worker_outbox_lease_seconds = 60;
  worker_outbox_batch_size = 10;
  worker_indexing_stale_seconds = 300;
}

-- A job that a worker held until 100, in its first attempt.
abbrev pub lost_job : IngestJobRow
lost_job = record {
  knowledge_base_id = some "kb";
  source_type = "upload";
  source = "a.pdf";
  options_json = none;
  status = IngestJobStatus.running;
  current_step = some IngestStep.extract;
  document_id = some "doc";
  pending_document_id = none;
  conflict_candidates_json = none;
  attempt = 1;
  max_attempts = 3;
  error_code = none;
  error_message = none;
  step_logs = [];
  started_at = some 40;
  lease_owner = some "w1";
  lease_token = some "t1";
  lease_expires_at = some 100;
  heartbeat_at = some 40;
  finished_at = none;
}

abbrev pub document : DocumentRow
document = record {
  knowledge_base_id = some "kb";
  source_type = "upload";
  source_uri = "a.pdf";
  content_hash = "hash";
  title = none;
  mime_type = none;
  original_filename = none;
  doc_version = 1;
  status = DocumentStatus.ready;
  blob_path = none;
  metadata_json = none;
  updated_at = 10;
}

abbrev pub event_row : OutboxEventRow
event_row = record {
  event_type = ingest_document;
  aggregate_id = "job";
  payload_json = [];
  status = OutboxStatus.pending;
  attempt = 0;
  max_attempts = 3;
  next_attempt_at = none;
  locked_at = none;
  last_error = none;
  created_at = 10;
  published_at = none;
}

abbrev pub db : Db
db = record {
  jobs = ("job", lost_job) ∷ [];
  documents = ("doc", document) ∷ [];
  knowledge_bases = ("kb", record { content_revision = 5; updated_at = 10 }) ∷ [];
  outbox = ("event", event_row) ∷ [];
  uuid4 = unary;
  drawn = 1;
}

-- Components that do nothing.
abbrev pub effects : Effects
effects = record {
  run = λ id token db. (succeeded, db);
  resolve = λ id keep token db. (succeeded, db);
  delete_document = λ id db. db;
  supersede_document = λ id db. db;
  rollback_document = λ id db. (true, db);
  try_finalize_delete = λ id db. db;
  delete_job_staging = λ id db. db;
  run_crawl = λ id db. (done, db);
}
