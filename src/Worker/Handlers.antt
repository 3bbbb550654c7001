-- ===== src/Worker/Handlers.antt =====
-- app/workers/handlers.py: the handlers of the commands. The ingest pipeline, the compensator and
-- the blob store are what they call; a handler takes what those do as an argument.
use trustguard_rag.Prelude.{
  ℕ, Bool, true, false, not, ◌&&◌, ◌||◌, Option, none, some, [], ◌∷◌, String, str_eq, option_eq,
  if◌then◌else◌,
}
use trustguard_rag.Domain.{
  DocumentStatus, CleanupAction, ingest_claimable_statuses, resolve_claimable_statuses,
}
use trustguard_rag.Prelude.Text.{strip}
use trustguard_rag.Store.Table
use trustguard_rag.Store.Values.{Dict, get, truthy, str, str_or}
use trustguard_rag.Store.Rows.{
  Db, Settings, add_outbox_event, cleanup_payload, ingest_document, reviewed_ingest_document,
  cleanup_document, cleanup_job_staging, resolve_conflict, run_crawler,
}
use trustguard_rag.Jobs.Claim.{ClaimResult, claim}
use trustguard_rag.Worker.Messages.{CommandMessage}

-- How a handler ends: it returns, or raises `BusyCommandError`, `RetryableCommandError` or another
-- exception.
pub data Outcome : Type 0 where
  done busy retryable failed : Outcome

-- `PipelineResult`, and the `LeaseLostError` and other exceptions of a run of the pipeline.
pub data PipelineEnd : Type 0 where
  missing succeeded deduplicated conflict retrying failed discarded : PipelineEnd
  lease_lost raised : PipelineEnd

-- What the components that a handler calls do to the database. `staging` are the jobs whose staged
-- files the blob store has been told to delete, and `run_crawl` stands for the crawler's handler.
pub record Effects : Type 0 where
  pub run : String → String → Db → PipelineEnd × Db
  pub resolve : String → String → String → Db → PipelineEnd × Db
  pub delete_document : String → Db → Db
  pub supersede_document : String → Db → Db
  pub rollback_document : String → Db → Bool × Db
  pub try_finalize_delete : String → Db → Db
  pub delete_job_staging : String → Db → Db
  pub run_crawl : String → Db → Outcome × Db

-- The cleanup that `_claim_job` queues for one document of an exhausted job.
unfoldable pub requeue_cleanup : ℕ → Option String → Db → Db
requeue_cleanup now none db = db
requeue_cleanup now (some document_id) db = elim (Table.lookup document_id db.documents) [
  | none ↦ db
  | some doc ↦ elim doc.status [
    | DocumentStatus.failed ↦
        (add_outbox_event now cleanup_document document_id
          (cleanup_payload document_id CleanupAction.rollback) db).1
    | _ ↦ db
  ]
]

-- The branch of `_claim_job` for a terminal job.
unfoldable pub after_terminal : Effects → ℕ → String → Db → Db
after_terminal effects now job_id db = elim (Table.lookup job_id db.jobs) [
  | none ↦ db
  | some job ↦
      if option_eq job.error_code (some "MAX_ATTEMPTS_EXCEEDED")
      then (let cleared = effects.delete_job_staging job_id db in
          let first = requeue_cleanup now job.document_id cleared in
          if option_eq job.document_id job.pending_document_id
          then first
          else requeue_cleanup now job.pending_document_id first)
      else db
]

-- How `_handle_ingest` and `_handle_resolve` end after the pipeline.
abbrev pub outcome_of : PipelineEnd → Outcome
outcome_of retrying = retryable
outcome_of raised = Outcome.failed
outcome_of _ = done

-- What a claim's result leads to; `work` is the pipeline under the lease's token.
unfoldable pub after_claim :
    Effects → ℕ → String → (String → Db → PipelineEnd × Db) → ClaimResult × Db → Outcome × Db
after_claim effects now job_id work (ClaimResult.busy, db) = (Outcome.busy, db)
after_claim effects now job_id work (ClaimResult.terminal, db) =
    (done, after_terminal effects now job_id db)
after_claim effects now job_id work (ClaimResult.lease l, db) =
    let (result, db') = work l.token db in (outcome_of result, db')

-- `str(command.payload.get(key) or command.aggregate_id)`.
abbrev pub subject : String → CommandMessage → String
subject key command = str_or (get key command.payload) command.aggregate_id

-- `_handle_ingest`.
unfoldable pub handle_ingest : Effects → Settings → ℕ → String → CommandMessage → Db → Outcome × Db
handle_ingest effects s now owner command db =
    let job_id = subject "job_id" command in
    after_claim effects now job_id (effects.run job_id)
      (claim s now job_id ingest_claimable_statuses owner db)

-- `command.payload[key]`: a key that is absent is an exception.
abbrev pub has_key : String → Dict → Bool
has_key k [] = false
has_key k ((j, v) ∷ d) = if str_eq j k then true else has_key k d

-- `_handle_resolve`.
unfoldable pub handle_resolve : Effects → Settings → ℕ → String → CommandMessage → Db → Outcome × Db
handle_resolve effects s now owner command db =
    let job_id = subject "job_id" command in
    let keep = str (get "keep_document_id" command.payload) in
    if has_key "keep_document_id" command.payload
    then after_claim effects now job_id (effects.resolve job_id keep)
        (claim s now job_id resolve_claimable_statuses owner db)
    else (Outcome.failed, db)

-- `CleanupAction(command.payload.get("action") or CleanupAction.DELETE)`; `none` is a `ValueError`.
unfoldable pub action_of : String → Option CleanupAction
action_of s =
    if str_eq s "delete"
    then some CleanupAction.delete
    else if str_eq s "rollback"
    then some CleanupAction.rollback
    else if str_eq s "supersede"
    then some CleanupAction.supersede
    else none

-- `try_finalize_delete`, if the command deletes a whole knowledge base.
unfoldable pub finalize : Effects → Bool → String → Db → Db
finalize effects cascade knowledge_base_id db =
    if cascade && not (str_eq knowledge_base_id "")
    then effects.try_finalize_delete knowledge_base_id db
    else db

-- The three actions on a document that is there, each only in the status that asks for it.
unfoldable pub clean_up :
    Effects → CleanupAction → String → Bool → String → DocumentStatus → Db → Outcome × Db
clean_up effects CleanupAction.delete id cascade kb DocumentStatus.deleting db =
    (done, finalize effects cascade kb (effects.delete_document id db))
clean_up effects CleanupAction.supersede id cascade kb DocumentStatus.superseding db =
    (done, effects.supersede_document id db)
clean_up effects CleanupAction.rollback id cascade kb DocumentStatus.failed db =
    let (complete, db') = effects.rollback_document id db in
    (if complete then done else retryable, db')
clean_up effects _ id cascade kb _ db = (done, db)

-- `_handle_cleanup`.
unfoldable pub handle_cleanup : Effects → CommandMessage → Db → Outcome × Db
handle_cleanup effects command db =
    let id = subject "document_id" command in
    let kb = strip (str_or (get "knowledge_base_id" command.payload) "") in
    let cascade = truthy (get "delete_knowledge_base" command.payload) in
    elim (action_of (str_or (get "action" command.payload) "delete")) [
      | none ↦ (Outcome.failed, db)
      | some action ↦ elim (Table.lookup id db.documents) [
        | none ↦ (done, finalize effects cascade kb db)
        | some doc ↦ clean_up effects action id cascade kb doc.status db
      ]
    ]

-- `dispatch_command`.
unfoldable pub dispatch_command :
    Effects → Settings → ℕ → String → CommandMessage → Db → Outcome × Db
dispatch_command effects s now owner command db =
    if str_eq command.event_type ingest_document
      || str_eq command.event_type reviewed_ingest_document
    then handle_ingest effects s now owner command db
    else if str_eq command.event_type resolve_conflict
    then handle_resolve effects s now owner command db
    else if str_eq command.event_type cleanup_document
    then handle_cleanup effects command db
    else if str_eq command.event_type cleanup_job_staging
    then (done, effects.delete_job_staging (subject "job_id" command) db)
    else if str_eq command.event_type run_crawler
    then effects.run_crawl (subject "crawl_job_id" command) db
    else (Outcome.failed, db)
