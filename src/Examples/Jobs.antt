-- ===== src/Examples/Jobs.antt =====
-- The theorems on jobs, documents and the outbox at the example database.
use mathlib.Core.Option
use mathlib.Core.Bool.{decide}
use trustguard_rag.Prelude.{
  ℕ, ◌+◌, ◌≤◌, ◌≡◌, refl, Bool, true, false, Option, none, some, List, [], ◌∷◌, String, arith, All,
  contains, leb, ltb, ◌&&◌, ◌⊎◌, length, if◌then◌else◌,
}
use trustguard_rag.Domain.{
  status_eq, IngestJobStatus-discrete, DocumentStatus, CleanupAction, is_ready, status_in,
  ingest_claimable_statuses,
}
use trustguard_rag.Store.Table
use trustguard_rag.Store.Table.{Rows, IsUnique}
use trustguard_rag.Store.Values.{Dict, get}
use trustguard_rag.Store.Rows.{
  DocumentRow, OutboxEvent, OutboxEventRow, Db, err, ok, lease_lost_error, cleanup_document,
  cleanup_payload, add_outbox_event,
}
use trustguard_rag.Jobs.Claim
use trustguard_rag.Jobs.Claim.{
  JobLease, lease, holds_lease, claim, claim_row, reclaimable, is_exhausted, grant_row, save_job,
}
use trustguard_rag.Jobs.Publication
use trustguard_rag.Jobs.Recovery.{
  recover_expired_jobs, recover_jobs, recover_job, released_row, requeued_row, is_resolving,
}
use trustguard_rag.Jobs.Recovered.{recovered, is_lost, lookup-recover_expired_jobs}
use trustguard_rag.Jobs.Rows.{IsConsistent}
use trustguard_rag.Documents.{
  cancel_jobs, save_document, request_delete, delete_row, update_status, bool_eq,
}
use trustguard_rag.Documents.Deletion.{
  deletion_is_final, IsReleased, revision, bump, revision_counts_changes,
}
use trustguard_rag.Outbox.{
  claimed_row, events_of, keys, batch, claim_batch, is_claimable, marked_failed, marked_published,
  backoff,
}
use trustguard_rag.Outbox.Order.{is_no_later, claim_batch_takes_oldest}
use trustguard_rag.Prelude.First.{Has}
use trustguard_rag.Outbox.Relay.{claim_batch_exclusive, retry_schedule}
use trustguard_rag.Protocol.{Call, LeasedCall, perform_leased, perform, run}
use trustguard_rag.Protocol.Invariant.{IsValid}
use trustguard_rag.Protocol.Runs.{run-IsValid}
use trustguard_rag.Protocol.Fencing.{fenced}
use trustguard_rag.Outbox.Queued.{IsQueued}
use trustguard_rag.Jobs.Announced.{announcement}
use trustguard_rag.Worker.Messages.{command_of_event}
use trustguard_rag.Worker.RoundTrip.{is_readable}
use trustguard_rag.Worker.Handlers.{dispatch_command}
use trustguard_rag.Worker.Resumption.{recovered_job_resumes, ended, work_of, granted, new_lease}
use trustguard_rag.Examples.Data.{
  effects, unary_injective, settings, lost_job, document, event_row, db,
}

lost_job-IsConsistent : IsConsistent lost_job
lost_job-IsConsistent = ground arith

db-IsUnique : IsUnique db.jobs
unfolding Table.lookup
db-IsUnique = (refl, tt)

found : Table.lookup "job" db.jobs ≡ some lost_job
unfolding Table.lookup
found = refl

abbrev calls : List (ℕ × Call)
calls = (200, Call.recover_expired_jobs []) ∷ (201, Call.request_delete "doc") ∷ []

run-IsValid_example : IsValid (run settings calls db)
run-IsValid_example =
    run-IsValid settings calls db
      (record { rows = (lost_job-IsConsistent, tt); unique = db-IsUnique })

lost : is_lost 200 [] "job" lost_job ≡ true
unfolding reclaimable
lost = refl

retried : is_exhausted lost_job ≡ false
unfolding is_exhausted
retried = refl

lookup-recover_expired_jobs_example :
    Table.lookup "job" (recover_expired_jobs 200 [] db).1.jobs ≡ some (recovered 200 lost_job)
unfolding recovered reclaimable
lookup-recover_expired_jobs_example =
    lookup-recover_expired_jobs 200 [] "job" lost_job db db-IsUnique found

abbrev after_recovery : Db
after_recovery = (recover_expired_jobs 200 [] db).1

recovered_job_resumes_example :
    (event_id : String) × IsQueued (announcement event_id "job" lost_job) after_recovery.outbox
    × (is_readable (command_of_event (announcement event_id "job" lost_job)) ≡ true)
    × (dispatch_command effects settings 205 "w2"
          (command_of_event (announcement event_id "job" lost_job))
          after_recovery
        ≡ ended (
            work_of effects "job" lost_job
              (new_lease settings 205 "job" "w2" after_recovery).token
              (granted settings 205 "job" "w2"
                (requeued_row (released_row 200 lost_job))
                after_recovery)))
recovered_job_resumes_example =
    recovered_job_resumes effects settings 200 205 [] "job" "w2" lost_job db db-IsUnique found lost
      retried

-- The job's lease passes from the second worker to a third.
abbrev first : JobLease
first = new_lease settings 150 "job" "w2" db

abbrev db₁ : Db
db₁ = (claim settings 150 "job" ingest_claimable_statuses "w2" db).1

abbrev between : List (ℕ × Call)
between = (250, Call.recover_expired_jobs []) ∷ []

abbrev second : JobLease
second = new_lease settings 300 "job" "w3" (run settings between db₁)

abbrev db₂ : Db
db₂ = (claim settings 300 "job" ingest_claimable_statuses "w3" (run settings between db₁)).1

first-claim : claim settings 150 "job" ingest_claimable_statuses "w2" db ≡ (lease first, db₁)
unfolding claim claim_row Table.lookup status_in reclaimable is_exhausted status_eq
    IngestJobStatus-discrete decide
first-claim = refl

second-claim :
    claim settings 300 "job" ingest_claimable_statuses "w3" (run settings between db₁)
    ≡ (lease second, db₂)
unfolding claim claim_row Table.lookup status_in reclaimable is_exhausted status_eq
    IngestJobStatus-discrete decide run perform recover_expired_jobs recover_jobs recover_job
    Table.select_where save_job grant_row Table.set add_outbox_event requeued_row released_row
    is_resolving get
second-claim = refl

fenced_example :
    ((call : LeasedCall) → perform_leased settings 310 call "job" (some first.token) db₂ ≡ db₂)
    × (Claim.heartbeat settings 310 "job" first.token db₂ ≡ (false, db₂))
    × ((d : String)
        → Publication.publish_document 310 "job" d first.token db₂ ≡ (err lease_lost_error, db₂))
fenced_example =
    fenced settings db db₁ db₂ first second 150 300 "job" ingest_claimable_statuses
      ingest_claimable_statuses "w2" "w3" between unary_injective first-claim second-claim 310

-- The deletion of the document.
abbrev deleted_event : OutboxEvent
deleted_event = record {
  id = db.uuid4 1;
  event_type = cleanup_document;
  aggregate_id = "doc";
  payload = cleanup_payload "doc" CleanupAction.delete;
}

abbrev after_deletion : Db
after_deletion = (request_delete 300 "doc" db).1

deletion : request_delete 300 "doc" db ≡ (ok deleted_event, after_deletion)
unfolding request_delete delete_row add_outbox_event Table.lookup cancel_jobs
    Publication.increment_content_revision save_document
deletion = refl

deletion_is_final_example :
    (Option.map (λ (doc : DocumentRow). doc.status) (Table.lookup "doc" after_deletion.documents)
      ≡ some DocumentStatus.deleting)
    × Rows (IsReleased "doc") after_deletion.jobs
    × (deleted_event.event_type ≡ cleanup_document)
    × (deleted_event.payload ≡ cleanup_payload "doc" CleanupAction.delete)
    × IsQueued deleted_event after_deletion.outbox
    × ((later : ℕ) (job_id token : String)
        → Publication.publish_document later job_id "doc" token after_deletion
          ≡ (err lease_lost_error, after_deletion))
deletion_is_final_example = deletion_is_final 300 "doc" deleted_event db after_deletion deletion

found_document : Table.lookup "doc" db.documents ≡ some document
unfolding Table.lookup
found_document = refl

revision_counts_changes_example :
    ((status : DocumentStatus) (path : Option String) (metadata : Option Dict)
      → revision "kb" (update_status 300 "doc" status path metadata db)
        ≡ bump (bool_eq true (is_ready status)) (revision "kb" db))
    × (revision "kb" after_deletion ≡ bump false (revision "kb" db))
revision_counts_changes_example =
    revision_counts_changes 300 "doc" "kb" document db found_document refl refl

abbrev any_order : String → String → Bool
any_order a b = true

claim_batch_exclusive_example :
    All
      (λ (e : OutboxEvent). contains e.id (keys (batch any_order settings 20 none [] db)) ≡ false)
      (claim_batch any_order settings 50
        (some 5)
        []
        (claim_batch any_order settings 20 none [] db).1).0
claim_batch_exclusive_example =
    claim_batch_exclusive any_order settings 20 50 none (some 5) [] [] db (omega arith)

event_found : Table.lookup "event" db.outbox ≡ some event_row
unfolding Table.lookup
event_found = refl

event_due : is_claimable settings 20 event_row ≡ true
unfolding is_claimable
event_due = refl

claim_batch_takes_oldest_example :
    (Has ("event", event_row) (batch any_order settings 20 none [] db)
      ⊎ (length (batch any_order settings 20 none [] db) ≡ 10)
        × All
            (λ e. is_no_later any_order e ("event", event_row) ≡ true)
            (batch any_order settings 20 none [] db))
    × (length (batch any_order settings 20 none [] db) ≤ 10)
    × All
        (λ (e : String × OutboxEventRow). is_claimable settings 20 e.1 ≡ true)
        (batch any_order settings 20 none [] db)
    × ((claim_batch any_order settings 20 none [] db).0
        ≡ events_of (batch any_order settings 20 none [] db))
    × ((k : String)
        → Table.lookup k (claim_batch any_order settings 20 none [] db).1.outbox
          ≡ Option.map
              (λ r.
                if contains k (keys (batch any_order settings 20 none [] db))
                then claimed_row 20 r
                else r)
              (Table.lookup k db.outbox))
claim_batch_takes_oldest_example =
    claim_batch_takes_oldest any_order (λ i j e. refl) (λ i j k e f. refl) settings 20 none [] db
      "event" event_row event_found event_due refl

retry_schedule_example :
    (is_claimable settings 105 (marked_failed 100 "refused" event_row)
      ≡ (ltb 1 3 && leb (100 + backoff 1) 105))
    × ((2 ≤ backoff 1) × (backoff 1 ≤ 60))
    × (is_claimable settings 105 (marked_published 100 event_row) ≡ false)
retry_schedule_example = retry_schedule settings 100 105 "refused" event_row
