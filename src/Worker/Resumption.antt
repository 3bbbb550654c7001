-- ===== src/Worker/Resumption.antt =====
-- A job that recovery put back is announced by a command, and the command starts it again.
use mathlib.Core.Path.{subst}
use trustguard_rag.Prelude.{
  ℕ, suc, ◌+◌, ◌≡◌, refl, sym, ap, true, false, some, List, [], ◌∷◌, String, arith, if◌then◌else◌,
  if_elim, inl, inr, is_some, Bool-cases,
}
use trustguard_rag.Domain.{
  IngestJobStatus, status_in, ingest_claimable_statuses, resolve_claimable_statuses,
}
use trustguard_rag.Store.Table.{lookup, IsUnique}
use trustguard_rag.Store.Rows.{
  IngestJobRow, Db, Settings, resolve_conflict, reviewed_ingest_document, ingest_document,
}
use trustguard_rag.Store.Values.{Value, text, str, get, truthy, or_empty}
use trustguard_rag.Outbox.Queued.{IsQueued}
use trustguard_rag.Jobs.Claim.{
  is_exhausted, lease, JobLease, claim, claim_row, grant_row, save_job, clear_lease,
}
use trustguard_rag.Jobs.Recovery.{
  released_row, requeued_row, recover_expired_jobs, recovery_event, recovery_payload, is_resolving,
}
use trustguard_rag.Jobs.Recovered.{recovered, is_lost, lookup-recover_expired_jobs}
use trustguard_rag.Worker.Messages.{command_of_event, routing_key}
use trustguard_rag.Worker.RoundTrip.{is_readable}
use trustguard_rag.Worker.Handlers.{
  Effects, PipelineEnd, Outcome, outcome_of, after_claim, handle_ingest, handle_resolve,
  dispatch_command,
}
use trustguard_rag.Jobs.Announced.{announcement, recover_expired_jobs-IsAnnounced}

is_resolving-released_row :
    (now : ℕ) (job : IngestJobRow) → is_resolving (released_row now job) ≡ is_resolving job
unfolding is_resolving released_row clear_lease
is_resolving-released_row now job = refl

-- The lease that the next grant gives.
abbrev pub new_lease : Settings → ℕ → String → String → Db → JobLease
new_lease s now id owner db = record {
  job_id = id;
  token = db.uuid4 db.drawn;
  owner = owner;
  expires_at = now + s.worker_job_lease_seconds;
}

claim_grants :
    (s : Settings) (now : ℕ) (id : String) (allowed : List IngestJobStatus) (owner : String)
    (job : IngestJobRow) (db : Db)
    → lookup id db.jobs ≡ some job
    → status_in job.status allowed ≡ true
    → is_exhausted job ≡ false
    → claim s now id allowed owner db ≡ (
      lease (new_lease s now id owner db),
      save_job id
          (grant_row now owner (db.uuid4 db.drawn) (now + s.worker_job_lease_seconds) job)
          (record db { drawn = suc db.drawn }),
    )
unfolding claim claim_row
claim_grants s now id allowed owner job db f a e = ground arith

requeued_lookup :
    (now : ℕ) (locked : List String) (id : String) (job : IngestJobRow) (db : Db)
    → IsUnique db.jobs
    → lookup id db.jobs ≡ some job
    → is_lost now locked id job ≡ true
    → is_exhausted job ≡ false
    → lookup id (recover_expired_jobs now locked db).1.jobs
      ≡ some (requeued_row (released_row now job))
unfolding recovered
requeued_lookup now locked id job db u f lost e =
    ground (arith, lookup-recover_expired_jobs now locked id job db u f)

requeued_not_exhausted :
    (now : ℕ) (job : IngestJobRow)
    → is_exhausted job ≡ false
    → is_exhausted (requeued_row (released_row now job)) ≡ false
unfolding is_exhausted requeued_row released_row clear_lease
requeued_not_exhausted now job e = e

-- What the command asks the pipeline for.
abbrev pub work_of : Effects → String → IngestJobRow → String → Db → PipelineEnd × Db
work_of effects id job =
    if is_resolving job
    then effects.resolve id (str (get "keep_document_id" (or_empty job.options_json)))
    else effects.run id

-- How a handler ends after the pipeline.
abbrev pub ended : PipelineEnd × Db → Outcome × Db
ended (result, db) = (outcome_of result, db)

-- The database in which a claim has granted a lease of a job.
abbrev pub granted : Settings → ℕ → String → String → IngestJobRow → Db → Db
granted s now id owner job db =
    save_job id (grant_row now owner (db.uuid4 db.drawn) (now + s.worker_job_lease_seconds) job)
      (record db { drawn = suc db.drawn })

ingest_claims : status_in IngestJobStatus.ingest_retrying ingest_claimable_statuses ≡ true
unfolding status_in
ingest_claims = refl

resolve_claims : status_in IngestJobStatus.resolve_retrying resolve_claimable_statuses ≡ true
unfolding status_in
resolve_claims = refl

module _ (effects : Effects) (s : Settings) (now : ℕ) (owner event_id id : String)
    (row : IngestJobRow) (db : Db) (found : lookup id db.jobs ≡ some row)
    (left : is_exhausted row ≡ false) where
  handle_ingest_runs :
      (event_type : String)
      → row.status ≡ IngestJobStatus.ingest_retrying
      → handle_ingest effects s now owner
          (record {
            event_id = event_id;
            event_type = event_type;
            aggregate_id = id;
            payload = ("job_id", text id) ∷ [];
            schema_version = 1;
          })
          db
        ≡ ended (effects.run id (new_lease s now id owner db).token (granted s now id owner row db))
  unfolding handle_ingest get after_claim
  handle_ingest_runs event_type h =
      let allowed : status_in row.status ingest_claimable_statuses ≡ true =
        subst (λ st. status_in st ingest_claimable_statuses ≡ true) (sym h) ingest_claims in
      let base =
        ap (after_claim effects now id (effects.run id))
          (claim_grants s now id ingest_claimable_statuses owner row db found allowed left) in
      if_elim
        (λ j.
          after_claim effects now j (effects.run j)
            (claim s now j ingest_claimable_statuses owner db)
          ≡ ended
              (effects.run id (new_lease s now id owner db).token (granted s now id owner row db)))
        (truthy (text id)) base base

  handle_resolve_runs :
      (event_type : String) (keep : Value)
      → row.status ≡ IngestJobStatus.resolve_retrying
      → handle_resolve effects s now owner
          (record {
            event_id = event_id;
            event_type = event_type;
            aggregate_id = id;
            payload = ("job_id", text id) ∷ ("keep_document_id", keep) ∷ [];
            schema_version = 1;
          })
          db
        ≡ ended (
            effects.resolve id
              (str keep)
              (new_lease s now id owner db).token
              (granted s now id owner row db))
  unfolding handle_resolve get after_claim
  handle_resolve_runs event_type keep h =
      let allowed : status_in row.status resolve_claimable_statuses ≡ true =
        subst (λ st. status_in st resolve_claimable_statuses ≡ true) (sym h) resolve_claims in
      let base =
        ap (after_claim effects now id (effects.resolve id (str keep)))
          (claim_grants s now id resolve_claimable_statuses owner row db found allowed left) in
      if_elim
        (λ j.
          after_claim effects now j (effects.resolve j (str keep))
            (claim s now j resolve_claimable_statuses owner db)
          ≡ ended (
              effects.resolve id (str keep) (new_lease s now id owner db).token
                (granted s now id owner row db)))
        (truthy (text id)) base base

  -- The command reaches the handler that claims a job of the row's status.
  dispatch-announcement :
      (job : IngestJobRow)
      → row.status ≡ (
          if is_resolving job
          then IngestJobStatus.resolve_retrying
          else IngestJobStatus.ingest_retrying)
      → dispatch_command effects s now owner (command_of_event (announcement event_id id job)) db
        ≡ ended (
            work_of effects id job
              (new_lease s now id owner db).token
              (granted s now id owner row db))
  unfolding dispatch_command command_of_event recovery_event recovery_payload
  dispatch-announcement job h = elim (Bool-cases (is_resolving job)) [
    | inl e ↦
        rw (e, dispatch_command)
          (handle_resolve_runs resolve_conflict (get "keep_document_id" (or_empty job.options_json))
            (rw e at h))
    | inr e ↦ elim (Bool-cases (truthy (get "review_approved" (or_empty job.options_json)))) [
      | inl r ↦
          rw (e, r, dispatch_command) (handle_ingest_runs reviewed_ingest_document (rw e at h))
      | inr r ↦ rw (e, r, dispatch_command) (handle_ingest_runs ingest_document (rw e at h))
    ]
  ]

-- The command is read from the message that the relay sends.
announcement-readable :
    (event_id id : String) (job : IngestJobRow)
    → is_readable (command_of_event (announcement event_id id job)) ≡ true
unfolding command_of_event recovery_event routing_key
announcement-readable event_id id job =
    if_elim (λ t. is_some (routing_key t) ≡ true) (is_resolving job) refl
      (if_elim (λ t. is_some (routing_key t) ≡ true)
        (truthy (get "review_approved" (or_empty job.options_json))) refl refl)

-- A job whose worker has crashed is taken up again, where no two jobs share an id. If the lease of a
-- job has run out, no other session holds the job's row and the job has attempts left, then the
-- outbox that the recovery leaves has a command of the job in a row that a relay may claim at any
-- time; the message of the command is one that a worker reads; and a worker that handles it at any
-- time in the database that the recovery leaves runs the pipeline on the job under a lease that it
-- has been granted: it resolves the conflict that the row names, where the row names one, and else
-- ingests.
pub recovered_job_resumes :
    (effects : Effects) (s : Settings) (now later : ℕ) (locked : List String) (id owner : String)
    (job : IngestJobRow) (db : Db)
    → IsUnique db.jobs
    → lookup id db.jobs ≡ some job
    → is_lost now locked id job ≡ true
    → is_exhausted job ≡ false
    → let db' = (recover_expired_jobs now locked db).1 in
      let row = requeued_row (released_row now job) in
      (event_id : String) × IsQueued (announcement event_id id job) db'.outbox
      × (is_readable (command_of_event (announcement event_id id job)) ≡ true)
      × (dispatch_command effects s later owner
            (command_of_event (announcement event_id id job))
            db'
          ≡ ended (
              work_of effects id job
                (new_lease s later id owner db').token
                (granted s later id owner row db')))
recovered_job_resumes effects s now later locked id owner job db u f lost e =
    let db' = (recover_expired_jobs now locked db).1 in
    let (event_id, waits) = recover_expired_jobs-IsAnnounced now locked id job db u f lost e in
    (
      event_id,
      waits,
      announcement-readable event_id id job,
      dispatch-announcement effects s later owner event_id id (requeued_row (released_row now job))
          db' (requeued_lookup now locked id job db u f lost e) (requeued_not_exhausted now job e)
          job (unfold requeued_row in rw is_resolving-released_row refl),
    )
