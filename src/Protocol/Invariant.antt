-- ===== src/Protocol/Invariant.antt =====
-- Every call keeps the rows of the jobs consistent, so every interleaving of calls does.
use trustguard_rag.Prelude.{
  ℕ, ◌≡◌, refl, Option, none, some, List, String, arith, not, ◌&&◌, if_cases, option_cases, if_elim,
  is_some,
}
use trustguard_rag.Domain.{IngestJobStatus, IngestStep, is_running, status_in}
use trustguard_rag.Store.Table
use trustguard_rag.Store.Values.{Dict}
use trustguard_rag.Store.Table.{
  IsUnique, IsUnique-set, IsUnique-add, Rows, Table, Rows-lookup, Rows-set, Rows-add,
  Rows-update_where,
}
use trustguard_rag.Store.Rows.{IngestJobRow, Db, Settings, add_outbox_event}
use trustguard_rag.Jobs.Claim
use trustguard_rag.Jobs.Claim.{
  save_job, fail_document, fail_documents, is_exhausted, claim_row, reclaimable, ClaimResult,
  insert_job, holds_lease,
}
use trustguard_rag.Jobs.Leased
use trustguard_rag.Jobs.Publication
use trustguard_rag.Jobs.Leased.{lease_lost}
use trustguard_rag.Jobs.Publication.{
  increment_content_revision, publishable, is_conflict, in_conflict_set,
}
use trustguard_rag.Jobs.Rows.{
  IsConsistent, new_job-IsConsistent, exhaust_row-IsConsistent, grant_row-IsConsistent,
  renewed_row-IsConsistent, document_row-IsConsistent, logged_row-IsConsistent,
  running_row-IsConsistent, conflict_row-IsConsistent, finished_row-IsConsistent,
  retry_row-IsConsistent, published_row-IsConsistent, resolving_row-IsConsistent,
}
use trustguard_rag.Protocol.{LeasedCall, perform_leased}

-- Every row of the table of jobs is consistent, and their primary keys differ.
pub record IsValid (db : Db) : Type 0 where
  pub rows : Rows IsConsistent db.jobs
  pub unique : IsUnique db.jobs

-- The database that a method leaves is valid.
pub record Leaves {ℓ} {A : Type ℓ} (r : A × Db) : Type 0 where
  pub valid : IsValid r.1

pub left {ℓ} : {A : Type ℓ} {r : A × Db} → IsValid r.1 → Leaves r
left h = record { valid = h }

pub IsValid-jobs : {a b : Db} → a.jobs ≡ b.jobs → IsValid b → IsValid a
IsValid-jobs e h = record { rows = rw e h.rows; unique = rw e h.unique }

pub save_job-IsValid :
    (id : String) (job : IngestJobRow) (db : Db)
    → IsValid db
    → IsConsistent job
    → IsValid (save_job id job db)
unfolding save_job
save_job-IsValid id job db h p = record {
  rows = Rows-set IsConsistent id job db.jobs h.rows p;
  unique = IsUnique-set id job db.jobs h.unique;
}

pub jobs-fail_document :
    (now : ℕ) (d : Option String) (db : Db) → (fail_document now d db).1.jobs ≡ db.jobs
unfolding fail_document add_outbox_event
jobs-fail_document now none db = refl
jobs-fail_document now (some d) db = ground arith

jobs-fail_documents :
    (now : ℕ) (job : IngestJobRow) (db : Db) → (fail_documents now job db).jobs ≡ db.jobs
unfolding fail_documents
jobs-fail_documents now job db = ground (
  arith,
  jobs-fail_document now job.document_id db,
  jobs-fail_document now job.pending_document_id (fail_document now job.document_id db).1,
)

pub IsValid-fail_document :
    (now : ℕ) (d : Option String) (db : Db) → IsValid db → IsValid (fail_document now d db).1
IsValid-fail_document now d db h = IsValid-jobs (jobs-fail_document now d db) h

IsValid-fail_documents :
    (now : ℕ) (job : IngestJobRow) (db : Db) → IsValid db → IsValid (fail_documents now job db)
IsValid-fail_documents now job db h = IsValid-jobs (jobs-fail_documents now job db) h

pub IsValid-add_outbox_event :
    (now : ℕ) (t a : String) (p : Dict) (db : Db)
    → IsValid db
    → IsValid (add_outbox_event now t a p db).1
unfolding add_outbox_event
IsValid-add_outbox_event now t a p db h = record { rows = h.rows; unique = h.unique }

pub IsValid-increment_content_revision :
    (now : ℕ) (k : Option String) (db : Db)
    → IsValid db
    → IsValid (increment_content_revision now k db)
unfolding increment_content_revision
IsValid-increment_content_revision now none db h = h
IsValid-increment_content_revision now (some k) db h =
    if_elim IsValid _ h (record { rows = h.rows; unique = h.unique })

module _ (s : Settings) (now : ℕ) (id : String) (db : Db) (h : IsValid db) where
  found : (job : IngestJobRow) → Table.lookup id db.jobs ≡ some job → IsConsistent job
  found job e = Rows-lookup IsConsistent id job db.jobs h.rows e

  claim_row-IsValid :
      (allowed : List IngestJobStatus) (owner : String) (job : IngestJobRow)
      → IsConsistent job
      → Leaves (claim_row s now id allowed owner job db)
  unfolding claim_row
  claim_row-IsValid allowed owner job c =
      if_cases Leaves (not (status_in job.status allowed) && not (reclaimable now job))
        (λ _. left h)
        λ _.
          if_cases Leaves (is_exhausted job)
            (λ _. left (
              IsValid-fail_documents now job _
                (save_job-IsValid id _ db h (exhaust_row-IsConsistent job c now _))))
            (λ e. left (
              save_job-IsValid id _ _ (record { rows = h.rows; unique = h.unique })
                (grant_row-IsConsistent job c now owner _ _ e)))

  pub claim-IsValid :
      (allowed : List IngestJobStatus) (owner : String)
      → Leaves (Claim.claim s now id allowed owner db)
  unfolding Claim.claim
  claim-IsValid allowed owner =
      option_cases Leaves (Table.lookup id db.jobs) (λ _. left h)
        λ job e. claim_row-IsValid allowed owner job (found job e)

  insert_job-IsValid : (job : IngestJobRow) → IsConsistent job → Leaves (insert_job id job db)
  unfolding insert_job
  insert_job-IsValid job c =
      if_cases Leaves (is_some (Table.lookup id db.jobs)) (λ _. left h)
        λ e. left (record {
          rows = Rows-add IsConsistent id job _ h.rows c;
          unique = IsUnique-add id job _ (ground arith) h.unique;
        })

  pub create-IsValid :
      (t u : String) (o : Option Dict) (st : IngestJobStatus) (k : Option String)
      → Leaves (Claim.create t u o st id k db)
  unfolding Claim.create
  create-IsValid t u o st k = insert_job-IsValid _ (new_job-IsConsistent _ t u o st)

  pub create_ingest_command-IsValid :
      (t u k : String) (o : Option Dict) (e : String)
      → Leaves (Claim.create_ingest_command now id t u k o e db)
  unfolding Claim.create_ingest_command
  create_ingest_command-IsValid t u k o e =
      if_elim Leaves (not (is_some (Table.lookup k db.knowledge_bases))) (left h) (
        if_cases Leaves (is_some (Table.lookup id db.jobs)) (λ _. left h)
          λ new.
            (left (
              IsValid-add_outbox_event now e id _ _ (record {
                rows =
                    Rows-add IsConsistent id _ db.jobs h.rows
                      (new_job-IsConsistent (some k) t u _ _);
                unique = IsUnique-add id _ db.jobs (ground arith) h.unique;
              }))))

  pub heartbeat-IsValid : (token : String) → Leaves (Claim.heartbeat s now id token db)
  unfolding Claim.heartbeat
  heartbeat-IsValid token =
      option_cases Leaves (Table.lookup id db.jobs) (λ _. left h)
        λ job e.
          if_cases Leaves (holds_lease token job)
            (λ held. left (
              save_job-IsValid id _ db h
                (renewed_row-IsConsistent job (found job e) token _ _ held)))
            (λ _. left h)

  guarded_update-IsValid :
      (token : Option String) (change : IngestJobRow → IngestJobRow)
      → ((job : IngestJobRow) → IsConsistent job → IsConsistent (change job))
      → Leaves (Leased.guarded_update id token change db)
  unfolding Leased.guarded_update
  guarded_update-IsValid token change keep =
      option_cases Leaves (Table.lookup id db.jobs) (λ _. left h)
        λ job e.
          if_elim Leaves (lease_lost token job) (left h)
            (left (save_job-IsValid id _ db h (keep job (found job e))))

  guarded_write-IsValid :
      (token : Option String) (change : IngestJobRow → IngestJobRow)
      → ((job : IngestJobRow) → IsConsistent job → IsConsistent (change job))
      → Leaves (Leased.guarded_write id token change db)
  unfolding Leased.guarded_write
  guarded_write-IsValid token change keep =
      option_cases Leaves (Table.lookup id db.jobs)
        (λ _. if_elim Leaves (is_some token) (left h) (left h))
        λ job e.
          if_elim Leaves (lease_lost token job) (left h)
            (left (save_job-IsValid id _ db h (keep job (found job e))))

  mark_retrying-IsValid :
      (c m : String) (st : IngestJobStatus) (token : Option String)
      → Leaves (Leased.mark_retrying now id c m st token db)
  unfolding Leased.mark_retrying
  mark_retrying-IsValid c m st token =
      option_cases Leaves (Table.lookup id db.jobs) (λ _. left h)
        λ job e. if_elim Leaves (not (is_running job.status)) (left h) (
          if_elim Leaves (lease_lost token job) (left h) (
            left
              (save_job-IsValid id _ db h (retry_row-IsConsistent job (found job e) now c m st))))

  pub perform_leased-IsValid :
      (call : LeasedCall) (token : Option String) → IsValid (perform_leased s now call id token db)
  unfolding perform_leased Leased.mark_running Leased.attach_conflict Leased.set_document_id
      Leased.finish
  perform_leased-IsValid (LeasedCall.mark_running step) token =
      (guarded_update-IsValid token _
        λ job c. running_row-IsConsistent job c s now step token).valid
  perform_leased-IsValid (LeasedCall.attach_conflict p cs) token =
      (guarded_update-IsValid token _ λ job c. conflict_row-IsConsistent job c p cs).valid
  perform_leased-IsValid (LeasedCall.set_document_id d) token =
      (guarded_write-IsValid token _ λ job c. document_row-IsConsistent job c d).valid
  perform_leased-IsValid (LeasedCall.mark_retrying c m st) token =
      (mark_retrying-IsValid c m st token).valid
  perform_leased-IsValid (LeasedCall.finish st v) token =
      (guarded_write-IsValid token _ λ job c. finished_row-IsConsistent job c now st v).valid

  pub publish_document-IsValid :
      (d token : String) → Leaves (Publication.publish_document now id d token db)
  unfolding Publication.publish_document Publication.publish_row
  publish_document-IsValid d token =
      option_cases Leaves (Table.lookup id db.jobs) (λ _. left h)
        λ job e. if_elim Leaves (not (holds_lease token job)) (left h) (
          option_cases Leaves (Table.lookup d db.documents) (λ _. left h)
            λ doc _. if_elim Leaves (not (publishable doc.status)) (left h) (
              left (
                save_job-IsValid id _ _
                  (IsValid-increment_content_revision now doc.knowledge_base_id _
                    (record { rows = h.rows; unique = h.unique }))
                  (published_row-IsConsistent job (found job e) now d))))

  pub request_resolution-IsValid :
      (keep : String) → Leaves (Publication.request_resolution now id keep db)
  unfolding Publication.request_resolution
  request_resolution-IsValid keep =
      option_cases Leaves (Table.lookup id db.jobs) (λ _. left h)
        λ job e.
          if_cases Leaves (not (is_conflict job.status && in_conflict_set keep job)) (λ _. left h)
            λ open_. left (
              IsValid-add_outbox_event now _ id _ _ (
                save_job-IsValid id _ db h
                  (resolving_row-IsConsistent job (found job e) keep (ground arith))))

  pub append_step_log-IsValid :
      (step : IngestStep) (st : String) (detail : Option String)
      → Leaves (Leased.append_step_log now id step st detail db)
  unfolding Leased.append_step_log
  append_step_log-IsValid step st detail =
      option_cases Leaves (Table.lookup id db.jobs) (λ _. left h)
        λ job e. left (save_job-IsValid id _ db h (logged_row-IsConsistent job (found job e) _))
