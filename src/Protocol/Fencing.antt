-- ===== src/Protocol/Fencing.antt =====
-- A worker whose lease was taken over can write nothing.
use trustguard_rag.Prelude.{
  ℕ, suc, ◌+◌, ◌≤◌, ◌≡◌, ◌≢◌, ap, false, none, some, List, String, arith, eq_iff, Option-cases, inl,
  inr,
}
use trustguard_rag.Domain.{IngestJobStatus}
use trustguard_rag.Store.Table
use trustguard_rag.Store.Table.{lookup-set}
use trustguard_rag.Store.Rows.{IngestJobRow, Db, Settings, err, lease_lost_error}
use trustguard_rag.Jobs.Claim
use trustguard_rag.Jobs.Claim.{
  save_job, claim_row, grant_row, holds_lease, JobLease, lease, reclaimable, is_exhausted,
}
use trustguard_rag.Jobs.Leased
use trustguard_rag.Jobs.Publication
use trustguard_rag.Jobs.Leased.{lease_lost}
use trustguard_rag.Protocol.{Call, LeasedCall, perform_leased, run}
use trustguard_rag.Protocol.Draws.{run-Draws}

-- The caller with this token does not hold the job's lease.
abbrev pub NotHeld : String → String → Db → Type 0
NotHeld id token db =
    (job : IngestJobRow) → Table.lookup id db.jobs ≡ some job → holds_lease token job ≡ false

module _ (s : Settings) (now : ℕ) (id token : String) (db : Db) where
  missing_job :
      (call : LeasedCall)
      → Table.lookup id db.jobs ≡ none
      → perform_leased s now call id (some token) db ≡ db
  unfolding perform_leased Leased.mark_running Leased.attach_conflict Leased.set_document_id
      Leased.finish Leased.guarded_update Leased.guarded_write Leased.mark_retrying
  missing_job (LeasedCall.mark_running step) e = ground arith
  missing_job call e = ground arith

  refused_call :
      (call : LeasedCall) {job : IngestJobRow}
      → Table.lookup id db.jobs ≡ some job
      → holds_lease token job ≡ false
      → perform_leased s now call id (some token) db ≡ db
  unfolding perform_leased Leased.mark_running Leased.attach_conflict Leased.set_document_id
      Leased.finish Leased.guarded_update Leased.guarded_write Leased.mark_retrying lease_lost
  refused_call (LeasedCall.mark_running step) e h = ground arith
  refused_call call e h = ground arith

  stale_call :
      NotHeld id token db → (call : LeasedCall) → perform_leased s now call id (some token) db ≡ db
  stale_call h call = elim (Option-cases (Table.lookup id db.jobs)) [
    | inl e ↦ missing_job call e
    | inr (job, e) ↦ refused_call call e (h job e)
  ]

  stale_heartbeat : NotHeld id token db → Claim.heartbeat s now id token db ≡ (false, db)
  unfolding Claim.heartbeat
  stale_heartbeat h = elim (Option-cases (Table.lookup id db.jobs)) [
    | inl e ↦ ground arith
    | inr (job, e) ↦ ground (arith, h job e)
  ]

  stale_publish :
      (d : String)
      → NotHeld id token db
      → Publication.publish_document now id d token db ≡ (err lease_lost_error, db)
  unfolding Publication.publish_document
  stale_publish d h = elim (Option-cases (Table.lookup id db.jobs)) [
    | inl e ↦ ground arith
    | inr (job, e) ↦ ground (arith, h job e)
  ]

  -- Every write of a job that a caller makes under a lease which it does not hold leaves the whole
  -- database as it was: the five guarded methods, a heartbeat, which also answers `false`, and the
  -- publication of a document, which raises `LeaseLostError`.
  stale_lease_writes_nothing :
      NotHeld id token db
      → ((call : LeasedCall) → perform_leased s now call id (some token) db ≡ db)
        × (Claim.heartbeat s now id token db ≡ (false, db))
        × ((d : String)
            → Publication.publish_document now id d token db ≡ (err lease_lost_error, db))
  stale_lease_writes_nothing h = (stale_call h, stale_heartbeat h, λ d. stale_publish d h)

-- What a claim that returns a lease has seen and done.
pub record Granted (s : Settings) (now : ℕ) (id owner : String) (db : Db) (l : JobLease) (db' : Db)
    : Type 0 where
  pub job : IngestJobRow
  pub found : Table.lookup id db.jobs ≡ some job
  pub token : l.token ≡ db.uuid4 db.drawn
  pub result :
      db'
      ≡ save_job id
          (grant_row now owner l.token (now + s.worker_job_lease_seconds) job)
          (record db { drawn = suc db.drawn })

granted :
    (s : Settings) (now : ℕ) (id : String) (allowed : List IngestJobStatus) (owner : String)
    (db : Db) (l : JobLease) (db' : Db)
    → Claim.claim s now id allowed owner db ≡ (lease l, db')
    → Granted s now id owner db l db'
unfolding Claim.claim claim_row
granted s now id allowed owner db l db' h = elim (Option-cases (Table.lookup id db.jobs)) [
  | inl e ↦ ground arith
  | inr (job, e) ↦ record { job = job; found = e; token = ground arith; result = ground arith }
]

held_after_grant :
    (now : ℕ) (id owner token : String) (t : ℕ) (job : IngestJobRow) (db : Db)
    → Table.lookup id db.jobs ≡ some job
    → Table.lookup id (save_job id (grant_row now owner token t job) db).jobs
      ≡ some (grant_row now owner token t job)
unfolding save_job
held_after_grant now id owner token t job db e =
    ground (arith, lookup-set id id (grant_row now owner token t job) db.jobs, eq_iff id id)

other_token :
    (now : ℕ) (owner mine theirs : String) (t : ℕ) (job : IngestJobRow)
    → theirs ≢ mine
    → holds_lease mine (grant_row now owner theirs t job) ≡ false
unfolding holds_lease grant_row
other_token now owner mine theirs t job ne = ground (arith, eq_iff theirs mine)

NotHeld-after :
    (s : Settings) (now : ℕ) (id owner mine : String) (db : Db) (l : JobLease) (db' : Db)
    → Granted s now id owner db l db'
    → l.token ≢ mine
    → NotHeld id mine db'
NotHeld-after s now id owner mine db l db' g ne job e =
    let t = now + s.worker_job_lease_seconds in
    cc (
      e,
      g.result,
      held_after_grant now id owner l.token t g.job (record db { drawn = suc db.drawn }) g.found,
      other_token now owner mine l.token t g.job ne,
    )

-- The state of the draws after a grant.
Granted-uuid4 :
    (s : Settings) (now : ℕ) (id owner : String) (db : Db) (l : JobLease) (db' : Db)
    → Granted s now id owner db l db'
    → (db'.uuid4 ≡ db.uuid4) × (db'.drawn ≡ suc db.drawn)
unfolding save_job
Granted-uuid4 s now id owner db l db' g =
    (ap (λ (d : Db). d.uuid4) g.result, ap (λ (d : Db). d.drawn) g.result)

token_differs :
    (s : Settings) (now₁ now₂ : ℕ) (id owner₁ owner₂ : String) (calls : List (ℕ × Call))
    (db db₁ db₂ : Db) (l₁ l₂ : JobLease)
    → ((m n : ℕ) → db.uuid4 m ≡ db.uuid4 n → m ≡ n)
    → Granted s now₁ id owner₁ db l₁ db₁
    → Granted s now₂ id owner₂ (run s calls db₁) l₂ db₂
    → l₂.token ≢ l₁.token
token_differs s now₁ now₂ id owner₁ owner₂ calls db db₁ db₂ l₁ l₂ inj g₁ g₂ same =
    let last = run s calls db₁ in
    let after = Granted-uuid4 s now₁ id owner₁ db l₁ db₁ g₁ in
    let later = run-Draws s calls db₁ in
    let reused : db.uuid4 last.drawn ≡ db.uuid4 db.drawn =
      cc (same, g₁.token, g₂.token, after.0, later.source) in
    let again : last.drawn ≡ db.drawn = inj _ _ reused in
    let grown : db₁.drawn ≤ last.drawn = later.count in omega (arith, again, grown, after.1)

-- Fencing. `uuid4` is taken to repeat no value. If a worker was granted a lease of a job, and later,
-- after any run of calls, another claim of the job was granted, then the first worker can write
-- nothing: no guarded method, heartbeat or publication with its token changes the database.
pub fenced :
    (s : Settings) (db db₁ db₂ : Db) (l₁ l₂ : JobLease) (now₁ now₂ : ℕ) (id : String)
    (allowed₁ allowed₂ : List IngestJobStatus) (owner₁ owner₂ : String) (calls : List (ℕ × Call))
    → ((m n : ℕ) → db.uuid4 m ≡ db.uuid4 n → m ≡ n)
    → Claim.claim s now₁ id allowed₁ owner₁ db ≡ (lease l₁, db₁)
    → Claim.claim s now₂ id allowed₂ owner₂ (run s calls db₁) ≡ (lease l₂, db₂)
    → (now : ℕ)
    → ((call : LeasedCall) → perform_leased s now call id (some l₁.token) db₂ ≡ db₂)
      × (Claim.heartbeat s now id l₁.token db₂ ≡ (false, db₂))
      × ((d : String)
          → Publication.publish_document now id d l₁.token db₂ ≡ (err lease_lost_error, db₂))
fenced s db db₁ db₂ l₁ l₂ now₁ now₂ id allowed₁ allowed₂ owner₁ owner₂ calls inj c₁ c₂ now =
    let g₁ = granted s now₁ id allowed₁ owner₁ db l₁ db₁ c₁ in
    let g₂ = granted s now₂ id allowed₂ owner₂ (run s calls db₁) l₂ db₂ c₂ in
    stale_lease_writes_nothing s now id l₁.token db₂ (
      NotHeld-after s now₂ id owner₂ l₁.token (run s calls db₁) l₂ db₂ g₂
        (token_differs s now₁ now₂ id owner₁ owner₂ calls db db₁ db₂ l₁ l₂ inj g₁ g₂))
