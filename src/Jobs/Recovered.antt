-- ===== src/Jobs/Recovered.antt =====
-- What `recover_expired_jobs` leaves behind.
use trustguard_rag.Prelude.{
  ℕ, ◌≡◌, ◌∙◌, refl, ap, Bool, not, ◌&&◌, none, some, List, [], ◌∷◌, String, arith, eq_iff, str_eq,
  contains, if◌then◌else◌, inl, inr, is_some, Bool-cases,
}
use trustguard_rag.Store.Table
use trustguard_rag.Store.Table.{
  Table, lookup, lookup-set, lookup-cons, IsUnique, lookup-select_where, IsUnique-select_where,
}
use trustguard_rag.Store.Rows.{IngestJobRow, Db, add_outbox_event}
use trustguard_rag.Jobs.Claim.{save_job, fail_document, reclaimable, is_exhausted, exhaust_row}
use trustguard_rag.Jobs.Recovery.{
  released_row, requeued_row, recover_job, recover_jobs, recover_expired_jobs,
}

-- The row that recovery makes of an expired job's.
unfoldable pub recovered : ℕ → IngestJobRow → IngestJobRow
recovered now job =
    if is_exhausted job
    then exhaust_row now "Worker crashed and retry limit was exceeded" (released_row now job)
    else requeued_row (released_row now job)

jobs-recover_job :
    (now : ℕ) (id : String) (job : IngestJobRow) (db : Db)
    → (recover_job now id job db).1.jobs ≡ Table.set id (recovered now job) db.jobs
unfolding recover_job recovered fail_document add_outbox_event save_job
jobs-recover_job now id job db = ground arith

lookup-recover_job :
    (now : ℕ) (k id : String) (job : IngestJobRow) (db : Db)
    → lookup k (recover_job now id job db).1.jobs ≡ (
        if str_eq id k
        then (if is_some (lookup id db.jobs) then some (recovered now job) else none)
        else lookup k db.jobs)
lookup-recover_job now k id job db =
    ap (lookup k) (jobs-recover_job now id job db) ∙ lookup-set id k (recovered now job) db.jobs

-- A job that is not among the rows keeps its row.
lookup-recover_jobs-none :
    (now : ℕ) (k : String) (rows : Table IngestJobRow) (db : Db)
    → lookup k rows ≡ none
    → lookup k (recover_jobs now rows db).1.jobs ≡ lookup k db.jobs
unfolding recover_jobs
lookup-recover_jobs-none now k [] db e = refl
lookup-recover_jobs-none now k ((id, job) ∷ rest) db e = ground (
  arith,
  lookup-cons k id job rest,
  lookup-recover_job now k id job db,
  lookup-recover_jobs-none now k rest (recover_job now id job db).1,
)

lookup-recover_jobs :
    (now : ℕ) (k : String) (job old : IngestJobRow) (rows : Table IngestJobRow) (db : Db)
    → IsUnique rows
    → lookup k rows ≡ some job
    → lookup k db.jobs ≡ some old
    → lookup k (recover_jobs now rows db).1.jobs ≡ some (recovered now job)
unfolding recover_jobs
lookup-recover_jobs now k job old [] db u e f = unfold lookup in cc
lookup-recover_jobs now k job old ((id, j) ∷ rest) db u e f = elim (Bool-cases (str_eq id k)) [
  | inl same ↦ ground (
    arith,
    eq_iff id k,
    lookup-cons k id j rest,
    lookup-recover_job now k id j db,
    lookup-recover_jobs-none now k rest (recover_job now id j db).1,
    u.0,
  )
  | inr other ↦ ground (
    arith,
    lookup-cons k id j rest,
    lookup-recover_job now k id j db,
    lookup-recover_jobs now k job old rest (recover_job now id j db).1 u.1,
  )
]

-- Whether recovery takes the job up: its lease has run out, and no other session holds its row.
abbrev pub is_lost : ℕ → List String → String → IngestJobRow → Bool
is_lost now locked id job = reclaimable now job && not (contains id locked)

-- Recovery, job by job, where no two jobs share an id: a job whose lease has run out and whose row no
-- other session holds becomes `recovered`, and every other job, those under a live lease among them,
-- keeps its row.
pub lookup-recover_expired_jobs :
    (now : ℕ) (locked : List String) (id : String) (job : IngestJobRow) (db : Db)
    → IsUnique db.jobs
    → lookup id db.jobs ≡ some job
    → lookup id (recover_expired_jobs now locked db).1.jobs
      ≡ some (if is_lost now locked id job then recovered now job else job)
unfolding recover_expired_jobs
lookup-recover_expired_jobs now locked id job db u e =
    let lost = λ (i : String) (j : IngestJobRow). is_lost now locked i j in
    let rows = Table.select_where lost db.jobs in
    let found = lookup-select_where lost id job db.jobs u e in
    elim (Bool-cases (is_lost now locked id job)) [
      | inl yes_ ↦ ground (
        arith,
        found,
        lookup-recover_jobs now id job job rows db (IsUnique-select_where lost db.jobs u),
      )
      | inr no_ ↦ ground (arith, found, lookup-recover_jobs-none now id rows db)
    ]
