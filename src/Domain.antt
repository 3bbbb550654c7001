-- ===== src/Domain.antt =====
-- The enumerations of app/domain/ingest.py, document.py and worker.py.
use mathlib.Core.Bool.{decide}
use trustguard_rag.Prelude.{Bool, true, false, List, [], ◌∷◌, if◌then◌else◌}

-- `IngestJobStatus`.
pub data IngestJobStatus : Type 0 where
  queued running conflict resolving ingest_retrying resolve_retrying : IngestJobStatus
  succeeded deduplicated failed cancelled discarded : IngestJobStatus

-- `IngestStep`.
pub data IngestStep : Type 0 where
  queued recover validate extract dedup conflict_check commit_artifacts chunk embed : IngestStep
  index opensearch_index publish retry_wait resolve resolve_supersede : IngestStep
  supersede_cleanup resolve_publish resolve_discard cancelled failed : IngestStep

-- `DocumentStatus`.
pub data DocumentStatus : Type 0 where
  staging indexing ready failed deleting superseding superseded : DocumentStatus

-- `CleanupAction`, `OutboxStatus`.
pub data CleanupAction : Type 0 where
  delete rollback supersede : CleanupAction

pub data OutboxStatus : Type 0 where
  pending publishing published dead : OutboxStatus

unfoldable pub IngestJobStatus-discrete : Discrete IngestJobStatus
IngestJobStatus-discrete = hlevel

-- `a == b` and `a in bs` on job statuses.
unfoldable pub status_eq : IngestJobStatus → IngestJobStatus → Bool
unfolding IngestJobStatus-discrete decide
status_eq a b = decide (IngestJobStatus-discrete a b)

unfoldable pub status_in : IngestJobStatus → List IngestJobStatus → Bool
unfolding status_eq
status_in a [] = false
status_in a (b ∷ bs) = if status_eq a b then true else status_in a bs

abbrev pub is_running : IngestJobStatus → Bool
is_running IngestJobStatus.running = true
is_running _ = false

abbrev pub ingest_claimable_statuses : List IngestJobStatus
ingest_claimable_statuses = IngestJobStatus.queued ∷ IngestJobStatus.ingest_retrying ∷ []

abbrev pub resolve_claimable_statuses : List IngestJobStatus
resolve_claimable_statuses = IngestJobStatus.resolving ∷ IngestJobStatus.resolve_retrying ∷ []

abbrev pub is_resumable : IngestJobStatus → Bool
is_resumable IngestJobStatus.queued = true
is_resumable IngestJobStatus.running = true
is_resumable IngestJobStatus.conflict = true
is_resumable IngestJobStatus.resolving = true
is_resumable IngestJobStatus.ingest_retrying = true
is_resumable IngestJobStatus.resolve_retrying = true
is_resumable _ = false

abbrev pub is_terminal : IngestJobStatus → Bool
is_terminal IngestJobStatus.succeeded = true
is_terminal IngestJobStatus.deduplicated = true
is_terminal IngestJobStatus.failed = true
is_terminal IngestJobStatus.cancelled = true
is_terminal IngestJobStatus.discarded = true
is_terminal _ = false

-- `DELETABLE_DOCUMENT_STATUSES`.
abbrev pub is_deletable : DocumentStatus → Bool
is_deletable DocumentStatus.superseding = false
is_deletable _ = true

-- A half-built document: `{STAGING, INDEXING}`.
abbrev pub is_unfinished : DocumentStatus → Bool
is_unfinished DocumentStatus.staging = true
is_unfinished DocumentStatus.indexing = true
is_unfinished _ = false

abbrev pub is_ready : DocumentStatus → Bool
is_ready DocumentStatus.ready = true
is_ready _ = false
