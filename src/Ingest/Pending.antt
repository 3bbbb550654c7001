-- ===== src/Ingest/Pending.antt =====
-- app/core/ingest/compensator.py: `resume_pending_cleanups`, which goes on with the documents that
-- wait for a clean-up.
use trustguard_rag.Prelude.{ℕ, suc, Bool, true, false, [], ◌∷◌, String, if◌then◌else◌}
use trustguard_rag.Domain.{DocumentStatus}
use trustguard_rag.Store.Table
use trustguard_rag.Store.Table.{Table}
use trustguard_rag.Store.Rows.{DocumentRow}
use trustguard_rag.Ingest.Compensator.{
  World, Faults, Ended, is_deleting, delete_document, is_superseding, supersede_document,
  rollback_document, done,
}

-- The counts that `resume_pending_cleanups` returns.
pub record Resumed : Type 0 where
  pub deleting : ℕ
  pub superseding : ℕ
  pub failed : ℕ
  pub errors : ℕ

abbrev pub nothing_resumed : Resumed
nothing_resumed = record { deleting = 0; superseding = 0; failed = 0; errors = 0 }

abbrev count_deletion : Ended → Resumed → Resumed
count_deletion (done b) r = record r { deleting = suc r.deleting }
count_deletion e r = record r { errors = suc r.errors }

abbrev count_supersession : Ended → Resumed → Resumed
count_supersession (done b) r = record r { superseding = suc r.superseding }
count_supersession e r = record r { errors = suc r.errors }

-- The three loops. `faults` are the calls that raise in the cleanup of each document.
unfoldable pub resume_deletions :
    ℕ → (String → Faults) → Table DocumentRow → Resumed → World → Resumed × World
resume_deletions now faults [] r w = (r, w)
resume_deletions now faults ((id, doc) ∷ docs) r w =
    let (e, w') = delete_document now (faults id) id w in
    resume_deletions now faults docs (count_deletion e r) w'

unfoldable pub resume_supersessions :
    ℕ → (String → Faults) → Table DocumentRow → Resumed → World → Resumed × World
resume_supersessions now faults [] r w = (r, w)
resume_supersessions now faults ((id, doc) ∷ docs) r w =
    let (e, w') = supersede_document now (faults id) id w in
    resume_supersessions now faults docs (count_supersession e r) w'

unfoldable pub resume_rollbacks :
    ℕ → (String → Faults) → Table DocumentRow → Resumed → World → Resumed × World
resume_rollbacks now faults [] r w = (r, w)
resume_rollbacks now faults ((id, doc) ∷ docs) r w =
    let (b, w') = rollback_document now (faults id) id w in
    resume_rollbacks now faults docs
      (if b then record r { failed = suc r.failed } else record r { errors = suc r.errors }) w'

abbrev pub is_failed : DocumentStatus → Bool
is_failed DocumentStatus.failed = true
is_failed _ = false

-- `list_by_status`.
unfoldable pub list_by_status : (DocumentStatus → Bool) → World → Table DocumentRow
list_by_status p w = Table.select_where (λ id doc. p doc.status) w.db.documents

-- `resume_pending_cleanups`.
unfoldable pub resume_pending_cleanups : ℕ → (String → Faults) → World → Resumed × World
unfolding resume_deletions resume_supersessions resume_rollbacks list_by_status
resume_pending_cleanups now faults w =
    let (r₁, w₁) = resume_deletions now faults (list_by_status is_deleting w) nothing_resumed w in
    let (r₂, w₂) = resume_supersessions now faults (list_by_status is_superseding w₁) r₁ w₁ in
    resume_rollbacks now faults (list_by_status is_failed w₂) r₂ w₂
