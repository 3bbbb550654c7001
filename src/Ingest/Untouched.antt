-- ===== src/Ingest/Untouched.antt =====
-- What the methods of the compensator leave of the row of another document, and of a row that is
-- gone.
use trustguard_rag.Prelude.{
  is_nil, ℕ, ◌≡◌, refl, ◌∙◌, ap, Bool, false, not, none, some, List, [], ◌∷◌, String, arith, eq_iff,
  str_eq, if_elim, option_cases, if◌then◌else◌, Bool-cases, inl, inr,
}
use trustguard_rag.Domain.{DocumentStatus}
use trustguard_rag.Store.Table.{Table, lookup, lookup-set}
use trustguard_rag.Store.Rows.{DocumentRow, Db}
use trustguard_rag.Jobs.Recovery.{clear_document_references}
use trustguard_rag.Ingest.Pending.{
  Resumed, resume_deletions, resume_supersessions, resume_rollbacks,
}
use trustguard_rag.Ingest.Compensator.{
  World, Faults, Ended, is_deleting, is_superseding, is_superseded, point_ids_for_document,
  without_chunks, without_artifacts, artifact_prefix, delete_search_indexes, with_status,
  delete_row, remove, delete_marked, delete_document, supersede_document, supersede_marked,
  rollback_document,
}
use trustguard_rag.Ingest.Cleanup.{
  documents-update_status, db-delete_search_indexes, lookup-select_where-other,
}

-- The row of another document.
module _ (now : ℕ) (f : Faults) (id j : String) (other : str_eq j id ≡ false) where
  -- Every step leaves it.
  abbrev Same : World → World → Type 0
  Same v w = lookup id w.db.documents ≡ lookup id v.db.documents

  with_status-Same :
      (status : DocumentStatus) (row : DocumentRow) (w : World)
      → lookup j w.db.documents ≡ some row
      → Same w (with_status now j status w)
  unfolding with_status
  with_status-Same status row w e =
      ap (lookup id) (documents-update_status now j status row w.db e)
      ∙ ground
          (arith, lookup-set j id (record row { status = status; updated_at = now }) w.db.documents)

  delete_search_indexes-Same :
      (ps : List String) (w : World) → Same w (delete_search_indexes f j ps w).1
  delete_search_indexes-Same ps w =
      ap (λ (d : Db). lookup id d.documents) (db-delete_search_indexes f j ps w)

  flip : str_eq id j ≡ false
  flip = ground (arith, eq_iff id j, eq_iff j id)

  remove-Same : (doc : DocumentRow) (w : World) → Same w (remove f j doc w).1
  unfolding remove without_artifacts without_chunks delete_row clear_document_references
  remove-Same doc w =
      if_elim (λ (r : Ended × World). Same w r.1) f.blobs refl
        (if_elim (λ (r : Ended × World). Same w r.1) f.chunk_rows refl
          (lookup-select_where-other j id w.db.documents flip))

  pub delete_document-Same : (w : World) → Same w (delete_document now f j w).1
  unfolding delete_document delete_marked
  delete_document-Same w =
      option_cases (λ (r : Ended × World). Same w r.1) (lookup j w.db.documents) (λ _. refl)
        λ doc e.
          let w' =
            if is_deleting doc.status then w else with_status now j DocumentStatus.deleting w in
          let first : Same w w' =
            if_elim (Same w) (is_deleting doc.status) refl
              (with_status-Same DocumentStatus.deleting doc w e) in
          let ps = point_ids_for_document j w'.chunks in
          let w'' = (delete_search_indexes f j ps w').1 in
          let second = delete_search_indexes-Same ps w' ∙ first in
          if_elim (λ (r : Ended × World). Same w r.1) (is_nil (delete_search_indexes f j ps w').0)
            (remove-Same doc w'' ∙ second) second

  -- The row of the document itself, behind the search engines.
  found_after :
      (ps : List String) (doc : DocumentRow) (w : World)
      → lookup j w.db.documents ≡ some doc
      → lookup j (delete_search_indexes f j ps w).1.db.documents ≡ some doc
  found_after ps doc w e =
      ap (λ (d : Db). lookup j d.documents) (db-delete_search_indexes f j ps w) ∙ e

  supersede_marked-Same :
      (doc row : DocumentRow) (w : World)
      → lookup j w.db.documents ≡ some row
      → Same w (supersede_marked now f j doc w).1
  unfolding supersede_marked without_artifacts without_chunks
  supersede_marked-Same doc row w e =
      let ps = point_ids_for_document j w.chunks in
      let w' = (delete_search_indexes f j ps w).1 in
      let step = delete_search_indexes-Same ps w in
      if_elim (λ (r : Ended × World). Same w r.1) (not (is_nil (delete_search_indexes f j ps w).0))
        step
        (if_elim (λ (r : Ended × World). Same w r.1) f.blobs step
          (if_elim (λ (r : Ended × World). Same w r.1) f.chunk_rows step
            (with_status-Same DocumentStatus.superseded row
                (without_chunks j (without_artifacts (artifact_prefix j doc) w'))
                (found_after ps row w e)
              ∙ step)))

  supersede_document-Same : (w : World) → Same w (supersede_document now f j w).1
  unfolding supersede_document with_status
  supersede_document-Same w =
      option_cases (λ (r : Ended × World). Same w r.1) (lookup j w.db.documents) (λ _. refl)
        λ doc e.
          let row' = record doc { status = DocumentStatus.superseding; updated_at = now } in
          let found : lookup j (with_status now j DocumentStatus.superseding w).db.documents
              ≡ some row' =
            ap (lookup j) (documents-update_status now j DocumentStatus.superseding doc w.db e)
            ∙ ground (arith, lookup-set j j row' w.db.documents, eq_iff j j) in
          if_elim (λ (r : Ended × World). Same w r.1) (is_superseded doc.status) refl
            (if_elim (λ v. Same w (supersede_marked now f j doc v).1) (is_superseding doc.status)
              (supersede_marked-Same doc doc w e)
              (supersede_marked-Same doc row' (with_status now j DocumentStatus.superseding w) found
                ∙ with_status-Same DocumentStatus.superseding doc w e))

  rollback_document-Same : (w : World) → Same w (rollback_document now f j w).1
  unfolding rollback_document without_artifacts without_chunks
  rollback_document-Same w =
      option_cases (λ (r : Bool × World). Same w r.1) (lookup j w.db.documents) (λ _. refl)
        λ doc e.
          let ps = point_ids_for_document j w.chunks in
          let w' = (delete_search_indexes f j ps w).1 in
          let same : (v : World)
              → v.db ≡ w'.db
              → Same w (with_status now j DocumentStatus.failed v) =
            λ v h.
              with_status-Same DocumentStatus.failed doc v
                (ap (λ (d : Db). lookup j d.documents) h ∙ found_after ps doc w e)
              ∙ ap (λ (d : Db). lookup id d.documents) h
              ∙ delete_search_indexes-Same ps w in
          let v = if f.blobs then w' else without_artifacts (artifact_prefix j doc) w' in
          same (if f.chunk_rows then v else without_chunks j v) (ground arith)

-- A row that is gone stays gone.
module _ (now : ℕ) (id : String) where
  abbrev pub Gone : World → Type 0
  Gone w = lookup id w.db.documents ≡ none

  delete_document-Gone :
      (f : Faults) (j : String) (w : World) → Gone w → Gone (delete_document now f j w).1
  unfolding delete_document
  delete_document-Gone f j w g = elim (Bool-cases (str_eq j id)) [
    | inl same ↦ ground (arith, eq_iff j id)
    | inr other ↦ delete_document-Same now f id j other w ∙ g
  ]

  supersede_document-Gone :
      (f : Faults) (j : String) (w : World) → Gone w → Gone (supersede_document now f j w).1
  unfolding supersede_document
  supersede_document-Gone f j w g = elim (Bool-cases (str_eq j id)) [
    | inl same ↦ ground (arith, eq_iff j id)
    | inr other ↦ supersede_document-Same now f id j other w ∙ g
  ]

  rollback_document-Gone :
      (f : Faults) (j : String) (w : World) → Gone w → Gone (rollback_document now f j w).1
  unfolding rollback_document
  rollback_document-Gone f j w g = elim (Bool-cases (str_eq j id)) [
    | inl same ↦ ground (arith, eq_iff j id)
    | inr other ↦ rollback_document-Same now f id j other w ∙ g
  ]

  module _ (faults : String → Faults) where
    pub resume_deletions-Gone :
        (docs : Table DocumentRow) (r : Resumed) (w : World)
        → Gone w
        → Gone (resume_deletions now faults docs r w).1
    unfolding resume_deletions
    resume_deletions-Gone [] r w g = g
    resume_deletions-Gone ((j, doc) ∷ docs) r w g =
        resume_deletions-Gone docs _ _ (delete_document-Gone (faults j) j w g)

    pub resume_supersessions-Gone :
        (docs : Table DocumentRow) (r : Resumed) (w : World)
        → Gone w
        → Gone (resume_supersessions now faults docs r w).1
    unfolding resume_supersessions
    resume_supersessions-Gone [] r w g = g
    resume_supersessions-Gone ((j, doc) ∷ docs) r w g =
        resume_supersessions-Gone docs _ _ (supersede_document-Gone (faults j) j w g)

    pub resume_rollbacks-Gone :
        (docs : Table DocumentRow) (r : Resumed) (w : World)
        → Gone w
        → Gone (resume_rollbacks now faults docs r w).1
    unfolding resume_rollbacks
    resume_rollbacks-Gone [] r w g = g
    resume_rollbacks-Gone ((j, doc) ∷ docs) r w g =
        resume_rollbacks-Gone docs _ _ (rollback_document-Gone (faults j) j w g)
