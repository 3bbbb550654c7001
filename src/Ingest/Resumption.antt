-- ===== src/Ingest/Resumption.antt =====
-- What `resume_pending_cleanups` makes of the documents that wait for their deletion.
use mathlib.Core.Path.{subst}
use trustguard_rag.Prelude.{
  is_nil, ℕ, ◌≡◌, refl, ◌∙◌, sym, ap, Bool, true, false, none, some, List, [], ◌∷◌, ◌++◌, ◌⊎◌,
  String, arith, eq_iff, str_eq, if_elim, is_some, if◌then◌else◌, Bool-cases, inl, inr,
}
use trustguard_rag.Domain.{DocumentStatus}
use trustguard_rag.Store.Table.{Table, lookup, IsUnique, lookup-select_where}
use trustguard_rag.Store.Rows.{DocumentRow, Db}
use trustguard_rag.Jobs.Recovery.{clear_document_references}
use trustguard_rag.Ingest.Compensator
use trustguard_rag.Ingest.Pending.{
  Resumed, is_failed, resume_deletions, resume_supersessions, list_by_status,
  resume_pending_cleanups, nothing_resumed,
}
use trustguard_rag.Ingest.Compensator.{
  World, Faults, Ended, done, cleanup_error, raised, is_deleting, is_superseding, is_superseded,
  point_ids_for_document, without_chunks, without_artifacts, artifact_prefix, delete_search_indexes,
  delete_vectors, with_status, delete_row, remove, delete_marked, delete_document,
  supersede_document, supersede_marked, rollback_document,
}
use trustguard_rag.Ingest.Cleanup.{
  IsClean, Deletes, delete_document-Deletes, db-delete_search_indexes,
}
use trustguard_rag.Ingest.Untouched.{
  delete_document-Same, Gone, resume_deletions-Gone, resume_supersessions-Gone,
  resume_rollbacks-Gone,
}

-- No call fails.
abbrev pub no_faults : Faults
no_faults = record {
  document_vectors = false;
  known_points = false;
  opensearch = false;
  blobs = false;
  chunk_rows = false;
}

Deletes-done :
    (id prefix : String) (r : Ended × World) (b : Bool)
    → r.0 ≡ done b
    → Deletes id prefix r
    → IsClean id prefix r.1
Deletes-done id prefix (done b, w) c e d = d.1
Deletes-done id prefix (cleanup_error x, w) c e d = absurd (ground (arith, e))
Deletes-done id prefix (raised, w) c e d = absurd (ground (arith, e))

-- A deletion in which no call fails.
module _ (id : String) where
  failures-delete_search_indexes :
      (ps : List String) (w : World) → (delete_search_indexes no_faults id ps w).0 ≡ []
  unfolding delete_search_indexes delete_vectors
  failures-delete_search_indexes ps w =
      if_elim
        (λ (r : Bool × World).
          ◌++◌ {A = String} (if r.0 then "qdrant" ∷ [] else [])
            (if false then "opensearch" ∷ [] else [])
          ≡ [])
        (is_nil ps) {x = (false, Compensator.without_document id w)}
        {y = (false, Compensator.without_points ps (Compensator.without_document id w))} refl refl

  ended-delete_marked :
      (doc : DocumentRow) (w : World)
      → (delete_marked no_faults id doc w).0 ≡ done (is_some (lookup id w.db.documents))
  unfolding delete_marked remove without_artifacts without_chunks clear_document_references
  ended-delete_marked doc w =
      let ps = point_ids_for_document id w.chunks in
      rw (failures-delete_search_indexes ps w) (
        ap (λ (d : Db). done (is_some (lookup id d.documents)))
          (db-delete_search_indexes no_faults id ps w))

  delete_document_removes :
      (now : ℕ) (doc : DocumentRow) (w : World)
      → lookup id w.db.documents ≡ some doc
      → lookup id (delete_document now no_faults id w).1.db.documents ≡ none
  unfolding delete_document
  delete_document_removes now doc w e =
      let w' = if is_deleting doc.status then w else with_status now id DocumentStatus.deleting w in
      let ended : (delete_document now no_faults id w).0
          ≡ done (is_some (lookup id w'.db.documents)) =
        rw (delete_document, e) (ended-delete_marked doc w') in
      (Deletes-done id (artifact_prefix id doc) (delete_document now no_faults id w)
        (is_some (lookup id w'.db.documents)) ended
        (delete_document-Deletes now no_faults id doc w e)).row

-- The loops.
module _ (now : ℕ) (id : String) (faults : String → Faults) (healthy : faults id ≡ no_faults) where
  delete_document-waits :
      (j : String) (doc : DocumentRow) (w : World)
      → lookup id w.db.documents ≡ some doc
      → (str_eq j id ≡ true) × Gone now id (delete_document now (faults j) j w).1
        ⊎ (str_eq j id ≡ false)
          × (lookup id (delete_document now (faults j) j w).1.db.documents ≡ some doc)
  delete_document-waits j doc w e = elim (Bool-cases (str_eq j id)) [
    | inr other ↦ inr (other, delete_document-Same now (faults j) id j other w ∙ e)
    | inl same ↦ inl (
      same,
      subst (λ k. Gone now id (delete_document now (faults k) k w).1) (sym ((eq_iff j id).0 same))
          (subst (λ f. Gone now id (delete_document now f id w).1) (sym healthy)
            (delete_document_removes id now doc w e)),
    )
  ]

  resume_deletions_removes :
      (docs : Table DocumentRow) (listed doc : DocumentRow) (r : Resumed) (w : World)
      → lookup id docs ≡ some listed
      → lookup id w.db.documents ≡ some doc
      → Gone now id (resume_deletions now faults docs r w).1
  unfolding resume_deletions lookup
  resume_deletions_removes [] listed doc r w h e = absurd (ground (arith, h))
  resume_deletions_removes ((j, d) ∷ docs) listed doc r w h e =
      elim (delete_document-waits j doc w e) [
        | inl g ↦ resume_deletions-Gone now id faults docs _ _ g.1
        | inr s ↦ resume_deletions_removes docs listed doc _ _ (ground (arith, h, s.0)) s.1
      ]

-- `resume_pending_cleanups` removes the row of a document that waits for its deletion, where no
-- call of its own deletion fails and a document id has one row, whichever calls fail in the
-- cleanups of the other documents: the three loops go on after a failure, and none of their steps
-- brings the row back.
pub resume_pending_cleanups-Gone :
    (now : ℕ) (faults : String → Faults) (id : String) (doc : DocumentRow) (w : World)
    → IsUnique w.db.documents
    → lookup id w.db.documents ≡ some doc
    → is_deleting doc.status ≡ true
    → faults id ≡ no_faults
    → Gone now id (resume_pending_cleanups now faults w).1
unfolding resume_pending_cleanups list_by_status
resume_pending_cleanups-Gone now faults id doc w u e m healthy =
    let listed : lookup id (list_by_status is_deleting w) ≡ some doc = ground (
      arith,
      lookup-select_where (λ j (d : DocumentRow). is_deleting d.status) id doc w.db.documents u e,
      e,
      m,
    ) in
    let (r₁, w₁) = resume_deletions now faults (list_by_status is_deleting w) nothing_resumed w in
    let (r₂, w₂) = resume_supersessions now faults (list_by_status is_superseding w₁) r₁ w₁ in
    resume_rollbacks-Gone now id faults (list_by_status is_failed w₂) r₂ w₂ (
      resume_supersessions-Gone now id faults (list_by_status is_superseding w₁) r₁ w₁ (
        resume_deletions_removes now id faults healthy (list_by_status is_deleting w) doc doc
          nothing_resumed w listed e))
