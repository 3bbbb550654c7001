-- ===== src/Ingest/Cleanup.antt =====
-- How a deletion of a document ends.
use trustguard_rag.Prelude.{
  is_nil, All-filter_by, All-filter_by_test, ℕ, ◌≡◌, refl, ◌∙◌, ap, Bool, true, false, not, Option,
  none, some, List, [], ◌∷◌, String, arith, eq_iff, str_eq, if_cases, if_elim, contains, filter_by,
  All, if◌then◌else◌, Bool-cases, inl, inr,
}
use trustguard_rag.Domain.{DocumentStatus}
use trustguard_rag.Store.Table
use trustguard_rag.Store.Table.{Table, lookup, lookup-set}
use trustguard_rag.Store.Rows.{DocumentRow, Db}
use trustguard_rag.Jobs.Publication.{increment_content_revision}
use trustguard_rag.Jobs.Recovery.{clear_document_references}
use trustguard_rag.Documents.{update_status, save_document}
use trustguard_rag.Ingest.Compensator.{
  World, Faults, Ended, done, is_deleting, point_ids_for_document, without_chunks, without_document,
  without_points, without_indexed, without_artifacts, artifact_prefix, is_below, delete_vectors,
  delete_search_indexes, with_status, delete_row, remove, delete_marked, delete_document,
}

-- Nothing of the document is left, in the database, the search engines and the artifacts.
pub record IsClean (id prefix : String) (w : World) : Type 0 where
  pub row : lookup id w.db.documents ≡ none
  pub chunks : All (λ c. not (str_eq c.document_id id) ≡ true) w.chunks
  pub points : All (λ p. not (str_eq p.document_id id) ≡ true) w.points
  pub indexed : All (λ d. not (str_eq d id) ≡ true) w.indexed
  pub artifacts : All (λ a. not (is_below prefix a) ≡ true) w.artifacts

-- The document's row waits for another attempt.
pub record IsPending (id : String) (w : World) : Type 0 where
  pub row : DocumentRow
  pub found : lookup id w.db.documents ≡ some row
  pub marked : is_deleting row.status ≡ true

-- A deletion has removed everything, or it has raised and the document waits.
abbrev pub Deletes : String → String → Ended × World → Type 0
Deletes id prefix (done b, w) = (b ≡ true) × IsClean id prefix w
Deletes id prefix (e, w) = IsPending id w

-- What the search engines have after their part.
record Forgotten (id : String) (w : World) : Type 0 where
  points : All (λ p. not (str_eq p.document_id id) ≡ true) w.points
  indexed : All (λ d. not (str_eq d id) ≡ true) w.indexed

module _ (f : Faults) (id : String) (ps : List String) (w : World) where
  pub db-delete_search_indexes : (delete_search_indexes f id ps w).1.db ≡ w.db
  unfolding delete_search_indexes delete_vectors without_indexed without_document without_points
  db-delete_search_indexes = ground arith

  vectors_forgotten :
      (delete_vectors f id ps w).0 ≡ false
      → All (λ p. not (str_eq p.document_id id) ≡ true) (delete_vectors f id ps w).1.points
  unfolding delete_vectors without_document without_points
  vectors_forgotten =
      let P = λ (r : Bool × World).
        r.0 ≡ false → All (λ p. not (str_eq p.document_id id) ≡ true) r.1.points in
      let gone = All-filter_by_test (λ p. not (str_eq p.document_id id)) w.points in
      if_elim P f.document_vectors (λ h. cc)
        (if_elim P (is_nil ps) (λ _. gone)
          (if_elim P f.known_points (λ h. cc)
            (λ _.
              All-filter_by (λ p. not (str_eq p.document_id id) ≡ true)
                (λ p. not (contains p.point_id ps))
                (filter_by (λ p. not (str_eq p.document_id id)) w.points) gone)))

  forgotten :
      is_nil (delete_search_indexes f id ps w).0 ≡ true
      → Forgotten id (delete_search_indexes f id ps w).1
  unfolding delete_search_indexes without_indexed
  forgotten h = elim (Bool-cases f.opensearch) [
    | inl down ↦ absurd (ground arith)
    | inr up ↦
        rw (delete_search_indexes, up)
          (record {
            points = vectors_forgotten (ground arith);
            indexed =
                All-filter_by_test (λ d. not (str_eq d id)) (delete_vectors f id ps w).1.indexed;
          })
  ]

-- A row that is taken out of a table is not found.
lookup-select_where-removed {ℓ} :
    {V : Type ℓ} (id : String) (t : Table V)
    → lookup id (Table.select_where (λ j v. not (str_eq j id)) t) ≡ none
unfolding lookup Table.select_where
lookup-select_where-removed id [] = refl
lookup-select_where-removed id ((k, v) ∷ t) = ground (arith, lookup-select_where-removed id t)

pub lookup-select_where-other {ℓ} :
    {V : Type ℓ} (id j : String) (t : Table V)
    → str_eq j id ≡ false
    → lookup j (Table.select_where (λ k v. not (str_eq k id)) t) ≡ lookup j t
unfolding lookup Table.select_where
lookup-select_where-other id j [] e = refl
lookup-select_where-other id j ((k, v) ∷ t) e =
    ground (arith, lookup-select_where-other id j t, eq_iff k id, eq_iff k j, eq_iff j id)

module _ (f : Faults) (id : String) (doc : DocumentRow) (w : World) where
  -- The last steps, once the search engines have forgotten the document.
  remove-Deletes :
      Forgotten id w → IsPending id w → Deletes id (artifact_prefix id doc) (remove f id doc w)
  unfolding remove without_artifacts without_chunks delete_row clear_document_references
  remove-Deletes g p = if_elim (Deletes id (artifact_prefix id doc)) f.blobs p (
      if_elim (Deletes id (artifact_prefix id doc)) f.chunk_rows
        (record { row = p.row; found = p.found; marked = p.marked })
        (
          ground (arith, p.found),
          record {
            row = lookup-select_where-removed id w.db.documents;
            chunks = All-filter_by_test (λ c. not (str_eq c.document_id id)) w.chunks;
            points = g.points;
            indexed = g.indexed;
            artifacts =
                All-filter_by_test (λ a. not (is_below (artifact_prefix id doc) a)) w.artifacts;
          },
        ))

  same_row : (w' : World) → w'.db ≡ w.db → IsPending id w → IsPending id w'
  same_row w' e p = record {
    row = p.row;
    found = ap (λ (d : Db). lookup id d.documents) e ∙ p.found;
    marked = p.marked;
  }

delete_marked-Deletes :
    (f : Faults) (id : String) (doc : DocumentRow) (w : World)
    → IsPending id w
    → Deletes id (artifact_prefix id doc) (delete_marked f id doc w)
unfolding delete_marked
delete_marked-Deletes f id doc w p =
    let ps = point_ids_for_document id w.chunks in
    let w' = (delete_search_indexes f id ps w).1 in
    let p' = same_row f id doc w w' (db-delete_search_indexes f id ps w) p in
    if_cases (Deletes id (artifact_prefix id doc)) (is_nil (delete_search_indexes f id ps w).0)
      (λ e. remove-Deletes f id doc w' (forgotten f id ps w e) p') (λ _. p')

documents-increment :
    (now : ℕ) (k : Option String) (db : Db)
    → (increment_content_revision now k db).documents ≡ db.documents
unfolding increment_content_revision
documents-increment now none db = refl
documents-increment now (some k) db = ground arith

pub documents-update_status :
    (now : ℕ) (id : String) (status : DocumentStatus) (row : DocumentRow) (db : Db)
    → lookup id db.documents ≡ some row
    → (update_status now id status none none db).documents
      ≡ Table.set id (record row { status = status; updated_at = now }) db.documents
unfolding update_status save_document
documents-update_status now id status row db e =
    let db' = record db {
      documents = Table.set id (record row { status = status; updated_at = now }) db.documents;
    } in
    ground (arith, documents-increment now row.knowledge_base_id db')

marked-IsPending :
    (now : ℕ) (id : String) (doc : DocumentRow) (w : World)
    → lookup id w.db.documents ≡ some doc
    → IsPending id
        (if is_deleting doc.status then w else with_status now id DocumentStatus.deleting w)
unfolding with_status
marked-IsPending now id doc w e =
    let row' = record doc { status = DocumentStatus.deleting; updated_at = now } in
    if_cases (IsPending id) (is_deleting doc.status)
      (λ h. record { row = doc; found = e; marked = h })
      λ _. record {
        row = row';
        found =
            ap (lookup id) (documents-update_status now id DocumentStatus.deleting doc w.db e)
            ∙ ground (arith, lookup-set id id row' w.db.documents, eq_iff id id);
        marked = refl;
      }

-- A deletion of a document that is there ends in one of two ways, whatever calls of the search
-- engines, the artifacts and the table of chunks fail: it has removed the row and the chunks, the
-- vectors, the indexed chunks and the artifacts of the document, or it raises and leaves the row with
-- the status DELETING, from which a later cleanup goes on.
pub delete_document-Deletes :
    (now : ℕ) (f : Faults) (id : String) (doc : DocumentRow) (w : World)
    → lookup id w.db.documents ≡ some doc
    → Deletes id (artifact_prefix id doc) (delete_document now f id w)
unfolding delete_document
delete_document-Deletes now f id doc w e =
    rw (delete_document, e)
      (delete_marked-Deletes f id doc
        (if is_deleting doc.status then w else with_status now id DocumentStatus.deleting w)
        (marked-IsPending now id doc w e))
