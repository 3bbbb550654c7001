-- ===== src/Ingest/Compensator.antt =====
-- app/core/ingest/compensator.py: the removal of a document from the database, the two search
-- engines and the store of artifacts, any of which may fail.
use Prim.Native.String.{◌++◌ as join}
use trustguard_rag.Prelude.{
  is_nil, ℕ, suc, Bool, true, false, not, ◌&&◌, ◌||◌, Option, none, some, List, [], ◌∷◌, ◌++◌,
  String, if◌then◌else◌, str_eq, contains, filter_by, is_some, take_text,
}
use trustguard_rag.Prelude.Text.{text_length}
use trustguard_rag.Domain.{DocumentStatus}
use trustguard_rag.Store.Table
use trustguard_rag.Store.Table.{Table}
use trustguard_rag.Store.Rows.{DocumentRow, Db}
use trustguard_rag.Jobs.Recovery.{clear_document_references}
use trustguard_rag.Documents.{update_status}

-- The columns of `ChunkRow` that the cleanup reads.
pub record ChunkRow : Type 0 where
  pub document_id : String
  pub qdrant_point_id : Option String

-- A vector of Qdrant, with the document of its payload.
pub record Point : Type 0 where
  pub point_id : String
  pub document_id : String

-- The database, the vectors, the document ids of what OpenSearch has indexed, and the paths of the
-- stored files.
pub record World : Type 0 where
  pub db : Db
  pub chunks : List ChunkRow
  pub points : List Point
  pub indexed : List String
  pub artifacts : List String

-- The calls that raise in one cleanup.
pub record Faults : Type 0 where
  pub document_vectors : Bool
  pub known_points : Bool
  pub opensearch : Bool
  pub blobs : Bool
  pub chunk_rows : Bool

-- How a cleanup ends.
pub data Ended : Type 0 where
  done : Bool → Ended
  cleanup_error : List String → Ended
  raised : Ended

-- `point_ids_for_document`.
unfoldable pub point_ids_for_document : String → List ChunkRow → List String
point_ids_for_document id [] = []
point_ids_for_document id (c ∷ cs) =
    let rest = point_ids_for_document id cs in
    if str_eq c.document_id id
    then elim c.qdrant_point_id [ none ↦ rest | some p ↦ if str_eq p "" then rest else p ∷ rest ]
    else rest

-- `delete_for_document` of the chunks.
unfoldable pub without_chunks : String → World → World
without_chunks id w = record w { chunks = filter_by (λ c. not (str_eq c.document_id id)) w.chunks }

-- `QdrantIndexer.delete_document` and `delete_points`.
unfoldable pub without_document : String → World → World
without_document id w = record w {
  points = filter_by (λ p. not (str_eq p.document_id id)) w.points;
}

unfoldable pub without_points : List String → World → World
without_points ids w = record w { points = filter_by (λ p. not (contains p.point_id ids)) w.points }

-- `_delete_vectors`: whether it raises, and what is left.
unfoldable pub delete_vectors : Faults → String → List String → World → Bool × World
delete_vectors f id point_ids w =
    if f.document_vectors
    then (true, w)
    else if is_nil point_ids
    then (false, without_document id w)
    else if f.known_points
    then (true, without_document id w)
    else (false, without_points point_ids (without_document id w))

-- `OpenSearchIndexer.delete_for_document`.
unfoldable pub without_indexed : String → World → World
without_indexed id w = record w { indexed = filter_by (λ d. not (str_eq d id)) w.indexed }

-- `_delete_search_indexes`: the failures, and what is left.
unfoldable pub delete_search_indexes : Faults → String → List String → World → List String × World
unfolding delete_vectors without_indexed
delete_search_indexes f id point_ids w =
    let (failed, w') = delete_vectors f id point_ids w in
    (
      (if failed then "qdrant" ∷ [] else []) ++ (if f.opensearch then "opensearch" ∷ [] else []),
      if f.opensearch then w' else without_indexed id w',
    )

-- `if doc.blob_path` and the prefix that is deleted.
unfoldable pub artifact_prefix : String → DocumentRow → String
artifact_prefix id doc = elim doc.blob_path [
  | none ↦ join "artifacts/" id
  | some path ↦ if str_eq path "" then join "artifacts/" id else path
]

-- What `delete_prefix` removes: the file of that path, or all below the directory.
unfoldable pub is_below : String → String → Bool
is_below prefix path =
    str_eq path prefix || str_eq (take_text (suc (text_length prefix)) path) (join prefix "/")

-- `_delete_artifacts`.
unfoldable pub without_artifacts : String → World → World
without_artifacts prefix w = record w {
  artifacts = filter_by (λ a. not (is_below prefix a)) w.artifacts;
}

unfoldable pub with_status : ℕ → String → DocumentStatus → World → World
with_status now id status w = record w { db = update_status now id status none none w.db }

-- `DocumentStore.delete`.
unfoldable pub delete_row : String → World → World
delete_row id w = record w {
  db = record w.db { documents = Table.select_where (λ j doc. not (str_eq j id)) w.db.documents };
}

abbrev pub is_deleting : DocumentStatus → Bool
is_deleting DocumentStatus.deleting = true
is_deleting _ = false

-- The last steps of a deletion, once both search engines have forgotten the document.
unfoldable pub remove : Faults → String → DocumentRow → World → Ended × World
remove f id doc w =
    if f.blobs
    then (raised, w)
    else if f.chunk_rows
    then (raised, without_artifacts (artifact_prefix id doc) w)
    else (let w' = without_chunks id (without_artifacts (artifact_prefix id doc) w) in
        let w'' = record w' { db = clear_document_references id w'.db } in
        (done (is_some (Table.lookup id w''.db.documents)), delete_row id w''))

-- `delete_document` of a document that is marked.
unfoldable pub delete_marked : Faults → String → DocumentRow → World → Ended × World
delete_marked f id doc w =
    let (failures, w') = delete_search_indexes f id (point_ids_for_document id w.chunks) w in
    if is_nil failures then remove f id doc w' else (cleanup_error failures, w')

-- `delete_document`.
unfoldable pub delete_document : ℕ → Faults → String → World → Ended × World
delete_document now f id w = elim (Table.lookup id w.db.documents) [
  | none ↦ (done false, w)
  | some doc ↦
      delete_marked f id doc
        (if is_deleting doc.status then w else with_status now id DocumentStatus.deleting w)
]

abbrev pub is_superseding : DocumentStatus → Bool
is_superseding DocumentStatus.superseding = true
is_superseding _ = false

abbrev pub is_superseded : DocumentStatus → Bool
is_superseded DocumentStatus.superseded = true
is_superseded _ = false

-- `supersede_document`.
unfoldable pub supersede_marked : ℕ → Faults → String → DocumentRow → World → Ended × World
supersede_marked now f id doc w =
    let (failures, w') = delete_search_indexes f id (point_ids_for_document id w.chunks) w in
    if not (is_nil failures)
    then (cleanup_error failures, w')
    else if f.blobs
    then (raised, w')
    else if f.chunk_rows
    then (raised, without_artifacts (artifact_prefix id doc) w')
    else (
      done true,
      with_status now id DocumentStatus.superseded
          (without_chunks id (without_artifacts (artifact_prefix id doc) w')),
    )

unfoldable pub supersede_document : ℕ → Faults → String → World → Ended × World
unfolding supersede_marked
supersede_document now f id w = elim (Table.lookup id w.db.documents) [
  | none ↦ (done true, w)
  | some doc ↦
      if is_superseded doc.status
      then (done true, w)
      else supersede_marked now f id doc
          (if is_superseding doc.status then w else with_status now id DocumentStatus.superseding w)
]

-- `rollback_document`, which goes on whatever fails.
unfoldable pub rollback_document : ℕ → Faults → String → World → Bool × World
rollback_document now f id w = elim (Table.lookup id w.db.documents) [
  | none ↦ (true, w)
  | some doc ↦
      (let (failures, w') = delete_search_indexes f id (point_ids_for_document id w.chunks) w in
        let w'' = if f.blobs then w' else without_artifacts (artifact_prefix id doc) w' in
        let w''' = if f.chunk_rows then w'' else without_chunks id w'' in
        (
          is_nil failures && not f.blobs && not f.chunk_rows,
          with_status now id DocumentStatus.failed w''',
        ))
]
