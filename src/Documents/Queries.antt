-- ===== src/Documents/Queries.antt =====
-- app/stores/document_store.py: the edit of a document's row, and the searches by its source that
-- find duplicates and conflicts.
use Prim.Native.String.{◌++◌ as join}
use trustguard_rag.Prelude.{
  ℕ, ◌≡◌, Bool, true, not, ◌&&◌, Option, none, some, [], ◌∷◌, String, arith, str_eq, option_eq, All,
  if◌then◌else◌, is_some, All, ◌||◌,
}
use trustguard_rag.Domain.{is_ready}
use trustguard_rag.Store.Table
use trustguard_rag.Store.Table.{Table, lookup, IsUnique}
use trustguard_rag.Store.Loops.{Present, Present-select_where, All-select_where}
use trustguard_rag.Store.Values.{Dict}
use trustguard_rag.Store.Rows.{DocumentRow, Db}
use trustguard_rag.Documents.{get, save_document}

-- The entries of `values` that `update` allows; a value may be `None`.
pub record DocumentValues : Type 0 where
  pub title : Option (Option String)
  pub original_filename : Option (Option String)
  pub metadata_json : Option (Option Dict)

unfoldable pub any_value : DocumentValues → Bool
any_value v = is_some v.title || is_some v.original_filename || is_some v.metadata_json

-- The value of a key that is there, and else the column as it is.
unfoldable pub value_or {ℓ} : {A : Type ℓ} → Option A → A → A
value_or none x = x
value_or (some y) x = y

unfoldable pub edited_row : ℕ → DocumentValues → DocumentRow → DocumentRow
unfolding value_or
edited_row now v row = record row {
  title = value_or v.title row.title;
  original_filename = value_or v.original_filename row.original_filename;
  metadata_json = value_or v.metadata_json row.metadata_json;
  updated_at = now;
}

-- `update`.
unfoldable pub update : ℕ → String → DocumentValues → Db → Option DocumentRow × Db
unfolding any_value
update now document_id v db =
    if not (any_value v) then (get document_id db, db) else elim (get document_id db) [
      | none ↦ (none, db)
      | some row ↦
          (some (edited_row now v row), save_document document_id (edited_row now v row) db)
    ]

-- `if knowledge_base_id: query.where(...)`, which takes an empty text for none.
unfoldable pub is_in_base : Option String → DocumentRow → Bool
is_in_base none row = true
is_in_base (some base) row =
    if str_eq base "" then true else option_eq row.knowledge_base_id (some base)

-- `scalar_one_or_none`, which raises for more than one row.
pub data Scalar : Type 0 where
  one_or_none : Option (String × DocumentRow) → Scalar
  multiple_results_found : Scalar

unfoldable pub scalar_one_or_none : Table DocumentRow → Scalar
scalar_one_or_none [] = one_or_none none
scalar_one_or_none (row ∷ []) = one_or_none (some row)
scalar_one_or_none (row ∷ other ∷ rows) = multiple_results_found

-- `find_by_source`.
unfoldable pub has_source : String → String → String → Option String → DocumentRow → Bool
unfolding is_in_base
has_source source_type source_uri content_hash base row =
    str_eq row.source_type source_type
    && str_eq row.source_uri source_uri
    && str_eq row.content_hash content_hash
    && is_in_base base row

unfoldable pub find_by_source : String → String → String → Option String → Db → Scalar
unfolding has_source scalar_one_or_none
find_by_source source_type source_uri content_hash base db = scalar_one_or_none (
    Table.select_where (λ id row. has_source source_type source_uri content_hash base row)
      db.documents)

-- The three searches for ready documents, by a test of the row.
unfoldable pub ready_where : (DocumentRow → Bool) → Option String → Db → Table DocumentRow
unfolding is_in_base
ready_where test base db =
    Table.select_where (λ id row. is_ready row.status && (test row && is_in_base base row))
      db.documents

-- `find_ready_by_filename`.
unfoldable pub find_ready_by_filename : String → Option String → Db → Table DocumentRow
unfolding ready_where
find_ready_by_filename filename =
    ready_where (λ row. option_eq row.original_filename (some filename))

-- `if exclude_hash: q.where(DocumentRow.content_hash != exclude_hash)`.
unfoldable pub is_other_content : Option String → DocumentRow → Bool
is_other_content none row = true
is_other_content (some hash) row =
    if str_eq hash "" then true else not (str_eq row.content_hash hash)

-- `find_ready_by_source_uri`.
unfoldable pub find_ready_by_source_uri :
    String → Option String → Option String → Db → Table DocumentRow
unfolding ready_where is_other_content
find_ready_by_source_uri source_uri exclude_hash =
    ready_where (λ row. str_eq row.source_uri source_uri && is_other_content exclude_hash row)

-- `find_ready_by_source_uri_prefix`. `like` is the operator LIKE of the database, with the text first;
-- `startswith` gives it the prefix as it is, with a `%` behind it.
unfoldable pub find_ready_by_source_uri_prefix :
    (String → String → Bool) → String → Option String → Db → Table DocumentRow
unfolding ready_where
find_ready_by_source_uri_prefix like prefix base db =
    if str_eq prefix ""
    then []
    else ready_where (λ row. like row.source_uri (join prefix "%")) base db

-- A row of a table as it is now, of a ready document that the test is true of.
abbrev IsFound : (DocumentRow → Bool) → Db → String × DocumentRow → Type 0
IsFound test db (id, row) =
    (lookup id db.documents ≡ some row) × (is_ready row.status ≡ true) × (test row ≡ true)

All-IsFound :
    (test : DocumentRow → Bool) (base : Option String) (db : Db) (rows : Table DocumentRow)
    → Present db.documents rows
    → All (λ kv. is_ready kv.1.status && (test kv.1 && is_in_base base kv.1) ≡ true) rows
    → All (IsFound test db) rows
All-IsFound test base db [] present passed = tt
All-IsFound test base db ((id, row) ∷ rows) present passed = (
  (present.0, ground (arith, passed.0), ground (arith, passed.0)),
  All-IsFound test base db rows present.1 passed.1,
)

-- Where an id has one row, a search for ready documents gives rows of the table as they are, each of
-- a ready document that the test is true of.
ready_where-IsFound :
    (test : DocumentRow → Bool) (base : Option String) (db : Db)
    → IsUnique db.documents
    → All (IsFound test db) (ready_where test base db)
unfolding ready_where
ready_where-IsFound test base db u =
    let p = λ (id : String) (row : DocumentRow).
      is_ready row.status && (test row && is_in_base base row) in
    All-IsFound test base db (ready_where test base db) (Present-select_where p db.documents u)
      (All-select_where p db.documents)
