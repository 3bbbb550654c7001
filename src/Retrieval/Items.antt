-- ===== src/Retrieval/Items.antt =====
-- app/core/retrieval/search.py: the items that retrieval passes on, which are dictionaries read
-- with `get`, and the arithmetic on their scores.
use trustguard_rag.Prelude.{
  ℕ, Bool, true, false, Option, none, some, List, String, str_eq, if◌then◌else◌, [], ◌∷◌,
}
use trustguard_rag.Prelude.Text.{show}
use trustguard_rag.Store.Table.{Table}
use trustguard_rag.Store.Values.{Dict}
use Prim.Native.String.{◌++◌ as join}

-- What the code asks of Python's floats.
pub record Floats (S : Type 0) : Type 0 where
  pub zero_score : S
  pub one_score : S
  pub plus : S → S → S
  pub minus : S → S → S
  pub times : S → S → S
  pub over : S → S → S
  pub of_int : ℕ → S
  -- `m / 10`, as the literal of it reads.
  pub tenths : ℕ → S
  pub power : S → ℕ → S
  pub le : S → S → Bool

-- `exact_entity_match`.
pub data Match : Type 0 where
  primary related : Match

-- An item: `none` for a key that is absent or `None`. `raw_id` is `_id`.
pub record Item (S : Type 0) : Type 0 where
  pub chunk_id : Option String
  pub raw_id : Option String
  pub document_id : Option String
  pub chunk_index : Option ℕ
  pub page_no : Option ℕ
  pub text : Option String
  pub source_uri : Option String
  pub original_filename : Option String
  pub entity_id : Option String
  pub entity_ids : Option (List String)
  pub metadata : Option Dict
  pub score : Option S
  pub vector_score : Option S
  pub keyword_score : Option S
  pub rerank_score : Option S
  pub rrf_score : Option S
  pub weighted_score : Option S
  pub vector_rank : Option ℕ
  pub keyword_rank : Option ℕ
  pub exact_entity_match : Option Match
  pub matched_queries : List String
  pub expanded : Bool

-- `a or b` on texts, where the empty text is false as `None` is.
abbrev pub text_or : Option String → String → String
text_or none d = d
text_or (some s) d = if str_eq s "" then d else s

-- `if text:`.
abbrev pub is_given : Option String → Bool
is_given none = false
is_given (some s) = if str_eq s "" then false else true

-- `str(item.get(k) or "")` and the like read a missing score as zero.
abbrev pub score_or : {S : Type 0} → S → Option S → S
score_or d none = d
score_or d (some s) = s

-- The key that names a document's group, or a chunk that has no document.
unfoldable pub group_key : {S : Type 0} → ℕ → Item S → String
group_key position item =
    if is_given item.document_id
    then join "document:" (text_or item.document_id "")
    else join "chunk:" (text_or item.chunk_id (text_or item.raw_id (show position)))

-- `d.values()`.
abbrev pub values {ℓ} : {A : Type ℓ} → Table A → List A
values [] = []
values ((_, a) ∷ d) = a ∷ values d
