-- ===== src/Retrieval/Expansion.antt =====
-- app/core/retrieval/search.py: `_expand_adjacent_chunks`.
use trustguard_rag.Prelude.{
  ℕ, ◌+◌, ◌-◌, true, Option, none, some, List, [], ◌∷◌, ◌++◌, map, String, str_eq, ltb, contains,
  if◌then◌else◌,
}
use trustguard_rag.Prelude.Sort.{sort}
use trustguard_rag.Store.Values.{Dict}
use trustguard_rag.Retrieval.Items.{Item, Floats, text_or, is_given, score_or}
use trustguard_rag.Retrieval.Variants.{score_le}

-- A chunk next to an anchor, with the document's columns that the item shows.
pub record Neighbour : Type 0 where
  pub id : String
  pub document_id : String
  pub chunk_index : ℕ
  pub text : String
  pub page_no : Option ℕ
  pub metadata_json : Dict
  pub source_uri : Option String
  pub original_filename : Option String

-- An item that has a document and an index, with them.
pub record Anchor (S : Type 0) : Type 0 where
  pub document_id : String
  pub chunk_index : ℕ
  pub score : Option S

-- `str` of an optional text.
abbrev or_none_text : Option String → String
or_none_text none = "None"
or_none_text (some s) = s

-- `abs(a - b)`.
abbrev pub distance : ℕ → ℕ → ℕ
distance a b = a - b + (b - a)

module _ {S : Type 0} where
  abbrev pub anchor_of : Item S → Option ℕ → List (Anchor S)
  anchor_of item none = []
  anchor_of item (some i) =
      if is_given item.document_id
      then record { document_id = text_or item.document_id ""; chunk_index = i; score = item.score }
        ∷ []
      else []

  -- The anchors among the items, in their order.
  unfoldable pub anchors : List (Item S) → List (Anchor S)
  anchors [] = []
  anchors (item ∷ items) = anchor_of item item.chunk_index ++ anchors items

  -- `min(candidates, key=distance)` among the anchors of a document: the first of the nearest.
  unfoldable pub nearest : Neighbour → Option (Anchor S) → List (Anchor S) → Option (Anchor S)
  nearest chunk best [] = best
  nearest chunk none (a ∷ rest) =
      if str_eq a.document_id chunk.document_id
      then nearest chunk (some a) rest
      else nearest chunk none rest
  nearest chunk (some b) (a ∷ rest) =
      if str_eq a.document_id chunk.document_id
      then if ltb (distance a.chunk_index chunk.chunk_index)
          (distance b.chunk_index chunk.chunk_index)
        then nearest chunk (some a) rest
        else nearest chunk (some b) rest
      else nearest chunk (some b) rest

  -- `str(chunk_id or _id)`.
  abbrev pub id_of : Item S → String
  id_of item = text_or item.chunk_id (or_none_text item.raw_id)

  module _ (floats : Floats S) where
    -- The item of a neighbour: `score * 0.9 ** distance`.
    unfoldable pub neighbour_item : Neighbour → Anchor S → Item S
    neighbour_item chunk anchor = record {
      chunk_id = some chunk.id;
      raw_id = none;
      document_id = some chunk.document_id;
      chunk_index = some chunk.chunk_index;
      page_no = chunk.page_no;
      text = some chunk.text;
      source_uri = chunk.source_uri;
      original_filename = chunk.original_filename;
      entity_id = none;
      entity_ids = none;
      metadata = some chunk.metadata_json;
      score = some (
          floats.times (score_or floats.zero_score anchor.score)
            (floats.power (floats.tenths 9) (distance anchor.chunk_index chunk.chunk_index)));
      vector_score = none;
      keyword_score = none;
      rerank_score = none;
      rrf_score = none;
      weighted_score = none;
      vector_rank = none;
      keyword_rank = none;
      exact_entity_match = none;
      matched_queries = [];
      expanded = true;
    }

    -- The items that the neighbours add, with the chunks that are there already.
    unfoldable pub added : List (Anchor S) → List String → List Neighbour → List (Item S)
    added around existing [] = []
    added around existing (chunk ∷ chunks) =
        let rest = added around existing chunks in
        let after = added around (chunk.id ∷ existing) chunks in
        if contains chunk.id existing then rest else elim (nearest chunk none around) [
          | none ↦ rest
          | some a ↦ neighbour_item chunk a ∷ after
        ]

    -- `_expand_adjacent_chunks` on the rows that the chunk store gave.
    unfoldable pub expand_adjacent_chunks : List (Item S) → List Neighbour → List (Item S)
    expand_adjacent_chunks items rows =
        sort (score_le floats) (items ++ added (anchors items) (map id_of items) rows)
