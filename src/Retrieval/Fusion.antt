-- ===== src/Retrieval/Fusion.antt =====
-- app/core/retrieval/search.py: the fusion of the two retrievers' results, by reciprocal rank or by
-- weighted scores.
use trustguard_rag.Prelude.{
  ℕ, suc, ◌+◌, Bool, true, false, Option, none, some, List, [], ◌∷◌, map, String, str_eq, or_else,
  if◌then◌else◌,
}
use trustguard_rag.Prelude.Sort.{sort}
use trustguard_rag.Store.Table.{Table, lookup}
use trustguard_rag.Prelude.Text.{show}
use trustguard_rag.Store.Table.{store}
use trustguard_rag.Retrieval.Items.{Item, Floats, text_or, score_or, values}
use trustguard_rag.Retrieval.Variants.{set_scores, score_le}

module _ {S : Type 0} (floats : Floats S) where
  -- `if merged[cid].get(key) is None and value is not None`, for every key.
  unfoldable pub fill : Item S → Item S → Item S
  fill a b = record {
    chunk_id = or_else a.chunk_id b.chunk_id;
    raw_id = or_else a.raw_id b.raw_id;
    document_id = or_else a.document_id b.document_id;
    chunk_index = or_else a.chunk_index b.chunk_index;
    page_no = or_else a.page_no b.page_no;
    text = or_else a.text b.text;
    source_uri = or_else a.source_uri b.source_uri;
    original_filename = or_else a.original_filename b.original_filename;
    entity_id = or_else a.entity_id b.entity_id;
    entity_ids = or_else a.entity_ids b.entity_ids;
    metadata = or_else a.metadata b.metadata;
    score = or_else a.score b.score;
    vector_score = or_else a.vector_score b.vector_score;
    keyword_score = or_else a.keyword_score b.keyword_score;
    rerank_score = or_else a.rerank_score b.rerank_score;
    rrf_score = or_else a.rrf_score b.rrf_score;
    weighted_score = or_else a.weighted_score b.weighted_score;
    vector_rank = or_else a.vector_rank b.vector_rank;
    keyword_rank = or_else a.keyword_rank b.keyword_rank;
    exact_entity_match = or_else a.exact_entity_match b.exact_entity_match;
    matched_queries = a.matched_queries;
    expanded = a.expanded;
  }

  -- `score or 0`.
  abbrev pub score_of : Item S → S
  score_of item = score_or floats.zero_score item.score

  -- `chunk_id or _id or str(rank)`.
  unfoldable pub rrf_key : ℕ → Item S → String
  rrf_key rank item = text_or item.chunk_id (text_or item.raw_id (show rank))

  -- `1.0 / (k + rank + 1)`.
  unfoldable pub rrf_share : ℕ → ℕ → S
  rrf_share k rank = floats.over floats.one_score (floats.of_int (k + rank + 1))

  -- An item's keys after one source has been added to it: `from_vector` says which prefix.
  unfoldable pub credit : Bool → ℕ → ℕ → Item S → Item S → Item S
  credit from_vector k rank item merged =
      let rrf = floats.plus (score_or floats.zero_score merged.rrf_score) (rrf_share k rank) in
      if from_vector
      then set_scores floats merged.score item.score merged.keyword_score (some rrf)
          merged.weighted_score (some (rank + 1)) merged.keyword_rank merged.matched_queries merged
      else set_scores floats merged.score merged.vector_score item.score (some rrf)
          merged.weighted_score merged.vector_rank (some (rank + 1)) merged.matched_queries merged

  -- The item that is credited: a new one, or that under the key with what it lacks.
  abbrev pub filled : Item S → Option (Item S) → Item S
  filled item none = item
  filled item (some m) = fill m item

  -- `_add`, from a rank on.
  unfoldable pub rrf_add : Bool → ℕ → ℕ → List (Item S) → Table (Item S) → Table (Item S)
  rrf_add from_vector k rank [] merged = merged
  rrf_add from_vector k rank (item ∷ items) merged =
      let key = rrf_key rank item in
      rrf_add from_vector k (suc rank) items
        (store key (credit from_vector k rank item (filled item (lookup key merged))) merged)

  abbrev pub rrf_le : Item S → Item S → Bool
  rrf_le a b =
      floats.le (score_or floats.zero_score b.rrf_score) (score_or floats.zero_score a.rrf_score)

  -- `item["score"] = item.get("rrf_score", 0)`.
  abbrev pub take_rrf_score : Item S → Item S
  take_rrf_score item =
      set_scores floats (some (score_or floats.zero_score item.rrf_score)) item.vector_score
        item.keyword_score item.rrf_score item.weighted_score item.vector_rank item.keyword_rank
        item.matched_queries item

  -- The two sources under their keys.
  unfoldable pub rrf_merged : ℕ → List (Item S) → List (Item S) → Table (Item S)
  rrf_merged k vector keyword = rrf_add false k 0 keyword (rrf_add true k 0 vector [])

  -- `_rrf_fusion`.
  unfoldable pub rrf_fusion : ℕ → List (Item S) → List (Item S) → List (Item S)
  rrf_fusion k vector keyword =
      map take_rrf_score (sort rrf_le (values (rrf_merged k vector keyword)))

  -- `min` and `max` of a score and more of them.
  unfoldable pub lowest : S → List S → S
  lowest lo [] = lo
  lowest lo (s ∷ ss) = lowest (if floats.le lo s then lo else s) ss

  unfoldable pub highest : S → List S → S
  highest hi [] = hi
  highest hi (s ∷ ss) = highest (if floats.le s hi then hi else s) ss

  abbrev pub scaled : S → S → S → S
  scaled lo span s = floats.over (floats.minus s lo) span

  -- `_minmax_normalize`.
  unfoldable pub minmax_normalize : List S → List S
  minmax_normalize [] = []
  minmax_normalize (s ∷ ss) =
      let lo = lowest s ss in
      let hi = highest s ss in
      if floats.le hi lo
      then map (λ _. floats.one_score) (s ∷ ss)
      else map (scaled lo (floats.minus hi lo)) (s ∷ ss)

  -- `item.get("chunk_id") or ""`.
  abbrev pub chunk_key : Item S → String
  chunk_key item = text_or item.chunk_id ""

  -- The two items that the weighted fusion writes: with the weighted score.
  abbrev pub weigh : Option S → Option S → S → Item S → Item S
  weigh vector keyword weighted item =
      set_scores floats (some weighted) vector keyword item.rrf_score (some weighted)
        item.vector_rank item.keyword_rank item.matched_queries item

  unfoldable pub add_vector : S → List (Item S) → List S → Table (Item S) → Table (Item S)
  add_vector weight (item ∷ items) (norm ∷ norms) merged = add_vector weight items norms (
      store (chunk_key item) (weigh (some (score_of item)) none (floats.times norm weight) item)
        merged)
  add_vector weight _ _ merged = merged

  -- The entry of a keyword result, alone or on that of a vector result.
  unfoldable pub keyword_entry : S → Item S → Option (Item S) → Item S
  keyword_entry share item none = weigh none (some (score_of item)) share item
  keyword_entry share item (some m) =
      let base = fill m item in
      weigh base.vector_score (some (score_of item))
        (floats.plus (score_or floats.zero_score base.weighted_score) share) base

  unfoldable pub add_keyword : S → List (Item S) → List S → Table (Item S) → Table (Item S)
  add_keyword weight (item ∷ items) (norm ∷ norms) merged =
      let share = floats.times norm weight in
      add_keyword weight items norms
        (store (chunk_key item) (keyword_entry share item (lookup (chunk_key item) merged)) merged)
  add_keyword weight _ _ merged = merged

  unfoldable pub weighted_merged : S → S → List (Item S) → List (Item S) → Table (Item S)
  weighted_merged vector_weight keyword_weight vector keyword =
      add_keyword keyword_weight keyword (minmax_normalize (map score_of keyword))
        (add_vector vector_weight vector (minmax_normalize (map score_of vector)) [])

  -- `_weighted_score_fusion`.
  unfoldable pub weighted_score_fusion : S → S → List (Item S) → List (Item S) → List (Item S)
  weighted_score_fusion vector_weight keyword_weight vector keyword =
      sort (score_le floats) (values (weighted_merged vector_weight keyword_weight vector keyword))

  -- `_merge_results`.
  unfoldable pub merge_results : String → ℕ → S → S → List (Item S) → List (Item S) → List (Item S)
  merge_results method k vector_weight keyword_weight vector keyword =
      if str_eq method "rrf"
      then rrf_fusion k vector keyword
      else weighted_score_fusion vector_weight keyword_weight vector keyword
