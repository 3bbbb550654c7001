-- ===== src/Retrieval/Reranker.antt =====
-- app/core/retrieval/reranker.py: the rerankers, on the scores that the model or the service gives.
use trustguard_rag.Prelude.{
  ℕ, zero, suc, min, ◌==◌, Bool, true, false, Option, none, some, List, [], ◌∷◌, map, take, length,
  or_default, ◌>>=◌, if◌then◌else◌,
}
use trustguard_rag.Prelude.Sort.{sort}
use trustguard_rag.Retrieval.Items.{Item, Floats, score_or}

-- `self._provider`, with what it calls, `none` where that fails: the local model's score of each
-- pair, or the service's results, whose index is `none` where it is negative.
pub data Reranker (S : Type 0) : Type 0 where
  none_provider : Reranker S
  local : (List (Item S) → Option (List S)) → Reranker S
  api : (List (Item S) → ℕ → Option (List (Option ℕ × S))) → Reranker S

-- `candidates[index]`, where the index is in range.
unfoldable pub get_elem? {ℓ} : {A : Type ℓ} → List A → ℕ → Option A
get_elem? [] i = none
get_elem? (x ∷ xs) zero = some x
get_elem? (x ∷ xs) (suc i) = get_elem? xs i

-- `index in seen_indexes`.
abbrev pub is_seen : ℕ → List ℕ → Bool
is_seen i [] = false
is_seen i (j ∷ js) = if i == j then true else is_seen i js

module _ {S : Type 0} where
  -- `candidate["rerank_score"] = score`.
  unfoldable pub set_rerank_score : S → Item S → Item S
  set_rerank_score s item = record {
    chunk_id = item.chunk_id;
    raw_id = item.raw_id;
    document_id = item.document_id;
    chunk_index = item.chunk_index;
    page_no = item.page_no;
    text = item.text;
    source_uri = item.source_uri;
    original_filename = item.original_filename;
    entity_id = item.entity_id;
    entity_ids = item.entity_ids;
    metadata = item.metadata;
    score = item.score;
    vector_score = item.vector_score;
    keyword_score = item.keyword_score;
    rerank_score = some s;
    rrf_score = item.rrf_score;
    weighted_score = item.weighted_score;
    vector_rank = item.vector_rank;
    keyword_rank = item.keyword_rank;
    exact_entity_match = item.exact_entity_match;
    matched_queries = item.matched_queries;
    expanded = item.expanded;
  }

  -- `zip(scores, candidates)`.
  unfoldable pub scored : List S → List (Item S) → List (S × Item S)
  scored [] items = []
  scored (s ∷ ss) [] = []
  scored (s ∷ ss) (item ∷ items) = (s, item) ∷ scored ss items

  abbrev pub with_score : S × Item S → Item S
  with_score pair = set_rerank_score pair.0 pair.1

  -- The loop over the service's results, with the indexes that were seen: `none` where an index is
  -- out of range or comes again.
  unfoldable pub ranked_from : List (Item S) → List ℕ → List (Option ℕ × S) → Option (List (Item S))
  ranked_from candidates seen [] = some []
  ranked_from candidates seen ((none, score) ∷ results) = none
  ranked_from candidates seen ((some index, score) ∷ results) =
      if is_seen index seen then none else do
        candidate ← get_elem? candidates index
        ranked ← ranked_from candidates (index ∷ seen) results
        some (set_rerank_score score candidate ∷ ranked)

  module _ (floats : Floats S) where
    -- `sort(key=score, reverse=True)`.
    abbrev pub pair_le : S × Item S → S × Item S → Bool
    pair_le a b = floats.le b.0 a.0

    abbrev pub rerank_le : Item S → Item S → Bool
    rerank_le a b =
        floats.le (score_or floats.zero_score b.rerank_score)
          (score_or floats.zero_score a.rerank_score)

    -- `_bge_rerank`.
    unfoldable pub bge_rerank : Option (List S) → List (Item S) → ℕ → Option (List (Item S))
    bge_rerank none candidates top_k = none
    bge_rerank (some scores) candidates top_k =
        some (map with_score (take top_k (sort pair_le (scored scores candidates))))

    abbrev of_length : ℕ → List (Item S) → Option (List (Item S))
    of_length n ranked = if length ranked == n then some (sort rerank_le ranked) else none

    -- `_call_api`, on the response that came.
    unfoldable pub api_rerank :
        Option (List (Option ℕ × S)) → List (Item S) → ℕ → Option (List (Item S))
    api_rerank response candidates top_k = do
      results ← response
      ranked ← ranked_from candidates [] results
      of_length (min top_k (length candidates)) ranked

    abbrev dispatch : Reranker S → List (Item S) → ℕ → Option (List (Item S))
    dispatch none_provider candidates top_k = some (take top_k candidates)
    dispatch (local model) candidates top_k = bge_rerank (model candidates) candidates top_k
    dispatch (api service) candidates top_k =
        api_rerank (service candidates (min top_k (length candidates))) candidates top_k

    -- `Reranker.rerank`; `none` is a `RerankError`.
    unfoldable pub rerank_candidates : Reranker S → ℕ → List (Item S) → ℕ → Option (List (Item S))
    rerank_candidates reranker search_top_k [] top_k = some []
    rerank_candidates reranker search_top_k candidates top_k =
        dispatch reranker candidates
          (or_default (or_default top_k search_top_k) (length candidates))
