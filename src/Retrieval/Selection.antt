-- ===== src/Retrieval/Selection.antt =====
-- app/core/retrieval/search.py: `HybridSearch.search` from the results of the retrievers on, which
-- are the items that are kept, whether the search abstains, and the ranking.
use trustguard_rag.Prelude.{
  is_nil, ℕ, ◌+◌, max, Bool, true, false, not, ◌&&◌, Option, none, some, List, [], ◌∷◌, ◌++◌,
  String, contains, take, filter_by, is_some, if◌then◌else◌, ◌==◌,
}
use trustguard_rag.Store.Rows.{Db}
use trustguard_rag.Documents.{ready_ids}
use trustguard_rag.Prelude.Text.{strip}
use trustguard_rag.Retrieval.Items.{Item, Floats, text_or, is_given}
use trustguard_rag.Retrieval.Ranking.{
  RetrievalComponent, rerank, effective_mode, any_of, is_vector, promote_exact_entity_matches,
  deduplicate_by_document,
}
use trustguard_rag.Retrieval.Variants.{distinct_from}
use trustguard_rag.Retrieval.Fusion.{merge_results}
use trustguard_rag.Retrieval.Expansion.{expand_adjacent_chunks}
use trustguard_rag.Retrieval.Reranker.{rerank_candidates}
use trustguard_rag.Retrieval.Search.{
  SearchSettings, SearchRequest, Engines, SearchError, AbstentionReason, vector_unavailable,
  no_exact_entity_match, low_vector_score, Gathered, SearchResponse, number_or, given_or, refusal,
  gather, outage,
}

-- The result of `search`, or the exception that it raises.
pub data Searched (S : Type 0) : Type 0 where
  refused : SearchError → Searched S
  answered : SearchResponse S → Searched S

-- `str(document_id)` among the ids.
abbrev pub named_in : List String → Option String → Bool
named_in ids none = contains "None" ids
named_in ids (some d) = contains d ids

module _ {S : Type 0} where
  -- The documents that the items name.
  unfoldable pub document_ids : List (Item S) → List String
  document_ids [] = []
  document_ids (item ∷ items) =
      let rest = document_ids items in
      if is_given item.document_id then text_or item.document_id "" ∷ rest else rest

  -- `str(item.get("document_id")) in ready_ids`.
  abbrev pub is_in_ready : List String → Item S → Bool
  is_in_ready ids item = named_in ids item.document_id

  -- The items whose documents the knowledge base has, ready.
  unfoldable pub keep_ready : String → Db → List (Item S) → List (Item S)
  keep_ready knowledge_base_id db items =
      filter_by
        (is_in_ready (ready_ids (distinct_from [] (document_ids items)) knowledge_base_id db)) items

  abbrev pub is_exact : Item S → Bool
  is_exact item = is_some item.exact_entity_match

  abbrev scores_at_least : Floats S → S → Option S → Bool
  scores_at_least floats bound none = false
  scores_at_least floats bound (some s) = floats.le bound s

  -- `vector_score is not None and vector_score >= min_vector_score`.
  abbrev pub is_trusted : Floats S → S → Item S → Bool
  is_trusted floats bound item = scores_at_least floats bound item.vector_score

  abbrev pub is_supported : Floats S → S → Item S → Bool
  is_supported floats bound item =
      if is_some item.keyword_score then true else is_trusted floats bound item

  abbrev pub any_item : (Item S → Bool) → List (Item S) → Bool
  any_item p [] = false
  any_item p (item ∷ items) = if p item then true else any_item p items

  -- With a bound on the vector score, or without.
  unfoldable pub trust :
      Floats S → Option S → List (Item S) → List (Item S) × Option AbstentionReason
  trust floats none items = (items, none)
  trust floats (some bound) items =
      if any_item (is_trusted floats bound) items
      then (filter_by (is_supported floats bound) items, none)
      else ([], some low_vector_score)

  abbrev pub exact_only : List (Item S) → List (Item S) × Option AbstentionReason
  exact_only items = (items, if is_nil items then some no_exact_entity_match else none)

  -- The abstention: the items that stay, and why there are none.
  unfoldable pub abstain :
      Floats S
      → SearchRequest S
      → List String
      → Gathered S
      → List (Item S)
      → List (Item S) × Option AbstentionReason
  abstain floats r query_entities g items =
      if not r.enable_abstention
      then (items, none)
      else if (r.enable_vector && any_of is_vector g.degraded) && not r.allow_keyword_fallback
      then ([], some vector_unavailable)
      else if not (is_nil query_entities) && r.require_exact_entity_match
      then exact_only (filter_by is_exact items)
      else if r.enable_vector && any_of is_vector g.available
      then trust floats r.min_vector_score items
      else (items, none)

  module _ (floats : Floats S) where
    -- The ranking of candidates by the reranker, or in their order where it fails.
    unfoldable pub reranked :
        Engines S → ℕ → ℕ → List (Item S) → List (Item S) × List RetrievalComponent
    reranked engines search_top_k top_k candidates =
        elim (rerank_candidates floats engines.reranker search_top_k candidates top_k) [
          | none ↦ (take top_k candidates, rerank ∷ [])
          | some items ↦ (items, [])
        ]

    -- The last stage: the items, the number removed, and the reranker where it failed.
    unfoldable pub rank :
        SearchSettings S
        → SearchRequest S
        → Engines S
        → ℕ
        → List (Item S)
        → List (Item S) × ℕ × List RetrievalComponent
    rank s r engines top_k items =
        let limit = r.max_chunks_per_document in
        let plain = deduplicate_by_document limit items in
        let pool = deduplicate_by_document (max limit 3) items in
        let answer =
          reranked engines s.search_top_k top_k
            (take (number_or r.rerank_candidate_top_k s.rerank_top_k) pool.0) in
        let final =
          deduplicate_by_document limit
            (promote_exact_entity_matches engines.entities answer.0 engines.query_entities) in
        if r.enable_rerank && not (is_nil items)
        then (final.0, pool.1 + final.1, answer.1)
        else (plain.0, plain.1, [])

    -- The items that the retrievers' results come to, before the abstention.
    unfoldable pub candidates :
        SearchSettings S → SearchRequest S → Engines S → Db → Gathered S → List (Item S)
    candidates s r engines db g =
        let merged =
          merge_results floats (given_or r.fusion_method s.search_fusion_method) s.search_rrf_k
            (given_or r.vector_weight s.search_vector_weight)
            (given_or r.keyword_weight s.search_keyword_weight) g.vector_results
            g.keyword_results in
        let ready = keep_ready (strip r.knowledge_base_id) db merged in
        let wide =
          expand_adjacent_chunks floats ready (engines.neighbours ready r.adjacent_chunk_radius) in
        promote_exact_entity_matches engines.entities
          (if r.adjacent_chunk_radius == 0 then ready else if is_nil ready then ready else wide)
          engines.query_entities

    -- The response from the gathered results.
    unfoldable pub respond :
        SearchSettings S → SearchRequest S → Engines S → Db → Gathered S → SearchResponse S
    respond s r engines db g =
        let top_k = number_or r.top_k s.search_top_k in
        let kept = abstain floats r engines.query_entities g (candidates s r engines db g) in
        let ranked = rank s r engines top_k kept.0 in
        record {
          mode = effective_mode g.available;
          results = take top_k ranked.0;
          degraded_components = g.degraded ++ ranked.2;
          recovered_components = g.recovered;
          deduplicated_chunks = ranked.1;
          abstention_reason = kept.1;
        }

    -- `search`.
    unfoldable pub search : SearchSettings S → SearchRequest S → Engines S → Db → Searched S
    search s r engines db =
        let g = gather floats s r engines in
        elim (refusal s r) [
          | some error ↦ refused error
          | none ↦ elim (outage g) [
            | some error ↦ refused error
            | none ↦ answered (respond s r engines db g)
          ]
        ]
