-- ===== src/Retrieval/Search.antt =====
-- app/core/retrieval/search.py: `HybridSearch.search`, by its stages.
use trustguard_rag.Prelude.{
  is_nil, ℕ, Bool, false, not, ◌&&◌, Option, none, some, List, [], ◌∷◌, ◌++◌, String, str_eq, leb,
  ltb, if◌then◌else◌, or_default,
}
use trustguard_rag.Prelude.Text.{strip}
use trustguard_rag.Retrieval.Items.{Item, Floats}
use trustguard_rag.Retrieval.Ranking.{
  RetrievalComponent, vector, keyword, EffectiveSearchMode, Attempt, retrieve_with_retry,
}
use trustguard_rag.Retrieval.Variants.{retrieve_query_variants}
use trustguard_rag.Retrieval.Reranker.{Reranker}
use trustguard_rag.Retrieval.Expansion.{Neighbour}

-- The settings that the search reads.
pub record SearchSettings (S : Type 0) : Type 0 where
  pub search_top_k : ℕ
  pub search_fusion_method : String
  pub search_vector_weight : S
  pub search_keyword_weight : S
  pub search_rrf_k : ℕ
  pub search_vector_top_k : ℕ
  pub search_keyword_top_k : ℕ
  pub search_component_max_retries : ℕ
  pub rerank_top_k : ℕ

-- The arguments of `search` that decide what it does; the arguments that only go to the retrievers are in what these return.
pub record SearchRequest (S : Type 0) : Type 0 where
  pub query : String
  pub semantic_queries : List String
  pub keyword_queries : List String
  pub knowledge_base_id : String
  pub top_k : Option ℕ
  pub vector_top_k : Option ℕ
  pub keyword_top_k : Option ℕ
  pub max_chunks_per_document : ℕ
  pub fusion_method : Option String
  pub vector_weight : Option S
  pub keyword_weight : Option S
  pub enable_rerank : Bool
  pub enable_vector : Bool
  pub enable_keyword : Bool
  pub enable_abstention : Bool
  pub allow_keyword_fallback : Bool
  pub min_vector_score : Option S
  pub require_exact_entity_match : Bool
  pub component_max_retries : Option ℕ
  pub rerank_candidate_top_k : Option ℕ
  pub adjacent_chunk_radius : ℕ

-- What the search asks of the other parts: the entities of the query and of an item, what the
-- retrievers give for a query in their n-th attempt, the neighbours of the anchors and the reranker.
pub record Engines (S : Type 0) : Type 0 where
  pub query_entities : List String
  pub entities : Item S → Option String × List String
  pub vector_retriever : ℕ → String → Attempt (List (Item S))
  pub keyword_retriever : ℕ → String → Attempt (List (Item S))
  pub neighbours : List (Item S) → ℕ → List Neighbour
  pub reranker : Reranker S

pub data SearchError : Type 0 where
  invalid : String → SearchError
  unavailable : String → SearchError

pub data AbstentionReason : Type 0 where
  vector_unavailable no_exact_entity_match low_vector_score : AbstentionReason

-- What the retrievers gave.
pub record Gathered (S : Type 0) : Type 0 where
  pub degraded : List RetrievalComponent
  pub available : List RetrievalComponent
  pub recovered : List RetrievalComponent
  pub vector_results : List (Item S)
  pub keyword_results : List (Item S)

pub record SearchResponse (S : Type 0) : Type 0 where
  pub mode : EffectiveSearchMode
  pub results : List (Item S)
  pub degraded_components : List RetrievalComponent
  pub recovered_components : List RetrievalComponent
  pub deduplicated_chunks : ℕ
  pub abstention_reason : Option AbstentionReason

-- `n or default`.
abbrev pub number_or : Option ℕ → ℕ → ℕ
number_or none d = d
number_or (some n) d = or_default n d

abbrev pub given_or {ℓ} : {A : Type ℓ} → Option A → A → A
given_or none d = d
given_or (some a) d = a

abbrev between : ℕ → ℕ → ℕ → Bool
between lo hi n = if leb lo n then leb n hi else false

module _ {S : Type 0} where
  -- The checks of the arguments, in their order; `none` where they pass.
  unfoldable pub refusal : SearchSettings S → SearchRequest S → Option SearchError
  refusal s r =
      if str_eq (strip r.knowledge_base_id) ""
      then some (invalid "knowledge_base_id is required")
      else if not (between 1 10 r.max_chunks_per_document)
      then some (invalid "max_chunks_per_document must be between 1 and 10")
      else if not (between 1 200 (number_or r.rerank_candidate_top_k s.rerank_top_k))
      then some (invalid "rerank_candidate_top_k must be between 1 and 200")
      else if not (between 0 3 r.adjacent_chunk_radius)
      then some (invalid "adjacent_chunk_radius must be between 0 and 3")
      else if not (between 0 5 (given_or r.component_max_retries s.search_component_max_retries))
      then some (invalid "component_max_retries must be between 0 and 5")
      else if r.enable_vector
      then none
      else if r.enable_keyword
      then none
      else some (invalid "At least one retrieval backend must be enabled")

  -- A component's outcome, noted.
  unfoldable pub note_vector : Option (List (Item S)) × ℕ → Gathered S → Gathered S
  note_vector (none, attempts) g = record {
    degraded = g.degraded ++ vector ∷ [];
    available = g.available;
    recovered = g.recovered;
    vector_results = g.vector_results;
    keyword_results = g.keyword_results;
  }
  note_vector (some items, attempts) g = record {
    degraded = g.degraded;
    available = g.available ++ vector ∷ [];
    recovered = if ltb 1 attempts then g.recovered ++ vector ∷ [] else g.recovered;
    vector_results = items;
    keyword_results = g.keyword_results;
  }

  unfoldable pub note_keyword : Option (List (Item S)) × ℕ → Gathered S → Gathered S
  note_keyword (none, attempts) g = record {
    degraded = g.degraded ++ keyword ∷ [];
    available = g.available;
    recovered = g.recovered;
    vector_results = g.vector_results;
    keyword_results = g.keyword_results;
  }
  note_keyword (some items, attempts) g = record {
    degraded = g.degraded;
    available = g.available ++ keyword ∷ [];
    recovered = if ltb 1 attempts then g.recovered ++ keyword ∷ [] else g.recovered;
    vector_results = g.vector_results;
    keyword_results = items;
  }

  abbrev pub nothing_gathered : Gathered S
  nothing_gathered = record {
    degraded = [];
    available = [];
    recovered = [];
    vector_results = [];
    keyword_results = [];
  }

  -- The two ways in which nothing reliable came back.
  unfoldable pub outage : Gathered S → Option SearchError
  outage g =
      if is_nil g.available
      then some (unavailable "All enabled retrieval backends are unavailable")
      else if is_nil g.degraded
      then none
      else if is_nil g.vector_results && is_nil g.keyword_results
      then some (unavailable "Retrieval is incomplete and no reliable result is available")
      else none

  module _ (floats : Floats S) (s : SearchSettings S) (r : SearchRequest S)
      (engines : Engines S) where
    -- The operations of the two components, by the number of the attempt.
    unfoldable pub vector_attempt : ℕ → Attempt (List (Item S))
    vector_attempt n =
        retrieve_query_variants floats (engines.vector_retriever n) (r.query ∷ r.semantic_queries)
          (number_or r.vector_top_k s.search_vector_top_k)

    unfoldable pub keyword_attempt : ℕ → Attempt (List (Item S))
    keyword_attempt n =
        retrieve_query_variants floats (engines.keyword_retriever n) (r.query ∷ r.keyword_queries)
          (number_or r.keyword_top_k s.search_keyword_top_k)

    -- The enabled components, each with its retries.
    unfoldable pub gather : Gathered S
    gather =
        let retries = given_or r.component_max_retries s.search_component_max_retries in
        let first =
          if r.enable_vector
          then note_vector (retrieve_with_retry vector_attempt retries 1) nothing_gathered
          else nothing_gathered in
        if r.enable_keyword
        then note_keyword (retrieve_with_retry keyword_attempt retries 1) first
        else first
