-- ===== src/Retrieval/Variants.antt =====
-- app/core/retrieval/search.py: the results of the variants of a query, merged by chunk.
use trustguard_rag.Prelude.{
  str_eq, ℕ, suc, Bool, true, false, Option, none, some, List, [], ◌∷◌, ◌++◌, String, contains,
  take, if◌then◌else◌,
}
use trustguard_rag.Prelude.Sort.{sort}
use trustguard_rag.Prelude.Text.{strip}
use trustguard_rag.Retrieval.Ranking.{Attempt, found, failed}
use trustguard_rag.Store.Table.{Table, lookup}
use trustguard_rag.Prelude.Text.{show}
use trustguard_rag.Store.Table.{store}
use trustguard_rag.Retrieval.Items.{Item, Floats, text_or, score_or, values}
use Prim.Native.String.{◌++◌ as join}

-- `list(dict.fromkeys(…))`, with what has been seen.
unfoldable pub distinct_from : List String → List String → List String
distinct_from seen [] = []
distinct_from seen (x ∷ xs) =
    let fresh = distinct_from (x ∷ seen) xs in
    let rest = distinct_from seen xs in if contains x seen then rest else x ∷ fresh

-- The queries that are not blank, stripped, each once.
abbrev stripped : List String → List String
stripped [] = []
stripped (q ∷ qs) = if str_eq (strip q) "" then stripped qs else strip q ∷ stripped qs

unfoldable pub unique_queries : List String → List String
unfolding distinct_from strip
unique_queries queries = distinct_from [] (stripped queries)

module _ {S : Type 0} (floats : Floats S) where
  -- `sorted(…, key=score, reverse=True)`: the higher score first, equals in their order.
  abbrev pub score_le : Item S → Item S → Bool
  score_le a b = floats.le (score_or floats.zero_score b.score) (score_or floats.zero_score a.score)

  -- The keys of an item that a fusion or a merge writes, the others kept.
  unfoldable pub set_scores :
      Option S
      → Option S
      → Option S
      → Option S
      → Option S
      → Option ℕ
      → Option ℕ
      → List String
      → Item S
      → Item S
  set_scores score vector keyword rrf weighted vector_rank keyword_rank queries item = record {
    chunk_id = item.chunk_id;
    raw_id = item.raw_id;
    document_id = item.document_id;
    chunk_index = item.chunk_index;
    page_no = item.page_no;
    text = item.text;
    source_uri = item.source_uri;
    original_filename = item.original_filename;
    entity_id = item.entity_id;
    entity_ids = item.entity_ids;
    metadata = item.metadata;
    score = score;
    vector_score = vector;
    keyword_score = keyword;
    rerank_score = item.rerank_score;
    rrf_score = rrf;
    weighted_score = weighted;
    vector_rank = vector_rank;
    keyword_rank = keyword_rank;
    exact_entity_match = item.exact_entity_match;
    matched_queries = queries;
    expanded = item.expanded;
  }

  abbrev pub with_queries : List String → Item S → Item S
  with_queries queries item =
      set_scores item.score item.vector_score item.keyword_score item.rrf_score item.weighted_score
        item.vector_rank item.keyword_rank queries item

  -- The queries that the two matched, without repetition.
  abbrev pub add_query : String → List String → List String
  add_query q matched = if contains q matched then matched else matched ++ q ∷ []

  -- The item that is kept of two under one key: the one whose score is greater.
  unfoldable pub better : String → Item S → Item S → Item S
  better q existing candidate =
      let matched = add_query q existing.matched_queries in
      if floats.le (score_or floats.zero_score candidate.score)
        (score_or floats.zero_score existing.score)
      then with_queries matched existing
      else with_queries matched candidate

  -- `chunk_id or _id or f"{variant_query}:{position}"`.
  unfoldable pub variant_key : String → ℕ → Item S → String
  variant_key q position item =
      text_or item.chunk_id (text_or item.raw_id (join q (join ":" (show position))))

  -- One result of a variant, put into the merged results.
  unfoldable pub merge_item : String → ℕ → Item S → Table (Item S) → Table (Item S)
  merge_item q position item merged =
      let key = variant_key q position item in
      elim (lookup key merged) [
        | none ↦ store key (with_queries (q ∷ []) item) merged
        | some existing ↦ store key (better q existing (with_queries (q ∷ []) item)) merged
      ]

  unfoldable pub merge_variant : String → ℕ → List (Item S) → Table (Item S) → Table (Item S)
  merge_variant q position [] merged = merged
  merge_variant q position (item ∷ items) merged =
      merge_variant q (suc position) items (merge_item q position item merged)

  -- The results of the variants that succeeded.
  unfoldable pub merge_variants :
      List (String × Attempt (List (Item S))) → Table (Item S) → Table (Item S)
  merge_variants [] merged = merged
  merge_variants ((q, failed retryable) ∷ gathered) merged = merge_variants gathered merged
  merge_variants ((q, found items) ∷ gathered) merged =
      merge_variants gathered (merge_variant q 0 items merged)

  abbrev pub any_found : List (String × Attempt (List (Item S))) → Bool
  any_found [] = false
  any_found ((q, failed retryable) ∷ gathered) = any_found gathered
  any_found ((q, found items) ∷ gathered) = true

  -- Whether the first error may be retried; a `RuntimeError` with no variants may.
  abbrev pub first_error : List (String × Attempt (List (Item S))) → Bool
  first_error [] = true
  first_error ((q, failed retryable) ∷ gathered) = retryable
  first_error ((q, found items) ∷ gathered) = first_error gathered

  -- What the retriever gives for each query.
  abbrev pub gather_variants :
      (String → Attempt (List (Item S))) → List String → List (String × Attempt (List (Item S)))
  gather_variants retriever [] = []
  gather_variants retriever (q ∷ queries) = (q, retriever q) ∷ gather_variants retriever queries

  abbrev merged_answer : ℕ → List (String × Attempt (List (Item S))) → Attempt (List (Item S))
  merged_answer top_k gathered =
      if any_found gathered
      then found (take top_k (sort score_le (values (merge_variants gathered []))))
      else failed (first_error gathered)

  -- `_retrieve_query_variants`; where every variant failed it raises the first error.
  unfoldable pub retrieve_query_variants :
      (String → Attempt (List (Item S))) → List String → ℕ → Attempt (List (Item S))
  retrieve_query_variants retriever queries top_k =
      merged_answer top_k (gather_variants retriever (unique_queries queries))
