-- ===== src/Examples/Search.antt =====
-- The theorems on searches at example engines, with scores in ℕ.
use Prim.Native.Nat.{◌^◌}
use trustguard_rag.Prelude.{
  ℕ, zero, suc, ◌+◌, ◌-◌, ◌*◌, ◌/◌, ◌≤◌, ◌≡◌, ◌≢◌, refl, true, false, Option, none, some, List, [],
  ◌∷◌, String, arith, leb, length, eq_iff, is_some, ap,
}
use trustguard_rag.Retrieval.Items.{Floats, Item}
use trustguard_rag.Retrieval.Ranking.{Attempt, found, failed, retrieve_with_retry}
use trustguard_rag.Retrieval.Reranker.{local}
use trustguard_rag.Retrieval.Search.{
  SearchSettings, SearchRequest, Engines, SearchResponse, gather, refusal, outage, note_vector,
  note_keyword, vector_attempt, keyword_attempt, vector_unavailable,
}
use trustguard_rag.Retrieval.Selection.{answered, search, respond}
use trustguard_rag.Retrieval.Limits.{search_limits, items_of}
use trustguard_rag.Retrieval.Readiness.{search_shows_ready, AllReady}
use trustguard_rag.Retrieval.Abstention.{abstention_shows_nothing, vector_outage_abstains, IsDown}
use trustguard_rag.Retrieval.Retry.{retry_result, Retried}
use trustguard_rag.Prelude.Text.{strip}
use trustguard_rag.Prelude.Sort.{sort, insert}
use trustguard_rag.Store.Table.{lookup}
use trustguard_rag.Retrieval.Variants.{
  retrieve_query_variants, unique_queries, distinct_from, merge_variants, merge_variant, merge_item,
  variant_key, better, set_scores,
}
use trustguard_rag.Store.Table.{store}
use trustguard_rag.Examples.Data.{db}

abbrev pub floats : Floats ℕ
floats = record {
  zero_score = 0;
  one_score = 1000;
  plus = λ a b. a + b;
  minus = λ a b. a - b;
  times = λ a b. a * b / 1000;
  over = λ a b. a / b;
  of_int = λ n. n;
  tenths = λ n. n * 100;
  power = λ a n. a ^ n / 1000 ^ n;
  le = leb;
}

abbrev pub item : String → String → ℕ → Item ℕ
item chunk document score = record {
  chunk_id = some chunk;
  raw_id = none;
  document_id = some document;
  chunk_index = some 0;
  page_no = none;
  text = some "CVE-2024-1";
  source_uri = none;
  original_filename = none;
  entity_id = none;
  entity_ids = some ("CVE-2024-1" ∷ []);
  metadata = none;
  score = some score;
  vector_score = none;
  keyword_score = none;
  rerank_score = none;
  rrf_score = none;
  weighted_score = none;
  vector_rank = none;
  keyword_rank = none;
  exact_entity_match = none;
  matched_queries = [];
  expanded = false;
}

abbrev settings : SearchSettings ℕ
settings = record {
  search_top_k = 10;
  search_fusion_method = "rrf";
  search_vector_weight = 600;
  search_keyword_weight = 400;
  search_rrf_k = 60;
  search_vector_top_k = 30;
  search_keyword_top_k = 30;
  search_component_max_retries = 2;
  rerank_top_k = 10;
}

abbrev request : SearchRequest ℕ
request = record {
  query = "CVE-2024-1";
  semantic_queries = "the flaw" ∷ [];
  keyword_queries = [];
  knowledge_base_id = "kb";
  vector_top_k = none;
  keyword_top_k = none;
  top_k = some 5;
  max_chunks_per_document = 1;
  fusion_method = none;
  vector_weight = none;
  keyword_weight = none;
  enable_rerank = true;
  enable_vector = true;
  enable_keyword = true;
  enable_abstention = true;
  allow_keyword_fallback = false;
  min_vector_score = none;
  require_exact_entity_match = true;
  component_max_retries = none;
  rerank_candidate_top_k = none;
  adjacent_chunk_radius = 0;
}

abbrev pub items : List (Item ℕ)
items = item "c1" "doc" 9 ∷ item "c2" "doc" 8 ∷ item "c3" "gone" 7 ∷ []

-- The first attempt fails, and the next ones find the items.
abbrev flaky : ℕ → Attempt (List (Item ℕ))
flaky zero = failed true
flaky (suc zero) = failed true
flaky n = found items

abbrev down : ℕ → Attempt (List (Item ℕ))
down n = failed true

abbrev read_entities : Item ℕ → Option String × List String
read_entities i = (none, [])

abbrev engines : (ℕ → Attempt (List (Item ℕ))) → Engines ℕ
engines attempts = record {
  query_entities = "CVE-2024-1" ∷ [];
  entities = read_entities;
  vector_retriever = λ n q. attempts n;
  keyword_retriever = λ n q. flaky n;
  neighbours = λ found_items radius. [];
  reranker = local (λ candidates. some (1 ∷ 2 ∷ 3 ∷ []));
}

abbrev response : (ℕ → Attempt (List (Item ℕ))) → SearchResponse ℕ
response attempts =
    respond floats settings request (engines attempts) db
      (gather floats settings request (engines attempts))

answers : search floats settings request (engines flaky) db ≡ answered (response flaky)
unfolding search refusal outage gather note_vector note_keyword retrieve_with_retry strip
    vector_attempt keyword_attempt retrieve_query_variants unique_queries distinct_from
    merge_variants merge_variant merge_item variant_key store lookup better set_scores sort insert
answers = refl

answers_down : search floats settings request (engines down) db ≡ answered (response down)
unfolding search refusal outage gather note_vector note_keyword retrieve_with_retry strip
    vector_attempt keyword_attempt retrieve_query_variants unique_queries distinct_from
    merge_variants merge_variant merge_item variant_key store lookup better set_scores sort insert
answers_down = refl

abbrev document_id : String
document_id = "doc"

some_document : document_id ≢ ""
some_document e = ground (arith, e, eq_iff document_id "")

search_limits_example :
    (length (response flaky).results ≤ 5) × (items_of document_id (response flaky).results ≤ 1)
search_limits_example =
    search_limits floats settings request (engines flaky) db (response flaky) document_id answers
      some_document

search_shows_ready_example : AllReady "kb" db (response flaky).results
unfolding strip
search_shows_ready_example =
    search_shows_ready db floats settings request (engines flaky) (response flaky) answers

is_down : IsDown (vector_attempt floats settings request (engines down))
unfolding vector_attempt retrieve_query_variants unique_queries distinct_from strip
is_down n = (true, refl)

vector_outage_abstains_example :
    ((response down).abstention_reason ≡ some vector_unavailable) × ((response down).results ≡ [])
vector_outage_abstains_example =
    vector_outage_abstains floats settings request (engines down) db (response down) answers_down
      refl refl refl is_down

gives_reason : is_some (response down).abstention_reason ≡ true
gives_reason =
    ap is_some
      (vector_outage_abstains floats settings request (engines down) db (response down) answers_down
        refl refl refl is_down).0

abstention_shows_nothing_example : (response down).results ≡ []
abstention_shows_nothing_example =
    abstention_shows_nothing floats settings request (engines down) db (response down) answers_down
      gives_reason

retry_result_example : Retried flaky 1 2 (retrieve_with_retry flaky 2 1)
retry_result_example = retry_result flaky 2 1
