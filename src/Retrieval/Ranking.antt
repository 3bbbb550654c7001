-- ===== src/Retrieval/Ranking.antt =====
-- app/core/retrieval/search.py: retries of a retriever, the mode that is reported, the promotion
-- of exact entity matches and the limit on the chunks of a document.
use trustguard_rag.Prelude.{
  ℕ, zero, suc, ◌-◌, Bool, true, false, Option, none, some, List, [], ◌∷◌, map, String, leb,
  contains, length, if◌then◌else◌,
}
use trustguard_rag.Prelude.Sort.{sort}
use trustguard_rag.Store.Table.{Table, lookup, store}
use trustguard_rag.Retrieval.Items.{Item, Match, primary, related, group_key}

pub data RetrievalComponent : Type 0 where
  vector keyword rerank : RetrievalComponent

pub data EffectiveSearchMode : Type 0 where
  hybrid vector_only keyword_only : EffectiveSearchMode

abbrev pub is_vector : RetrievalComponent → Bool
is_vector vector = true
is_vector _ = false

abbrev pub is_keyword : RetrievalComponent → Bool
is_keyword keyword = true
is_keyword _ = false

-- `component in components`, by a test for the component.
abbrev pub any_of : (RetrievalComponent → Bool) → List RetrievalComponent → Bool
any_of p [] = false
any_of p (c ∷ cs) = if p c then true else any_of p cs

-- `_effective_mode`; the components that are available are retrievers, so a set that holds both is
-- the set of both.
unfoldable pub effective_mode : List RetrievalComponent → EffectiveSearchMode
effective_mode available =
    if any_of is_vector available
    then if any_of is_keyword available then hybrid else vector_only
    else keyword_only

-- What an attempt comes to: the items, or an error with its `retryable`.
pub data Attempt {ℓ} (A : Type ℓ) : Type ℓ where
  found : A → Attempt A
  failed : Bool → Attempt A

-- `_retrieve_with_retry` from an attempt on, with `left` more attempts allowed: what was found, or
-- `none` for an error, and the number of the last attempt. `operation n` is the n-th attempt.
unfoldable pub retrieve_with_retry {ℓ} : {A : Type ℓ} → (ℕ → Attempt A) → ℕ → ℕ → Option A × ℕ
retrieve_with_retry operation zero attempt = elim (operation attempt) [
  | found items ↦ (some items, attempt)
  | failed retryable ↦ (none, attempt)
]
retrieve_with_retry operation (suc left) attempt = elim (operation attempt) [
  | found items ↦ (some items, attempt)
  | failed retryable ↦
      if retryable then retrieve_with_retry operation left (suc attempt) else (none, attempt)
]

abbrev pub match_of : ℕ → Option Match
match_of (suc (suc zero)) = some primary
match_of (suc zero) = some related
match_of _ = none

-- `bool(set(a) & set(b))`.
abbrev pub meets : List String → List String → Bool
meets [] ys = false
meets (x ∷ xs) ys = if contains x ys then true else meets xs ys

-- `entity_ids or ()`.
abbrev pub or_nil : Option (List String) → List String
or_nil none = []
or_nil (some xs) = xs

abbrev pub is_in : Option String → List String → Bool
is_in none ys = false
is_in (some x) ys = contains x ys

-- `counts.get(key, 0)`.
abbrev pub count_of : String → Table ℕ → ℕ
count_of key counts = elim (lookup key counts) [ none ↦ 0 | some n ↦ n ]

module _ {S : Type 0} where
  -- `item["exact_entity_match"] = …`.
  unfoldable pub set_match : Option Match → Item S → Item S
  set_match m item = record {
    chunk_id = item.chunk_id;
    raw_id = item.raw_id;
    document_id = item.document_id;
    chunk_index = item.chunk_index;
    page_no = item.page_no;
    text = item.text;
    source_uri = item.source_uri;
    original_filename = item.original_filename;
    entity_id = item.entity_id;
    entity_ids = item.entity_ids;
    metadata = item.metadata;
    score = item.score;
    vector_score = item.vector_score;
    keyword_score = item.keyword_score;
    rerank_score = item.rerank_score;
    rrf_score = item.rrf_score;
    weighted_score = item.weighted_score;
    vector_rank = item.vector_rank;
    keyword_rank = item.keyword_rank;
    exact_entity_match = m;
    matched_queries = item.matched_queries;
    expanded = item.expanded;
  }

  -- `exact_entity_match_priority`; `entities` gives the primary entity and the entities that
  -- `build_security_entity_fields` reads out of the item's text, file name and metadata.
  unfoldable pub exact_entity_match_priority :
      (Item S → Option String × List String) → Item S → List String → ℕ
  exact_entity_match_priority entities item [] = 0
  exact_entity_match_priority entities item wanted =
      if is_in item.entity_id wanted
      then 2
      else if meets (or_nil item.entity_ids) wanted
      then 1
      else if is_in (entities item).0 wanted
      then 2
      else if meets (entities item).1 wanted
      then 1
      else 0

  -- The item with its priority, marked.
  abbrev pub ranked : (Item S → Option String × List String) → List String → Item S → ℕ × Item S
  ranked entities wanted item =
      let priority = exact_entity_match_priority entities item wanted in
      (priority, set_match (match_of priority) item)

  -- Higher priorities first; the sort is stable, which the positions are for.
  abbrev pub priority_le : ℕ × Item S → ℕ × Item S → Bool
  priority_le a b = leb b.0 a.0

  abbrev pub item_of : ℕ × Item S → Item S
  item_of row = row.1

  -- `_promote_exact_entity_matches`.
  unfoldable pub promote_exact_entity_matches :
      (Item S → Option String × List String) → List (Item S) → List String → List (Item S)
  promote_exact_entity_matches entities items [] = items
  promote_exact_entity_matches entities items wanted =
      map item_of (sort priority_le (map (ranked entities wanted) items))

  -- `_deduplicate_by_document` from a position on: the items that are kept.
  unfoldable pub deduplicate_from : ℕ → ℕ → Table ℕ → List (Item S) → List (Item S)
  deduplicate_from limit position counts [] = []
  deduplicate_from limit position counts (item ∷ items) =
      let key = group_key position item in
      let count = count_of key counts in
      let skipped = deduplicate_from limit (suc position) counts items in
      let kept = deduplicate_from limit (suc position) (store key (suc count) counts) items in
      if leb limit count then skipped else item ∷ kept

  -- `_deduplicate_by_document`: the items kept, and how many were removed.
  unfoldable pub deduplicate_by_document : ℕ → List (Item S) → List (Item S) × ℕ
  deduplicate_by_document limit items =
      let kept = deduplicate_from limit 0 [] items in (kept, length items - length kept)
