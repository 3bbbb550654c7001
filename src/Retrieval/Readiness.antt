-- ===== src/Retrieval/Readiness.antt =====
-- app/core/retrieval/search.py with `ready_ids` of app/stores/document_store.py: the documents that
-- a search shows.
use trustguard_rag.Prelude.{
  is_nil, All-filter_by, ℕ, ◌≡◌, true, not, ◌&&◌, Option, none, some, List, [], ◌∷◌, String, arith,
  eq_iff, str_eq, contains, filter_by, if◌then◌else◌, inl, inr, Bool-cases, if_elim, if_cases,
  option_cases, All, All-take, max, ◌==◌,
}
use mathlib.Core.Path.{subst}
use trustguard_rag.Store.Table.{lookup}
use trustguard_rag.Store.Rows.{Db}
use trustguard_rag.Documents.{ready_ids, is_ready_in}
use trustguard_rag.Prelude.Text.{strip}
use trustguard_rag.Retrieval.Items.{Item, Floats}
use trustguard_rag.Retrieval.Ranking.{
  promote_exact_entity_matches, RetrievalComponent, any_of, is_vector,
}
use trustguard_rag.Retrieval.Expansion.{expand_adjacent_chunks}
use trustguard_rag.Retrieval.Reranker.{rerank_candidates}
use trustguard_rag.Retrieval.Variants.{distinct_from}
use trustguard_rag.Retrieval.Search.{
  SearchSettings, SearchRequest, Engines, SearchResponse, AbstentionReason, Gathered, number_or,
  gather,
}
use trustguard_rag.Retrieval.Selection.{
  answered, search, respond, candidates, abstain, trust, rank, reranked, keep_ready, named_in,
  document_ids, is_in_ready, is_exact, is_supported, is_trusted, any_item,
}
use trustguard_rag.Retrieval.Limits.{OfAnswer, search_answer}
use trustguard_rag.Retrieval.Provenance.{
  Names, NamesSome, promote-Names, deduplicate-Names, rerank_candidates-Names,
}
use trustguard_rag.Retrieval.Neighbours.{expand-Names}

-- `str(document_id)`.
abbrev pub shown_id : Option String → String
shown_id none = "None"
shown_id (some d) = d

-- The item's document is a ready one of the knowledge base.
abbrev pub IsReadyIn : String → Db → Option String → Type 0
IsReadyIn kb db o = is_ready_in kb (lookup (shown_id o) db.documents) ≡ true

ready_ids-ready :
    (ids : List String) (kb : String) (db : Db) (d : String)
    → contains d (ready_ids ids kb db) ≡ true
    → is_ready_in kb (lookup d db.documents) ≡ true
unfolding ready_ids
ready_ids-ready [] kb db d e = ground (arith, e)
ready_ids-ready (id ∷ ids) kb db d e = elim (Bool-cases (is_ready_in kb (lookup id db.documents))) [
  | inl there ↦ elim (Bool-cases (str_eq d id)) [
    | inl same ↦
        let eq : id ≡ d = ground (arith, same, eq_iff d id) in
        subst (λ x. is_ready_in kb (lookup x db.documents) ≡ true) eq there
    | inr other ↦ ready_ids-ready ids kb db d (ground (arith, e, there, other))
  ]
  | inr absent ↦ ready_ids-ready ids kb db d (ground (arith, e, absent))
]

named_ready :
    (ids : List String) (kb : String) (db : Db) (o : Option String)
    → named_in (ready_ids ids kb db) o ≡ true
    → IsReadyIn kb db o
named_ready ids kb db none e = ready_ids-ready ids kb db "None" e
named_ready ids kb db (some d) e = ready_ids-ready ids kb db d e

module _ {S : Type 0} (kb : String) (db : Db) where
  -- Ready documents only.
  abbrev pub AllReady : List (Item S) → Type 0
  AllReady items = All (Names (IsReadyIn kb db)) items

  filtered-AllReady :
      (ids : List String) (items : List (Item S))
      → AllReady (filter_by (is_in_ready (ready_ids ids kb db)) items)
  filtered-AllReady ids [] = tt
  filtered-AllReady ids (item ∷ items) =
      if_cases AllReady (is_in_ready (ready_ids ids kb db) item)
        (λ e. (named_ready ids kb db item.document_id e, filtered-AllReady ids items))
        (λ e. filtered-AllReady ids items)

  keep_ready-AllReady : (items : List (Item S)) → AllReady (keep_ready kb db items)
  unfolding keep_ready
  keep_ready-AllReady items = filtered-AllReady (distinct_from [] (document_ids items)) items

  record FirstReady (x : List (Item S) × Option AbstentionReason) : Type 0 where
    pub items : AllReady x.0

  record RankReady (x : List (Item S) × ℕ × List RetrievalComponent) : Type 0 where
    pub items : AllReady x.0

  trust-FirstReady :
      (floats : Floats S) (bound : Option S) (items : List (Item S))
      → AllReady items
      → FirstReady (trust floats bound items)
  unfolding trust
  trust-FirstReady floats none items h = record { items = h }
  trust-FirstReady floats (some bound) items h =
      if_elim FirstReady (any_item (is_trusted floats bound) items)
        (record {
          items = All-filter_by (Names (IsReadyIn kb db)) (is_supported floats bound) items h;
        })
        (record { items = tt })

  abstain-FirstReady :
      (floats : Floats S) (r : SearchRequest S) (entities : List String) (g : Gathered S)
      (items : List (Item S))
      → AllReady items
      → FirstReady (abstain floats r entities g items)
  unfolding abstain
  abstain-FirstReady floats r entities g items h =
      if_elim FirstReady (not r.enable_abstention) (record { items = h })
        (if_elim FirstReady
          ((r.enable_vector && any_of is_vector g.degraded) && not r.allow_keyword_fallback)
          (record { items = tt })
          (if_elim FirstReady (not (is_nil entities) && r.require_exact_entity_match)
            (record { items = All-filter_by (Names (IsReadyIn kb db)) is_exact items h })
            (if_elim FirstReady (r.enable_vector && any_of is_vector g.available)
              (trust-FirstReady floats r.min_vector_score items h) (record { items = h }))))

module _ {S : Type 0} (db : Db) (floats : Floats S) (s : SearchSettings S) (r : SearchRequest S)
    (engines : Engines S) where
  abbrev Shown : List (Item S) → Type 0
  Shown items = AllReady (strip r.knowledge_base_id) db items

  widened-Shown :
      (ready : List (Item S))
      → Shown ready
      → Shown (
          promote_exact_entity_matches engines.entities
            (if r.adjacent_chunk_radius == 0
              then ready
              else if is_nil ready
              then ready
              else expand_adjacent_chunks floats ready
                  (engines.neighbours ready r.adjacent_chunk_radius))
            engines.query_entities)
  widened-Shown ready h =
      promote-Names (IsReadyIn (strip r.knowledge_base_id) db) engines.entities _
        engines.query_entities
        (if_elim Shown (r.adjacent_chunk_radius == 0) h (
          if_elim Shown (is_nil ready) h (
            expand-Names (IsReadyIn (strip r.knowledge_base_id) db) floats ready
              (engines.neighbours ready r.adjacent_chunk_radius) h)))

  candidates-Shown : (g : Gathered S) → Shown (candidates floats s r engines db g)
  unfolding candidates
  candidates-Shown g = widened-Shown _ (keep_ready-AllReady (strip r.knowledge_base_id) db _)

  record PairShown (x : List (Item S) × List RetrievalComponent) : Type 0 where
    pub items : Shown x.0

  reranked-PairShown :
      (d k : ℕ) (items : List (Item S))
      → Shown items
      → PairShown (reranked floats engines d k items)
  unfolding reranked
  reranked-PairShown d k items h =
      option_cases PairShown (rerank_candidates floats engines.reranker d items k)
        (λ e. record {
          items = All-take (Names (IsReadyIn (strip r.knowledge_base_id) db)) k items h;
        })
        (λ out e. record {
          items = subst (NamesSome (IsReadyIn (strip r.knowledge_base_id) db)) e (
              rerank_candidates-Names (IsReadyIn (strip r.knowledge_base_id) db) floats
                engines.reranker d items k h);
        })

  rank-RankReady :
      (k : ℕ) (items : List (Item S))
      → Shown items
      → RankReady (strip r.knowledge_base_id) db (rank floats s r engines k items)
  unfolding rank
  rank-RankReady k items h =
      let P = IsReadyIn (strip r.knowledge_base_id) db in
      if_elim (RankReady (strip r.knowledge_base_id) db) (r.enable_rerank && not (is_nil items))
        (record {
          items = deduplicate-Names P r.max_chunks_per_document _ (
              promote-Names P engines.entities _ engines.query_entities
                (reranked-PairShown s.search_top_k k _ (
                  All-take (Names P) (number_or r.rerank_candidate_top_k s.rerank_top_k) _
                    (deduplicate-Names P (max r.max_chunks_per_document 3) items h))).items);
        })
        (record { items = deduplicate-Names P r.max_chunks_per_document items h })

  record ShowsReady (response : SearchResponse S) : Type 0 where
    pub shown : Shown response.results

  respond-ShowsReady : (g : Gathered S) → ShowsReady (respond floats s r engines db g)
  unfolding respond
  respond-ShowsReady g =
      let P = IsReadyIn (strip r.knowledge_base_id) db in
      record {
        shown =
            All-take (Names P) (number_or r.top_k s.search_top_k) _
              (rank-RankReady (number_or r.top_k s.search_top_k) _
                (abstain-FirstReady (strip r.knowledge_base_id) db floats r engines.query_entities g
                  _ (candidates-Shown g)).items).items;
      }

-- Every result of a search is a chunk of a document that the database holds under the searched
-- knowledge base and in a ready status: an index that still has chunks of a document which was
-- deleted, replaced or moved cannot show them, neither as results nor as neighbours of results.
pub search_shows_ready :
    {S : Type 0} (db : Db) (floats : Floats S) (s : SearchSettings S) (r : SearchRequest S)
    (engines : Engines S) (response : SearchResponse S)
    → search floats s r engines db ≡ answered response
    → AllReady (strip r.knowledge_base_id) db response.results
search_shows_ready db floats s r engines response e =
    (subst (OfAnswer (ShowsReady db floats s r engines)) e (
      search_answer (ShowsReady db floats s r engines) floats s r engines db
        (respond-ShowsReady db floats s r engines (gather floats s r engines)))).shown
