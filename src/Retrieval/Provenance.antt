-- ===== src/Retrieval/Provenance.antt =====
-- app/core/retrieval: what holds of the documents of the items holds of the documents of the items
-- that each stage of a search gives.
use trustguard_rag.Prelude.{
  ℕ, zero, suc, ◌≡◌, Option, none, some, List, [], ◌∷◌, map, String, arith, leb, length, take,
  if_elim, bind_cases, All, All-take, min, or_default, ◌==◌,
}
use mathlib.Core.Path.{subst}
use trustguard_rag.Prelude.Sort.{sort, All-sort}
use trustguard_rag.Store.Table.{Table}
use trustguard_rag.Store.Table.{store}
use trustguard_rag.Retrieval.Items.{Item, Floats, group_key}
use trustguard_rag.Retrieval.Ranking.{
  set_match, ranked, priority_le, item_of, promote_exact_entity_matches, count_of, deduplicate_from,
  deduplicate_by_document,
}
use trustguard_rag.Retrieval.Reranker.{
  Reranker, none_provider, local, api, get_elem?, is_seen, set_rerank_score, scored, with_score,
  ranked_from, pair_le, rerank_le, bge_rerank, api_rerank, rerank_candidates,
}

All-map {ℓ κ μ} :
    {A : Type ℓ} {B : Type κ} (P : B → Type μ) (f : A → B) (xs : List A)
    → All (λ x. P (f x)) xs
    → All P (map f xs)
All-map P f [] h = tt
All-map P f (x ∷ xs) h = (h.0, All-map P f xs h.1)

module _ {S : Type 0} (P : Option String → Type 0) where
  -- `P` of the item's document.
  abbrev pub Names : Item S → Type 0
  Names item = P item.document_id

  abbrev NamesRow : ℕ × Item S → Type 0
  NamesRow row = Names row.1

  ranked-Names :
      (entities : Item S → Option String × List String) (wanted : List String)
      (items : List (Item S))
      → All Names items
      → All NamesRow (map (ranked entities wanted) items)
  unfolding set_match
  ranked-Names entities wanted [] h = tt
  ranked-Names entities wanted (item ∷ items) h = (h.0, ranked-Names entities wanted items h.1)

  rows-Names : (rows : List (ℕ × Item S)) → All NamesRow rows → All Names (map item_of rows)
  rows-Names [] h = tt
  rows-Names (row ∷ rows) h = (h.0, rows-Names rows h.1)

  pub promote-Names :
      (entities : Item S → Option String × List String) (items : List (Item S))
      (wanted : List String)
      → All Names items
      → All Names (promote_exact_entity_matches entities items wanted)
  unfolding promote_exact_entity_matches
  promote-Names entities items [] h = h
  promote-Names entities items (w ∷ ws) h =
      rows-Names (sort priority_le (map (ranked entities (w ∷ ws)) items)) (
        All-sort priority_le NamesRow (map (ranked entities (w ∷ ws)) items)
          (ranked-Names entities (w ∷ ws) items h))

  deduplicate_from-Names :
      (limit position : ℕ) (counts : Table ℕ) (items : List (Item S))
      → All Names items
      → All Names (deduplicate_from limit position counts items)
  unfolding deduplicate_from
  deduplicate_from-Names limit position counts [] h = tt
  deduplicate_from-Names limit position counts (item ∷ items) h =
      if_elim (All Names) (leb limit (count_of (group_key position item) counts))
        (deduplicate_from-Names limit (suc position) counts items h.1)
        (
          h.0,
          deduplicate_from-Names limit (suc position)
              (store (group_key position item) (suc (count_of (group_key position item) counts))
                counts)
              items h.1,
        )

  pub deduplicate-Names :
      (limit : ℕ) (items : List (Item S))
      → All Names items
      → All Names (deduplicate_by_document limit items).0
  unfolding deduplicate_by_document
  deduplicate-Names limit items h = deduplicate_from-Names limit 0 [] items h

  -- Of a result that there may be.
  abbrev pub NamesSome : Option (List (Item S)) → Type 0
  NamesSome none = Unit
  NamesSome (some items) = All Names items

  get_elem?-Names :
      (items : List (Item S)) (i : ℕ) (item : Item S)
      → All Names items
      → get_elem? items i ≡ some item
      → Names item
  unfolding get_elem?
  get_elem?-Names [] i item h e = ground (arith, e)
  get_elem?-Names (x ∷ xs) zero item h e = let same : x ≡ item = cc e in subst Names same h.0
  get_elem?-Names (x ∷ xs) (suc i) item h e = get_elem?-Names xs i item h.1 e

  ranked_from-Names :
      (candidates : List (Item S)) (seen : List ℕ) (results : List (Option ℕ × S))
      → All Names candidates
      → NamesSome (ranked_from candidates seen results)
  unfolding ranked_from set_rerank_score
  ranked_from-Names candidates seen [] h = tt
  ranked_from-Names candidates seen ((none, score) ∷ results) h = tt
  ranked_from-Names candidates seen ((some i, score) ∷ results) h =
      if_elim NamesSome (is_seen i seen) tt (
        bind_cases NamesSome (get_elem? candidates i) tt (λ item e.
          bind_cases NamesSome (ranked_from candidates (i ∷ seen) results) tt (λ rest e'. (
            get_elem?-Names candidates i item h e,
            subst NamesSome e' (ranked_from-Names candidates (i ∷ seen) results h),
          ))))

  abbrev NamesPair : S × Item S → Type 0
  NamesPair pair = Names pair.1

  scored-Names :
      (scores : List S) (items : List (Item S))
      → All Names items
      → All NamesPair (scored scores items)
  unfolding scored
  scored-Names [] items h = tt
  scored-Names (s ∷ ss) [] h = tt
  scored-Names (s ∷ ss) (item ∷ items) h = (h.0, scored-Names ss items h.1)

  with_score-Names :
      (pairs : List (S × Item S)) → All NamesPair pairs → All Names (map with_score pairs)
  unfolding set_rerank_score
  with_score-Names [] h = tt
  with_score-Names (pair ∷ pairs) h = (h.0, with_score-Names pairs h.1)

  module _ (floats : Floats S) where
    bge_rerank-Names :
        (scores : Option (List S)) (items : List (Item S)) (k : ℕ)
        → All Names items
        → NamesSome (bge_rerank floats scores items k)
    unfolding bge_rerank
    bge_rerank-Names none items k h = tt
    bge_rerank-Names (some scores) items k h =
        with_score-Names (take k (sort (pair_le floats) (scored scores items))) (
          All-take NamesPair k (sort (pair_le floats) (scored scores items)) (
            All-sort (pair_le floats) NamesPair (scored scores items)
              (scored-Names scores items h)))

    api_rerank-Names :
        (response : Option (List (Option ℕ × S))) (items : List (Item S)) (k : ℕ)
        → All Names items
        → NamesSome (api_rerank floats response items k)
    unfolding api_rerank
    api_rerank-Names none items k h = tt
    api_rerank-Names (some results) items k h =
        bind_cases NamesSome (ranked_from items [] results) tt (λ ranked e.
          if_elim NamesSome (length ranked == min k (length items))
            (All-sort (rerank_le floats) Names ranked
              (subst NamesSome e (ranked_from-Names items [] results h)))
            tt)

    pub rerank_candidates-Names :
        (reranker : Reranker S) (d : ℕ) (items : List (Item S)) (k : ℕ)
        → All Names items
        → NamesSome (rerank_candidates floats reranker d items k)
    unfolding rerank_candidates
    rerank_candidates-Names reranker d [] k h = tt
    rerank_candidates-Names none_provider d (x ∷ xs) k h =
        All-take Names (or_default (or_default k d) (length (x ∷ xs))) (x ∷ xs) h
    rerank_candidates-Names (local model) d (x ∷ xs) k h =
        bge_rerank-Names (model (x ∷ xs)) (x ∷ xs) _ h
    rerank_candidates-Names (api service) d (x ∷ xs) k h =
        api_rerank-Names (service (x ∷ xs) _) (x ∷ xs) _ h
