-- ===== src/Retrieval/Abstention.antt =====
-- app/core/retrieval/search.py: when a search abstains.
use trustguard_rag.Prelude.{
  is_nil, ℕ, zero, suc, ◌≡◌, refl, Bool, true, false, not, ◌&&◌, Option, none, some, List, [], ◌∷◌,
  ◌++◌, String, arith, is_some, take, if_elim, if_cases, Bool-cases, inl, inr,
}
use mathlib.Core.Path.{subst}
use trustguard_rag.Store.Rows.{Db}
use trustguard_rag.Retrieval.Items.{Item, Floats}
use trustguard_rag.Retrieval.Ranking.{
  RetrievalComponent, vector, any_of, is_vector, deduplicate_from, deduplicate_by_document, Attempt,
  failed, retrieve_with_retry,
}
use trustguard_rag.Retrieval.Search.{
  SearchSettings, SearchRequest, Engines, SearchResponse, AbstentionReason, vector_unavailable,
  Gathered, number_or, given_or, gather, note_vector, note_keyword, vector_attempt,
  nothing_gathered,
}
use trustguard_rag.Retrieval.Selection.{
  answered, search, respond, abstain, trust, rank, any_item, is_trusted, exact_only,
}
use trustguard_rag.Retrieval.Limits.{OfAnswer, search_answer}

and_false : (b : Bool) → (b && false) ≡ false
and_false true = refl
and_false false = refl

any_of-append :
    (p : RetrievalComponent → Bool) (xs ys : List RetrievalComponent)
    → any_of p xs ≡ true
    → any_of p (xs ++ ys) ≡ true
any_of-append p [] ys e = ground (arith, e)
any_of-append p (x ∷ xs) ys e = elim (Bool-cases (p x)) [
  | inl h ↦ rw h refl
  | inr h ↦ rw h (any_of-append p xs ys (ground (arith, e, h)))
]

any_of_last : (xs : List RetrievalComponent) → any_of is_vector (xs ++ vector ∷ []) ≡ true
any_of_last [] = refl
any_of_last (x ∷ xs) = elim (Bool-cases (is_vector x)) [
  | inl h ↦ rw h refl
  | inr h ↦ rw h (any_of_last xs)
]

clash : (b : Bool) → b ≡ true → b ≡ false → ⊥
clash b e f = ground (arith, e, f)

module _ {S : Type 0} where
  -- Nothing is kept where there is a reason to abstain.
  record Coherent (x : List (Item S) × Option AbstentionReason) : Type 0 where
    pub empty : is_some x.1 ≡ true → x.0 ≡ []

  record Ranked (items : List (Item S)) (x : List (Item S) × ℕ × List RetrievalComponent)
      : Type 0 where
    pub empty : items ≡ [] → x.0 ≡ []

  exact_only-Coherent : (items : List (Item S)) → Coherent (exact_only items)
  exact_only-Coherent [] = record { empty = λ e. refl }
  exact_only-Coherent (x ∷ xs) = record { empty = λ e. ground (arith, e) }

  kept : (items : List (Item S)) → Coherent (items, none)
  kept items = record { empty = λ e. ground (arith, e) }

  trust-Coherent :
      (floats : Floats S) (bound : Option S) (items : List (Item S))
      → Coherent (trust floats bound items)
  unfolding trust
  trust-Coherent floats none items = kept items
  trust-Coherent floats (some bound) items =
      if_elim Coherent (any_item (is_trusted floats bound) items) (kept _)
        (record { empty = λ e. refl })

  abstain-Coherent :
      (floats : Floats S) (r : SearchRequest S) (entities : List String) (g : Gathered S)
      (items : List (Item S))
      → Coherent (abstain floats r entities g items)
  unfolding abstain
  abstain-Coherent floats r entities g items =
      if_elim Coherent (not r.enable_abstention) (kept items) (
        if_elim Coherent
          ((r.enable_vector && any_of is_vector g.degraded) && not r.allow_keyword_fallback)
          (record { empty = λ e. refl })
          (if_elim Coherent (not (is_nil entities) && r.require_exact_entity_match)
            (exact_only-Coherent _)
            (if_elim Coherent (r.enable_vector && any_of is_vector g.available)
              (trust-Coherent floats r.min_vector_score items) (kept items))))

  rank-nil :
      (floats : Floats S) (s : SearchSettings S) (r : SearchRequest S) (engines : Engines S) (k : ℕ)
      → (rank floats s r engines k []).0 ≡ []
  unfolding rank deduplicate_by_document deduplicate_from
  rank-nil floats s r engines k = rw (and_false r.enable_rerank) refl

  rank_nothing :
      (floats : Floats S) (s : SearchSettings S) (r : SearchRequest S) (engines : Engines S) (k : ℕ)
      (items : List (Item S))
      → items ≡ []
      → (rank floats s r engines k items).0 ≡ []
  rank_nothing floats s r engines k items e = rw (e, rank-nil floats s r engines k) refl

  take_nothing : (k : ℕ) (items : List (Item S)) → items ≡ [] → take k items ≡ []
  take_nothing zero items e = refl
  take_nothing (suc k) items e = rw e refl

  -- A search that gives a reason to abstain shows nothing.
  record AbstainsEmpty (response : SearchResponse S) : Type 0 where
    pub empty : is_some response.abstention_reason ≡ true → response.results ≡ []

  respond-AbstainsEmpty :
      (floats : Floats S) (s : SearchSettings S) (r : SearchRequest S) (engines : Engines S)
      (db : Db) (g : Gathered S)
      → AbstainsEmpty (respond floats s r engines db g)
  unfolding respond
  respond-AbstainsEmpty floats s r engines db g = record {
    empty = λ e. take_nothing (number_or r.top_k s.search_top_k) _ (
        rank_nothing floats s r engines (number_or r.top_k s.search_top_k) _
          ((abstain-Coherent floats r engines.query_entities g _).empty e));
  }

  -- Every attempt of the vector retriever fails.
  abbrev pub IsDown : (ℕ → Attempt (List (Item S))) → Type 0
  IsDown operation = (n : ℕ) → (b : Bool) × (operation n ≡ failed b)

  record NoItems (x : Option (List (Item S)) × ℕ) : Type 0 where
    pub none_found : x.0 ≡ none

  retry_down :
      (operation : ℕ → Attempt (List (Item S)))
      → IsDown operation
      → (left n : ℕ) → NoItems (retrieve_with_retry operation left n)
  unfolding retrieve_with_retry
  retry_down operation h zero n = rw ((h n).1, retrieve_with_retry) (record { none_found = refl })
  retry_down operation h (suc left) n =
      rw ((h n).1, retrieve_with_retry)
        (if_elim NoItems (h n).0 (retry_down operation h left (suc n))
          (record { none_found = refl }))

  -- The vector retriever is among the degraded components.
  record VectorDegraded (g : Gathered S) : Type 0 where
    pub degraded : any_of is_vector g.degraded ≡ true

  note_vector-VectorDegraded :
      (x : Option (List (Item S)) × ℕ) (g : Gathered S)
      → NoItems x
      → VectorDegraded (note_vector x g)
  unfolding note_vector
  note_vector-VectorDegraded (none, n) g h = record { degraded = any_of_last g.degraded }
  note_vector-VectorDegraded (some items, n) g h = ground (arith, h.none_found)

  note_keyword-VectorDegraded :
      (x : Option (List (Item S)) × ℕ) (g : Gathered S)
      → VectorDegraded g
      → VectorDegraded (note_keyword x g)
  unfolding note_keyword
  note_keyword-VectorDegraded (none, n) g h = record {
    degraded = any_of-append is_vector g.degraded _ h.degraded;
  }
  note_keyword-VectorDegraded (some items, n) g h = record { degraded = h.degraded }

  gather-VectorDegraded :
      (floats : Floats S) (s : SearchSettings S) (r : SearchRequest S) (engines : Engines S)
      → r.enable_vector ≡ true
      → IsDown (vector_attempt floats s r engines)
      → VectorDegraded (gather floats s r engines)
  unfolding gather
  gather-VectorDegraded floats s r engines e h =
      let retries = given_or r.component_max_retries s.search_component_max_retries in
      let first =
        if_cases VectorDegraded r.enable_vector
          (λ on.
            note_vector-VectorDegraded
              (retrieve_with_retry (vector_attempt floats s r engines) retries 1) nothing_gathered
              (retry_down (vector_attempt floats s r engines) h retries 1))
          (λ off. absurd (clash r.enable_vector e off)) in
      if_elim VectorDegraded r.enable_keyword (note_keyword-VectorDegraded _ _ first) first

  -- What a search with no vectors says.
  record Outage (response : SearchResponse S) : Type 0 where
    pub reason : response.abstention_reason ≡ some vector_unavailable

  abstain_outage :
      (floats : Floats S) (r : SearchRequest S) (entities : List String) (g : Gathered S)
      (items : List (Item S))
      → r.enable_vector ≡ true
      → r.enable_abstention ≡ true
      → r.allow_keyword_fallback ≡ false
      → VectorDegraded g
      → (abstain floats r entities g items).1 ≡ some vector_unavailable
  unfolding abstain
  abstain_outage floats r entities g items ev ea ef h = rw (ev, ea, ef, h.degraded) refl

  respond-Outage :
      (floats : Floats S) (s : SearchSettings S) (r : SearchRequest S) (engines : Engines S)
      (db : Db) (g : Gathered S)
      → r.enable_vector ≡ true
      → r.enable_abstention ≡ true
      → r.allow_keyword_fallback ≡ false
      → VectorDegraded g
      → Outage (respond floats s r engines db g)
  unfolding respond
  respond-Outage floats s r engines db g ev ea ef h = record {
    reason = abstain_outage floats r engines.query_entities g _ ev ea ef h;
  }

  -- A search that gives a reason to abstain shows no result.
  pub abstention_shows_nothing :
      (floats : Floats S) (s : SearchSettings S) (r : SearchRequest S) (engines : Engines S)
      (db : Db) (response : SearchResponse S)
      → search floats s r engines db ≡ answered response
      → is_some response.abstention_reason ≡ true
      → response.results ≡ []
  abstention_shows_nothing floats s r engines db response e h =
      (subst (OfAnswer AbstainsEmpty) e (
          search_answer AbstainsEmpty floats s r engines db
            (respond-AbstainsEmpty floats s r engines db (gather floats s r engines)))).empty
        h

  -- A search that is to use vectors and to abstain, and may not fall back to keywords, abstains with
  -- `vector_unavailable` when every attempt of the vector retriever fails, whatever the keyword
  -- retriever finds: where it answers at all, it shows nothing and gives that reason.
  pub vector_outage_abstains :
      (floats : Floats S) (s : SearchSettings S) (r : SearchRequest S) (engines : Engines S)
      (db : Db) (response : SearchResponse S)
      → search floats s r engines db ≡ answered response
      → r.enable_vector ≡ true
      → r.enable_abstention ≡ true
      → r.allow_keyword_fallback ≡ false
      → IsDown (vector_attempt floats s r engines)
      → (response.abstention_reason ≡ some vector_unavailable) × (response.results ≡ [])
  vector_outage_abstains floats s r engines db response e ev ea ef h =
      let reason =
        (subst (OfAnswer Outage) e (
          search_answer Outage floats s r engines db (
            respond-Outage floats s r engines db (gather floats s r engines) ev ea ef
              (gather-VectorDegraded floats s r engines ev h)))).reason in
      (reason, abstention_shows_nothing floats s r engines db response e (rw reason refl))
