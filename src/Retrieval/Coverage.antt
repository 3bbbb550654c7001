-- ===== src/Retrieval/Coverage.antt =====
-- app/core/retrieval/search.py: what the fusion by reciprocal rank makes of each chunk.
use mathlib.Core.Option
use mathlib.Core.List.{Perm}
use trustguard_rag.Prelude.{
  All, ℕ, ◌+◌, ◌≡◌, refl, ◌∙◌, ap, true, false, Option, none, some, List, [], ◌∷◌, String, or_else,
  map, Option-cases, inl, inr,
}
use trustguard_rag.Prelude.Sort.{sort, sort-perm, sort-IsSorted, IsSorted}
use trustguard_rag.Store.Table.{Table, lookup, IsUnique}
use trustguard_rag.Retrieval.Items.{Item, Floats, values, score_or}
use trustguard_rag.Retrieval.Fusion.{
  rrf_share, rrf_add, rrf_merged, rrf_fusion, rrf_le, take_rrf_score, credit, fill, filled,
}
use trustguard_rag.Retrieval.Variants.{set_scores}
use trustguard_rag.Retrieval.Ranks.{
  ranked_at, IsFresh, rrf_add-IsUnique, lookup-rrf_add-none, lookup-rrf_add-some,
}

module _ {S : Type 0} (floats : Floats S) where
  -- `1 / (k + rank + 1)`.
  abbrev pub reciprocal : ℕ → ℕ → S
  reciprocal k rank = floats.over floats.one_score (floats.of_int (k + rank + 1))

  -- The fused score of a key, from its ranks in the two lists.
  abbrev pub fused_score : ℕ → Option ℕ → Option ℕ → Option S
  fused_score k none none = none
  fused_score k (some r) none = some (floats.plus floats.zero_score (reciprocal k r))
  fused_score k none (some q) = some (floats.plus floats.zero_score (reciprocal k q))
  fused_score k (some r) (some q) =
      some (floats.plus (floats.plus floats.zero_score (reciprocal k r)) (reciprocal k q))

  -- A column of the first of two results that has it.
  abbrev pub first_of {κ} :
      {A : Type κ} → (Item S → Option A) → Option (ℕ × Item S) → Option (ℕ × Item S) → Option A
  first_of f none none = none
  first_of f none (some (q, z)) = f z
  first_of f (some (r, x)) none = f x
  first_of f (some (r, x)) (some (q, z)) = or_else (f x) (f z)

  -- The rank that a retriever gave, counted from 1.
  abbrev pub HasVectorRank : Option (ℕ × Item S) → Item S → Type 0
  HasVectorRank none y = Unit
  HasVectorRank (some (r, x)) y = y.vector_rank ≡ some (r + 1)

  abbrev pub HasKeywordRank : Option (ℕ × Item S) → Item S → Type 0
  HasKeywordRank none y = Unit
  HasKeywordRank (some (q, z)) y = y.keyword_rank ≡ some (q + 1)

  -- What is stored under a key, by the results of the two lists that have the key.
  pub record IsFused (k : ℕ) (vector keyword : Option (ℕ × Item S)) (y : Item S) : Type 0 where
    pub score :
        y.rrf_score ≡ fused_score k (Option.map (λ p. p.0) vector) (Option.map (λ p. p.0) keyword)
    pub chunk_id : y.chunk_id ≡ first_of (λ (i : Item S). i.chunk_id) vector keyword
    pub text : y.text ≡ first_of (λ (i : Item S). i.text) vector keyword
    pub source_uri : y.source_uri ≡ first_of (λ (i : Item S). i.source_uri) vector keyword
    pub vector_rank : HasVectorRank vector y
    pub keyword_rank : HasKeywordRank keyword y

  -- Nothing is stored under a key that neither list has.
  abbrev pub Fused : ℕ → Option (ℕ × Item S) → Option (ℕ × Item S) → Option (Item S) → Type 0
  Fused k none none stored = stored ≡ none
  Fused k vector keyword stored = (y : Item S) × (stored ≡ some y) × IsFused k vector keyword y

  plus_none :
      (k r : ℕ) (score : Option S)
      → score ≡ none
      → some (floats.plus (score_or floats.zero_score score) (rrf_share floats k r))
        ≡ some (floats.plus floats.zero_score (reciprocal k r))
  unfolding rrf_share
  plus_none k r score h = rw h refl

  vector-IsFused :
      (k r : ℕ) (x : Item S)
      → x.rrf_score ≡ none
      → IsFused k (some (r, x)) none (credit floats true k r x x)
  unfolding credit set_scores
  vector-IsFused k r x h = record {
    score = plus_none k r x.rrf_score h;
    chunk_id = refl;
    text = refl;
    source_uri = refl;
    vector_rank = refl;
    keyword_rank = tt;
  }

  keyword-IsFused :
      (k q : ℕ) (z : Item S)
      → z.rrf_score ≡ none
      → IsFused k none (some (q, z)) (credit floats false k q z z)
  unfolding credit set_scores
  keyword-IsFused k q z h = record {
    score = plus_none k q z.rrf_score h;
    chunk_id = refl;
    text = refl;
    source_uri = refl;
    vector_rank = tt;
    keyword_rank = refl;
  }

  both-IsFused :
      (k r q : ℕ) (x z : Item S)
      → x.rrf_score ≡ none
      → IsFused k
          (some (r, x))
          (some (q, z))
          (credit floats false k q z (fill floats (credit floats true k r x x) z))
  unfolding credit set_scores fill rrf_share
  both-IsFused k r q x z h = record {
    score =
        ap (λ o. some (floats.plus (score_or floats.zero_score o) (reciprocal k q)))
          (plus_none k r x.rrf_score h);
    chunk_id = refl;
    text = refl;
    source_uri = refl;
    vector_rank = refl;
    keyword_rank = refl;
  }

  lookup-rrf_merged :
      (c : String) (k : ℕ) (vector keyword : List (Item S))
      → IsFresh floats 0 vector
      → IsFresh floats 0 keyword
      → Fused k
          (ranked_at floats c 0 vector)
          (ranked_at floats c 0 keyword)
          (lookup c (rrf_merged floats k vector keyword))
  unfolding rrf_merged lookup
  lookup-rrf_merged c k vector keyword fv fk =
      let first = rrf_add floats true k 0 vector [] in
      elim (Option-cases (ranked_at floats c 0 vector)) [
        | inl ev ↦ elim (Option-cases (ranked_at floats c 0 keyword)) [
          | inl ek ↦
              rw (ev, ek)
                (lookup-rrf_add-none floats c false k 0 keyword first ek
                  ∙ lookup-rrf_add-none floats c true k 0 vector [] ev)
          | inr ((q, z), ek) ↦
              (let (h, at) = lookup-rrf_add-some floats c false k 0 q z keyword first fk ek in
                let absent = lookup-rrf_add-none floats c true k 0 vector [] ev in
                rw (ev, ek)
                  (
                    credit floats false k q z z,
                    at ∙ ap (λ o. some (credit floats false k q z (filled floats z o))) absent,
                    keyword-IsFused k q z h,
                  ))
        ]
        | inr ((r, x), ev) ↦
            (let (h, at) = lookup-rrf_add-some floats c true k 0 r x vector [] fv ev in
              elim (Option-cases (ranked_at floats c 0 keyword)) [
                | inl ek ↦
                    rw (ev, ek)
                      (
                        credit floats true k r x x,
                        lookup-rrf_add-none floats c false k 0 keyword first ek ∙ at,
                        vector-IsFused k r x h,
                      )
                | inr ((q, z), ek) ↦
                    (let (_, more) =
                        lookup-rrf_add-some floats c false k 0 q z keyword first fk ek in
                      rw (ev, ek)
                        (
                          credit floats false k q z (fill floats (credit floats true k r x x) z),
                          more ∙ ap (λ o. some (credit floats false k q z (filled floats z o))) at,
                          both-IsFused k r q x z h,
                        ))
              ])
      ]

  -- A result's score is its fused one.
  abbrev pub HasFusedScore : Item S → Type 0
  HasFusedScore x = x.score ≡ some (score_or floats.zero_score x.rrf_score)

  take_rrf_score-HasFusedScore :
      (rows : List (Item S)) → All HasFusedScore (map (take_rrf_score floats) rows)
  unfolding set_scores
  take_rrf_score-HasFusedScore [] = tt
  take_rrf_score-HasFusedScore (x ∷ rows) = (refl, take_rrf_score-HasFusedScore rows)

  -- The results of the fusion are the rows of the dictionary, by score.
  pub record Ranked (d : Table (Item S)) (out : List (Item S)) : Type 0 where
    pub rows : List (Item S)
    pub shows : out ≡ map (take_rrf_score floats) rows
    pub scores : All HasFusedScore out
    pub rearranged : Perm rows (values d)
    pub descending :
        IsSorted
          (λ a b.
            floats.le
              (score_or floats.zero_score b.rrf_score)
              (score_or floats.zero_score a.rrf_score))
          rows

  -- The fusion by reciprocal rank, where each retriever gives each key once, with no fused score yet,
  -- and the order of scores is total. The key of a result is its chunk id, or else its raw id, or else
  -- its rank. Every key that one of the retrievers gives has one item in the dictionary, and no other
  -- key has: its score is the sum of `1 / (k + rank + 1)` over the retrievers that give it, its chunk
  -- id, text and address are those of the vector result, or of the keyword result where the vector
  -- result lacks them, and it has its rank with each retriever. The results are the items of the
  -- dictionary with these scores, higher ones first.
  pub rrf_fusion-IsFused :
      ((a b : S) → floats.le a b ≡ false → floats.le b a ≡ true)
      → (k : ℕ) (vector keyword : List (Item S)) → IsFresh floats 0 vector
      → IsFresh floats 0 keyword
      → let d = rrf_merged floats k vector keyword in
        IsUnique d
        × ((c : String)
            → Fused k (ranked_at floats c 0 vector) (ranked_at floats c 0 keyword) (lookup c d))
        × Ranked d (rrf_fusion floats k vector keyword)
  unfolding rrf_fusion
  rrf_fusion-IsFused total k vector keyword fv fk =
      let d = rrf_merged floats k vector keyword in
      (
        unfold rrf_merged in
            rrf_add-IsUnique floats false k 0 keyword (rrf_add floats true k 0 vector [])
              (rrf_add-IsUnique floats true k 0 vector [] tt),
        λ c. lookup-rrf_merged c k vector keyword fv fk,
        record {
          rows = sort (rrf_le floats) (values d);
          shows = refl;
          scores = take_rrf_score-HasFusedScore (sort (rrf_le floats) (values d));
          rearranged = sort-perm (rrf_le floats) (values d);
          descending =
              sort-IsSorted (rrf_le floats)
                (λ a b.
                  total (score_or floats.zero_score b.rrf_score)
                    (score_or floats.zero_score a.rrf_score))
                (values d);
        },
      )
