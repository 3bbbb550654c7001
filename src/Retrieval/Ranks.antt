-- ===== src/Retrieval/Ranks.antt =====
-- app/core/retrieval/search.py: what one retriever adds to the fusion by reciprocal rank.
use mathlib.Core.Path.{subst}
use trustguard_rag.Prelude.{
  ℕ, suc, ◌≡◌, refl, ◌∙◌, ap, Bool, Option, none, some, List, [], ◌∷◌, String, arith, eq_iff,
  str_eq, Bool-cases, inl, inr, if◌then◌else◌,
}
use trustguard_rag.Store.Table.{Table, lookup, IsUnique, store, lookup-store, store-IsUnique}
use trustguard_rag.Retrieval.Items.{Item, Floats}
use trustguard_rag.Retrieval.Fusion.{rrf_key, rrf_add, credit, filled}

some_eq {ℓ} : {A : Type ℓ} (x y : A) → some x ≡ some y → x ≡ y
some_eq x y e = cc e

module _ {S : Type 0} (floats : Floats S) where
  -- The first result of a list under a key, with its rank, counted from `rank`.
  unfoldable pub ranked_at : String → ℕ → List (Item S) → Option (ℕ × Item S)
  ranked_at c rank [] = none
  ranked_at c rank (item ∷ items) =
      if str_eq (rrf_key floats rank item) c
      then some (rank, item)
      else ranked_at c (suc rank) items

  -- A retriever gives each chunk once, and no result has a fused score yet.
  abbrev pub IsFresh : ℕ → List (Item S) → Type 0
  IsFresh rank [] = Unit
  IsFresh rank (item ∷ items) =
      (ranked_at (rrf_key floats rank item) (suc rank) items ≡ none)
      × (item.rrf_score ≡ none)
      × IsFresh (suc rank) items

  pub rrf_add-IsUnique :
      (b : Bool) (k rank : ℕ) (items : List (Item S)) (d : Table (Item S))
      → IsUnique d
      → IsUnique (rrf_add floats b k rank items d)
  unfolding rrf_add
  rrf_add-IsUnique b k rank [] d h = h
  rrf_add-IsUnique b k rank (item ∷ items) d h =
      rrf_add-IsUnique b k (suc rank) items _ (store-IsUnique (rrf_key floats rank item) _ d h)

  -- A key that a list does not have keeps its item.
  pub lookup-rrf_add-none :
      (c : String) (b : Bool) (k rank : ℕ) (items : List (Item S)) (d : Table (Item S))
      → ranked_at c rank items ≡ none
      → lookup c (rrf_add floats b k rank items d) ≡ lookup c d
  unfolding rrf_add ranked_at
  lookup-rrf_add-none c b k rank [] d h = refl
  lookup-rrf_add-none c b k rank (item ∷ items) d h =
      let key = rrf_key floats rank item in
      let x = credit floats b k rank item (filled floats item (lookup key d)) in
      elim (Bool-cases (str_eq key c)) [
        | inl same ↦ absurd (ground (arith, h, same))
        | inr other ↦
            lookup-rrf_add-none c b k (suc rank) items (store key x d) (ground (arith, h, other))
            ∙ ground (arith, lookup-store key c x d, other)
      ]

  -- The item of a key that a list has, at its rank.
  pub lookup-rrf_add-some :
      (c : String) (b : Bool) (k rank r : ℕ) (item : Item S) (items : List (Item S))
      (d : Table (Item S))
      → IsFresh rank items
      → ranked_at c rank items ≡ some (r, item)
      → (item.rrf_score ≡ none)
        × (lookup c (rrf_add floats b k rank items d)
            ≡ some (credit floats b k r item (filled floats item (lookup c d))))
  unfolding rrf_add ranked_at
  lookup-rrf_add-some c b k rank r item [] d f h = cc h
  lookup-rrf_add-some c b k rank r item (i ∷ items) d f h =
      let key = rrf_key floats rank i in
      let x = credit floats b k rank i (filled floats i (lookup key d)) in
      elim (Bool-cases (str_eq key c)) [
        | inl same ↦
            (let stored = store key x d in
              let out = rrf_add floats b k (suc rank) items stored in
              let kept : lookup key out ≡ some x =
                lookup-rrf_add-none key b k (suc rank) items stored f.0
                ∙ ground (arith, lookup-store key key x d, eq_iff key key) in
              let here : lookup c out
                  ≡ some (credit floats b k rank i (filled floats i (lookup c d))) =
                subst
                  (λ j.
                    lookup j out ≡ some (credit floats b k rank i (filled floats i (lookup j d))))
                  ((eq_iff key c).0 same) kept in
              let at : (rank, i) ≡ (r, item) =
                some_eq (rank, i) (r, item) (ground (arith, h, same)) in
              subst
                (λ (p : ℕ × Item S).
                  (p.1.rrf_score ≡ none)
                  × (lookup c out
                      ≡ some (credit floats b k p.0 p.1 (filled floats p.1 (lookup c d)))))
                at (f.1, here))
        | inr other ↦
            (let rest =
                lookup-rrf_add-some c b k (suc rank) r item items (store key x d) f.2
                  (ground (arith, h, other)) in
              (
                rest.0,
                rest.1
                    ∙ ap (λ o. some (credit floats b k r item (filled floats item o)))
                        (ground (arith, lookup-store key c x d, other)),
              ))
      ]
