-- ===== src/Retrieval/Best.antt =====
-- app/core/retrieval/search.py: `_retrieve_query_variants` keeps the best result of each chunk.
use mathlib.Core.Path.{subst}
use trustguard_rag.Prelude.{
  ℕ, suc, ◌≡◌, ◌∙◌, sym, true, false, List, [], ◌∷◌, ◌++◌, String, arith, eq_iff, str_eq, contains,
  some, if_elim, if_cases, option_cases, Bool-cases, inl, inr,
}
use trustguard_rag.Store.Table.{Table, lookup, store, lookup-store}
use trustguard_rag.Retrieval.Items.{Item, Floats, score_or}
use trustguard_rag.Retrieval.Ranking.{Attempt, found, failed}
use trustguard_rag.Retrieval.Variants.{
  variant_key, merge_item, merge_variant, merge_variants, better, with_queries, add_query,
  set_scores,
}

contains-append_one :
    (r q : String) (xs : List String) → contains r xs ≡ true → contains r (xs ++ q ∷ []) ≡ true
contains-append_one r q [] h = cc h
contains-append_one r q (x ∷ xs) h = ground (arith, h, contains-append_one r q xs)

last-contains : (q : String) (xs : List String) → contains q (xs ++ q ∷ []) ≡ true
last-contains q [] = ground (arith, eq_iff q q)
last-contains q (x ∷ xs) = ground (arith, last-contains q xs)

some_eq {ℓ} : {A : Type ℓ} (x y : A) → some x ≡ some y → x ≡ y
some_eq x y e = cc e

module _ {S : Type 0} (floats : Floats S) where
  -- `score or 0`.
  abbrev pub score_of : Item S → S
  score_of item = score_or floats.zero_score item.score

  -- An item that has at least the score of another, and all the queries that the other matched.
  pub record Improves (x y : Item S) : Type 0 where
    pub at_least : floats.le (score_of x) (score_of y) ≡ true
    pub matched :
        (q : String) → contains q x.matched_queries ≡ true → contains q y.matched_queries ≡ true

  -- Under each key that a dictionary has, a later one has an item that improves.
  abbrev Grows : Table (Item S) → Table (Item S) → Type 0
  Grows d d' =
      (key : String) (x : Item S)
      → lookup key d ≡ some x
      → (y : Item S) × (lookup key d' ≡ some y) × Improves x y

  -- A result of a query, at its position, has an item under its key, with at least its score, that
  -- names the query.
  pub record IsKept (q : String) (position : ℕ) (item : Item S) (d : Table (Item S)) : Type 0 where
    pub kept : Item S
    pub in_place : lookup (variant_key floats q position item) d ≡ some kept
    pub at_least : floats.le (score_of item) (score_of kept) ≡ true
    pub named : contains q kept.matched_queries ≡ true

  abbrev pub AllKept : String → ℕ → List (Item S) → Table (Item S) → Type 0
  AllKept q position [] d = Unit
  AllKept q position (item ∷ items) d = IsKept q position item d × AllKept q (suc position) items d

  -- The results of every variant that succeeded.
  abbrev pub AllVariantsKept : List (String × Attempt (List (Item S))) → Table (Item S) → Type 0
  AllVariantsKept [] d = Unit
  AllVariantsKept ((q, failed retryable) ∷ gathered) d = AllVariantsKept gathered d
  AllVariantsKept ((q, found items) ∷ gathered) d = AllKept q 0 items d × AllVariantsKept gathered d

  module _ (total : (a b : S) → floats.le a b ≡ false → floats.le b a ≡ true)
      (transitive : (a b c : S)
        → floats.le a b ≡ true
        → floats.le b c ≡ true
        → floats.le a c ≡ true) where
    le_refl : (a : S) → floats.le a a ≡ true
    le_refl a = elim (Bool-cases (floats.le a a)) [ inl e ↦ e | inr e ↦ total a a e ]

    Improves-refl : (x : Item S) → Improves x x
    Improves-refl x = record { at_least = le_refl (score_of x); matched = λ q h. h }

    Grows-refl : (d : Table (Item S)) → Grows d d
    Grows-refl d key x e = (x, e, Improves-refl x)

    Improves-trans : (x y z : Item S) → Improves x y → Improves y z → Improves x z
    Improves-trans x y z h k = record {
      at_least = transitive (score_of x) (score_of y) (score_of z) h.at_least k.at_least;
      matched = λ q m. k.matched q (h.matched q m);
    }

    Grows-trans : (d e f : Table (Item S)) → Grows d e → Grows e f → Grows d f
    Grows-trans d e f h k key x found_ =
        let (y, at_y, xy) = h key x found_ in
        let (z, at_z, yz) = k key y at_y in (z, at_z, Improves-trans x y z xy yz)

    IsKept-Grows :
        (q : String) (position : ℕ) (item : Item S) (d e : Table (Item S))
        → Grows d e
        → IsKept q position item d
        → IsKept q position item e
    IsKept-Grows q position item d e g h =
        let (y, at_y, better_) = g (variant_key floats q position item) h.kept h.in_place in
        record {
          kept = y;
          in_place = at_y;
          at_least =
              transitive (score_of item) (score_of h.kept) (score_of y) h.at_least better_.at_least;
          named = better_.matched q h.named;
        }

    AllKept-Grows :
        (q : String) (position : ℕ) (items : List (Item S)) (d e : Table (Item S))
        → Grows d e
        → AllKept q position items d
        → AllKept q position items e
    AllKept-Grows q position [] d e g h = tt
    AllKept-Grows q position (item ∷ items) d e g h =
        (IsKept-Grows q position item d e g h.0, AllKept-Grows q (suc position) items d e g h.1)

    matched_kept :
        (q r : String) (xs : List String)
        → contains r xs ≡ true
        → contains r (add_query floats q xs) ≡ true
    matched_kept q r xs h =
        if_elim (λ ys. contains r ys ≡ true) (contains q xs) h (contains-append_one r q xs h)

    matched_named : (q : String) (xs : List String) → contains q (add_query floats q xs) ≡ true
    matched_named q xs =
        if_cases (λ ys. contains q ys ≡ true) (contains q xs) (λ h. h) (λ _. last-contains q xs)

    -- What is kept of two items under one key.
    abbrev Beats : String → Item S → Item S → Item S → Type 0
    Beats q old new x =
        Improves old x
        × (floats.le (score_of new) (score_of x) ≡ true)
        × (contains q x.matched_queries ≡ true)

    better-Beats : (q : String) (old new : Item S) → Beats q old new (better floats q old new)
    unfolding better set_scores
    better-Beats q old new =
        let named = matched_named q old.matched_queries in
        let kept = λ (r : String). matched_kept q r old.matched_queries in
        if_cases (Beats q old new) (floats.le (score_of new) (score_of old))
          (λ h. (record { at_least = le_refl (score_of old); matched = kept }, h, named))
          (λ h. (
            record { at_least = total (score_of new) (score_of old) h; matched = kept },
            le_refl (score_of new),
            named,
          ))

    store-Grows :
        (key : String) (x : Item S) (d : Table (Item S))
        → ((old : Item S) → lookup key d ≡ some old → Improves old x)
        → Grows d (store key x d)
    store-Grows key x d h k old found_ = elim (Bool-cases (str_eq key k)) [
      | inl same ↦ (
        x,
        ground (arith, lookup-store key k x d, same),
        h old (subst (λ j. lookup j d ≡ some old) (sym ((eq_iff key k).0 same)) found_),
      )
      | inr other ↦ (old, ground (arith, lookup-store key k x d, other, found_), Improves-refl old)
    ]

    module _ (q : String) (position : ℕ) (item : Item S) (d : Table (Item S)) where
      -- The item is in its place, and those that were there have improved.
      abbrev Merges : Table (Item S) → Type 0
      Merges e = Grows d e × IsKept q position item e

      stored-Merges :
          (x : Item S)
          → ((old : Item S)
              → lookup (variant_key floats q position item) d ≡ some old
              → Improves old x)
          → floats.le (score_of item) (score_of x) ≡ true
          → contains q x.matched_queries ≡ true
          → Merges (store (variant_key floats q position item) x d)
      stored-Merges x h l m =
          let key = variant_key floats q position item in
          (
            store-Grows key x d h,
            record {
              kept = x;
              in_place = ground (arith, lookup-store key key x d, eq_iff key key);
              at_least = l;
              named = m;
            },
          )

      candidate : Item S
      candidate = with_queries floats (q ∷ []) item

      merge_item-Merges : Merges (merge_item floats q position item d)
      unfolding merge_item candidate set_scores
      merge_item-Merges =
          option_cases Merges (lookup (variant_key floats q position item) d)
            (λ none_.
              stored-Merges candidate (λ old e. absurd (ground (arith, none_, e)))
                (le_refl (score_of item)) (ground (arith, eq_iff q q)))
            λ old e.
              let b = better-Beats q old candidate in
              stored-Merges (better floats q old candidate)
                (λ x h.
                  subst (λ o. Improves o (better floats q old candidate))
                    (some_eq old x (sym e ∙ h)) b.0)
                b.1 b.2

    merge_variant-Keeps :
        (q : String) (position : ℕ) (items : List (Item S)) (d : Table (Item S))
        → Grows d (merge_variant floats q position items d)
          × AllKept q position items (merge_variant floats q position items d)
    unfolding merge_variant
    merge_variant-Keeps q position [] d = (Grows-refl d, tt)
    merge_variant-Keeps q position (item ∷ items) d =
        let e = merge_item floats q position item d in
        let f = merge_variant floats q (suc position) items e in
        let first = merge_item-Merges q position item d in
        let rest = merge_variant-Keeps q (suc position) items e in
        (
          Grows-trans d e f first.0 rest.0,
          (IsKept-Grows q position item e f rest.0 first.1, rest.1),
        )

    pub merge_variants-Keeps :
        (gathered : List (String × Attempt (List (Item S)))) (d : Table (Item S))
        → Grows d (merge_variants floats gathered d)
          × AllVariantsKept gathered (merge_variants floats gathered d)
    unfolding merge_variants
    merge_variants-Keeps [] d = (Grows-refl d, tt)
    merge_variants-Keeps ((q, failed retryable) ∷ gathered) d = merge_variants-Keeps gathered d
    merge_variants-Keeps ((q, found items) ∷ gathered) d =
        let e = merge_variant floats q 0 items d in
        let first = merge_variant-Keeps q 0 items d in
        let rest = merge_variants-Keeps gathered e in
        (
          Grows-trans d e (merge_variants floats gathered e) first.0 rest.0,
          (AllKept-Grows q 0 items e (merge_variants floats gathered e) rest.0 first.1, rest.1),
        )
