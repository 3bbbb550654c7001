-- ===== src/Prelude/First.antt =====
-- The first elements of a list in order.
use mathlib.Core.Path.{◌≡◌, refl, ap, subst}
use mathlib.Core.Logic.{◌⊎◌, inl, inr}
use mathlib.Core.Bool.{Bool, true, false}
use mathlib.Core.List.{List, [], ◌∷◌}
use Prim.Native.Nat.{ℕ, zero, suc}
use trustguard_rag.Prelude.Tests.{if_elim}
use trustguard_rag.Prelude.Lists.{All, length, take}
use trustguard_rag.Prelude.Sort.{insert, sort, IsSorted, sort-IsSorted}

-- The list has the element.
abbrev pub Has : {A : Type 0} → A → List A → Type 0
Has z [] = ⊥
Has z (x ∷ xs) = (x ≡ z) ⊎ Has z xs

module _ {A : Type 0} (le : A → A → Bool) where
  Has-insert : (z x : A) (xs : List A) → Has z (x ∷ xs) → Has z (insert le x xs)
  unfolding insert
  Has-insert z x [] h = h
  Has-insert z x (y ∷ ys) h = if_elim (Has z) (le x y) h (elim h [
    | inl e ↦ inr (Has-insert z x ys (inl e))
    | inr k ↦ elim k [ inl e ↦ inl e | inr m ↦ inr (Has-insert z x ys (inr m)) ]
  ])

  Has-sort : (z : A) (xs : List A) → Has z xs → Has z (sort le xs)
  unfolding sort
  Has-sort z [] h = h
  Has-sort z (x ∷ xs) (inl e) = Has-insert z x (sort le xs) (inl e)
  Has-sort z (x ∷ xs) (inr h) = Has-insert z x (sort le xs) (inr (Has-sort z xs h))

  -- An element is among the first `n`, or there are `n` of them and none of them comes after it.
  abbrev pub IsServed : ℕ → A → List A → Type 0
  IsServed n z xs = Has z xs ⊎ (length xs ≡ n) × All (λ y. le y z ≡ true) xs

  module _ (total : (x y : A) → le x y ≡ false → le y x ≡ true)
      (transitive : (x y z : A) → le x y ≡ true → le y z ≡ true → le x z ≡ true) where
    head-le : (x z : A) (xs : List A) → IsSorted le (x ∷ xs) → Has z xs → le x z ≡ true
    head-le x z [] s h = absurd h
    head-le x z (y ∷ ys) s (inl e) = subst (λ w. le x w ≡ true) e s.0
    head-le x z (y ∷ ys) s (inr h) = transitive x y z s.0 (head-le y z ys s.1 h)

    take-IsServed :
        (n : ℕ) (z : A) (xs : List A) → IsSorted le xs → Has z xs → IsServed n z (take n xs)
    take-IsServed zero z xs s h = inr (refl, tt)
    take-IsServed (suc n) z [] s h = absurd h
    take-IsServed (suc n) z (x ∷ xs) s (inl e) = inl (inl e)
    take-IsServed (suc n) z (x ∷ xs) s (inr h) = elim (take-IsServed n z xs s.1 h) [
      | inl m ↦ inl (inr m)
      | inr full ↦ inr (ap suc full.0, (head-le x z xs s h, full.1))
    ]

    pub first-IsServed :
        (n : ℕ) (z : A) (xs : List A) → Has z xs → IsServed n z (take n (sort le xs))
    first-IsServed n z xs h =
        take-IsServed n z (sort le xs) (sort-IsSorted le total xs) (Has-sort z xs h)
