-- ===== src/Prelude/Stable.antt =====
-- A sort keeps the order of elements that are equals.
use trustguard_rag.Prelude.Lists.{filter_by}
use trustguard_rag.Prelude.Sort.{insert, sort}
use mathlib.Core.Path.{◌≡◌, refl}
use mathlib.Core.Bool.{Bool, true}
use mathlib.Core.List.{List, [], ◌∷◌}
use native.Mathlib.Omega.{arith}

module _ {ℓ} {A : Type ℓ} (le : A → A → Bool) (p : A → Bool)
    (equals : (x y : A) → p x ≡ true → p y ≡ true → le x y ≡ true) where
  filter_insert : (x : A) (ys : List A) → filter_by p (insert le x ys) ≡ filter_by p (x ∷ ys)
  unfolding insert
  filter_insert x [] = refl
  filter_insert x (y ∷ ys) = ground (arith, filter_insert x ys, equals x y)

  -- The elements of a class come in the order in which they came.
  pub sort_stable : (xs : List A) → filter_by p (sort le xs) ≡ filter_by p xs
  unfolding sort
  sort_stable [] = refl
  sort_stable (x ∷ xs) = ground (arith, filter_insert x (sort le xs), sort_stable xs)
