-- ===== src/Generation/Truncation.antt =====
-- app/core/generation/context_builder.py: what the bisection of `_truncate_to_fit` finds.
use trustguard_rag.Prelude.{
  ℕ, zero, suc, ◌+◌, ◌-◌, ◌/◌, ◌≤◌, ◌<◌, ◌≡◌, refl, Bool, true, false, Option, none, some, ltb,
  arith, ◌⊎◌, inl, inr, Bool-cases,
}
use trustguard_rag.Generation.Context.{bisect}

-- The two ways of a match on a Boolean, with what each knows.
pub bool_cases {ℓ κ} :
    {A : Type ℓ} (P : A → Type κ) (b : Bool) {x y : A}
    → (b ≡ true → P x)
    → (b ≡ false → P y)
    → P (elim b [ true ↦ x | false ↦ y ])
bool_cases P true hx hy = hx refl
bool_cases P false hx hy = hy refl

above_top : (top k : ℕ) → suc top ≤ k → k ≤ top → ⊥
above_top top k a c = omega (arith, a, c)

module _ (test : ℕ → Bool) (top : ℕ) where
  -- No length from `limit` on, but for the lengths 0 and 1, fits.
  abbrev FailsFrom : ℕ → Type 0
  FailsFrom limit = (n : ℕ) → limit ≤ n → 2 ≤ n → n ≤ top → test n ≡ false

  -- What is known of the best length so far, when the search goes on from `low`.
  abbrev IsBest : ℕ → Option ℕ → Type 0
  IsBest low none = low ≡ 0
  IsBest low (some m) = (test m ≡ true) × (low ≡ m + 1)

  -- A found length fits, and `n` does not or is no greater; where none is found, `n` does not fit.
  abbrev pub IsLongest : ℕ → Option ℕ → Type 0
  IsLongest n none = test n ≡ false
  IsLongest n (some m) = (test m ≡ true) × ((test n ≡ false) ⊎ (n ≤ m))

  beyond :
      (limit m n : ℕ)
      → FailsFrom limit
      → limit ≤ m + 1
      → 2 ≤ n
      → n ≤ top
      → (test n ≡ false) ⊎ (n ≤ m)
  beyond limit m n f h two t = elim (Bool-cases (ltb m n)) [
    | inl e ↦ inl (f n (ground (arith, e, h)) two t)
    | inr e ↦ inr (ground (arith, e))
  ]

  nothing_above : (k : ℕ) → suc top ≤ k → k ≤ top → test k ≡ false
  nothing_above k a c = absurd (above_top top k a c)

  search_done :
      (low limit : ℕ) (best : Option ℕ)
      → limit ≤ low
      → FailsFrom limit
      → IsBest low best
      → (n : ℕ) → 2 ≤ n
      → n ≤ top
      → IsLongest n best
  search_done low limit none h f b n two t = f n (omega (arith, h, b)) two t
  search_done low limit (some m) h f (fit, b) n two t =
      (fit, beyond limit m n f (omega (arith, h, b)) two t)

  module _ (falls : (m n : ℕ) → 1 ≤ m → m ≤ n → test n ≡ true → test m ≡ true) where
    above_failing : (middle n : ℕ) → 1 ≤ middle → middle ≤ n → test middle ≡ false → test n ≡ false
    above_failing middle n one h e = elim (Bool-cases (test n)) [
      | inl fit ↦ ground (arith, e, falls middle n one h fit)
      | inr fails ↦ fails
    ]

    fails_lower :
        (low limit : ℕ)
        → low < limit
        → test ((low + limit - 1) / 2) ≡ false
        → FailsFrom limit
        → FailsFrom ((low + limit - 1) / 2)
    fails_lower low limit h e f n a two t = elim (Bool-cases (ltb 0 ((low + limit - 1) / 2))) [
      | inl some_ ↦ above_failing ((low + limit - 1) / 2) n (ground (arith, some_)) a e
      | inr none_ ↦ f n (ground (arith, h, none_, two)) two t
    ]

    search-IsLongest :
        (fuel low limit : ℕ) (best : Option ℕ)
        → limit < low + fuel
        → FailsFrom limit
        → IsBest low best
        → (n : ℕ) → 2 ≤ n
        → n ≤ top
        → IsLongest n (bisect test fuel low limit best)
    unfolding bisect
    search-IsLongest zero low limit best h f b n two t =
        search_done low limit best (omega (arith, h)) f b n two t
    search-IsLongest (suc fuel) low limit best h f b n two t =
        let middle = (low + limit - 1) / 2 in
        bool_cases (IsLongest n) (ltb low limit)
          (λ e.
            let more : low < limit = ground (arith, e) in
            bool_cases (IsLongest n) (test middle)
              (λ fit.
                search-IsLongest fuel (middle + 1) limit (some middle) (omega (arith, h, more)) f
                  (fit, refl) n two t)
              (λ fails.
                search-IsLongest fuel low middle best (omega (arith, h, more))
                  (fails_lower low limit more fails f) b n two t))
          (λ e. search_done low limit best (ground (arith, e)) f b n two t)

  -- If a length fits whenever a greater one does, the lengths from 1 on, then the bisection over the
  -- lengths up to `top`, on fuel of two more, finds one that fits and is the greatest, or, where it
  -- finds none, none fits that is greater than 1.
  pub bisect-IsLongest :
      ((m n : ℕ) → 1 ≤ m → m ≤ n → test n ≡ true → test m ≡ true)
      → (n : ℕ) → 2 ≤ n
      → n ≤ top
      → IsLongest n (bisect test (suc (suc top)) 0 (suc top) none)
  bisect-IsLongest falls n two t =
      search-IsLongest falls (suc (suc top)) 0 (suc top) none (omega arith)
        (λ k a b c. nothing_above k a c) refl n two t
