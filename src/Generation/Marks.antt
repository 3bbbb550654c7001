-- ===== src/Generation/Marks.antt =====
-- The search for citations in a text that marks were added to.
use Prim.Native.Char.{Char}
use Prim.Native.String.{◌++◌ as join}
use text.Mathlib.TextLemmas.{nil-append, cons-append, append_assoc}
use trustguard_rag.Prelude.{
  ℕ, zero, suc, ◌+◌, ◌*◌, ◌/◌, ◌%◌, ◌<◌, ◌≤◌, ◌≡◌, refl, ◌∙◌, sym, ap, Bool, true, Option, none,
  some, List, [], ◌∷◌, ◌++◌, String, arith, eq_iff, str_eq, ltb, ◌&&◌, if_cases,
}
use trustguard_rag.Prelude.Text.{show, digits, digit, rstrip, is_space}
use trustguard_rag.Generation.Citations.{
  Matched, outside, opened, reading, digit_value, advance, ended, with_number, find_all, marks,
}

-- No digit of another script is white space.
abbrev pub NoSpace : (Char → Option ℕ) → Type 0
NoSpace others = (c : Char) → is_space c ≡ true → others c ≡ none

and_left : {a : Bool} (b : Bool) → a && b ≡ true → a ≡ true
and_left {a} b e = ground arith

and_right : (a : Bool) {b : Bool} → a && b ≡ true → b ≡ true
and_right a e = ground arith

too_many : (d : ℕ) → suc (suc (suc (suc (suc (suc (suc (suc (suc (suc d))))))))) < 10 → ⊥
too_many d l = omega arith

join_one : (c : Char) (t : String) → join (String.◌∷◌ c "") t ≡ String.◌∷◌ c t
join_one c t = cons-append c "" t ∙ ap (String.◌∷◌ c) (nil-append t)

with_number-append :
    (o : Option ℕ) (ms ks : List ℕ) {ns : List ℕ}
    → ns ≡ ms ++ ks
    → with_number o ns ≡ with_number o ms ++ ks
with_number-append none ms ks e = e
with_number-append (some n) ms ks e = ap (◌∷◌ n) e

module _ (others : Char → Option ℕ) where
  -- The state behind a text.
  unfoldable state : Matched → String → Matched
  state m String.[] = m
  state m (String.◌∷◌ c s) = state (advance others m c) s

  find_all-join :
      (m : Matched) (s t : String)
      → find_all others m (join s t) ≡ find_all others m s ++ find_all others (state m s) t
  unfolding find_all state
  find_all-join m String.[] t = ap (find_all others m) (nil-append t)
  find_all-join m (String.◌∷◌ c s) t =
      ap (find_all others m) (cons-append c s t)
      ∙ with_number-append (ended m c) _ _ (find_all-join (advance others m c) s t)

  find_all_space :
      (m : Matched) (t : String) → find_all others m (join " " t) ≡ find_all others outside t
  unfolding find_all advance ended digit_value
  find_all_space outside t = ap (find_all others outside) (join_one _ t)
  find_all_space opened t = ap (find_all others opened) (join_one _ t)
  find_all_space (reading n) t = ap (find_all others (reading n)) (join_one _ t)

  module _ (h : NoSpace others) where
    space_advances :
        (m : Matched) (c : Char)
        → is_space c ≡ true
        → (advance others m c ≡ outside) × (ended m c ≡ none)
    unfolding advance ended digit_value is_space
    space_advances outside c e = (ground arith, refl)
    space_advances opened c e = (ground (arith, h c), refl)
    space_advances (reading n) c e = (ground (arith, h c), ground arith)

    find_all_skips :
        (m : Matched) (c : Char) (s : String)
        → is_space c ≡ true
        → find_all others m (String.◌∷◌ c s) ≡ find_all others outside s
    unfolding find_all
    find_all_skips m c s e =
        let a = space_advances m c e in
        ap (λ o. with_number o (find_all others (advance others m c) s)) a.1
        ∙ ap (λ k. find_all others k s) a.0

    pub find_all-rstrip :
        (m : Matched) (s : String) → find_all others m (rstrip s) ≡ find_all others m s
    unfolding find_all rstrip
    find_all-rstrip m String.[] = refl
    find_all-rstrip m (String.◌∷◌ c s) =
        if_cases (λ r. find_all others m r ≡ find_all others m (String.◌∷◌ c s))
          (str_eq (rstrip s) "" && is_space c)
          (λ e.
            let empty : rstrip s ≡ "" = (eq_iff (rstrip s) "").0 (and_left (is_space c) e) in
            sym (
              find_all_skips m c s (and_right (str_eq (rstrip s) "") e)
              ∙ sym (find_all-rstrip outside s)
              ∙ ap (find_all others outside) empty))
          (λ _. ap (with_number (ended m c)) (find_all-rstrip (advance others m c) s))

  reads_digit :
      (n : ℕ) (d : ℕ) (t : String)
      → d < 10
      → find_all others (reading n) (join (digit d) t) ≡ find_all others (reading (n * 10 + d)) t
  unfolding find_all advance ended digit_value
  reads_digit n zero t l = ap (find_all others (reading n)) (join_one _ t)
  reads_digit n (suc zero) t l = ap (find_all others (reading n)) (join_one _ t)
  reads_digit n (suc (suc zero)) t l = ap (find_all others (reading n)) (join_one _ t)
  reads_digit n (suc (suc (suc zero))) t l = ap (find_all others (reading n)) (join_one _ t)
  reads_digit n (suc (suc (suc (suc zero)))) t l = ap (find_all others (reading n)) (join_one _ t)
  reads_digit n (suc (suc (suc (suc (suc zero))))) t l =
      ap (find_all others (reading n)) (join_one _ t)
  reads_digit n (suc (suc (suc (suc (suc (suc zero)))))) t l =
      ap (find_all others (reading n)) (join_one _ t)
  reads_digit n (suc (suc (suc (suc (suc (suc (suc zero))))))) t l =
      ap (find_all others (reading n)) (join_one _ t)
  reads_digit n (suc (suc (suc (suc (suc (suc (suc (suc zero)))))))) t l =
      ap (find_all others (reading n)) (join_one _ t)
  reads_digit n (suc (suc (suc (suc (suc (suc (suc (suc (suc zero))))))))) t l =
      ap (find_all others (reading n)) (join_one _ t)
  reads_digit n (suc (suc (suc (suc (suc (suc (suc (suc (suc (suc d)))))))))) t l =
      absurd (too_many d l)

  opens_digit :
      (d : ℕ) (t : String)
      → d < 10
      → find_all others opened (join (digit d) t) ≡ find_all others (reading d) t
  unfolding find_all advance ended digit_value
  opens_digit zero t l = ap (find_all others opened) (join_one _ t)
  opens_digit (suc zero) t l = ap (find_all others opened) (join_one _ t)
  opens_digit (suc (suc zero)) t l = ap (find_all others opened) (join_one _ t)
  opens_digit (suc (suc (suc zero))) t l = ap (find_all others opened) (join_one _ t)
  opens_digit (suc (suc (suc (suc zero)))) t l = ap (find_all others opened) (join_one _ t)
  opens_digit (suc (suc (suc (suc (suc zero))))) t l = ap (find_all others opened) (join_one _ t)
  opens_digit (suc (suc (suc (suc (suc (suc zero)))))) t l =
      ap (find_all others opened) (join_one _ t)
  opens_digit (suc (suc (suc (suc (suc (suc (suc zero))))))) t l =
      ap (find_all others opened) (join_one _ t)
  opens_digit (suc (suc (suc (suc (suc (suc (suc (suc zero)))))))) t l =
      ap (find_all others opened) (join_one _ t)
  opens_digit (suc (suc (suc (suc (suc (suc (suc (suc (suc zero))))))))) t l =
      ap (find_all others opened) (join_one _ t)
  opens_digit (suc (suc (suc (suc (suc (suc (suc (suc (suc (suc d)))))))))) t l =
      absurd (too_many d l)

  opens_digits :
      (fuel n : ℕ) (t : String)
      → n < fuel
      → find_all others opened (join (digits fuel n) t) ≡ find_all others (reading n) t
  unfolding digits
  opens_digits zero n t l = absurd (omega arith)
  opens_digits (suc fuel) n t l =
      if_cases (λ r. find_all others opened (join r t) ≡ find_all others (reading n) t) (ltb n 10)
        (λ e. opens_digit n t (ground arith))
        (λ e.
          let big : 10 ≤ n = ground arith in
          let whole : (n / 10) * 10 + n % 10 ≡ n = omega arith in
          ap (find_all others opened) (append_assoc (digits fuel (n / 10)) (digit (n % 10)) t)
          ∙ opens_digits fuel (n / 10) (join (digit (n % 10)) t) (omega (arith, big, l))
          ∙ reads_digit (n / 10) (n % 10) t (omega arith)
          ∙ ap (λ k. find_all others (reading k) t) whole)

  find_all_mark :
      (n : ℕ) (t : String)
      → find_all others outside (join "[" (join (show n) (join "]" t)))
        ≡ n ∷ find_all others outside t
  unfolding find_all advance ended show digit_value
  find_all_mark n t =
      ap (find_all others outside) (join_one _ (join (show n) (join "]" t)))
      ∙ opens_digits (suc n) n (join "]" t) (omega arith)
      ∙ ap (find_all others (reading n)) (join_one _ t)

  pub find_all-marks : (ns : List ℕ) → find_all others outside (marks ns) ≡ ns
  unfolding marks find_all
  find_all-marks [] = refl
  find_all-marks (n ∷ ns) = find_all_mark n (marks ns) ∙ ap (◌∷◌ n) (find_all-marks ns)

  -- The marks that are written behind a text are found behind its own.
  pub find_all_behind :
      NoSpace others
      → (s : String) (ns : List ℕ)
      → find_all others outside (join (rstrip s) (join " " (marks ns)))
        ≡ find_all others outside s ++ ns
  find_all_behind h s ns =
      find_all-join outside (rstrip s) (join " " (marks ns))
      ∙ ap (λ xs. xs ++ find_all others (state outside (rstrip s)) (join " " (marks ns)))
          (find_all-rstrip h outside s)
      ∙ ap (λ ys. find_all others outside s ++ ys)
          (find_all_space (state outside (rstrip s)) (marks ns) ∙ find_all-marks ns)
