-- ===== src/Generation/Sets.antt =====
-- The sets of citation ids that app/core/generation/citation_validator.py compares, and the evidence
-- that it finds for the ids of a text.
use mathlib.Core.Path.{subst}
use trustguard_rag.Prelude.{
  is_nil, ℕ, ◌≡◌, ◌≢◌, refl, ◌∙◌, sym, ap, true, not, ◌&&◌, ◌||◌, some, List, [], ◌∷◌, ◌++◌, arith,
  is_some, All, map, Option-cases, Bool-cases, inl, inr, ◌⊎◌,
}
use trustguard_rag.Generation.Context.{Evidence}
use trustguard_rag.Generation.Citations.{
  LlmResponseError, Checked, ok, err, contains, distinct, by_id, all_known, is_subset, missing,
  cited,
}

-- Membership decides the sets that the code compares.
pub contains-append :
    (k : ℕ) (xs ys : List ℕ) → contains k (xs ++ ys) ≡ contains k xs || contains k ys
contains-append k [] ys = refl
contains-append k (x ∷ xs) ys = ground (arith, contains-append k xs ys)

pub contains-distinct :
    (k : ℕ) (seen xs : List ℕ)
    → contains k (distinct seen xs) ≡ contains k xs && not (contains k seen)
unfolding distinct
contains-distinct k seen [] = refl
contains-distinct k seen (x ∷ xs) = elim (Bool-cases (contains x seen)) [
  | inl old ↦ ground (arith, contains-distinct k seen xs)
  | inr new_ ↦ ground (arith, contains-distinct k (x ∷ seen) xs)
]

pub contains-missing :
    (k : ℕ) (xs r : List ℕ) → contains k (missing xs r) ≡ contains k xs && not (contains k r)
unfolding missing
contains-missing k [] r = refl
contains-missing k (x ∷ xs) r = ground (arith, contains-missing k xs r)

pub is_subset_elim :
    (k : ℕ) (xs ys : List ℕ) → is_subset xs ys ≡ true → contains k xs ≡ true → contains k ys ≡ true
is_subset_elim k [] ys s c = cc
is_subset_elim k (x ∷ xs) ys s c = ground (arith, is_subset_elim k xs ys)

pub is_subset_intro :
    (xs ys : List ℕ)
    → ((k : ℕ) → contains k xs ≡ true → contains k ys ≡ true)
    → is_subset xs ys ≡ true
is_subset_intro [] ys h = refl
is_subset_intro (x ∷ xs) ys h =
    ground (arith, h x, is_subset_intro xs ys (λ k c. h k (ground arith)))

pub all_known_elim :
    (k : ℕ) (xs : List ℕ) (evidence : List Evidence)
    → all_known evidence xs ≡ true
    → contains k xs ≡ true
    → is_some (by_id k evidence) ≡ true
all_known_elim k [] evidence a c = cc
all_known_elim k (x ∷ xs) evidence a c = ground (arith, all_known_elim k xs evidence)

pub all_known_intro :
    (xs : List ℕ) (evidence : List Evidence)
    → ((k : ℕ) → contains k xs ≡ true → is_some (by_id k evidence) ≡ true)
    → all_known evidence xs ≡ true
all_known_intro [] evidence h = refl
all_known_intro (x ∷ xs) evidence h =
    ground (arith, h x, all_known_intro xs evidence (λ k c. h k (ground arith)))

by_id-citation_id :
    (n : ℕ) (e : Evidence) (evidence : List Evidence)
    → by_id n evidence ≡ some e
    → e.citation_id ≡ n
unfolding by_id
by_id-citation_id n e [] h = cc
by_id-citation_id n e (x ∷ xs) h = elim (Option-cases (by_id n xs)) [
  | inl no_ ↦ ground (arith, no_)
  | inr (y, yes_) ↦ by_id-citation_id n e xs (yes_ ∙ ground (arith, yes_))
]

-- The pieces of evidence that a text cites: one for each id of it, in the order of the text.
pub record Cites (ids : List ℕ) (evidence es : List Evidence) : Type 0 where
  pub ids_of : map (λ e. e.citation_id) es ≡ ids
  pub given : All (λ e. by_id e.citation_id evidence ≡ some e) es

pub Checked-cases {ℓ} :
    {A : Type ℓ} (r : Checked A) → ((a : A) × (r ≡ ok a)) ⊎ ((x : LlmResponseError) × (r ≡ err x))
Checked-cases (ok a) = inl (a, refl)
Checked-cases (err x) = inr (x, refl)

pub ok_eq {ℓ} : {A : Type ℓ} {a b : A} → ok a ≡ ok b → a ≡ b
ok_eq e = cc

cited-cons :
    (n : ℕ) (ns : List ℕ) (evidence : List Evidence) (e : Evidence) (es : List Evidence)
    → by_id n evidence ≡ some e
    → cited ns evidence ≡ ok es
    → cited (n ∷ ns) evidence ≡ ok (e ∷ es)
unfolding cited
cited-cons n ns evidence e es h c = ground arith

cited_cons_fails :
    (n : ℕ) (ns : List ℕ) (evidence : List Evidence) (x : LlmResponseError) (es : List Evidence)
    → cited ns evidence ≡ err x
    → cited (n ∷ ns) evidence ≢ ok es
unfolding cited
cited_cons_fails n ns evidence x es c h = ground (arith, Option-cases (by_id n evidence))

pub cited-Cites :
    (ids : List ℕ) (evidence es : List Evidence)
    → cited ids evidence ≡ ok es
    → Cites ids evidence es
unfolding cited
cited-Cites [] evidence es h =
    subst (Cites [] evidence) (ok_eq h) (record { ids_of = refl; given = tt })
cited-Cites (n ∷ ns) evidence es h = elim (Option-cases (by_id n evidence)) [
  | inl no_ ↦ absurd (ground (arith, no_))
  | inr (e, yes_) ↦ elim (Checked-cases (cited ns evidence)) [
    | inr (x, fails) ↦ absurd (cited_cons_fails n ns evidence x es fails h)
    | inl (rest, holds) ↦
        (let ih = cited-Cites ns evidence rest holds in
          let id_eq = by_id-citation_id n e evidence yes_ in
          subst (Cites (n ∷ ns) evidence)
            (ok_eq (sym (cited-cons n ns evidence e rest yes_ holds) ∙ h))
            (record {
              ids_of = ground (arith, ih.ids_of, id_eq);
              given = (ap (λ k. by_id k evidence) id_eq ∙ yes_, ih.given);
            }))
  ]
]

-- Where all ids are known the code finds evidence for each.
pub cited_known :
    (ids : List ℕ) (evidence : List Evidence)
    → all_known evidence ids ≡ true
    → (es : List Evidence) × (cited ids evidence ≡ ok es)
unfolding cited
cited_known [] evidence h = ([], refl)
cited_known (n ∷ ns) evidence h = elim (Option-cases (by_id n evidence)) [
  | inl no_ ↦ absurd (ground (arith, no_))
  | inr (e, yes_) ↦
      (let rest = cited_known ns evidence (ground (arith, yes_)) in
        (e ∷ rest.0, cited-cons n ns evidence e rest.0 yes_ rest.1))
]

pub nil_of : (ids : List ℕ) → is_nil ids ≡ true → ids ≡ []
nil_of [] e = refl
nil_of (n ∷ ns) e = cc
