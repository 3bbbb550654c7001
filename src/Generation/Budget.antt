-- ===== src/Generation/Budget.antt =====
-- app/core/generation/context_builder.py: what `build` promises of the evidence that it selects.
use mathlib.Core.Path.{subst}
use trustguard_rag.Prelude.{
  ℕ, zero, suc, ◌+◌, ◌-◌, ◌/◌, ◌≤◌, ◌≡◌, refl, Bool, true, false, not, ◌||◌, ◌&&◌, Option, none,
  some, List, [], ◌∷◌, ◌++◌, String, arith, eq_iff, leb, ltb, str_eq, contains, length, take_text,
  All, All-append, if_cases, option_cases, ◌⊎◌, inl, inr, length-append, Bool-cases,
}
use trustguard_rag.Prelude.Text.{strip, rstrip, text_length}
use trustguard_rag.Generation.Context.{
  SearchResult, Evidence, ContextSettings, serialize, to_evidence, prefix, bisect, fits,
  fits_prefix, prefix_of, truncate_to_fit, select,
}
use trustguard_rag.Generation.Truncation.{bool_cases}

-- The citation ids count up from `k`.
abbrev pub IsNumbered : ℕ → List Evidence → Type 0
IsNumbered k [] = Unit
IsNumbered k (e ∷ es) = (e.citation_id ≡ k) × IsNumbered (suc k) es

abbrev pub HasText : Evidence → Type 0
HasText e = str_eq e.text "" ≡ false

abbrev pub DiffersFrom : Evidence → Evidence → Type 0
DiffersFrom e d = str_eq (strip d.chunk_id) (strip e.chunk_id) ≡ false

-- No two are of one chunk.
abbrev pub IsApart : List Evidence → Type 0
IsApart [] = Unit
IsApart (d ∷ es) = All (λ e. DiffersFrom e d) es × IsApart es

IsNumbered-append :
    (k : ℕ) (es : List Evidence) (e : Evidence)
    → IsNumbered k es
    → e.citation_id ≡ k + length es
    → IsNumbered k (es ++ e ∷ [])
IsNumbered-append k [] e h c = (omega (arith, c), tt)
IsNumbered-append k (d ∷ es) e h c = (h.0, IsNumbered-append (suc k) es e h.1 (omega (arith, c)))

IsApart-append :
    (es : List Evidence) (e : Evidence)
    → IsApart es
    → All (DiffersFrom e) es
    → IsApart (es ++ e ∷ [])
IsApart-append [] e h a = (tt, tt)
IsApart-append (d ∷ es) e h a =
    (All-append (λ x. DiffersFrom x d) es (e ∷ []) h.0 (a.0, tt), IsApart-append es e h.1 a.1)

-- The chunk of a piece of evidence is among those that were seen.
abbrev IsSeen : List String → Evidence → Type 0
IsSeen seen e = contains (strip e.chunk_id) seen ≡ true

differs :
    (seen : List String) (d e : String)
    → contains d seen ≡ true
    → contains e seen ≡ false
    → str_eq d e ≡ false
differs seen d e h f = elim (Bool-cases (str_eq d e)) [
  | inl same ↦
      let eq : d ≡ e = ground (arith, same, eq_iff d e) in
      ground (arith, f, subst (λ x. contains x seen ≡ true) eq h)
  | inr other ↦ other
]

unseen_differs :
    (seen : List String) (e : Evidence) (es : List Evidence)
    → All (IsSeen seen) es
    → contains (strip e.chunk_id) seen ≡ false
    → All (DiffersFrom e) es
unseen_differs seen e [] h f = tt
unseen_differs seen e (d ∷ es) h f =
    (differs seen (strip d.chunk_id) (strip e.chunk_id) h.0 f, unseen_differs seen e es h.1 f)

still-IsSeen :
    (seen : List String) (id : String) (es : List Evidence)
    → All (IsSeen seen) es
    → All (IsSeen (id ∷ seen)) es
still-IsSeen seen id [] h = tt
still-IsSeen seen id (e ∷ es) h = (ground (arith, h.0), still-IsSeen seen id es h.1)

first_seen : (id : String) (seen : List String) → contains id (id ∷ seen) ≡ true
first_seen id seen = ground (arith, eq_iff id id)

both : (a b : Bool) → (not a && b) ≡ true → (a ≡ false) × (b ≡ true)
both true b h = ground (arith, h)
both false b h = (refl, h)

neither : (a b c : Bool) → (a || b || c) ≡ false → (b ≡ false) × (c ≡ false)
neither true b c h = ground (arith, h)
neither false true c h = ground (arith, h)
neither false false c h = (refl, h)

nothing_some : (t : Evidence) → none ≡ some t → ⊥
nothing_some t e = cc e

same_chunk :
    (e : Evidence) (m : ℕ) (seen : List String)
    → contains (strip e.chunk_id) seen ≡ false
    → contains (strip (prefix e m).chunk_id) seen ≡ false
unfolding prefix
same_chunk e m seen h = h

same_id : (e : Evidence) (m k : ℕ) → e.citation_id ≡ k → (prefix e m).citation_id ≡ k
unfolding prefix
same_id e m k h = h

-- A best length that fits.
abbrev IsFit : (ℕ → Bool) → Option ℕ → Type 0
IsFit test none = Unit
IsFit test (some m) = test m ≡ true

bisect-IsFit :
    (test : ℕ → Bool) (fuel low limit : ℕ) (best : Option ℕ)
    → IsFit test best
    → IsFit test (bisect test fuel low limit best)
unfolding bisect
bisect-IsFit test zero low limit best h = h
bisect-IsFit test (suc fuel) low limit best h =
    let middle = (low + limit - 1) / 2 in
    bool_cases (IsFit test) (ltb low limit)
      (λ e.
        bool_cases (IsFit test) (test middle)
          (λ fit. bisect-IsFit test fuel (middle + 1) limit (some middle) fit)
          (λ fails. bisect-IsFit test fuel low middle best h))
      (λ e. h)

module _ (s : ContextSettings) (count : String → ℕ) (limit : ℕ) where
  -- What holds of the evidence that is selected.
  pub record IsSound (es : List Evidence) : Type 0 where
    pub budget : (es ≡ []) ⊎ (count (serialize es) ≤ s.answer_context_max_tokens)
    pub numbered : IsNumbered 1 es
    pub short : length es ≤ limit
    pub texts : All HasText es
    pub apart : IsApart es

  IsSound-append :
      (es : List Evidence) (e : Evidence) (seen : List String)
      → IsSound es
      → All (IsSeen seen) es
      → leb limit (length es) ≡ false
      → contains (strip e.chunk_id) seen ≡ false
      → e.citation_id ≡ length es + 1
      → HasText e
      → fits s count (es ++ e ∷ []) ≡ true
      → IsSound (es ++ e ∷ [])
  unfolding fits
  IsSound-append es e seen h known room fresh id text fit = record {
    budget = inr (ground (arith, fit));
    numbered = IsNumbered-append 1 es e h.numbered (omega (arith, id));
    short = ground (arith, room, length-append es (e ∷ []));
    texts = All-append HasText es (e ∷ []) h.texts (text, tt);
    apart = IsApart-append es e h.apart (unseen_differs seen e es known fresh);
  }

  -- A candidate's text, and that it stays within the budget.
  prefix-HasText :
      (es : List Evidence) (e : Evidence) (m : ℕ)
      → fits_prefix s count es e m ≡ true
      → HasText (prefix e m) × (fits s count (es ++ prefix e m ∷ []) ≡ true)
  unfolding fits_prefix prefix
  prefix-HasText es e m h = both (str_eq (rstrip (take_text m e.text)) "") _ h

  truncated-IsSound :
      (es : List Evidence) (e t : Evidence) (seen : List String) (o : Option ℕ)
      → IsSound es
      → All (IsSeen seen) es
      → leb limit (length es) ≡ false
      → contains (strip e.chunk_id) seen ≡ false
      → e.citation_id ≡ length es + 1
      → IsFit (fits_prefix s count es e) o
      → prefix_of e o ≡ some t
      → IsSound (es ++ t ∷ [])
  truncated-IsSound es e t seen none h known room fresh id fit eq = absurd (nothing_some t eq)
  truncated-IsSound es e t seen (some m) h known room fresh id fit eq =
      let same : prefix e m ≡ t = cc eq in
      let parts = prefix-HasText es e m fit in
      subst (λ x. IsSound (es ++ x ∷ [])) same
        (IsSound-append es (prefix e m) seen h known room (same_chunk e m seen fresh)
          (same_id e m (length es + 1) id) parts.0 parts.1)

  pub select-IsSound :
      (es : List Evidence) (seen : List String) (items : List SearchResult)
      → IsSound es
      → All (IsSeen seen) es
      → IsSound (select s count limit es seen items)
  unfolding select truncate_to_fit to_evidence
  select-IsSound es seen [] h known = h
  select-IsSound es seen (item ∷ items) h known =
      let id = strip item.chunk_id in
      let text = strip item.text in
      let e = to_evidence item (length es + 1) text in
      let n = text_length text in
      if_cases IsSound (leb limit (length es)) (λ full. h)
        (λ room.
          if_cases IsSound (str_eq id "" || str_eq text "" || contains id seen)
            (λ skip. select-IsSound es seen items h known)
            (λ use_.
              let parts = neither (str_eq id "") (str_eq text "") (contains id seen) use_ in
              if_cases IsSound (fits s count (es ++ e ∷ []))
                (λ fit.
                  select-IsSound (es ++ e ∷ []) (id ∷ seen) items
                    (IsSound-append es e seen h known room parts.1 refl parts.0 fit)
                    (All-append (IsSeen (id ∷ seen)) es (e ∷ []) (still-IsSeen seen id es known)
                      (first_seen id seen, tt)))
                (λ over.
                  option_cases IsSound (truncate_to_fit s count es e)
                    (λ none_. select-IsSound es seen items h known)
                    (λ t eq.
                      truncated-IsSound es e t seen
                        (bisect (fits_prefix s count es e) (suc (suc n)) 0 (suc n) none) h known
                        room parts.1 refl
                        (bisect-IsFit (fits_prefix s count es e) (suc (suc n)) 0 (suc n) none tt)
                        eq))))
