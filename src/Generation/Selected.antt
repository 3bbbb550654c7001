-- ===== src/Generation/Selected.antt =====
-- app/core/generation/context_builder.py: where the evidence that `build` selects comes from.
use trustguard_rag.Prelude.{
  ℕ, ◌+◌, ◌≡◌, ◌⊎◌, inl, inr, refl, sym, ◌∙◌, false, ◌||◌, Option, none, some, List, [], ◌∷◌, ◌++◌,
  String, arith, leb, ltb, str_eq, contains, length, take_text, if_elim, option_cases,
}
use mathlib.Core.List.{append-nil, append_assoc}
use mathlib.Core.Path.{subst}
use trustguard_rag.Prelude.Text.{strip, rstrip, text_length}
use trustguard_rag.Generation.Context.{
  SearchResult, Evidence, ContextSettings, to_evidence, prefix, prefix_of, fits, truncate_to_fit,
  select, build, chunk_limit, serialize,
}
use trustguard_rag.Generation.Budget.{IsSound, select-IsSound}

-- The text of a piece of evidence: the result's, or the beginning of it, which is marked.
abbrev pub IsTextOf : String → Evidence → Type 0
IsTextOf text e =
    ((e.text ≡ text) × (e.truncated ≡ false))
    ⊎ ((n : ℕ) × (e.text ≡ rstrip (take_text n text)) × (e.truncated ≡ ltb n (text_length text)))

-- The piece of evidence is of the result.
pub record IsOf (item : SearchResult) (e : Evidence) : Type 0 where
  pub chunk_id : e.chunk_id ≡ item.chunk_id
  pub document_id : e.document_id ≡ item.document_id
  pub source_uri : e.source_uri ≡ item.source_uri
  pub original_filename : e.original_filename ≡ item.original_filename
  pub chunk_index : e.chunk_index ≡ item.chunk_index
  pub page_no : e.page_no ≡ item.page_no
  pub text : IsTextOf (strip item.text) e

-- The evidence is of some of the results, in their order, each used once at most.
pub data IsDrawn : List SearchResult → List Evidence → Type 0 where
  nothing : (items : List SearchResult) → IsDrawn items []
  passed :
      (item : SearchResult) (items : List SearchResult) (es : List Evidence)
      → IsDrawn items es
      → IsDrawn (item ∷ items) es
  used :
      (item : SearchResult) (items : List SearchResult) (e : Evidence) (es : List Evidence)
      → IsOf item e
      → IsDrawn items es
      → IsDrawn (item ∷ items) (e ∷ es)

to_evidence-IsOf : (item : SearchResult) (k : ℕ) → IsOf item (to_evidence item k (strip item.text))
unfolding to_evidence
to_evidence-IsOf item k = record {
  chunk_id = refl;
  document_id = refl;
  source_uri = refl;
  original_filename = refl;
  chunk_index = refl;
  page_no = refl;
  text = inl (refl, refl);
}

prefix-IsOf :
    (item : SearchResult) (k n : ℕ) → IsOf item (prefix (to_evidence item k (strip item.text)) n)
unfolding to_evidence prefix
prefix-IsOf item k n = record {
  chunk_id = refl;
  document_id = refl;
  source_uri = refl;
  original_filename = refl;
  chunk_index = refl;
  page_no = refl;
  text = inr (n, refl, refl);
}

prefix_of-IsOf :
    (item : SearchResult) (k : ℕ) (o : Option ℕ) (t : Evidence)
    → prefix_of (to_evidence item k (strip item.text)) o ≡ some t
    → IsOf item t
prefix_of-IsOf item k none t e = cc e
prefix_of-IsOf item k (some n) t e =
    let same : prefix (to_evidence item k (strip item.text)) n ≡ t = cc e in
    subst (IsOf item) same (prefix-IsOf item k n)

-- What the loop adds to the evidence is drawn from the results that it still has.
abbrev Adds : List Evidence → List SearchResult → List Evidence → Type 0
Adds selected items out = (more : List Evidence) × (out ≡ selected ++ more) × IsDrawn items more

module _ (s : ContextSettings) (count : String → ℕ) (limit : ℕ) where
  nothing_added :
      (selected : List Evidence) (items : List SearchResult) → Adds selected items selected
  nothing_added selected items = ([], sym (append-nil selected), nothing items)

  passed_over :
      (selected : List Evidence) (item : SearchResult) (items : List SearchResult)
      (out : List Evidence)
      → Adds selected items out
      → Adds selected (item ∷ items) out
  passed_over selected item items out h = (h.0, h.1, passed item items h.0 h.2)

  select-Adds :
      (selected : List Evidence) (seen : List String) (items : List SearchResult)
      → Adds selected items (select s count limit selected seen items)
  unfolding select truncate_to_fit
  select-Adds selected seen [] = nothing_added selected []
  select-Adds selected seen (item ∷ items) =
      let id = strip item.chunk_id in
      let text = strip item.text in
      let k = length selected + 1 in
      let e = to_evidence item k text in
      let P = Adds selected (item ∷ items) in
      let skipped = passed_over selected item items _ (select-Adds selected seen items) in
      let rest = select-Adds (selected ++ e ∷ []) (id ∷ seen) items in
      if_elim P (leb limit (length selected)) (nothing_added selected (item ∷ items)) (
        if_elim P (str_eq id "" || str_eq text "" || contains id seen) skipped (
          if_elim P (fits s count (selected ++ e ∷ []))
            (
              e ∷ rest.0,
              rest.1 ∙ append_assoc selected (e ∷ []) rest.0,
              used item items e rest.0 (to_evidence-IsOf item k) rest.2,
            )
            (option_cases P (truncate_to_fit s count selected e) (λ _. skipped)
              (λ t eq. (
                t ∷ [],
                refl,
                used item items t [] (prefix_of-IsOf item k _ t eq) (nothing items),
              )))))

-- What `build` selects is of some of the results, in the order of the results and each of one result:
-- it has the ids and the source of that result and its text, or, marked as truncated, the beginning of
-- the text. It is numbered from 1 without a gap, is no more than the limit of chunks, has no empty
-- text and no two pieces of one chunk; its serialization has at most the tokens of the budget, unless
-- nothing is selected; and the bundle's context and count are those of this serialization.
pub build-IsSound :
    (s : ContextSettings) (count : String → ℕ) (max_chunks : Option ℕ) (results : List SearchResult)
    → let bundle = build s count max_chunks results in
      IsDrawn results bundle.evidence
      × IsSound s count (chunk_limit s count max_chunks) bundle.evidence
      × (bundle.context ≡ serialize bundle.evidence)
      × (bundle.token_count ≡ count bundle.context)
unfolding build
build-IsSound s count max_chunks results =
    let limit = chunk_limit s count max_chunks in
    let drawn = select-Adds s count limit [] [] results in
    (
      subst (IsDrawn results) (sym drawn.1) drawn.2,
      select-IsSound s count limit [] [] results
          (record { budget = inl refl; numbered = tt; short = omega arith; texts = tt; apart = tt })
          tt,
      refl,
      refl,
    )
