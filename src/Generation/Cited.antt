-- ===== src/Generation/Cited.antt =====
-- What the checks of app/core/generation/citation_validator.py let through.
use Prim.Native.Char.{Char}
use mathlib.Core.List.{append-nil}
use mathlib.Core.Path.{subst}
use trustguard_rag.Prelude.{
  is_nil, ℕ, ◌≡◌, refl, ◌∙◌, sym, ap, true, false, not, ◌&&◌, Option, List, [], ◌∷◌, ◌++◌, arith,
  map, inl, inr, ◌⊎◌, if_cases,
}
use trustguard_rag.Generation.Context.{Evidence}
use trustguard_rag.Generation.Citations.{
  ParsedAnswer, is_answered, ok, outside, find_all, contains, distinct, all_known, is_subset,
  missing, with_marks, render_declared_citations, validate_citations,
}
use trustguard_rag.Generation.Marks.{NoSpace, find_all_behind}
use trustguard_rag.Generation.Sets.{
  contains-append, contains-distinct, contains-missing, is_subset_elim, is_subset_intro,
  all_known_elim, all_known_intro, Cites, ok_eq, cited-Cites, cited_known, nil_of,
}

-- Either nothing is cited and the question is not answered, or something is and the declared ids
-- are the same set as those of the text.
abbrev pub Declares : ParsedAnswer → List ℕ → List Evidence → Type 0
Declares p ids es =
    ((is_nil es ≡ true) × (is_answered p.status ≡ false))
    ⊎ ((is_nil es ≡ false)
        × (is_subset ids p.citation_ids ≡ true)
        × (is_subset p.citation_ids ids ≡ true))

length_agrees :
    (ids : List ℕ) (evidence es : List Evidence) → Cites ids evidence es → is_nil ids ≡ is_nil es
length_agrees ids evidence [] c = ap is_nil (sym c.ids_of)
length_agrees ids evidence (e ∷ es) c = ap is_nil (sym c.ids_of)

module _ (others : Char → Option ℕ) (evidence : List Evidence) where
  -- The ids in the text of an answer, each once, in its order.
  abbrev pub ids_in : ParsedAnswer → List ℕ
  ids_in p = distinct [] (find_all others outside p.answer)

  -- An answer that passes the checks cites what it names and nothing else: the pieces of evidence that
  -- are returned are those of the numbers in the text, each once and in the order of the text, and
  -- all of them are evidence that was given to the model. Either there are none and the question is
  -- not answered, or there are some and the declared ids are the same set as those in the text.
  pub validate_citations-Cites :
      (p : ParsedAnswer) (es : List Evidence)
      → validate_citations others p evidence ≡ ok es
      → Cites (ids_in p) evidence es × Declares p (ids_in p) es
  unfolding validate_citations
  validate_citations-Cites p es =
      if_cases (λ r. r ≡ ok es → Cites (ids_in p) evidence es × Declares p (ids_in p) es)
        (not (is_answered p.status) && is_nil (ids_in p))
        (λ e h.
          let none_ : es ≡ [] = sym (ok_eq h) in
          let empty : ids_in p ≡ [] = nil_of (ids_in p) (ground arith) in
          subst (λ xs. Cites (ids_in p) evidence xs × Declares p (ids_in p) xs) (sym none_)
            (record { ids_of = sym empty; given = tt }, inl (refl, ground arith)))
        λ _.
          if_cases (λ r. r ≡ ok es → Cites (ids_in p) evidence es × Declares p (ids_in p) es)
            (is_nil (ids_in p)) (λ e h. absurd (ground arith))
            λ some_.
              if_cases (λ r. r ≡ ok es → Cites (ids_in p) evidence es × Declares p (ids_in p) es)
                (not (is_subset (ids_in p) p.citation_ids && is_subset p.citation_ids (ids_in p)))
                (λ e h. absurd (ground arith))
                λ same h.
                  let c = cited-Cites (ids_in p) evidence es h in
                  (
                    c,
                    inr (
                      sym (length_agrees (ids_in p) evidence es c) ∙ some_,
                      ground arith,
                      ground arith,
                    ),
                  )

  -- The answer is completed, and what is made of it passes the checks; the pieces of evidence that are
  -- returned are those of exactly the declared ids.
  pub record IsAccepted (p : ParsedAnswer) : Type 0 where
    pub rendered : ParsedAnswer
    pub es : List Evidence
    pub renders : render_declared_citations others p evidence ≡ ok rendered
    pub passes : validate_citations others rendered evidence ≡ ok es
    pub shown : (k : ℕ) → contains k (map (λ e. e.citation_id) es) ≡ contains k p.citation_ids

  module _ (h : NoSpace others) (p : ParsedAnswer) where
    find_all-with_marks :
        (ms : List ℕ)
        → find_all others outside (with_marks p ms).answer ≡ find_all others outside p.answer ++ ms
    unfolding with_marks
    find_all-with_marks [] = sym (append-nil (find_all others outside p.answer))
    find_all-with_marks (m ∷ ms) = find_all_behind others h p.answer (m ∷ ms)

    with_marks-kept :
        (ms : List ℕ)
        → ((with_marks p ms).status ≡ p.status) × ((with_marks p ms).citation_ids ≡ p.citation_ids)
    unfolding with_marks
    with_marks-kept [] = (refl, refl)
    with_marks-kept (m ∷ ms) = (refl, refl)

    -- The answer with the marks of the ids that its text lacks.
    complete : ParsedAnswer
    complete = with_marks p (missing p.citation_ids (find_all others outside p.answer))

    contains-ids_in :
        is_subset (find_all others outside p.answer) p.citation_ids ≡ true
        → (k : ℕ) → contains k (ids_in complete) ≡ contains k p.citation_ids
    unfolding complete
    contains-ids_in s k =
        let r = find_all others outside p.answer in
        let m = missing p.citation_ids r in
        contains-distinct k [] (find_all others outside complete.answer)
        ∙ ap (λ xs. contains k xs && not (contains k [])) (find_all-with_marks m)
        ∙ ground (
          arith,
          contains-append k r m,
          contains-missing k p.citation_ids r,
          is_subset_elim k r p.citation_ids s,
        )

    some_id :
        (ids us : List ℕ)
        → is_nil ids ≡ false
        → ((k : ℕ) → contains k us ≡ contains k ids)
        → is_nil us ≡ false
    some_id [] us n e = cc
    some_id (i ∷ ids) [] n e = ground (arith, e i)
    some_id (i ∷ ids) (u ∷ us) n e = refl

    validates :
        is_nil p.citation_ids ≡ false
        → all_known evidence p.citation_ids ≡ true
        → ((k : ℕ) → contains k (ids_in complete) ≡ contains k p.citation_ids)
        → (es : List Evidence) × (validate_citations others complete evidence ≡ ok es)
    unfolding validate_citations complete
    validates n a same =
        let u = ids_in complete in
        let found = cited_known u evidence (
          all_known_intro u evidence
            (λ k c. all_known_elim k p.citation_ids evidence a (sym (same k) ∙ c))) in
        let left_ = is_subset_intro u p.citation_ids (λ k c. sym (same k) ∙ c) in
        let right_ = is_subset_intro p.citation_ids u (λ k c. same k ∙ c) in
        let kept = with_marks-kept (missing p.citation_ids (find_all others outside p.answer)) in
        (found.0, ground (arith, some_id p.citation_ids u n same, left_, right_, found.1, kept.1))

    -- Missing marks are repaired. If an answered question declares at least one id, all declared ids
    -- are those of given evidence and the text names no other, then `render_declared_citations`
    -- gives an answer that `validate_citations` accepts, and the evidence that it returns is that of
    -- exactly the declared ids, also of those that the text of the model did not mark. No digit of
    -- Unicode is taken to be white space.
    pub render_declared_citations-IsAccepted :
        is_answered p.status ≡ true
        → is_nil p.citation_ids ≡ false
        → all_known evidence p.citation_ids ≡ true
        → is_subset (find_all others outside p.answer) p.citation_ids ≡ true
        → IsAccepted p
    unfolding render_declared_citations complete
    render_declared_citations-IsAccepted a n known s =
        let same = contains-ids_in s in
        let v = validates n known same in
        let c = validate_citations-Cites complete v.0 v.1 in
        record {
          rendered = complete;
          es = v.0;
          renders = ground (arith, a, n, known, s);
          passes = v.1;
          shown = λ k. ap (contains k) c.0.ids_of ∙ same k;
        }
