-- ===== src/Generation/Answer.antt =====
-- app/core/generation/answer_service.py: AnswerService.answer behind the search, with the replies of
-- the model as arguments.
use Prim.Native.Char.{Char}
use trustguard_rag.Prelude.{
  is_nil, ℕ, ◌≡◌, refl, sym, true, false, not, ◌&&◌, Option, List, [], String, arith, str_eq,
  if◌then◌else◌, if_cases, length, inl, inr,
}
use mathlib.Core.Path.{subst}
use trustguard_rag.Generation.Context.{Evidence, ContextBundle}
use trustguard_rag.Generation.Citations.{
  AnswerStatus, LlmResponseError, insufficient_evidence, is_answered, ParsedAnswer, Checked, ok,
  err, Loaded, parse_answer, render_declared_citations, validate_citations, outside, find_all,
  distinct,
}
use trustguard_rag.Generation.Sets.{Cites, ok_eq}
use trustguard_rag.Generation.Cited.{Declares, validate_citations-Cites}

-- What the service answers, without what it copies from the search and its timings.
pub record AnswerResponse : Type 0 where
  pub status : AnswerStatus
  pub answer : String
  pub citations : List Evidence
  pub context_chunk_count : ℕ
  pub context_token_count : ℕ

not_ok {ℓ} : {A : Type ℓ} {x : LlmResponseError} {a : A} → err x ≡ ok a → ⊥
not_ok e = cc

some_cited :
    (p : ParsedAnswer) (ids : List ℕ) (es : List Evidence)
    → Declares p ids es
    → is_answered p.status ≡ true
    → is_nil es ≡ false
some_cited p ids es (inl n) a = ground (arith, n.1)
some_cited p ids es (inr s) a = s.0

-- The two ways of a match on a checked value.
checked_cases {ℓ κ μ} :
    {A : Type ℓ} {B : Type κ} (P : B → Type μ) (r : Checked A) {f : A → B}
    {g : LlmResponseError → B}
    → ((a : A) → r ≡ ok a → P (f a))
    → ((x : LlmResponseError) → r ≡ err x → P (g x))
    → P (elim r [ ok a ↦ f a | err x ↦ g x ])
checked_cases P (ok a) hf hg = hf a refl
checked_cases P (err x) hf hg = hg x refl

module _ (loads : String → Option Loaded) (others : Char → Option ℕ) where
  -- `parse_answer`, `render_declared_citations` and `validate_citations`, one after another.
  unfoldable pub check_reply : String → List Evidence → Checked (ParsedAnswer × List Evidence)
  check_reply content evidence = elim (parse_answer loads content) [
    | err x ↦ err x
    | ok p ↦ elim (render_declared_citations others p evidence) [
      | err x ↦ err x
      | ok q ↦ elim (validate_citations others q evidence) [ err x ↦ err x | ok es ↦ ok (q, es) ]
    ]
  ]

  -- The response to a checked reply.
  unfoldable pub respond : String → ContextBundle → ParsedAnswer × List Evidence → AnswerResponse
  respond refusal bundle (p, es) = record {
    status = p.status;
    answer = if not (is_answered p.status) && str_eq p.answer "" then refusal else p.answer;
    citations = es;
    context_chunk_count = length bundle.evidence;
    context_token_count = bundle.token_count;
  }

  -- The answer where nothing was found.
  unfoldable pub refuse : String → ContextBundle → AnswerResponse
  refuse refusal bundle = record {
    status = insufficient_evidence;
    answer = refusal;
    citations = [];
    context_chunk_count = 0;
    context_token_count = bundle.token_count;
  }

  -- `answer`: a reply that does not pass the checks is sent back once, and `repaired` is what the
  -- model makes of it.
  unfoldable pub answer : String → ContextBundle → String → String → Checked AnswerResponse
  unfolding check_reply respond refuse
  answer refusal bundle first repaired =
      if is_nil bundle.evidence
      then ok (refuse refusal bundle)
      else elim (check_reply first bundle.evidence) [
        | ok r ↦ ok (respond refusal bundle r)
        | err x ↦ elim (check_reply repaired bundle.evidence) [
          | ok r ↦ ok (respond refusal bundle r)
          | err y ↦ err y
        ]
      ]

  -- A reply that passes was validated.
  abbrev IsValidated : List Evidence → ParsedAnswer × List Evidence → Type 0
  IsValidated evidence (p, es) = validate_citations others p evidence ≡ ok es

  check_reply-IsValidated :
      (content : String) (evidence : List Evidence) (r : ParsedAnswer × List Evidence)
      → check_reply content evidence ≡ ok r
      → IsValidated evidence r
  unfolding check_reply
  check_reply-IsValidated content evidence r =
      let P = λ (c : Checked (ParsedAnswer × List Evidence)). c ≡ ok r → IsValidated evidence r in
      checked_cases P (parse_answer loads content)
        (λ p _.
          checked_cases P (render_declared_citations others p evidence)
            (λ q _.
              checked_cases P (validate_citations others q evidence)
                (λ es e h. subst (IsValidated evidence) (ok_eq h) e) (λ x _ h. absurd (not_ok h)))
            (λ x _ h. absurd (not_ok h)))
        (λ x _ h. absurd (not_ok h))

  -- What the service promises of an answered question.
  abbrev pub IsCited : ContextBundle → AnswerResponse → Type 0
  IsCited bundle response =
      (is_nil response.citations ≡ false)
      × Cites (distinct [] (find_all others outside response.answer)) bundle.evidence
          response.citations

  respond-IsCited :
      (refusal : String) (bundle : ContextBundle) (r : ParsedAnswer × List Evidence)
      → IsValidated bundle.evidence r
      → is_answered (respond refusal bundle r).status ≡ true
      → IsCited bundle (respond refusal bundle r)
  unfolding respond
  respond-IsCited refusal bundle (p, es) v a =
      let c = validate_citations-Cites others bundle.evidence p es v in
      let text_ : (respond refusal bundle (p, es)).answer ≡ p.answer = ground arith in
      (
        some_cited p (distinct [] (find_all others outside p.answer)) es c.1 a,
        subst (λ t. Cites (distinct [] (find_all others outside t)) bundle.evidence es) (sym text_)
            c.0,
      )

  -- An answered question is cited. Whatever the model replies, if the service returns a response and
  -- its status is "answered", then it has at least one citation, its citations are those of the
  -- numbers in the text that is shown, each once and in the order of the text, and each of them is a
  -- piece of the evidence that the context was built of.
  pub answer-IsCited :
      (refusal : String) (bundle : ContextBundle) (first repaired : String)
      (response : AnswerResponse)
      → answer refusal bundle first repaired ≡ ok response
      → is_answered response.status ≡ true
      → IsCited bundle response
  unfolding answer
  answer-IsCited refusal bundle first repaired response =
      let P = λ (c : Checked AnswerResponse).
        c ≡ ok response → is_answered response.status ≡ true → IsCited bundle response in
      let Q = λ (t : AnswerResponse). is_answered t.status ≡ true → IsCited bundle t in
      if_cases P (is_nil bundle.evidence)
        (λ _ h. subst Q (ok_eq h) (unfold refuse in λ a. absurd (ground arith)))
        λ _.
          checked_cases P (check_reply first bundle.evidence)
            (λ r e h. subst Q (ok_eq h) (
              respond-IsCited refusal bundle r (check_reply-IsValidated first bundle.evidence r e)))
            λ x _.
              checked_cases P (check_reply repaired bundle.evidence)
                (λ r e h. subst Q (ok_eq h) (
                  respond-IsCited refusal bundle r
                    (check_reply-IsValidated repaired bundle.evidence r e)))
                (λ y _ h. absurd (not_ok h))
