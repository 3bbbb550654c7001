-- ===== src/Examples/Citations.antt =====
-- The theorems on citations at an answer that cites one piece of evidence of two.
use Prim.Native.Char.{Char}
use trustguard_rag.Prelude.{
  ℕ, ◌≡◌, refl, true, false, Option, none, some, List, [], ◌∷◌, String, str_eq, if◌then◌else◌,
}
use trustguard_rag.Prelude.Text
use trustguard_rag.Generation.Context.{Evidence, ContextBundle}
use trustguard_rag.Generation.Citations
use trustguard_rag.Generation.Citations.{
  ParsedAnswer, Loaded, answered, ok, outside, find_all, distinct, all_known, is_subset,
}
use trustguard_rag.Generation.Marks.{NoSpace}
use trustguard_rag.Generation.Sets.{Cites}
use trustguard_rag.Generation.Cited.{
  Declares, ids_in, IsAccepted, validate_citations-Cites, render_declared_citations-IsAccepted,
}
use trustguard_rag.Generation.Answer
use trustguard_rag.Generation.Answer.{AnswerResponse, IsCited, answer-IsCited}

-- Only the digits of ASCII.
abbrev no_others : Char → Option ℕ
no_others c = none

no_space : NoSpace no_others
no_space c e = refl

abbrev evidence_of : ℕ → Evidence
evidence_of n = record {
  citation_id = n;
  chunk_id = "chunk";
  document_id = "doc";
  source_uri = "a.pdf";
  original_filename = none;
  chunk_index = 0;
  page_no = none;
  text = "text";
  truncated = false;
}

abbrev evidence : List Evidence
evidence = evidence_of 1 ∷ evidence_of 12 ∷ []

abbrev bundle : ContextBundle
bundle = record { context = "context"; evidence = evidence; token_count = 9 }

-- The text marks one of the two declared ids.
abbrev parsed : ParsedAnswer
parsed = record { status = answered; answer = "A [1]."; citation_ids = 1 ∷ 12 ∷ [] }

abbrev marked : ParsedAnswer
marked = record parsed { answer = "B [12], A [1]." }

passes :
    Citations.validate_citations no_others marked evidence
    ≡ ok (evidence_of 12 ∷ evidence_of 1 ∷ [])
unfolding Citations.validate_citations
passes = refl

validate_citations-Cites_example :
    Cites (ids_in no_others evidence marked) evidence (evidence_of 12 ∷ evidence_of 1 ∷ [])
    × Declares marked (ids_in no_others evidence marked) (evidence_of 12 ∷ evidence_of 1 ∷ [])
validate_citations-Cites_example =
    validate_citations-Cites no_others evidence marked (evidence_of 12 ∷ evidence_of 1 ∷ []) passes

known : all_known evidence parsed.citation_ids ≡ true
unfolding Citations.by_id
known = refl

subset : is_subset (find_all no_others outside parsed.answer) parsed.citation_ids ≡ true
unfolding find_all
subset = refl

render_declared_citations-IsAccepted_example : IsAccepted no_others evidence parsed
render_declared_citations-IsAccepted_example =
    render_declared_citations-IsAccepted no_others evidence no_space parsed refl refl known subset

-- The first reply is no JSON, the second is the answer.
abbrev loads : String → Option Loaded
loads text =
    if str_eq text ""
    then none
    else some (record {
      status = some answered;
      answer = some "A [1].";
      citation_ids = some (1 ∷ 12 ∷ []);
    })

abbrev response : AnswerResponse
response = record {
  status = answered;
  answer = "A [1]. [12]";
  citations = evidence;
  context_chunk_count = 2;
  context_token_count = 9;
}

answers : Answer.answer loads no_others "refused" bundle "" "{}" ≡ ok response
unfolding Answer.answer Citations.parse_answer Text.strip Citations.render_declared_citations
    Citations.by_id Citations.validate_citations Text.show
answers = refl

answer-IsCited_example : IsCited loads no_others bundle response
answer-IsCited_example =
    answer-IsCited loads no_others "refused" bundle "" "{}" response answers refl
