-- ===== src/Generation/Citations.antt =====
-- app/core/generation/citation_validator.py, and AnswerStatus of app/domain/answer.py.
use Prim.Native.Char.{Char, code}
use Prim.Native.String.{◌++◌ as join}
use trustguard_rag.Prelude.{
  is_nil, ℕ, ◌+◌, ◌-◌, ◌*◌, Bool, true, false, not, ◌&&◌, Option, none, some, List, [], ◌∷◌, String,
  leb, ltb, ◌==◌, if◌then◌else◌, or_else, str_eq, is_some,
}
use trustguard_rag.Prelude.Text.{show, strip, rstrip, lstrip}
use trustguard_rag.Generation.Context.{Evidence}

-- `AnswerStatus`.
pub data AnswerStatus : Type 0 where
  answered insufficient_evidence : AnswerStatus

abbrev pub is_answered : AnswerStatus → Bool
is_answered answered = true
is_answered insufficient_evidence = false

pub record ParsedAnswer : Type 0 where
  pub status : AnswerStatus
  pub answer : String
  pub citation_ids : List ℕ

-- The reasons of an `LLMResponseError`.
pub data LlmResponseError : Type 0 where
  invalid_json invalid_answer empty_answer invalid_citation_ids : LlmResponseError
  no_citation unknown_evidence citation_mismatch : LlmResponseError

pub data Checked {ℓ} (A : Type ℓ) : Type ℓ where
  ok : A → Checked A
  err : LlmResponseError → Checked A

-- What `json.loads` makes of a text, as far as `parse_answer` looks: the status is `none` for a value
-- that `AnswerStatus` refuses, the answer for one that is no text, and the list of ids for one that
-- is not a list of whole numbers. No evidence has a negative id, and lists with one are left out.
pub record Loaded : Type 0 where
  pub status : Option AnswerStatus
  pub answer : Option String
  pub citation_ids : Option (List ℕ)

-- `text.startswith(prefix)`: what stands behind the prefix.
unfoldable pub behind : String → String → Option String
behind String.[] s = some s
behind (String.◌∷◌ p ps) String.[] = none
behind (String.◌∷◌ p ps) (String.◌∷◌ c s) =
    let rest = behind ps s in if code p == code c then rest else none

-- A text in front of a fence that ends it.
unfoldable pub before_fence : String → Option String
before_fence String.[] = none
before_fence (String.◌∷◌ c s) =
    let rest = before_fence s in
    if str_eq (String.◌∷◌ c s) "```"
    then some ""
    else elim rest [ none ↦ none | some r ↦ some (String.◌∷◌ c r) ]

-- `c.lower()` of a letter of the alphabet.
abbrev lower : ℕ → ℕ
lower n = if leb 65 n && leb n 90 then n + 32 else n

-- `(?:json)?` without regard to case.
unfoldable pub behind_json : String → String
behind_json (String.◌∷◌ a (String.◌∷◌ b (String.◌∷◌ c (String.◌∷◌ d s)))) =
    if (lower (code a) == 106)
      && (lower (code b) == 115)
      && (lower (code c) == 111)
      && (lower (code d) == 110)
    then s
    else String.◌∷◌ a (String.◌∷◌ b (String.◌∷◌ c (String.◌∷◌ d s)))
behind_json s = s

-- The removal of a Markdown fence.
unfoldable pub unfenced : String → String
unfolding behind before_fence behind_json
unfenced content = elim (behind "```" (strip content)) [
  | none ↦ strip content
  | some rest ↦
      (let body = lstrip (behind_json rest) in
        elim (before_fence body) [ none ↦ body | some inner ↦ rstrip inner ])
]

abbrev pub contains : ℕ → List ℕ → Bool
contains n [] = false
contains n (m ∷ ms) = if n == m then true else contains n ms

-- `len(ids) == len(set(ids))`.
abbrev pub all_distinct : List ℕ → Bool
all_distinct [] = true
all_distinct (n ∷ ns) = not (contains n ns) && all_distinct ns

-- The checks of `parse_answer` on the loaded value.
unfoldable pub parsed_of : Loaded → Checked ParsedAnswer
parsed_of v = elim v.status [
  | none ↦ err invalid_json
  | some status ↦ elim v.answer [
    | none ↦ err invalid_answer
    | some answer ↦
        if is_answered status && str_eq (strip answer) ""
        then err empty_answer
        else elim v.citation_ids [
          | none ↦ err invalid_citation_ids
          | some ids ↦
              if all_distinct ids
              then ok (record { status = status; answer = strip answer; citation_ids = ids })
              else err invalid_citation_ids
        ]
  ]
]

-- `parse_answer`. `loads` is `json.loads` with the access to the three keys, `none` where either
-- raises.
unfoldable pub parse_answer : (String → Option Loaded) → String → Checked ParsedAnswer
unfolding parsed_of unfenced
parse_answer loads content = elim (loads (unfenced content)) [
  | none ↦ err invalid_json
  | some v ↦ parsed_of v
]

-- `\d` and `int`: the value of a decimal digit. `others` are the digits of other scripts.
unfoldable pub digit_value : (Char → Option ℕ) → Char → Option ℕ
digit_value others c =
    let n = code c in
    if ltb n 128 then (if leb 48 n && leb n 57 then some (n - 48) else none) else others c

-- How far `CITATION_PATTERN`, `\[(\d+)]`, has matched at a position of the text.
pub data Matched : Type 0 where
  outside opened : Matched
  reading : ℕ → Matched

-- The next state, after a character that is not the end of a match.
unfoldable pub advance : (Char → Option ℕ) → Matched → Char → Matched
unfolding digit_value
advance others outside c = if code c == 91 then opened else outside
advance others opened c =
    if code c == 91
    then opened
    else elim (digit_value others c) [ none ↦ outside | some d ↦ reading d ]
advance others (reading n) c =
    if code c == 91
    then opened
    else elim (digit_value others c) [ none ↦ outside | some d ↦ reading (n * 10 + d) ]

-- The number that ends here.
unfoldable pub ended : Matched → Char → Option ℕ
ended (reading n) c = if code c == 93 then some n else none
ended m c = none

abbrev pub with_number : Option ℕ → List ℕ → List ℕ
with_number none ns = ns
with_number (some n) ns = n ∷ ns

-- `CITATION_PATTERN.findall` with `int`: a digit is no bracket, so a match that fails at a character
-- may begin again there and nowhere before.
unfoldable pub find_all : (Char → Option ℕ) → Matched → String → List ℕ
unfolding advance ended
find_all others m String.[] = []
find_all others m (String.◌∷◌ c s) =
    with_number (ended m c) (find_all others (advance others m c) s)

-- `list(dict.fromkeys(ids))`, after the ids that were seen.
unfoldable pub distinct : List ℕ → List ℕ → List ℕ
distinct seen [] = []
distinct seen (n ∷ ns) =
    let rest = distinct (if contains n seen then seen else n ∷ seen) ns in
    if contains n seen then rest else n ∷ rest

-- `by_id.get(id)`: of the pieces of evidence with one id the last is found.
unfoldable pub by_id : ℕ → List Evidence → Option Evidence
by_id n [] = none
by_id n (e ∷ es) = or_else (by_id n es) (if e.citation_id == n then some e else none)

abbrev pub all_known : List Evidence → List ℕ → Bool
all_known evidence [] = true
all_known evidence (n ∷ ns) = is_some (by_id n evidence) && all_known evidence ns

-- `set(ns) <= set(ms)`.
abbrev pub is_subset : List ℕ → List ℕ → Bool
is_subset [] ms = true
is_subset (n ∷ ns) ms = contains n ms && is_subset ns ms

-- `"".join(f"[{id}]" for id in ids)`.
unfoldable pub marks : List ℕ → String
marks [] = ""
marks (n ∷ ns) = join "[" (join (show n) (join "]" (marks ns)))

-- The ids that are declared and not in the text.
unfoldable pub missing : List ℕ → List ℕ → List ℕ
missing [] referenced = []
missing (n ∷ ns) referenced =
    let rest = missing ns referenced in if contains n referenced then rest else n ∷ rest

-- The text with the marks of missing ids.
unfoldable pub with_marks : ParsedAnswer → List ℕ → ParsedAnswer
unfolding marks
with_marks p [] = p
with_marks p (n ∷ ns) = record p { answer = join (rstrip p.answer) (join " " (marks (n ∷ ns))) }

-- `render_declared_citations`.
unfoldable pub render_declared_citations :
    (Char → Option ℕ) → ParsedAnswer → List Evidence → Checked ParsedAnswer
unfolding find_all with_marks missing
render_declared_citations others p evidence =
    let referenced = find_all others outside p.answer in
    if not (is_answered p.status)
    then ok p
    else if is_nil p.citation_ids
    then err no_citation
    else if not (all_known evidence p.citation_ids)
    then err unknown_evidence
    else if not (is_subset referenced p.citation_ids)
    then ok p
    else ok (with_marks p (missing p.citation_ids referenced))

-- `[by_id[id] for id in ids]`; a `KeyError` cannot occur behind the check.
unfoldable pub cited : List ℕ → List Evidence → Checked (List Evidence)
unfolding by_id
cited [] evidence = ok []
cited (n ∷ ns) evidence =
    let rest = cited ns evidence in
    elim (by_id n evidence) [
      | none ↦ err unknown_evidence
      | some e ↦ elim rest [ ok es ↦ ok (e ∷ es) | err x ↦ err x ]
    ]

-- `validate_citations`.
unfoldable pub validate_citations :
    (Char → Option ℕ) → ParsedAnswer → List Evidence → Checked (List Evidence)
unfolding find_all distinct cited
validate_citations others p evidence =
    let ids = distinct [] (find_all others outside p.answer) in
    if not (is_answered p.status) && is_nil ids
    then ok []
    else if is_nil ids
    then err no_citation
    else if not (is_subset ids p.citation_ids && is_subset p.citation_ids ids)
    then err citation_mismatch
    else cited ids evidence
