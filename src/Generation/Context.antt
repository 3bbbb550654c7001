-- ===== src/Generation/Context.antt =====
-- app/core/generation/context_builder.py: `ContextBuilder`.
use Prim.Native.String.{◌++◌ as join}
use trustguard_rag.Prelude.{
  ℕ, zero, suc, ◌+◌, ◌-◌, ◌/◌, Bool, true, false, not, ◌||◌, ◌&&◌, Option, none, some, List, [],
  ◌∷◌, ◌++◌, String, leb, ltb, str_eq, contains, length, take_text, or_default, if◌then◌else◌,
}
use trustguard_rag.Prelude.Text.{show}
use trustguard_rag.Prelude.Text.{
  strip, rstrip, text_length, json_text, json_bool, json_optional_text, json_optional_int,
}

-- A result, with its `source`; a missing text reads as the empty one and a missing index as zero.
pub record SearchResult : Type 0 where
  pub chunk_id : String
  pub text : String
  pub document_id : String
  pub source_uri : String
  pub original_filename : Option String
  pub chunk_index : ℕ
  pub page_no : Option ℕ

pub record Evidence : Type 0 where
  pub citation_id : ℕ
  pub chunk_id : String
  pub document_id : String
  pub source_uri : String
  pub original_filename : Option String
  pub chunk_index : ℕ
  pub page_no : Option ℕ
  pub text : String
  pub truncated : Bool

pub record ContextBundle : Type 0 where
  pub context : String
  pub evidence : List Evidence
  pub token_count : ℕ

pub record ContextSettings : Type 0 where
  pub answer_max_context_chunks : ℕ
  pub answer_context_max_tokens : ℕ

-- `as_prompt_value`, as the JSON object that it is written as.
unfoldable pub prompt_value : Evidence → String
prompt_value e = join "{\"citation_id\":" (
    join (show e.citation_id) (
      join ",\"source\":{\"chunk_id\":" (
        join (json_text e.chunk_id) (
          join ",\"document_id\":" (
            join (json_text e.document_id) (
              join ",\"source_uri\":" (
                join (json_text e.source_uri) (
                  join ",\"original_filename\":" (
                    join (json_optional_text e.original_filename) (
                      join ",\"chunk_index\":" (
                        join (show e.chunk_index) (
                          join ",\"page_no\":" (
                            join (json_optional_int e.page_no) (
                              join "},\"content\":" (
                                join (json_text e.text) (
                                  join ",\"truncated\":"
                                    (join (json_bool e.truncated) "}")))))))))))))))))

unfoldable pub prompt_values : List Evidence → String
prompt_values [] = ""
prompt_values (e ∷ []) = prompt_value e
prompt_values (e ∷ es) = join (prompt_value e) (join "," (prompt_values es))

-- `_serialize`.
unfoldable pub serialize : List Evidence → String
serialize evidence = join "[" (join (prompt_values evidence) "]")

-- `_to_evidence`.
unfoldable pub to_evidence : SearchResult → ℕ → String → Evidence
to_evidence item citation_id text = record {
  citation_id = citation_id;
  chunk_id = item.chunk_id;
  document_id = item.document_id;
  source_uri = item.source_uri;
  original_filename = item.original_filename;
  chunk_index = item.chunk_index;
  page_no = item.page_no;
  text = text;
  truncated = false;
}

-- `replace(evidence, text=evidence.text[:middle].rstrip(), truncated=middle < len(evidence.text))`.
unfoldable pub prefix : Evidence → ℕ → Evidence
prefix e middle = record e {
  text = rstrip (take_text middle e.text);
  truncated = ltb middle (text_length e.text);
}

-- The loop of `_truncate_to_fit`, on fuel: `best` is the middle of the last candidate that fitted, and
-- `limit` is `high + 1`.
unfoldable pub bisect : (ℕ → Bool) → ℕ → ℕ → ℕ → Option ℕ → Option ℕ
bisect test zero low limit best = best
bisect test (suc fuel) low limit best =
    let middle = (low + limit - 1) / 2 in
    elim (ltb low limit) [
      | true ↦ elim (test middle) [
        | true ↦ bisect test fuel (middle + 1) limit (some middle)
        | false ↦ bisect test fuel low middle best
      ]
      | false ↦ best
    ]

abbrev pub prefix_of : Evidence → Option ℕ → Option Evidence
prefix_of e none = none
prefix_of e (some middle) = some (prefix e middle)

module _ (s : ContextSettings) (count : String → ℕ) where
  -- `_fits`, with the counter of tokens.
  unfoldable pub fits : List Evidence → Bool
  fits evidence = leb (count (serialize evidence)) s.answer_context_max_tokens

  -- What a candidate of `_truncate_to_fit` must be: not empty, and within the budget.
  unfoldable pub fits_prefix : List Evidence → Evidence → ℕ → Bool
  fits_prefix selected e middle =
      not (str_eq (rstrip (take_text middle e.text)) "") && fits (selected ++ prefix e middle ∷ [])

  -- `_truncate_to_fit`; the fuel is above the number of lengths.
  unfoldable pub truncate_to_fit : List Evidence → Evidence → Option Evidence
  truncate_to_fit selected e =
      let n = text_length e.text in
      prefix_of e (bisect (fits_prefix selected e) (suc (suc n)) 0 (suc n) none)

  -- The loop of `build`, with what is selected and the chunks that were seen.
  unfoldable pub select : ℕ → List Evidence → List String → List SearchResult → List Evidence
  select limit selected seen [] = selected
  select limit selected seen (item ∷ items) =
      let id = strip item.chunk_id in
      let text = strip item.text in
      let e = to_evidence item (length selected + 1) text in
      let skipped = select limit selected seen items in
      let whole = select limit (selected ++ e ∷ []) (id ∷ seen) items in
      if leb limit (length selected)
      then selected
      else if str_eq id "" || str_eq text "" || contains id seen
      then skipped
      else if fits (selected ++ e ∷ [])
      then whole
      else elim (truncate_to_fit selected e) [ none ↦ skipped | some t ↦ selected ++ t ∷ [] ]

  -- `max_chunks or answer_max_context_chunks`.
  abbrev pub chunk_limit : Option ℕ → ℕ
  chunk_limit none = s.answer_max_context_chunks
  chunk_limit (some n) = or_default n s.answer_max_context_chunks

  -- `build`.
  unfoldable pub build : Option ℕ → List SearchResult → ContextBundle
  build max_chunks results =
      let selected = select (chunk_limit max_chunks) [] [] results in
      record {
        context = serialize selected;
        evidence = selected;
        token_count = count (serialize selected);
      }
