-- ===== src/Examples/Answer.antt =====
-- The theorems on contexts at example results, with characters counted for tokens.
use trustguard_rag.Prelude.{
  ℕ, ◌≤◌, ◌≡◌, refl, Bool, true, none, some, List, [], ◌∷◌, String, arith, leb, ltb, ◌==◌, ◌&&◌,
}
use trustguard_rag.Prelude.Text.{text_length}
use trustguard_rag.Generation.Context.{SearchResult, ContextSettings, serialize, bisect, build}
use trustguard_rag.Generation.Budget.{IsSound}
use trustguard_rag.Generation.Selected.{IsDrawn, build-IsSound}
use trustguard_rag.Generation.Truncation.{IsLongest, bisect-IsLongest}

abbrev settings : ContextSettings
settings = record { answer_max_context_chunks = 5; answer_context_max_tokens = 400 }

abbrev result : String → String → SearchResult
result id text = record {
  chunk_id = id;
  text = text;
  document_id = "doc";
  source_uri = "a.pdf";
  original_filename = none;
  chunk_index = 0;
  page_no = some 1;
}

abbrev results : List SearchResult
results = result "c1" "first" ∷ result " c1" "again" ∷ result "c2" "second" ∷ []

build-IsSound_example :
    IsDrawn results (build settings text_length (some 2) results).evidence
    × IsSound settings text_length 2 (build settings text_length (some 2) results).evidence
    × ((build settings text_length (some 2) results).context
        ≡ serialize (build settings text_length (some 2) results).evidence)
    × ((build settings text_length (some 2) results).token_count
        ≡ text_length (build settings text_length (some 2) results).context)
build-IsSound_example = build-IsSound settings text_length (some 2) results

-- The lengths from 1 to 3 fit.
abbrev up_to_three : ℕ → Bool
up_to_three n = ltb 0 n && leb n 3

falls : (m n : ℕ) → 1 ≤ m → m ≤ n → up_to_three n ≡ true → up_to_three m ≡ true
falls m n one h e = ground (arith, one, h, e)

bisect-IsLongest_example : IsLongest up_to_three 10 5 (bisect up_to_three 12 0 11 none)
bisect-IsLongest_example = bisect-IsLongest up_to_three 10 falls 5 (omega arith) (omega arith)

-- The search passes over the length 1 where no other fits.
abbrev only_one : ℕ → Bool
only_one n = n == 1

one_is_passed_over : bisect only_one 7 0 6 none ≡ none
unfolding bisect
one_is_passed_over = refl

three_is_found : bisect up_to_three 12 0 11 none ≡ some 3
unfolding bisect
three_is_found = refl
