-- ===== src/Retrieval/Merging.antt =====
-- app/core/retrieval/search.py: what `_retrieve_query_variants` gives.
use trustguard_rag.Prelude.{ℕ, ◌≤◌, ◌≡◌, true, false, List, [], String, length, take}
use trustguard_rag.Prelude.Sort.{sort, IsSorted}
use trustguard_rag.Store.Table.{Table}
use trustguard_rag.Retrieval.Items.{Item, Floats, values}
use trustguard_rag.Retrieval.Ranking.{Attempt, found, failed}
use trustguard_rag.Retrieval.Variants.{score_le, merge_variants, any_found}

module _ {S : Type 0} (floats : Floats S) where
  -- An attempt on the variants, by what it comes to: it fails only where no variant found items.
  abbrev pub IsMerged :
      ℕ → List (String × Attempt (List (Item S))) → Attempt (List (Item S)) → Type 0
  IsMerged k gathered (found items) =
      (any_found floats gathered ≡ true)
      × (length items ≤ k)
      × IsSorted (score_le floats) items
      × (items ≡ take k (sort (score_le floats) (values (merge_variants floats gathered []))))
  IsMerged k gathered (failed retryable) = any_found floats gathered ≡ false
