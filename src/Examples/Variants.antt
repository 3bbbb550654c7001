-- ===== src/Examples/Variants.antt =====
-- The theorem on the variants of a query, at a retriever that fails for one of them.
use trustguard_rag.Prelude.{
  ℕ, ◌≡◌, true, false, List, [], ◌∷◌, String, arith, str_eq, if◌then◌else◌, leb,
}
use trustguard_rag.Retrieval.Items.{Item}
use trustguard_rag.Retrieval.Ranking.{Attempt, found, failed}
use trustguard_rag.Examples.Search.{items}

abbrev retriever : String → Attempt (List (Item ℕ))
retriever q = if str_eq q "flaw" then failed true else found items

abbrev queries : List String
queries = "CVE-2024-1" ∷ "flaw" ∷ " CVE-2024-1 " ∷ []

pub leb_total : (a b : ℕ) → leb a b ≡ false → leb b a ≡ true
leb_total a b e = ground (arith, e)
