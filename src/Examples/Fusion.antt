-- ===== src/Examples/Fusion.antt =====
-- The theorem on the fusion by reciprocal rank, at two retrievers that share a chunk.
use trustguard_rag.Prelude.{ℕ, refl, List, [], ◌∷◌, String}
use trustguard_rag.Store.Table.{lookup, IsUnique}
use trustguard_rag.Retrieval.Items.{Item}
use trustguard_rag.Retrieval.Fusion.{rrf_merged, rrf_fusion, rrf_key}
use trustguard_rag.Retrieval.Ranks.{ranked_at, IsFresh}
use trustguard_rag.Retrieval.Coverage.{Fused, Ranked, rrf_fusion-IsFused}
use trustguard_rag.Examples.Search.{floats, items, item}
use trustguard_rag.Examples.Variants.{leb_total}

abbrev others : List (Item ℕ)
others = item "c3" "gone" 5 ∷ item "c4" "doc" 4 ∷ []

items-IsFresh : IsFresh floats 0 items
unfolding ranked_at rrf_key
items-IsFresh = (refl, refl, (refl, refl, (refl, refl, tt)))

others-IsFresh : IsFresh floats 0 others
unfolding ranked_at rrf_key
others-IsFresh = (refl, refl, (refl, refl, tt))

rrf_fusion-IsFused_example :
    IsUnique (rrf_merged floats 60 items others)
    × ((c : String)
        → Fused floats 60
            (ranked_at floats c 0 items)
            (ranked_at floats c 0 others)
            (lookup c (rrf_merged floats 60 items others)))
    × Ranked floats (rrf_merged floats 60 items others) (rrf_fusion floats 60 items others)
rrf_fusion-IsFused_example =
    rrf_fusion-IsFused floats leb_total 60 items others items-IsFresh others-IsFresh
