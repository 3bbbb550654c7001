-- ===== src/Retrieval/Promotion.antt =====
-- app/core/retrieval/search.py: what `_promote_exact_entity_matches` does to the order of the items.
use mathlib.Core.List.{Perm}
use trustguard_rag.Prelude.{
  ℕ, ◌≡◌, ◌≤◌, Bool, not, ◌||◌, ◌&&◌, Option, none, some, List, map, String, ◌==◌, filter_by, leb,
  All, if◌then◌else◌,
}
use trustguard_rag.Prelude.Sort.{IsSorted}
use trustguard_rag.Retrieval.Items.{Item, primary, related}
use trustguard_rag.Retrieval.Ranking.{
  ranked, item_of, exact_entity_match_priority, is_in, meets, or_nil,
}

module _ {S : Type 0} (entities : Item S → Option String × List String) where
  -- What a priority says of an item: 2 where the primary entity is wanted, as the index has it or
  -- else as the texts have it, 1 where another entity is, and 0 where none is.
  pub record Ranks (wanted : List String) (item : Item S) (priority : ℕ) : Type 0 where
    pub bounded : priority ≤ 2
    pub primary_wanted : (priority == 2) ≡ (
        is_in item.entity_id wanted
        || (not (meets (or_nil item.entity_ids) wanted) && is_in (entities item).0 wanted))
    pub none_wanted :
        (priority == 0)
        ≡ not (
            is_in item.entity_id wanted
            || meets (or_nil item.entity_ids) wanted
            || is_in (entities item).0 wanted
            || meets (entities item).1 wanted)

  abbrev pub has_priority : ℕ → ℕ × Item S → Bool
  has_priority n row = row.0 == n

  -- The mark of an item that is shown.
  abbrev pub IsMarked : ℕ × Item S → Type 0
  IsMarked (priority, item) =
      item.exact_entity_match
      ≡ (if priority == 2 then some primary else if priority == 1 then some related else none)

  -- The promoted items are those of `rows`, the marked items with their priorities put in order.
  pub record Promoted (items : List (Item S)) (wanted : List String) (out : List (Item S))
      : Type 0 where
    pub rows : List (ℕ × Item S)
    pub shows : out ≡ map item_of rows
    pub rearranged : Perm rows (map (ranked entities wanted) items)
    pub priorities :
        All (λ item. Ranks wanted item (exact_entity_match_priority entities item wanted)) items
    pub marked : All IsMarked rows
    pub descending : IsSorted (λ a b. leb b.0 a.0) rows
    pub stable :
        (n : ℕ)
        → filter_by (has_priority n) rows
          ≡ filter_by (has_priority n) (map (ranked entities wanted) items)
