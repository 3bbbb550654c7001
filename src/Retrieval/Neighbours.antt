-- ===== src/Retrieval/Neighbours.antt =====
-- app/core/retrieval/search.py: the neighbours that a search adds are of the documents that it has.
use trustguard_rag.Prelude.{
  ℕ, ◌≡◌, true, Option, none, some, List, [], ◌∷◌, String, arith, eq_iff, str_eq, ltb, contains,
  if_elim, if_cases, option_cases, All, All-append,
}
use mathlib.Core.Path.{subst}
use trustguard_rag.Prelude.Sort.{All-sort}
use trustguard_rag.Retrieval.Items.{Item, Floats, text_or, is_given}
use trustguard_rag.Retrieval.Variants.{score_le}
use trustguard_rag.Retrieval.Expansion.{
  Neighbour, Anchor, anchor_of, anchors, nearest, neighbour_item, added, expand_adjacent_chunks,
  distance,
}
use trustguard_rag.Retrieval.Provenance.{Names}

given_name :
    (P : Option String → Type 0) (o : Option String)
    → is_given o ≡ true
    → P o
    → P (some (text_or o ""))
given_name P none e h = ground (arith, e)
given_name P (some s) e h =
    let same : s ≡ text_or (some s) "" = ground (arith, e, eq_iff s "") in
    subst (λ x. P (some x)) same h

module _ {S : Type 0} (P : Option String → Type 0) where
  abbrev AnchorNames : Anchor S → Type 0
  AnchorNames a = P (some a.document_id)

  anchor_of-AnchorNames :
      (item : Item S) (i : Option ℕ) → Names P item → All AnchorNames (anchor_of item i)
  anchor_of-AnchorNames item none h = tt
  anchor_of-AnchorNames item (some i) h =
      if_cases (All AnchorNames) (is_given item.document_id)
        (λ e. (given_name P item.document_id e h, tt)) (λ e. tt)

  anchors-AnchorNames :
      (items : List (Item S)) → All (Names P) items → All AnchorNames (anchors items)
  unfolding anchors
  anchors-AnchorNames [] h = tt
  anchors-AnchorNames (item ∷ items) h =
      All-append AnchorNames (anchor_of item item.chunk_index) (anchors items)
        (anchor_of-AnchorNames item item.chunk_index h.0) (anchors-AnchorNames items h.1)

  -- The nearest anchor, where there is one, is of the chunk's document, which the items name.
  abbrev ForChunk : Neighbour → Option (Anchor S) → Type 0
  ForChunk chunk none = Unit
  ForChunk chunk (some a) = P (some chunk.document_id)

  named_chunk :
      (chunk : Neighbour) (a : Anchor S)
      → AnchorNames a
      → str_eq a.document_id chunk.document_id ≡ true
      → P (some chunk.document_id)
  named_chunk chunk a h e =
      let same : a.document_id ≡ chunk.document_id =
        ground (arith, e, eq_iff a.document_id chunk.document_id) in
      subst (λ x. P (some x)) same h

  nearest-ForChunk :
      (chunk : Neighbour) (best : Option (Anchor S)) (around : List (Anchor S))
      → ForChunk chunk best
      → All AnchorNames around
      → ForChunk chunk (nearest chunk best around)
  unfolding nearest
  nearest-ForChunk chunk none [] b h = b
  nearest-ForChunk chunk (some x) [] b h = b
  nearest-ForChunk chunk none (a ∷ rest) b h =
      if_cases (ForChunk chunk) (str_eq a.document_id chunk.document_id)
        (λ e. nearest-ForChunk chunk (some a) rest (named_chunk chunk a h.0 e) h.1)
        (λ e. nearest-ForChunk chunk none rest tt h.1)
  nearest-ForChunk chunk (some x) (a ∷ rest) b h =
      if_cases (ForChunk chunk) (str_eq a.document_id chunk.document_id)
        (λ e.
          if_elim (ForChunk chunk)
            (ltb (distance a.chunk_index chunk.chunk_index)
              (distance x.chunk_index chunk.chunk_index))
            (nearest-ForChunk chunk (some a) rest b h.1)
            (nearest-ForChunk chunk (some x) rest b h.1))
        (λ e. nearest-ForChunk chunk (some x) rest b h.1)

  module _ (floats : Floats S) where
    added-Names :
        (around : List (Anchor S)) (existing : List String) (chunks : List Neighbour)
        → All AnchorNames around
        → All (Names P) (added floats around existing chunks)
    unfolding added neighbour_item
    added-Names around existing [] h = tt
    added-Names around existing (chunk ∷ chunks) h =
        if_elim (All (Names P)) (contains chunk.id existing) (added-Names around existing chunks h)
          (option_cases (All (Names P)) (nearest chunk none around)
            (λ e. added-Names around existing chunks h)
            (λ a e. (
              subst (ForChunk chunk) e (nearest-ForChunk chunk none around tt h),
              added-Names around (chunk.id ∷ existing) chunks h,
            )))

    pub expand-Names :
        (items : List (Item S)) (rows : List Neighbour)
        → All (Names P) items
        → All (Names P) (expand_adjacent_chunks floats items rows)
    unfolding expand_adjacent_chunks
    expand-Names items rows h = All-sort (score_le floats) (Names P) _ (
        All-append (Names P) items _ h
          (added-Names (anchors items) _ rows (anchors-AnchorNames items h)))
