-- ===== src/Retrieval/Limits.antt =====
-- app/core/retrieval/search.py: the limits that the results of a search keep.
use trustguard_rag.Prelude.{
  is_nil, ℕ, zero, suc, ◌-◌, ◌≤◌, ◌≡◌, ◌≢◌, refl, Bool, true, false, not, ◌&&◌, Option, none, some,
  List, [], ◌∷◌, String, arith, eq_iff, str_eq, leb, length, take, if◌then◌else◌, length-take-le,
  inl, inr, Bool-cases, if_elim, if_cases, option_cases,
}
use mathlib.Core.Path.{subst}
use Prim.Native.String.{◌++◌ as join}
use trustguard_rag.Store.Table.{Table}
use trustguard_rag.Store.Rows.{Db}
use trustguard_rag.Store.Table.{store, lookup-store}
use trustguard_rag.Retrieval.Items.{Item, Floats, text_or, group_key, is_given}
use trustguard_rag.Retrieval.Ranking.{
  RetrievalComponent, count_of, deduplicate_from, deduplicate_by_document,
}
use trustguard_rag.Retrieval.Search.{
  SearchSettings, SearchRequest, Engines, SearchResponse, number_or, Gathered, gather, refusal,
  outage,
}
use trustguard_rag.Retrieval.Selection.{Searched, refused, answered, search, respond, rank}

abbrev pub is_of : String → Option String → Bool
is_of d none = false
is_of d (some e) = str_eq e d

document_given :
    (d : String) (o : Option String)
    → d ≢ ""
    → is_of d o ≡ true
    → (is_given o ≡ true) × (text_or o "" ≡ d)
document_given d none h e = ground arith
document_given d (some s) h e =
    (ground (arith, eq_iff s d, eq_iff s ""), ground (arith, eq_iff s d, eq_iff s ""))

count_of-store :
    (key k : String) (counts : Table ℕ)
    → count_of k (store key (suc (count_of key counts)) counts)
      ≡ (if str_eq key k then suc (count_of k counts) else count_of k counts)
count_of-store key k counts =
    ground (arith, lookup-store key k (suc (count_of key counts)) counts, eq_iff key k)

module _ {S : Type 0} where
  -- The items of a document.
  abbrev pub items_of : String → List (Item S) → ℕ
  items_of d [] = 0
  items_of d (item ∷ items) =
      if is_of d item.document_id then suc (items_of d items) else items_of d items

  key_of_document :
      (d : String) (position : ℕ) (item : Item S)
      → d ≢ ""
      → is_of d item.document_id ≡ true
      → group_key position item ≡ join "document:" d
  unfolding group_key
  key_of_document d position item h e =
      let k = document_given d item.document_id h e in rw (k.0, k.1) refl

  items_of-take :
      (d : String) (n : ℕ) (items : List (Item S)) → items_of d (take n items) ≤ items_of d items
  items_of-take d zero items = omega arith
  items_of-take d (suc n) [] = omega arith
  items_of-take d (suc n) (item ∷ items) = ground (arith, items_of-take d n items)

  -- The bound of a document, where the item that comes first is skipped or kept.
  abbrev Within : String → ℕ → Table ℕ → List (Item S) → Type 0
  Within d limit counts items = items_of d items ≤ limit - count_of (join "document:" d) counts

  Within-own :
      (d : String) (limit : ℕ) (key : String) (counts : Table ℕ) (rest : List (Item S))
      (item : Item S)
      → is_of d item.document_id ≡ true
      → key ≡ join "document:" d
      → leb limit (count_of key counts) ≡ false
      → Within d limit (store key (suc (count_of key counts)) counts) rest
      → Within d limit counts (item ∷ rest)
  Within-own d limit key counts rest item own same e ih = rw own (
      ground (
        arith,
        ih,
        e,
        same,
        eq_iff key (join "document:" d),
        count_of-store key (join "document:" d) counts,
      ))

  Within-kept :
      (d : String)
      → d ≢ ""
      → (limit position : ℕ) (counts : Table ℕ) (item : Item S) (rest : List (Item S))
      → leb limit (count_of (group_key position item) counts) ≡ false
      → Within d limit
          (store (group_key position item) (suc (count_of (group_key position item) counts)) counts)
          rest
      → Within d limit counts (item ∷ rest)
  Within-kept d h limit position counts item rest e ih =
      let key = group_key position item in
      elim (Bool-cases (is_of d item.document_id)) [
        | inl own ↦
            Within-own d limit key counts rest item own (key_of_document d position item h own) e ih
        | inr other ↦ rw other (ground (arith, ih, count_of-store key (join "document:" d) counts))
      ]

  kept_of_document :
      (d : String)
      → d ≢ ""
      → (limit position : ℕ) (counts : Table ℕ) (items : List (Item S))
      → Within d limit counts (deduplicate_from limit position counts items)
  unfolding deduplicate_from
  kept_of_document d h limit position counts [] = omega arith
  kept_of_document d h limit position counts (item ∷ items) =
      if_cases (Within d limit counts) (leb limit (count_of (group_key position item) counts))
        (λ e. kept_of_document d h limit (suc position) counts items)
        (λ e.
          Within-kept d h limit position counts item
            (deduplicate_from limit (suc position)
              (store (group_key position item) (suc (count_of (group_key position item) counts))
                counts)
              items)
            e
            (kept_of_document d h limit (suc position)
              (store (group_key position item) (suc (count_of (group_key position item) counts))
                counts)
              items))

  deduplicate_limit :
      (d : String)
      → d ≢ ""
      → (limit : ℕ) (items : List (Item S))
      → items_of d (deduplicate_by_document limit items).0 ≤ limit
  unfolding deduplicate_by_document
  deduplicate_limit d h limit items = omega (arith, kept_of_document d h limit 0 [] items)

  record RankLimit (d : String) (n : ℕ) (x : List (Item S) × ℕ × List RetrievalComponent)
      : Type 0 where
    pub limit : items_of d x.0 ≤ n

  rank_limit :
      (d : String)
      → d ≢ ""
      → (floats : Floats S) (s : SearchSettings S) (r : SearchRequest S) (engines : Engines S)
        (top_k : ℕ) (items : List (Item S))
      → RankLimit d r.max_chunks_per_document (rank floats s r engines top_k items)
  unfolding rank
  rank_limit d h floats s r engines top_k items =
      if_elim (RankLimit d r.max_chunks_per_document) (r.enable_rerank && not (is_nil items))
        (record { limit = deduplicate_limit d h r.max_chunks_per_document _ })
        (record { limit = deduplicate_limit d h r.max_chunks_per_document items })

  -- `P` of the response, where there is one.
  abbrev pub OfAnswer {κ} : (SearchResponse S → Type κ) → Searched S → Type κ
  OfAnswer P (refused error) = Unit
  OfAnswer P (answered response) = P response

  pub search_answer {κ} :
      (P : SearchResponse S → Type κ) (floats : Floats S) (s : SearchSettings S)
      (r : SearchRequest S) (engines : Engines S) (db : Db)
      → P (respond floats s r engines db (gather floats s r engines))
      → OfAnswer P (search floats s r engines db)
  unfolding search
  search_answer P floats s r engines db h =
      option_cases (OfAnswer P) (refusal s r)
        (λ e.
          option_cases (OfAnswer P) (outage (gather floats s r engines)) (λ e'. h) (λ error e'. tt))
        (λ error e. tt)

  record WithinLimits (d : String) (k limit : ℕ) (response : SearchResponse S) : Type 0 where
    pub total : length response.results ≤ k
    pub of_document : items_of d response.results ≤ limit

  respond_limits :
      (d : String)
      → d ≢ ""
      → (floats : Floats S) (s : SearchSettings S) (r : SearchRequest S) (engines : Engines S)
        (db : Db) (g : Gathered S)
      → WithinLimits d
          (number_or r.top_k s.search_top_k)
          r.max_chunks_per_document
          (respond floats s r engines db g)
  unfolding respond
  respond_limits d h floats s r engines db g =
      let k = number_or r.top_k s.search_top_k in
      record {
        total = length-take-le k _;
        of_document =
            omega (arith, items_of-take d k _, (rank_limit d h floats s r engines k _).limit);
      }

  -- Whatever the retrievers, the chunk store and the reranker give, a search that answers has at
  -- most `top_k` results, and at most `max_chunks_per_document` of them are chunks of one document.
  pub search_limits :
      (floats : Floats S) (s : SearchSettings S) (r : SearchRequest S) (engines : Engines S)
      (db : Db) (response : SearchResponse S) (d : String)
      → search floats s r engines db ≡ answered response
      → d ≢ ""
      → (length response.results ≤ number_or r.top_k s.search_top_k)
        × (items_of d response.results ≤ r.max_chunks_per_document)
  search_limits floats s r engines db response d e h =
      let k = number_or r.top_k s.search_top_k in
      let P = WithinLimits d k r.max_chunks_per_document in
      let limits = subst (OfAnswer P) e (
        search_answer P floats s r engines db
          (respond_limits d h floats s r engines db (gather floats s r engines))) in
      (limits.total, limits.of_document)
