-- ===== src/Crawl/Exclusive.antt =====
-- An item under review is claimed by one reviewer at a time.
use mathlib.Core.Option
use mathlib.Core.Path.{subst}
use trustguard_rag.Prelude.{
  ℕ, suc, ◌+◌, ◌<◌, ◌⊎◌, ◌≡◌, refl, ◌∙◌, ap, sym, Bool, true, false, ◌||◌, some, List, [], ◌∷◌,
  ◌++◌, String, arith, eq_iff, str_eq, if_cases, option_cases, Option-cases, Bool-cases, inl, inr,
  if◌then◌else◌,
}
use trustguard_rag.Crawl.Values.{
  Fields, field, update, field-store, text_of, str, review_timestamp, moment, text,
}
use trustguard_rag.Crawl.Rows.{CrawlSettings}
use trustguard_rag.Crawl.Review.{item_id}
use trustguard_rag.Crawl.Claims.{
  Action, approve, reject, claimed_status, status_of, has_key, find_last, change_last, claimed_item,
  is_claimable_item, is_rejected_approval, review_claim_expired, previous_status, Claimed,
  claim_one, claim_all,
}

-- A claim writes these of the item's fields, and no other.
field-claimed :
    (k : String) (now : ℕ) (action : Action) (token : String) (item : Fields)
    → field k (claimed_item now action token item) ≡ (
        if str_eq "review_claimed_at" k
        then moment now
        else if str_eq "review_claim_token" k
        then text token
        else if str_eq "status" k
        then text (claimed_status action)
        else if str_eq "review_previous_status" k
        then text (previous_status item)
        else field k item)
unfolding claimed_item update
field-claimed k now action token item = simp (field-store) refl

-- The item was claimed at the time `t`.
pub record IsClaimed (t : ℕ) (item : Fields) : Type 0 where
  pub claimed_at : field "review_claimed_at" item ≡ moment t
  pub status : (status_of item ≡ "processing") ⊎ (status_of item ≡ "rejecting")

item_id-claimed :
    (now : ℕ) (action : Action) (token : String) (item : Fields)
    → item_id (claimed_item now action token item) ≡ item_id item
unfolding item_id
item_id-claimed now action token item = ap text_of (field-claimed "id" now action token item)

claimed_item-IsClaimed :
    (now : ℕ) (action : Action) (token : String) (item : Fields)
    → IsClaimed now (claimed_item now action token item)
unfolding text_of str
claimed_item-IsClaimed now approve token item = record {
  claimed_at = field-claimed "review_claimed_at" now approve token item;
  status = inl (ap text_of (field-claimed "status" now approve token item));
}
claimed_item-IsClaimed now reject token item = record {
  claimed_at = field-claimed "review_claimed_at" now reject token item;
  status = inr (ap text_of (field-claimed "status" now reject token item));
}

held_status :
    (s : String)
    → (s ≡ "processing") ⊎ (s ≡ "rejecting")
    → (str_eq s "pending" ≡ false) × (str_eq s "rejected" ≡ false)
held_status s (inl e) = rw e (refl, refl)
held_status s (inr e) = rw e (refl, refl)

claimed_not_claimable :
    (s : CrawlSettings) (t now : ℕ) (action : Action) (allow : Bool) (item : Fields)
    → IsClaimed t item
    → now < t + s.crawler_review_claim_seconds
    → is_claimable_item s now action allow item ≡ false
unfolding is_claimable_item is_rejected_approval review_claim_expired review_timestamp
claimed_not_claimable s t now action allow item c l =
    let h = held_status (status_of item) c.status in ground (arith, h.0, h.1, c.claimed_at)

module _ (f : Fields → Fields) (keeps : (i : Fields) → item_id (f i) ≡ item_id i) where
  -- A change of the last item with the id `j` is found under that id alone.
  find_last-change_last :
      (j k : String) (items : List Fields)
      → find_last (has_key k) (change_last (has_key j) f items) ≡ (
          if str_eq j k
          then Option.map f (find_last (has_key k) items)
          else find_last (has_key k) items)
  unfolding find_last change_last
  find_last-change_last j k [] = ground arith
  find_last-change_last j k (item ∷ items) = ground (
    arith,
    find_last-change_last j k items,
    keeps item,
    eq_iff j k,
    eq_iff (item_id item) j,
    eq_iff (item_id item) k,
    eq_iff (item_id (f item)) k,
  )

-- The item with this id was claimed at the time `t`.
pub record Held (t : ℕ) (k : String) (items : List Fields) : Type 0 where
  pub item : Fields
  pub found : find_last (has_key k) items ≡ some item
  pub is_claimed : IsClaimed t item

-- An item with this id is among the claimed ones.
abbrev pub takes : String → List Fields → Bool
takes k [] = false
takes k (item ∷ items) = has_key k item || takes k items

takes-append : (k : String) (xs ys : List Fields) → takes k (xs ++ ys) ≡ takes k xs || takes k ys
takes-append k [] ys = refl
takes-append k (x ∷ xs) ys = ground (arith, takes-append k xs ys)

found_key :
    (p : Fields → Bool) (items : List Fields) (item : Fields)
    → find_last p items ≡ some item
    → p item ≡ true
unfolding find_last
found_key p [] item e = cc
found_key p (x ∷ items) item e = elim (Option-cases (find_last p items)) [
  | inl no_ ↦ ground (arith, no_)
  | inr (y, yes_) ↦ found_key p items item (yes_ ∙ ground (arith, yes_))
]

pub some_eq {ℓ} : {A : Type ℓ} {a b : A} → some a ≡ some b → a ≡ b
some_eq e = cc

module _ (s : CrawlSettings) (now : ℕ) (action : Action) (allow : Bool) (uuid4 : ℕ → String)
    (k : String) where
  -- The ways of one round of the loop.
  claim_one_cases {ℓ} :
      (P : Claimed → Type ℓ) (j : String) (c : Claimed)
      → P c
      → ((item : Fields)
          → find_last (has_key j) c.items ≡ some item
          → is_claimable_item s now action allow item ≡ true
          → P (record {
            claimed = c.claimed ++ claimed_item now action (uuid4 c.drawn) item ∷ [];
            items = change_last (has_key j) (claimed_item now action (uuid4 c.drawn)) c.items;
            drawn = suc c.drawn;
          }))
      → P (claim_one s now action allow uuid4 j c)
  unfolding claim_one
  claim_one_cases P j c same other =
      option_cases P (find_last (has_key j) c.items) (λ _. same)
        λ item e.
          if_cases P (is_claimable_item s now action allow item) (λ h. other item e h) (λ _. same)

  -- What a claim finds under the id `k` afterwards.
  find_last-claimed :
      (j : String) (n : ℕ) (items : List Fields)
      → find_last (has_key k) (change_last (has_key j) (claimed_item now action (uuid4 n)) items)
        ≡ (if str_eq j k
            then Option.map (claimed_item now action (uuid4 n)) (find_last (has_key k) items)
            else find_last (has_key k) items)
  find_last-claimed j n items =
      find_last-change_last (claimed_item now action (uuid4 n))
        (item_id-claimed now action (uuid4 n)) j k items

  -- An item that may be claimed is not one that another has claimed.
  other_id :
      (t : ℕ) (j : String) (item : Fields) (items : List Fields)
      → now < t + s.crawler_review_claim_seconds
      → Held t k items
      → find_last (has_key j) items ≡ some item
      → is_claimable_item s now action allow item ≡ true
      → str_eq j k ≡ false
  other_id t j item items l held e claimable = elim (Bool-cases (str_eq j k)) [
    | inr other ↦ other
    | inl same ↦
        (let found : find_last (has_key j) items ≡ some held.item =
            subst (λ i. find_last (has_key i) items ≡ some held.item) (sym ((eq_iff j k).0 same))
              held.found in
          let item_eq : held.item ≡ item = some_eq (sym found ∙ e) in
          ground (
            arith,
            claimed_not_claimable s t now action allow item
                (subst (IsClaimed t) item_eq held.is_claimed) l,
          ))
  ]

  -- An item that another has claimed is passed over.
  claim_one-Held :
      (t : ℕ) (j : String) (c : Claimed)
      → now < t + s.crawler_review_claim_seconds
      → Held t k c.items × (takes k c.claimed ≡ false)
      → Held t k (claim_one s now action allow uuid4 j c).items
        × (takes k (claim_one s now action allow uuid4 j c).claimed ≡ false)
  claim_one-Held t j c l h =
      claim_one_cases (λ d. Held t k d.items × (takes k d.claimed ≡ false)) j c h
        λ item e claimable.
          let held = h.0 in
          let differs : str_eq j k ≡ false = other_id t j item c.items l held e claimable in
          (
            record {
              item = held.item;
              found = ground (arith, find_last-claimed j c.drawn c.items, held.found);
              is_claimed = held.is_claimed;
            },
            ground (
              arith,
              takes-append k c.claimed (claimed_item now action (uuid4 c.drawn) item ∷ []),
              item_id-claimed now action (uuid4 c.drawn) item,
              found_key (has_key j) c.items item e,
              eq_iff (item_id item) j,
              eq_iff (item_id item) k,
              eq_iff j k,
            ),
          )

  pub claim_all-Held :
      (t : ℕ) (ids : List String) (c : Claimed)
      → now < t + s.crawler_review_claim_seconds
      → Held t k c.items × (takes k c.claimed ≡ false)
      → Held t k (claim_all s now action allow uuid4 ids c).items
        × (takes k (claim_all s now action allow uuid4 ids c).claimed ≡ false)
  unfolding claim_all
  claim_all-Held t [] c l h = h
  claim_all-Held t (j ∷ ids) c l h =
      claim_all-Held t ids (claim_one s now action allow uuid4 j c) l (claim_one-Held t j c l h)

  -- What a round claims is held from then on.
  claim_one_holds :
      (j : String) (c : Claimed)
      → (takes k c.claimed ≡ true → Held now k c.items)
      → takes k (claim_one s now action allow uuid4 j c).claimed ≡ true
      → Held now k (claim_one s now action allow uuid4 j c).items
  claim_one_holds j c h =
      claim_one_cases (λ d. takes k d.claimed ≡ true → Held now k d.items) j c h
        λ item e claimable taken. elim (Bool-cases (str_eq j k)) [
          | inl same ↦ record {
            item = claimed_item now action (uuid4 c.drawn) item;
            found = ground (arith, find_last-claimed j c.drawn c.items, eq_iff j k, e);
            is_claimed = claimed_item-IsClaimed now action (uuid4 c.drawn) item;
          }
          | inr other ↦
              (let held = h (
                  ground (
                    arith,
                    takes-append k c.claimed (claimed_item now action (uuid4 c.drawn) item ∷ []),
                    item_id-claimed now action (uuid4 c.drawn) item,
                    found_key (has_key j) c.items item e,
                    eq_iff (item_id item) j,
                    eq_iff (item_id item) k,
                    eq_iff j k,
                  )) in
                record {
                  item = held.item;
                  found = ground (arith, find_last-claimed j c.drawn c.items, held.found);
                  is_claimed = held.is_claimed;
                })
        ]

  pub claim_all_holds :
      (ids : List String) (c : Claimed)
      → (takes k c.claimed ≡ true → Held now k c.items)
      → takes k (claim_all s now action allow uuid4 ids c).claimed ≡ true
      → Held now k (claim_all s now action allow uuid4 ids c).items
  unfolding claim_all
  claim_all_holds [] c h t = h t
  claim_all_holds (j ∷ ids) c h t =
      claim_all_holds ids (claim_one s now action allow uuid4 j c) (claim_one_holds j c h) t
