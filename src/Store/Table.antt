-- ===== src/Store/Table.antt =====
-- A table of the database: rows under their primary keys, as app/stores use it through SQLAlchemy.
use mathlib.Core.Option
use mathlib.Core.Path.{subst}
use trustguard_rag.Prelude.{
  ap, ◌∙◌, false, Bool-cases, inl, inr, if_elim, if_cases, ◌≡◌, refl, Bool, Option, none, some,
  List, [], ◌∷◌, ◌++◌, String, arith, eq_iff, str_eq, if◌then◌else◌, is_some,
}

abbrev pub Table {ℓ} : Type ℓ → Type ℓ
Table V = List (String × V)

module _ {ℓ} {V : Type ℓ} where
  -- `session.get(Row, key)`.
  unfoldable pub lookup : String → Table V → Option V
  lookup k [] = none
  lookup k ((j, v) ∷ t) = if str_eq j k then some v else lookup k t

  -- The row that a session has changed in place, written at commit.
  unfoldable pub set : String → V → Table V → Table V
  set k v [] = []
  set k v ((j, w) ∷ t) = if str_eq j k then (j, v) ∷ t else (j, w) ∷ set k v t

  -- `update(Row).where(p).values(f)`.
  unfoldable pub update_where : (String → V → Bool) → (V → V) → Table V → Table V
  update_where p f [] = []
  update_where p f ((j, v) ∷ t) = (j, if p j v then f v else v) ∷ update_where p f t

  -- `select(Row).where(p)`.
  unfoldable pub select_where : (String → V → Bool) → Table V → Table V
  select_where p [] = []
  select_where p ((j, v) ∷ t) = let rest = select_where p t in if p j v then (j, v) ∷ rest else rest

  -- `session.add(row)`: the row comes last.
  unfoldable pub add : String → V → Table V → Table V
  add k v t = t ++ (k, v) ∷ []

  -- `P` of every row.
  abbrev pub Rows {κ} : (V → Type κ) → Table V → Type κ
  Rows P [] = Unit
  Rows P ((_, v) ∷ t) = P v × Rows P t

module _ {ℓ} {V : Type ℓ} where
  pub lookup-set :
      (k j : String) (v : V) (t : Table V)
      → lookup j (set k v t)
        ≡ (if str_eq k j then (if is_some (lookup k t) then some v else none) else lookup j t)
  unfolding lookup set
  lookup-set k j v [] = ground arith
  lookup-set k j v ((i, w) ∷ t) =
      ground (arith, lookup-set k j v t, eq_iff i k, eq_iff i j, eq_iff k j)

  pub lookup-update_where :
      (p : String → V → Bool) (f : V → V) (j : String) (t : Table V)
      → lookup j (update_where p f t) ≡ Option.map (λ v. if p j v then f v else v) (lookup j t)
  unfolding lookup update_where
  lookup-update_where p f j [] = refl
  lookup-update_where p f j ((i, w) ∷ t) = ground (arith, lookup-update_where p f j t, eq_iff i j)

  pub Rows-lookup {κ} :
      (P : V → Type κ) (k : String) (v : V) (t : Table V) → Rows P t → lookup k t ≡ some v → P v
  unfolding lookup
  Rows-lookup P k v [] h e = cc
  Rows-lookup P k v ((i, w) ∷ t) h e = elim (Bool-cases (str_eq i k)) [
    | inl same ↦
        (let e' : some w ≡ some v = rw same at e in
          let w_eq_v : w ≡ v = cc e' in subst P w_eq_v h.0)
    | inr other ↦ Rows-lookup P k v t h.1 (rw other at e)
  ]

  pub Rows-set {κ} :
      (P : V → Type κ) (k : String) (v : V) (t : Table V) → Rows P t → P v → Rows P (set k v t)
  unfolding set
  Rows-set P k v [] h p = tt
  Rows-set P k v ((i, w) ∷ t) h p = elim (Bool-cases (str_eq i k)) [
    | inl same ↦ rw same (p, h.1)
    | inr other ↦ rw other (h.0, Rows-set P k v t h.1 p)
  ]

  pub Rows-update_where {κ} :
      (P : V → Type κ) (p : String → V → Bool) (f : V → V) (t : Table V)
      → ((v : V) → P v → P (f v))
      → Rows P t
      → Rows P (update_where p f t)
  unfolding update_where
  Rows-update_where P p f [] k h = tt
  Rows-update_where P p f ((i, w) ∷ t) k h =
      (if_elim P (p i w) (k w h.0) h.0, Rows-update_where P p f t k h.1)

  pub Rows-add {κ} :
      (P : V → Type κ) (k : String) (v : V) (t : Table V) → Rows P t → P v → Rows P (add k v t)
  unfolding add
  Rows-add P k v [] h p = (p, tt)
  Rows-add P k v ((i, w) ∷ t) h p = (h.0, Rows-add P k v t h.1 p)

module _ {ℓ} {V : Type ℓ} where
  -- No two rows have one primary key.
  abbrev pub IsUnique : Table V → Type ℓ
  IsUnique [] = Unit
  IsUnique ((k, _) ∷ t) = (lookup k t ≡ none) × IsUnique t

module _ {ℓ} {V : Type ℓ} where
  lookup-set-none :
      (k j : String) (v : V) (t : Table V) → lookup j t ≡ none → lookup j (set k v t) ≡ none
  lookup-set-none k j v t e = ground (arith, lookup-set k j v t, eq_iff k j)

  pub IsUnique-set : (k : String) (v : V) (t : Table V) → IsUnique t → IsUnique (set k v t)
  unfolding set
  IsUnique-set k v [] h = tt
  IsUnique-set k v ((i, w) ∷ t) h =
      if_elim IsUnique (str_eq i k) (h.0, h.1) (lookup-set-none k i v t h.0, IsUnique-set k v t h.1)

  pub IsUnique-update_where :
      (p : String → V → Bool) (f : V → V) (t : Table V) → IsUnique t → IsUnique (update_where p f t)
  unfolding update_where
  IsUnique-update_where p f [] h = tt
  IsUnique-update_where p f ((i, w) ∷ t) h = (
    lookup-update_where p f i t ∙ ap (Option.map (λ v. if p i v then f v else v)) h.0,
    IsUnique-update_where p f t h.1,
  )

  lookup-add-none :
      (k j : String) (v : V) (t : Table V)
      → lookup j t ≡ none
      → str_eq k j ≡ false
      → lookup j (add k v t) ≡ none
  unfolding lookup add
  lookup-add-none k j v [] e ne = ground arith
  lookup-add-none k j v ((i, w) ∷ t) e ne = ground (arith, lookup-add-none k j v t)

  pub IsUnique-add :
      (k : String) (v : V) (t : Table V) → lookup k t ≡ none → IsUnique t → IsUnique (add k v t)
  unfolding add lookup
  IsUnique-add k v [] e h = (refl, tt)
  IsUnique-add k v ((i, w) ∷ t) e h = (
    unfold add in lookup-add-none k i v t h.0 (ground (arith, eq_iff i k, eq_iff k i)),
    IsUnique-add k v t (ground arith) h.1,
  )

  -- What a query finds of a key.
  abbrev pub kept : Bool → V → Option V
  kept b v = if b then some v else none

  pub lookup-select_where-none :
      (p : String → V → Bool) (k : String) (t : Table V)
      → lookup k t ≡ none
      → lookup k (select_where p t) ≡ none
  unfolding lookup select_where
  lookup-select_where-none p k [] e = refl
  lookup-select_where-none p k ((i, w) ∷ t) e =
      ground (arith, lookup-select_where-none p k t, eq_iff i k)

  pub lookup-select_where :
      (p : String → V → Bool) (k : String) (v : V) (t : Table V)
      → IsUnique t
      → lookup k t ≡ some v
      → lookup k (select_where p t) ≡ kept (p k v) v
  unfolding lookup select_where
  lookup-select_where p k v [] h e = cc
  lookup-select_where p k v ((i, w) ∷ t) h e = elim (Bool-cases (str_eq i k)) [
    | inl same ↦ ground (arith, eq_iff i k, lookup-select_where-none p i t h.0)
    | inr other ↦ ground (arith, lookup-select_where p k v t h.1)
  ]

  pub IsUnique-select_where :
      (p : String → V → Bool) (t : Table V) → IsUnique t → IsUnique (select_where p t)
  unfolding select_where
  IsUnique-select_where p [] h = tt
  IsUnique-select_where p ((i, w) ∷ t) h =
      if_elim IsUnique (p i w) (lookup-select_where-none p i t h.0, IsUnique-select_where p t h.1)
        (IsUnique-select_where p t h.1)

  pub lookup-cons :
      (k i : String) (v : V) (t : Table V)
      → lookup k ((i, v) ∷ t) ≡ (if str_eq i k then some v else lookup k t)
  unfolding lookup
  lookup-cons k i v t = refl

-- `d[key] = value`, on a dictionary that keeps the order of its keys.
unfoldable pub store {ℓ} : {A : Type ℓ} → String → A → Table A → Table A
store key a [] = (key, a) ∷ []
store key a ((k, b) ∷ d) = if str_eq k key then (k, a) ∷ d else (k, b) ∷ store key a d

pub lookup-store {ℓ} :
    {A : Type ℓ} (key k : String) (a : A) (d : Table A)
    → lookup k (store key a d) ≡ (if str_eq key k then some a else lookup k d)
unfolding lookup store
lookup-store key k a [] = refl
lookup-store key k a ((j, b) ∷ d) =
    ground (arith, lookup-store key k a d, eq_iff j key, eq_iff j k, eq_iff key k)

module _ {ℓ} {A : Type ℓ} where
  lookup-store-none :
      (key k : String) (a : A) (d : Table A)
      → str_eq key k ≡ false
      → lookup k d ≡ none
      → lookup k (store key a d) ≡ none
  lookup-store-none key k a d e h = ground (arith, lookup-store key k a d, e, h)

  pub store-IsUnique : (key : String) (a : A) (d : Table A) → IsUnique d → IsUnique (store key a d)
  unfolding store lookup
  store-IsUnique key a [] h = (refl, tt)
  store-IsUnique key a ((j, b) ∷ d) h =
      if_cases IsUnique (str_eq j key) (λ e. h)
        (λ e. (
          lookup-store-none key j a d (ground (arith, e, eq_iff j key, eq_iff key j)) h.0,
          store-IsUnique key a d h.1,
        ))
