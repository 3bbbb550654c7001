-- ===== src/Store/Loops.antt =====
-- A loop over the rows that a query gives, which writes each of them back.
use trustguard_rag.Prelude.{
  ◌≡◌, Bool, true, false, none, some, [], ◌∷◌, String, arith, eq_iff, str_eq, if_cases, if_elim,
  All, or_else, if◌then◌else◌,
}
use trustguard_rag.Prelude.Sort
use trustguard_rag.Store.Table
use trustguard_rag.Store.Table.{
  Table, lookup, lookup-set, lookup-cons, IsUnique, lookup-select_where-none, Rows,
}

module _ {ℓ} {V : Type ℓ} where
  -- The rows that a loop goes through are those of the table.
  abbrev pub Present : Table V → Table V → Type ℓ
  Present t = All (λ kv. lookup kv.0 t ≡ some kv.1)

module _ {ℓ} {V : Type ℓ} where
  pub Present-set :
      (id : String) (row : V) (t rows : Table V)
      → lookup id rows ≡ none
      → Present t rows
      → Present (Table.set id row t) rows
  Present-set id row t [] e h = tt
  Present-set id row t ((k, v) ∷ rows) e h = (
    ground (arith, lookup-set id k row t, lookup-cons id k v rows, eq_iff k id, eq_iff id k),
    Present-set id row t rows (ground (arith, lookup-cons id k v rows)) h.1,
  )

  Present-cons :
      (k : String) (v : V) (t rows : Table V)
      → lookup k rows ≡ none
      → Present t rows
      → Present ((k, v) ∷ t) rows
  Present-cons k v t [] e h = tt
  Present-cons k v t ((j, w) ∷ rows) e h = (
    ground (arith, lookup-cons j k v t, lookup-cons k j w rows, eq_iff k j, eq_iff j k),
    Present-cons k v t rows (ground (arith, lookup-cons k j w rows)) h.1,
  )

  pub Present-select_where :
      (p : String → V → Bool) (t : Table V) → IsUnique t → Present t (Table.select_where p t)
  unfolding Table.select_where
  Present-select_where p [] u = tt
  Present-select_where p ((k, v) ∷ t) u =
      let rest =
        Present-cons k v t (Table.select_where p t) (lookup-select_where-none p k t u.0)
          (Present-select_where p t u.1) in
      if_elim (Present ((k, v) ∷ t)) (p k v) (ground (arith, lookup-cons k k v t, eq_iff k k), rest)
        rest

  -- What the query asks holds of the rows that it gives.
  pub All-select_where :
      (p : String → V → Bool) (t : Table V)
      → All (λ kv. p kv.0 kv.1 ≡ true) (Table.select_where p t)
  unfolding Table.select_where
  All-select_where p [] = tt
  All-select_where p ((k, v) ∷ t) =
      if_cases (All (λ kv. p kv.0 kv.1 ≡ true)) (p k v) (λ e. (e, All-select_where p t))
        (λ _. All-select_where p t)

module _ {ℓ} {V : Type ℓ} (le : String × V → String × V → Bool) where
  lookup-insert-none :
      (k i : String) (v : V) (rows : Table V)
      → str_eq i k ≡ false
      → lookup k rows ≡ none
      → lookup k (Sort.insert le (i, v) rows) ≡ none
  unfolding Sort.insert lookup
  lookup-insert-none k i v [] e h = ground arith
  lookup-insert-none k i v ((j, w) ∷ rows) e h =
      ground (arith, lookup-insert-none k i v rows, lookup-cons k j w rows)

  IsUnique-insert :
      (i : String) (v : V) (rows : Table V)
      → lookup i rows ≡ none
      → IsUnique rows
      → IsUnique (Sort.insert le (i, v) rows)
  unfolding Sort.insert
  IsUnique-insert i v [] e u = (e, tt)
  IsUnique-insert i v ((j, w) ∷ rows) e u =
      if_elim IsUnique (le (i, v) (j, w)) (e, u)
        (
          lookup-insert-none j i v rows
              (ground (arith, lookup-cons i j w rows, eq_iff i j, eq_iff j i)) u.0,
          IsUnique-insert i v rows (ground (arith, lookup-cons i j w rows)) u.1,
        )

  lookup-sort-none :
      (k : String) (rows : Table V) → lookup k rows ≡ none → lookup k (Sort.sort le rows) ≡ none
  unfolding Sort.sort
  lookup-sort-none k [] e = e
  lookup-sort-none k ((j, w) ∷ rows) e =
      lookup-insert-none k j w (Sort.sort le rows) (ground (arith, lookup-cons k j w rows))
        (lookup-sort-none k rows (ground (arith, lookup-cons k j w rows)))

  pub IsUnique-sort : (rows : Table V) → IsUnique rows → IsUnique (Sort.sort le rows)
  unfolding Sort.sort
  IsUnique-sort [] u = tt
  IsUnique-sort ((j, w) ∷ rows) u =
      IsUnique-insert j w (Sort.sort le rows) (lookup-sort-none j rows u.0) (IsUnique-sort rows u.1)

module _ {ℓ} {V : Type ℓ} where
  pub lookup-add-some :
      (k j : String) (v w : V) (t : Table V)
      → lookup k t ≡ some v
      → lookup k (Table.add j w t) ≡ some v
  unfolding lookup Table.add
  lookup-add-some k j v w [] e = cc
  lookup-add-some k j v w ((i, x) ∷ t) e = ground (arith, lookup-add-some k j v w t)

  -- A bulk update where `P` is kept by the rows that it changes.
  pub Rows-update_where-if {κ} :
      (P : V → Type κ) (p : String → V → Bool) (f : V → V) (t : Table V)
      → ((k : String) (v : V) → p k v ≡ true → P v → P (f v))
      → Rows P t
      → Rows P (Table.update_where p f t)
  unfolding Table.update_where
  Rows-update_where-if P p f [] h r = tt
  Rows-update_where-if P p f ((k, v) ∷ t) h r =
      (if_cases P (p k v) (λ e. h k v e r.0) (λ _. r.0), Rows-update_where-if P p f t h r.1)

  pub lookup-add :
      (k j : String) (w : V) (t : Table V)
      → lookup k (Table.add j w t) ≡ or_else (lookup k t) (if str_eq j k then some w else none)
  unfolding lookup Table.add
  lookup-add k j w [] = ground arith
  lookup-add k j w ((i, x) ∷ t) = ground (arith, lookup-add k j w t)

  -- A query that gives nothing asks what no row has.
  pub select_where-nil :
      (p : String → V → Bool) (k : String) (v : V) (t : Table V)
      → Table.select_where p t ≡ []
      → lookup k t ≡ some v
      → p k v ≡ false
  unfolding Table.select_where lookup
  select_where-nil p k v [] e h = cc
  select_where-nil p k v ((i, x) ∷ t) e h = ground (arith, select_where-nil p k v t, eq_iff i k)
