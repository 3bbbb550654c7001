-- ===== src/Retrieval/Retry.antt =====
-- app/core/retrieval/search.py: what a retriever that is retried comes to.
use trustguard_rag.Prelude.{
  ℕ, zero, suc, ◌+◌, ◌≤◌, ◌≡◌, refl, Bool, true, false, Option, none, some, arith, ◌⊎◌, inl, inr,
  if◌then◌else◌, ◌∙◌,
}
use trustguard_rag.Retrieval.Ranking.{Attempt, found, failed, retrieve_with_retry}

attempt_cases {ℓ κ μ} :
    {A : Type ℓ} {B : Type κ} (P : B → Type μ) (a : Attempt A) {f : A → B} {g : Bool → B}
    → ((x : A) → a ≡ found x → P (f x))
    → ((b : Bool) → a ≡ failed b → P (g b))
    → P (elim a [ found x ↦ f x | failed b ↦ g b ])
attempt_cases P (found x) hf hg = hf x refl
attempt_cases P (failed b) hf hg = hg b refl

module _ {ℓ} {A : Type ℓ} (operation : ℕ → Attempt A) where
  -- This many attempts from `first` on failed with errors that may be retried.
  abbrev pub FailedFrom : ℕ → ℕ → Type ℓ
  FailedFrom first zero = Unit
  FailedFrom first (suc k) = (operation first ≡ failed true) × FailedFrom (suc first) k

  -- What the last attempt, of those up to `limit`, says of the result.
  abbrev pub EndsWith : ℕ → Option A → ℕ → Type ℓ
  EndsWith limit (some items) last = operation last ≡ found items
  EndsWith limit none last =
      (operation last ≡ failed false) ⊎ ((operation last ≡ failed true) × (last ≡ limit))

  pub record Retried (first : ℕ) (left : ℕ) (result : Option A × ℕ) : Type ℓ where
    pub retries : ℕ
    pub last : result.1 ≡ first + retries
    pub within : retries ≤ left
    pub before : FailedFrom first retries
    pub ends : EndsWith (left + first) result.0 result.1

  stops :
      (first left : ℕ) (o : Option A)
      → EndsWith (left + first) o first
      → Retried first left (o, first)
  stops first left o h = record {
    retries = 0;
    last = omega arith;
    within = omega arith;
    before = tt;
    ends = h;
  }

  failed_end :
      (limit last : ℕ) (b : Bool)
      → operation last ≡ failed b
      → last ≡ limit
      → EndsWith limit none last
  failed_end limit last true e h = inr (e, h)
  failed_end limit last false e h = inl e

  ends_same : (a b : ℕ) (o : Option A) (last : ℕ) → a ≡ b → EndsWith a o last → EndsWith b o last
  ends_same a b (some x) last e h = h
  ends_same a b none last e (inl h) = inl h
  ends_same a b none last e (inr h) = inr (h.0, h.1 ∙ e)

  extends :
      (first left : ℕ) (r : Option A × ℕ)
      → operation first ≡ failed true
      → Retried (suc first) left r
      → Retried first (suc left) r
  extends first left (o, last) e h = record {
    retries = suc h.retries;
    last = omega (arith, h.last);
    within = omega (arith, h.within);
    before = (e, h.before);
    ends = ends_same (left + suc first) (suc left + first) o last (omega arith) h.ends;
  }

  retry_failed :
      (left first : ℕ) (b : Bool)
      → operation first ≡ failed b
      → Retried (suc first) left (retrieve_with_retry operation left (suc first))
      → Retried first
          (suc left)
          (if b then retrieve_with_retry operation left (suc first) else (none, first))
  retry_failed left first true e h =
      extends first left (retrieve_with_retry operation left (suc first)) e h
  retry_failed left first false e h = stops first (suc left) none (inl e)

  -- `_retrieve_with_retry` makes at least one attempt and at most one more than the retries allowed;
  -- every attempt before the last failed with an error that may be retried; the items that it
  -- returns are those of the last attempt; and where it returns an error, the last attempt failed,
  -- with an error that is not to be retried or as the last one allowed.
  pub retry_result :
      (left first : ℕ) → Retried first left (retrieve_with_retry operation left first)
  unfolding retrieve_with_retry
  retry_result zero first =
      attempt_cases (Retried first zero) (operation first) (λ x e. stops first zero (some x) e)
        (λ b e. stops first zero none (failed_end (zero + first) first b e (omega arith)))
  retry_result (suc left) first =
      attempt_cases (Retried first (suc left)) (operation first)
        (λ x e. stops first (suc left) (some x) e)
        (λ b e. retry_failed left first b e (retry_result left (suc first)))
