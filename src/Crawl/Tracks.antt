-- ===== src/Crawl/Tracks.antt =====
-- What a change of the table of jobs means for each job.
use mathlib.Core.Option
use mathlib.Core.Path.{subst}
use trustguard_rag.Prelude.{
  ◌≡◌, ◌∙◌, sym, ap, some, String, arith, eq_iff, str_eq, inl, inr, Bool-cases, if_cases,
  if◌then◌else◌,
}
use trustguard_rag.Store.Table.{
  Table, lookup, lookup-set, lookup-update_where, IsUnique, IsUnique-set, IsUnique-add,
  IsUnique-update_where, Rows, Rows-set, Rows-add, Rows-lookup,
}
use trustguard_rag.Store.Loops.{lookup-add-some, Rows-update_where-if}
use trustguard_rag.Crawl.Rows.{CrawlJobRow}
use trustguard_rag.Crawl.Machine.{
  Star, here, and_then, one, Change, stays, writes, adds, sweeps, IsNew,
}

module _ {R : CrawlJobRow → CrawlJobRow → Type 0} where
  pub IsUnique-Change : {t u : Table CrawlJobRow} → Change R t u → IsUnique t → IsUnique u
  IsUnique-Change stays h = h
  IsUnique-Change (writes id a b c e r) h = IsUnique-set id b _ (IsUnique-Change c h)
  IsUnique-Change (adds id a e n) h = IsUnique-add id a _ e h
  IsUnique-Change (sweeps p f g) h = IsUnique-update_where p f _ h

  -- What every move keeps, and new jobs have, holds of all jobs.
  pub Rows-Change {κ} :
      (P : CrawlJobRow → Type κ)
      → ((a b : CrawlJobRow) → R a b → P a → P b)
      → ((a : CrawlJobRow) → IsNew a → P a)
      → {t u : Table CrawlJobRow} → Change R t u
      → Rows P t
      → Rows P u
  Rows-Change P k n stays h = h
  Rows-Change P k n (writes id a b c e r) h =
      let h' = Rows-Change P k n c h in Rows-set P id b _ h' (k a b r (Rows-lookup P id a _ h' e))
  Rows-Change P k n (adds id a e m) h = Rows-add P id a _ h (n a m)
  Rows-Change P k n (sweeps p f g) h =
      Rows-update_where-if P p f _ (λ id v e. k v (f v) (g id v e)) h

-- A job with the row `a` has a row in the table that moves lead to.
pub record Tracks (R : CrawlJobRow → CrawlJobRow → Type 0) (k : String) (a : CrawlJobRow)
    (t : Table CrawlJobRow) : Type 0 where
  pub row : CrawlJobRow
  pub found : lookup k t ≡ some row
  pub path : Star R a row

some_eq : {a b : CrawlJobRow} → some a ≡ some b → a ≡ b
some_eq e = cc

module _ {R : CrawlJobRow → CrawlJobRow → Type 0} (k : String) (a : CrawlJobRow) where
  -- No change loses a job.
  pub Change-Tracks :
      {t u : Table CrawlJobRow} → Change R t u → lookup k t ≡ some a → Tracks R k a u
  Change-Tracks stays e = record { row = a; found = e; path = here }
  Change-Tracks (writes {u} id b c change f r) e =
      let w = Change-Tracks change e in
      elim (Bool-cases (str_eq id k)) [
        | inl same ↦
            (let id_eq : id ≡ k = (eq_iff id k).0 same in
              let row_eq : w.row ≡ b =
                some_eq (sym w.found ∙ ap (λ j. lookup j u) (sym id_eq) ∙ f) in
              record {
                row = c;
                found = ground (arith, lookup-set id k c u, f);
                path = and_then (subst (Star R a) row_eq w.path) r;
              })
        | inr other ↦ record {
          row = w.row;
          found = ground (arith, lookup-set id k c u, w.found);
          path = w.path;
        }
      ]
  Change-Tracks (adds id b f n) e = record {
    row = a;
    found = lookup-add-some k id a b _ e;
    path = here;
  }
  Change-Tracks {t} (sweeps p f g) e =
      let moved = lookup-update_where p f k t ∙ ap (Option.map (λ v. if p k v then f v else v)) e in
      record {
        row = if p k a then f a else a;
        found = moved;
        path = if_cases (Star R a) (p k a) (λ h. one (g k a h)) (λ _. here);
      }
