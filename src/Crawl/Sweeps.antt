-- ===== src/Crawl/Sweeps.antt =====
-- The loops of `CrawlerStore` over several jobs move them along the machine, and so does every call.
use trustguard_rag.Prelude.{
  ℕ, ◌+◌, ◌≡◌, refl, Bool, true, some, List, [], ◌∷◌, String, arith, not, ◌&&◌, contains, if_elim,
  All, All-map_implies, max, length,
}
use trustguard_rag.Prelude.Sort
use trustguard_rag.Store.Table
use trustguard_rag.Store.Table.{
  Table, lookup, lookup-set, lookup-cons, IsUnique, lookup-select_where-none, IsUnique-select_where,
}
use trustguard_rag.Store.Loops.{
  Present, Present-set, Present-select_where, All-select_where, IsUnique-sort,
}
use trustguard_rag.Store.Rows.{add_outbox_event}
use trustguard_rag.Crawl.Rows.{CrawlJobRow, CrawlDb, CrawlSettings}
use trustguard_rag.Crawl.Values.{items_of, progress_or}
use trustguard_rag.Crawl.Jobs.{save, command, is_empty}
use trustguard_rag.Crawl.Control
use trustguard_rag.Crawl.Control.{recovered_row, is_stale, recover_jobs}
use trustguard_rag.Crawl.Cleanup
use trustguard_rag.Crawl.Cleanup.{clean_job, clean_jobs, clean_items}
use trustguard_rag.Crawl.Machine.{Advances, edits, Change, stays, writes}
use trustguard_rag.Crawl.Changes.{recovered_row-Advances}

module _ (s : CrawlSettings) (now : ℕ) where
  -- `t` is the table that the loop started from.
  recover_jobs-Change :
      (t : Table CrawlJobRow) (rows : Table CrawlJobRow) (db : CrawlDb)
      → Change Advances t db.crawl_jobs
      → IsUnique rows
      → Present db.crawl_jobs rows
      → All (λ kv. is_stale s now kv.1 ≡ true) rows
      → Change Advances t (recover_jobs now rows db).1.crawl_jobs
  unfolding recover_jobs command add_outbox_event save
  recover_jobs-Change t [] db c u p a = c
  recover_jobs-Change t ((id, row) ∷ rows) db c u p a =
      recover_jobs-Change t rows (command now id (save id (recovered_row now row) db)).1
        (writes id row (recovered_row now row) c p.0 (recovered_row-Advances s now row a.0)) u.1
        (Present-set id (recovered_row now row) db.crawl_jobs rows u.0 p.1) a.1

  pub recover_stale_jobs-Change :
      (locked : List String) (db : CrawlDb)
      → IsUnique db.crawl_jobs
      → Change Advances db.crawl_jobs (Control.recover_stale_jobs s now locked db).1.crawl_jobs
  unfolding Control.recover_stale_jobs
  recover_stale_jobs-Change locked db u =
      let p = λ (id : String) (row : CrawlJobRow). is_stale s now row && not (contains id locked) in
      recover_jobs-Change db.crawl_jobs (Table.select_where p db.crawl_jobs) db stays
        (IsUnique-select_where p db.crawl_jobs u) (Present-select_where p db.crawl_jobs u)
        (All-map_implies (λ kv. p kv.0 kv.1 ≡ true) (λ kv. is_stale s now kv.1 ≡ true)
          (Table.select_where p db.crawl_jobs) (λ kv e. ground arith)
          (All-select_where p db.crawl_jobs))

  clean_job_cases :
      (P : Table CrawlJobRow → Type 0) (limit : ℕ) (id : String) (row : CrawlJobRow) (n : ℕ)
      (db : CrawlDb)
      → P db.crawl_jobs
      → ((b : CrawlJobRow) → Advances row b → P (Table.set id b db.crawl_jobs))
      → P (clean_job s now limit id row n db).1.crawl_jobs
  unfolding clean_job save
  clean_job_cases P limit id row n db same other =
      if_elim (λ (d : CrawlDb). P d.crawl_jobs)
        (is_empty
          (clean_items s now (λ k. db.core.uuid4 (db.core.drawn + k)) limit id n
            (items_of (progress_or row.progress_json))).0)
        same (other _ (edits refl refl refl refl))

  clean_jobs-Change :
      (t : Table CrawlJobRow) (limit : ℕ) (rows : Table CrawlJobRow) (n : ℕ) (db : CrawlDb)
      → Change Advances t db.crawl_jobs
      → IsUnique rows
      → Present db.crawl_jobs rows
      → Change Advances t (clean_jobs s now limit rows n db).1.crawl_jobs
  unfolding clean_jobs
  clean_jobs-Change t limit [] n db c u p = c
  clean_jobs-Change t limit ((id, row) ∷ rows) n db c u p =
      let after =
        clean_job_cases (λ j. Change Advances t j × Present j rows) limit id row n db (c, p.1)
          (λ b r. (writes id row b c p.0 r, Present-set id b db.crawl_jobs rows u.0 p.1)) in
      clean_jobs-Change t limit rows (n + length (clean_job s now limit id row n db).0)
        (clean_job s now limit id row n db).1 after.0 u.1 after.1

  pub claim_expired_review_content-Change :
      (id_le : String → String → Bool) (limit : ℕ) (locked : List String) (db : CrawlDb)
      → IsUnique db.crawl_jobs
      → Change Advances db.crawl_jobs
          (Cleanup.claim_expired_review_content id_le s now limit locked db).1.crawl_jobs
  unfolding Cleanup.claim_expired_review_content
  claim_expired_review_content-Change id_le limit locked db u =
      let p =
        λ (id : String) (row : CrawlJobRow). Cleanup.has_progress row && not (contains id locked) in
      let rows = Table.select_where p db.crawl_jobs in
      clean_jobs-Change db.crawl_jobs (max 1 limit) (Sort.sort (Cleanup.row_le id_le) rows) 0 db
        stays (IsUnique-sort (Cleanup.row_le id_le) rows (IsUnique-select_where p db.crawl_jobs u))
        (Sort.All-sort (Cleanup.row_le id_le) (λ kv. lookup kv.0 db.crawl_jobs ≡ some kv.1) rows
          (Present-select_where p db.crawl_jobs u))
