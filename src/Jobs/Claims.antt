-- ===== src/Jobs/Claims.antt =====
-- What `claim_next` hands out.
use android_package_service.Base.{
  ℕ, ◌+◌, ◌≤◌, String, ◌≡◌, refl, ◌⊎◌, inl, inr, true, false, Option, none, some, List, arith,
  eq_refl, All, In, count, update, earliest, earliest-some, earliest-none, find-update, find_only,
  count-update_one, Option-cases,
}
use android_package_service.Jobs.{
  Row, DownloadJob, row_to_job, has_id, claimable, claimed, claim_next, get,
}
use android_package_service.Jobs.Keys.{IsWellFormed}

-- The table after a claim of the row, and what the claim returns.
abbrev pub claim_of : ℕ → ℕ → String → Row → List Row → List Row × Option DownloadJob
claim_of lease now worker row rows = (
  update (has_id row.id) (claimed lease now worker) rows,
  some (row_to_job (claimed lease now worker row)),
)

-- The row is the one that a claim must take: it can be claimed, and none of those is older.
pub record IsNext (lease now : ℕ) (rows : List Row) (row : Row) : Type 0 where
  pub present : In row rows
  pub free : claimable lease now row ≡ true
  pub oldest : All (λ r. claimable lease now r ≡ true → row.created_at ≤ r.created_at) rows

module _ (lease now : ℕ) (worker : String) (rows : List Row) (v : IsWellFormed rows) where
  get-claimed :
      (row : Row)
      → In row rows
      → get row.id (update (has_id row.id) (claimed lease now worker) rows)
        ≡ some (row_to_job (claimed lease now worker row))
  unfolding get
  get-claimed row i =
      let only = find_only (has_id row.id) rows row (v.ids row.id) i (eq_refl row.id) in
      rw
        (
          find-update (has_id row.id) (has_id row.id) (claimed lease now worker) rows (λ r. refl),
          only,
          get,
        )
        (ground (arith, eq_refl row.id))

  -- On a table with unique ids a claim returns nothing and changes nothing exactly when no row can be
  -- claimed; otherwise it takes an oldest row that can be claimed, changes that row alone into one
  -- that the worker runs under a lease from now on, and returns the changed row.
  pub claim_next_cases :
      ((claim_next lease now worker rows ≡ (rows, none))
        × All (λ r. claimable lease now r ≡ false) rows)
      ⊎ ((row : Row) × IsNext lease now rows row
          × (claim_next lease now worker rows ≡ claim_of lease now worker row rows))
  unfolding claim_next
  claim_next_cases = elim (Option-cases (earliest (λ r. r.created_at) (claimable lease now) rows)) [
    | inl e ↦ inl (rw (e, claim_next), earliest-none (λ r. r.created_at) _ rows e)
    | inr (row, e) ↦
        let found = earliest-some (λ r. r.created_at) (claimable lease now) rows row e in
        inr (
          row,
          record { present = found.0; free = found.1; oldest = found.2 },
          rw (e, claim_next, get-claimed row found.0),
        )
  ]

  -- A claimed row cannot be claimed again at the same time.
  not-claimable-claimed : (r : Row) → claimable lease now (claimed lease now worker r) ≡ false
  unfolding claimable
  not-claimable-claimed r = ground arith

  -- On a table with unique ids each claim that returns a job lowers the number of rows that can be
  -- claimed at that time by exactly one, so no job is handed out twice at one time.
  pub count-claim_next :
      (j : DownloadJob)
      → (claim_next lease now worker rows).1 ≡ some j
      → count (claimable lease now) (claim_next lease now worker rows).0 + 1
        ≡ count (claimable lease now) rows
  count-claim_next j h = elim claim_next_cases [
    | inl (e, _) ↦ absurd (cc)
    | inr (row, n, e) ↦ rw e (
        count-update_one (claimable lease now) (has_id row.id) (claimed lease now worker) rows row
          (v.ids row.id) n.present (eq_refl row.id) n.free (not-claimable-claimed row))
  ]
