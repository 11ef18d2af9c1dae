-- ===== src/Jobs/Fencing.antt =====
-- A worker that lost its job to another cannot change it any more.
use android_package_service.Base.{
  ℕ, String, ◌≡◌, refl, ◌≢◌, ◌≤◌, inl, inr, false, Option, some, List, arith, eq_iff, eq_refl,
  count, count_zero-found, update-none, find, find-update, find_only, Bool,
}
use android_package_service.Domain.{ProviderError}
use android_package_service.Jobs.{
  Row, DownloadJob, has_id, claimed, claim_next, owned_by, renew_lease, mark_succeeded, mark_failed,
}
use android_package_service.Jobs.Keys.{IsWellFormed, claim_next-IsWellFormed}
use android_package_service.Jobs.Claims.{claim_next_cases}

-- The worker holds no running row of that id.
abbrev pub IsFenced : String → String → List Row → Type 0
IsFenced i worker rows = count (owned_by i worker) rows ≡ 0

-- The three writes of a worker change nothing and report that.
pub record Ignored (rows : List Row) (r : List Row × Bool) : Type 0 where
  pub same : r.0 ≡ rows
  pub refused : r.1 ≡ false

module _ (i worker : String) (rows : List Row) (z : IsFenced i worker rows) where
  pub renew_lease-Ignored : (lease now : ℕ) → Ignored rows (renew_lease lease now i worker rows)
  unfolding renew_lease
  renew_lease-Ignored lease now = record { same = update-none _ _ rows z; refused = ground arith }

  pub mark_succeeded-Ignored :
      (now : ℕ) (artifact : String) (provider : Option String)
      → Ignored rows (mark_succeeded now i artifact provider (some worker) rows)
  unfolding mark_succeeded
  mark_succeeded-Ignored now artifact provider = record {
    same = update-none _ _ rows z;
    refused = ground arith;
  }

  pub mark_failed-Ignored :
      (now : ℕ) (message : String) (errors : Option (List ProviderError))
      → Ignored rows (mark_failed now i message errors (some worker) rows)
  unfolding mark_failed
  mark_failed-Ignored now message errors = record {
    same = update-none _ _ rows z;
    refused = ground arith;
  }

-- The row that a search finds decides whether the worker holds one.
IsFenced-found :
    (i worker : String) (rows : List Row) (r : Row)
    → count (has_id i) rows ≤ 1
    → find (has_id i) rows ≡ some r
    → owned_by i worker r ≡ false
    → IsFenced i worker rows
IsFenced-found i worker rows r u e o =
    count_zero-found (owned_by i worker) (has_id i) rows r (λ x miss. ground arith) u e o

IsFenced-claim_next :
    (lease now : ℕ) (a b : String) (rows : List Row) (j : DownloadJob)
    → IsWellFormed rows
    → (claim_next lease now b rows).1 ≡ some j
    → a ≢ b
    → IsFenced j.id a (claim_next lease now b rows).0
IsFenced-claim_next lease now a b rows j v h ne = elim (claim_next_cases lease now b rows v) [
  | inl (e, _) ↦ absurd (cc)
  | inr (row, n, e) ↦
      let same : row.id ≡ j.id = ground arith in
      let w = claim_next-IsWellFormed lease now b rows v in
      IsFenced-found j.id a (claim_next lease now b rows).0 (claimed lease now b row) (w.ids j.id)
        (rw
          (
            e,
            ← same,
            find-update (has_id row.id) (has_id row.id) (claimed lease now b) rows (λ r. refl),
            find_only (has_id row.id) rows row (v.ids row.id) n.present (eq_refl row.id),
          )
          (ground (arith, eq_refl row.id)))
        (ground (arith, eq_iff b a))
]

-- On a table with unique ids, once worker `b` has claimed a job, no renewal, success or failure that
-- another worker `a` reports for that job changes the table, and each returns false.
pub stale_worker-Ignored :
    (lease now : ℕ) (a b : String) (rows : List Row) (j : DownloadJob)
    → IsWellFormed rows
    → (claim_next lease now b rows).1 ≡ some j
    → a ≢ b
    → let rows' = (claim_next lease now b rows).0 in
      ((later : ℕ) → Ignored rows' (renew_lease lease later j.id a rows'))
      × ((later : ℕ) (artifact : String) (provider : Option String)
          → Ignored rows' (mark_succeeded later j.id artifact provider (some a) rows'))
      × ((later : ℕ) (message : String) (errors : Option (List ProviderError))
          → Ignored rows' (mark_failed later j.id message errors (some a) rows'))
stale_worker-Ignored lease now a b rows j v h ne =
    let rows' : List Row = (claim_next lease now b rows).0 in
    let z : IsFenced j.id a rows' = IsFenced-claim_next lease now a b rows j v h ne in
    (
      λ later. renew_lease-Ignored j.id a rows' z lease later,
      mark_succeeded-Ignored j.id a rows' z,
      mark_failed-Ignored j.id a rows' z,
    )
