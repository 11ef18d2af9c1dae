-- ===== src/Jobs/Keys.antt =====
-- Identity of jobs: ids are unique, and a request has one active job at most, after any history.
use android_package_service.Base.{
  ℕ, ◌≤◌, String, ◌≡◌, refl, ap, Bool, true, ◌==◌, inl, inr, eq_refl, All-map, le_trans, Option,
  some, List, [], ◌∷◌, arith, eq_iff, count, update, earliest, All-of, count-append,
  count-update-le, count-update-eq, count-any, only_row, earliest-some, Option-cases,
}
use android_package_service.Domain.{AndroidPackageRequest, ProviderError}
use android_package_service.Jobs.{
  Row, KeyFields, is_active, has_id, active_for, insert, new_row, request_key, enqueue, claimable,
  claimed, claim_next, renew_lease, mark_succeeded, mark_failed,
}

pub record IsWellFormed (rows : List Row) : Type 0 where
  pub ids : (i : String) → count (has_id i) rows ≤ 1
  pub keys : (k : String) → count (active_for k) rows ≤ 1

pub IsWellFormed-nil : IsWellFormed []
unfolding count
IsWellFormed-nil = record { ids = λ i. omega arith; keys = λ k. omega arith }

-- An insertion that the two unique indexes admit.
insert-IsWellFormed :
    (r : Row) (rows rows' : List Row)
    → IsWellFormed rows
    → insert r rows ≡ some rows'
    → IsWellFormed rows'
unfolding count
insert-IsWellFormed r rows rows' v h = record {
  ids = λ i. ground (
    arith,
    v.ids i,
    eq_iff r.id i,
    count-append (has_id i) rows (r ∷ []),
    count-any (has_id r.id) rows,
  );
  keys = λ k. ground (
    arith,
    v.keys k,
    eq_iff r.request_key k,
    count-append (active_for k) rows (r ∷ []),
    count-any (active_for r.request_key) rows,
  );
}

module _ (dumps : KeyFields → String) (now : ℕ) (job_id : String) (q : AndroidPackageRequest) where
  pub enqueue-IsWellFormed :
      (request_id : Option String) (rows : List Row)
      → IsWellFormed rows
      → IsWellFormed (enqueue dumps now job_id q request_id rows).0
  unfolding enqueue
  enqueue-IsWellFormed request_id rows v =
      elim (Option-cases (earliest (λ r. r.created_at) (active_for (request_key dumps q)) rows)) [
        | inr (row, e) ↦ rw (e, enqueue) v
        | inl e ↦
            let r = new_row job_id (request_key dumps q) q request_id now in
            elim (Option-cases (insert r rows)) [
              | inl full ↦ rw (e, full, enqueue) v
              | inr (rows', fits) ↦ rw (e, fits, enqueue) (insert-IsWellFormed r rows rows' v fits)
            ]
      ]

-- A row that can be claimed is active.
claimable-active :
    (lease now : ℕ) (r : Row) → claimable lease now r ≡ true → is_active r.status ≡ true
unfolding claimable
claimable-active lease now r h = ground arith

pub claim_next-IsWellFormed :
    (lease now : ℕ) (worker : String) (rows : List Row)
    → IsWellFormed rows
    → IsWellFormed (claim_next lease now worker rows).0
unfolding claim_next
claim_next-IsWellFormed lease now worker rows v =
    elim (Option-cases (earliest (λ r. r.created_at) (claimable lease now) rows)) [
      | inl e ↦ rw (e, claim_next) v
      | inr (row, e) ↦
          let found = earliest-some (λ r. r.created_at) (claimable lease now) rows row e in
          let active =
            only_row (has_id row.id) (λ r. is_active r.status ≡ true) rows row (v.ids row.id)
              found.0 (eq_refl row.id) (claimable-active lease now row found.1) in
          rw (e, claim_next)
            (record {
              ids = λ i.
                  rw
                    (count-update-eq (has_id i) (has_id row.id) (claimed lease now worker) rows
                      (All-of _ (λ r _. refl) rows))
                    (v.ids i);
              keys = λ k. omega (
                arith,
                v.keys k,
                count-update-le (active_for k) (has_id row.id) (claimed lease now worker) rows
                    (All-map _ _ (λ r h same. ground arith) rows active),
              );
            })
    ]

module _ (p : Row → Bool) (f : Row → Row) (rows : List Row) where
  -- A change that keeps the id and the key of every row, and makes no row active.
  update-IsWellFormed :
      ((r : Row) → (f r).id ≡ r.id)
      → ((k : String) (r : Row) → p r ≡ true → active_for k (f r) ≡ true → active_for k r ≡ true)
      → IsWellFormed rows
      → IsWellFormed (update p f rows)
  update-IsWellFormed same quiet v = record {
    ids = λ i.
        rw (count-update-eq (has_id i) p f rows (All-of _ (λ r _. ap (λ j. j == i) (same r)) rows))
          (v.ids i);
    keys = λ k.
        le_trans (count-update-le (active_for k) p f rows (All-of _ (quiet k) rows)) (v.keys k);
  }

pub renew_lease-IsWellFormed :
    (lease now : ℕ) (i worker : String) (rows : List Row)
    → IsWellFormed rows
    → IsWellFormed (renew_lease lease now i worker rows).0
unfolding renew_lease
renew_lease-IsWellFormed lease now i worker rows =
    update-IsWellFormed _ _ rows (λ r. refl) (λ k r _ h. h)

pub mark_succeeded-IsWellFormed :
    (now : ℕ) (i artifact : String) (provider worker : Option String) (rows : List Row)
    → IsWellFormed rows
    → IsWellFormed (mark_succeeded now i artifact provider worker rows).0
unfolding mark_succeeded
mark_succeeded-IsWellFormed now i artifact provider worker rows =
    update-IsWellFormed _ _ rows (λ r. refl) (λ k r _ h. ground arith)

pub mark_failed-IsWellFormed :
    (now : ℕ) (i message : String) (errors : Option (List ProviderError)) (worker : Option String)
    (rows : List Row)
    → IsWellFormed rows
    → IsWellFormed (mark_failed now i message errors worker rows).0
unfolding mark_failed
mark_failed-IsWellFormed now i message errors worker rows =
    update-IsWellFormed _ _ rows (λ r. refl) (λ k r _ h. ground arith)
