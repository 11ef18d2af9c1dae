-- ===== src/Jobs/Enqueue.antt =====
-- `enqueue` joins a request to the active job of its key, or adds one new job.
use android_package_service.Base.{
  ℕ, String, ◌≡◌, refl, ◌⊎◌, inl, inr, true, Bool, Option, none, some, List, [], ◌∷◌, ◌++◌, arith,
  eq_refl, In, count, count_zero-any, count-zero, find, find-append, earliest, earliest-some,
  earliest-none, Option-cases,
}
use android_package_service.Domain.{AndroidPackageRequest}
use android_package_service.Jobs.{
  Row, KeyFields, has_id, active_for, insert, new_row, request_key, enqueue, job, row_to_job, get,
}

find-count : (p : Row → Bool) (rows : List Row) → count p rows ≡ 0 → find p rows ≡ none
unfolding find count
find-count p [] h = refl
find-count p (r ∷ rs) h = ground (arith, find-count p rs)

earliest-append :
    (p : Row → Bool) (rows : List Row) (x : Row)
    → count p rows ≡ 0
    → p x ≡ true
    → earliest (λ r. r.created_at) p (rows ++ x ∷ []) ≡ some x
unfolding earliest count
earliest-append p [] x h t = ground arith
earliest-append p (r ∷ rs) x h t = ground (arith, earliest-append p rs x)

insert-fresh :
    (x : Row) (rows : List Row)
    → count (has_id x.id) rows ≡ 0
    → count (active_for x.request_key) rows ≡ 0
    → insert x rows ≡ some (rows ++ x ∷ [])
insert-fresh x rows fresh idle = ground (
  arith,
  count_zero-any (has_id x.id) rows fresh,
  count_zero-any (active_for x.request_key) rows idle,
)

pub get-added :
    (x : Row) (rows : List Row)
    → count (has_id x.id) rows ≡ 0
    → get x.id (rows ++ x ∷ []) ≡ some (row_to_job x)
unfolding get find
get-added x rows fresh =
    rw (find-append (has_id x.id) rows (x ∷ []), find-count (has_id x.id) rows fresh, get)
      (ground (arith, eq_refl x.id))

module _ (dumps : KeyFields → String) (now : ℕ) (job_id : String) (q : AndroidPackageRequest)
    (request_id : Option String) (rows : List Row) where
  abbrev key : String
  key = request_key dumps q

  abbrev added : Row
  added = new_row job_id key q request_id now

  enqueue_joined :
      (row : Row)
      → earliest (λ r. r.created_at) (active_for key) rows ≡ some row
      → enqueue dumps now job_id q request_id rows ≡ (rows, job (some (row_to_job row)))
  unfolding enqueue
  enqueue_joined row e = rw (e, enqueue)

  enqueue-added :
      earliest (λ r. r.created_at) (active_for key) rows ≡ none
      → count (has_id job_id) rows ≡ 0
      → enqueue dumps now job_id q request_id rows
        ≡ (rows ++ added ∷ [], job (some (row_to_job added)))
  unfolding enqueue
  enqueue-added e fresh =
      let idle =
        count-zero (active_for key) rows
          (earliest-none (λ r. r.created_at) (active_for key) rows e) in
      rw (e, insert-fresh added rows fresh idle, get-added added rows fresh, enqueue)

  -- With an id that no row has, `enqueue` never raises. If a job of the same request key is queued or
  -- running, it returns that one and leaves the table; if none is, it appends one queued job of that
  -- request and returns it.
  pub enqueue_cases :
      count (has_id job_id) rows ≡ 0
      → ((row : Row) × In row rows
          × (active_for (request_key dumps q) row ≡ true)
          × (enqueue dumps now job_id q request_id rows ≡ (rows, job (some (row_to_job row)))))
        ⊎ ((count (active_for (request_key dumps q)) rows ≡ 0)
            × (enqueue dumps now job_id q request_id rows ≡ (
              rows ++ new_row job_id (request_key dumps q) q request_id now ∷ [],
              job (some (row_to_job (new_row job_id (request_key dumps q) q request_id now))),
            )))
  enqueue_cases fresh = elim (Option-cases (earliest (λ r. r.created_at) (active_for key) rows)) [
    | inr (row, e) ↦
        let found = earliest-some (λ r. r.created_at) (active_for key) rows row e in
        inl (row, found.0, found.1, enqueue_joined row e)
    | inl e ↦ inr (
      count-zero (active_for key) rows (earliest-none (λ r. r.created_at) (active_for key) rows e),
      enqueue-added e fresh,
    )
  ]

-- A second request with the same key returns the job of the first and leaves the table, under
-- whatever id and time it comes, if the first came with an id that no row has.
pub enqueue-enqueue :
    (dumps : KeyFields → String) (now later : ℕ) (job_id other_id : String)
    (q q' : AndroidPackageRequest) (request_id other_request : Option String) (rows : List Row)
    → count (has_id job_id) rows ≡ 0
    → request_key dumps q' ≡ request_key dumps q
    → let first = enqueue dumps now job_id q request_id rows in
      enqueue dumps later other_id q' other_request first.0 ≡ first
enqueue-enqueue dumps now later job_id other_id q q' request_id other_request rows fresh same =
    elim (Option-cases (earliest (λ r. r.created_at) (active_for (request_key dumps q)) rows)) [
      | inr (row, e) ↦
          rw (enqueue_joined dumps now job_id q request_id rows row e)
            (enqueue_joined dumps later other_id q' other_request rows row (rw same e))
      | inl e ↦
          let new : Row = new_row job_id (request_key dumps q) q request_id now in
          rw (enqueue-added dumps now job_id q request_id rows e fresh) (
            enqueue_joined dumps later other_id q' other_request (rows ++ new ∷ []) new (
              rw same (
                earliest-append (active_for (request_key dumps q)) rows new
                  (count-zero (active_for (request_key dumps q)) rows
                    (earliest-none (λ r. r.created_at) (active_for (request_key dumps q)) rows e))
                  (ground (arith, eq_refl (request_key dumps q))))))
    ]
