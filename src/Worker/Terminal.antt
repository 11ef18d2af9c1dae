-- ===== src/Worker/Terminal.antt =====
-- Any sequence of calls keeps the table well formed, and leaves a finished job alone.
use android_package_service.Base.{
  ℕ, String, ◌≡◌, refl, inl, inr, false, Option, none, some, List, [], ◌∷◌, arith, eq_refl, eq_iff,
  find, find-append, find-update, find-some, subst, find_only, Bool-cases, if◌then◌else◌,
}
use android_package_service.Domain.{AndroidPackageRequest}
use android_package_service.Jobs.{
  Row, KeyFields, has_id, is_active, claimable, claimed, claim_next, enqueue, new_row, request_key,
  renew_lease, mark_succeeded, mark_failed, owned_by, renewed, succeeded_row, failed_row,
}
use android_package_service.Jobs.Keys.{
  IsWellFormed, enqueue-IsWellFormed, claim_next-IsWellFormed, renew_lease-IsWellFormed,
  mark_succeeded-IsWellFormed, mark_failed-IsWellFormed,
}
use android_package_service.Jobs.Claims.{claim_next_cases}
use android_package_service.Worker.{
  Outcome, produced, all_failed, crashed, Call, enqueues, claims, renews, finishes, finish_job,
  step, run,
}

finish_job-IsWellFormed :
    (now : ℕ) (i worker : String) (o : Outcome) (rows : List Row)
    → IsWellFormed rows
    → IsWellFormed (finish_job now i worker o rows).0
unfolding finish_job
finish_job-IsWellFormed now i worker (produced a p) rows v =
    mark_succeeded-IsWellFormed now i a (some p) (some worker) rows v
finish_job-IsWellFormed now i worker (all_failed es) rows v =
    mark_failed-IsWellFormed now i _ (some es) (some worker) rows v
finish_job-IsWellFormed now i worker (crashed m) rows v =
    mark_failed-IsWellFormed now i m none (some worker) rows v

-- A row that a transaction does not insert, found by its id, after an enqueue.
pub find-enqueue :
    (dumps : KeyFields → String) (now : ℕ) (job_id : String) (q : AndroidPackageRequest)
    (request_id : Option String) (i : String) (rows : List Row) (r : Row)
    → find (has_id i) rows ≡ some r
    → find (has_id i) (enqueue dumps now job_id q request_id rows).0 ≡ some r
unfolding enqueue
find-enqueue dumps now job_id q request_id i rows r e =
    let x = new_row job_id (request_key dumps q) q request_id now in
    ground (arith, find-append (has_id i) rows (x ∷ []))

-- A claim leaves a row alone that cannot be claimed.
pub find-claim_next :
    (lease now : ℕ) (worker i : String) (rows : List Row) (r : Row)
    → IsWellFormed rows
    → find (has_id i) rows ≡ some r
    → claimable lease now r ≡ false
    → find (has_id i) (claim_next lease now worker rows).0 ≡ some r
find-claim_next lease now worker i rows r v e h = elim (claim_next_cases lease now worker rows v) [
  | inl (unchanged, _) ↦ rw unchanged e
  | inr (row, n, taken) ↦
      rw
        (
          taken,
          find-update (has_id i) (has_id row.id) (claimed lease now worker) rows (λ x. refl),
          e,
        )
        (elim (Bool-cases (has_id row.id r)) [
          | inr other ↦ ground arith
          | inl hit ↦
              let same : row.id ≡ i =
                ground (arith, find-some (has_id i) rows r e, eq_iff r.id row.id, eq_iff r.id i) in
              let only =
                find_only (has_id row.id) rows row (v.ids row.id) n.present (eq_refl row.id) in
              let one : find (has_id i) rows ≡ some row =
                subst (λ k. find (has_id k) rows ≡ some row) same only in
              let free = n.free in absurd (cc)
        ])
]

-- A report leaves a row alone that its worker does not hold.
pub find-finish_job :
    (now : ℕ) (j worker : String) (o : Outcome) (i : String) (rows : List Row) (r : Row)
    → find (has_id i) rows ≡ some r
    → owned_by j worker r ≡ false
    → find (has_id i) (finish_job now j worker o rows).0 ≡ some r
unfolding finish_job mark_succeeded mark_failed
find-finish_job now j worker (produced a p) i rows r e h =
    rw
      (
        find-update (has_id i) (owned_by j worker) (succeeded_row now a (some p)) rows (λ x. refl),
        e,
      )
      (ground arith)
find-finish_job now j worker (all_failed es) i rows r e h =
    rw (find-update (has_id i) (owned_by j worker) (failed_row now _ (some es)) rows (λ x. refl), e)
      (ground arith)
find-finish_job now j worker (crashed m) i rows r e h =
    rw (find-update (has_id i) (owned_by j worker) (failed_row now m none) rows (λ x. refl), e)
      (ground arith)

-- A renewal touches the row that its worker holds, and leaves any other alone.
pub find-renew_lease :
    (lease now : ℕ) (j worker i : String) (rows : List Row) (r : Row)
    → find (has_id i) rows ≡ some r
    → find (has_id i) (renew_lease lease now j worker rows).0
      ≡ some (if owned_by j worker r then renewed lease now r else r)
unfolding renew_lease
find-renew_lease lease now j worker i rows r e =
    rw (find-update (has_id i) (owned_by j worker) (renewed lease now) rows (λ x. refl), e)

module _ (dumps : KeyFields → String) (lease : ℕ) where
  pub step-IsWellFormed :
      (c : ℕ × Call) (rows : List Row) → IsWellFormed rows → IsWellFormed (step dumps lease c rows)
  unfolding step
  step-IsWellFormed (now, enqueues job_id q request_id) rows v =
      enqueue-IsWellFormed dumps now job_id q request_id rows v
  step-IsWellFormed (now, claims worker) rows v = claim_next-IsWellFormed lease now worker rows v
  step-IsWellFormed (now, renews i worker) rows v =
      renew_lease-IsWellFormed lease now i worker rows v
  step-IsWellFormed (now, finishes i worker o) rows v =
      finish_job-IsWellFormed now i worker o rows v

  -- From a well-formed table, whatever API processes and workers do and whatever the clocks say, ids
  -- stay unique and a request key has at most one queued or running job.
  pub run-IsWellFormed :
      (cs : List (ℕ × Call)) (rows : List Row)
      → IsWellFormed rows
      → IsWellFormed (run dumps lease cs rows)
  unfolding run
  run-IsWellFormed [] rows v = v
  run-IsWellFormed (c ∷ cs) rows v =
      run-IsWellFormed cs (step dumps lease c rows) (step-IsWellFormed c rows v)

  find_finished-step :
      (c : ℕ × Call) (i : String) (rows : List Row) (r : Row)
      → IsWellFormed rows
      → find (has_id i) rows ≡ some r
      → is_active r.status ≡ false
      → find (has_id i) (step dumps lease c rows) ≡ some r
  unfolding step
  find_finished-step (now, enqueues job_id q request_id) i rows r v e h =
      find-enqueue dumps now job_id q request_id i rows r e
  find_finished-step (now, claims worker) i rows r v e h =
      find-claim_next lease now worker i rows r v e (unfold claimable in ground arith)
  find_finished-step (now, renews j worker) i rows r v e h =
      rw (find-renew_lease lease now j worker i rows r e) (ground arith)
  find_finished-step (now, finishes j worker o) i rows r v e h =
      find-finish_job now j worker o i rows r e (ground arith)

  -- On a well-formed table a job that has succeeded or failed keeps its row, whatever is called later
  -- and however late its worker reports again.
  pub finished_forever :
      (cs : List (ℕ × Call)) (i : String) (rows : List Row) (r : Row)
      → IsWellFormed rows
      → find (has_id i) rows ≡ some r
      → is_active r.status ≡ false
      → find (has_id i) (run dumps lease cs rows) ≡ some r
  unfolding run
  finished_forever [] i rows r v e h = e
  finished_forever (c ∷ cs) i rows r v e h =
      finished_forever cs i (step dumps lease c rows) r (step-IsWellFormed c rows v)
        (find_finished-step c i rows r v e h) h
