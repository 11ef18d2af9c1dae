-- ===== src/Tests/Jobs.antt =====
-- Runs of app/download/jobs.py and app/download/worker.py.
use android_package_service.Base.{
  ℕ, ◌+◌, String, ◌≡◌, refl, ◌⊎◌, ◌≢◌, false, none, some, List, [], ◌∷◌, arith, count, find,
  earliest, update, eq_iff, any, All,
}
use android_package_service.Domain.{AndroidPackageRequest}
use android_package_service.Jobs.{
  Row, KeyFields, job, has_id, new_row, enqueue, claimable, claimed, claim_next, row_to_job,
  succeeded_row, mark_succeeded,
}
use android_package_service.Jobs.Keys.{IsWellFormed}
use android_package_service.Jobs.Claims.{IsNext, claim_of, claim_next_cases, count-claim_next}
use android_package_service.Jobs.Fencing.{Ignored, stale_worker-Ignored}
use android_package_service.Worker.{
  Call, enqueues, claims, renews, finishes, produced, crashed, finish_job, run,
  download_job_stale_result_ignored,
}
use android_package_service.Worker.Terminal.{run-IsWellFormed, finished_forever}
use android_package_service.Worker.Leases.{Within, holder_reports}

abbrev dumps : KeyFields → String
dumps k = k.package_name

abbrev game : AndroidPackageRequest
game = record {
  package_name = "com.example.game";
  version_code = some 100;
  version_name = none;
  preferred_provider = none;
}

abbrev first_row : Row
first_row = new_row "a1" "com.example.game" game none 10

abbrev table : List Row
table = first_row ∷ []

-- The first request makes a queued job.
enqueue_first : enqueue dumps 10 "a1" game none [] ≡ (table, job (some (row_to_job first_row)))
unfolding enqueue earliest any find
enqueue_first = refl

table-IsWellFormed : IsWellFormed table
unfolding count
table-IsWellFormed = record { ids = λ i. ground arith; keys = λ k. ground arith }

abbrev claimed_row : Row
claimed_row = claimed 60 20 "w1" first_row

claim_first : claim_next 60 20 "w1" table ≡ (claimed_row ∷ [], some (row_to_job claimed_row))
unfolding claim_next earliest claimable update find
claim_first = refl

-- Within the lease nobody gets the job; after it, another worker does.
claim_again :
    ((claim_next 60 80 "w2" (claimed_row ∷ [])).1 ≡ none)
    × ((claim_next 60 81 "w2" (claimed_row ∷ [])).1
        ≡ some (row_to_job (claimed 60 81 "w2" claimed_row)))
unfolding claim_next claimable earliest find update
claim_again = (refl, refl)

claim_next_cases_example :
    ((claim_next 60 20 "w1" table ≡ (table, none)) × All (λ r. claimable 60 20 r ≡ false) table)
    ⊎ ((row : Row) × IsNext 60 20 table row
        × (claim_next 60 20 "w1" table ≡ claim_of 60 20 "w1" row table))
claim_next_cases_example = claim_next_cases 60 20 "w1" table table-IsWellFormed

count-claim_next_example :
    count (claimable 60 20) (claim_next 60 20 "w1" table).0 + 1 ≡ count (claimable 60 20) table
unfolding claim_next earliest claimable find update
count-claim_next_example =
    count-claim_next 60 20 "w1" table table-IsWellFormed (row_to_job claimed_row) refl

w1-ne-w2 : ◌≢◌ {A = String} "w1" "w2"
w1-ne-w2 = ground (arith, eq_iff "w1" "w2")

stale_worker-Ignored_example :
    Ignored
      (claim_next 60 20 "w2" table).0
      (mark_succeeded 30 "a1" "p/a.apk" none (some "w1") (claim_next 60 20 "w2" table).0)
unfolding claim_next earliest claimable find update
stale_worker-Ignored_example =
    (stale_worker-Ignored 60 20 "w1" "w2" table (row_to_job (claimed 60 20 "w2" first_row))
        table-IsWellFormed refl w1-ne-w2).1
      30 "p/a.apk" none

abbrev history : List (ℕ × Call)
history = (20, claims "w1") ∷ (30, renews "a1" "w1") ∷ (40, enqueues "b2" game none) ∷ []

run-IsWellFormed_example : IsWellFormed (run dumps 60 history table)
run-IsWellFormed_example = run-IsWellFormed dumps 60 history table table-IsWellFormed

abbrev done_row : Row
done_row = succeeded_row 40 "aptoide/p/1/a.apk" (some "aptoide") claimed_row

done-IsWellFormed : IsWellFormed (done_row ∷ [])
unfolding count
done-IsWellFormed = record { ids = λ i. ground arith; keys = λ k. ground arith }

finished_forever_example :
    find
      (has_id "a1")
      (run dumps 60 ((50, finishes "a1" "w1" (crashed "late")) ∷ []) (done_row ∷ []))
    ≡ some done_row
unfolding find
finished_forever_example =
    finished_forever dumps 60 ((50, finishes "a1" "w1" (crashed "late")) ∷ []) "a1" (done_row ∷ [])
      done_row done-IsWellFormed refl refl

abbrev others : List (ℕ × Call)
others = (25, claims "w2") ∷ (70, renews "a1" "w1") ∷ (80, claims "w3") ∷ []

others-Within : All (Within 60 80 "a1" "w1") others
others-Within = (
  record { started = omega arith; early = omega arith; no_report = λ o. cc },
  (
    record { started = omega arith; early = omega arith; no_report = λ o. cc },
    (record { started = omega arith; early = omega arith; no_report = λ o. cc }, tt),
  ),
)

holder_reports_example :
    (finish_job 100 "a1" "w1"
      (produced "aptoide/p/1/a.apk" "aptoide")
      (run dumps 60 others (claim_next 60 20 "w1" table).0)).1
    ≢ download_job_stale_result_ignored
unfolding claim_next earliest claimable find update
holder_reports_example =
    (holder_reports dumps 60 20 100 "w1" table (row_to_job claimed_row) others
      (produced "aptoide/p/1/a.apk" "aptoide") table-IsWellFormed refl others-Within).1
