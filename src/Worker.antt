-- ===== src/Worker.antt =====
-- app/download/worker.py: what a slot of the download worker does to the job table, and the calls of
-- all slots and of the API as one sequence. The download itself is the caller's `Outcome`; sleeping,
-- the event loop and logging are not modelled, but the name of the last log event is the result.
pub mod Leases
pub mod Terminal
use android_package_service.Base.{ℕ, String, Bool, Option, none, some, List, [], ◌∷◌, if◌then◌else◌}
use android_package_service.Domain.{ProviderError, AndroidPackageRequest}
use android_package_service.Jobs.{
  Row, KeyFields, enqueue, claim_next, renew_lease, mark_succeeded, mark_failed,
}

-- How `orchestrator.download` ends: an artifact and its provider, AggregateProviderError, or any
-- other exception with its text.
pub data Outcome : Type 0 where
  produced : String → String → Outcome
  all_failed : List ProviderError → Outcome
  crashed : String → Outcome

pub data Event : Type 0 where
  download_job_succeeded download_job_failed download_job_stale_result_ignored : Event

-- The rest of `run_job`, from the end of the download on; `str(AggregateProviderError)` is constant.
unfoldable pub finish_job : ℕ → String → String → Outcome → List Row → List Row × Event
finish_job now i worker (produced artifact provider) rows =
    let r = mark_succeeded now i artifact (some provider) (some worker) rows in
    (r.0, if r.1 then download_job_succeeded else download_job_stale_result_ignored)
finish_job now i worker (all_failed errors) rows =
    let r = mark_failed now i "All providers failed." (some errors) (some worker) rows in
    (r.0, if r.1 then download_job_failed else download_job_stale_result_ignored)
finish_job now i worker (crashed message) rows =
    let r = mark_failed now i message none (some worker) rows in
    (r.0, if r.1 then download_job_failed else download_job_stale_result_ignored)

-- The transactions that the API process and the slots of all workers run on the table.
pub data Call : Type 0 where
  enqueues : String → AndroidPackageRequest → Option String → Call
  claims : String → Call
  renews : String → String → Call
  finishes : String → String → Outcome → Call

module _ (dumps : KeyFields → String) (lease : ℕ) where
  unfoldable pub step : ℕ × Call → List Row → List Row
  unfolding finish_job
  step (now, enqueues job_id q request_id) rows = (enqueue dumps now job_id q request_id rows).0
  step (now, claims worker) rows = (claim_next lease now worker rows).0
  step (now, renews i worker) rows = (renew_lease lease now i worker rows).0
  step (now, finishes i worker o) rows = (finish_job now i worker o rows).0

  unfoldable pub run : List (ℕ × Call) → List Row → List Row
  run [] rows = rows
  run (c ∷ cs) rows = run cs (step c rows)
