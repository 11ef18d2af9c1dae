-- ===== src/Jobs.antt =====
-- app/download/jobs.py and the table `download_jobs` of app/catalog/store.py.
-- A time is the number of microseconds since the epoch: the program stores ISO 8601 texts in UTC,
-- whose order as texts is the order of the instants. `json.dumps` of the four fields of a request key
-- is the parameter `dumps`; the column `provider_errors` holds the list that its JSON text encodes.
-- A method is one transaction on the rows of the table: it returns the new rows and its result.
mod Table
pub mod Keys
pub mod Enqueue
pub mod Claims
pub mod Fencing
pub use Table.*
pub use Table.{queued, running, succeeded, failed}
use android_package_service.Base.{
  ℕ, ◌+◌, ◌-◌, String, Bool, true, false, ◌&&◌, ◌||◌, Option, none, some, List, [], ◌∷◌, ◌++◌, ◌==◌,
  if◌then◌else◌, ltb, coalesce, before, holds_text, find, any, count, update, earliest,
}
use android_package_service.Domain.{ProviderError, AndroidPackageRequest}

unfoldable pub get : String → List Row → Option DownloadJob
get i rows = elim (find (has_id i) rows) [ none ↦ none | some r ↦ some (row_to_job r) ]

-- What a call of `enqueue` does: it returns a job, or it raises.
pub data Enqueued : Type 0 where
  job : Option DownloadJob → Enqueued
  integrity_error : Enqueued

-- `job_id` is the fresh `uuid4().hex`.
unfoldable pub enqueue :
    (KeyFields → String)
    → ℕ
    → String
    → AndroidPackageRequest
    → Option String
    → List Row
    → List Row × Enqueued
unfolding get
enqueue dumps now job_id q request_id rows =
    let key = request_key dumps q in
    elim (earliest (λ r. r.created_at) (active_for key) rows) [
      | some row ↦ (rows, job (some (row_to_job row)))
      | none ↦ elim (insert (new_row job_id key q request_id now) rows) [
        | none ↦ (rows, integrity_error)
        | some rows' ↦ (rows', job (get job_id rows'))
      ]
    ]

-- Queued, or running with an expired lease or no sign of life for a whole lease.
unfoldable pub claimable : ℕ → ℕ → Row → Bool
claimable lease now r =
    is_queued r.status
    || (is_running r.status
        && (before r.lease_expires now
            || before (coalesce (some r.updated_at) (coalesce r.started_at (some r.created_at)))
                (now - lease)))

abbrev pub claimed : ℕ → ℕ → String → Row → Row
claimed lease now worker r = record r {
  status = running;
  worker = some worker;
  lease_expires = some (now + lease);
  started_at = coalesce r.started_at (some now);
  updated_at = now;
}

unfoldable pub claim_next : ℕ → ℕ → String → List Row → List Row × Option DownloadJob
unfolding get
claim_next lease now worker rows = elim (earliest (λ r. r.created_at) (claimable lease now) rows) [
  | none ↦ (rows, none)
  | some row ↦
      let rows' = update (has_id row.id) (claimed lease now worker) rows in
      (rows', get row.id rows')
]

-- `result.rowcount > 0`
abbrev pub touched : (Row → Bool) → List Row → Bool
touched p rows = ltb 0 (count p rows)

-- `WHERE id = ? AND status = 'running' AND worker = ?`
abbrev pub owned_by : String → String → Row → Bool
owned_by i worker r = r.id == i && (is_running r.status && holds_text r.worker worker)

-- `WHERE id = ?`, with the guard on the worker where one is given.
abbrev pub marked : String → Option String → Row → Bool
marked i none r = r.id == i
marked i (some worker) r = owned_by i worker r

abbrev pub renewed : ℕ → ℕ → Row → Row
renewed lease now r = record r { lease_expires = some (now + lease); updated_at = now }

unfoldable pub renew_lease : ℕ → ℕ → String → String → List Row → List Row × Bool
renew_lease lease now i worker rows =
    (update (owned_by i worker) (renewed lease now) rows, touched (owned_by i worker) rows)

abbrev pub succeeded_row : ℕ → String → Option String → Row → Row
succeeded_row now artifact provider r = record r {
  status = succeeded;
  artifact_path = some artifact;
  succeeded_provider = provider;
  error = none;
  provider_errors = none;
  lease_expires = none;
  updated_at = now;
  finished_at = some now;
}

unfoldable pub mark_succeeded :
    ℕ → String → String → Option String → Option String → List Row → List Row × Bool
mark_succeeded now i artifact provider worker rows = (
  update (marked i worker) (succeeded_row now artifact provider) rows,
  touched (marked i worker) rows,
)

-- No errors, or an empty list of them, are stored as NULL.
abbrev pub encoded_errors : Option (List ProviderError) → Option (List ProviderError)
encoded_errors none = none
encoded_errors (some []) = none
encoded_errors (some (e ∷ es)) = some (e ∷ es)

abbrev pub failed_row : ℕ → String → Option (List ProviderError) → Row → Row
failed_row now message errors r = record r {
  status = failed;
  error = some message;
  provider_errors = encoded_errors errors;
  lease_expires = none;
  updated_at = now;
  finished_at = some now;
}

unfoldable pub mark_failed :
    ℕ → String → String → Option (List ProviderError) → Option String → List Row → List Row × Bool
mark_failed now i message errors worker rows =
    (update (marked i worker) (failed_row now message errors) rows, touched (marked i worker) rows)
