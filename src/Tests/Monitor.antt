-- ===== src/Tests/Monitor.antt =====
-- Runs of app/api/monitor.py.
use android_package_service.Base.{
  ℕ, ◌+◌, ◌-◌, ◌*◌, ◌/◌, String, ◌≡◌, refl, Option, none, some, List, [], ◌∷◌, arith, map, select,
  update,
}
use android_package_service.Domain.{ProviderError, not_found}
use android_package_service.Manifest.{get_elem?}
use android_package_service.Jobs.{Row, Status, succeeded, failed}
use android_package_service.Monitor.{
  provider_from_artifact, providers, daily_series, window_jobs, analytics, Floats, percentile,
  day_length, empty_days, fill_days, add_rows, sort_by, insert_by, change_item, add_errors,
  count_name, after_artifacts,
}
use android_package_service.Monitor.Agreement.{
  IsConsistent, IsBalanced, analytics-IsConsistent, providers-IsBalanced,
}

abbrev tenths : ℕ → ℕ
tenths us = us / 100

-- A job of the package, made at the time and ended after some seconds.
abbrev finished_row : String → Status → ℕ → ℕ → Option (List ProviderError) → Row
finished_row p status created seconds errors = record {
  id = p;
  request_key = p;
  package_name = p;
  version_code = some 1;
  version_name = none;
  provider = none;
  status = status;
  artifact_path = none;
  succeeded_provider = some "aptoide";
  error = none;
  provider_errors = errors;
  request_id = none;
  worker = none;
  lease_expires = none;
  created_at = created;
  updated_at = created;
  started_at = some created;
  finished_at = some (created + seconds * 1000000);
}

abbrev missing : ProviderError
missing = record { provider = "apkpure"; error = not_found; message = "nothing" }

-- Two jobs of the eleventh day, one of the tenth and one that is too old for a window of two days.
abbrev week : List Row
week =
    finished_row "a" succeeded 864000000005 4 none
    ∷ finished_row "b" failed 864000000007 1 (some (missing ∷ missing ∷ []))
    ∷ finished_row "a" succeeded 777600000009 700 none
    ∷ finished_row "c" succeeded 600000000000 9 none
    ∷ []

abbrev now : ℕ
now = 864000500000

daily_series_two :
    map {B = ℕ × ℕ × ℕ × ℕ}
      (λ d. (d.date, d.total, d.succeeded, d.failed))
      (daily_series (window_jobs now 2 week) now 2)
    ≡ ((9, 1, 1, 0) ∷ (10, 2, 1, 1) ∷ [])
unfolding daily_series window_jobs empty_days fill_days day_length select update
daily_series_two = refl

-- The numbers are hundredths, and the rounding is exact.
abbrev hundredths : Floats ℕ
hundredths = record {
  nat = λ n. n * 100;
  tenth = λ v. v * 100;
  plus = λ a b. a + b;
  minus = λ a b. a - b;
  times = λ a b. a * b / 100;
  floor = λ a. a / 100;
  ceil = λ a. (a + 99) / 100;
  half = 50;
  nine_tenths = 90;
  nineteen_twentieths = 95;
}

percentile_middle : percentile hundredths (10 ∷ 20 ∷ 30 ∷ 50 ∷ []) 50 ≡ some 2500
unfolding percentile get_elem?
percentile_middle = refl

providers_week :
    map {B = String × ℕ × ℕ}
      (λ i. (i.provider, i.successes, i.failures))
      (providers (λ r. r.succeeded_provider) week)
    ≡ (("aptoide", 3, 0) ∷ ("apkpure", 0, 2) ∷ [])
unfolding providers add_rows sort_by insert_by change_item add_errors count_name
providers_week = refl

provider_from_artifact_below :
    provider_from_artifact
      (λ t. "data" ∷ "artifacts" ∷ "aptoide" ∷ "a" ∷ [])
      none
      (some "data/artifacts/aptoide/a")
    ≡ some "aptoide"
unfolding provider_from_artifact after_artifacts
provider_from_artifact_below = refl

analytics-IsConsistent_example :
    IsConsistent (analytics hundredths tenths (window_jobs now 2 week) now 2)
unfolding day_length
analytics-IsConsistent_example =
    analytics-IsConsistent hundredths tenths now 2 week (omega arith) (omega arith)
      (omega arith, (omega arith, (omega arith, (omega arith, tt))))

providers-IsBalanced_example :
    IsBalanced (λ r. r.succeeded_provider) week (providers (λ r. r.succeeded_provider) week)
providers-IsBalanced_example = providers-IsBalanced (λ r. r.succeeded_provider) week
