-- ===== src/Tests/Orchestrator.antt =====
-- Runs of app/catalog/orchestrator.py and app/providers/factory.py.
use android_package_service.Base.{
  ℕ, suc, ◌≤◌, String, ◌≡◌, refl, ◌⊎◌, inl, true, none, some, List, [], ◌∷◌, arith, length,
  if◌then◌else◌, ◌==◌, ltb, any, find,
}
use android_package_service.Domain.{
  ErrorCode, network_error, not_found, ProviderError, AndroidPackageRequest, DownloadPlan,
}
use android_package_service.Ledger.{Entry}
use android_package_service.Completion.{complete, fill, lock_version_key, lookup_name}
use android_package_service.Completion.Facts.{request, lock_version_key_shared}
use android_package_service.Orchestrator.{
  returned, provider_exception, exception, Provider, Downloader, insert_provider, by_priority,
  resolve, version_key, probe_all, existing_artifact, attempt, attempts, artifact, aggregate_error,
  try_providers, download,
}
use android_package_service.Orchestrator.Retries.{
  is_network_failure, after_attempts, IsDown, attempts_cases,
}
use android_package_service.Orchestrator.Fallback.{
  HaveFailed, Stops, GivesUp, try_providers_cases, download_errors,
}

-- Every code prints as "7".
abbrev str : ℕ → String
str c = "7"

abbrev asked : AndroidPackageRequest
asked = request "p" (some 7) none none

abbrev plan_of : String → DownloadPlan
plan_of s = record {
  package_name = "p";
  app_name = "p";
  version_name = some "1.7";
  version_code = some 7;
  provider = s;
  files = [];
}

abbrev failure : String → ErrorCode → ProviderError
failure s c = record { provider = s; error = c; message = "" }

-- The state counts the plans that were asked for; the first two meet a network error.
abbrev flaky : Provider ℕ
flaky = record {
  id = "flaky";
  priority = 10;
  get_download_plan = λ q w. (
    suc w,
    if ltb w 2
        then provider_exception (failure "flaky" network_error)
        else returned (plan_of "flaky"),
  );
}

abbrev empty_handed : Provider ℕ
empty_handed = record {
  id = "none";
  priority = 20;
  get_download_plan = λ q w. (suc w, provider_exception (failure "none" not_found));
}

abbrev down : Provider ℕ
down = record {
  id = "down";
  priority = 5;
  get_download_plan = λ q w. (suc w, provider_exception (failure "down" network_error));
}

-- Only the provider "kept" has an artifact.
abbrev downloader : Downloader ℕ
downloader = record {
  existing = λ plan w. if plan.provider == "kept" then some "kept.apk" else none;
  download = λ plan lock w. (w, returned "new.apk");
}

abbrev kept : Provider ℕ
kept = record {
  id = "kept";
  priority = 1;
  get_download_plan = λ q w. (suc w, exception "unreachable");
}

abbrev fact : Entry
fact = record {
  package_name = "p";
  version_name = "1.7";
  version_code = 7;
  source = none;
  first_seen_at = 0;
}

abbrev facts : List Entry
facts = fact ∷ []

-- The provider of the higher priority fails once, the other is asked three times.
falls_back :
    download str downloader facts [] (flaky ∷ empty_handed ∷ []) asked 0
    ≡ (3, artifact "new.apk" "flaky")
unfolding download resolve by_priority insert_provider complete fill lookup_name try_providers
    existing_artifact probe_all attempts attempt version_key any find
falls_back = refl

gives_up :
    download str downloader facts [] (down ∷ empty_handed ∷ []) asked 0
    ≡ (5, aggregate_error (failure "none" not_found ∷ failure "down" network_error ∷ []))
unfolding download resolve by_priority insert_provider complete fill lookup_name try_providers
    existing_artifact probe_all attempts attempt version_key any find
gives_up = refl

attempts_cases_example :
    (k : ℕ) × (k ≤ 3)
    × IsDown downloader flaky asked none k 0
    × (attempts downloader 3 flaky asked none 0
        ≡ attempt downloader flaky asked none (after_attempts downloader flaky asked none k 0))
    × (is_network_failure (attempts downloader 3 flaky asked none 0).1 ≡ true → k ≡ 3)
attempts_cases_example = attempts_cases downloader flaky asked none 3 0

abbrev both : List (Provider ℕ)
both = empty_handed ∷ flaky ∷ []

try_providers_cases_example :
    let result = try_providers str downloader 3 both asked none [] 0 in
    GivesUp str downloader 3 asked none both [] 0 result
    ⊎ Stops str downloader 3 asked none both 0 result
try_providers_cases_example = try_providers_cases str downloader 3 asked none both [] 0

abbrev failures : List ProviderError
failures = failure "none" not_found ∷ failure "down" network_error ∷ []

download_errors_example :
    (length failures ≡ 2)
    × ((w : ℕ) × HaveFailed str downloader 3
          (complete facts [] asked)
          (lock_version_key str (complete facts [] asked))
          (empty_handed ∷ down ∷ [])
          0
          failures
          w)
unfolding download resolve by_priority insert_provider complete fill lookup_name try_providers
    existing_artifact probe_all attempts attempt version_key any find
download_errors_example =
    download_errors str downloader facts [] (down ∷ empty_handed ∷ []) asked 0
      (empty_handed ∷ down ∷ []) failures refl refl

abbrev only_kept : AndroidPackageRequest
only_kept = request "p" (some 7) none (some "kept")

lock_version_key_shared_example :
    (lock_version_key str (complete facts [] (request "p" none (some "1.7") none)) ≡ some "7")
    × (lock_version_key str (complete facts [] (request "p" (some 7) none none)) ≡ some "7")
lock_version_key_shared_example =
    lock_version_key_shared str facts [] "p" "1.7" fact none (inl refl) refl
      ((λ h. omega arith), tt)
