-- ===== src/Tests/Api.antt =====
-- Runs of app/api/routes.py and app/api/errors.py.
use Prim.Native.String.{String}
use android_package_service.Base.{
  ℕ, ◌≡◌, ◌≢◌, ◌↔◌, refl, true, none, some, Option, List, [], ◌∷◌, ◌⊎◌, inr, count, find, any, All,
}
use android_package_service.Domain.{AndroidPackageRequest, ProviderError, not_found, network_error}
use android_package_service.Orchestrator.{Downloaded, raises}
use android_package_service.Jobs.{Row, KeyFields, running, mark_succeeded}
use android_package_service.Jobs.Keys.{IsWellFormed-nil}
use android_package_service.Api.{
  Settings, Delivery, redirect, status_for, after_slash, rstrip_slash, relative_to, join_quoted,
  nas_public_url, artifact_response, get_download_job_file, download_app,
}
use android_package_service.Api.Statuses.{status_for_exact}
use android_package_service.Api.Polling.{IsQueued, download_app_polled}
use android_package_service.Api.Serving.{get_download_job_file-mark_succeeded}

abbrev quote : String → String
quote s = s

abbrev settings : Settings
settings = record {
  download_async_enabled = true;
  nas_public_base_url = some "http://nas/";
  nas_mount_path = "/" ∷ "mnt" ∷ [];
}

-- A local store of which every key is there.
abbrev delivery : Delivery ℕ
delivery = record {
  signed_url = λ key name s. none;
  local_path = λ key. some ("/" ∷ "mnt" ∷ "artifacts" ∷ key ∷ []);
  exists = λ key s. true;
}

artifact_response_nas :
    artifact_response quote settings delivery "a.apk" 0 ≡ redirect "http://nas/artifacts/a.apk"
unfolding artifact_response nas_public_url after_slash rstrip_slash relative_to join_quoted
artifact_response_nas = refl

abbrev missing : ProviderError
missing = record { provider = "aptoide"; error = not_found; message = "" }

abbrev broken : ProviderError
broken = record { provider = "aptoide"; error = network_error; message = "" }

status_for_mixed : status_for (missing ∷ broken ∷ []) ≡ 502
unfolding status_for any
status_for_mixed = refl

status_for_exact_example : (status_for (missing ∷ missing ∷ []) ≡ 404) ↔ (
    ◌≢◌ {A = List ProviderError} (missing ∷ missing ∷ []) []
    × All (λ e. e.error ≡ not_found) (missing ∷ missing ∷ []))
status_for_exact_example = status_for_exact (missing ∷ missing ∷ [])

abbrev game : AndroidPackageRequest
game = record {
  package_name = "com.a";
  version_code = some 42;
  version_name = none;
  preferred_provider = none;
}

abbrev dumps : KeyFields → String
dumps k = "key"

abbrev download : AndroidPackageRequest → ℕ → ℕ × Downloaded
download q n = (n, raises "down")

abbrev existing : AndroidPackageRequest → ℕ → ProviderError ⊎ Option String
existing q n = inr none

download_app_polled_example :
    IsQueued quote settings delivery
      (λ n. n)
      download
      existing
      dumps
      "http://api"
      0
      0
      (download_app quote settings delivery
        (λ n. n)
        download
        existing
        dumps
        "http://api"
        10
        "a1"
        none
        game
        []
        0)
unfolding count
download_app_polled_example =
    download_app_polled quote settings delivery (λ n. n) download existing dumps "http://api" 10
      "a1" none game [] 0 0 refl refl refl IsWellFormed-nil

abbrev held : Row
held = record {
  id = "a1";
  request_key = "key";
  package_name = "com.a";
  version_code = some 42;
  version_name = none;
  provider = none;
  status = running;
  artifact_path = none;
  succeeded_provider = none;
  error = none;
  provider_errors = none;
  request_id = none;
  worker = some "w1";
  lease_expires = some 70;
  created_at = 10;
  updated_at = 10;
  started_at = some 10;
  finished_at = none;
}

get_download_job_file-mark_succeeded_example :
    get_download_job_file quote settings delivery "a1"
      (mark_succeeded 20 "a1" "a.apk" (some "aptoide") (some "w1") (held ∷ [])).0
      0
    ≡ artifact_response quote settings delivery "a.apk" 0
unfolding find
get_download_job_file-mark_succeeded_example =
    get_download_job_file-mark_succeeded quote settings delivery 20 "a1" "w1" "a.apk"
      (some "aptoide") (held ∷ []) held 0 refl refl refl refl
