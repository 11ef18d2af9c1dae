-- ===== src/Jobs/Table.antt =====
-- The table `download_jobs` of app/catalog/store.py and the records of app/download/jobs.py.
use android_package_service.Base.{
  ℕ, String, Bool, true, false, ◌&&◌, ◌||◌, Option, none, some, List, [], ◌∷◌, ◌++◌, ◌==◌,
  if◌then◌else◌, any,
}
use android_package_service.Domain.{ProviderError, AndroidPackageRequest}

pub data Status : Type 0 where
  queued running succeeded failed : Status

abbrev pub is_queued : Status → Bool
is_queued queued = true
is_queued _ = false

abbrev pub is_running : Status → Bool
is_running running = true
is_running _ = false

-- `status IN ('queued', 'running')`
abbrev pub is_active : Status → Bool
is_active s = is_queued s || is_running s

-- A row of `download_jobs`.
pub record Row : Type 0 where
  pub id : String
  pub request_key : String
  pub package_name : String
  pub version_code : Option ℕ
  pub version_name : Option String
  pub provider : Option String
  pub status : Status
  pub artifact_path : Option String
  pub succeeded_provider : Option String
  pub error : Option String
  pub provider_errors : Option (List ProviderError)
  pub request_id : Option String
  pub worker : Option String
  pub lease_expires : Option ℕ
  pub created_at : ℕ
  pub updated_at : ℕ
  pub started_at : Option ℕ
  pub finished_at : Option ℕ

pub record DownloadJob : Type 0 where
  pub id : String
  pub request : AndroidPackageRequest
  pub status : Status
  pub artifact_path : Option String
  pub succeeded_provider : Option String
  pub error : Option String
  pub provider_errors : Option (List ProviderError)
  pub request_id : Option String
  pub created_at : ℕ
  pub updated_at : ℕ
  pub started_at : Option ℕ
  pub finished_at : Option ℕ

-- `x if x else None`: an empty text is dropped.
abbrev pub truthy_text : Option String → Option String
truthy_text none = none
truthy_text (some s) = if s == "" then none else some s

abbrev pub row_to_job : Row → DownloadJob
row_to_job r = record {
  id = r.id;
  request = record {
    package_name = r.package_name;
    version_code = r.version_code;
    version_name = r.version_name;
    preferred_provider = r.provider;
  };
  status = r.status;
  artifact_path = truthy_text r.artifact_path;
  succeeded_provider = r.succeeded_provider;
  error = r.error;
  provider_errors = r.provider_errors;
  request_id = r.request_id;
  created_at = r.created_at;
  updated_at = r.updated_at;
  started_at = r.started_at;
  finished_at = r.finished_at;
}

-- The dictionary that `request_key` hands to `json.dumps`.
pub record KeyFields : Type 0 where
  pub package_name : String
  pub version_code : Option ℕ
  pub version_name : Option String
  pub provider : String

-- `preferred_provider or "auto"`
abbrev pub provider_or_auto : Option String → String
provider_or_auto none = "auto"
provider_or_auto (some p) = if p == "" then "auto" else p

abbrev pub key_fields : AndroidPackageRequest → KeyFields
key_fields q = record {
  package_name = q.package_name;
  version_code = q.version_code;
  version_name = q.version_name;
  provider = provider_or_auto q.preferred_provider;
}

abbrev pub request_key : (KeyFields → String) → AndroidPackageRequest → String
request_key dumps q = dumps (key_fields q)

abbrev pub has_id : String → Row → Bool
has_id i r = r.id == i

abbrev pub active_for : String → Row → Bool
active_for key r = r.request_key == key && is_active r.status

-- INSERT under the primary key `id` and the partial unique index on active request keys; `none` is
-- sqlite3.IntegrityError, after which the transaction is rolled back.
abbrev pub insert : Row → List Row → Option (List Row)
insert r rows =
    if any (has_id r.id) rows || (is_active r.status && any (active_for r.request_key) rows)
    then none
    else some (rows ++ r ∷ [])

abbrev pub new_row : String → String → AndroidPackageRequest → Option String → ℕ → Row
new_row job_id key q request_id now = record {
  id = job_id;
  request_key = key;
  package_name = q.package_name;
  version_code = q.version_code;
  version_name = q.version_name;
  provider = q.preferred_provider;
  status = queued;
  artifact_path = none;
  succeeded_provider = none;
  error = none;
  provider_errors = none;
  request_id = request_id;
  worker = none;
  lease_expires = none;
  created_at = now;
  updated_at = now;
  started_at = none;
  finished_at = none;
}
