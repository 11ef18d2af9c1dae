-- ===== src/Api/Replies.antt =====
-- app/api/errors.py, and the replies of app/api/routes.py: where an artifact is served from, and
-- what a job looks like. A local path is the list of its parts.
use Prim.Native.String
use Prim.Native.String.{String}
use android_package_service.Base.{
  ℕ, Bool, true, false, not, ◌&&◌, Option, none, some, List, [], ◌∷◌, ◌==◌, if◌then◌else◌, any,
  or_else,
}
use android_package_service.Domain.{
  ErrorCode, ProviderError, AndroidPackageRequest, not_found, network_error, auth_error,
  bad_response, verify_failed, unsupported,
}
use android_package_service.Jobs.{Status, DownloadJob, queued, running, succeeded, failed}
use android_package_service.Filenames.{text_or_empty}
use android_package_service.Download.{ends_with_apk}

abbrev pub is_not_found : ErrorCode → Bool
is_not_found not_found = true
is_not_found network_error = false
is_not_found auth_error = false
is_not_found bad_response = false
is_not_found verify_failed = false
is_not_found unsupported = false

abbrev pub is_unsupported : ErrorCode → Bool
is_unsupported unsupported = true
is_unsupported not_found = false
is_unsupported network_error = false
is_unsupported auth_error = false
is_unsupported bad_response = false
is_unsupported verify_failed = false

abbrev pub is_empty : {A : Type 0} → List A → Bool
is_empty [] = true
is_empty (x ∷ xs) = false

-- `codes == {ErrorCode.NOT_FOUND}`
abbrev pub only_not_found : List ProviderError → Bool
only_not_found errors = not (is_empty errors) && not (any (λ e. not (is_not_found e.error)) errors)

unfoldable pub status_for : List ProviderError → ℕ
status_for errors =
    if only_not_found errors
    then 404
    else if any (λ e. is_unsupported e.error) errors
    then 400
    else 502

abbrev pub first_code : List ProviderError → ErrorCode
first_code [] = bad_response
first_code (e ∷ es) = e.error

pub record JobReply : Type 0 where
  pub job_id : String
  pub status : Status
  pub request : AndroidPackageRequest
  pub status_url : String
  pub file_url : Option String
  pub artifact_path : Option String
  pub error : Option String
  pub provider_errors : List ProviderError
  pub created_at : ℕ
  pub updated_at : ℕ
  pub started_at : Option ℕ
  pub finished_at : Option ℕ

-- A handler that raises is answered with 500.
pub data Reply : Type 0 where
  redirect : String → Reply
  file_response : List String → String → Reply
  streaming : String → String → Reply
  job_reply : ℕ → JobReply → Reply
  error_reply : ℕ → ErrorCode → List ProviderError → Reply
  job_not_found : Reply
  not_ready : Reply
  server_error : Reply

unfoldable pub error_response : List ProviderError → Reply
unfolding status_for
error_response errors = error_reply (status_for errors) (first_code errors) errors

-- What is after the last slash, if there is one.
unfoldable pub after_slash : String → Option String
after_slash String.[] = none
after_slash (String.◌∷◌ c s) = elim (after_slash s) [
  | some rest ↦ some rest
  | none ↦ if String.◌∷◌ c "" == "/" then some s else none
]

-- `key.rsplit("/", 1)[-1]`
abbrev pub filename_of : String → String
filename_of key = or_else (after_slash key) key

abbrev pub drop_slash : String → String → String
drop_slash first String.[] = if first == "/" then "" else first
drop_slash first (String.◌∷◌ d s) = String.◌++◌ first (String.◌∷◌ d s)

-- `base.rstrip("/")`
unfoldable pub rstrip_slash : String → String
rstrip_slash String.[] = ""
rstrip_slash (String.◌∷◌ c s) = drop_slash (String.◌∷◌ c "") (rstrip_slash s)

-- `path.relative_to(mount)`, or nothing where it raises.
unfoldable pub relative_to : List String → List String → Option (List String)
relative_to [] path = some path
relative_to (m ∷ ms) [] = none
relative_to (m ∷ ms) (p ∷ ps) = if m == p then relative_to ms ps else none

unfoldable pub join_quoted : (String → String) → List String → String
join_quoted quote [] = ""
join_quoted quote (p ∷ []) = quote p
join_quoted quote (p ∷ q ∷ ps) =
    String.◌++◌ (quote p) (String.◌++◌ "/" (join_quoted quote (q ∷ ps)))

abbrev pub media_type_for : String → String
media_type_for name =
    if ends_with_apk name then "application/vnd.android.package-archive" else "application/zip"

-- The last part of a path.
unfoldable pub name_of : List String → String
name_of [] = ""
name_of (p ∷ []) = p
name_of (p ∷ q ∷ ps) = name_of (q ∷ ps)

pub record Settings : Type 0 where
  pub download_async_enabled : Bool
  pub nas_public_base_url : Option String
  pub nas_mount_path : List String

-- What the routes ask of a storage backend.
pub record Delivery (S : Type 0) : Type 0 where
  pub signed_url : String → String → S → Option String
  pub local_path : String → Option (List String)
  pub exists : String → S → Bool

module _ (quote : String → String) (settings : Settings) where
  abbrev pub below_mount : String → Option (List String) → Option String
  below_mount base none = none
  below_mount base (some parts) =
      some (String.◌++◌ (rstrip_slash base) (String.◌++◌ "/" (join_quoted quote parts)))

  unfoldable pub nas_public_url : List String → Option String
  nas_public_url artifact =
      let base = text_or_empty settings.nas_public_base_url in
      if base == "" then none else below_mount base (relative_to settings.nas_mount_path artifact)

  abbrev pub local_response : List String → Option String → Reply
  local_response local none = file_response local (media_type_for (name_of local))
  local_response local (some url) =
      if url == "" then file_response local (media_type_for (name_of local)) else redirect url

  abbrev pub unsigned_response : String → Option (List String) → Reply
  unsigned_response key none = streaming key (media_type_for (filename_of key))
  unsigned_response key (some local) = local_response local (nas_public_url local)

  unfoldable pub artifact_response : {S : Type 0} → Delivery S → String → S → Reply
  artifact_response delivery key s =
      let signed = text_or_empty (delivery.signed_url key (filename_of key) s) in
      if signed == "" then unsigned_response key (delivery.local_path key) else redirect signed

abbrev pub file_url_of : String → Status → Option String
file_url_of url succeeded = some (String.◌++◌ url "/file")
file_url_of url queued = none
file_url_of url running = none
file_url_of url failed = none

abbrev pub status_url_of : String → String → String
status_url_of base_url i =
    String.◌++◌ (rstrip_slash base_url) (String.◌++◌ "/api/v1/android/downloads/" i)

abbrev pub truthy_path : Option String → Option String
truthy_path none = none
truthy_path (some p) = if p == "" then none else some p

unfoldable pub download_job_response : String → DownloadJob → JobReply
download_job_response base_url job = record {
  job_id = job.id;
  status = job.status;
  request = job.request;
  status_url = status_url_of base_url job.id;
  file_url = file_url_of (status_url_of base_url job.id) job.status;
  artifact_path = truthy_path job.artifact_path;
  error = job.error;
  provider_errors = or_else job.provider_errors [];
  created_at = job.created_at;
  updated_at = job.updated_at;
  started_at = job.started_at;
  finished_at = job.finished_at;
}
