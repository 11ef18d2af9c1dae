-- ===== src/Api.antt =====
-- The routes of app/api/routes.py that download, on the table of jobs, the state `W` of the
-- orchestrator and the state `S` of the storage.
mod Replies
unfoldable pub use Replies.*
pub mod Statuses
pub mod Polling
pub mod Serving
use android_package_service.Base.{
  ℕ, String, Bool, true, false, not, ◌||◌, Option, none, some, List, ◌⊎◌, inl, inr, if◌then◌else◌,
  is_some, [], ◌∷◌,
}
use android_package_service.Domain.{ProviderError, AndroidPackageRequest}
use android_package_service.Jobs.{
  Row, KeyFields, Status, DownloadJob, Enqueued, job, integrity_error, get, enqueue, queued,
  running, succeeded, failed,
}
use android_package_service.Orchestrator.{Downloaded, artifact, aggregate_error, raises}

-- What a handler leaves, whether it started a collection beside it, and its reply.
pub record Handled (W : Type 0) : Type 0 where
  pub rows : List Row
  pub world : W
  pub collects : Bool
  pub reply : Reply

abbrev pub is_succeeded : Status → Bool
is_succeeded succeeded = true
is_succeeded queued = false
is_succeeded running = false
is_succeeded failed = false

abbrev pub job_or_not_found : String → Option DownloadJob → Reply
job_or_not_found base_url none = job_not_found
job_or_not_found base_url (some found) = job_reply 200 (download_job_response base_url found)

unfoldable pub get_download_job : String → String → List Row → Reply
get_download_job base_url i rows = job_or_not_found base_url (get i rows)

abbrev pub queued_reply : String → Enqueued → Reply
queued_reply base_url (job (some made)) = job_reply 202 (download_job_response base_url made)
queued_reply base_url (job none) = server_error
queued_reply base_url integrity_error = server_error

module _ {S : Type 0} (quote : String → String) (settings : Settings) (delivery : Delivery S) where
  abbrev pub ready_file : Option String → S → Reply
  ready_file none s = not_ready
  ready_file (some key) s =
      if delivery.exists key s then artifact_response quote settings delivery key s else not_ready

  abbrev pub job_file : Option DownloadJob → S → Reply
  job_file none s = job_not_found
  job_file (some found) s =
      if is_succeeded found.status then ready_file found.artifact_path s else not_ready

  unfoldable pub get_download_job_file : String → List Row → S → Reply
  get_download_job_file i rows s = job_file (get i rows) s

  module _ {W : Type 0} (storage : W → S) (download : AndroidPackageRequest → W → W × Downloaded)
      (existing : AndroidPackageRequest → W → ProviderError ⊎ Option String)
      (dumps : KeyFields → String) (base_url : String) where
    abbrev pub downloaded_reply : Downloaded → W → Reply
    downloaded_reply (artifact key provider) w =
        artifact_response quote settings delivery key (storage w)
    downloaded_reply (aggregate_error errors) w = error_response errors
    downloaded_reply (raises m) w = server_error

    unfoldable pub download_app :
        ℕ → String → Option String → AndroidPackageRequest → List Row → W → Handled W
    download_app now job_id request_id q rows w =
        let asks = is_some q.version_code || is_some q.version_name in
        let done = download q w in
        let added = enqueue dumps now job_id q request_id rows in
        if not settings.download_async_enabled
        then record {
          rows = rows;
          world = done.0;
          collects = asks;
          reply = downloaded_reply done.1 done.0;
        }
        else elim (existing q w) [
          | inl e ↦ record {
            rows = rows;
            world = w;
            collects = asks;
            reply = error_response (e ∷ []);
          }
          | inr (some key) ↦ record {
            rows = rows;
            world = w;
            collects = asks;
            reply = artifact_response quote settings delivery key (storage w);
          }
          | inr none ↦ record {
            rows = added.0;
            world = w;
            collects = asks;
            reply = queued_reply base_url added.1;
          }
        ]
