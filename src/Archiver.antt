-- ===== src/Archiver.antt =====
-- app/catalog/archiver.py. A download of the orchestrator is a step on a state `W`. The archivings
-- of a call run one after the other, which is one of the orders that the semaphore allows.
pub mod Attempts
use android_package_service.Base.{
  ℕ, zero, suc, String, Bool, true, false, Option, some, none, List, [], ◌∷◌, if◌then◌else◌,
}
use android_package_service.Domain.{AndroidPackageRequest}
use android_package_service.Orchestrator.{Downloaded, artifact, aggregate_error, raises}

-- The event that is logged for a version.
pub data Archived : Type 0 where
  archive_ok : String → Archived
  archive_failed : Archived

-- The download returned: nothing was raised.
abbrev pub is_artifact : Downloaded → Bool
is_artifact (artifact key provider) = true
is_artifact (aggregate_error errors) = false
is_artifact (raises m) = false

-- What is logged after the last attempt.
abbrev pub event_of : Downloaded → Archived
event_of (artifact key provider) = archive_ok key
event_of (aggregate_error errors) = archive_failed
event_of (raises m) = archive_failed

abbrev pub archive_request : String → String × Option ℕ → AndroidPackageRequest
archive_request package_name v = record {
  package_name = package_name;
  version_code = v.1;
  version_name = some v.0;
  preferred_provider = none;
}

module _ {W : Type 0} (download : AndroidPackageRequest → W → W × Downloaded) where
  -- `_archive_one`; the number is of the retries that are left.
  unfoldable pub archive_one : ℕ → AndroidPackageRequest → W → W × Archived
  archive_one zero q w = let tried = download q w in (tried.0, event_of tried.1)
  archive_one (suc retries) q w =
      let tried = download q w in
      let again = archive_one retries q tried.0 in
      if is_artifact tried.1 then (tried.0, event_of tried.1) else again

  unfoldable pub archive_all :
      ℕ → String → List (String × Option ℕ) → W → W × List (String × Archived)
  unfolding archive_one
  archive_all retries package_name [] w = (w, [])
  archive_all retries package_name (v ∷ vs) w =
      let one = archive_one retries (archive_request package_name v) w in
      let rest = archive_all retries package_name vs one.0 in (rest.0, (v.0, one.1) ∷ rest.1)

  -- `archive_new`; without versions there is nothing to log.
  unfoldable pub archive_new :
      Bool → ℕ → String → List (String × Option ℕ) → W → W × List (String × Archived)
  unfolding archive_all
  archive_new enabled retries package_name versions w =
      if enabled then archive_all retries package_name versions w else (w, [])
