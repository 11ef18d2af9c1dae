-- ===== src/Download.antt =====
-- app/download/downloader.py and app/download/xapk_builder.py. The state of a download is the
-- network, the artifact store and the ledger; the files under way are values. One call of `download`
-- is one step, as its lock makes it for calls with the same `lock_key`.
mod Web
mod Fetch
mod Bundles
mod Xapk
pub mod Transfers
pub mod Reuse
pub mod Files
pub mod Failures
pub mod Packages
unfoldable pub use Web.*
unfoldable pub use Fetch.*
unfoldable pub use Bundles.*
unfoldable pub use Xapk.*
use Prim.Native.String.{String}
use android_package_service.Base.{
  ℕ, Bool, true, false, Option, none, some, List, [], ◌∷◌, ◌⊎◌, if◌then◌else◌, ◌==◌,
}
use android_package_service.Domain.{
  PackageFile, PackageFileType, DownloadPlan, ProviderError, base_apk, split_apk, obb_main,
  obb_patch, xapk, apks, apkm,
}
use android_package_service.Ledger.{Entry, upsert}
use android_package_service.Filenames.{artifact_filename, text_or_empty}
use android_package_service.Orchestrator.{
  Outcome, returned, provider_exception, exception, version_key,
}
use android_package_service.Artifacts.{
  FileReader, Backend, verify_artifact, existing, commit, joined, object_key, metadata_prefix,
}

-- What `parse_artifact` of app/catalog/manifest.py makes of an artifact.
pub record ManifestInfo : Type 0 where
  pub package_name : Option String
  pub version_name : Option String
  pub version_code : Option ℕ

-- Functions of Python's libraries: `lower` and `stem` of a text, the decimal notation of an integer
-- and the reading of one, the members of a ZIP file and the file made of some, and JSON.
pub record Library : Type 0 where
  pub lower : String → String
  pub str : ℕ → String
  pub stem : String → String
  pub int_of : String → Option ℕ
  pub decimal : ℕ → Option ℕ
  pub unzip : List ℕ → String ⊎ List (String × List ℕ)
  pub zip : XapkManifest → List (String × List ℕ) → List ℕ
  pub loads : List ℕ → Loaded
  pub parse_artifact : List ℕ → Option ManifestInfo

pub record World (W S : Type 0) : Type 0 where
  pub net : W
  pub store : S
  pub ledger : List Entry

-- `_lock_key`
abbrev pub lock_reference : (ℕ → String) → DownloadPlan → Option String → Option ℕ → String
lock_reference str plan lock (some c) = str c
lock_reference str plan none none = version_key str plan.version_code plan.version_name
lock_reference str plan (some l) none =
    if l == "" then version_key str plan.version_code plan.version_name else l

abbrev pub lock_key : (ℕ → String) → DownloadPlan → Option String → String × (String × String)
lock_key str plan lock =
    (plan.provider, (plan.package_name, lock_reference str plan lock plan.version_code))

abbrev pub passed : String → List ℕ → Option ProviderError → Outcome (String × List ℕ)
passed name file none = returned (name, file)
passed name file (some e) = provider_exception e

module _ (library : Library) (reader : FileReader (List ℕ)) where
  abbrev pub artifact_name : DownloadPlan → String → String
  artifact_name plan suffix =
      artifact_filename library.str plan.package_name plan.version_name plan.version_code
        plan.provider suffix

  -- The artifact with its name, if it passes the verification.
  abbrev pub accepted : DownloadPlan → String → Outcome (List ℕ) → Outcome (String × List ℕ)
  accepted plan name (returned file) =
      passed name file (verify_artifact reader library.lower library.str name (some file) plan none)
  accepted plan name (provider_exception e) = provider_exception e
  accepted plan name (exception m) = exception m

  abbrev pub copied : Option (List ℕ) → Outcome (List ℕ)
  copied none = exception "KeyError"
  copied (some file) = returned file

  abbrev pub built : DownloadPlan → Fetched → Outcome (String × List ℕ)
  built plan got =
      accepted plan (artifact_name plan ".xapk")
        (build library.str library.stem reader.size library.zip plan got)

  -- A plan with one file.
  abbrev pub single :
      DownloadPlan → Fetched → PackageFile → PackageFileType → Outcome (String × List ℕ)
  single plan got p base_apk =
      accepted plan (artifact_name plan ".apk") (copied (content p.name got))
  single plan got p xapk = accepted plan (artifact_name plan ".xapk") (copied (content p.name got))
  single plan got p apks = accepted plan (artifact_name plan ".apks") (copied (content p.name got))
  single plan got p split_apk = built plan got
  single plan got p obb_main = built plan got
  single plan got p obb_patch = built plan got
  single plan got p apkm = built plan got

  abbrev pub finalize_files : DownloadPlan → Fetched → List PackageFile → Outcome (String × List ℕ)
  finalize_files plan got [] = built plan got
  finalize_files plan got (p ∷ []) = single plan got p p.kind
  finalize_files plan got (p ∷ q ∷ ps) = built plan got

  unfoldable pub finalize : DownloadPlan → Fetched → Outcome (String × List ℕ)
  finalize plan got = finalize_files plan got plan.files

  -- `_backfill_ledger`; without a ledger nothing is written.
  abbrev pub backfilled : ℕ → DownloadPlan → Option ManifestInfo → List Entry → List Entry
  backfilled now plan none ledger = ledger
  backfilled now plan (some info) ledger =
      (upsert library.decimal now (text_or_empty info.package_name)
        (text_or_empty info.version_name) info.version_code (some plan.provider) ledger).rows

  unfoldable pub backfill_ledger : Bool → ℕ → DownloadPlan → List ℕ → List Entry → List Entry
  backfill_ledger enabled now plan file ledger =
      if enabled then backfilled now plan (library.parse_artifact file) ledger else ledger

  module _ {W S : Type 0} (web : Network W) (disk : Disk W) (limits : Limits)
      (backend : Backend S (List ℕ) reader.size) (temp_dir : String) (enabled : Bool)
      (now : ℕ) where
    -- What follows the commit: the ledger and the key, or what the commit raised.
    abbrev pub committed :
        DownloadPlan → List ℕ → String → World W S → S × Option String → World W S × Outcome String
    committed plan file key w (s, some m) =
        (record { net = w.net; store = s; ledger = w.ledger }, exception m)
    committed plan file key w (s, none) = (
      record { net = w.net; store = s; ledger = backfill_ledger enabled now plan file w.ledger },
      returned key,
    )

    -- From the artifact on: the upload with its sidecar, and the ledger.
    abbrev pub finished :
        DownloadPlan → World W S → Outcome (String × List ℕ) → World W S × Outcome String
    finished plan w (returned (name, file)) =
        let key = object_key library.str plan name in
        committed plan file key w
          (commit reader library.lower library.str backend plan file key w.store)
    finished plan w (provider_exception e) = (w, provider_exception e)
    finished plan w (exception m) = (w, exception m)

    abbrev pub expanded_and_finished :
        World W S → Outcome (DownloadPlan × Fetched) → World W S × Outcome String
    expanded_and_finished w (returned (plan, got)) = finished plan w (finalize plan got)
    expanded_and_finished w (provider_exception e) = (w, provider_exception e)
    expanded_and_finished w (exception m) = (w, exception m)

    abbrev pub fetched_and_finished :
        DownloadPlan → World W S → Outcome Fetched → World W S × Outcome String
    fetched_and_finished plan w (returned got) = expanded_and_finished w (
        expand_bundles library.str library.int_of library.stem library.unzip library.loads plan got)
    fetched_and_finished plan w (provider_exception e) = (w, provider_exception e)
    fetched_and_finished plan w (exception m) = (w, exception m)

    abbrev pub files_dir : DownloadPlan → String
    files_dir plan =
        joined temp_dir
          (joined "artifact-staging" (joined (metadata_prefix library.str plan) "files"))

    -- What is done for a plan that the store has no artifact of.
    abbrev pub fetch_and_store : DownloadPlan → World W S → World W S × Outcome String
    fetch_and_store plan w =
        let fetched =
          fetch_files web disk limits library.lower reader (files_dir plan) plan.provider plan.files
            (record { dir = []; names = [] }) w.net in
        fetched_and_finished plan (record { net = fetched.0; store = w.store; ledger = w.ledger })
          fetched.1

    unfoldable pub download : DownloadPlan → World W S → World W S × Outcome String
    download plan w = elim (existing reader library.lower library.str backend plan w.store) [
      | some key ↦ (w, returned key)
      | none ↦ fetch_and_store plan w
    ]
