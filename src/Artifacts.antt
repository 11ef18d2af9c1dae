-- ===== src/Artifacts.antt =====
-- app/download/artifact_store.py and app/download/verifier.py, over any storage backend that keeps
-- the laws of app/storage/base.py, and app/storage/fake.py as such a backend. `F` is the type of
-- what a file holds, and `FileReader` is what the program reads of it with `zipfile`, `json` and
-- `hashlib`.
pub mod Reuse
pub mod Verified
pub mod Fake
use Prim.Native.String
use Prim.Native.String.{String}
use android_package_service.Base.{
  ℕ, zero, suc, ◌≡◌, refl, Bool, true, false, not, ◌&&◌, ◌||◌, Option, none, some, List, [], ◌∷◌,
  ◌==◌, if◌then◌else◌, eqb, ◌⊎◌, any,
}
use android_package_service.Domain.{
  ErrorCode, verify_failed, ProviderError, DownloadPlan, PackageFile, xapk, base_apk,
}
use android_package_service.Catalog.Versions.{Scalar, null, text, number}
use android_package_service.Filenames.{safe_part}
use android_package_service.Orchestrator.{version_key}

-- The keys of a package's manifest.json that the verifier reads; a missing key is `null`.
pub record ZipManifest : Type 0 where
  pub package_name : Scalar
  pub version_code : Scalar
  pub version_name : Scalar

pub record FileHashes : Type 0 where
  pub md5 : String
  pub sha1 : String
  pub sha256 : String

pub record FileReader (F : Type 0) : Type 0 where
  pub size : F → ℕ
  pub has_pk_header : F → Bool
  pub file_hashes : F → FileHashes
  pub read_zip_manifest : F → Option ZipManifest

-- What the sidecar holds, as far as `existing` reads it.
pub record Metadata : Type 0 where
  pub key : Option String
  pub size : Option ℕ

-- The message is about the file of this name.
abbrev pub failure : String → String → String → Option ProviderError
failure provider name message =
    some (record { provider = provider; error = verify_failed; message = String.◌++◌ name message })

abbrev pub is_truthy : Scalar → Bool
is_truthy null = false
is_truthy (text s) = not (s == "")
is_truthy (number zero) = false
is_truthy (number (suc n)) = true

abbrev pub is_text : Scalar → String → Bool
is_text null s = false
is_text (text t) s = t == s
is_text (number n) s = false

module _ (str : ℕ → String) where
  -- `str(value)` of a value that is not null.
  abbrev pub str_of : Scalar → String
  str_of null = "None"
  str_of (text s) = s
  str_of (number n) = str n

  abbrev pub differs_code : Scalar → Option ℕ → Bool
  differs_code found none = false
  differs_code found (some c) = is_truthy found && not (str_of found == str c)

  abbrev pub differs_name : Scalar → Option String → Bool
  differs_name found none = false
  differs_name found (some n) = is_truthy found && not (is_text found n)

  -- The checks of the manifest in `verify_artifact`.
  unfoldable pub verify_manifest : String → Option ZipManifest → DownloadPlan → Option ProviderError
  verify_manifest name none plan = none
  verify_manifest name (some m) plan =
      if is_truthy m.package_name && not (is_text m.package_name plan.package_name)
      then failure plan.provider name " manifest package mismatch."
      else if differs_code m.version_code plan.version_code
      then failure plan.provider name " manifest versionCode mismatch."
      else if differs_name m.version_name plan.version_name
      then failure plan.provider name " manifest versionName mismatch."
      else none

abbrev pub differs_hash : (String → String) → Option String → String → Bool
differs_hash lower none actual = false
differs_hash lower (some s) actual = not (s == "") && not (lower actual == lower s)

abbrev pub differs_size : Option ℕ → ℕ → Bool
differs_size none actual = false
differs_size (some n) actual = not (eqb actual n)

-- `verify_file`: the first check that fails; `none` for the file stands for a path with no file.
unfoldable pub verify_file :
    {F : Type 0}
    → FileReader F
    → (String → String)
    → Option F
    → PackageFile
    → String
    → Option ProviderError
verify_file reader lower none p provider = failure provider p.name " is empty or missing."
verify_file reader lower (some f) p provider =
    let actual = reader.file_hashes f in
    if eqb (reader.size f) 0
    then failure provider p.name " is empty or missing."
    else if not (reader.has_pk_header f)
    then failure provider p.name " is not a ZIP/APK file."
    else if differs_size p.size (reader.size f)
    then failure provider p.name " size mismatch."
    else if differs_hash lower p.md5 actual.md5
    then failure provider p.name " md5 mismatch."
    else if differs_hash lower p.sha1 actual.sha1
    then failure provider p.name " sha1 mismatch."
    else if differs_hash lower p.sha256 actual.sha256
    then failure provider p.name " sha256 mismatch."
    else none

-- `path.suffix == ".xapk"` of a name with something before the suffix.
unfoldable pub ends_with_xapk : String → Bool
ends_with_xapk String.[] = false
ends_with_xapk (String.◌∷◌ c s) = if String.◌∷◌ c s == ".xapk" then true else ends_with_xapk s

-- The file that `verify_artifact` describes to `verify_file`.
abbrev pub artifact_file : String → Option ℕ → PackageFile
artifact_file name size = record {
  kind = if ends_with_xapk name then xapk else base_apk;
  name = name;
  source_type = "url";
  url = none;
  source_url = none;
  source_path = none;
  headers = [];
  proxy = none;
  fallback_urls = [];
  size = size;
  md5 = none;
  sha1 = none;
  sha256 = none;
  split_name = none;
  split_type = none;
  metadata = [];
}

abbrev pub first_failure : Option ProviderError → Option ProviderError → Option ProviderError
first_failure none later = later
first_failure (some e) later = some e

abbrev pub manifest_of : {F : Type 0} → FileReader F → Option F → Option ZipManifest
manifest_of reader none = none
manifest_of reader (some f) = reader.read_zip_manifest f

-- `verify_artifact` without hashes, as it is called.
unfoldable pub verify_artifact :
    {F : Type 0}
    → FileReader F
    → (String → String)
    → (ℕ → String)
    → String
    → Option F
    → DownloadPlan
    → Option ℕ
    → Option ProviderError
unfolding verify_file verify_manifest
verify_artifact reader lower str name file plan size =
    first_failure (verify_file reader lower file (artifact_file name size) plan.provider)
      (verify_manifest str name (manifest_of reader file) plan)

-- `metadata_prefix` and `object_key` of app/storage/base.py
abbrev pub joined : String → String → String
joined a b = String.◌++◌ a (String.◌++◌ "/" b)

unfoldable pub metadata_prefix : (ℕ → String) → DownloadPlan → String
metadata_prefix str plan = joined (safe_part plan.provider "unknown") (
    joined (safe_part plan.package_name "unknown")
      (safe_part (version_key str plan.version_code plan.version_name) "unknown"))

unfoldable pub object_key : (ℕ → String) → DownloadPlan → String → String
object_key str plan filename = joined (metadata_prefix str plan) filename

-- The key of an artifact: it ends like the name of one.
unfoldable pub is_artifact_key : String → Bool
is_artifact_key String.[] = false
is_artifact_key (String.◌∷◌ c s) =
    let later = is_artifact_key s in
    let suffix = String.◌∷◌ c s in
    if suffix == ".apk" || suffix == ".xapk" || suffix == ".apks" then true else later

-- A storage backend with its state `S`, and what the program relies on. An upload or a write of the
-- sidecar that raises leaves its message, and any state; a read is a function of the state and does
-- not fail. The sidecar is {prefix}/metadata.json, so it
-- is none of the artifacts. `local_file` is `none` for an object store, which has no local path, and
-- else tells the file at the path, if there is one.
pub record Backend (S F : Type 0) (size : F → ℕ) : Type 0 where
  pub upload : F → String → S → S × Option String
  pub head : String → S → Option ℕ
  pub local_file : String → S → Option (Option F)
  pub get_metadata : String → S → Option Metadata
  pub put_metadata : String → Metadata → S → S × Option String
  pub head-upload :
      (f : F) (k : String) (s s' : S) → upload f k s ≡ (s', none) → head k s' ≡ some (size f)
  pub local_file-upload :
      (f : F) (k : String) (s s' : S)
      → upload f k s ≡ (s', none)
      → (local_file k s' ≡ none) ⊎ (local_file k s' ≡ some (some f))
  pub head-put_metadata :
      (k p : String) (m : Metadata) (s s' : S)
      → is_artifact_key k ≡ true
      → put_metadata p m s ≡ (s', none)
      → head k s' ≡ head k s
  pub local_file-put_metadata :
      (k p : String) (m : Metadata) (s s' : S)
      → is_artifact_key k ≡ true
      → put_metadata p m s ≡ (s', none)
      → local_file k s' ≡ local_file k s
  pub get_metadata-put_metadata :
      (p : String) (m : Metadata) (s s' : S)
      → put_metadata p m s ≡ (s', none)
      → get_metadata p s' ≡ some m

abbrev pub checked_key : String → Option ProviderError → Option String
checked_key key none = some key
checked_key key (some e) = none

abbrev pub same_size : Option ℕ → ℕ → Bool
same_size none n = true
same_size (some m) n = eqb n m

-- `head(key)` of an object store against the size in the sidecar.
abbrev pub headed_key : String → Option ℕ → Option ℕ → Option String
headed_key key size none = none
headed_key key size (some n) = if same_size size n then some key else none

module _ {S F : Type 0} (reader : FileReader F) (lower : String → String) (str : ℕ → String)
    (backend : Backend S F reader.size) where
  -- `existing`, once the sidecar has a key.
  unfoldable pub existing_key : DownloadPlan → String → Option ℕ → S → Option String
  existing_key plan key size s = elim (backend.local_file key s) [
    | none ↦ headed_key key size (backend.head key s)
    | some none ↦ none
    | some (some f) ↦ checked_key key (verify_artifact reader lower str key (some f) plan size)
  ]

  unfoldable pub existing : DownloadPlan → S → Option String
  unfolding existing_key
  existing plan s = elim (backend.get_metadata (metadata_prefix str plan) s) [
    | none ↦ none
    | some meta ↦ elim meta.key [
      | none ↦ none
      | some key ↦ if key == "" then none else existing_key plan key meta.size s
    ]
  ]

  -- The state, and the message of what raised.
  unfoldable pub commit : DownloadPlan → F → String → S → S × Option String
  commit plan f key s =
      let uploaded = backend.upload f key s in
      elim uploaded.1 [
        | some m ↦ (uploaded.0, some m)
        | none ↦
            backend.put_metadata (metadata_prefix str plan)
              (record { key = some key; size = some (reader.size f) }) uploaded.0
      ]
