-- ===== src/Download/Bundles.antt =====
-- `_expand_bundles`, `_str_or` and `_int_or` of app/download/downloader.py.
use Prim.Native.String.{String}
use android_package_service.Base.{
  ℕ, Bool, true, false, ◌&&◌, ◌||◌, Option, none, some, List, [], ◌∷◌, ◌++◌, ◌⊎◌, inl, inr, ◌==◌,
  if◌then◌else◌, holds_text, find, is_none,
}
use android_package_service.Domain.{
  PackageFile, PackageFileType, DownloadPlan, base_apk, split_apk, obb_main, obb_patch, xapk, apks,
  apkm,
}
use android_package_service.Catalog.Versions.{Scalar, null, text, number, dict_get, dict_set}
use android_package_service.Orchestrator.{Outcome, returned, exception}
use android_package_service.Artifacts.{joined}
use android_package_service.Download.Fetch.{Fetched, content, network_failure, starts_with}

-- The keys of info.json that are read; a missing key is `null`.
pub record ApkmInfo : Type 0 where
  pub pname : Scalar
  pub release_version : Scalar
  pub versioncode : Scalar

-- What `json.loads` makes of a file: a text that is no JSON is no information, and a value that is
-- not an object has no `get`.
pub data Loaded : Type 0 where
  not_json not_object : Loaded
  loaded : ApkmInfo → Loaded

abbrev pub no_info : ApkmInfo
no_info = record { pname = null; release_version = null; versioncode = null }

unfoldable pub str_or : {A : Type 0} → (String → A) → Scalar → A → A
str_or made null default = default
str_or made (number n) default = default
str_or made (text s) default = if s == "" then default else made s

abbrev pub or_default : Option ℕ → Option ℕ → Option ℕ
or_default none default = default
or_default (some c) default = some c

-- `int_of` is `int` of a text that was stripped, where it is one.
unfoldable pub int_or : (ℕ → String) → (String → Option ℕ) → Scalar → Option ℕ → Option ℕ
int_or str int_of null default = default
int_or str int_of (text s) default = or_default (int_of s) default
int_or str int_of (number n) default = or_default (int_of (str n)) default

abbrev pub is_apkm : PackageFileType → Bool
is_apkm apkm = true
is_apkm base_apk = false
is_apkm split_apk = false
is_apkm obb_main = false
is_apkm obb_patch = false
is_apkm xapk = false
is_apkm apks = false

abbrev pub is_bundle : PackageFile → Bool
is_bundle p = is_apkm p.kind || holds_text (dict_get "bundle.format" p.metadata) "apkm"

unfoldable pub ends_with_apk : String → Bool
ends_with_apk String.[] = false
ends_with_apk (String.◌∷◌ c s) = if String.◌∷◌ c s == ".apk" then true else ends_with_apk s

abbrev pub member_file : PackageFileType → String → Option String → Option String → PackageFile
member_file kind name split_name split_type = record {
  kind = kind;
  name = name;
  source_type = "url";
  url = none;
  source_url = none;
  source_path = none;
  headers = [];
  proxy = none;
  fallback_urls = [];
  size = none;
  md5 = none;
  sha1 = none;
  sha256 = none;
  split_name = split_name;
  split_type = split_type;
  metadata = [];
}

-- `new_files` and `new_fetched`
pub record Expanded : Type 0 where
  pub files : List PackageFile
  pub got : Fetched

module _ (stem : String → String) where
  abbrev pub with_member : String → PackageFile → Expanded → Expanded
  with_member name p e = record {
    files = e.files ++ (p ∷ []);
    got = record { dir = e.got.dir; names = dict_set name (joined "_apkm" name) e.got.names };
  }

  -- One turn of the loop over the members.
  unfoldable pub add_member : String → Expanded → Expanded
  add_member name e =
      if name == "base.apk"
      then with_member name (member_file base_apk name none none) e
      else if starts_with "split_config." name && ends_with_apk name
      then with_member name (member_file split_apk name (some (stem name)) (some "config")) e
      else e

  unfoldable pub add_members : List (String × List ℕ) → Expanded → Expanded
  unfolding add_member
  add_members [] e = e
  add_members ((name, file) ∷ members) e = add_members members (add_member name e)

-- `extractall` into the directory below the files.
unfoldable pub extracted : List (String × List ℕ) → List (String × List ℕ) → List (String × List ℕ)
extracted [] dir = dir
extracted ((name, file) ∷ members) dir = extracted members (dict_set (joined "_apkm" name) file dir)

module _ (str : ℕ → String) (int_of : String → Option ℕ) (stem : String → String)
    (unzip : List ℕ → String ⊎ List (String × List ℕ)) (loads : List ℕ → Loaded) where
  abbrev pub updated : DownloadPlan → ApkmInfo → List PackageFile → DownloadPlan
  updated plan info files = record {
    package_name = str_or (λ s. s) info.pname plan.package_name;
    app_name = plan.app_name;
    version_name = str_or (λ s. some s) info.release_version plan.version_name;
    version_code = int_or str int_of info.versioncode plan.version_code;
    provider = plan.provider;
    files = files;
  }

  abbrev pub load_info : Option (List ℕ) → Loaded
  load_info none = loaded no_info
  load_info (some file) = loads file

  abbrev pub with_info : DownloadPlan → Expanded → Loaded → Outcome (DownloadPlan × Fetched)
  with_info plan e not_json = returned (updated plan no_info e.files, e.got)
  with_info plan e not_object = exception "'get'"
  with_info plan e (loaded info) = returned (updated plan info e.files, e.got)

  unfoldable pub expand_members :
      DownloadPlan → Fetched → List (String × List ℕ) → Outcome (DownloadPlan × Fetched)
  expand_members plan got members =
      let e =
        add_members stem members
          (record { files = []; got = record { dir = extracted members got.dir; names = [] } }) in
      if is_none (dict_get "base.apk" e.got.names)
      then network_failure plan.provider "APKM bundle has no base.apk after extraction."
      else with_info plan e (load_info (dict_get "info.json" members))

  abbrev pub expand_file :
      DownloadPlan → Fetched → Option (List ℕ) → Outcome (DownloadPlan × Fetched)
  expand_file plan got none = exception "KeyError"
  expand_file plan got (some file) = elim (unzip file) [
    | inl m ↦ exception m
    | inr members ↦ expand_members plan got members
  ]

  unfoldable pub expand_bundles : DownloadPlan → Fetched → Outcome (DownloadPlan × Fetched)
  expand_bundles plan got = elim (find is_bundle plan.files) [
    | none ↦ returned (plan, got)
    | some bundle ↦ expand_file plan got (content bundle.name got)
  ]
