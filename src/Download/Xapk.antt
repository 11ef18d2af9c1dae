-- ===== src/Download/Xapk.antt =====
-- app/download/xapk_builder.py: the directory that is packed and its manifest.json.
use Prim.Native.String
use Prim.Native.String.{String}
use android_package_service.Base.{
  ℕ, ◌+◌, Bool, true, false, Option, none, some, List, [], ◌∷◌, ◌++◌, if◌then◌else◌,
}
use android_package_service.Domain.{
  PackageFile, PackageFileType, DownloadPlan, base_apk, split_apk, obb_main, obb_patch, xapk, apks,
  apkm,
}
use android_package_service.Catalog.Versions.{dict_set}
use android_package_service.Filenames.{or_fallback, text_or_empty}
use android_package_service.Orchestrator.{Outcome, returned, provider_exception, exception}
use android_package_service.Artifacts.{joined}
use android_package_service.Download.Fetch.{Fetched, content}

pub record SplitApk : Type 0 where
  pub file : String
  pub id : String

pub record XapkManifest : Type 0 where
  pub package_name : String
  pub name : String
  pub version_code : Option String
  pub version_name : Option String
  pub total_size : ℕ
  pub split_apks : List SplitApk
  pub split_configs : List String

-- The build directory and the variables of the loop.
pub record Build : Type 0 where
  pub tree : List (String × List ℕ)
  pub total_size : ℕ
  pub split_apks : List SplitApk
  pub split_configs : List String

abbrev pub is_obb : PackageFileType → Bool
is_obb obb_main = true
is_obb obb_patch = true
is_obb base_apk = false
is_obb split_apk = false
is_obb xapk = false
is_obb apks = false
is_obb apkm = false

abbrev pub is_base_apk : PackageFileType → Bool
is_base_apk base_apk = true
is_base_apk obb_main = false
is_base_apk obb_patch = false
is_base_apk split_apk = false
is_base_apk xapk = false
is_base_apk apks = false
is_base_apk apkm = false

abbrev pub is_split_apk : PackageFileType → Bool
is_split_apk split_apk = true
is_split_apk base_apk = false
is_split_apk obb_main = false
is_split_apk obb_patch = false
is_split_apk xapk = false
is_split_apk apks = false
is_split_apk apkm = false

abbrev pub obb_kind : PackageFileType → String
obb_kind obb_main = "main."
obb_kind obb_patch = "patch."
obb_kind base_apk = ""
obb_kind split_apk = ""
obb_kind xapk = ""
obb_kind apks = ""
obb_kind apkm = ""

module _ (str : ℕ → String) (stem : String → String) (size : List ℕ → ℕ) where
  -- An absent code is printed as `None`.
  abbrev pub code_text : Option ℕ → String
  code_text none = "None"
  code_text (some c) = str c

  abbrev pub obb_name : DownloadPlan → PackageFile → String
  obb_name plan p = or_fallback p.name (
      String.◌++◌ (obb_kind p.kind) (
        String.◌++◌ (code_text plan.version_code)
          (String.◌++◌ "." (String.◌++◌ plan.package_name ".obb"))))

  abbrev pub split_id : PackageFile → String
  split_id p =
      if is_base_apk p.kind then "base" else or_fallback (text_or_empty p.split_name) (stem p.name)

  -- One turn of the loop over the files of the plan.
  unfoldable pub add_file : DownloadPlan → PackageFile → List ℕ → Build → Build
  add_file plan p source b =
      if is_obb p.kind
      then record b {
        tree =
            dict_set (joined "Android/obb" (joined plan.package_name (obb_name plan p))) source
              b.tree;
        total_size = b.total_size + size source;
      }
      else record {
        tree = dict_set p.name source b.tree;
        total_size = b.total_size + size source;
        split_apks = b.split_apks ++ (record { file = p.name; id = split_id p } ∷ []);
        split_configs =
            if is_split_apk p.kind then b.split_configs ++ (split_id p ∷ []) else b.split_configs;
      }

  -- `files[name]` raises KeyError on a name that was not fetched.
  unfoldable pub add_files : DownloadPlan → Fetched → List PackageFile → Build → Outcome Build
  unfolding add_file
  add_files plan got [] b = returned b
  add_files plan got (p ∷ ps) b = elim (content p.name got) [
    | none ↦ exception p.name
    | some source ↦ add_files plan got ps (add_file plan p source b)
  ]

  abbrev pub some_text : Option ℕ → Option String
  some_text none = none
  some_text (some c) = some (str c)

  abbrev pub manifest_json : DownloadPlan → Build → XapkManifest
  manifest_json plan b = record {
    package_name = plan.package_name;
    name = plan.app_name;
    version_code = some_text plan.version_code;
    version_name = plan.version_name;
    total_size = b.total_size;
    split_apks = b.split_apks;
    split_configs = b.split_configs;
  }

  -- The file that ZipFile makes of the manifest and the directory.
  abbrev pub packed :
      (XapkManifest → List (String × List ℕ) → List ℕ)
      → DownloadPlan
      → Outcome Build
      → Outcome (List ℕ)
  packed zip plan (returned b) = returned (zip (manifest_json plan b) b.tree)
  packed zip plan (provider_exception e) = provider_exception e
  packed zip plan (exception m) = exception m

  unfoldable pub build :
      (XapkManifest → List (String × List ℕ) → List ℕ) → DownloadPlan → Fetched → Outcome (List ℕ)
  unfolding add_files
  build zip plan got = packed zip plan (
      add_files plan got plan.files
        (record { tree = []; total_size = 0; split_apks = []; split_configs = [] }))
