-- ===== src/Aptoide/Provider.antt =====
-- The provider of app/providers/aptoide.py: `get_download_plan` and `get_package_info`.
use android_package_service.Base.{
  ℕ, String, ◌&&◌, Option, none, some, List, [], ◌∷◌, ◌==◌, if◌then◌else◌, is_none,
}
use android_package_service.Domain.{AndroidPackageRequest, PackageFile, DownloadPlan}
use android_package_service.Orchestrator.{Provider, returned}
use android_package_service.Json.{number, text, Fields, get, or_json, str_or_none}
use android_package_service.Filenames.{text_or_empty}
use android_package_service.Aptoide.Payload.{
  Texts, concat, app_data, file, package_name, version_name, version_items, version_code,
}
use android_package_service.Aptoide.Requests.{
  Response, Step, pure, ◌>>=◌, get_app_by_package_or_search, select_version, is_zero,
}
use android_package_service.Aptoide.Files.{files}

-- app/domain/models.py
pub record PackageVersion : Type 0 where
  pub version_code : Option ℕ
  pub version_name : Option String
  pub download_url : Option String
  pub provider_version_id : Option String

pub record AndroidPackageInfo : Type 0 where
  pub package_name : String
  pub app_name : String
  pub version_name : Option String
  pub version_code : Option ℕ
  pub provider : String
  pub download_url : String
  pub versions : List PackageVersion

module _ (texts : Texts) where
  -- `str(app.get("name") or package_name)`
  unfoldable pub app_name : Fields → String → String
  app_name app name = texts.str (or_json (get "name" app) (text name))

  abbrev pub version_params : Option ℕ → Option String → List (String × String)
  version_params (some c) name = ("versionCode", texts.str (number c)) ∷ []
  version_params none name =
      if text_or_empty name == "" then [] else ("versionName", text_or_empty name) ∷ []

  -- `_download_url`
  unfoldable pub download_url_of : String → Option ℕ → Option String → String
  download_url_of name code version = concat (
      "/api/v1/android/apps/"
      ∷ texts.quote name
      ∷ "/download?"
      ∷ texts.urlencode (("provider", "aptoide") ∷ version_params code version)
      ∷ [])

  -- `_versions`: the items with a code or a name.
  unfoldable pub versions_of : String → List Fields → List PackageVersion
  unfolding download_url_of
  versions_of name [] = []
  versions_of name (item ∷ rest) =
      let code = version_code texts item in
      let version = version_name item in
      if is_zero code && is_none version
      then versions_of name rest
      else record {
        version_code = code;
        version_name = version;
        download_url = some (download_url_of name code version);
        provider_version_id = str_or_none (or_json (get "id" item) (get "md5sum" (file item)));
      }
        ∷ versions_of name rest

module _ {W : Type 0} (texts : Texts)
    (fetch : String → List (String × String) → W → W × Response) where
  abbrev pub plan_with : AndroidPackageRequest → Fields → String → List PackageFile → DownloadPlan
  plan_with q app name found = record {
    package_name = name;
    app_name = app_name texts app q.package_name;
    version_name = version_name app;
    version_code = version_code texts app;
    provider = "aptoide";
    files = found;
  }

  -- The plan, once the app is chosen.
  unfoldable pub plan_of : AndroidPackageRequest → Fields → Step W DownloadPlan
  plan_of q app = do
    name ← pure (package_name app)
    found ← files texts fetch app
    pure (returned (plan_with q app name found))

  -- `get_download_plan`
  unfoldable pub get_download_plan : AndroidPackageRequest → Step W DownloadPlan
  unfolding plan_of
  get_download_plan q = do
    payload ← get_app_by_package_or_search texts fetch q.package_name
    app ← select_version texts fetch payload q
    plan_of q app

  -- `get_package_info`
  unfoldable pub get_package_info : AndroidPackageRequest → Step W AndroidPackageInfo
  unfolding versions_of
  get_package_info q = do
    payload ← get_app_by_package_or_search texts fetch q.package_name
    app ← pure (app_data payload)
    items ← pure (version_items payload)
    name ← pure (package_name app)
    pure (
        returned (record {
          package_name = name;
          app_name = app_name texts app q.package_name;
          version_name = version_name app;
          version_code = version_code texts app;
          provider = "aptoide";
          download_url = download_url_of texts q.package_name none none;
          versions = versions_of texts q.package_name items;
        }))

  -- The provider as the orchestrator takes it.
  unfoldable pub aptoide : ℕ → Provider W
  unfolding get_download_plan
  aptoide priority = record {
    id = "aptoide";
    priority = priority;
    get_download_plan = get_download_plan;
  }
