-- ===== src/Aptoide/Answers.antt =====
-- The request of app/providers/aptoide.py that is enough for a plan.
use android_package_service.Base.{
  ◌≡◌, refl, ap, ◌∙◌, String, true, false, ◌||◌, ◌&&◌, none, some, List, [], ◌∷◌, if◌then◌else◌,
}
use android_package_service.Domain.{AndroidPackageRequest, PackageFileType, obb_main, obb_patch}
use android_package_service.Orchestrator.{Outcome, returned, provider_exception, exception}
use android_package_service.Json.{Fields, get, object, fields_of, str_or_none}
use android_package_service.Aptoide.{
  Texts, Response, answered, concat, app_data, matches, Step, ◌>>=◌, pure, asks_nothing,
  select_version, get_app, request_json, payload_of, get_app_by_package_or_search, package_name,
  obb_entry, obb_file, split_files, aab_splits, all_splits, wants_splits, file, base_file,
  file_list, files_at, files, metadata, plan_with, plan_of, or_search, dynamic_splits, is_empty,
  objects, get_download_plan,
}

obb_entry_absent :
    (texts : Texts) (meta : List (String × String)) (app : Fields) (key : String)
    (kind : PackageFileType)
    → fields_of (get "obb" app) ≡ none
    → obb_entry texts meta app key kind ≡ returned []
unfolding obb_entry obb_file
obb_entry_absent texts meta app key kind h =
    let gone : obb_file app key ≡ none = rw (h, obb_file) refl in rw (gone, obb_entry) refl

-- What follows a result.
abbrev after : {W A B : Type 0} → (A → Step W B) → W × Outcome A → W × Outcome B
after f r = elim r.1 [
  | returned a ↦ f a r.0
  | provider_exception e ↦ (r.0, provider_exception e)
  | exception t ↦ (r.0, exception t)
]

bind-eq :
    {W A B : Type 0} (m : Step W A) (f : A → Step W B) (w w' : W) (a : A)
    → m w ≡ (w', returned a)
    → (m >>= f) w ≡ f a w'
bind-eq m f w w' a h = ap (after f) h

module _ {W : Type 0} (texts : Texts)
    (fetch : String → List (String × String) → W → W × Response) where
  -- The path of the request for a package.
  abbrev pub package_path : String → String
  package_path name =
      concat ("app/get/" ∷ concat ("package_name=" ∷ texts.quote name ∷ []) ∷ "/aab=1" ∷ [])

  get_app_answered :
      (name : String) (w w' : W) (reason : String) (payload : Fields)
      → fetch (package_path name) [] w ≡ (w', answered 200 reason (some (object payload)))
      → get_app texts fetch (concat ("package_name=" ∷ texts.quote name ∷ [])) w
        ≡ (w', returned payload)
  unfolding get_app request_json payload_of
  get_app_answered name w w' reason payload f = rw (f, request_json) refl

  get_app_by_package_or_search_answered :
      (name : String) (w w' : W) (payload : Fields)
      → get_app texts fetch (concat ("package_name=" ∷ texts.quote name ∷ [])) w
        ≡ (w', returned payload)
      → get_app_by_package_or_search texts fetch name w ≡ (w', returned payload)
  unfolding get_app_by_package_or_search
  get_app_by_package_or_search_answered name w w' payload got =
      ap (λ (r : W × Outcome Fields). or_search texts fetch name r.0 r.1) got

  all_splits_answered :
      (app : Fields) (w : W)
      → fields_of (get "aab" app) ≡ none
      → all_splits texts fetch app w ≡ (w, returned [])
  unfolding all_splits aab_splits wants_splits
  all_splits_answered app w bundle =
      let listed : aab_splits app ≡ returned [] = rw (bundle, aab_splits) refl in
      let wanted : wants_splits app ≡ false = rw (bundle, wants_splits) refl in
      bind-eq (pure (aab_splits app))
        (λ splits.
          if is_empty splits && wants_splits app
          then dynamic_splits texts fetch (texts.str (get "md5sum" (file app)))
          else pure (returned (objects splits)))
        w w [] (ap (λ o. (w, o)) listed)
      ∙ rw wanted refl

  files_answered :
      (app : Fields) (w : W) (url : String)
      → str_or_none (get "path" (file app)) ≡ some url
      → fields_of (get "aab" app) ≡ none
      → fields_of (get "obb" app) ≡ none
      → files texts fetch app w ≡ (w, returned (base_file texts app url ∷ []))
  unfolding files files_at file_list split_files
  files_answered app w url p bundle obb =
      let meta = metadata texts app in
      let main = obb_entry_absent texts meta app "main" obb_main obb in
      let patch = obb_entry_absent texts meta app "patch" obb_patch obb in
      let listed : file_list texts app url [] ≡ returned (base_file texts app url ∷ []) =
        rw (main, patch) refl in
      rw (p, files)
        (bind-eq (all_splits texts fetch app) (λ splits. pure (file_list texts app url splits)) w w
            [] (all_splits_answered app w bundle)
          ∙ ap (λ o. (w, o)) listed)

  -- If the request for the package is answered with 200 and an app that has a name, a file, no bundle
  -- and no OBB files, and this app is what is wished for, a plan of it with the base file alone is
  -- returned after this one request.
  pub get_download_plan_answered :
      (q : AndroidPackageRequest) (w w' : W) (reason : String) (payload app : Fields)
      (name url : String)
      → fetch (package_path q.package_name) [] w ≡ (w', answered 200 reason (some (object payload)))
      → app_data payload ≡ returned app
      → (asks_nothing q || matches texts q app) ≡ true
      → package_name app ≡ returned name
      → str_or_none (get "path" (file app)) ≡ some url
      → fields_of (get "aab" app) ≡ none
      → fields_of (get "obb" app) ≡ none
      → get_download_plan texts fetch q w
        ≡ (w', returned (plan_with texts fetch q app name (base_file texts app url ∷ [])))
  unfolding get_download_plan select_version plan_of
  get_download_plan_answered q w w' reason payload app name url f a m n p bundle obb =
      let plan = plan_with texts fetch q app name (base_file texts app url ∷ []) in
      let asked =
        get_app_by_package_or_search_answered q.package_name w w' payload
          (get_app_answered q.package_name w w' reason payload f) in
      let chosen : select_version texts fetch payload q w' ≡ (w', returned app) =
        rw (a, select_version) (rw m refl) in
      let planned : plan_of texts fetch q app w' ≡ (w', returned plan) =
        bind-eq (pure (package_name app))
          (λ named. files texts fetch app >>= λ found.
            pure (returned (plan_with texts fetch q app named found)))
          w' w' name (ap (λ o. (w', o)) n)
        ∙ bind-eq (files texts fetch app)
            (λ found. pure (returned (plan_with texts fetch q app name found))) w' w'
            (base_file texts app url ∷ []) (files_answered app w' url p bundle obb) in
      bind-eq (get_app_by_package_or_search texts fetch q.package_name)
        (λ payload. select_version texts fetch payload q >>= plan_of texts fetch q) w w' payload
        asked
      ∙ bind-eq (select_version texts fetch payload q) (plan_of texts fetch q) w' w' app chosen
      ∙ planned
