-- ===== src/Tests/Aptoide.antt =====
-- Runs of app/providers/aptoide.py and app/catalog/collectors.
use android_package_service.Base.{
  ℕ, zero, suc, ◌+◌, String, ◌≡◌, refl, none, some, List, [], ◌∷◌, map, find, any,
}
use android_package_service.Domain.{AndroidPackageRequest, PackageFile, DownloadPlan}
use android_package_service.Orchestrator.{Outcome, returned, provider_exception, exception}
use android_package_service.Download.{ends_with_apk}
use android_package_service.Json.{
  Json, number, text, list, object, Items, nil, cons, Fields, end, field, lookup, dicts,
}
use android_package_service.Aptoide.{
  get_version, matches, version_items, version_name, Texts, Response, answered, concat, status,
  app_data, file, package_name, version_items, aab_splits, obb_file, payload_of, request_json,
  get_app, get_found, search_app, get_app_by_package_or_search, select_version, metadata,
  split_files, obb_entry, wants_splits, all_splits, file_list, files_at, files, plan_of, plan_with,
  base_file, get_download_plan, named_split, search_items,
}
use android_package_service.Aptoide.Plans.{IsInstallable, get_download_plan-IsInstallable}
use android_package_service.Aptoide.Selection.{Sought, get_app_by_package_or_search_sound}
use android_package_service.Aptoide.Wishes.{Selected, select_version_sound}
use android_package_service.Aptoide.Answers.{get_download_plan_answered}

abbrev texts : Texts
texts = record {
  int_text = λ s. none;
  str = λ j. "7";
  quote = λ s. s;
  urlencode = λ ps. "provider=aptoide";
  url_path = λ s. some s;
  dumps = λ j. "{}";
}

abbrev version_file : ℕ → String → Fields
version_file code name =
    field "vercode" (number code)
      (field "vername" (text name) (field "path" (text "https://a/base.apk") end))

-- An app, with more fields of it.
abbrev app_with : ℕ → String → Fields → Fields
app_with code name more =
    field "package" (text "com.example.game")
      (field "id" (number 7) (field "file" (object (version_file code name)) more))

abbrev answer_with : Fields → Items → Fields
answer_with app versions = field "info" (object (field "status" (text "OK") end)) (
    field "nodes"
      (object (
        field "meta" (object (field "data" (object app) end))
          (field "versions" (object (field "list" (list versions) end)) end)))
      end)

abbrev split_at : String → String → Json
split_at name url = object (field "name" (text name) (field "path" (text url) end))

-- Two of the three splits are at one address.
abbrev bundle : Fields
bundle =
    field "aab"
      (object (
        field "splits"
          (list (
            cons (split_at "config.en" "https://a/en.apk") (
              cons (split_at "config.de" "https://a/de.apk")
                (cons (split_at "again" "https://a/en.apk") nil))))
          end))
      end

abbrev fetch : Fields → String → List (String × String) → ℕ → ℕ × Response
fetch payload path params w = (w + 1, answered 200 "" (some (object payload)))

abbrev latest : AndroidPackageRequest
latest = record {
  package_name = "com.example.game";
  version_code = none;
  version_name = none;
  preferred_provider = none;
}

abbrev app : Fields
app = app_with 20 "2.0" bundle

abbrev plain_app : Fields
plain_app = app_with 20 "2.0" end

bundle_names :
    elim (files texts (fetch app) app 0).1 as (λ o. List String) [
      | returned fs ↦ map (λ f. f.name) fs
      | provider_exception e ↦ []
      | exception t ↦ []
    ]
    ≡ "base.apk" ∷ "config.en.apk" ∷ "config.de.apk" ∷ []
unfolding files files_at all_splits aab_splits wants_splits file_list split_files obb_entry obb_file
    file lookup dicts ends_with_apk concat any
bundle_names = refl

get_download_plan_answered_example :
    get_download_plan texts (fetch (answer_with plain_app nil)) latest 0 ≡ (
      1,
      returned (
          plan_with texts
            (fetch (answer_with plain_app nil))
            latest
            plain_app
            "com.example.game"
            (base_file texts plain_app "https://a/base.apk" ∷ [])),
    )
unfolding app_data status lookup package_name file
get_download_plan_answered_example =
    get_download_plan_answered texts (fetch (answer_with plain_app nil)) latest 0 1 ""
      (answer_with plain_app nil) plain_app "com.example.game" "https://a/base.apk" refl refl refl
      refl refl refl refl

abbrev files_in : Outcome DownloadPlan → List PackageFile
files_in (returned plan) = plan.files
files_in (provider_exception e) = []
files_in (exception t) = []

abbrev bundle_files : List PackageFile
bundle_files =
    let meta = metadata texts app in
    base_file texts app "https://a/base.apk"
    ∷ named_split texts meta
        (field "name" (text "config.en") (field "path" (text "https://a/en.apk") end))
        "https://a/en.apk" (some "config.en")
    ∷ named_split texts meta
        (field "name" (text "config.de") (field "path" (text "https://a/de.apk") end))
        "https://a/de.apk" (some "config.de")
    ∷ []

get_download_plan-IsInstallable_example : IsInstallable bundle_files
unfolding get_download_plan get_app_by_package_or_search get_app request_json payload_of
    select_version app_data status package_name plan_of files files_at all_splits aab_splits
    wants_splits file_list split_files obb_entry obb_file file lookup dicts any
get_download_plan-IsInstallable_example =
    get_download_plan-IsInstallable texts (fetch (answer_with app nil)) latest 0
      (plan_with texts (fetch (answer_with app nil)) latest app "com.example.game" bundle_files)
      refl

abbrev older : Fields
older = app_with 10 "1.0" end

abbrev old_version : AndroidPackageRequest
old_version = record latest { version_name = some "1.0" }

abbrev two_versions : Fields
two_versions = answer_with plain_app (cons (object older) nil)

-- The current app has another name, a version of the list has this one, and is asked for.
select_version_sound_example :
    Selected texts (fetch (answer_with older nil)) two_versions old_version 0 older
unfolding select_version app_data status version_items lookup dicts get_app request_json payload_of
    matches file find get_version version_name
select_version_sound_example =
    select_version_sound texts (fetch (answer_with older nil)) two_versions old_version 0 older refl

-- The request for the name is not answered, so there is a search.
abbrev fetch_found : String → List (String × String) → ℕ → ℕ × Response
fetch_found path params zero = (1, answered 404 "" none)
fetch_found path params (suc zero) = (
  2,
  answered 200 "" (
      some (
        object
          (field "status" (text "OK") (field "items" (list (cons (object plain_app) nil)) end)))),
)
fetch_found path params (suc (suc n)) =
    (suc (suc (suc n)), answered 200 "" (some (object two_versions)))

get_app_by_package_or_search_sound_example :
    Sought texts fetch_found "com.example.game" 0 two_versions
unfolding get_app_by_package_or_search get_app request_json payload_of search_app search_items
    status lookup dicts find get_found
get_app_by_package_or_search_sound_example =
    get_app_by_package_or_search_sound texts fetch_found "com.example.game" 0 two_versions refl
