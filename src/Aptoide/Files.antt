-- ===== src/Aptoide/Files.antt =====
-- `_files` and `_dynamic_splits` of app/providers/aptoide.py.
use android_package_service.Base.{
  String, Bool, true, false, not, ◌&&◌, none, some, List, [], ◌∷◌, ◌++◌, if◌then◌else◌,
}
use android_package_service.Domain.{PackageFile, base_apk, obb_main, obb_patch, bad_response}
use android_package_service.Orchestrator.{Outcome, returned, provider_exception, exception}
use android_package_service.Json.{
  Json, null, number, text, object, Fields, lookup, get, get_fields, fields_of, truthy, or_json,
  items_of, str_or_none, int_of,
}
use android_package_service.Json.Access.{dict_of}
use android_package_service.Aptoide.Payload.{Texts, fail, is_ok, file, aab_splits}
use android_package_service.Aptoide.Requests.{Response, Step, pure, ◌>>=◌, request_json}
use android_package_service.Aptoide.Entries.{
  file_at, alternatives, metadata, split_files, obb_entry,
}

abbrev pub list_of : Json → List Json
list_of (Json.list items) = items_of items
list_of null = []
list_of (Json.bool b) = []
list_of (number n) = []
list_of (text s) = []
list_of (object fields) = []

-- What the reply to `getDynamicSplits` lists.
unfoldable pub candidates : Fields → Outcome (List Json)
unfolding lookup items_of
candidates payload =
    let first =
      or_json (get "list" payload) (or_json (get "items" payload) (get "splits" payload)) in
    if truthy first
    then returned (list_of first)
    else elim (dict_of (get_fields "datalist" payload)) [
      | provider_exception e ↦ provider_exception e
      | exception t ↦ exception t
      | returned datalist ↦ returned (list_of (get "list" datalist))
    ]

abbrev pub objects : List Fields → List Json
objects [] = []
objects (fields ∷ rest) = object fields ∷ objects rest

abbrev pub is_empty : {A : Type 0} → List A → Bool
is_empty [] = true
is_empty (a ∷ as') = false

-- The app is a bundle that needs splits, and the splits can be asked for.
unfoldable pub wants_splits : Fields → Bool
unfolding lookup
wants_splits app = elim (fields_of (get "aab" app)) [
  | none ↦ false
  | some aab ↦ truthy (get "required_split_types" aab) && truthy (get "md5sum" (file app))
]

-- The lists of files in order, or the first error.
abbrev pub join_files :
    PackageFile
    → Outcome (List PackageFile)
    → Outcome (List PackageFile)
    → Outcome (List PackageFile)
    → Outcome (List PackageFile)
join_files base (returned splits) (returned main) (returned patch) =
    returned (base ∷ splits ++ main ++ patch)
join_files base (returned splits) (returned main) (provider_exception e) = provider_exception e
join_files base (returned splits) (returned main) (exception t) = exception t
join_files base (returned splits) (provider_exception e) patch = provider_exception e
join_files base (returned splits) (exception t) patch = exception t
join_files base (provider_exception e) main patch = provider_exception e
join_files base (exception t) main patch = exception t

module _ (texts : Texts) where
  abbrev pub base_file : Fields → String → PackageFile
  base_file app url =
      record (file_at base_apk "base.apk" url (int_of texts.int_text (get "filesize" (file app)))
        (str_or_none (get "md5sum" (file app))) (metadata texts app)) {
          fallback_urls = alternatives url (str_or_none (get "path_alt" (file app)));
        }

  -- The base file, the splits and the OBB files.
  unfoldable pub file_list : Fields → String → List Json → Outcome (List PackageFile)
  unfolding split_files obb_entry
  file_list app url splits =
      let meta = metadata texts app in
      join_files (base_file app url) (split_files texts meta (url ∷ []) splits)
        (obb_entry texts meta app "main" obb_main) (obb_entry texts meta app "patch" obb_patch)

module _ {W : Type 0} (texts : Texts)
    (fetch : String → List (String × String) → W → W × Response) where
  -- `_dynamic_splits`
  unfoldable pub dynamic_splits : String → Step W (List Json)
  unfolding candidates
  dynamic_splits md5 = do
    payload ← request_json texts fetch "app/getDynamicSplits" (("apk_md5sum", md5) ∷ [])
    pure (if not (is_ok payload) then returned [] else candidates payload)

  unfoldable pub all_splits : Fields → Step W (List Json)
  unfolding dynamic_splits wants_splits
  all_splits app = do
    splits ← pure (aab_splits app)
    if is_empty splits && wants_splits app
        then dynamic_splits (texts.str (get "md5sum" (file app)))
        else pure (returned (objects splits))

  -- The files, once the splits are known.
  unfoldable pub files_at : Fields → String → Step W (List PackageFile)
  unfolding all_splits file_list
  files_at app base_url = do splits ← all_splits app; pure (file_list texts app base_url splits)

  -- `_files`
  unfoldable pub files : Fields → Step W (List PackageFile)
  unfolding files_at
  files app = elim (str_or_none (get "path" (file app))) [
    | none ↦ pure (fail bad_response "Aptoide file.path is missing.")
    | some base_url ↦ files_at app base_url
  ]
