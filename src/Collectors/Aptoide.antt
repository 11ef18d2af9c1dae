-- ===== src/Collectors/Aptoide.antt =====
-- `_records` and `_record` of app/catalog/collectors/aptoide.py.
use android_package_service.Base.{
  ℕ, String, Option, none, some, List, [], ◌∷◌, ◌++◌, ◌==◌, if◌then◌else◌, any, or_else,
}
use android_package_service.Orchestrator.{Outcome, returned, provider_exception, exception}
use android_package_service.Json.{
  Json, null, bool, number, text, list, object, Fields, end, lookup, get, fields_of, or_json,
  str_or_none, int_of,
}
use android_package_service.Json.Access.{items_in}
use android_package_service.Catalog.Versions.{DownloadKey, VersionRecord}
use android_package_service.Collectors.Dates.{date_of}

-- A pair whose value is not None.
abbrev pub keep_value : String → Json → DownloadKey
keep_value key null = []
keep_value key (bool b) = (key, bool b) ∷ []
keep_value key (number n) = (key, number n) ∷ []
keep_value key (text s) = (key, text s) ∷ []
keep_value key (list items) = (key, list items) ∷ []
keep_value key (object fields) = (key, object fields) ∷ []

-- `value.get(key)` of a dictionary, and None of what is none.
abbrev pub value_below : String → Json → Json
value_below key value = get key (or_else (fields_of value) end)

module _ (int_text : String → Option ℕ) (decimal : ℕ → Option ℕ) where
  abbrev pub record_of : Fields → Fields → Option String → Option VersionRecord
  record_of item file none = none
  record_of item file (some name) = some (record {
    version_name = name;
    version_code = int_of int_text (get "vercode" file);
    release_date = date_of decimal (or_json (get "added" file) (get "updated" file));
    last_release_date = none;
    download_key =
        some (keep_value "app_id" (get "id" item) ++ keep_value "md5" (get "md5sum" file));
  })

  -- `_record`
  unfoldable pub aptoide_record : Json → Option VersionRecord
  unfolding date_of lookup
  aptoide_record item = elim (fields_of item) [
    | none ↦ none
    | some fields ↦
        let file = or_else (fields_of (get "file" fields)) end in
        record_of fields file (str_or_none (get "vername" file))
  ]

  -- The loop over the items: each name once.
  unfoldable pub keep_new : List String → List Json → List VersionRecord
  unfolding aptoide_record
  keep_new seen [] = []
  keep_new seen (item ∷ rest) =
      let skipped = keep_new seen rest in
      elim (aptoide_record item) [
        | none ↦ skipped
        | some r ↦
            if any (λ n. n == r.version_name) seen
            then skipped
            else r ∷ keep_new (r.version_name ∷ seen) rest
      ]

  abbrev pub records_from : Json → Outcome (List Json) → Outcome (List VersionRecord)
  records_from meta (returned items) = returned (keep_new [] (meta ∷ items))
  records_from meta (provider_exception e) = provider_exception e
  records_from meta (exception t) = exception t

  -- `_records`: the current version, then the list of versions.
  unfoldable pub aptoide_records : Fields → Outcome (List VersionRecord)
  unfolding keep_new
  aptoide_records payload =
      let nodes = get "nodes" payload in
      records_from (value_below "data" (value_below "meta" nodes))
        (items_in (value_below "list" (value_below "versions" nodes)))
