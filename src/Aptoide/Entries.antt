-- ===== src/Aptoide/Entries.antt =====
-- The files that app/providers/aptoide.py makes of an app: the metadata, the splits and the OBB files.
use android_package_service.Base.{
  ℕ, String, Option, none, some, List, [], ◌∷◌, ◌++◌, ◌==◌, if◌then◌else◌, any, or_else,
}
use android_package_service.Domain.{PackageFile, PackageFileType, split_apk}
use android_package_service.Orchestrator.{Outcome, returned, provider_exception, exception}
use android_package_service.Json.{
  Json, null, number, text, object, Fields, end, get, fields_of, or_json, str_or_none, int_of,
}
use android_package_service.Json.Access.{dict_of}
use android_package_service.Download.{ends_with_apk}
use android_package_service.Aptoide.Payload.{
  Texts, concat, file, package_name, obb_file, version_code, named_or_url,
}

abbrev pub keep_text : String → Option String → List (String × String)
keep_text key none = []
keep_text key (some s) = if s == "" then [] else (key, s) ∷ []

-- `x.get(key)` where `x` is a dictionary, and None elsewhere.
abbrev pub below : String → Json → Json
below key value = get key (or_else (fields_of value) end)

abbrev pub without_apk : String → String
without_apk String.[] = ""
without_apk (String.◌∷◌ c s) = if String.◌∷◌ c s == ".apk" then "" else String.◌∷◌ c (without_apk s)

-- The name of the file and the name of the split.
abbrev pub split_names : String → String × String
split_names name =
    if ends_with_apk name then (name, without_apk name) else (concat (name ∷ ".apk" ∷ []), name)

-- A file of the source; what is not named here is empty.
abbrev pub file_at :
    PackageFileType
    → String
    → String
    → Option ℕ
    → Option String
    → List (String × String)
    → PackageFile
file_at kind name url size md5 metadata = record {
  kind = kind;
  name = name;
  source_type = "url";
  url = some url;
  source_url = none;
  source_path = none;
  headers = [];
  proxy = none;
  fallback_urls = [];
  size = size;
  md5 = md5;
  sha1 = none;
  sha256 = none;
  split_name = none;
  split_type = none;
  metadata = metadata;
}

abbrev pub alternatives : String → Option String → List String
alternatives url none = []
alternatives url (some other) = if other == url then [] else other ∷ []

module _ (texts : Texts) where
  abbrev pub signature_text : Json → Option String
  signature_text signature = elim (fields_of signature) [
    | some fields ↦ some (texts.dumps (object fields))
    | none ↦ str_or_none signature
  ]

  -- `_metadata`
  unfoldable pub metadata : Fields → List (String × String)
  metadata app =
      keep_text "store.name" (str_or_none (below "name" (get "store" app)))
      ++ keep_text "file.signature" (signature_text (get "signature" (file app)))
      ++ keep_text "file.malware.rank" (str_or_none (below "rank" (get "malware" (file app))))

  -- The file of a split, which has a name or none.
  abbrev pub named_split : List (String × String) → Fields → String → Option String → PackageFile
  named_split meta split url name =
      let named = split_names (or_else name "split") in
      let plain =
        file_at split_apk named.0 url (int_of texts.int_text (get "filesize" split))
          (str_or_none (get "md5sum" split)) meta in
      record plain { split_name = some named.1; split_type = str_or_none (get "type" split) }

  abbrev pub split_file : List (String × String) → Fields → String → Outcome PackageFile
  split_file meta split url = elim (named_or_url texts (str_or_none (get "name" split)) url) [
    | returned name ↦ returned (named_split meta split url name)
    | provider_exception e ↦ provider_exception e
    | exception t ↦ exception t
  ]

  abbrev pub add_file :
      Outcome PackageFile → Outcome (List PackageFile) → Outcome (List PackageFile)
  add_file (returned f) (returned rest) = returned (f ∷ rest)
  add_file (returned f) (provider_exception e) = provider_exception e
  add_file (returned f) (exception t) = exception t
  add_file (provider_exception e) rest = provider_exception e
  add_file (exception t) rest = exception t

  -- The loop over the splits: each URL once.
  unfoldable pub split_files :
      List (String × String) → List String → List Json → Outcome (List PackageFile)
  split_files meta seen [] = returned []
  split_files meta seen (value ∷ rest) =
      let skipped = split_files meta seen rest in
      elim (dict_of value) [
        | provider_exception e ↦ provider_exception e
        | exception t ↦ exception t
        | returned split ↦ elim (str_or_none (get "path" split)) [
          | none ↦ skipped
          | some url ↦
              if any (λ s. s == url) seen
              then skipped
              else add_file (split_file meta split url) (split_files meta (url ∷ seen) rest)
        ]
      ]

  -- `_obb_name`
  unfoldable pub obb_name : Fields → String → String → Fields → Outcome String
  obb_name found url key app =
      let own = str_or_none (or_json (get "filename" found) (get "name" found)) in
      elim (named_or_url texts own url) [
        | provider_exception e ↦ provider_exception e
        | exception t ↦ exception t
        | returned (some name) ↦ returned name
        | returned none ↦ elim (package_name app) [
          | provider_exception e ↦ provider_exception e
          | exception t ↦ exception t
          | returned name ↦ returned (
              concat (
                key
                ∷ "."
                ∷ texts.str (number (or_else (version_code texts app) 0))
                ∷ "."
                ∷ name
                ∷ ".obb"
                ∷ []))
        ]
      ]

  abbrev pub text_of : Json → String
  text_of (text s) = s
  text_of null = ""
  text_of (Json.bool b) = ""
  text_of (number n) = ""
  text_of (Json.list items) = ""
  text_of (object fields) = ""

  -- One turn of the loop over the two OBB files.
  unfoldable pub obb_entry :
      List (String × String) → Fields → String → PackageFileType → Outcome (List PackageFile)
  obb_entry meta app key kind = elim (obb_file app key) [
    | none ↦ returned []
    | some found ↦
        let url = text_of (get "path" found) in
        elim (obb_name found url key app) [
          | provider_exception e ↦ provider_exception e
          | exception t ↦ exception t
          | returned name ↦ returned (
              file_at kind name url (int_of texts.int_text (get "filesize" found))
                (str_or_none (get "md5sum" found)) meta
              ∷ [])
        ]
  ]
