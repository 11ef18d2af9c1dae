-- ===== src/Aptoide/Payload.antt =====
-- What app/providers/aptoide.py reads of a payload. A payload, an app and a version are the fields of a
-- dictionary. `Texts` has what the program takes from Python's library: `int` of a text, `str` of
-- a JSON value, `quote`, `urlencode`, the path of `urlparse`, with `none` where it raises ValueError,
-- and `json.dumps` with sorted keys.
use Prim.Native.String
use android_package_service.Base.{
  ℕ, String, Bool, true, false, not, Option, none, some, List, [], ◌∷◌, ◌==◌, if◌then◌else◌, eqb,
  holds_text, or_else,
}
use android_package_service.Domain.{ErrorCode, AndroidPackageRequest, bad_response}
use android_package_service.Orchestrator.{Outcome, returned, provider_exception, exception}
use android_package_service.Json.{
  Json, Fields, end, lookup, get, get_fields, fields_of, or_json, dicts, str_or_none, int_of,
}
use android_package_service.Json.Access.{◌>>=◌, dict_of, dicts_in}
use android_package_service.Api.{filename_of}

pub record Texts : Type 0 where
  pub int_text : String → Option ℕ
  pub str : Json → String
  pub quote : String → String
  pub urlencode : List (String × String) → String
  pub url_path : String → Option String
  pub dumps : Json → String

-- An f-string is the list of its parts.
unfoldable pub concat : List String → String
concat [] = ""
concat (s ∷ ss) = String.◌++◌ s (concat ss)

-- `_fail`
abbrev pub fail : {A : Type 0} → ErrorCode → String → Outcome A
fail code message =
    provider_exception (record { provider = "aptoide"; error = code; message = message })

-- `_status`
unfoldable pub status : Fields → Option String
status payload = elim (fields_of (get "info" payload)) [
  | some info ↦ str_or_none (get "status" info)
  | none ↦ str_or_none (get "status" payload)
]

abbrev pub is_ok : Fields → Bool
is_ok payload = holds_text (status payload) "OK"

abbrev pub data_or_fail : Json → Outcome Fields
data_or_fail value = elim (fields_of value) [
  | some app ↦ returned app
  | none ↦ fail bad_response "Aptoide app data is missing."
]

-- `_app_data`
unfoldable pub app_data : Fields → Outcome Fields
unfolding lookup status
app_data payload = if not (is_ok payload) then fail bad_response "Aptoide status is not OK." else do
  nodes ← dict_of (get_fields "nodes" payload)
  meta ← dict_of (get_fields "meta" nodes)
  data_or_fail (get "data" meta)

-- `_file`
unfoldable pub file : Fields → Fields
file app = or_else (fields_of (get "file" app)) end

-- `_package_name`
unfoldable pub package_name : Fields → Outcome String
package_name app = elim (str_or_none (get "package" app)) [
  | some name ↦ returned name
  | none ↦ fail bad_response "Aptoide package name is missing."
]

-- `_version_name`
unfoldable pub version_name : Fields → Option String
unfolding file
version_name app = str_or_none (get "vername" (file app))

-- `_version_items`
unfoldable pub version_items : Fields → Outcome (List Fields)
unfolding lookup dicts
version_items payload = do
  nodes ← dict_of (get_fields "nodes" payload)
  versions ← dict_of (get_fields "versions" nodes)
  dicts_in (get "list" versions)

-- `_search_items`
unfoldable pub search_items : Fields → Outcome (List Fields)
unfolding lookup dicts status
search_items payload = if not (is_ok payload) then returned [] else do
  datalist ← dict_of (get_fields "datalist" payload)
  dicts_in (or_json (get "list" datalist) (get "items" payload))

-- `_aab_splits`
unfoldable pub aab_splits : Fields → Outcome (List Fields)
unfolding lookup dicts
aab_splits app = elim (fields_of (get "aab" app)) [
  | none ↦ returned []
  | some aab ↦ dicts_in (get "splits" aab)
]

abbrev pub with_path : Fields → Option Fields
with_path value = elim (get "path" value) [
  | Json.text s ↦ some value
  | Json.null ↦ none
  | Json.bool b ↦ none
  | Json.number n ↦ none
  | Json.list items ↦ none
  | Json.object fields ↦ none
]

-- `_obb_file`
unfoldable pub obb_file : Fields → String → Option Fields
unfolding lookup
obb_file app key = elim (fields_of (get "obb" app)) [
  | none ↦ none
  | some obb ↦ elim (fields_of (get key obb)) [ none ↦ none | some value ↦ with_path value ]
]

module _ (texts : Texts) where
  -- `_version_code`
  unfoldable pub version_code : Fields → Option ℕ
  unfolding file lookup
  version_code app = int_of texts.int_text (get "vercode" (file app))

  abbrev pub equals : Option ℕ → ℕ → Bool
  equals none c = false
  equals (some d) c = eqb d c

  abbrev pub names : Option String → Option String → Bool
  names none n = true
  names (some wanted) n = holds_text n wanted

  -- `_matches`: the version code decides, and the name only where there is none.
  unfoldable pub matches : AndroidPackageRequest → Fields → Bool
  matches q app = elim q.version_code [
    | some c ↦ equals (version_code app) c
    | none ↦ names q.version_name (version_name app)
  ]

  -- `_url_name`
  unfoldable pub url_name : String → Outcome (Option String)
  url_name url = elim (texts.url_path url) [
    | none ↦ exception "ValueError"
    | some path ↦ let name = filename_of path in returned (if name == "" then none else some name)
  ]

  -- `name or self._url_name(url)`
  abbrev pub named_or_url : Option String → String → Outcome (Option String)
  named_or_url (some name) url = returned (some name)
  named_or_url none url = url_name url
