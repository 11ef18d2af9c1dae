-- ===== src/Aptoide/Requests.antt =====
-- The requests of app/providers/aptoide.py and the choice of the app. `fetch` is the HTTP client on the
-- state `W`: the path, the parameters, and the response or the error of the request.
use android_package_service.Base.{
  ℕ, zero, suc, String, Bool, true, false, ◌&&◌, ◌||◌, Option, none, some, List, [], ◌∷◌, ◌==◌,
  if◌then◌else◌, eqb, ltb, leb, find,
}
use android_package_service.Domain.{AndroidPackageRequest, bad_response, not_found, network_error}
use android_package_service.Orchestrator.{Outcome, returned, provider_exception, exception}
use android_package_service.Json.{Json, null, number, Fields, lookup, get, fields_of, truthy}
use android_package_service.Filenames.{text_or_empty}
use android_package_service.Api.{is_not_found}
use android_package_service.Aptoide.Payload.{
  Texts, concat, fail, app_data, file, version_items, search_items, matches,
}

-- What the client answers: an error, or the status, the text of the error that `raise_for_status`
-- raises, and the JSON of the body where it is JSON.
pub data Response : Type 0 where
  request_error : String → Response
  answered : ℕ → String → Option Json → Response

-- A step on the state that returns or raises.
abbrev pub Step : Type 0 → Type 0 → Type 0
Step W A = W → W × Outcome A

infixl 5 ◌>>=◌
abbrev pub ◌>>=◌ : {W A B : Type 0} → Step W A → (A → Step W B) → Step W B
◌>>=◌ m f w =
    let first = m w in
    elim first.1 [
      | returned a ↦ f a first.0
      | provider_exception e ↦ (first.0, provider_exception e)
      | exception t ↦ (first.0, exception t)
    ]

-- What needs no request.
abbrev pub pure : {W A : Type 0} → Outcome A → Step W A
pure o w = (w, o)

abbrev pub json_object : Option Json → Outcome Fields
json_object none = fail bad_response "Aptoide returned non-JSON response."
json_object (some body) = elim (fields_of body) [
  | none ↦ fail bad_response "Aptoide returned invalid JSON response."
  | some payload ↦ returned payload
]

abbrev pub status_message : (Json → String) → ℕ → String → String
status_message str code reason =
    concat ("Aptoide returned HTTP " ∷ str (number code) ∷ ": " ∷ reason ∷ [])

-- What `_request_json` makes of a response; `raise_for_status` raises unless the status is from 200
-- to 299.
unfoldable pub payload_of : (Json → String) → Response → Outcome Fields
payload_of str (request_error reason) =
    fail network_error (concat ("Aptoide request failed: " ∷ reason ∷ []))
payload_of str (answered code reason body) =
    if eqb code 404
    then fail not_found "Aptoide package not found."
    else if ltb code 200 || leb 300 code
    then fail (if leb 500 code then network_error else bad_response)
        (status_message str code reason)
    else json_object body

-- `item.get("package") == package_name`
abbrev pub is_text : String → Json → Bool
is_text name (Json.text s) = s == name
is_text name null = false
is_text name (Json.bool b) = false
is_text name (number n) = false
is_text name (Json.list items) = false
is_text name (Json.object fields) = false

abbrev pub is_zero : Option ℕ → Bool
is_zero none = true
is_zero (some zero) = true
is_zero (some (suc c)) = false

-- `not request.version_code and not request.version_name`
abbrev pub asks_nothing : AndroidPackageRequest → Bool
asks_nothing q = is_zero q.version_code && text_or_empty q.version_name == ""

module _ {W : Type 0} (texts : Texts)
    (fetch : String → List (String × String) → W → W × Response) where
  -- `_request_json`
  unfoldable pub request_json : String → List (String × String) → Step W Fields
  unfolding payload_of
  request_json path params w =
      let answer = fetch path params w in (answer.0, payload_of texts.str answer.1)

  -- `_get_app`
  unfoldable pub get_app : String → Step W Fields
  unfolding request_json
  get_app selector = request_json (concat ("app/get/" ∷ selector ∷ "/aab=1" ∷ [])) []

  abbrev pub get_app_by_id : Json → Step W Fields
  get_app_by_id app_id = get_app (concat ("app_id=" ∷ texts.str app_id ∷ []))

  -- The item of the search, by its id.
  unfoldable pub get_found : Option Fields → Step W Fields
  unfolding get_app lookup
  get_found none = pure (fail not_found "Aptoide package not found.")
  get_found (some item) = elim (get "id" item) [
    | null ↦ pure (fail bad_response "Aptoide search result is missing app id.")
    | Json.bool b ↦ get_app_by_id (Json.bool b)
    | number n ↦ get_app_by_id (number n)
    | Json.text s ↦ get_app_by_id (Json.text s)
    | Json.list items ↦ get_app_by_id (Json.list items)
    | Json.object fields ↦ get_app_by_id (Json.object fields)
  ]

  -- The search, after the package itself was not found.
  unfoldable pub search_app : String → Step W Fields
  unfolding request_json lookup
  search_app name = do
    search ←
        request_json (concat ("apps/search/query=" ∷ texts.quote name ∷ "/limit=10/aab=1" ∷ [])) []
    items ← pure (search_items search)
    get_found (find (λ item. is_text name (get "package" item)) items)

  -- Only what was not found is searched for.
  abbrev pub or_search : String → W → Outcome Fields → W × Outcome Fields
  or_search name w (returned payload) = (w, returned payload)
  or_search name w (exception t) = (w, exception t)
  or_search name w (provider_exception e) =
      if is_not_found e.error then search_app name w else (w, provider_exception e)

  -- `_get_app_by_package_or_search`
  unfoldable pub get_app_by_package_or_search : String → Step W Fields
  unfolding get_app search_app
  get_app_by_package_or_search name w =
      let first = get_app (concat ("package_name=" ∷ texts.quote name ∷ [])) w in
      or_search name first.0 first.1

  abbrev pub by_md5 : Json → Step W Fields
  by_md5 md5 =
      if truthy md5
      then (do
        payload ← get_app (concat ("apk_md5sum=" ∷ texts.quote (texts.str md5) ∷ []))
        pure (app_data payload))
      else pure (fail bad_response "Aptoide version is missing app id and md5.")

  abbrev pub by_id : Json → Step W Fields
  by_id app_id = do payload ← get_app_by_id app_id; pure (app_data payload)

  -- The app of a version of the list.
  unfoldable pub get_version : Option Fields → Step W Fields
  unfolding get_app lookup
  get_version none = pure (fail not_found "Aptoide version not found.")
  get_version (some version) = elim (get "id" version) [
    | null ↦ by_md5 (get "md5sum" (file version))
    | Json.bool b ↦ by_id (Json.bool b)
    | number n ↦ by_id (number n)
    | Json.text s ↦ by_id (Json.text s)
    | Json.list items ↦ by_id (Json.list items)
    | Json.object fields ↦ by_id (Json.object fields)
  ]

  -- `_select_version`; no empty dictionary matches a request that asks for a version.
  unfoldable pub select_version : Fields → AndroidPackageRequest → Step W Fields
  unfolding get_version
  select_version payload q = do
    current ← pure (app_data payload)
    if asks_nothing q || matches texts q current
        then pure (returned current)
        else (do items ← pure (version_items payload); get_version (find (matches texts q) items))
