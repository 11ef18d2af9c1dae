-- ===== src/Aptoide/Selection.antt =====
-- Which app `_get_app_by_package_or_search` of app/providers/aptoide.py chooses.
use android_package_service.Base.{
  ◌≡◌, refl, ap, ◌∙◌, String, true, some, List, [], ◌∷◌, inl, inr, ◌⊎◌, In, Bool-cases,
  Option-cases, find, find-some, eq_iff,
}
use android_package_service.Domain.{ErrorCode, ProviderError, not_found}
use android_package_service.Orchestrator.{returned, provider_exception}
use android_package_service.Json.{Json, Fields, get, text}
use android_package_service.Api.{is_not_found}
use android_package_service.Aptoide.{
  Texts, Response, search_items, ◌>>=◌, pure, get_app, search_app, get_app_by_package_or_search,
  get_found, request_json, concat, is_text,
}
use android_package_service.Aptoide.Splits.{Outcome-cases, bind-returned}

is_not_found-error : (c : ErrorCode) → is_not_found c ≡ true → c ≡ not_found
is_not_found-error not_found h = refl
is_not_found-error ErrorCode.network_error h = absurd cc
is_not_found-error ErrorCode.auth_error h = absurd cc
is_not_found-error ErrorCode.bad_response h = absurd cc
is_not_found-error ErrorCode.verify_failed h = absurd cc
is_not_found-error ErrorCode.unsupported h = absurd cc

is_text-eq : (name : String) (j : Json) → is_text name j ≡ true → j ≡ text name
is_text-eq name (text s) h = ap text ((eq_iff s name).0 h)
is_text-eq name Json.null h = absurd cc
is_text-eq name (Json.bool b) h = absurd cc
is_text-eq name (Json.number n) h = absurd cc
is_text-eq name (Json.list items) h = absurd cc
is_text-eq name (Json.object fields) h = absurd cc

-- The path of a search.
abbrev pub search_path : Texts → String → String
search_path texts name = concat ("apps/search/query=" ∷ texts.quote name ∷ "/limit=10/aab=1" ∷ [])

-- A search from the state is answered, the answer lists an item under the package's own name, and the
-- payload is the answer to the request for this item.
pub record IsListed {W : Type 0} (texts : Texts)
    (fetch : String → List (String × String) → W → W × Response) (name : String) (w : W)
    (payload : Fields) : Type 0 where
  pub reply : Fields
  pub items : List Fields
  pub item : Fields
  pub asked : (request_json texts fetch (search_path texts name) [] w).1 ≡ returned reply
  pub listed : search_items reply ≡ returned items
  pub present : In item items
  pub same_package : get "package" item ≡ text name
  pub answer :
      (get_found texts fetch
        (some item)
        (request_json texts fetch (search_path texts name) [] w).0).1
      ≡ returned payload

module _ {W : Type 0} (texts : Texts)
    (fetch : String → List (String × String) → W → W × Response) where
  search_app-IsListed :
      (name : String) (w : W) (payload : Fields)
      → (search_app texts fetch name w).1 ≡ returned payload
      → IsListed texts fetch name w payload
  unfolding search_app get_found
  search_app-IsListed name w payload h =
      let path = search_path texts name in
      let wanted = λ (item : Fields). is_text name (get "package" item) in
      let asked =
        bind-returned (request_json texts fetch path [])
          (λ search.
            pure (search_items search) >>= λ items. get_found texts fetch (find wanted items))
          w payload h in
      let w' = (request_json texts fetch path [] w).0 in
      let listed =
        bind-returned (pure (search_items asked.0))
          (λ items. get_found texts fetch (find wanted items)) w' payload asked.2 in
      elim (Option-cases (find wanted listed.0)) [
        | inl gone ↦ absurd (cc (rw gone at (listed.2)))
        | inr (item, e) ↦
            let found = find-some wanted listed.0 item e in
            record {
              reply = asked.0;
              items = listed.0;
              item = item;
              asked = asked.1;
              listed = listed.1;
              present = found.0;
              same_package = is_text-eq name (get "package" item) found.1;
              answer = rw e at (listed.2);
            }
      ]

  -- The request for the name was answered, or the search after it said that nothing was found.
  abbrev pub Sought : String → W → Fields → Type 0
  Sought name w payload =
      let first = get_app texts fetch (concat ("package_name=" ∷ texts.quote name ∷ [])) w in
      (first.1 ≡ returned payload)
      ⊎ ((e : ProviderError) × (first.1 ≡ provider_exception e)
          × (e.error ≡ not_found)
          × IsListed texts fetch name first.0 payload)

  -- What is returned for a package is the answer of the request for its name, or, if that request
  -- said that nothing was found, the answer for an item that a search lists under exactly this name.
  pub get_app_by_package_or_search_sound :
      (name : String) (w : W) (payload : Fields)
      → (get_app_by_package_or_search texts fetch name w).1 ≡ returned payload
      → Sought name w payload
  unfolding get_app_by_package_or_search
  get_app_by_package_or_search_sound name w payload h =
      let first = get_app texts fetch (concat ("package_name=" ∷ texts.quote name ∷ [])) w in
      elim (Outcome-cases first.1) [
        | inl (a, e) ↦ inl (e ∙ (rw (e, get_app_by_package_or_search) at h))
        | inr (inr (t, e)) ↦ inl (e ∙ (rw (e, get_app_by_package_or_search) at h))
        | inr (inl (x, e)) ↦ elim (Bool-cases (is_not_found x.error)) [
          | inl y ↦
              let searched = rw (e, y, get_app_by_package_or_search) at h in
              inr (
                x,
                e,
                is_not_found-error x.error y,
                search_app-IsListed name first.0 payload searched,
              )
          | inr n ↦ inl (e ∙ (rw (e, n, get_app_by_package_or_search) at h))
        ]
      ]
