-- ===== src/Aptoide/Wishes.antt =====
-- What `_select_version` of app/providers/aptoide.py selects is what was wished for.
use android_package_service.Base.{
  ℕ, ◌≡◌, ◌≢◌, refl, sym, ◌∙◌, ap, String, true, false, ◌||◌, Option, none, some, List, [], ◌∷◌,
  if◌then◌else◌, In, inl, inr, ◌⊎◌, arith, Bool-cases, Option-cases, find, find-some, eq_iff,
}
use android_package_service.Domain.{AndroidPackageRequest}
use android_package_service.Orchestrator.{returned}
use android_package_service.Json.{Json, Fields, get, truthy}
use android_package_service.Aptoide.{
  Texts, Response, file, version_code, version_name, app_data, version_items, matches, equals,
  names, ◌>>=◌, pure, asks_nothing, get_version, select_version, get_app, get_app_by_id,
  request_json, concat, by_id, by_md5,
}
use android_package_service.Aptoide.Splits.{bind-returned}

module _ (texts : Texts) where
  -- The app has the code that is wished for, or, if there is none, the name that is wished for.
  abbrev pub IsNamed : Option String → Fields → Type 0
  IsNamed none app = Unit
  IsNamed (some n) app = version_name app ≡ some n

  abbrev pub IsCoded : Option ℕ → Option String → Fields → Type 0
  IsCoded none name app = IsNamed name app
  IsCoded (some c) name app = version_code texts app ≡ some c

  abbrev pub IsWished : AndroidPackageRequest → Fields → Type 0
  IsWished q app = IsCoded q.version_code q.version_name app

  equals_iff :
      (o : Option ℕ) (c : ℕ)
      → ((equals texts o c ≡ true) → o ≡ some c) × ((o ≡ some c) → equals texts o c ≡ true)
  equals_iff none c = (λ h. absurd (cc), λ h. absurd (cc))
  equals_iff (some d) c = (λ h. ground arith, λ h. ground arith)

  names_iff :
      (n : String) (o : Option String)
      → ((names texts (some n) o ≡ true) → o ≡ some n)
        × ((o ≡ some n) → names texts (some n) o ≡ true)
  names_iff n none = (λ h. absurd (cc), λ h. absurd (cc))
  names_iff n (some s) = (λ h. ap some ((eq_iff s n).0 h), λ h. ground (arith, eq_iff s n))

  matches-IsWished :
      (q : AndroidPackageRequest) (app : Fields) → matches texts q app ≡ true → IsWished q app
  unfolding matches
  matches-IsWished q app h = elim (Option-cases q.version_code) [
    | inr (c, e) ↦ rw e ((equals_iff (version_code texts app) c).0 (rw (e, matches) at h))
    | inl e ↦ elim (Option-cases q.version_name) [
      | inr (n, f) ↦ rw (e, f) ((names_iff n (version_name app)).0 (rw (e, f, matches) at h))
      | inl f ↦ rw (e, f) tt
    ]
  ]

  IsWished-matches :
      (q : AndroidPackageRequest) (app : Fields) → IsWished q app → matches texts q app ≡ true
  unfolding matches
  IsWished-matches q app h = elim (Option-cases q.version_code) [
    | inr (c, e) ↦ rw (e, matches) ((equals_iff (version_code texts app) c).1 (rw e at h))
    | inl e ↦ elim (Option-cases q.version_name) [
      | inr (n, f) ↦ rw (e, f, matches) ((names_iff n (version_name app)).1 (rw (e, f) at h))
      | inl f ↦ rw (e, f, matches) refl
    ]
  ]

-- The app is the one in the answer to the request for the version: by its id, or by its checksum if it
-- has no id.
pub record IsAnswer {W : Type 0} (texts : Texts)
    (fetch : String → List (String × String) → W → W × Response) (version : Fields) (w : W)
    (app : Fields) : Type 0 where
  pub selector : String
  pub reply : Fields
  pub selected :
      ((get "id" version ≢ Json.null)
        × (selector ≡ concat ("app_id=" ∷ texts.str (get "id" version) ∷ [])))
      ⊎ ((get "id" version ≡ Json.null)
          × (truthy (get "md5sum" (file version)) ≡ true)
          × (selector
              ≡ concat
                  ("apk_md5sum=" ∷ texts.quote (texts.str (get "md5sum" (file version))) ∷ [])))
  pub asked :
      (request_json texts fetch (concat ("app/get/" ∷ selector ∷ "/aab=1" ∷ [])) [] w).1
      ≡ returned reply
  pub is_app : app_data reply ≡ returned app

module _ {W : Type 0} (texts : Texts)
    (fetch : String → List (String × String) → W → W × Response) where
  by_id-IsAnswer :
      (version : Fields) (w : W) (app : Fields) (j : Json)
      → get "id" version ≡ j
      → j ≢ Json.null
      → (by_id texts fetch j w).1 ≡ returned app
      → IsAnswer texts fetch version w app
  unfolding get_app
  by_id-IsAnswer version w app j e some_id h =
      let asked =
        bind-returned (get_app_by_id texts fetch j) (λ payload. pure (app_data payload)) w app h in
      record {
        selector = concat ("app_id=" ∷ texts.str j ∷ []);
        reply = asked.0;
        selected =
            inl (λ n. some_id (sym e ∙ n), ap (λ i. concat ("app_id=" ∷ texts.str i ∷ [])) (sym e));
        asked = asked.1;
        is_app = asked.2;
      }

  by_md5-IsAnswer :
      (version : Fields) (w : W) (app : Fields)
      → get "id" version ≡ Json.null
      → (by_md5 texts fetch (get "md5sum" (file version)) w).1 ≡ returned app
      → IsAnswer texts fetch version w app
  unfolding get_app
  by_md5-IsAnswer version w app e h =
      let md5 = get "md5sum" (file version) in
      let selector = concat ("apk_md5sum=" ∷ texts.quote (texts.str md5) ∷ []) in
      elim (Bool-cases (truthy md5)) [
        | inr empty ↦ absurd (cc (rw empty at h))
        | inl full ↦
            let asked =
              bind-returned (get_app texts fetch selector) (λ payload. pure (app_data payload)) w
                app (rw full at h) in
            record {
              selector = selector;
              reply = asked.0;
              selected = inr (e, full, refl);
              asked = asked.1;
              is_app = asked.2;
            }
      ]

  get_version-IsAnswer :
      (version : Fields) (w : W) (app : Fields) (j : Json)
      → get "id" version ≡ j
      → (get_version texts fetch (some version) w).1 ≡ returned app
      → IsAnswer texts fetch version w app
  unfolding get_version
  get_version-IsAnswer version w app Json.null e h =
      by_md5-IsAnswer version w app e (rw (e, get_version) at h)
  get_version-IsAnswer version w app (Json.bool b) e h =
      by_id-IsAnswer version w app (Json.bool b) e (λ n. absurd cc) (rw (e, get_version) at h)
  get_version-IsAnswer version w app (Json.number k) e h =
      by_id-IsAnswer version w app (Json.number k) e (λ n. absurd cc) (rw (e, get_version) at h)
  get_version-IsAnswer version w app (Json.text s) e h =
      by_id-IsAnswer version w app (Json.text s) e (λ n. absurd cc) (rw (e, get_version) at h)
  get_version-IsAnswer version w app (Json.list items) e h =
      by_id-IsAnswer version w app (Json.list items) e (λ n. absurd cc) (rw (e, get_version) at h)
  get_version-IsAnswer version w app (Json.object fields) e h =
      by_id-IsAnswer version w app (Json.object fields) e (λ n. absurd cc)
        (rw (e, get_version) at h)

  -- The current app, if it is as wished or nothing is asked, and else the answer for a version of the
  -- list that is as wished.
  abbrev pub Selected : Fields → AndroidPackageRequest → W → Fields → Type 0
  Selected payload q w app =
      (current : Fields) × (app_data payload ≡ returned current)
      × (((app ≡ current) × ((asks_nothing q ≡ true) ⊎ IsWished texts q current))
          ⊎ ((items : List Fields) × (version : Fields) × (version_items payload ≡ returned items)
              × In version items
              × (asks_nothing q ≡ false)
              × ((IsWished texts q current) → ⊥)
              × IsWished texts q version
              × IsAnswer texts fetch version w app))

  chosen-Selected :
      (payload : Fields) (q : AndroidPackageRequest) (w : W) (app current : Fields)
      → app_data payload ≡ returned current
      → (select_version texts fetch payload q w).1 ≡ returned app
      → Selected payload q w app
  unfolding select_version
  chosen-Selected payload q w app current c h = elim (Bool-cases (asks_nothing q)) [
    | inl free ↦
        let chosen : (asks_nothing q || matches texts q current) ≡ true = rw free refl in
        let same : app ≡ current = cc (rw chosen at (rw (c, select_version) at h)) in
        (current, c, inl (same, inl free))
    | inr asks ↦ elim (Bool-cases (matches texts q current)) [
      | inl right ↦
          let chosen : (asks_nothing q || matches texts q current) ≡ true = rw (asks, right) refl in
          let same : app ≡ current = cc (rw chosen at (rw (c, select_version) at h)) in
          (current, c, inl (same, inr (matches-IsWished texts q current right)))
      | inr wrong ↦
          let other : (asks_nothing q || matches texts q current) ≡ false = rw (asks, wrong) refl in
          let rest : ((pure (version_items payload) >>= λ items.
          get_version texts fetch (find (matches texts q) items))
                w).1
              ≡ returned app =
            rw other at (rw (c, select_version) at h) in
          let listed =
            bind-returned (pure (version_items payload))
              (λ items. get_version texts fetch (find (matches texts q) items)) w app rest in
          elim (Option-cases (find (matches texts q) listed.0)) [
            | inl gone ↦ absurd (cc (rw (gone, get_version) at (listed.2)))
            | inr (version, e) ↦
                let found = find-some (matches texts q) listed.0 version e in
                let answer : (get_version texts fetch (some version) w).1 ≡ returned app =
                  rw e at (listed.2) in
                (
                  current,
                  c,
                  inr (
                    listed.0,
                    version,
                    listed.1,
                    found.0,
                    asks,
                    λ (y : IsWished texts q current).
                        absurd (cc (wrong, IsWished-matches texts q current y)),
                    matches-IsWished texts q version found.1,
                    get_version-IsAnswer version w app (get "id" version) refl answer,
                  ),
                )
          ]
    ]
  ]

  -- An app that is selected is the current one, and then nothing is asked or it is as wished; or the
  -- current one is not as wished, and a version of the list is, and the app is that of the answer to
  -- the request for this version, by its id, or by its checksum where it has no id.
  pub select_version_sound :
      (payload : Fields) (q : AndroidPackageRequest) (w : W) (app : Fields)
      → (select_version texts fetch payload q w).1 ≡ returned app
      → Selected payload q w app
  unfolding select_version
  select_version_sound payload q w app h =
      let current =
        bind-returned (pure (app_data payload))
          (λ current.
            if asks_nothing q || matches texts q current
            then pure (returned current)
            else (pure (version_items payload) >>= λ items.
                get_version texts fetch (find (matches texts q) items)))
          w app h in
      chosen-Selected payload q w app current.0 current.1 h
