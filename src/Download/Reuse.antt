-- ===== src/Download/Reuse.antt =====
-- A download that succeeded is not done again.
use Prim.Native.String
use Prim.Native.String.{String}
use text.Mathlib.TextLemmas.{append-eq-nil_iff, nil-append, cons-append}
use android_package_service.Base.{
  ℕ, Bool-cases, ◌≡◌, refl, sym, subst, Bool, true, false, Option, none, some, List, [], ◌∷◌, ◌==◌,
  ◌||◌, eq_iff, find, Option-cases, inl, inr,
}
use android_package_service.Domain.{
  PackageFile, PackageFileType, DownloadPlan, ProviderError, base_apk, split_apk, obb_main,
  obb_patch, xapk, apks, apkm,
}
use android_package_service.Filenames.{artifact_filename}
use android_package_service.Orchestrator.{Outcome, returned, provider_exception, exception}
use android_package_service.Artifacts.{
  FileReader, Backend, verify_artifact, existing, commit, joined, object_key, metadata_prefix,
  is_artifact_key,
}
use android_package_service.Artifacts.Verified.{verify_artifact_again}
use android_package_service.Artifacts.Reuse.{existing-commit}
use android_package_service.Download.{
  Library, World, Network, Disk, Limits, Fetched, is_bundle, expand_bundles, fetch_files, build,
  content, copied, passed, accepted, artifact_name, built, single, finalize_files, finalize,
  committed, finished, expanded_and_finished, fetched_and_finished, files_dir, fetch_and_store,
  download,
}

joined-full : (a b : String) → (joined a b == "") ≡ false
joined-full a b = elim (Bool-cases (joined a b == "")) [
  | inr full ↦ full
  | inl same ↦
      let empty : joined a b ≡ "" = (eq_iff (joined a b) "").0 same in
      let rest : String.◌++◌ "/" b ≡ "" = (append-eq-nil_iff.0 empty).1 in
      let slash : ◌≡◌ {A = String} "/" "" = (append-eq-nil_iff.0 rest).0 in
      let computed : ("/" == "") ≡ true = (eq_iff "/" "").1 slash in absurd (cc)
]

-- A key that ends like an artifact still does after more text in front.
is_artifact_key-append :
    (t s : String) → is_artifact_key s ≡ true → is_artifact_key (String.◌++◌ t s) ≡ true
unfolding is_artifact_key
is_artifact_key-append String.[] s h = subst (λ t. is_artifact_key t ≡ true) (sym (nil-append s)) h
is_artifact_key-append (String.◌∷◌ c t) s h =
    let longer : String = String.◌++◌ t s in
    let suffix : String = String.◌∷◌ c longer in
    let more : is_artifact_key longer ≡ true = is_artifact_key-append t s h in
    let split : is_artifact_key suffix ≡ true =
      elim (Bool-cases (suffix == ".apk" || suffix == ".xapk" || suffix == ".apks")) [
        | inl y ↦ rw (y, is_artifact_key) refl
        | inr n ↦ rw (n, is_artifact_key) more
      ] in
    subst (λ u. is_artifact_key u ≡ true) (sym (cons-append c t s)) split

apk_ends : is_artifact_key ".apk" ≡ true
unfolding is_artifact_key
apk_ends = refl

xapk_ends : is_artifact_key ".xapk" ≡ true
unfolding is_artifact_key
xapk_ends = refl

apks_ends : is_artifact_key ".apks" ≡ true
unfolding is_artifact_key
apks_ends = refl

-- Without a bundle the files stay as they are.
expand_bundles-plain :
    (library : Library) (plan : DownloadPlan) (got : Fetched)
    → find is_bundle plan.files ≡ none
    → expand_bundles library.str library.int_of library.stem library.unzip library.loads plan got
      ≡ returned (plan, got)
unfolding expand_bundles
expand_bundles-plain library plan got h = rw (h, expand_bundles) refl

module _ (library : Library) (reader : FileReader (List ℕ)) where
  -- The artifact was verified, and has the name of one.
  abbrev pub IsVerified : DownloadPlan → Outcome (String × List ℕ) → Type 0
  IsVerified plan (returned (name, file)) =
      (verify_artifact reader library.lower library.str name (some file) plan none ≡ none)
      × (is_artifact_key name ≡ true)
  IsVerified plan (provider_exception e) = Unit
  IsVerified plan (exception m) = Unit

  passed-IsVerified :
      (plan : DownloadPlan) (name : String) (file : List ℕ) (v : Option ProviderError)
      → is_artifact_key name ≡ true
      → verify_artifact reader library.lower library.str name (some file) plan none ≡ v
      → IsVerified plan (passed name file v)
  passed-IsVerified plan name file none a h = (h, a)
  passed-IsVerified plan name file (some e) a h = tt

  accepted-IsVerified :
      (plan : DownloadPlan) (name : String) (o : Outcome (List ℕ))
      → is_artifact_key name ≡ true
      → IsVerified plan (accepted library reader plan name o)
  accepted-IsVerified plan name (returned file) a =
      passed-IsVerified plan name file
        (verify_artifact reader library.lower library.str name (some file) plan none) a refl
  accepted-IsVerified plan name (provider_exception e) a = tt
  accepted-IsVerified plan name (exception m) a = tt

  artifact_name-IsArtifact :
      (plan : DownloadPlan) (suffix : String)
      → is_artifact_key suffix ≡ true
      → is_artifact_key (artifact_name library reader plan suffix) ≡ true
  unfolding artifact_filename
  artifact_name-IsArtifact plan suffix h = is_artifact_key-append _ suffix h

  built-IsVerified :
      (plan : DownloadPlan) (got : Fetched) → IsVerified plan (built library reader plan got)
  built-IsVerified plan got =
      accepted-IsVerified plan (artifact_name library reader plan ".xapk")
        (build library.str library.stem reader.size library.zip plan got)
        (artifact_name-IsArtifact plan ".xapk" xapk_ends)

  single-IsVerified :
      (plan : DownloadPlan) (got : Fetched) (p : PackageFile) (kind : PackageFileType)
      → IsVerified plan (single library reader plan got p kind)
  single-IsVerified plan got p base_apk =
      accepted-IsVerified plan (artifact_name library reader plan ".apk")
        (copied library reader (content p.name got)) (artifact_name-IsArtifact plan ".apk" apk_ends)
  single-IsVerified plan got p xapk =
      accepted-IsVerified plan (artifact_name library reader plan ".xapk")
        (copied library reader (content p.name got))
        (artifact_name-IsArtifact plan ".xapk" xapk_ends)
  single-IsVerified plan got p apks =
      accepted-IsVerified plan (artifact_name library reader plan ".apks")
        (copied library reader (content p.name got))
        (artifact_name-IsArtifact plan ".apks" apks_ends)
  single-IsVerified plan got p split_apk = built-IsVerified plan got
  single-IsVerified plan got p obb_main = built-IsVerified plan got
  single-IsVerified plan got p obb_patch = built-IsVerified plan got
  single-IsVerified plan got p apkm = built-IsVerified plan got

  finalize-IsVerified :
      (plan : DownloadPlan) (got : Fetched) (ps : List PackageFile)
      → IsVerified plan (finalize_files library reader plan got ps)
  finalize-IsVerified plan got [] = built-IsVerified plan got
  finalize-IsVerified plan got (p ∷ []) = single-IsVerified plan got p p.kind
  finalize-IsVerified plan got (p ∷ q ∷ ps) = built-IsVerified plan got

  module _ {W S : Type 0} (web : Network W) (disk : Disk W) (limits : Limits)
      (backend : Backend S (List ℕ) reader.size) (temp_dir : String) (enabled : Bool)
      (now : ℕ) where
    -- What is found in the store for the plan, if the download returned.
    abbrev pub IsStored : DownloadPlan → World W S × Outcome String → Type 0
    IsStored plan (w, returned key) =
        existing reader library.lower library.str backend plan w.store ≡ some key
    IsStored plan (w, provider_exception e) = Unit
    IsStored plan (w, exception m) = Unit

    committed-IsStored :
        (plan : DownloadPlan) (w : World W S) (name : String) (file : List ℕ)
        (r : S × Option String)
        → IsVerified plan (returned (name, file))
        → commit reader library.lower library.str backend plan file
            (object_key library.str plan name)
            w.store
          ≡ r
        → IsStored plan (
            committed library reader web disk limits backend temp_dir enabled now plan file
              (object_key library.str plan name)
              w
              r)
    unfolding object_key
    committed-IsStored plan w name file (s, some m) h e = tt
    committed-IsStored plan w name file (s, none) h e =
        let prefix = metadata_prefix library.str plan in
        let key = joined prefix name in
        existing-commit reader library.lower library.str backend plan plan file key w.store s
          (joined-full prefix name)
          (is_artifact_key-append prefix (String.◌++◌ "/" name)
            (is_artifact_key-append "/" name h.1))
          refl (verify_artifact_again reader library.lower library.str name key file plan h.0) e

    finished-IsStored :
        (plan : DownloadPlan) (w : World W S) (o : Outcome (String × List ℕ))
        → IsVerified plan o
        → IsStored plan
            (finished library reader web disk limits backend temp_dir enabled now plan w o)
    finished-IsStored plan w (returned (name, file)) h =
        committed-IsStored plan w name file
          (commit reader library.lower library.str backend plan file
            (object_key library.str plan name) w.store)
          h refl
    finished-IsStored plan w (provider_exception e) h = tt
    finished-IsStored plan w (exception m) h = tt

    fetched-IsStored :
        (plan : DownloadPlan) (w : World W S) (o : Outcome Fetched)
        → find is_bundle plan.files ≡ none
        → IsStored plan (
            fetched_and_finished library reader web disk limits backend temp_dir enabled now plan w
              o)
    unfolding finalize
    fetched-IsStored plan w (returned got) h =
        subst
          (λ o.
            IsStored plan (
              expanded_and_finished library reader web disk limits backend temp_dir enabled now w
                o))
          (sym (expand_bundles-plain library plan got h))
          (finished-IsStored plan w (finalize library reader plan got)
            (finalize-IsVerified plan got plan.files))
    fetched-IsStored plan w (provider_exception e) h = tt
    fetched-IsStored plan w (exception m) h = tt

    download-IsStored :
        (plan : DownloadPlan) (w : World W S)
        → find is_bundle plan.files ≡ none
        → IsStored plan
            (download library reader web disk limits backend temp_dir enabled now plan w)
    unfolding download
    download-IsStored plan w h =
        let fetched =
          fetch_files web disk limits library.lower reader
            (files_dir library reader web disk limits backend temp_dir enabled now plan)
            plan.provider plan.files (record { dir = []; names = [] }) w.net in
        elim (Option-cases (existing reader library.lower library.str backend plan w.store)) [
          | inl missing ↦
              let fresh : download library reader web disk limits backend temp_dir enabled now plan
                    w
                  ≡ fetch_and_store library reader web disk limits backend temp_dir enabled now plan
                      w =
                rw (missing, download) refl in
              subst (IsStored plan) (sym fresh) (
                fetched-IsStored plan
                  (record { net = fetched.0; store = w.store; ledger = w.ledger }) fetched.1 h)
          | inr (key, found) ↦
              let reused : download library reader web disk limits backend temp_dir enabled now plan
                    w
                  ≡ (w, returned key) =
                rw (found, download) refl in
              subst (IsStored plan) (sym reused) found
        ]

    -- Over a storage backend whose reads do not fail, after a download of a plan without an APKM bundle
    -- returned a key, the same download returns that key again, from the store alone: it changes
    -- nothing.
    pub download-download :
        (plan : DownloadPlan) (w w' : World W S) (key : String)
        → find is_bundle plan.files ≡ none
        → download library reader web disk limits backend temp_dir enabled now plan w
          ≡ (w', returned key)
        → download library reader web disk limits backend temp_dir enabled now plan w'
          ≡ (w', returned key)
    unfolding download
    download-download plan w w' key h e =
        let stored : existing reader library.lower library.str backend plan w'.store ≡ some key =
          subst (IsStored plan) e (download-IsStored plan w h) in
        rw (stored, download) refl
