-- ===== src/Aptoide/Plans.antt =====
-- What a plan of app/providers/aptoide.py looks like.
use android_package_service.Base.{
  ◌≤◌, ◌≡◌, refl, subst, String, List, [], ◌∷◌, ◌++◌, ◌==◌, inl, inr, any, count, All, length,
  arith, Bool-cases, Option-cases,
}
use android_package_service.Domain.{
  AndroidPackageRequest, PackageFile, PackageFileType, DownloadPlan, base_apk, split_apk, obb_main,
  obb_patch,
}
use android_package_service.Orchestrator.{Outcome, returned, provider_exception, exception}
use android_package_service.Json.{Json, Fields, get, str_or_none, int_of}
use android_package_service.Aptoide.{
  Texts, Response, split_files, obb_entry, obb_file, obb_name, ◌>>=◌, pure, text_of, all_splits,
  files_at, files, file, file_at, base_file, join_files, file_list, metadata,
  get_app_by_package_or_search, select_version, package_name, plan_of, plan_with, get_download_plan,
}
use android_package_service.Aptoide.Splits.{
  at, Outcome-cases, bind-returned, IsFresh, split_files-IsFresh,
}

-- One base file, then splits at addresses that are different from each other and from that of the
-- base file, then at most one file of each kind of OBB.
pub record IsInstallable (fs : List PackageFile) : Type 0 where
  pub base : PackageFile
  pub splits : List PackageFile
  pub main : List PackageFile
  pub patch : List PackageFile
  pub in_order : fs ≡ base ∷ splits ++ main ++ patch
  pub base_kind : base.kind ≡ base_apk
  pub split_kinds : All (λ f. f.kind ≡ split_apk) splits
  pub main_kind : All (λ f. f.kind ≡ obb_main) main
  pub patch_kind : All (λ f. f.kind ≡ obb_patch) patch
  pub one_main : length main ≤ 1
  pub one_patch : length patch ≤ 1
  pub distinct : (u : String) → count (at u) (base ∷ splits) ≤ 1

-- At most one file, of the kind.
abbrev pub IsOne : PackageFileType → List PackageFile → Type 0
IsOne kind fs = All (λ f. f.kind ≡ kind) fs × (length fs ≤ 1)

obb_entry-IsOne :
    (texts : Texts) (meta : List (String × String)) (app : Fields) (key : String)
    (kind : PackageFileType) (fs : List PackageFile)
    → obb_entry texts meta app key kind ≡ returned fs
    → IsOne kind fs
unfolding obb_entry
obb_entry-IsOne texts meta app key kind fs h = elim (Option-cases (obb_file app key)) [
  | inl gone ↦
      let same : [] ≡ fs = cc (rw (gone, obb_entry) at h) in
      subst (λ gs. IsOne kind gs) same (tt, omega arith)
  | inr (found, e) ↦
      elim (Outcome-cases (obb_name texts found (text_of texts (get "path" found)) key app)) [
        | inl (name, n) ↦
            let url = text_of texts (get "path" found) in
            let f =
              file_at kind name url (int_of texts.int_text (get "filesize" found))
                (str_or_none (get "md5sum" found)) meta in
            let same : f ∷ [] ≡ fs = cc (rw (e, n, obb_entry) at h) in
            subst (λ gs. IsOne kind gs) same ((refl, tt), omega arith)
        | inr (inl (x, n)) ↦ absurd (cc (rw (e, n, obb_entry) at h))
        | inr (inr (t, n)) ↦ absurd (cc (rw (e, n, obb_entry) at h))
      ]
]

IsInstallable-join_files :
    (texts : Texts) (app : Fields) (url : String) (a b c : Outcome (List PackageFile))
    (fs : List PackageFile)
    → ((gs : List PackageFile) → a ≡ returned gs → IsFresh (url ∷ []) gs)
    → ((gs : List PackageFile) → b ≡ returned gs → IsOne obb_main gs)
    → ((gs : List PackageFile) → c ≡ returned gs → IsOne obb_patch gs)
    → join_files (base_file texts app url) a b c ≡ returned fs
    → IsInstallable fs
unfolding count any
IsInstallable-join_files texts app url (returned splits) (returned main) (returned patch) fs p q r
      h =
    let fresh = p splits refl in
    record {
      base = base_file texts app url;
      splits = splits;
      main = main;
      patch = patch;
      in_order = cc;
      base_kind = refl;
      split_kinds = fresh.kinds;
      main_kind = (q main refl).0;
      patch_kind = (r patch refl).0;
      one_main = (q main refl).1;
      one_patch = (r patch refl).1;
      distinct = λ u. elim (Bool-cases (url == u)) [
        | inl y ↦
            let others : count (at u) splits ≡ 0 = fresh.unseen u (rw y refl) in rw y (omega arith)
        | inr n ↦ rw n (fresh.once u)
      ];
    }
IsInstallable-join_files texts app url (returned _) (returned _) (provider_exception e) fs p q r h =
    absurd cc
IsInstallable-join_files texts app url (returned _) (returned _) (exception t) fs p q r h =
    absurd cc
IsInstallable-join_files texts app url (returned _) (provider_exception e) c fs p q r h = absurd cc
IsInstallable-join_files texts app url (returned _) (exception t) c fs p q r h = absurd cc
IsInstallable-join_files texts app url (provider_exception e) b c fs p q r h = absurd cc
IsInstallable-join_files texts app url (exception t) b c fs p q r h = absurd cc

file_list-IsInstallable :
    (texts : Texts) (app : Fields) (url : String) (splits : List Json) (fs : List PackageFile)
    → file_list texts app url splits ≡ returned fs
    → IsInstallable fs
unfolding file_list
file_list-IsInstallable texts app url splits fs h =
    let meta = metadata texts app in
    IsInstallable-join_files texts app url (split_files texts meta (url ∷ []) splits)
      (obb_entry texts meta app "main" obb_main) (obb_entry texts meta app "patch" obb_patch) fs
      (split_files-IsFresh texts meta (url ∷ []) splits)
      (obb_entry-IsOne texts meta app "main" obb_main)
      (obb_entry-IsOne texts meta app "patch" obb_patch) h

module _ {W : Type 0} (texts : Texts)
    (fetch : String → List (String × String) → W → W × Response) where
  files-IsInstallable :
      (app : Fields) (w : W) (fs : List PackageFile)
      → (files texts fetch app w).1 ≡ returned fs
      → IsInstallable fs
  unfolding files files_at
  files-IsInstallable app w fs h = elim (Option-cases (str_or_none (get "path" (file app)))) [
    | inl gone ↦ absurd (cc (rw (gone, files) at h))
    | inr (url, e) ↦
        let after =
          bind-returned (all_splits texts fetch app)
            (λ splits. pure (file_list texts app url splits)) w fs (rw (e, files) at h) in
        file_list-IsInstallable texts app url after.0 fs after.2
  ]

  plan_of-IsInstallable :
      (q : AndroidPackageRequest) (app : Fields) (w : W) (plan : DownloadPlan)
      → (plan_of texts fetch q app w).1 ≡ returned plan
      → IsInstallable plan.files
  unfolding plan_of
  plan_of-IsInstallable q app w plan h =
      let named =
        bind-returned (pure (package_name app))
          (λ name. files texts fetch app >>= λ found.
            pure (returned (plan_with texts fetch q app name found)))
          w plan h in
      let listed =
        bind-returned (files texts fetch app)
          (λ found. pure (returned (plan_with texts fetch q app named.0 found))) w plan named.2 in
      let same : plan_with texts fetch q app named.0 listed.0 ≡ plan = cc (listed.2) in
      subst (λ (p : DownloadPlan). IsInstallable p.files) same
        (files-IsInstallable app w listed.0 listed.1)

  -- A plan has one base file, then the splits at addresses that are different from each other and from
  -- that of the base file, then at most one OBB file of each kind.
  pub get_download_plan-IsInstallable :
      (q : AndroidPackageRequest) (w : W) (plan : DownloadPlan)
      → (get_download_plan texts fetch q w).1 ≡ returned plan
      → IsInstallable plan.files
  unfolding get_download_plan
  get_download_plan-IsInstallable q w plan h =
      let asked =
        bind-returned (get_app_by_package_or_search texts fetch q.package_name)
          (λ payload. select_version texts fetch payload q >>= plan_of texts fetch q) w plan h in
      let chosen =
        bind-returned (select_version texts fetch asked.0 q) (plan_of texts fetch q) _ plan
          asked.2 in
      plan_of-IsInstallable q chosen.0 _ plan chosen.2
