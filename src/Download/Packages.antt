-- ===== src/Download/Packages.antt =====
-- What the manifest of a package says that was built.
use Prim.Native.String.{String}
use native.Mathlib.Nat.{add-zero}
use mathlib.Core.List.{append-nil, append_assoc}
use android_package_service.Base.{
  ℕ, ◌+◌, ◌≡◌, refl, ◌∙◌, sym, ap, inl, inr, Option, none, some, List, [], ◌∷◌, ◌++◌, arith,
  Bool-cases, Option-cases, if◌then◌else◌,
}
use android_package_service.Domain.{DownloadPlan, PackageFile}
use android_package_service.Orchestrator.{returned}
use android_package_service.Download.{
  Fetched, content, SplitApk, Build, is_obb, split_id, add_file, add_files,
}

module _ (str : ℕ → String) (stem : String → String) (size : List ℕ → ℕ) where
  abbrev pub size_or_zero : Option (List ℕ) → ℕ
  size_or_zero none = 0
  size_or_zero (some file) = size file

  abbrev pub sum_of_sizes : Fetched → List PackageFile → ℕ
  sum_of_sizes got [] = 0
  sum_of_sizes got (p ∷ ps) = size_or_zero (content p.name got) + sum_of_sizes got ps

  -- The files that are no expansion files, in order.
  abbrev pub apks_of : List PackageFile → List SplitApk
  apks_of [] = []
  apks_of (p ∷ ps) =
      if is_obb p.kind
      then apks_of ps
      else record { file = p.name; id = split_id str stem size p } ∷ apks_of ps

  add_file-total :
      (plan : DownloadPlan) (p : PackageFile) (source : List ℕ) (b : Build)
      → (add_file str stem size plan p source b).total_size ≡ b.total_size + size source
  unfolding add_file
  add_file-total plan p source b = elim (Bool-cases (is_obb p.kind)) [
    | inl obb ↦ rw obb refl
    | inr apk ↦ rw apk refl
  ]

  add_file-apks :
      (plan : DownloadPlan) (p : PackageFile) (ps : List PackageFile) (source : List ℕ) (b : Build)
      → (add_file str stem size plan p source b).split_apks ++ apks_of ps
        ≡ b.split_apks ++ apks_of (p ∷ ps)
  unfolding add_file
  add_file-apks plan p ps source b = elim (Bool-cases (is_obb p.kind)) [
    | inl obb ↦ rw obb refl
    | inr apk ↦ rw apk (
        append_assoc b.split_apks (record { file = p.name; id = split_id str stem size p } ∷ [])
          (apks_of ps))
  ]

  -- The loop over the files of a plan that ends adds their sizes to the total, and every file that is
  -- no expansion file to the list of APKs, in the order of the plan.
  pub add_files_complete :
      (plan : DownloadPlan) (got : Fetched) (ps : List PackageFile) (b later : Build)
      → add_files str stem size plan got ps b ≡ returned later
      → (later.total_size ≡ b.total_size + sum_of_sizes got ps)
        × (later.split_apks ≡ b.split_apks ++ apks_of ps)
  unfolding add_files
  add_files_complete plan got [] b later h =
      let same : b ≡ later = cc in
      (
        sym (ap (λ x. x.total_size) same) ∙ sym (add-zero b.total_size),
        sym (ap (λ x. x.split_apks) same) ∙ sym (append-nil b.split_apks),
      )
  add_files_complete plan got (p ∷ ps) b later h = elim (Option-cases (content p.name got)) [
    | inl missing ↦ absurd (ground arith)
    | inr (source, found) ↦
        let added = add_file str stem size plan p source b in
        let rest : add_files str stem size plan got ps added ≡ returned later = ground arith in
        let (total, listed) = add_files_complete plan got ps added later rest in
        (
          total ∙ ground (arith, add_file-total plan p source b, found),
          listed ∙ add_file-apks plan p ps source b,
        )
  ]
