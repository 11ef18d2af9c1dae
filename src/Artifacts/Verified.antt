-- ===== src/Artifacts/Verified.antt =====
-- What an artifact is like that was accepted.
use Prim.Native.String.{String}
use android_package_service.Base.{
  ℕ, zero, suc, ◌≡◌, refl, true, false, Option, none, some, ◌&&◌, not, arith, eqb, eq_iff, ◌≢◌, ◌⊎◌,
  inl,
}
use android_package_service.Domain.{ProviderError, DownloadPlan, PackageFile}
use android_package_service.Catalog.Versions.{Scalar, null, text, number}
use android_package_service.Artifacts.{
  FileReader, ZipManifest, is_truthy, is_text, differs_code, differs_name, differs_size,
  verify_file, verify_manifest, verify_artifact, first_failure, artifact_file,
}

-- A value that is absent, empty or 0, or this text.
abbrev pub SaysText : Scalar → String → Type 0
SaysText null s = Unit
SaysText (text t) s = (t ≡ "") ⊎ (t ≡ s)
SaysText (number n) s = n ≡ 0

-- A value that is absent, empty or 0, or this code, as a number or as a text.
abbrev pub SaysCode : (ℕ → String) → Scalar → Option ℕ → Type 0
SaysCode str v none = Unit
SaysCode str null (some c) = Unit
SaysCode str (text t) (some c) = (t ≡ "") ⊎ (t ≡ str c)
SaysCode str (number n) (some c) = (n ≡ 0) ⊎ (str n ≡ str c)

abbrev pub SaysName : Scalar → Option String → Type 0
SaysName v none = Unit
SaysName v (some s) = SaysText v s

abbrev pub IsSize : Option ℕ → ℕ → Type 0
IsSize none n = Unit
IsSize (some k) n = n ≡ k

-- What the manifest says, if there is one, is what the plan says.
abbrev pub IsAgreed : (ℕ → String) → Option ZipManifest → DownloadPlan → Type 0
IsAgreed str none plan = Unit
IsAgreed str (some m) plan =
    SaysText m.package_name plan.package_name
    × SaysCode str m.version_code plan.version_code
    × SaysName m.version_name plan.version_name

is_text-SaysText :
    (v : Scalar) (s : String) → (is_truthy v && not (is_text v s)) ≡ false → SaysText v s
is_text-SaysText null s h = tt
is_text-SaysText (text t) s h = ground (arith, eq_iff t "", eq_iff t s)
is_text-SaysText (number zero) s h = refl
is_text-SaysText (number (suc n)) s h = absurd (cc)

differs_code-SaysCode :
    (str : ℕ → String) (v : Scalar) (c : Option ℕ) → differs_code str v c ≡ false → SaysCode str v c
differs_code-SaysCode str v none h = tt
differs_code-SaysCode str null (some c) h = tt
differs_code-SaysCode str (text t) (some c) h = ground (arith, eq_iff t "", eq_iff t (str c))
differs_code-SaysCode str (number zero) (some c) h = inl refl
differs_code-SaysCode str (number (suc n)) (some c) h = ground (arith, eq_iff (str (suc n)) (str c))

differs_name-SaysName :
    (str : ℕ → String) (v : Scalar) (s : Option String)
    → differs_name str v s ≡ false
    → SaysName v s
differs_name-SaysName str v none h = tt
differs_name-SaysName str v (some s) h = is_text-SaysText v s h

differs_size-IsSize : (size : Option ℕ) (n : ℕ) → differs_size size n ≡ false → IsSize size n
differs_size-IsSize none n h = tt
differs_size-IsSize (some k) n h = ground arith

first_failure-none :
    (a b : Option ProviderError) → first_failure a b ≡ none → (a ≡ none) × (b ≡ none)
first_failure-none none b h = (refl, h)
first_failure-none (some e) b h = absurd (cc)

module _ {F : Type 0} (reader : FileReader F) (lower : String → String) (str : ℕ → String) where
  -- There is a file, of the right size, that starts like a ZIP file and agrees with the plan.
  abbrev pub IsAccepted : Option F → Option ℕ → DownloadPlan → Type 0
  IsAccepted none size plan = ⊥
  IsAccepted (some f) size plan =
      (reader.size f ≢ 0)
      × (reader.has_pk_header f ≡ true)
      × IsSize size (reader.size f)
      × IsAgreed str (reader.read_zip_manifest f) plan

  verify_manifest-IsAgreed :
      (name : String) (m : Option ZipManifest) (plan : DownloadPlan)
      → verify_manifest str name m plan ≡ none
      → IsAgreed str m plan
  unfolding verify_manifest
  verify_manifest-IsAgreed name none plan h = tt
  verify_manifest-IsAgreed name (some m) plan h =
      let p : (is_truthy m.package_name && not (is_text m.package_name plan.package_name)) ≡ false =
        ground arith in
      let c : differs_code str m.version_code plan.version_code ≡ false = ground arith in
      let n : differs_name str m.version_name plan.version_name ≡ false = ground arith in
      (
        is_text-SaysText m.package_name plan.package_name p,
        differs_code-SaysCode str m.version_code plan.version_code c,
        differs_name-SaysName str m.version_name plan.version_name n,
      )

  verify_file-empty :
      (p : PackageFile) (provider : String) → ¬ (verify_file reader lower none p provider ≡ none)
  unfolding verify_file
  verify_file-empty p provider h = absurd (cc)

  verify_file-accepts :
      (f : F) (p : PackageFile) (provider : String)
      → verify_file reader lower (some f) p provider ≡ none
      → (reader.size f ≢ 0) × (reader.has_pk_header f ≡ true) × IsSize p.size (reader.size f)
  unfolding verify_file
  verify_file-accepts f p provider h =
      let e : (eqb (reader.size f) 0) ≡ false = ground arith in
      let k : (reader.has_pk_header f) ≡ true = ground arith in
      let s : differs_size p.size (reader.size f) ≡ false = ground arith in
      (ground arith, k, differs_size-IsSize p.size (reader.size f) s)

  -- An artifact that passes the verification exists, is not empty, has the expected size, starts
  -- like a ZIP file and has no manifest that contradicts the plan.
  pub verify_artifact-IsAccepted :
      (name : String) (file : Option F) (plan : DownloadPlan) (size : Option ℕ)
      → verify_artifact reader lower str name file plan size ≡ none
      → IsAccepted file size plan
  unfolding verify_artifact
  verify_artifact-IsAccepted name none plan size h = absurd (
      verify_file-empty (artifact_file name size) plan.provider
        (first_failure-none (verify_file reader lower none (artifact_file name size) plan.provider)
          none h).0)
  verify_artifact-IsAccepted name (some f) plan size h =
      let (file_ok, manifest_ok) =
        first_failure-none
          (verify_file reader lower (some f) (artifact_file name size) plan.provider)
          (verify_manifest str name (reader.read_zip_manifest f) plan) h in
      let (full, zip, right) =
        verify_file-accepts f (artifact_file name size) plan.provider file_ok in
      (
        full,
        zip,
        right,
        verify_manifest-IsAgreed name (reader.read_zip_manifest f) plan manifest_ok,
      )

  file_again :
      (name key : String) (f : F) (provider : String)
      → verify_file reader lower (some f) (artifact_file name none) provider ≡ none
      → verify_file reader lower (some f) (artifact_file key (some (reader.size f))) provider ≡ none
  unfolding verify_file
  file_again name key f provider h = ground arith

  manifest_again :
      (name key : String) (m : Option ZipManifest) (plan : DownloadPlan)
      → verify_manifest str name m plan ≡ none
      → verify_manifest str key m plan ≡ none
  unfolding verify_manifest
  manifest_again name key none plan h = refl
  manifest_again name key (some m) plan h = ground arith

  -- The verification depends neither on the name of the artifact nor on its own size being expected.
  pub verify_artifact_again :
      (name key : String) (f : F) (plan : DownloadPlan)
      → verify_artifact reader lower str name (some f) plan none ≡ none
      → verify_artifact reader lower str key (some f) plan (some (reader.size f)) ≡ none
  unfolding verify_artifact
  verify_artifact_again name key f plan h =
      let (file_ok, manifest_ok) =
        first_failure-none
          (verify_file reader lower (some f) (artifact_file name none) plan.provider)
          (verify_manifest str name (reader.read_zip_manifest f) plan) h in
      rw (file_again name key f plan.provider file_ok)
        (manifest_again name key (reader.read_zip_manifest f) plan manifest_ok)
