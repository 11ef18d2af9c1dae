-- ===== src/Download/Files.antt =====
-- The files of a plan after they were fetched.
use Prim.Native.String
use Prim.Native.String.{String}
use android_package_service.Base.{
  ℕ, ◌≡◌, refl, ◌∙◌, ap, eq_iff, subst, ◌≢◌, inl, inr, none, some, List, [], ◌∷◌, All, arith,
}
use android_package_service.Domain.{PackageFile}
use android_package_service.Catalog.Versions.{dict_get}
use android_package_service.Catalog.Versions.Dicts.{dict_get-dict_set, dict_get-dict_set_other}
use android_package_service.Filenames.{safe_part}
use android_package_service.Orchestrator.Outcomes.{Outcome-cases}
use android_package_service.Orchestrator.{Outcome, returned, provider_exception, exception}
use android_package_service.Artifacts.{FileReader, verify_file}
use android_package_service.Download.{
  Network, Disk, Limits, Fetched, dict_del, part_of, keep, content, fetch_one, then_verified,
  fetch_files,
}

abbrev pub target : PackageFile → String
target p = safe_part p.name "unknown"

-- No two files have one name on the disk, and no file has the name of the part file of a later one.
abbrev pub IsApart : PackageFile → PackageFile → Type 0
IsApart p q = (target q ≢ target p) × (target p ≢ part_of (target q))

abbrev pub AreApart : List PackageFile → Type 0
AreApart [] = Unit
AreApart (p ∷ ps) = All (IsApart p) ps × AreApart ps

-- The file is on the disk, and has these bytes.
abbrev pub IsKept : PackageFile → List ℕ → Fetched → Type 0
IsKept p file got =
    (dict_get p.name got.names ≡ some (target p)) × (dict_get (target p) got.dir ≡ some file)

keep-IsKept : (p : PackageFile) (file : List ℕ) (got : Fetched) → IsKept p file (keep p file got)
keep-IsKept p file got = (
  dict_get-dict_set p.name (target p) got.names,
  dict_get-dict_set (target p) file (dict_del (part_of (target p)) got.dir),
)

dict_get-dict_del_other :
    {V : Type 0} (j k : String) (m : List (String × V))
    → j ≢ k
    → dict_get j (dict_del k m) ≡ dict_get j m
unfolding dict_get dict_del
dict_get-dict_del_other j k [] n = refl
dict_get-dict_del_other j k ((i, w) ∷ m) n =
    ground (arith, eq_iff i k, eq_iff i j, dict_get-dict_del_other j k m n)

keep-other :
    (p q : PackageFile) (file other : List ℕ) (got : Fetched)
    → IsApart p q
    → IsKept p file got
    → IsKept p file (keep q other got)
keep-other p q file other got n k = (
  dict_get-dict_set_other p.name q.name (target q) got.names
        (λ e. n.0 (ap (λ s. safe_part s "unknown") e))
      ∙ k.0,
  dict_get-dict_set_other (target p) (target q) other (dict_del (part_of (target q)) got.dir) n.0
      ∙ dict_get-dict_del_other (target p) (part_of (target q)) got.dir n.1
      ∙ k.1,
)

IsKept-content :
    (p : PackageFile) (file : List ℕ) (got : Fetched)
    → IsKept p file got
    → content p.name got ≡ some file
IsKept-content p file got k = rw k.0 k.1

module _ {W : Type 0} (web : Network W) (disk : Disk W) (limits : Limits) (lower : String → String)
    (reader : FileReader (List ℕ)) (files_dir provider : String) where
  then_verified-kept :
      (p : PackageFile) (o : Outcome (List ℕ)) (got later : Fetched)
      → then_verified web disk limits lower reader p provider o got ≡ returned later
      → (file : List ℕ) × (verify_file reader lower (some file) p provider ≡ none)
        × (later ≡ keep p file got)
  then_verified-kept p (returned file) got later h =
      let good : verify_file reader lower (some file) p provider ≡ none = ground arith in
      (file, good, ground arith)
  then_verified-kept p (provider_exception e) got later h = absurd (cc)
  then_verified-kept p (exception m) got later h = absurd (cc)

  -- One turn of the loop that did not raise, and the rest of the loop.
  fetch_files-turn :
      (p : PackageFile) (ps : List PackageFile) (got later : Fetched) (w : W)
      → (fetch_files web disk limits lower reader files_dir provider (p ∷ ps) got w).1
        ≡ returned later
      → (file : List ℕ) × (v : W) × (verify_file reader lower (some file) p provider ≡ none)
        × ((fetch_files web disk limits lower reader files_dir provider ps (keep p file got) v).1
            ≡ returned later)
  unfolding fetch_files
  fetch_files-turn p ps got later w h =
      let part = String.◌++◌ files_dir (String.◌++◌ "/" (part_of (target p))) in
      let one = fetch_one web disk limits lower p part provider w in
      let next_got = then_verified web disk limits lower reader p provider one.1 got in
      elim (Outcome-cases next_got) [
        | inl (got1, e) ↦
            let rest : (fetch_files web disk limits lower reader files_dir provider ps got1 one.0).1
                ≡ returned later =
              ground arith in
            let (file, good, same) = then_verified-kept p one.1 got got1 e in
            (
              file,
              one.0,
              good,
              subst
                  (λ g.
                    (fetch_files web disk limits lower reader files_dir provider ps g one.0).1
                    ≡ returned later)
                  same rest,
            )
        | inr (inl (error, e)) ↦ absurd (ground arith)
        | inr (inr (m, e)) ↦ absurd (ground arith)
      ]

  fetch_files-other :
      (q : PackageFile) (file : List ℕ) (ps : List PackageFile) (got later : Fetched) (w : W)
      → All (IsApart q) ps
      → IsKept q file got
      → (fetch_files web disk limits lower reader files_dir provider ps got w).1 ≡ returned later
      → IsKept q file later
  unfolding fetch_files
  fetch_files-other q file [] got later w n k h =
      let same : got ≡ later = cc in subst (IsKept q file) same k
  fetch_files-other q file (p ∷ ps) got later w n k h =
      let (other, v, good, rest) = fetch_files-turn p ps got later w h in
      fetch_files-other q file ps (keep p other got) later v n.1
        (keep-other q p file other got n.0 k) rest

  -- If no two files of a plan have one name on the disk and no file has the name of a later file's part
  -- file, every file is in its place after they were all fetched, and its bytes passed the
  -- verification.
  pub fetch_files_verified :
      (ps : List PackageFile) (got later : Fetched) (w : W)
      → AreApart ps
      → (fetch_files web disk limits lower reader files_dir provider ps got w).1 ≡ returned later
      → All
          (λ p.
            (file : List ℕ) × (content p.name later ≡ some file)
            × (verify_file reader lower (some file) p provider ≡ none))
          ps
  fetch_files_verified [] got later w d h = tt
  fetch_files_verified (p ∷ ps) got later w d h =
      let (file, v, good, rest) = fetch_files-turn p ps got later w h in
      let kept =
        fetch_files-other p file ps (keep p file got) later v d.0 (keep-IsKept p file got) rest in
      (
        (file, IsKept-content p file later kept, good),
        fetch_files_verified ps (keep p file got) later v d.1 rest,
      )
