-- ===== src/Collectors/Summary.antt =====
-- The records of app/catalog/collectors/appmagic.py summarise the releases.
use mathlib.Core.Path.{fun_ext}
use mathlib.Core.List.{append_assoc, append-nil}
use android_package_service.Base.{
  ◌≤◌, ◌≡◌, refl, sym, subst, String, Option, none, some, List, [], ◌∷◌, ◌++◌, ◌==◌, inl, inr,
  if◌then◌else◌, count, All, All-append, arith, Bool-cases,
}
use android_package_service.Json.{Fields, get}
use android_package_service.Catalog.Versions.{VersionRecord}
use android_package_service.Collectors.{
  text_le, Range, present, add_release, add_releases, releases_of, release_items, range_record,
  range_records, appmagic_records,
}
use android_package_service.Collectors.Distinct.{has_name}
use android_package_service.Collectors.Bounds.{IsBound, text_ge, IsSpan, IsPresent}
use android_package_service.Collectors.Ranges.{named, grown, Fits, Fits-nil, add_release-Fits}

-- The dates of the releases of a name.
unfoldable pub dates_for : String → List (String × Option String) → List String
dates_for n [] = []
dates_for n ((m, date) ∷ es) =
    let rest = dates_for n es in if n == m then present date ++ rest else rest

grown-dates_for :
    (known : String → List String) (m : String) (date : Option String)
    (es : List (String × Option String)) (n : String)
    → grown known m date n ++ dates_for n es ≡ known n ++ dates_for n ((m, date) ∷ es)
unfolding dates_for
grown-dates_for known m date es n = elim (Bool-cases (n == m)) [
  | inl y ↦ rw y (append_assoc (known n) (present date) (dates_for n es))
  | inr z ↦ rw z refl
]

present-IsPresent : (date : Option String) → All IsPresent (present date)
present-IsPresent none = tt
present-IsPresent (some d) = elim (Bool-cases (d == "")) [ inl y ↦ rw y tt | inr n ↦ rw n (n, tt) ]

grown-IsPresent :
    (known : String → List String) (m : String) (date : Option String)
    → ((n : String) → All IsPresent (known n))
    → (n : String) → All IsPresent (grown known m date n)
grown-IsPresent known m date shown n = elim (Bool-cases (n == m)) [
  | inl y ↦ rw y (All-append IsPresent (known n) (present date) (shown n) (present-IsPresent date))
  | inr z ↦ rw z (shown n)
]

add_releases-Fits :
    (known : String → List String) (es : List (String × Option String)) (rs : List Range)
    → ((n : String) → All IsPresent (known n))
    → Fits known rs
    → Fits (λ n. known n ++ dates_for n es) (add_releases es rs)
unfolding add_releases dates_for
add_releases-Fits known [] rs shown fits =
    subst (λ k. Fits k rs) (fun_ext (λ n. sym (append-nil (known n)))) fits
add_releases-Fits known ((m, date) ∷ es) rs shown fits =
    subst (λ k. Fits k (add_releases es (add_release m date rs)))
      (fun_ext (grown-dates_for known m date es))
      (add_releases-Fits (grown known m date) es (add_release m date rs)
        (grown-IsPresent known m date shown) (add_release-Fits known m date rs shown fits))

-- The dates of the records are the first and the last of the releases of their names, each name has
-- one record at most, and every date is of a name with a record.
pub record IsSummary (es : List (String × Option String)) (records : List VersionRecord)
    : Type 0 where
  pub firsts : All (λ r. IsBound text_le r.release_date (dates_for r.version_name es)) records
  pub lasts : All (λ r. IsBound text_ge r.last_release_date (dates_for r.version_name es)) records
  pub once : (n : String) → count (has_name n) records ≤ 1
  pub missing : (n : String) → count (has_name n) records ≡ 0 → dates_for n es ≡ []

All-range_records :
    (P : Range → Type 0) (Q : VersionRecord → Type 0)
    → ((r : Range) → P r → Q (range_record r))
    → (rs : List Range) → All P rs
    → All Q (range_records rs)
unfolding range_records
All-range_records P Q f [] all = tt
All-range_records P Q f (r ∷ rs) all = (f r all.0, All-range_records P Q f rs all.1)

count-range_records :
    (n : String) (rs : List Range) → count (has_name n) (range_records rs) ≡ count (named n) rs
unfolding count range_records
count-range_records n [] = refl
count-range_records n (r ∷ rs) = ground (arith, count-range_records n rs)

-- The records of a reply have different names; the dates of each are the first and the last of the
-- dates of the releases of its name, if these have dates; every date is of a name with a record.
pub appmagic_records-IsSummary :
    (payload : Fields)
    → IsSummary (releases_of (release_items (get "releases" payload))) (appmagic_records payload)
unfolding appmagic_records
appmagic_records-IsSummary payload =
    let es = releases_of (release_items (get "releases" payload)) in
    let rs = add_releases es [] in
    let fits = add_releases-Fits (λ n. []) es [] (λ n. tt) Fits-nil in
    record {
      firsts =
          All-range_records (λ r. IsSpan r (dates_for r.name es))
            (λ r. IsBound text_le r.release_date (dates_for r.version_name es)) (λ r s. s.0) rs
            fits.spans;
      lasts =
          All-range_records (λ r. IsSpan r (dates_for r.name es))
            (λ r. IsBound text_ge r.last_release_date (dates_for r.version_name es)) (λ r s. s.1) rs
            fits.spans;
      once = λ n. omega (arith, count-range_records n rs, fits.once n);
      missing = λ n h. fits.missing n (omega (arith, count-range_records n rs));
    }
