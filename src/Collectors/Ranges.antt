-- ===== src/Collectors/Ranges.antt =====
-- The ranges of app/catalog/collectors/appmagic.py span the dates that they were given.
use android_package_service.Base.{
  ◌+◌, ◌≤◌, ◌≡◌, refl, sym, subst, String, Bool, true, false, Option, none, List, [], ◌∷◌, ◌++◌,
  ◌==◌, inl, inr, if◌then◌else◌, any, count, All, All-zip, count_zero-All, count-any,
  count_zero-any, arith, Bool-cases, eq_iff, eq_refl,
}
use android_package_service.Collectors.{Range, present, with_bounds, merge_dates, add_release}
use android_package_service.Collectors.Bounds.{IsSpan, IsPresent, merge_dates-IsSpan}

abbrev pub named : String → Range → Bool
named n r = r.name == n

-- The dates so far, after a release.
abbrev pub grown : (String → List String) → String → Option String → String → List String
grown known m date n = if n == m then known n ++ present date else known n

with_bounds-name : (m : String) (ds : List String) → (with_bounds m ds).name ≡ m
with_bounds-name m [] = refl
with_bounds-name m (d ∷ ds) = refl

merge_dates-name : (r : Range) (date : Option String) → (merge_dates r date).name ≡ r.name
unfolding merge_dates
merge_dates-name r date =
    with_bounds-name r.name (present r.first ++ present r.last ++ present date)

module _ (known : String → List String) (m : String) (date : Option String)
    (shown : (n : String) → All IsPresent (known n)) where
  -- The merged range spans the grown dates.
  merged-IsSpan :
      (r : Range)
      → (r.name == m) ≡ true
      → IsSpan r (known r.name)
      → IsSpan (merge_dates r date) (grown known m date (merge_dates r date).name)
  merged-IsSpan r y span =
      let same : grown known m date (merge_dates r date).name ≡ known r.name ++ present date =
        rw (merge_dates-name r date) (rw y refl) in
      subst (λ ds. IsSpan (merge_dates r date) ds) (sym same)
        (merge_dates-IsSpan r (known r.name) date (shown r.name) span)

  kept-IsSpan :
      (r : Range)
      → (r.name == m) ≡ false
      → IsSpan r (known r.name)
      → IsSpan r (grown known m date r.name)
  kept-IsSpan r n span = rw n span

  add_release-IsSpan :
      (rs : List Range)
      → All (λ r. IsSpan r (known r.name)) rs
      → count (named m) rs ≤ 1
      → (count (named m) rs ≡ 0 → known m ≡ [])
      → All (λ r. IsSpan r (grown known m date r.name)) (add_release m date rs)
  unfolding add_release count
  add_release-IsSpan [] spans once free =
      let r : Range = record { name = m; first = none; last = none } in
      (merged-IsSpan r (eq_refl m) (free refl, free refl), tt)
  add_release-IsSpan (r ∷ rs) spans once free = elim (Bool-cases (r.name == m)) [
    | inl y ↦
        let others : count (named m) rs ≡ 0 = ground arith in
        rw y (
          merged-IsSpan r y spans.0,
          All-zip (λ r. IsSpan r (known r.name)) (λ r. named m r ≡ false)
              (λ r. IsSpan r (grown known m date r.name)) rs (λ q s n. kept-IsSpan q n s) spans.1
              (count_zero-All (named m) rs others),
        )
    | inr n ↦
        let here : count (named m) rs ≤ 1 = ground arith in
        let free' : count (named m) rs ≡ 0 → known m ≡ [] = λ z. free (rw n z) in
        rw n (kept-IsSpan r n spans.0, add_release-IsSpan rs spans.1 here free')
  ]

count-add_release :
    (m : String) (date : Option String) (n : String) (rs : List Range)
    → count (named n) (add_release m date rs)
      ≡ count (named n) rs + (if any (named m) rs then 0 else if m == n then 1 else 0)
unfolding add_release count any
count-add_release m date n [] =
    let r : Range = record { name = m; first = none; last = none } in
    rw (merge_dates-name r date) (omega arith)
count-add_release m date n (r ∷ rs) = elim (Bool-cases (r.name == m)) [
  | inl y ↦ rw y (rw (merge_dates-name r date) (omega arith))
  | inr z ↦ rw z (ground (arith, count-add_release m date n rs))
]

-- The ranges span the dates that are known of their names, each name has one range at most, and what
-- is known is of a name with a range.
pub record Fits (known : String → List String) (rs : List Range) : Type 0 where
  pub spans : All (λ r. IsSpan r (known r.name)) rs
  pub once : (n : String) → count (named n) rs ≤ 1
  pub missing : (n : String) → count (named n) rs ≡ 0 → known n ≡ []

pub add_release-Fits :
    (known : String → List String) (m : String) (date : Option String) (rs : List Range)
    → ((n : String) → All IsPresent (known n))
    → Fits known rs
    → Fits (grown known m date) (add_release m date rs)
add_release-Fits known m date rs shown fits = record {
  spans = add_release-IsSpan known m date shown rs fits.spans (fits.once m) (fits.missing m);
  once = λ n. elim (Bool-cases (any (named m) rs)) [
    | inl y ↦ omega (arith, rw y at (count-add_release m date n rs), fits.once n)
    | inr z ↦ elim (Bool-cases (m == n)) [
      | inl e ↦
          let fresh : count (named n) rs ≡ 0 =
            subst (λ v. count (named v) rs ≡ 0) ((eq_iff m n).0 e) (count-any (named m) rs z) in
          omega (arith, rw (z, e) at (count-add_release m date n rs))
      | inr d ↦ omega (arith, rw (z, d) at (count-add_release m date n rs), fits.once n)
    ]
  ];
  missing = λ n h.
      let total = count-add_release m date n rs in
      let before : count (named n) rs ≡ 0 = omega arith in
      elim (Bool-cases (n == m)) [
        | inl e ↦
            let same : m ≡ n = sym ((eq_iff n m).0 e) in
            let free : count (named m) rs ≡ 0 = rw same before in
            let test : (m == n) ≡ true = (eq_iff m n).1 same in
            absurd (omega (arith, rw (count_zero-any (named m) rs free, test) at total))
        | inr d ↦ rw d (fits.missing n before)
      ];
}

pub Fits-nil : Fits (λ n. []) []
unfolding count
Fits-nil = record { spans = tt; once = λ n. omega arith; missing = λ n h. refl }
