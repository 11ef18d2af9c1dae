-- ===== src/Monitor/Tallies.antt =====
-- What the dictionaries of app/api/monitor.py add up to: the packages, the histogram and the providers.
use android_package_service.Base.{
  ℕ, suc, ◌+◌, ◌*◌, ◌≤◌, ◌≡◌, refl, ◌∙◌, true, Option, none, some, ◌==◌, List, [], ◌∷◌, arith, inl,
  inr, length, Bool-cases, count, select, ltb, length-append,
}
use android_package_service.Jobs.{Row}
use android_package_service.Api.{is_succeeded}
use android_package_service.Monitor.{
  is_terminal, is_failed, PackageItem, with_package_job, change_package, add_packages,
  with_duration, duration_of, success_durations, add_to_bucket, fill_buckets, bucket_edges, sum,
}
use android_package_service.Monitor.Sums.{total_of}

abbrev pub new_package : Row → PackageItem
new_package r = record {
  package_name = r.package_name;
  total = 0;
  succeeded = 0;
  failed = 0;
  durations = [];
}

module _ (tenths : ℕ → ℕ) (key : PackageItem → ℕ) (w : Row → ℕ)
    (fresh : (r : Row) → key (new_package r) ≡ 0)
    (adds : (r : Row) (i : PackageItem) → key (with_package_job tenths r i) ≡ key i + w r) where
  total_of-change_package :
      (r : Row) (items : List PackageItem)
      → total_of key (change_package tenths r items) ≡ total_of key items + w r
  unfolding change_package total_of
  total_of-change_package r [] = omega (arith, adds r (new_package r), fresh r)
  total_of-change_package r (i ∷ is) = elim (Bool-cases (i.package_name == r.package_name)) [
    | inl y ↦ rw y (omega (arith, adds r i))
    | inr n ↦ rw n (omega (arith, total_of-change_package r is))
  ]

  pub total_of-add_packages :
      (rows : List Row) (items : List PackageItem)
      → total_of key (add_packages tenths rows items)
        ≡ total_of key items + total_of w (select is_terminal rows)
  unfolding add_packages total_of select
  total_of-add_packages [] items = omega arith
  total_of-add_packages (r ∷ rs) items = elim (Bool-cases (is_terminal r)) [
    | inl y ↦ rw y (
        omega (
          arith,
          total_of-add_packages rs (change_package tenths r items),
          total_of-change_package r items,
        ))
    | inr n ↦ rw n (total_of-add_packages rs items)
  ]

length-with_duration : (tenths : ℕ → ℕ) (d : Option ℕ) → length (with_duration tenths d []) ≤ 1
length-with_duration tenths none = omega arith
length-with_duration tenths (some d) = omega arith

pub length-success_durations :
    (tenths : ℕ → ℕ) (rows : List Row)
    → length (success_durations tenths rows)
      ≤ count (λ r. is_succeeded r.status) (select is_terminal rows)
unfolding success_durations count select
length-success_durations tenths [] = omega arith
length-success_durations tenths (r ∷ rs) =
    let rest = length-success_durations tenths rs in
    let d = with_duration tenths (duration_of tenths r) [] in
    elim (Bool-cases (is_succeeded r.status)) [
      | inl y ↦
          let t : is_terminal r ≡ true = rw y refl in
          let one = length-with_duration tenths (duration_of tenths r) in
          rw t (rw y (omega (arith, rest, one, length-append d (success_durations tenths rs))))
      | inr n ↦ elim (Bool-cases (is_failed r.status)) [
        | inl f ↦ rw n (rw f (rw n rest))
        | inr g ↦ rw n (rw g rest)
      ]
    ]

-- One more count in the histogram for each duration: the last bucket is open.
sum-add_to_bucket :
    (edges : List ℕ) (v : ℕ) (counts : List ℕ)
    → length counts ≡ suc (length edges)
    → sum (add_to_bucket edges v counts) ≡ suc (sum counts)
      × length (add_to_bucket edges v counts) ≡ length counts
unfolding add_to_bucket sum
sum-add_to_bucket edges v [] h = absurd (omega arith)
sum-add_to_bucket [] v (c ∷ cs) h = (omega arith, refl)
sum-add_to_bucket (e ∷ es) v (c ∷ cs) h =
    let rest = sum-add_to_bucket es v cs (omega arith) in
    elim (Bool-cases (ltb v (e * 10000))) [
      | inl y ↦ rw y (omega arith, refl)
      | inr n ↦ rw n (omega (arith, rest.0), omega (arith, rest.1))
    ]

pub sum-fill_buckets :
    (vs counts : List ℕ)
    → length counts ≡ suc (length bucket_edges)
    → sum (fill_buckets vs counts) ≡ sum counts + length vs
unfolding fill_buckets
sum-fill_buckets [] counts h = omega arith
sum-fill_buckets (v ∷ vs) counts h =
    let one = sum-add_to_bucket bucket_edges v counts h in
    omega (arith, sum-fill_buckets vs (add_to_bucket bucket_edges v counts) (one.1 ∙ h), one.0)
