-- ===== src/Monitor/Items.antt =====
-- Each provider has one item in what `_providers` of app/api/monitor.py makes.
use android_package_service.Base.{
  ◌+◌, ◌≤◌, ◌≡◌, refl, subst, String, Bool, Option, none, some, List, [], ◌∷◌, ◌==◌, arith, inl,
  inr, if◌then◌else◌, Bool-cases, any, count, count-any, eq_iff,
}
use android_package_service.Domain.{ProviderError}
use android_package_service.Filenames.{or_fallback}
use android_package_service.Jobs.{Row}
use android_package_service.Api.{is_succeeded}
use android_package_service.Monitor.{
  is_failed, ProviderItem, new_item, change_item, with_success, with_failure, add_errors,
  add_success, errors_or_none, add_row, add_rows, sort_by,
}
use android_package_service.Monitor.Sums.{one_if, total_of-count, total_of-sort_by}

abbrev pub of_provider : String → ProviderItem → Bool
of_provider n i = i.provider == n

-- No two items are of one provider.
abbrev pub AreDistinct : List ProviderItem → Type 0
AreDistinct items = (n : String) → count (of_provider n) items ≤ 1

pub AreDistinct-nil : AreDistinct []
unfolding count
AreDistinct-nil n = omega arith

module _ (name : String) (f : ProviderItem → ProviderItem)
    (same : (i : ProviderItem) → (f i).provider ≡ i.provider) where
  count-change_item :
      (n : String) (items : List ProviderItem)
      → count (of_provider n) (change_item name f items)
        ≡ count (of_provider n) items
          + (if any (of_provider name) items then 0 else if name == n then 1 else 0)
  unfolding change_item count any
  count-change_item n [] = rw (same (new_item name)) (omega arith)
  count-change_item n (i ∷ is) = elim (Bool-cases (i.provider == name)) [
    | inl y ↦ rw y (rw (same i) (omega arith))
    | inr z ↦ rw z (ground (arith, count-change_item n is))
  ]

  change_item-AreDistinct :
      (items : List ProviderItem) → AreDistinct items → AreDistinct (change_item name f items)
  change_item-AreDistinct items once n = elim (Bool-cases (any (of_provider name) items)) [
    | inl y ↦ omega (arith, rw y at (count-change_item n items), once n)
    | inr z ↦ elim (Bool-cases (name == n)) [
      | inl e ↦
          let fresh : count (of_provider n) items ≡ 0 =
            subst (λ v. count (of_provider v) items ≡ 0) ((eq_iff name n).0 e)
              (count-any (of_provider name) items z) in
          omega (arith, rw (z, e) at (count-change_item n items))
      | inr d ↦ omega (arith, rw (z, d) at (count-change_item n items), once n)
    ]
  ]

add_errors-AreDistinct :
    (es : List ProviderError) (items : List ProviderItem)
    → AreDistinct items
    → AreDistinct (add_errors es items)
unfolding add_errors
add_errors-AreDistinct [] items once = once
add_errors-AreDistinct (e ∷ es) items once =
    let name = or_fallback e.provider "unknown" in
    add_errors-AreDistinct es (change_item name (with_failure e.error) items)
      (change_item-AreDistinct name (with_failure e.error) (λ i. refl) items once)

add_success-AreDistinct :
    (o : Option String) (items : List ProviderItem)
    → AreDistinct items
    → AreDistinct (add_success o items)
add_success-AreDistinct none items once = once
add_success-AreDistinct (some name) items once = elim (Bool-cases (name == "")) [
  | inl y ↦ rw y once
  | inr n ↦ rw n (change_item-AreDistinct name with_success (λ i. refl) items once)
]

add_row-AreDistinct :
    (hit : Row → Option String) (r : Row) (items : List ProviderItem)
    → AreDistinct items
    → AreDistinct (add_row hit r items)
add_row-AreDistinct hit r items once = elim (Bool-cases (is_succeeded r.status)) [
  | inl y ↦ rw y (add_success-AreDistinct (hit r) items once)
  | inr n ↦ elim (Bool-cases (is_failed r.status)) [
    | inl f ↦ rw (n, f) (add_errors-AreDistinct (errors_or_none r.provider_errors) items once)
    | inr g ↦ rw (n, g) once
  ]
]

pub add_rows-AreDistinct :
    (hit : Row → Option String) (rows : List Row) (items : List ProviderItem)
    → AreDistinct items
    → AreDistinct (add_rows hit rows items)
unfolding add_rows
add_rows-AreDistinct hit [] items once = once
add_rows-AreDistinct hit (r ∷ rs) items once =
    add_rows-AreDistinct hit rs (add_row hit r items) (add_row-AreDistinct hit r items once)

pub sort_by-AreDistinct :
    (precedes : ProviderItem → ProviderItem → Bool) (items : List ProviderItem)
    → AreDistinct items
    → AreDistinct (sort_by precedes items)
sort_by-AreDistinct precedes items once n = omega (
  arith,
  once n,
  total_of-count (of_provider n) items,
  total_of-count (of_provider n) (sort_by precedes items),
  total_of-sort_by (λ i. one_if (of_provider n i)) precedes items,
)
