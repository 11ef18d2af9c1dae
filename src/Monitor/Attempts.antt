-- ===== src/Monitor/Attempts.antt =====
-- What `_providers` of app/api/monitor.py adds up to.
use android_package_service.Base.{
  ℕ, ◌+◌, ◌≡◌, refl, sym, String, Bool, true, false, not, ◌&&◌, Option, none, some, ◌==◌, List, [],
  ◌∷◌, arith, inl, inr, if◌then◌else◌, length, Bool-cases, All,
}
use android_package_service.Domain.{ErrorCode, ProviderError}
use android_package_service.Filenames.{or_fallback, text_or_empty}
use android_package_service.Jobs.{Row, Status, queued, running, succeeded, failed}
use android_package_service.Api.{is_succeeded}
use android_package_service.Monitor.{
  is_failed, ProviderItem, new_item, change_item, count_name, code_name, with_success, with_failure,
  add_errors, add_success, errors_or_none, add_row, add_rows,
}
use android_package_service.Monitor.Sums.{total_of, one_if}

total_of-change_item :
    (key : ProviderItem → ℕ) (c : ℕ) (name : String) (f : ProviderItem → ProviderItem)
    → ((i : ProviderItem) → key (f i) ≡ key i + c)
    → key (new_item name) ≡ 0
    → (items : List ProviderItem) → total_of key (change_item name f items) ≡ total_of key items + c
unfolding change_item total_of
total_of-change_item key c name f adds fresh [] = omega (arith, adds (new_item name))
total_of-change_item key c name f adds fresh (i ∷ is) = elim (Bool-cases (i.provider == name)) [
  | inl y ↦ rw y (omega (arith, adds i))
  | inr n ↦ rw n (omega (arith, total_of-change_item key c name f adds fresh is))
]

abbrev pub is_named : Option String → Bool
is_named o = not (text_or_empty o == "")

-- The successes and the failures that a row stands for.
abbrev pub successes_of : (Row → Option String) → Row → ℕ
successes_of hit r = one_if (is_succeeded r.status && is_named (hit r))

abbrev pub failures_of : Row → ℕ
failures_of r = if is_failed r.status then length (errors_or_none r.provider_errors) else 0

total_of-add_success :
    (o : Option String) (items : List ProviderItem)
    → total_of (λ i. i.successes) (add_success o items)
      ≡ total_of (λ i. i.successes) items + one_if (is_named o)
total_of-add_success none items = omega arith
total_of-add_success (some name) items = elim (Bool-cases (name == "")) [
  | inl y ↦ rw y (omega arith)
  | inr n ↦
      rw n (total_of-change_item (λ i. i.successes) 1 name with_success (λ i. refl) refl items)
]

kept-add_success :
    (o : Option String) (items : List ProviderItem)
    → total_of (λ i. i.failures) (add_success o items) ≡ total_of (λ i. i.failures) items
kept-add_success none items = refl
kept-add_success (some name) items = elim (Bool-cases (name == "")) [
  | inl y ↦ rw y refl
  | inr n ↦ rw n (
      omega (
        arith,
        total_of-change_item (λ i. i.failures) 0 name with_success (λ i. omega arith) refl items,
      ))
]

total_of-add_errors :
    (es : List ProviderError) (items : List ProviderItem)
    → (total_of (λ i. i.failures) (add_errors es items)
        ≡ total_of (λ i. i.failures) items + length es)
      × (total_of (λ i. i.successes) (add_errors es items) ≡ total_of (λ i. i.successes) items)
unfolding add_errors
total_of-add_errors [] items = (omega arith, refl)
total_of-add_errors (e ∷ es) items =
    let name = or_fallback e.provider "unknown" in
    let f = with_failure e.error in
    let rest = total_of-add_errors es (change_item name f items) in
    (
      omega (arith, rest.0, total_of-change_item (λ i. i.failures) 1 name f (λ i. refl) refl items),
      omega (
        arith,
        rest.1,
        total_of-change_item (λ i. i.successes) 0 name f (λ i. omega arith) refl items,
      ),
    )

not_both : (s : Status) → is_succeeded s ≡ true → is_failed s ≡ false
not_both queued h = refl
not_both running h = refl
not_both succeeded h = refl
not_both failed h = sym h

total_of-add_row :
    (hit : Row → Option String) (r : Row) (items : List ProviderItem)
    → (total_of (λ i. i.successes) (add_row hit r items)
        ≡ total_of (λ i. i.successes) items + successes_of hit r)
      × (total_of (λ i. i.failures) (add_row hit r items)
          ≡ total_of (λ i. i.failures) items + failures_of r)
total_of-add_row hit r items = elim (Bool-cases (is_succeeded r.status)) [
  | inl y ↦
      rw (y, not_both r.status y)
        (total_of-add_success (hit r) items, omega (arith, kept-add_success (hit r) items))
  | inr n ↦
      let es = errors_or_none r.provider_errors in
      elim (Bool-cases (is_failed r.status)) [
        | inl f ↦
            let both = total_of-add_errors es items in rw (n, f) (omega (arith, both.1), both.0)
        | inr g ↦ rw (n, g) (omega arith, omega arith)
      ]
]

pub total_of-add_rows :
    (hit : Row → Option String) (rows : List Row) (items : List ProviderItem)
    → (total_of (λ i. i.successes) (add_rows hit rows items)
        ≡ total_of (λ i. i.successes) items + total_of (successes_of hit) rows)
      × (total_of (λ i. i.failures) (add_rows hit rows items)
          ≡ total_of (λ i. i.failures) items + total_of failures_of rows)
unfolding add_rows total_of
total_of-add_rows hit [] items = (omega arith, omega arith)
total_of-add_rows hit (r ∷ rs) items =
    let one = total_of-add_row hit r items in
    let rest = total_of-add_rows hit rs (add_row hit r items) in
    (omega (arith, one.0, rest.0), omega (arith, one.1, rest.1))

-- The errors of an item are all of its failures.
abbrev pub IsCounted : ProviderItem → Type 0
IsCounted i = total_of (λ e. e.1) i.errors ≡ i.failures

total_of-count_name :
    (name : String) (counts : List (String × ℕ))
    → total_of (λ e. e.1) (count_name name counts) ≡ total_of (λ e. e.1) counts + 1
unfolding count_name total_of
total_of-count_name name [] = refl
total_of-count_name name ((c, n) ∷ rest) = elim (Bool-cases (c == name)) [
  | inl y ↦ rw y (omega arith)
  | inr z ↦ rw z (omega (arith, total_of-count_name name rest))
]

with_failure-IsCounted :
    (code : ErrorCode) (i : ProviderItem) → IsCounted i → IsCounted (with_failure code i)
with_failure-IsCounted code i h = omega (arith, total_of-count_name (code_name code) i.errors, h)

change_item-IsCounted :
    (name : String) (f : ProviderItem → ProviderItem)
    → ((i : ProviderItem) → IsCounted i → IsCounted (f i))
    → (items : List ProviderItem) → All IsCounted items
    → All IsCounted (change_item name f items)
unfolding change_item total_of
change_item-IsCounted name f keeps [] all = (keeps (new_item name) refl, tt)
change_item-IsCounted name f keeps (i ∷ is) all = elim (Bool-cases (i.provider == name)) [
  | inl y ↦ rw y (keeps i all.0, all.1)
  | inr n ↦ rw n (all.0, change_item-IsCounted name f keeps is all.1)
]

add_errors-IsCounted :
    (es : List ProviderError) (items : List ProviderItem)
    → All IsCounted items
    → All IsCounted (add_errors es items)
unfolding add_errors
add_errors-IsCounted [] items all = all
add_errors-IsCounted (e ∷ es) items all =
    let name = or_fallback e.provider "unknown" in
    add_errors-IsCounted es (change_item name (with_failure e.error) items)
      (change_item-IsCounted name (with_failure e.error) (with_failure-IsCounted e.error) items all)

add_success-IsCounted :
    (o : Option String) (items : List ProviderItem)
    → All IsCounted items
    → All IsCounted (add_success o items)
add_success-IsCounted none items all = all
add_success-IsCounted (some name) items all = elim (Bool-cases (name == "")) [
  | inl y ↦ rw y all
  | inr n ↦ rw n (change_item-IsCounted name with_success (λ i h. h) items all)
]

add_row-IsCounted :
    (hit : Row → Option String) (r : Row) (items : List ProviderItem)
    → All IsCounted items
    → All IsCounted (add_row hit r items)
add_row-IsCounted hit r items all = elim (Bool-cases (is_succeeded r.status)) [
  | inl y ↦ rw y (add_success-IsCounted (hit r) items all)
  | inr n ↦ elim (Bool-cases (is_failed r.status)) [
    | inl f ↦ rw (n, f) (add_errors-IsCounted (errors_or_none r.provider_errors) items all)
    | inr g ↦ rw (n, g) all
  ]
]

pub add_rows-IsCounted :
    (hit : Row → Option String) (rows : List Row) (items : List ProviderItem)
    → All IsCounted items
    → All IsCounted (add_rows hit rows items)
unfolding add_rows
add_rows-IsCounted hit [] items all = all
add_rows-IsCounted hit (r ∷ rs) items all =
    add_rows-IsCounted hit rs (add_row hit r items) (add_row-IsCounted hit r items all)
