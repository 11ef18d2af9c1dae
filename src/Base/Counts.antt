-- ===== src/Base/Counts.antt =====
-- How the statements on a table change the number of rows that pass a test.
use Prim.Native.Nat.{◌+◌, ◌≤◌}
use mathlib.Core.Path.{◌≡◌, refl, subst}
use mathlib.Core.Logic.{inl, inr}
use mathlib.Core.Bool.{Bool, true, false, ◌||◌}
use mathlib.Core.List.{List, [], ◌∷◌, ◌++◌}
use native.Mathlib.Omega.{arith}
use android_package_service.Base.Tests.{Bool-cases}
use android_package_service.Base.Rows.{All, In, count, update, select, any}

pub All-of {κ} : {A : Type 0} (P : A → Type κ) → ((a : A) → P a) → (rows : List A) → All P rows
All-of P h [] = tt
All-of P h (r ∷ rs) = (h r, All-of P h rs)

pub All-map {κ μ} :
    {A : Type 0} (P : A → Type κ) (Q : A → Type μ)
    → ((a : A) → P a → Q a)
    → (rows : List A) → All P rows
    → All Q rows
All-map P Q h [] all = tt
All-map P Q h (r ∷ rs) all = (h r all.0, All-map P Q h rs all.1)

pub All-In {κ} :
    {A : Type 0} (P : A → Type κ) (rows : List A) (a : A) → All P rows → In a rows → P a
All-In P [] a h i = absurd i
All-In P (r ∷ rs) a h (inl e) = rw e h.0
All-In P (r ∷ rs) a h (inr i) = All-In P rs a h.1 i

module _ {A : Type 0} (q : A → Bool) where
  pub count-append : (xs ys : List A) → count q (xs ++ ys) ≡ count q xs + count q ys
  unfolding count
  count-append [] ys = omega arith
  count-append (x ∷ xs) ys = ground (arith, count-append xs ys)

  -- A change that makes no further row pass does not raise the number.
  pub count-update-le :
      (p : A → Bool) (f : A → A) (rows : List A)
      → All (λ r. p r ≡ true → q (f r) ≡ true → q r ≡ true) rows
      → count q (update p f rows) ≤ count q rows
  unfolding count update
  count-update-le p f [] h = omega arith
  count-update-le p f (r ∷ rs) h = ground (arith, count-update-le p f rs h.1)

  -- A change that keeps the test on every row that it changes keeps the number.
  pub count-update-eq :
      (p : A → Bool) (f : A → A) (rows : List A)
      → All (λ r. p r ≡ true → q (f r) ≡ q r) rows
      → count q (update p f rows) ≡ count q rows
  unfolding count update
  count-update-eq p f [] h = refl
  count-update-eq p f (r ∷ rs) h = ground (arith, count-update-eq p f rs h.1)

  pub count-select-le : (p : A → Bool) (rows : List A) → count q (select p rows) ≤ count q rows
  unfolding count select
  count-select-le p [] = omega arith
  count-select-le p (r ∷ rs) = ground (arith, count-select-le p rs)

  pub count-zero : (rows : List A) → All (λ r. q r ≡ false) rows → count q rows ≡ 0
  unfolding count
  count-zero [] h = refl
  count-zero (r ∷ rs) h = ground (arith, count-zero rs h.1)

  pub count_zero-All : (rows : List A) → count q rows ≡ 0 → All (λ r. q r ≡ false) rows
  unfolding count
  count_zero-All [] h = tt
  count_zero-All (r ∷ rs) h = ground (arith, count_zero-All rs)

  pub count-pos : (rows : List A) (a : A) → In a rows → q a ≡ true → 1 ≤ count q rows
  unfolding count
  count-pos [] a i h = absurd i
  count-pos (r ∷ rs) a (inl e) h = ground arith
  count-pos (r ∷ rs) a (inr i) h = ground (arith, count-pos rs a i)

  pub count-any : (rows : List A) → any q rows ≡ false → count q rows ≡ 0
  unfolding count any
  count-any [] h = refl
  count-any (r ∷ rs) h = ground (arith, count-any rs)

  -- Where one row at most passes, whatever holds of one that does holds of all that do.
  pub only_row {κ} :
      (P : A → Type κ) (rows : List A) (a : A)
      → count q rows ≤ 1
      → In a rows
      → q a ≡ true
      → P a
      → All (λ r. q r ≡ true → P r) rows
  unfolding count
  only_row P [] a h i t w = tt
  only_row P (r ∷ rs) a h (inl e) t w =
      let none_left : count q rs ≡ 0 = ground arith in
      (λ _. subst P e w, vacuous rs (count_zero-All rs none_left))
    where
      vacuous : (l : List A) → All (λ r. q r ≡ false) l → All (λ r. q r ≡ true → P r) l
      vacuous [] z = tt
      vacuous (x ∷ xs) z = (λ t'. absurd (cc), vacuous xs z.1)
  only_row P (r ∷ rs) a h (inr i) t w = elim (Bool-cases (q r)) [
    | inl hit ↦ absurd (ground (arith, count-pos rs a i t))
    | inr miss ↦ (λ t'. absurd (cc), only_row P rs a (ground arith) i t w)
  ]

pub All-append {κ} :
    {A : Type 0} (P : A → Type κ) (xs ys : List A) → All P xs → All P ys → All P (xs ++ ys)
All-append P [] ys hx hy = hy
All-append P (x ∷ xs) ys hx hy = (hx.0, All-append P xs ys hx.1 hy)

pub All-zip {κ} :
    {A : Type 0} (P Q R : A → Type κ) (rows : List A)
    → ((a : A) → P a → Q a → R a)
    → All P rows
    → All Q rows
    → All R rows
All-zip P Q R [] f hp hq = tt
All-zip P Q R (r ∷ rs) f hp hq = (f r hp.0 hq.0, All-zip P Q R rs f hp.1 hq.1)

module _ {A : Type 0} (q : A → Bool) where
  pub any-append : (xs ys : List A) → any q (xs ++ ys) ≡ (any q xs || any q ys)
  unfolding any
  any-append [] ys = refl
  any-append (x ∷ xs) ys = ground (arith, any-append xs ys)

  pub count_zero-any : (rows : List A) → count q rows ≡ 0 → any q rows ≡ false
  unfolding any count
  count_zero-any [] h = refl
  count_zero-any (r ∷ rs) h = ground (arith, count_zero-any rs)
