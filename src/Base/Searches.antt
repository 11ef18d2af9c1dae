-- ===== src/Base/Searches.antt =====
-- What the searches of a table return: a row of the table that passes, or nothing where none does.
use Prim.Native.Nat.{ℕ, ◌+◌, ◌≤◌}
use mathlib.Core.Path.{◌≡◌, refl}
use mathlib.Core.Logic.{inl, inr}
use mathlib.Core.Bool.{Bool, true, false}
use mathlib.Core.Option
use mathlib.Core.Option.{Option, none, some}
use mathlib.Core.List.{List, [], ◌∷◌, ◌++◌}
use native.Mathlib.Omega.{arith}
use native.Mathlib.Nat.{le_trans}
use android_package_service.Base.Counts.{count-pos, count-zero, count_zero-All, All-map}
use android_package_service.Base.Tests.{is_some, coalesce, Bool-cases, if◌then◌else◌, Option-cases}
use android_package_service.Base.Rows.{All, In, any, find, count, update, earliest}

module _ {A : Type 0} where
  pub find-some :
      (p : A → Bool) (rows : List A) (a : A) → find p rows ≡ some a → In a rows × (p a ≡ true)
  unfolding find
  find-some p [] a h = absurd (cc)
  find-some p (r ∷ rs) a h = ground (arith, find-some p rs a)

  pub find-none : (p : A → Bool) (rows : List A) → find p rows ≡ none → All (λ r. p r ≡ false) rows
  unfolding find
  find-none p [] h = tt
  find-none p (r ∷ rs) h = ground (arith, find-none p rs)

  All-weaken :
      (key : A → ℕ) (p : A → Bool) (a b : A) (rows : List A)
      → key a ≤ key b
      → All (λ r. p r ≡ true → key b ≤ key r) rows
      → All (λ r. p r ≡ true → key a ≤ key r) rows
  All-weaken key p a b [] h k = tt
  All-weaken key p a b (r ∷ rs) h k = (λ t. le_trans h (k.0 t), All-weaken key p a b rs h k.1)

  none-All :
      (key : A → ℕ) (p : A → Bool) (a : A) (rows : List A)
      → earliest key p rows ≡ none
      → All (λ r. p r ≡ true → key a ≤ key r) rows
  unfolding earliest
  none-All key p a [] h = tt
  none-All key p a (r ∷ rs) h = (λ t. absurd (ground arith), none-All key p a rs (ground arith))

  -- The row that ORDER BY key LIMIT 1 returns is in the table, passes, and no row that passes has a
  -- smaller key.
  pub earliest-some :
      (key : A → ℕ) (p : A → Bool) (rows : List A) (a : A)
      → earliest key p rows ≡ some a
      → In a rows × (p a ≡ true) × All (λ r. p r ≡ true → key a ≤ key r) rows
  unfolding earliest
  earliest-some key p [] a h = absurd (cc)
  earliest-some key p (r ∷ rs) a h = elim (Option-cases (earliest key p rs)) [
    | inl e ↦ ground (arith, none-All key p a rs)
    | inr (s, e) ↦
        let found = earliest-some key p rs s e in ground (arith, found, All-weaken key p a s rs)
  ]

  pub earliest-none :
      (key : A → ℕ) (p : A → Bool) (rows : List A)
      → earliest key p rows ≡ none
      → All (λ r. p r ≡ false) rows
  unfolding earliest
  earliest-none key p [] h = tt
  earliest-none key p (r ∷ rs) h = ground (arith, earliest-none key p rs)

module _ {A : Type 0} where
  pub find-append :
      (q : A → Bool) (xs ys : List A) → find q (xs ++ ys) ≡ coalesce (find q xs) (find q ys)
  unfolding find
  find-append q [] ys = refl
  find-append q (x ∷ xs) ys = ground (arith, find-append q xs ys)

  -- A search by a test that a change keeps finds the same row, changed if the change applies to it.
  pub find-update :
      (q p : A → Bool) (f : A → A) (rows : List A)
      → ((a : A) → q (f a) ≡ q a)
      → find q (update p f rows) ≡ Option.map (λ a. if p a then f a else a) (find q rows)
  unfolding find update
  find-update q p f [] same = refl
  find-update q p f (r ∷ rs) same = ground (arith, same r, find-update q p f rs same)

  -- The only row that passes is the one that is found.
  pub find_only :
      (q : A → Bool) (rows : List A) (a : A)
      → count q rows ≤ 1
      → In a rows
      → q a ≡ true
      → find q rows ≡ some a
  unfolding find count
  find_only q [] a u i h = absurd i
  find_only q (r ∷ rs) a u (inl e) h = ground arith
  find_only q (r ∷ rs) a u (inr i) h = ground (arith, count-pos q rs a i, find_only q rs a)

  pub update-none :
      (p : A → Bool) (f : A → A) (rows : List A) → count p rows ≡ 0 → update p f rows ≡ rows
  unfolding count update
  update-none p f [] h = refl
  update-none p f (r ∷ rs) h = ground (arith, update-none p f rs)

  -- A change of one row that passes a test `p`, after which it does not, takes one from the number.
  pub count-update_one :
      (p q : A → Bool) (f : A → A) (rows : List A) (a : A)
      → count q rows ≤ 1
      → In a rows
      → q a ≡ true
      → p a ≡ true
      → p (f a) ≡ false
      → count p (update q f rows) + 1 ≡ count p rows
  unfolding count update
  count-update_one p q f [] a u i qa pa pf = absurd i
  count-update_one p q f (r ∷ rs) a u (inl e) qa pa pf = ground (arith, update-none q f rs)
  count-update_one p q f (r ∷ rs) a u (inr i) qa pa pf =
      ground (arith, count-pos q rs a i, count-update_one p q f rs a)

  -- If the one row that passes `q` fails a stronger test `p`, no row passes `p`.
  pub count_zero-found :
      (p q : A → Bool) (rows : List A) (a : A)
      → ((x : A) → q x ≡ false → p x ≡ false)
      → count q rows ≤ 1
      → find q rows ≡ some a
      → p a ≡ false
      → count p rows ≡ 0
  unfolding count find
  count_zero-found p q [] a w u e h = refl
  count_zero-found p q (r ∷ rs) a w u e h = elim (Bool-cases (q r)) [
    | inl hit ↦
        let others : count q rs ≡ 0 = ground arith in
        let rest = count-zero p rs (All-map _ _ (λ x f. w x f) rs (count_zero-All q rs others)) in
        ground arith
    | inr miss ↦ ground (arith, w r, count_zero-found p q rs a w)
  ]

  pub any-find : (q : A → Bool) (rows : List A) → any q rows ≡ is_some (find q rows)
  unfolding any find
  any-find q [] = refl
  any-find q (r ∷ rs) = ground (arith, any-find q rs)
