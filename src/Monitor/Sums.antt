-- ===== src/Monitor/Sums.antt =====
-- Sums of a number over the rows of a list, as the snapshot of app/api/monitor.py changes them.
use android_package_service.Base.{
  ℕ, ◌+◌, ◌≡◌, refl, Bool, true, false, List, [], ◌∷◌, arith, inl, inr, length, Bool-cases, count,
  update, select, not, All, All-map, ltb, ◌≤◌, le_trans,
}
use android_package_service.Monitor.{insert_by, sort_by, sort_descending}

abbrev pub one_if : Bool → ℕ
one_if true = 1
one_if false = 0

-- The sum of the keys.
unfoldable pub total_of : {A : Type 0} → (A → ℕ) → List A → ℕ
total_of key [] = 0
total_of key (a ∷ as') = key a + total_of key as'

module _ {A : Type 0} where
  pub total_of-one : (as' : List A) → total_of (λ (_ : A). 1) as' ≡ length as'
  unfolding total_of
  total_of-one [] = refl
  total_of-one (a ∷ as') = omega (arith, total_of-one as')

  pub total_of-count :
      (q : A → Bool) (as' : List A) → total_of (λ a. one_if (q a)) as' ≡ count q as'
  unfolding total_of count
  total_of-count q [] = refl
  total_of-count q (a ∷ as') = elim (Bool-cases (q a)) [
    | inl y ↦ rw y (omega (arith, total_of-count q as'))
    | inr n ↦ rw n (omega (arith, total_of-count q as'))
  ]

  pub total_of-rest :
      (q : A → Bool) (as' : List A)
      → count q as' + total_of (λ a. one_if (not (q a))) as' ≡ length as'
  unfolding total_of count
  total_of-rest q [] = refl
  total_of-rest q (a ∷ as') = elim (Bool-cases (q a)) [
    | inl y ↦ rw y (omega (arith, total_of-rest q as'))
    | inr n ↦ rw n (omega (arith, total_of-rest q as'))
  ]

  -- A change that adds to the key of the only row that it meets.
  pub total_of-update_none :
      (key : A → ℕ) (q : A → Bool) (f : A → A) (as' : List A)
      → count q as' ≡ 0
      → total_of key (update q f as') ≡ total_of key as'
  unfolding total_of count update
  total_of-update_none key q f [] h = refl
  total_of-update_none key q f (a ∷ as') h = elim (Bool-cases (q a)) [
    | inl y ↦ absurd (ground arith)
    | inr n ↦ rw n (omega (arith, total_of-update_none key q f as' (ground arith)))
  ]

  pub total_of-update :
      (key : A → ℕ) (c : ℕ) (q : A → Bool) (f : A → A) (as' : List A)
      → ((a : A) → key (f a) ≡ key a + c)
      → count q as' ≡ 1
      → total_of key (update q f as') ≡ total_of key as' + c
  unfolding total_of count update
  total_of-update key c q f [] adds h = absurd (omega arith)
  total_of-update key c q f (a ∷ as') adds h = elim (Bool-cases (q a)) [
    | inl y ↦
        let others : count q as' ≡ 0 = ground arith in
        rw y (omega (arith, adds a, total_of-update_none key q f as' others))
    | inr n ↦
        let here : count q as' ≡ 1 = ground arith in
        rw n (omega (arith, total_of-update key c q f as' adds here))
  ]

  total_of-insert_by :
      (key : A → ℕ) (precedes : A → A → Bool) (a : A) (as' : List A)
      → total_of key (insert_by precedes a as') ≡ key a + total_of key as'
  unfolding total_of insert_by
  total_of-insert_by key precedes a [] = refl
  total_of-insert_by key precedes a (b ∷ bs) = elim (Bool-cases (precedes b a)) [
    | inl y ↦ rw y (omega (arith, total_of-insert_by key precedes a bs))
    | inr n ↦ rw n refl
  ]

  pub total_of-sort_by :
      (key : A → ℕ) (precedes : A → A → Bool) (as' : List A)
      → total_of key (sort_by precedes as') ≡ total_of key as'
  unfolding total_of sort_by
  total_of-sort_by key precedes [] = refl
  total_of-sort_by key precedes (a ∷ as') = omega (
    arith,
    total_of-insert_by key precedes a (sort_by precedes as'),
    total_of-sort_by key precedes as',
  )

module _ {A : Type 0} (P : A → Type 0) (q : A → Bool) where
  pub All-select_if : (as' : List A) → All (λ a. q a ≡ true → P a) as' → All P (select q as')
  unfolding select
  All-select_if [] h = tt
  All-select_if (a ∷ as') h = elim (Bool-cases (q a)) [
    | inl y ↦ rw y (h.0 y, All-select_if as' h.1)
    | inr n ↦ rw n (All-select_if as' h.1)
  ]

  pub All-select : (as' : List A) → All P as' → All P (select q as')
  unfolding select
  All-select [] h = tt
  All-select (a ∷ as') h = elim (Bool-cases (q a)) [
    | inl y ↦ rw y (h.0, All-select as' h.1)
    | inr n ↦ rw n (All-select as' h.1)
  ]

-- The rows are in descending order of their keys.
abbrev pub IsDescending : {A : Type 0} → (A → ℕ) → List A → Type 0
IsDescending key [] = Unit {0}
IsDescending key (a ∷ as') = All (λ b. key b ≤ key a) as' × IsDescending key as'

All-insert_by :
    {A : Type 0} (P : A → Type 0) (precedes : A → A → Bool) (a : A) (as' : List A)
    → P a
    → All P as'
    → All P (insert_by precedes a as')
unfolding insert_by
All-insert_by P precedes a [] p all = (p, tt)
All-insert_by P precedes a (b ∷ bs) p all = elim (Bool-cases (precedes b a)) [
  | inl y ↦ rw y (all.0, All-insert_by P precedes a bs p all.1)
  | inr n ↦ rw n (p, all)
]

pub All-sort_by :
    {A : Type 0} (P : A → Type 0) (precedes : A → A → Bool) (as' : List A)
    → All P as'
    → All P (sort_by precedes as')
unfolding sort_by
All-sort_by P precedes [] all = tt
All-sort_by P precedes (a ∷ as') all =
    All-insert_by P precedes a (sort_by precedes as') all.0 (All-sort_by P precedes as' all.1)

module _ {A : Type 0} (key : A → ℕ) where
  insert-IsDescending :
      (a : A) (as' : List A)
      → IsDescending key as'
      → IsDescending key (insert_by (λ b c. ltb (key c) (key b)) a as')
  unfolding insert_by
  insert-IsDescending a [] d = (tt, tt)
  insert-IsDescending a (b ∷ bs) d = elim (Bool-cases (ltb (key a) (key b))) [
    | inl y ↦
        let below : key a ≤ key b = ground arith in
        rw y (
          All-insert_by (λ c. key c ≤ key b) (λ c e. ltb (key e) (key c)) a bs below d.0,
          insert-IsDescending a bs d.1,
        )
    | inr n ↦
        let above : key b ≤ key a = ground arith in
        rw n ((above, All-map _ _ (λ c le. le_trans le above) bs d.0), d)
  ]

  pub sort_descending-IsDescending : (as' : List A) → IsDescending key (sort_descending key as')
  unfolding sort_by
  sort_descending-IsDescending [] = tt
  sort_descending-IsDescending (a ∷ as') =
      insert-IsDescending a (sort_descending key as') (sort_descending-IsDescending as')
