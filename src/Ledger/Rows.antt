-- ===== src/Ledger/Rows.antt =====
-- The ledger only grows, by one row for each new fact, and warns of each fact that disagrees.
use android_package_service.Base.{
  ℕ, ◌≤◌, String, ◌≡◌, refl, ◌≢◌, ◌⊎◌, inl, inr, true, false, Bool, Option, none, some, List, [],
  ◌∷◌, ◌++◌, ◌&&◌, ◌||◌, ◌∙◌, arith, All, All-append, All-zip, any, any-append, count, count-append,
  count-any, eq_iff, eq_refl, find, select, Bool-cases, ◌==◌,
}
use android_package_service.Ledger.{Entry, same_key, in_package, inverted, new_entry, upsert}

-- The primary key.
abbrev pub IsKeyed : List Entry → Type 0
IsKeyed rows = (p n : String) (c : ℕ) → count (same_key p n c) rows ≤ 1

any-true : (p : Entry → Bool) (rows : List Entry) → any p rows ≡ true → 1 ≤ count p rows
unfolding any count
any-true p [] h = absurd (cc)
any-true p (r ∷ rs) h = ground (arith, any-true p rs)

-- Two entries of one package whose order by name and by code differ.
abbrev pub disagree : (ℕ → Option ℕ) → Entry → Entry → Bool
disagree decimal a b =
    in_package a.package_name b && inverted decimal a.version_name a.version_code b

disagree_comm : (decimal : ℕ → Option ℕ) (a b : Entry) → disagree decimal a b ≡ disagree decimal b a
disagree_comm decimal a b = ground (
  arith,
  eq_iff a.package_name b.package_name,
  eq_iff b.package_name a.package_name,
  eq_iff a.version_name b.version_name,
  eq_iff b.version_name a.version_name,
)

disagree_irrefl : (decimal : ℕ → Option ℕ) (a : Entry) → disagree decimal a a ≡ false
disagree_irrefl decimal a = ground (arith, eq_refl a.version_name)

-- No two entries of one package disagree.
abbrev pub IsMonotone : (ℕ → Option ℕ) → List Entry → Type 0
IsMonotone decimal rows = All (λ a. All (λ b. disagree decimal a b ≡ false) rows) rows

no_warning :
    (decimal : ℕ → Option ℕ) (p n : String) (c : ℕ) (rows : List Entry)
    → find (inverted decimal n c) (select (in_package p) rows) ≡ none
    → All (λ b. (in_package p b && inverted decimal n c b) ≡ false) rows
unfolding find select
no_warning decimal p n c [] h = tt
no_warning decimal p n c (r ∷ rs) h = ground (arith, no_warning decimal p n c rs)

IsMonotone-append :
    (decimal : ℕ → Option ℕ) (x : Entry) (rows : List Entry)
    → All (λ b. disagree decimal x b ≡ false) rows
    → IsMonotone decimal rows
    → IsMonotone decimal (rows ++ x ∷ [])
IsMonotone-append decimal x rows w m =
    All-append _ rows (x ∷ [])
      (All-zip (λ a. All (λ b. disagree decimal a b ≡ false) rows)
        (λ a. disagree decimal x a ≡ false) _ rows
        (λ a inside last. All-append _ rows (x ∷ []) inside (disagree_comm decimal a x ∙ last, tt))
        m w)
      (All-append _ rows (x ∷ []) w (disagree_irrefl decimal x, tt), tt)

module _ (decimal : ℕ → Option ℕ) (now : ℕ) (p n : String) (source : Option String) where
  -- The primary key holds after every upsert.
  pub upsert-IsKeyed :
      (c : Option ℕ) (rows : List Entry)
      → IsKeyed rows
      → IsKeyed (upsert decimal now p n c source rows).rows
  unfolding upsert count
  upsert-IsKeyed none rows k = k
  upsert-IsKeyed (some c) rows k = λ p' n' c'. ground (
    arith,
    k p' n' c',
    eq_iff p p',
    eq_iff n n',
    count-append (same_key p' n' c') rows (new_entry p n c source now ∷ []),
    count-any (same_key p n c) rows,
  )

  -- An upsert adds one entry at the end, or nothing: it reports a write exactly when package and name
  -- are not empty, the code is given and no entry has this package, name and code.
  pub upsert_cases :
      (c : Option ℕ) (rows : List Entry)
      → let r = upsert decimal now p n c source rows in
        ((r.written ≡ false)
          × (r.rows ≡ rows)
          × ((c ≡ none)
              ⊎ (p ≡ "")
              ⊎ (n ≡ "")
              ⊎ ((k : ℕ) × (c ≡ some k) × (1 ≤ count (same_key p n k) rows))))
        ⊎ ((r.written ≡ true)
            × (p ≢ "")
            × (n ≢ "")
            × ((k : ℕ) × (c ≡ some k)
                × (count (same_key p n k) rows ≡ 0)
                × (r.rows ≡ rows ++ new_entry p n k source now ∷ [])))
  unfolding upsert
  upsert_cases none rows = inl (refl, refl, inl refl)
  upsert_cases (some k) rows = elim (Bool-cases (p == "")) [
    | inl e ↦ inl (ground arith, ground arith, inr (inl ((eq_iff p "").0 e)))
    | inr e ↦ elim (Bool-cases (n == "")) [
      | inl f ↦ inl (ground arith, ground arith, inr (inr (inl ((eq_iff n "").0 f))))
      | inr f ↦ elim (Bool-cases (any (same_key p n k) rows)) [
        | inl old ↦ inl (
          ground arith,
          ground arith,
          inr (inr (inr (k, refl, any-true (same_key p n k) rows old))),
        )
        | inr new ↦ inr (
          ground arith,
          (λ z. absurd (ground (arith, eq_iff p ""))),
          (λ z. absurd (ground (arith, eq_iff n ""))),
          (k, refl, count-any (same_key p n k) rows new, ground arith),
        )
      ]
    ]
  ]

  -- A second upsert of the same fact writes nothing, whatever its time and source.
  pub upsert-upsert :
      (later : ℕ) (c : Option ℕ) (other : Option String) (rows : List Entry)
      → let r = upsert decimal now p n c source rows in
        let again = upsert decimal later p n c other r.rows in
        (again.rows ≡ r.rows) × (again.written ≡ false)
  unfolding upsert any
  upsert-upsert later none other rows = (refl, refl)
  upsert-upsert later (some k) other rows = ground (
    arith,
    eq_refl p,
    eq_refl n,
    any-append (same_key p n k) rows (new_entry p n k source now ∷ []),
  )

  -- As long as no upsert warns, the names and the codes of each package are in one order.
  pub upsert-IsMonotone :
      (c : Option ℕ) (rows : List Entry)
      → IsMonotone decimal rows
      → (upsert decimal now p n c source rows).warning ≡ none
      → IsMonotone decimal (upsert decimal now p n c source rows).rows
  unfolding upsert
  upsert-IsMonotone none rows m w = m
  upsert-IsMonotone (some c) rows m w = elim (Bool-cases (any (same_key p n c) rows)) [
    | inl old ↦ ground arith
    | inr new ↦ elim (Bool-cases (p == "" || n == "")) [
      | inl empty ↦ rw (empty, upsert) m
      | inr full ↦
          rw (full, new, upsert)
            (IsMonotone-append decimal (new_entry p n c source now) rows
              (no_warning decimal p n c rows (ground arith)) m)
    ]
  ]
