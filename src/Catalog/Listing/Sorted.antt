-- ===== src/Catalog/Listing/Sorted.antt =====
-- The listings hold each row once, the highest version first.
use android_package_service.Base.{
  ℕ, String, ◌≡◌, ◌≤◌, refl, ap, sym, subst, ◌∙◌, inl, inr, Bool, true, false, ◌&&◌, Option, List,
  [], ◌∷◌, ◌==◌, arith, All, count, find, select, map, Bool-cases, if◌then◌else◌,
}
use android_package_service.Ledger.{version_sort_key, key_lt}
use android_package_service.Ledger.Order.{key_lt_irrefl, key_lt_trans, key_lt_total}
use android_package_service.Catalog.Versions.{Version, version_key}
use android_package_service.Catalog.Listing.{
  Listed, listed_name, listed_row, insert_row, sort_rows, downloadable_row, list_downloadable,
}
use android_package_service.Catalog.Persist.Views.{is_downloadable}

-- Rows that pass a stronger test are not more.
count-le :
    {A : Type 0} (p q : A → Bool) (rows : List A)
    → ((a : A) → p a ≡ true → q a ≡ true)
    → count p rows ≤ count q rows
unfolding count
count-le p q [] h = omega arith
count-le p q (r ∷ rs) h = ground (arith, h r, count-le p q rs h)

count-map :
    {A B : Type 0} (f : A → B) (q : B → Bool) (rows : List A)
    → count q (map f rows) ≡ count (λ a. q (f a)) rows
unfolding count
count-map f q [] = refl
count-map f q (r ∷ rs) = ground (arith, count-map f q rs)

count-select :
    (p q : Version → Bool) (rows : List Version)
    → count q (select p rows) ≡ count (λ v. p v && q v) rows
unfolding count select
count-select p q [] = refl
count-select p q (r ∷ rs) = ground (arith, count-select p q rs)

-- The rows of the package that can be downloaded and have the name `n`.
count-downloadable :
    (p n : String) (versions : List Version)
    → count (version_key p n) versions ≤ 1
    → count (λ v. downloadable_row p v && v.version_name == n) versions
      ≡ (if is_downloadable (find (version_key p n) versions) then 1 else 0)
unfolding count find
count-downloadable p n [] h = refl
count-downloadable p n (v ∷ vs) h = ground (
  arith,
  count-downloadable p n vs,
  count-le (λ w. downloadable_row p w && w.version_name == n) (version_key p n) vs
      (λ w k. ground arith),
)

-- An entry is called `n`.
abbrev pub entry_of : String → Listed → Bool
entry_of n e = listed_name e == n

module _ (decimal : ℕ → Option ℕ) where
  -- The version `b` is not higher than the version `a`.
  abbrev pub NotHigher : String → String → Type 0
  NotHigher a b = key_lt (version_sort_key decimal a) (version_sort_key decimal b) ≡ false

  -- Names, the highest version first.
  abbrev pub IsDescending : List String → Type 0
  IsDescending [] = Unit {0}
  IsDescending (a ∷ as') = All (NotHigher a) as' × IsDescending as'

  NotHigher-trans : (a b c : String) → NotHigher a b → NotHigher b c → NotHigher a c
  NotHigher-trans a b c h k =
      let ka = version_sort_key decimal a in
      let kb = version_sort_key decimal b in
      let kc = version_sort_key decimal c in
      elim (Bool-cases (key_lt ka kc)) [
        | inr fine ↦ fine
        | inl up ↦ elim (key_lt_total ka kb) [
          | inl lt ↦ absurd (cc)
          | inr (inl gt) ↦ let through = key_lt_trans kb ka kc gt up in absurd (cc)
          | inr (inr same) ↦ absurd (cc)
        ]
      ]

  All-insert_row :
      (a : String) (v : Version) (ws : List Version)
      → NotHigher a v.version_name
      → All (NotHigher a) (map (λ w. w.version_name) ws)
      → All (NotHigher a) (map (λ w. w.version_name) (insert_row decimal v ws))
  unfolding insert_row
  All-insert_row a v [] h all = (h, tt)
  All-insert_row a v (w ∷ ws) h all =
      elim (Bool-cases (
        key_lt (version_sort_key decimal v.version_name)
          (version_sort_key decimal w.version_name))) [
            | inl down ↦ rw (down, insert_row) (all.0, All-insert_row a v ws h all.1)
            | inr here ↦ rw (here, insert_row) (h, all)
          ]

  All-NotHigher-trans :
      (a b : String) (l : List String) → NotHigher a b → All (NotHigher b) l → All (NotHigher a) l
  All-NotHigher-trans a b [] h all = tt
  All-NotHigher-trans a b (c ∷ l) h all =
      (NotHigher-trans a b c h all.0, All-NotHigher-trans a b l h all.1)

  insert_row-IsDescending :
      (v : Version) (ws : List Version)
      → IsDescending (map (λ w. w.version_name) ws)
      → IsDescending (map (λ w. w.version_name) (insert_row decimal v ws))
  unfolding insert_row
  insert_row-IsDescending v [] d = (tt, tt)
  insert_row-IsDescending v (w ∷ ws) d =
      let kv = version_sort_key decimal v.version_name in
      let kw = version_sort_key decimal w.version_name in
      elim (Bool-cases (key_lt kv kw)) [
        | inl down ↦
            let up : NotHigher w.version_name v.version_name = elim (Bool-cases (key_lt kw kv)) [
              | inr fine ↦ fine
              | inl both ↦
                  let circle = key_lt_trans kv kw kv down both in
                  let never = key_lt_irrefl kv in absurd (cc)
            ] in
            rw (down, insert_row)
              (All-insert_row w.version_name v ws up d.0, insert_row-IsDescending v ws d.1)
        | inr here ↦
            rw (here, insert_row)
              (
                (
                  here,
                  All-NotHigher-trans v.version_name w.version_name (map (λ x. x.version_name) ws)
                      here d.0,
                ),
                d,
              )
      ]

  sort_rows-IsDescending :
      (vs : List Version) → IsDescending (map (λ w. w.version_name) (sort_rows decimal vs))
  unfolding sort_rows
  sort_rows-IsDescending [] = tt
  sort_rows-IsDescending (v ∷ vs) =
      insert_row-IsDescending v (sort_rows decimal vs) (sort_rows-IsDescending vs)

  count-insert_row :
      (q : Version → Bool) (v : Version) (ws : List Version)
      → count q (insert_row decimal v ws) ≡ count q (v ∷ ws)
  unfolding insert_row count
  count-insert_row q v [] = refl
  count-insert_row q v (w ∷ ws) = ground (arith, count-insert_row q v ws)

  count-sort_rows :
      (q : Version → Bool) (vs : List Version) → count q (sort_rows decimal vs) ≡ count q vs
  unfolding sort_rows count
  count-sort_rows q [] = refl
  count-sort_rows q (v ∷ vs) =
      ground (arith, count-insert_row q v (sort_rows decimal vs), count-sort_rows q vs)

  map-name :
      (vs : List Version) → map listed_name (map listed_row vs) ≡ map (λ v. v.version_name) vs
  map-name [] = refl
  map-name (v ∷ vs) = ap (λ l. v.version_name ∷ l) (map-name vs)

  -- The listing of a package for clients names the highest version first, and has a version once or
  -- not at all: once exactly when its row says that it can be downloaded.
  pub list_downloadable_exact :
      (p n : String) (versions : List Version)
      → count (version_key p n) versions ≤ 1
      → IsDescending (map listed_name (list_downloadable decimal p versions))
        × (count (entry_of n) (list_downloadable decimal p versions)
            ≡ (if is_downloadable (find (version_key p n) versions) then 1 else 0))
  unfolding list_downloadable
  list_downloadable_exact p n versions h =
      let rows = select (downloadable_row p) versions in
      (
        subst IsDescending (sym (map-name (sort_rows decimal rows))) (sort_rows-IsDescending rows),
        count-map listed_row (entry_of n) (sort_rows decimal rows)
            ∙ count-sort_rows (λ v. v.version_name == n) rows
            ∙ count-select (downloadable_row p) (λ v. v.version_name == n) versions
            ∙ count-downloadable p n versions h,
      )
