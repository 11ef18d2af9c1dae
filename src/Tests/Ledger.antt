-- ===== src/Tests/Ledger.antt =====
-- Runs of app/catalog/ledger.py.
use android_package_service.Base.{
  ℕ, ◌-◌, String, ◌≡◌, refl, true, Option, none, some, List, [], ◌∷◌, leb, if◌then◌else◌, ◌&&◌, any,
  find, select,
}
use android_package_service.Ledger.{Entry, new_entry, upsert, version_sort_key, key_lt}
use android_package_service.Ledger.Facts.{facts_of, with_fact, facts_of-upsert}

-- The decimal digits of ASCII.
abbrev pub ascii_decimal : ℕ → Option ℕ
ascii_decimal c = if leb b'0' c && leb c b'9' then some (c - b'0') else none

sort_keys :
    (version_sort_key ascii_decimal "3.26.0" ≡ 3 ∷ 26 ∷ 0 ∷ [])
    × (version_sort_key ascii_decimal "v2.41.1-beta" ≡ 2 ∷ 41 ∷ 1 ∷ [])
    × (version_sort_key ascii_decimal "beta" ≡ 0 ∷ [])
unfolding version_sort_key
sort_keys = (refl, refl, refl)

abbrev entry : Entry
entry = new_entry "p" "1.2" 12 none 5

abbrev table : List Entry
table = entry ∷ []

-- A higher name with a lower code is written, and is warned of.
wrong_order : (upsert ascii_decimal 9 "p" "1.10" (some 11) none table).warning ≡ some entry
unfolding upsert version_sort_key key_lt find select any
wrong_order = refl

facts_of-upsert_example :
    let done = upsert ascii_decimal 9 "p" "1.10" (some 110) none table in
    ((p' n' : String) (c' : ℕ)
      → facts_of done.rows p' n' c' ≡ with_fact "p" "1.10" (some 110) (facts_of table) p' n' c')
    × (done.written ≡ true)
unfolding any
facts_of-upsert_example = facts_of-upsert ascii_decimal 9 none "p" "1.10" (some 110) table
