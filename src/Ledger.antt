-- ===== src/Ledger.antt =====
-- app/catalog/ledger.py and the table `ledger` of app/catalog/store.py. `decimal` gives the value of
-- a code point that is a decimal digit to Python's `re` and `int`. A version code is a natural
-- number. The per-package lock and the transaction make `upsert` one step.
mod Keys
pub mod Order
pub mod Rows
pub mod Facts
unfoldable pub use Keys.*
use Prim.Native.Char.{code}
use android_package_service.Base.{
  ℕ, ◌+◌, ◌*◌, String, Bool, true, false, not, ◌&&◌, ◌||◌, Option, none, some, List, [], ◌∷◌, ◌++◌,
  ◌==◌, if◌then◌else◌, ltb, eqb, any, find, select,
}

-- A row of `ledger`; the primary key is (package, version_name, version_code).
pub record Entry : Type 0 where
  pub package_name : String
  pub version_name : String
  pub version_code : ℕ
  pub source : Option String
  pub first_seen_at : ℕ

abbrev pub same_key : String → String → ℕ → Entry → Bool
same_key p n c e = e.package_name == p && (e.version_name == n && eqb e.version_code c)

abbrev pub in_package : String → Entry → Bool
in_package p e = e.package_name == p

-- One pair of versions whose order by name and by code differ.
abbrev pub inverted : (ℕ → Option ℕ) → String → ℕ → Entry → Bool
inverted decimal n c e =
    let new_key = version_sort_key decimal n in
    let other_key = version_sort_key decimal e.version_name in
    not (e.version_name == n)
    && ((key_lt other_key new_key && ltb c e.version_code)
        || (key_lt new_key other_key && ltb e.version_code c))

-- The entry that the warning names.
unfoldable pub warn_if_non_monotonic : (ℕ → Option ℕ) → String → ℕ → List Entry → Option Entry
warn_if_non_monotonic decimal n c existing = find (inverted decimal n c) existing

pub record Upserted : Type 0 where
  pub rows : List Entry
  pub written : Bool
  pub warning : Option Entry

abbrev pub new_entry : String → String → ℕ → Option String → ℕ → Entry
new_entry p n c source now = record {
  package_name = p;
  version_name = n;
  version_code = c;
  source = source;
  first_seen_at = now;
}

-- `_upsert_sync`: INSERT OR IGNORE after the check of the order.
unfoldable pub upsert_sync :
    (ℕ → Option ℕ) → ℕ → String → String → ℕ → Option String → List Entry → Upserted
unfolding warn_if_non_monotonic
upsert_sync decimal now p n c source rows =
    let warning = warn_if_non_monotonic decimal n c (select (in_package p) rows) in
    if any (same_key p n c) rows
    then record { rows = rows; written = false; warning = warning }
    else record {
      rows = rows ++ new_entry p n c source now ∷ [];
      written = true;
      warning = warning;
    }

-- An incomplete fact is skipped.
unfoldable pub upsert :
    (ℕ → Option ℕ) → ℕ → String → String → Option ℕ → Option String → List Entry → Upserted
unfolding upsert_sync
upsert decimal now p n none source rows = record { rows = rows; written = false; warning = none }
upsert decimal now p n (some c) source rows =
    if p == "" || n == ""
    then record { rows = rows; written = false; warning = none }
    else upsert_sync decimal now p n c source rows
