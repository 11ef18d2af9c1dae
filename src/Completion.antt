-- ===== src/Completion.antt =====
-- `_complete`, `_lookup_code` and `_lookup_name` of app/catalog/orchestrator.py, and `version_key` of
-- app/domain/models.py. A SELECT with LIMIT 1 and no ORDER BY takes the first row in the order in
-- which the database visits the table; a table here is the list of its rows in that order.
-- `str` is Python's decimal notation of an integer.
pub mod Facts
use android_package_service.Base.{
  ℕ, String, Bool, false, ◌&&◌, Option, none, some, List, [], ◌∷◌, ◌==◌, if◌then◌else◌, eqb, ltb,
  find, select, coalesce,
}
use android_package_service.Domain.{AndroidPackageRequest}
use android_package_service.Ledger.{Entry}
use android_package_service.Catalog.Versions.{Version}

abbrev pub higher : Option ℕ → Option ℕ → Option ℕ
higher none d = d
higher (some c) none = some c
higher (some c) (some d) = if ltb c d then some d else some c

-- ORDER BY version_code DESC LIMIT 1, among the codes that are not NULL.
unfoldable pub highest {ℓ} : {A : Type ℓ} → (A → Option ℕ) → List A → Option ℕ
highest code [] = none
highest code (r ∷ rs) = higher (code r) (highest code rs)

abbrev pub named_entry : String → String → Entry → Bool
named_entry p n e = e.package_name == p && e.version_name == n

abbrev pub named_version : String → String → Version → Bool
named_version p n v = v.package_name == p && v.version_name == n

abbrev pub coded_entry : String → ℕ → Entry → Bool
coded_entry p c e = e.package_name == p && eqb e.version_code c

abbrev pub has_code : Option ℕ → ℕ → Bool
has_code none c = false
has_code (some d) c = eqb d c

abbrev pub coded_version : String → ℕ → Version → Bool
coded_version p c v = v.package_name == p && has_code v.version_code c

-- The ledger first, then the versions that were collected.
unfoldable pub lookup_code : List Entry → List Version → String → String → Option ℕ
lookup_code ledger versions p n =
    coalesce (highest (λ e. some e.version_code) (select (named_entry p n) ledger))
      (highest (λ v. v.version_code) (select (named_version p n) versions))

abbrev pub entry_name : Option Entry → Option String
entry_name none = none
entry_name (some e) = some e.version_name

abbrev pub version_name_of : Option Version → Option String
version_name_of none = none
version_name_of (some v) = some v.version_name

unfoldable pub lookup_name : List Entry → List Version → String → ℕ → Option String
lookup_name ledger versions p c =
    coalesce (entry_name (find (coded_entry p c) ledger))
      (version_name_of (find (coded_version p c) versions))

-- The pair of code and name that `_complete` works on: with both or neither there is nothing to do.
unfoldable pub fill :
    List Entry → List Version → String → Option ℕ → Option String → Option ℕ × Option String
fill ledger versions p none none = (none, none)
fill ledger versions p none (some n) = (lookup_code ledger versions p n, some n)
fill ledger versions p (some c) none = (some c, lookup_name ledger versions p c)
fill ledger versions p (some c) (some n) = (some c, some n)

-- `_complete`; where nothing was filled in the new request is the old one.
unfoldable pub complete : List Entry → List Version → AndroidPackageRequest → AndroidPackageRequest
complete ledger versions q =
    let filled = fill ledger versions q.package_name q.version_code q.version_name in
    record {
      package_name = q.package_name;
      version_code = filled.0;
      version_name = filled.1;
      preferred_provider = q.preferred_provider;
    }

-- `str(completed.version_code) if completed.version_code is not None else completed.version_name`
abbrev pub version_reference : (ℕ → String) → Option ℕ → Option String → Option String
version_reference str (some c) name = some (str c)
version_reference str none name = name

abbrev pub lock_version_key : (ℕ → String) → AndroidPackageRequest → Option String
lock_version_key str q = version_reference str q.version_code q.version_name
