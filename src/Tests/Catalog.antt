-- ===== src/Tests/Catalog.antt =====
-- Runs of app/catalog/catalog.py.
use android_package_service.Base.{
  ℕ, ◌≤◌, String, ◌≡◌, refl, ◌≢◌, inl, inr, true, false, Bool, not, Option, none, some, List, [],
  ◌∷◌, arith, count, if◌then◌else◌, ◌&&◌, any, find, select, update, eq_iff, map,
}
use android_package_service.Ledger.{version_sort_key, key_lt}
use android_package_service.Catalog.State.{acquire_lease}
use android_package_service.Catalog.State.Leases.{Collects, acquire_lease-Collects}
use android_package_service.Catalog.State.Exclusion.{
  Call, acquires, releases, run, collection_exclusive,
}
use android_package_service.Catalog.Versions.{
  DownloadKey, VersionRecord, Collector, version_key, dict_get, dict_set, upsert_version,
}
use android_package_service.Catalog.Persist.{
  Database, persist, persist_record, persist_records, persist_sources, flag_of, new_versions,
}
use android_package_service.Catalog.Persist.Views.{is_downloadable, offered}
use android_package_service.Catalog.Persist.Growth.{Grows, persist-Grows}
use android_package_service.Catalog.Persist.Keyed.{IsKeyed, persist-IsKeyed}
use android_package_service.Catalog.Persist.NewVersions.{names, persist_new_versions}
use android_package_service.Catalog.Listing.{list_downloadable, listed_name, insert_row, sort_rows}
use android_package_service.Catalog.Listing.Sorted.{IsDescending, entry_of, list_downloadable_exact}
use android_package_service.Catalog.Collect.{Answers, collect_once}
use android_package_service.Catalog.Collect.Settled.{collect_once_frees}
use android_package_service.Tests.Ledger.{ascii_decimal}

abbrev dumps : DownloadKey → String
dumps k = "{}"

abbrev aptoide : Collector
aptoide = record { source = "aptoide"; downloadable = true; provides_release_date = false }

abbrev appmagic : Collector
appmagic = record { source = "appmagic"; downloadable = false; provides_release_date = true }

abbrev collectors : List Collector
collectors = aptoide ∷ appmagic ∷ []

abbrev seen : String → Option ℕ → Option String → VersionRecord
seen n c d = record {
  version_name = n;
  version_code = c;
  release_date = d;
  last_release_date = none;
  download_key = none;
}

abbrev gathered : List (String × List VersionRecord)
gathered =
    ("aptoide", seen "1.2" (some 12) (some "2024-05-02") ∷ seen "1.10" (some 110) none ∷ [])
    ∷ ("appmagic", seen "1.2" none (some "2024-05-01") ∷ seen "1.3" none (some "2024-06-01") ∷ [])
    ∷ []

abbrev empty_db : Database
empty_db = record { versions = []; sources = []; states = [] }

abbrev filled : Database
filled = (persist dumps 50 "p" collectors gathered true empty_db).0

-- The listing names what can be downloaded, with the authoritative date where there is one.
listing :
    list_downloadable ascii_decimal "p" filled.versions
    ≡ ("1.10", some 110, none) ∷ ("1.2", some 12, some "2024-05-01") ∷ []
unfolding list_downloadable persist sort_rows select persist_sources persist_records persist_record
    upsert_version any update flag_of insert_row key_lt version_sort_key
listing = refl

new_ones :
    (persist dumps 50 "p" collectors gathered true empty_db).1
    ≡ ("1.2", some 12) ∷ ("1.10", some 110) ∷ []
unfolding persist new_versions persist_sources persist_records persist_record dict_get dict_set any
    flag_of
new_ones = refl

persist-Grows_example : Grows (find (version_key "p" "1.2") filled.versions) (
    find (version_key "p" "1.2") (persist dumps 60 "p" collectors gathered false filled).0.versions)
persist-Grows_example = persist-Grows dumps 60 "p" "p" "1.2" collectors gathered false filled

empty-IsKeyed : IsKeyed [] []
unfolding count
empty-IsKeyed = record { version = λ p n. omega arith; source = λ p n s. omega arith }

persist_new_versions_example :
    let new = (persist dumps 50 "p" collectors gathered true empty_db).1 in
    (any (names "1.2") new
      ≡ (not (any (version_key "p" "1.2") []) && offered collectors "1.2" gathered))
    × (count (names "1.2") new ≤ 1)
persist_new_versions_example =
    persist_new_versions dumps 50 "p" "1.2" collectors gathered true empty_db

filled-IsKeyed : IsKeyed filled.versions filled.sources
filled-IsKeyed = persist-IsKeyed dumps 50 "p" collectors gathered true empty_db empty-IsKeyed

list_downloadable_exact_example :
    IsDescending ascii_decimal
      (map listed_name (list_downloadable ascii_decimal "p" filled.versions))
    × (count (entry_of "1.2") (list_downloadable ascii_decimal "p" filled.versions)
        ≡ (if is_downloadable (find (version_key "p" "1.2") filled.versions) then 1 else 0))
list_downloadable_exact_example =
    list_downloadable_exact ascii_decimal "p" "1.2" filled.versions
      (filled-IsKeyed.version "p" "1.2")

b-ne-a : ◌≢◌ {A = String} "b" "a"
b-ne-a = ground (arith, eq_iff "b" "a")

abbrev foreign : List (ℕ × Call)
foreign = (12, acquires "b" "p") ∷ (13, releases "b" "p") ∷ (14, acquires "a" "q") ∷ []

p-ne-q : ◌≢◌ {A = String} "p" "q"
p-ne-q = ground (arith, eq_iff "p" "q")

collection_exclusive_example :
    let after = run 600 foreign (acquire_lease 600 10 "a" "p" []).0 in
    Collects 610 "a" "p" after × (acquire_lease 600 20 "b" "p" after ≡ (after, false))
unfolding acquire_lease find
collection_exclusive_example =
    collection_exclusive 600 10 20 "a" "b" "p" foreign [] refl
      ((omega arith, inl b-ne-a), ((omega arith, inl b-ne-a), ((omega arith, inr p-ne-q), tt)))
      b-ne-a (omega arith)

held : Collects 610 "a" "p" (acquire_lease 600 10 "a" "p" []).0
unfolding acquire_lease find
held = acquire_lease-Collects 600 10 "a" "p" [] refl

abbrev answers : Bool → Answers
answers full = ("aptoide", some (seen "1.2" (some 12) none ∷ [])) ∷ ("appmagic", none) ∷ []

collect_once_frees_example :
    (acquire_lease 600 41 "b" "p"
      (collect_once dumps collectors 600 true "a" "p" 10 40 answers empty_db).0.states).1
    ≡ true
unfolding acquire_lease find
collect_once_frees_example =
    collect_once_frees dumps collectors 600 true "a" "p" 10 40 answers empty_db 41 "b" refl
