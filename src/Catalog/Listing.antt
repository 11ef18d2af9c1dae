-- ===== src/Catalog/Listing.antt =====
-- `list_downloadable` and `list_known_only` of app/catalog/catalog.py.
pub mod Sorted
use android_package_service.Base.{
  ℕ, String, Bool, not, ◌&&◌, Option, List, [], ◌∷◌, ◌==◌, if◌then◌else◌, coalesce, map, select,
}
use android_package_service.Ledger.{version_sort_key, key_lt}
use android_package_service.Catalog.Versions.{Version}

abbrev pub downloadable_row : String → Version → Bool
downloadable_row p v = v.package_name == p && v.downloadable

abbrev pub known_row : String → Version → Bool
known_row p v = v.package_name == p && not v.downloadable

-- An entry of the listing for clients: name, code and date.
abbrev pub Listed : Type 0
Listed = String × Option ℕ × Option String

abbrev pub listed_name : Listed → String
listed_name e = e.0

abbrev pub listed_row : Version → Listed
listed_row v = (v.version_name, v.version_code, coalesce v.release_date v.first_seen_date)

-- `rows.sort(key=..., reverse=True)`: descending, and stable.
module _ (decimal : ℕ → Option ℕ) where
  unfoldable pub insert_row : Version → List Version → List Version
  insert_row v [] = v ∷ []
  insert_row v (w ∷ ws) =
      if key_lt (version_sort_key decimal v.version_name) (version_sort_key decimal w.version_name)
      then w ∷ insert_row v ws
      else v ∷ w ∷ ws

  unfoldable pub sort_rows : List Version → List Version
  sort_rows [] = []
  sort_rows (v ∷ vs) = insert_row v (sort_rows vs)

  unfoldable pub list_downloadable : String → List Version → List Listed
  list_downloadable p versions = map listed_row (sort_rows (select (downloadable_row p) versions))

  unfoldable pub list_known_only : String → List Version → List (String × Option String)
  list_known_only p versions =
      map (λ v. (v.version_name, v.release_date)) (sort_rows (select (known_row p) versions))
