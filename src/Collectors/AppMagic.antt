-- ===== src/Collectors/AppMagic.antt =====
-- `_records` and `_merge_dates` of app/catalog/collectors/appmagic.py. The dictionary of the ranges is
-- the list of its entries in the order in which their names came.
use android_package_service.Base.{
  String, Option, none, some, List, [], ◌∷◌, ◌++◌, ◌==◌, if◌then◌else◌,
}
use android_package_service.Json.{
  Json, null, bool, number, text, list, object, Fields, get, str_or_none, dicts,
}
use android_package_service.Catalog.Versions.{DownloadKey, VersionRecord}
use android_package_service.Collectors.Dates.{text_le}

pub record Range : Type 0 where
  pub name : String
  pub first : Option String
  pub last : Option String

-- `min` and `max` of some texts.
unfoldable pub least : String → List String → String
least s [] = s
least s (t ∷ ts) = least (if text_le s t then s else t) ts

unfoldable pub greatest : String → List String → String
greatest s [] = s
greatest s (t ∷ ts) = greatest (if text_le s t then t else s) ts

-- A date that is not None and not empty.
abbrev pub present : Option String → List String
present none = []
present (some s) = if s == "" then [] else s ∷ []

abbrev pub with_bounds : String → List String → Range
with_bounds name [] = record { name = name; first = none; last = none }
with_bounds name (d ∷ ds) = record {
  name = name;
  first = some (least d ds);
  last = some (greatest d ds);
}

-- `_merge_dates`
unfoldable pub merge_dates : Range → Option String → Range
unfolding least greatest
merge_dates r date = with_bounds r.name (present r.first ++ present r.last ++ present date)

-- `ranges[name] = _merge_dates(ranges.get(name), date)`
unfoldable pub add_release : String → Option String → List Range → List Range
unfolding merge_dates
add_release name date [] = merge_dates (record { name = name; first = none; last = none }) date ∷ []
add_release name date (r ∷ rs) =
    if r.name == name then merge_dates r date ∷ rs else r ∷ add_release name date rs

-- The releases that have a name, with their dates.
unfoldable pub releases_of : List Fields → List (String × Option String)
releases_of [] = []
releases_of (item ∷ rest) = elim (str_or_none (get "version" item)) [
  | none ↦ releases_of rest
  | some name ↦ (name, str_or_none (get "release_date" item)) ∷ releases_of rest
]

unfoldable pub add_releases : List (String × Option String) → List Range → List Range
unfolding add_release
add_releases [] ranges = ranges
add_releases ((name, date) ∷ rest) ranges = add_releases rest (add_release name date ranges)

abbrev pub date_key : Option String → DownloadKey
date_key none = []
date_key (some s) = ("release_date", text s) ∷ []

abbrev pub range_record : Range → VersionRecord
range_record r = record {
  version_name = r.name;
  version_code = none;
  release_date = r.first;
  last_release_date = r.last;
  download_key = some (date_key r.first);
}

unfoldable pub range_records : List Range → List VersionRecord
range_records [] = []
range_records (r ∷ rs) = range_record r ∷ range_records rs

abbrev pub release_items : Json → List Fields
release_items (list items) = dicts items
release_items null = []
release_items (bool b) = []
release_items (number n) = []
release_items (text s) = []
release_items (object fields) = []

-- `_records`
unfoldable pub appmagic_records : Fields → List VersionRecord
unfolding releases_of add_releases range_records
appmagic_records payload =
    range_records (add_releases (releases_of (release_items (get "releases" payload))) [])
