-- ===== src/Catalog/Versions.antt =====
-- The tables `versions` and `version_sources` of app/catalog/store.py, and `_persist` of
-- app/catalog/catalog.py. A version code is a natural number, a release date the text that a source
-- gives. `json.dumps` of a download key is the parameter `dumps`.
pub mod Dicts
use android_package_service.Json.{Json}
use android_package_service.Base.{
  ℕ, String, Bool, true, false, ◌&&◌, ◌||◌, Option, none, some, List, [], ◌∷◌, ◌++◌, ◌==◌,
  if◌then◌else◌, max, coalesce, or_else, any, update,
}

pub data Scalar : Type 0 where
  null : Scalar
  text : String → Scalar
  number : ℕ → Scalar

-- A download key as its pairs.
abbrev pub DownloadKey : Type 0
DownloadKey = List (String × Json)

-- app/catalog/collectors/base.py
pub record VersionRecord : Type 0 where
  pub version_name : String
  pub version_code : Option ℕ
  pub release_date : Option String
  pub last_release_date : Option String
  pub download_key : Option DownloadKey

-- What `_persist` reads of a collector.
pub record Collector : Type 0 where
  pub source : String
  pub downloadable : Bool
  pub provides_release_date : Bool

-- A row of `versions`; the primary key is (package, version_name).
pub record Version : Type 0 where
  pub package_name : String
  pub version_name : String
  pub version_code : Option ℕ
  pub release_date : Option String
  pub first_seen_date : Option String
  pub last_seen_date : Option String
  pub downloadable : Bool

-- A row of `version_sources`; the primary key is (package, version_name, source).
pub record VersionSource : Type 0 where
  pub package_name : String
  pub version_name : String
  pub source : String
  pub download_key : String
  pub seen_at : ℕ

abbrev pub version_key : String → String → Version → Bool
version_key p n v = v.package_name == p && v.version_name == n

abbrev pub merged : Version → Version → Version
merged excluded v = record v {
  version_code = coalesce excluded.version_code v.version_code;
  release_date = coalesce excluded.release_date v.release_date;
  first_seen_date = coalesce v.first_seen_date excluded.first_seen_date;
  last_seen_date = coalesce excluded.last_seen_date v.last_seen_date;
  downloadable = v.downloadable || excluded.downloadable;
}

-- INSERT ... ON CONFLICT(package, version_name) DO UPDATE
unfoldable pub upsert_version : Version → List Version → List Version
upsert_version excluded rows =
    let same = version_key excluded.package_name excluded.version_name in
    if any same rows then update same (merged excluded) rows else rows ++ excluded ∷ []

abbrev pub source_key : String → String → String → VersionSource → Bool
source_key p n s r = r.package_name == p && (r.version_name == n && r.source == s)

abbrev pub merged_source : VersionSource → VersionSource → VersionSource
merged_source excluded r = record r {
  download_key = excluded.download_key;
  seen_at = excluded.seen_at;
}

-- INSERT ... ON CONFLICT(package, version_name, source) DO UPDATE
unfoldable pub upsert_source : VersionSource → List VersionSource → List VersionSource
upsert_source excluded rows =
    let same = source_key excluded.package_name excluded.version_name excluded.source in
    if any same rows then update same (merged_source excluded) rows else rows ++ excluded ∷ []

-- A dictionary keeps the place of a key that is set again.
module _ {V : Type 0} where
  unfoldable pub dict_get : String → List (String × V) → Option V
  dict_get k [] = none
  dict_get k ((j, v) ∷ m) = if j == k then some v else dict_get k m

  unfoldable pub dict_set : String → V → List (String × V) → List (String × V)
  dict_set k v [] = (k, v) ∷ []
  dict_set k v ((j, w) ∷ m) = if j == k then (k, v) ∷ m else (j, w) ∷ dict_set k v m

-- `last_release_date or release_date`
abbrev pub text_or : Option String → Option String → Option String
text_or none d = d
text_or (some s) d = if s == "" then d else some s

-- The variables of the loops of `_persist`.
pub record Gathering : Type 0 where
  pub versions : List Version
  pub sources : List VersionSource
  pub cursors : List (String × ℕ)
  pub collected : List (String × Option ℕ)
  pub downloadable_names : List String

abbrev pub mentions : String → String → Bool
mentions n m = m == n

abbrev pub add_name : String → List String → List String
add_name n names = if any (mentions n) names then names else names ++ n ∷ []

-- The first code of a name, or a later one where there was none.
abbrev pub keeps_code : Option (Option ℕ) → Option ℕ → Bool
keeps_code none code = false
keeps_code (some none) none = true
keeps_code (some none) (some c) = false
keeps_code (some (some d)) code = true

abbrev pub raised : String → Option ℕ → List (String × ℕ) → List (String × ℕ)
raised source none cursors = cursors
raised source (some c) cursors =
    dict_set source (max (or_else (dict_get source cursors) c) c) cursors
