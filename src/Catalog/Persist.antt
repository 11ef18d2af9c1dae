-- ===== src/Catalog/Persist.antt =====
-- `_persist` and `_update_state` of app/catalog/catalog.py: one transaction that merges what the
-- sources gave into the tables, and returns the versions that are new and downloadable.
pub mod Views
pub mod Growth
pub mod Keyed
pub mod NewVersions
use android_package_service.Base.{
  ℕ, String, Bool, true, false, not, ◌&&◌, Option, none, some, List, [], ◌∷◌, ◌++◌, ◌==◌,
  if◌then◌else◌, coalesce, or_else, any, find, update, select,
}
use android_package_service.Catalog.State.{CollectionState, of_package}
use android_package_service.Catalog.Versions.{
  DownloadKey, VersionRecord, Collector, Version, VersionSource, version_key, upsert_version,
  upsert_source, dict_get, dict_set, text_or, Gathering, mentions, add_name, keeps_code, raised,
}

-- `downloadable_flags.get(source, True)`; of collectors with one source the last counts.
unfoldable pub flag_of : String → List Collector → Option Bool
flag_of source [] = none
flag_of source (c ∷ cs) =
    coalesce (flag_of source cs) (if c.source == source then some c.downloadable else none)

abbrev pub source_downloadable : List Collector → String → Bool
source_downloadable collectors source = or_else (flag_of source collectors) true

-- `source in release_date_sources`
abbrev pub authoritative : List Collector → String → Bool
authoritative collectors source =
    any (λ c. c.source == source && c.provides_release_date) collectors

abbrev pub excluded_version : String → Bool → Bool → VersionRecord → Version
excluded_version p downloadable dated r = record {
  package_name = p;
  version_name = r.version_name;
  version_code = r.version_code;
  release_date = if dated then r.release_date else none;
  first_seen_date = r.release_date;
  last_seen_date = text_or r.last_release_date r.release_date;
  downloadable = downloadable;
}

abbrev pub excluded_source :
    (DownloadKey → String) → ℕ → String → String → VersionRecord → VersionSource
excluded_source dumps now p source r = record {
  package_name = p;
  version_name = r.version_name;
  source = source;
  download_key = dumps (or_else r.download_key []);
  seen_at = now;
}

-- The body of the inner loop.
unfoldable pub persist_record :
    (DownloadKey → String)
    → ℕ
    → String
    → String
    → Bool
    → Bool
    → Gathering
    → VersionRecord
    → Gathering
persist_record dumps now p source downloadable dated g r = record {
  versions = upsert_version (excluded_version p downloadable dated r) g.versions;
  sources = upsert_source (excluded_source dumps now p source r) g.sources;
  cursors = raised source r.version_code g.cursors;
  collected =
      if keeps_code (dict_get r.version_name g.collected) r.version_code
      then g.collected
      else dict_set r.version_name r.version_code g.collected;
  downloadable_names =
      if downloadable then add_name r.version_name g.downloadable_names else g.downloadable_names;
}

unfoldable pub persist_records :
    (DownloadKey → String)
    → ℕ
    → String
    → String
    → Bool
    → Bool
    → Gathering
    → List VersionRecord
    → Gathering
persist_records dumps now p source downloadable dated g [] = g
persist_records dumps now p source downloadable dated g (r ∷ rs) =
    persist_records dumps now p source downloadable dated
      (persist_record dumps now p source downloadable dated g r) rs

-- The outer loop, over the sources that answered.
unfoldable pub persist_sources :
    (DownloadKey → String)
    → ℕ
    → String
    → List Collector
    → Gathering
    → List (String × List VersionRecord)
    → Gathering
persist_sources dumps now p collectors g [] = g
persist_sources dumps now p collectors g ((source, records) ∷ rest) =
    persist_sources dumps now p collectors
      (persist_records dumps now p source (source_downloadable collectors source)
        (authoritative collectors source) g records)
      rest

-- `merged.update(cursors)`
unfoldable pub dict_update : List (String × ℕ) → List (String × ℕ) → List (String × ℕ)
dict_update m [] = m
dict_update m ((k, v) ∷ rest) = dict_update (dict_set k v m) rest

-- What `_update_state` sets, from the row that it read.
abbrev pub refreshed :
    Bool → List (String × ℕ) → ℕ → Option CollectionState → CollectionState → CollectionState
refreshed full cursors now row s =
    let old : List (String × ℕ) = elim row [ none ↦ [] | some r ↦ or_else r.source_cursors [] ] in
    let last_full : Option ℕ =
      if full then some now else elim row [ none ↦ none | some r ↦ r.last_full_at ] in
    record s {
      last_full_at = last_full;
      last_refresh_at = some now;
      source_cursors = some (dict_update old cursors);
    }

-- `_update_state`
unfoldable pub update_state :
    String → Bool → List (String × ℕ) → ℕ → List CollectionState → List CollectionState
update_state p full cursors now states =
    update (of_package p) (refreshed full cursors now (find (of_package p) states)) states

-- The database file of the catalogue.
pub record Database : Type 0 where
  pub versions : List Version
  pub sources : List VersionSource
  pub states : List CollectionState

-- The pairs (name, code) that are new and downloadable.
unfoldable pub new_versions :
    (String → Bool) → List String → List (String × Option ℕ) → List (String × Option ℕ)
new_versions existing names [] = []
new_versions existing names ((n, c) ∷ rest) =
    if not (existing n) && any (mentions n) names
    then (n, c) ∷ new_versions existing names rest
    else new_versions existing names rest

abbrev pub gathering : Database → Gathering
gathering db = record {
  versions = db.versions;
  sources = db.sources;
  cursors = [];
  collected = [];
  downloadable_names = [];
}

unfoldable pub persist :
    (DownloadKey → String)
    → ℕ
    → String
    → List Collector
    → List (String × List VersionRecord)
    → Bool
    → Database
    → Database × List (String × Option ℕ)
persist dumps now p collectors gathered full db =
    let g = persist_sources dumps now p collectors (gathering db) gathered in
    (
      record {
        versions = g.versions;
        sources = g.sources;
        states = update_state p full g.cursors now db.states;
      },
      new_versions (λ n. any (version_key p n) db.versions) g.downloadable_names g.collected,
    )
