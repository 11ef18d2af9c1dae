-- ===== src/Catalog/Persist/Keyed.antt =====
-- The primary keys of `versions` and `version_sources` hold after a round, and the date of release of
-- a version comes from sources that are authoritative for it only.
use android_package_service.Base.{
  ℕ, ◌≤◌, String, ◌≡◌, refl, ◌∙◌, Bool, false, List, [], ◌∷◌, arith, eq_iff, count, count-append,
  count-any, count-update-eq, All, All-of, find,
}
use android_package_service.Catalog.Versions.{
  DownloadKey, VersionRecord, Collector, Version, VersionSource, version_key, merged,
  upsert_version, Gathering, upsert_source, source_key, merged_source,
}
use android_package_service.Catalog.Persist.{
  excluded_version, excluded_source, persist_record, persist_records, persist_sources,
  source_downloadable, authoritative, Database, persist, gathering,
}
use android_package_service.Catalog.Persist.Views.{release_of, view-persist_record}

pub record IsKeyed (versions : List Version) (sources : List VersionSource) : Type 0 where
  pub version : (p n : String) → count (version_key p n) versions ≤ 1
  pub source : (p n s : String) → count (source_key p n s) sources ≤ 1

upsert_version-keyed :
    (x : Version) (rows : List Version)
    → ((p n : String) → count (version_key p n) rows ≤ 1)
    → (p n : String) → count (version_key p n) (upsert_version x rows) ≤ 1
unfolding upsert_version count
upsert_version-keyed x rows k p n =
    let same = version_key x.package_name x.version_name in
    ground (
      arith,
      k p n,
      eq_iff x.package_name p,
      eq_iff x.version_name n,
      count-append (version_key p n) rows (x ∷ []),
      count-any same rows,
      count-update-eq (version_key p n) same (merged x) rows (All-of _ (λ v _. refl) rows),
    )

upsert_source-keyed :
    (x : VersionSource) (rows : List VersionSource)
    → ((p n s : String) → count (source_key p n s) rows ≤ 1)
    → (p n s : String) → count (source_key p n s) (upsert_source x rows) ≤ 1
unfolding upsert_source count
upsert_source-keyed x rows k p n s =
    let same = source_key x.package_name x.version_name x.source in
    ground (
      arith,
      k p n s,
      eq_iff x.package_name p,
      eq_iff x.version_name n,
      eq_iff x.source s,
      count-append (source_key p n s) rows (x ∷ []),
      count-any same rows,
      count-update-eq (source_key p n s) same (merged_source x) rows (All-of _ (λ v _. refl) rows),
    )

module _ (dumps : DownloadKey → String) (now : ℕ) (p : String) where
  persist_record-IsKeyed :
      (source : String) (downloadable dated : Bool) (g : Gathering) (r : VersionRecord)
      → IsKeyed g.versions g.sources
      → let g' = persist_record dumps now p source downloadable dated g r in
        IsKeyed g'.versions g'.sources
  unfolding persist_record
  persist_record-IsKeyed source downloadable dated g r k = record {
    version = upsert_version-keyed (excluded_version p downloadable dated r) g.versions k.version;
    source = upsert_source-keyed (excluded_source dumps now p source r) g.sources k.source;
  }

  persist_records-IsKeyed :
      (source : String) (downloadable dated : Bool) (g : Gathering) (rs : List VersionRecord)
      → IsKeyed g.versions g.sources
      → let g' = persist_records dumps now p source downloadable dated g rs in
        IsKeyed g'.versions g'.sources
  unfolding persist_records
  persist_records-IsKeyed source downloadable dated g [] k = k
  persist_records-IsKeyed source downloadable dated g (r ∷ rs) k =
      persist_records-IsKeyed source downloadable dated
        (persist_record dumps now p source downloadable dated g r) rs
        (persist_record-IsKeyed source downloadable dated g r k)

  persist_sources-IsKeyed :
      (collectors : List Collector) (g : Gathering) (gathered : List (String × List VersionRecord))
      → IsKeyed g.versions g.sources
      → let g' = persist_sources dumps now p collectors g gathered in IsKeyed g'.versions g'.sources
  unfolding persist_sources
  persist_sources-IsKeyed collectors g [] k = k
  persist_sources-IsKeyed collectors g ((source, rs) ∷ rest) k =
      let down = source_downloadable collectors source in
      let dated = authoritative collectors source in
      persist_sources-IsKeyed collectors (persist_records dumps now p source down dated g rs) rest
        (persist_records-IsKeyed source down dated g rs k)

  -- A round keeps one row for each package and version, and one for each package, version and source.
  pub persist-IsKeyed :
      (collectors : List Collector) (gathered : List (String × List VersionRecord)) (full : Bool)
      (db : Database)
      → IsKeyed db.versions db.sources
      → let after = (persist dumps now p collectors gathered full db).0 in
        IsKeyed after.versions after.sources
  unfolding persist
  persist-IsKeyed collectors gathered full db k =
      persist_sources-IsKeyed collectors (gathering db) gathered k

  release-persist_records :
      (source : String) (downloadable : Bool) (g : Gathering) (rs : List VersionRecord)
      (q n : String)
      → release_of (
          find
            (version_key q n)
            (persist_records dumps now p source downloadable false g rs).versions)
        ≡ release_of (find (version_key q n) g.versions)
  unfolding persist_records
  release-persist_records source downloadable g [] q n = refl
  release-persist_records source downloadable g (r ∷ rs) q n = ground (
    arith,
    view-persist_record dumps now p source downloadable false g r q n,
    release-persist_records source downloadable
        (persist_record dumps now p source downloadable false g r) rs q n,
  )

  release-persist_sources :
      (collectors : List Collector) (g : Gathering) (gathered : List (String × List VersionRecord))
      (q n : String)
      → All (λ s. authoritative collectors s.0 ≡ false) gathered
      → release_of
          (find (version_key q n) (persist_sources dumps now p collectors g gathered).versions)
        ≡ release_of (find (version_key q n) g.versions)
  unfolding persist_sources
  release-persist_sources collectors g [] q n a = refl
  release-persist_sources collectors g ((source, rs) ∷ rest) q n a =
      let down = source_downloadable collectors source in
      rw (a.0, persist_sources)
        (release-persist_sources collectors (persist_records dumps now p source down false g rs)
            rest q n a.1
          ∙ release-persist_records source down g rs q n)

  -- A round in which no authoritative source answered writes no date of release, old or new.
  pub release-persist :
      (collectors : List Collector) (gathered : List (String × List VersionRecord)) (full : Bool)
      (db : Database) (q n : String)
      → All (λ s. authoritative collectors s.0 ≡ false) gathered
      → release_of
          (find (version_key q n) (persist dumps now p collectors gathered full db).0.versions)
        ≡ release_of (find (version_key q n) db.versions)
  unfolding persist
  release-persist collectors gathered full db q n a =
      release-persist_sources collectors (gathering db) gathered q n a
