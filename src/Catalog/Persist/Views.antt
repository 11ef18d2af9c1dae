-- ===== src/Catalog/Persist/Views.antt =====
-- The row of one version, before and after `_persist`.
use android_package_service.Base.{
  ℕ, String, ◌≡◌, refl, inl, inr, Bool, false, ◌&&◌, ◌||◌, Option, none, some, List, [], ◌∷◌, ◌==◌,
  arith, eq_iff, eq_refl, if◌then◌else◌, any, any-find, find, find-append, find-update, find-some,
  Bool-cases, Option-cases,
}
use android_package_service.Catalog.Versions.{
  DownloadKey, VersionRecord, Collector, Version, version_key, merged, upsert_version, Gathering,
}
use android_package_service.Catalog.Persist.{
  excluded_version, persist_record, persist_records, persist_sources, source_downloadable,
  authoritative, Database, persist, gathering,
}

-- The row that an upsert leaves at its own key.
abbrev pub absorbed : Version → Option Version → Version
absorbed x none = x
absorbed x (some v) = merged x v

pub find-upsert_version :
    (x : Version) (p n : String) (rows : List Version)
    → find (version_key p n) (upsert_version x rows) ≡ (
        if version_key p n x
        then some (absorbed x (find (version_key p n) rows))
        else find (version_key p n) rows)
unfolding upsert_version find
find-upsert_version x p n rows =
    let same = version_key x.package_name x.version_name in
    elim (Bool-cases (any same rows)) [
      | inr new ↦ ground (
        arith,
        find-append (version_key p n) rows (x ∷ []),
        any-find same rows,
        eq_iff x.package_name p,
        eq_iff x.version_name n,
      )
      | inl old ↦
          rw (old, upsert_version, find-update (version_key p n) same (merged x) rows (λ v. refl))
            (elim (Option-cases (find (version_key p n) rows)) [
              | inl e ↦
                  ground
                    (arith, e, any-find same rows, eq_iff x.package_name p, eq_iff x.version_name n)
              | inr (v, e) ↦ ground (
                arith,
                e,
                find-some (version_key p n) rows v e,
                eq_iff v.package_name p,
                eq_iff v.version_name n,
                eq_iff v.package_name x.package_name,
                eq_iff v.version_name x.version_name,
                eq_iff x.package_name p,
                eq_iff x.version_name n,
              )
            ])
    ]

-- Whether a row says that its version can be downloaded.
abbrev pub is_downloadable : Option Version → Bool
is_downloadable none = false
is_downloadable (some v) = v.downloadable

abbrev pub release_of : Option Version → Option String
release_of none = none
release_of (some v) = v.release_date

-- The records name the version `n`.
unfoldable pub listed : String → List VersionRecord → Bool
listed n [] = false
listed n (r ∷ rs) = r.version_name == n || listed n rs

-- A source that can be downloaded from lists the version `n`.
unfoldable pub offered : List Collector → String → List (String × List VersionRecord) → Bool
offered collectors n [] = false
offered collectors n ((source, rs) ∷ rest) =
    (source_downloadable collectors source && listed n rs) || offered collectors n rest

module _ (dumps : DownloadKey → String) (now : ℕ) (p : String) where
  pub view-persist_record :
      (source : String) (downloadable dated : Bool) (g : Gathering) (r : VersionRecord)
      (q n : String)
      → find (version_key q n) (persist_record dumps now p source downloadable dated g r).versions
        ≡ (if version_key q n (excluded_version p downloadable dated r)
            then some (
                absorbed
                  (excluded_version p downloadable dated r)
                  (find (version_key q n) g.versions))
            else find (version_key q n) g.versions)
  unfolding persist_record
  view-persist_record source downloadable dated g r q n =
      find-upsert_version (excluded_version p downloadable dated r) q n g.versions

  downloadable-persist_records :
      (source : String) (downloadable dated : Bool) (g : Gathering) (rs : List VersionRecord)
      (n : String)
      → is_downloadable (
          find
            (version_key p n)
            (persist_records dumps now p source downloadable dated g rs).versions)
        ≡ (is_downloadable (find (version_key p n) g.versions) || (downloadable && listed n rs))
  unfolding persist_records listed
  downloadable-persist_records source downloadable dated g [] n = ground arith
  downloadable-persist_records source downloadable dated g (r ∷ rs) n = ground (
    arith,
    eq_refl p,
    view-persist_record source downloadable dated g r p n,
    downloadable-persist_records source downloadable dated
        (persist_record dumps now p source downloadable dated g r) rs n,
  )

  downloadable-persist_sources :
      (collectors : List Collector) (g : Gathering) (gathered : List (String × List VersionRecord))
      (n : String)
      → is_downloadable
          (find (version_key p n) (persist_sources dumps now p collectors g gathered).versions)
        ≡ (is_downloadable (find (version_key p n) g.versions) || offered collectors n gathered)
  unfolding persist_sources offered
  downloadable-persist_sources collectors g [] n = ground arith
  downloadable-persist_sources collectors g ((source, rs) ∷ rest) n =
      let down = source_downloadable collectors source in
      let dated = authoritative collectors source in
      ground (
        arith,
        downloadable-persist_records source down dated g rs n,
        downloadable-persist_sources collectors (persist_records dumps now p source down dated g rs)
            rest n,
      )

  -- After a round a version of the package counts as downloadable exactly when it did before or a
  -- source that can be downloaded from lists it: a source that only knows versions never takes that
  -- away and never gives it.
  pub downloadable-persist :
      (collectors : List Collector) (gathered : List (String × List VersionRecord)) (full : Bool)
      (db : Database) (n : String)
      → is_downloadable
          (find (version_key p n) (persist dumps now p collectors gathered full db).0.versions)
        ≡ (is_downloadable (find (version_key p n) db.versions) || offered collectors n gathered)
  unfolding persist
  downloadable-persist collectors gathered full db n =
      downloadable-persist_sources collectors (gathering db) gathered n
