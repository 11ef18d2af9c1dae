-- ===== src/Catalog/Persist/Growth.antt =====
-- What `_persist` never loses: no version, code, date or mark is taken away.
use android_package_service.Base.{
  ℕ, String, ◌≡◌, refl, subst, inl, inr, Bool, ◌||◌, Option, none, some, List, [], ◌∷◌, arith, find,
  Bool-cases, coalesce,
}
use android_package_service.Catalog.Versions.{
  DownloadKey, VersionRecord, Collector, Version, version_key, merged, Gathering,
}
use android_package_service.Catalog.Persist.{
  excluded_version, persist_record, persist_records, persist_sources, source_downloadable,
  authoritative, Database, persist, gathering,
}
use android_package_service.Catalog.Persist.Views.{absorbed, view-persist_record}

-- One row of `versions` is kept: a field that the new row lacks was not there before, and the first
-- sighting is the old one where there was one.
pub record Kept (v w : Version) : Type 0 where
  pub code : coalesce w.version_code v.version_code ≡ w.version_code
  pub release : coalesce w.release_date v.release_date ≡ w.release_date
  pub first_seen : coalesce v.first_seen_date w.first_seen_date ≡ w.first_seen_date
  pub last_seen : coalesce w.last_seen_date v.last_seen_date ≡ w.last_seen_date
  pub downloadable : (w.downloadable || v.downloadable) ≡ w.downloadable

-- A row that is there stays.
pub data Grows (o : Option Version) (o' : Option Version) : Type 0 where
  fresh : o ≡ none → Grows o o'
  kept : (v w : Version) → o ≡ some v → o' ≡ some w → Kept v w → Grows o o'

Kept-refl : (v : Version) → Kept v v
Kept-refl v = ground arith

Kept-trans : {u v w : Version} → Kept u v → Kept v w → Kept u w
Kept-trans a b = record {
  code = ground arith;
  release = ground arith;
  first_seen = ground arith;
  last_seen = ground arith;
  downloadable = ground arith;
}

Grows-refl : (o : Option Version) → Grows o o
Grows-refl none = fresh refl
Grows-refl (some v) = kept v v refl refl (Kept-refl v)

Grows-trans : {a b c : Option Version} → Grows a b → Grows b c → Grows a c
Grows-trans (fresh e) k = fresh e
Grows-trans (kept v w e f k) (fresh g) = absurd (cc)
Grows-trans (kept v w e f k) (kept v' w' e' f' k') =
    let same : v' ≡ w = cc in kept v w' e f' (Kept-trans k (subst (λ u. Kept u w') same k'))

Kept-merged : (x v : Version) → Kept v (merged x v)
Kept-merged x v = ground arith

Grows-absorbed : (x : Version) (o : Option Version) → Grows o (some (absorbed x o))
Grows-absorbed x none = fresh refl
Grows-absorbed x (some v) = kept v (merged x v) refl refl (Kept-merged x v)

module _ (dumps : DownloadKey → String) (now : ℕ) (p : String) (q n : String) where
  Grows-persist_record :
      (source : String) (downloadable dated : Bool) (g : Gathering) (r : VersionRecord)
      → Grows (find (version_key q n) g.versions) (
          find
            (version_key q n)
            (persist_record dumps now p source downloadable dated g r).versions)
  Grows-persist_record source downloadable dated g r =
      rw (view-persist_record dumps now p source downloadable dated g r q n)
        (elim (Bool-cases (version_key q n (excluded_version p downloadable dated r))) [
          | inl hit ↦ rw hit (Grows-absorbed _ _)
          | inr miss ↦ rw miss (Grows-refl _)
        ])

  Grows-persist_records :
      (source : String) (downloadable dated : Bool) (g : Gathering) (rs : List VersionRecord)
      → Grows (find (version_key q n) g.versions) (
          find
            (version_key q n)
            (persist_records dumps now p source downloadable dated g rs).versions)
  unfolding persist_records
  Grows-persist_records source downloadable dated g [] = Grows-refl _
  Grows-persist_records source downloadable dated g (r ∷ rs) =
      Grows-trans (Grows-persist_record source downloadable dated g r) (
        Grows-persist_records source downloadable dated
          (persist_record dumps now p source downloadable dated g r) rs)

  Grows-persist_sources :
      (collectors : List Collector) (g : Gathering) (gathered : List (String × List VersionRecord))
      → Grows
          (find (version_key q n) g.versions)
          (find (version_key q n) (persist_sources dumps now p collectors g gathered).versions)
  unfolding persist_sources
  Grows-persist_sources collectors g [] = Grows-refl _
  Grows-persist_sources collectors g ((source, rs) ∷ rest) =
      Grows-trans
        (Grows-persist_records source (source_downloadable collectors source)
          (authoritative collectors source) g rs)
        (Grows-persist_sources collectors
          (persist_records dumps now p source (source_downloadable collectors source)
            (authoritative collectors source) g rs)
          rest)

  -- A round keeps every version of every package: a code, a release date or a last date that was
  -- known stays known, perhaps with a newer value; the date of the first sighting stays the same; a
  -- version that could be downloaded still can.
  pub persist-Grows :
      (collectors : List Collector) (gathered : List (String × List VersionRecord)) (full : Bool)
      (db : Database)
      → Grows
          (find (version_key q n) db.versions)
          (find (version_key q n) (persist dumps now p collectors gathered full db).0.versions)
  unfolding persist
  persist-Grows collectors gathered full db =
      Grows-persist_sources collectors (gathering db) gathered
