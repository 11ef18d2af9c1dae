-- ===== src/Catalog/Persist/NewVersions.antt =====
-- The versions that `_persist` returns, which are the ones that are archived.
use android_package_service.Base.{
  ℕ, ◌≤◌, String, ◌≡◌, refl, inl, inr, Bool, true, false, not, ◌&&◌, ◌||◌, Option, List, [], ◌∷◌,
  ◌==◌, arith, eq_iff, if◌then◌else◌, any, any-append, max, le_trans, count, Bool-cases, is_some,
}
use android_package_service.Catalog.Versions.{
  DownloadKey, VersionRecord, Collector, version_key, Gathering, dict_get, dict_set, mentions,
  add_name,
}
use android_package_service.Catalog.Persist.{
  persist_record, persist_records, persist_sources, source_downloadable, authoritative, Database,
  persist, gathering, new_versions,
}
use android_package_service.Catalog.Persist.Views.{listed, offered}

-- An entry of the name `n`.
abbrev pub names {ℓ} : {V : Type ℓ} → String → String × V → Bool
names n e = e.0 == n

any-mentions-add_name :
    (n m : String) (l : List String)
    → any (mentions n) (add_name m l) ≡ (any (mentions n) l || m == n)
unfolding any
any-mentions-add_name n m l = ground (arith, any-append (mentions n) l (m ∷ []), eq_iff m n)

any-names-dict_set :
    (n k : String) (c : Option ℕ) (m : List (String × Option ℕ))
    → any (names n) (dict_set k c m) ≡ (any (names n) m || k == n)
unfolding any dict_set
any-names-dict_set n k c [] = ground arith
any-names-dict_set n k c ((j, d) ∷ m) =
    ground (arith, eq_iff j k, eq_iff j n, eq_iff k n, any-names-dict_set n k c m)

count-names-dict_set :
    (n k : String) (c : Option ℕ) (m : List (String × Option ℕ))
    → count (names n) (dict_set k c m)
      ≡ (if k == n then max 1 (count (names n) m) else count (names n) m)
unfolding count dict_set
count-names-dict_set n k c [] = ground arith
count-names-dict_set n k c ((j, d) ∷ m) =
    ground (arith, eq_iff j k, eq_iff j n, eq_iff k n, count-names-dict_set n k c m)

any-names-dict_get :
    (n : String) (m : List (String × Option ℕ)) → is_some (dict_get n m) ≡ any (names n) m
unfolding any dict_get
any-names-dict_get n [] = refl
any-names-dict_get n ((j, d) ∷ m) = ground (arith, any-names-dict_get n m)

any-new_versions :
    (existing : String → Bool) (down : List String) (m : List (String × Option ℕ)) (n : String)
    → any (names n) (new_versions existing down m)
      ≡ (any (names n) m && (not (existing n) && any (mentions n) down))
unfolding any new_versions
any-new_versions existing down [] n = refl
any-new_versions existing down ((j, d) ∷ m) n =
    ground (arith, eq_iff j n, any-new_versions existing down m n)

count-new_versions :
    (existing : String → Bool) (down : List String) (m : List (String × Option ℕ)) (n : String)
    → count (names n) (new_versions existing down m) ≤ count (names n) m
unfolding count new_versions
count-new_versions existing down [] n = omega arith
count-new_versions existing down ((j, d) ∷ m) n =
    ground (arith, count-new_versions existing down m n)

-- What the loops keep: each collected name once, and every downloadable name among them.
record IsCollecting (n : String) (g : Gathering) : Type 0 where
  once : count (names n) g.collected ≤ 1
  among : any (mentions n) g.downloadable_names ≡ true → any (names n) g.collected ≡ true

module _ (dumps : DownloadKey → String) (now : ℕ) (p n : String) where
  persist_record-IsCollecting :
      (source : String) (down dated : Bool) (g : Gathering) (r : VersionRecord)
      → IsCollecting n g
      → IsCollecting n (persist_record dumps now p source down dated g r)
  unfolding persist_record
  persist_record-IsCollecting source down dated g r i = ground (
    arith,
    any-mentions-add_name n r.version_name g.downloadable_names,
    any-names-dict_set n r.version_name r.version_code g.collected,
    count-names-dict_set n r.version_name r.version_code g.collected,
    any-names-dict_get r.version_name g.collected,
    eq_iff r.version_name n,
  )

  names-persist_record :
      (source : String) (down dated : Bool) (g : Gathering) (r : VersionRecord)
      → any (mentions n) (persist_record dumps now p source down dated g r).downloadable_names
        ≡ (any (mentions n) g.downloadable_names || (down && r.version_name == n))
  unfolding persist_record
  names-persist_record source down dated g r =
      ground (arith, any-mentions-add_name n r.version_name g.downloadable_names)

  names-persist_records :
      (source : String) (down dated : Bool) (g : Gathering) (rs : List VersionRecord)
      → any (mentions n) (persist_records dumps now p source down dated g rs).downloadable_names
        ≡ (any (mentions n) g.downloadable_names || (down && listed n rs))
  unfolding persist_records listed
  names-persist_records source down dated g [] = ground arith
  names-persist_records source down dated g (r ∷ rs) = ground (
    arith,
    names-persist_record source down dated g r,
    names-persist_records source down dated (persist_record dumps now p source down dated g r) rs,
  )

  persist_records-IsCollecting :
      (source : String) (down dated : Bool) (g : Gathering) (rs : List VersionRecord)
      → IsCollecting n g
      → IsCollecting n (persist_records dumps now p source down dated g rs)
  unfolding persist_records
  persist_records-IsCollecting source down dated g [] i = i
  persist_records-IsCollecting source down dated g (r ∷ rs) i =
      persist_records-IsCollecting source down dated
        (persist_record dumps now p source down dated g r) rs
        (persist_record-IsCollecting source down dated g r i)

  persist_sources-IsCollecting :
      (collectors : List Collector) (g : Gathering) (gathered : List (String × List VersionRecord))
      → IsCollecting n g
      → IsCollecting n (persist_sources dumps now p collectors g gathered)
        × (any (mentions n) (persist_sources dumps now p collectors g gathered).downloadable_names
            ≡ (any (mentions n) g.downloadable_names || offered collectors n gathered))
  unfolding persist_sources offered
  persist_sources-IsCollecting collectors g [] i = (i, ground arith)
  persist_sources-IsCollecting collectors g ((source, rs) ∷ rest) i =
      let down = source_downloadable collectors source in
      let dated = authoritative collectors source in
      let g' = persist_records dumps now p source down dated g rs in
      let ih =
        persist_sources-IsCollecting collectors g' rest
          (persist_records-IsCollecting source down dated g rs i) in
      (ih.0, ground (arith, ih.1, names-persist_records source down dated g rs))

  -- The versions that a round returns are exactly the names that the table did not have for the
  -- package and that a source to download from lists, each once.
  pub persist_new_versions :
      (collectors : List Collector) (gathered : List (String × List VersionRecord)) (full : Bool)
      (db : Database)
      → let new = (persist dumps now p collectors gathered full db).1 in
        (any (names n) new
          ≡ (not (any (version_key p n) db.versions) && offered collectors n gathered))
        × (count (names n) new ≤ 1)
  unfolding persist
  persist_new_versions collectors gathered full db =
      let start : IsCollecting n (gathering db) = record {
        once = unfold count in omega arith;
        among = λ h. unfold any in h;
      } in
      let end = persist_sources-IsCollecting collectors (gathering db) gathered start in
      let g = persist_sources dumps now p collectors (gathering db) gathered in
      let existing : String → Bool = λ m. any (version_key p m) db.versions in
      let nothing : any (mentions n) [] ≡ false = unfold any in refl in
      let found = any-new_versions existing g.downloadable_names g.collected n in
      (
        elim (Bool-cases (any (mentions n) g.downloadable_names)) [
          | inl down ↦ ground (arith, found, end.1, end.0.among down, nothing)
          | inr known ↦ ground (arith, found, end.1, nothing)
        ],
        le_trans (count-new_versions existing g.downloadable_names g.collected n) end.0.once,
      )
