-- ===== src/Catalog/Collect.antt =====
-- `_gather`, `_collect_once` and `ensure_collected` of app/catalog/catalog.py. A round runs as one
-- step, with the clock readings `taken` at the lease and `stored` at the transaction; the answers of
-- the collectors are a function of the kind of round. Callers that find a round of their process in
-- flight wait for it, so their calls are that one round.
pub mod Settled
use android_package_service.Base.{
  ℕ, String, Bool, true, false, not, ◌&&◌, Option, none, some, List, [], ◌∷◌, if◌then◌else◌,
}
use android_package_service.Catalog.State.{
  CollectionState, needs_collection, is_first_time, acquire_lease, release_lease,
}
use android_package_service.Catalog.Versions.{DownloadKey, VersionRecord, Collector}
use android_package_service.Catalog.Persist.{Database, persist}

-- What each collector's task returned, by its source; `none` where it raised.
abbrev pub Answers : Type 0
Answers = List (String × Option (List VersionRecord))

-- `_gather`: a source that fails does not stop the others.
unfoldable pub gather : Answers → List (String × List VersionRecord)
gather [] = []
gather ((source, none) ∷ rest) = gather rest
gather ((source, some records) ∷ rest) = (source, records) ∷ gather rest

abbrev pub is_empty {ℓ} : {A : Type ℓ} → List A → Bool
is_empty [] = true
is_empty (x ∷ xs) = false

-- How a round ends: the lease was another's, or it was collected in full or not, with the versions
-- that are new and whether the archiving hook was called with them.
pub data Round : Type 0 where
  skipped : Round
  collected : Bool → List (String × Option ℕ) → Bool → Round

module _ (dumps : DownloadKey → String) (collectors : List Collector) (lease : ℕ) (hooked : Bool)
    (owner p : String) where
  -- The round under the lease, up to its release.
  unfoldable pub collect_leased : ℕ → (Bool → Answers) → Database → Database × Round
  collect_leased stored answers db =
      let full = is_first_time p db.states in
      let gathered = gather (answers full) in
      let r : Database × List (String × Option ℕ) =
        if is_empty gathered
        then (db, [])
        else persist dumps stored p collectors gathered full db in
      (
        record r.0 { states = release_lease owner p r.0.states },
        collected full r.1 (hooked && (not full && not (is_empty r.1))),
      )

  unfoldable pub collect_once : ℕ → ℕ → (Bool → Answers) → Database → Database × Round
  unfolding collect_leased
  collect_once taken stored answers db =
      let got = acquire_lease lease taken owner p db.states in
      if got.1
      then collect_leased stored answers (record db { states = got.0 })
      else (record db { states = got.0 }, skipped)

  -- `ensure_collected`; `none` where nothing had to be done.
  unfoldable pub ensure_collected :
      ℕ → ℕ → ℕ → ℕ → Bool → Bool → (Bool → Answers) → Database → Database × Option Round
  unfolding collect_once
  ensure_collected ttl asked taken stored need_history force answers db =
      if needs_collection ttl asked p need_history force db.states
      then (let r = collect_once taken stored answers db in (r.0, some r.1))
      else (db, none)
