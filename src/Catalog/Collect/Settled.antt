-- ===== src/Catalog/Collect/Settled.antt =====
-- After a round the package is free again, and its state says what was done.
use android_package_service.Base.{
  ℕ, ◌+◌, ◌-◌, String, ◌≡◌, refl, inl, inr, Bool, true, false, ◌&&◌, Option, none, some, List,
  arith, eq_refl, find, find-some, find-update, Bool-cases, Option-cases, ◌∙◌, holds_text, ltb,
}
use android_package_service.Catalog.State.{
  CollectionState, of_package, needs_collection, is_first_time, acquire_lease, release_lease,
  released,
}
use android_package_service.Catalog.State.Leases.{
  Collects, acquire_lease-Collects, acquire_lease-old,
}
use android_package_service.Catalog.Versions.{DownloadKey, Collector}
use android_package_service.Catalog.Persist.{
  Database, persist, update_state, refreshed, persist_sources, gathering,
}
use android_package_service.Catalog.Collect.{
  Answers, gather, is_empty, collect_leased, collect_once,
}

-- The package has a row without an owner, whose dates are as given.
pub record IsFree (p : String) (full refresh : Option ℕ) (states : List CollectionState)
    : Type 0 where
  pub row : CollectionState
  pub found : find (of_package p) states ≡ some row
  pub free : row.collecting_owner ≡ none
  pub full_at : row.last_full_at ≡ full
  pub refresh_at : row.last_refresh_at ≡ refresh

IsFree-release_lease :
    (end : ℕ) (owner p : String) (states : List CollectionState) (c : Collects end owner p states)
    → IsFree p c.row.last_full_at c.row.last_refresh_at (release_lease owner p states)
unfolding release_lease
IsFree-release_lease end owner p states c = record {
  row = released c.row;
  found =
      rw
        (
          find-update (of_package p) (λ s. of_package p s && holds_text s.collecting_owner owner)
              released states (λ x. refl),
          c.found,
        )
        (ground (arith, find-some (of_package p) states c.row c.found, c.holder, eq_refl owner));
  free = refl;
  full_at = refl;
  refresh_at = refl;
}

Collects-update_state :
    (end : ℕ) (owner p : String) (full : Bool) (cursors : List (String × ℕ)) (now : ℕ)
    (states : List CollectionState) (c : Collects end owner p states)
    → Collects end owner p (update_state p full cursors now states)
unfolding update_state
Collects-update_state end owner p full cursors now states c = record {
  row = refreshed full cursors now (find (of_package p) states) c.row;
  found =
      rw
        (
          find-update (of_package p) (of_package p)
              (refreshed full cursors now (find (of_package p) states)) states (λ x. refl),
          c.found,
        )
        (ground (arith, find-some (of_package p) states c.row c.found));
  holder = c.holder;
  until = c.until;
}

-- Anybody gets a package that is free.
acquire_lease-IsFree :
    (lease now : ℕ) (owner p : String) (full refresh : Option ℕ) (states : List CollectionState)
    → IsFree p full refresh states
    → (acquire_lease lease now owner p states).1 ≡ true
acquire_lease-IsFree lease now owner p full refresh states f =
    rw (acquire_lease-old lease now owner p states f.row f.found) (ground (arith, f.free))

needs_collection-IsFree :
    (ttl now : ℕ) (p : String) (need : Bool) (full refresh : ℕ) (states : List CollectionState)
    → IsFree p (some full) (some refresh) states
    → needs_collection ttl now p need false states ≡ (need && ltb ttl (now - refresh))
unfolding needs_collection
needs_collection-IsFree ttl now p need full refresh states f =
    rw (f.found, needs_collection) (ground (arith, f.full_at, f.refresh_at))

-- After a round with an answer the time of a full round is known.
known_full :
    (end : ℕ) (owner p : String) (cursors : List (String × ℕ)) (now : ℕ)
    (states : List CollectionState) (c : Collects end owner p states)
    → (t : ℕ) × ((refreshed
          (is_first_time p states)
          cursors
          now
          (find (of_package p) states)
          c.row).last_full_at
        ≡ some t)
unfolding is_first_time
known_full end owner p cursors now states c = elim (Option-cases c.row.last_full_at) [
  | inl never ↦ (now, rw (c.found, is_first_time) (ground (arith, never)))
  | inr (t, once) ↦ (t, rw (c.found, is_first_time) (ground (arith, once)))
]

module _ (dumps : DownloadKey → String) (collectors : List Collector) (lease : ℕ) (hooked : Bool)
    (owner p : String) (taken stored : ℕ) (answers : Bool → Answers) (db : Database) where
  abbrev under_lease : List CollectionState
  under_lease = (acquire_lease lease taken owner p db.states).0

  collect_once-leased :
      (acquire_lease lease taken owner p db.states).1 ≡ true
      → collect_once dumps collectors lease hooked owner p taken stored answers db
        ≡ collect_leased dumps collectors lease hooked owner p stored answers
            (record db { states = under_lease })
  unfolding collect_once
  collect_once-leased h = rw (h, collect_once)

  abbrev full : Bool
  full = is_first_time p under_lease

  abbrev cursors : List (String × ℕ)
  cursors =
      (persist_sources dumps stored p collectors (gathering (record db { states = under_lease }))
        (gather (answers full))).cursors

  states-collect_once_empty :
      (acquire_lease lease taken owner p db.states).1 ≡ true
      → is_empty (gather (answers full)) ≡ true
      → (collect_once dumps collectors lease hooked owner p taken stored answers db).0.states
        ≡ release_lease owner p under_lease
  unfolding collect_leased
  states-collect_once_empty h none_gave = rw (collect_once-leased h, collect_leased, none_gave)

  states-collect_once :
      (acquire_lease lease taken owner p db.states).1 ≡ true
      → is_empty (gather (answers full)) ≡ false
      → (collect_once dumps collectors lease hooked owner p taken stored answers db).0.states
        ≡ release_lease owner p (update_state p full cursors stored under_lease)
  unfolding collect_leased persist
  states-collect_once h some_gave = rw (collect_once-leased h, collect_leased, some_gave)

  -- A round that got the lease gives it back, whatever the sources did: any catalogue gets the
  -- package next, at any time.
  pub collect_once_frees :
      (later : ℕ) (other : String)
      → (acquire_lease lease taken owner p db.states).1 ≡ true
      → (acquire_lease lease later other p
          (collect_once dumps collectors lease hooked owner p taken stored answers db).0.states).1
        ≡ true
  collect_once_frees later other h =
      let c = acquire_lease-Collects lease taken owner p db.states h in
      elim (Bool-cases (is_empty (gather (answers full)))) [
        | inl none_gave ↦ rw (states-collect_once_empty h none_gave) (
            acquire_lease-IsFree lease later other p _ _ _
              (IsFree-release_lease (taken + lease) owner p under_lease c))
        | inr some_gave ↦ rw (states-collect_once h some_gave) (
            acquire_lease-IsFree lease later other p _ _ _ (
              IsFree-release_lease (taken + lease) owner p
                (update_state p full cursors stored under_lease)
                (Collects-update_state (taken + lease) owner p full cursors stored under_lease c)))
      ]

  -- A round that got the lease and an answer of some source settles the package: a client that needs
  -- no history starts no further round, and one that does starts one exactly when the time to live
  -- has passed since the round was stored.
  pub collect_once_settles :
      (ttl asked : ℕ) (need_history : Bool)
      → (acquire_lease lease taken owner p db.states).1 ≡ true
      → is_empty (gather (answers (is_first_time p under_lease))) ≡ false
      → needs_collection ttl asked p need_history false
          (collect_once dumps collectors lease hooked owner p taken stored answers db).0.states
        ≡ (need_history && ltb ttl (asked - stored))
  unfolding Collects-update_state
  collect_once_settles ttl asked need_history h some_answer =
      let c = acquire_lease-Collects lease taken owner p db.states h in
      let c' = Collects-update_state (taken + lease) owner p full cursors stored under_lease c in
      let known = known_full (taken + lease) owner p cursors stored under_lease c in
      let f =
        IsFree-release_lease (taken + lease) owner p
          (update_state p full cursors stored under_lease) c' in
      rw (states-collect_once h some_answer) (
        needs_collection-IsFree ttl asked p need_history known.0 stored _ (record {
          row = f.row;
          found = f.found;
          free = f.free;
          full_at = f.full_at ∙ known.1;
          refresh_at = f.refresh_at;
        }))
