-- ===== src/Catalog/State.antt =====
-- The table `collection_state` of app/catalog/store.py, and the methods of app/catalog/catalog.py
-- that decide whether to collect and that take and give back the collection lease of a package. A
-- time is the number of microseconds since the epoch; `source_cursors` holds the pairs that its JSON
-- encodes.
pub mod Leases
pub mod Exclusion
use android_package_service.Base.{
  ℕ, ◌+◌, ◌-◌, String, Bool, true, false, not, ◌&&◌, ◌||◌, Option, none, some, List, [], ◌∷◌, ◌++◌,
  ◌==◌, if◌then◌else◌, ltb, before, holds_text, is_none, find, update,
}

pub record CollectionState : Type 0 where
  pub package_name : String
  pub last_full_at : Option ℕ
  pub last_refresh_at : Option ℕ
  pub source_cursors : Option (List (String × ℕ))
  pub collecting_owner : Option String
  pub collecting_since : Option ℕ
  pub lease_expires : Option ℕ

abbrev pub of_package : String → CollectionState → Bool
of_package p s = s.package_name == p

-- `_needs_collection`
unfoldable pub needs_collection : ℕ → ℕ → String → Bool → Bool → List CollectionState → Bool
needs_collection ttl now p need_history force states = elim (find (of_package p) states) [
  | none ↦ true
  | some s ↦
      if is_none s.last_full_at
      then true
      else if force
      then true
      else if not need_history
      then false
      else elim s.last_refresh_at [ none ↦ true | some t ↦ ltb ttl (now - t) ]
]

-- `_is_first_time`
unfoldable pub is_first_time : String → List CollectionState → Bool
is_first_time p states = elim (find (of_package p) states) [
  | none ↦ true
  | some s ↦ is_none s.last_full_at
]

-- No owner, the same owner, or a lease that has run out.
abbrev pub lease_free : Option String → Option ℕ → String → ℕ → Bool
lease_free holder expires owner now =
    is_none holder || (holds_text holder owner || before expires now)

abbrev pub leased : ℕ → ℕ → String → CollectionState → CollectionState
leased lease now owner s = record s {
  collecting_owner = some owner;
  collecting_since = some now;
  lease_expires = some (now + lease);
}

abbrev pub first_state : ℕ → ℕ → String → String → CollectionState
first_state lease now owner p = record {
  package_name = p;
  last_full_at = none;
  last_refresh_at = none;
  source_cursors = none;
  collecting_owner = some owner;
  collecting_since = some now;
  lease_expires = some (now + lease);
}

-- `_acquire_lease`, by the catalogue that is called `owner`
unfoldable pub acquire_lease :
    ℕ → ℕ → String → String → List CollectionState → List CollectionState × Bool
acquire_lease lease now owner p states = elim (find (of_package p) states) [
  | none ↦ (states ++ first_state lease now owner p ∷ [], true)
  | some s ↦
      if lease_free s.collecting_owner s.lease_expires owner now
      then (update (of_package p) (leased lease now owner) states, true)
      else (states, false)
]

abbrev pub released : CollectionState → CollectionState
released s = record s { collecting_owner = none; collecting_since = none; lease_expires = none }

-- `_release_lease`: only the owner's own lease
unfoldable pub release_lease : String → String → List CollectionState → List CollectionState
release_lease owner p states =
    update (λ s. of_package p s && holds_text s.collecting_owner owner) released states
