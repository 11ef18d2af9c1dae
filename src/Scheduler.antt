-- ===== src/Scheduler.antt =====
-- app/catalog/scheduler.py: the leader lock of the refresh scheduler and one round of it. The
-- waiting of `run_forever` is not modelled; what `ensure_collected` does to the database and whether
-- it raises is the parameter `collect`.
pub mod Leader
use android_package_service.Base.{
  ℕ, suc, ◌+◌, String, Bool, true, false, ◌||◌, Option, none, some, List, [], ◌∷◌, if◌then◌else◌,
  is_some, length, before, holds_text, is_none, select, map,
}
use android_package_service.Catalog.State.{CollectionState}

-- The one row of `scheduler_lock`.
pub record Lock : Type 0 where
  pub owner : Option String
  pub since : Option ℕ
  pub expires : Option ℕ

abbrev pub taken : ℕ → ℕ → String → Lock
taken lease now owner = record {
  owner = some owner;
  since = some now;
  expires = some (now + lease);
}

-- `_acquire_leadership`
unfoldable pub acquire_leadership : ℕ → ℕ → String → Option Lock → Option Lock × Bool
acquire_leadership lease now owner none = (some (taken lease now owner), true)
acquire_leadership lease now owner (some l) =
    if is_none l.owner || (holds_text l.owner owner || before l.expires now)
    then (some (taken lease now owner), true)
    else (some l, false)

-- `_tracked_packages`, in the order that `by_name` gives to the rows.
unfoldable pub tracked_packages :
    (List CollectionState → List CollectionState) → List CollectionState → List String
tracked_packages by_name states =
    map (λ s. s.package_name) (by_name (select (λ s. is_some s.last_full_at) states))

pub record Stats : Type 0 where
  pub leader : Bool
  pub packages : ℕ
  pub ok : ℕ
  pub failed : ℕ

module _ {D : Type 0} (collect : String → D → D × Bool) where
  -- The loop of `run_once`: a package that raises is counted and does not stop the others.
  unfoldable pub refresh_all : List String → D → D × ℕ × ℕ
  refresh_all [] db = (db, 0, 0)
  refresh_all (p ∷ ps) db =
      let r = collect p db in
      let rest = refresh_all ps r.0 in
      if r.1 then (rest.0, suc rest.1, rest.2) else (rest.0, rest.1, suc rest.2)

  -- `run_once` on the packages that are tracked when it is leader.
  unfoldable pub run_once :
      ℕ → ℕ → String → (D → List String) → Option Lock → D → Option Lock × D × Stats
  run_once lease now owner tracked lock db =
      let got = acquire_leadership lease now owner lock in
      let packages = tracked db in
      let r = refresh_all packages db in
      if got.1
      then (
        got.0,
        r.0,
        record { leader = true; packages = length packages; ok = r.1; failed = r.2 },
      )
      else (got.0, db, record { leader = false; packages = 0; ok = 0; failed = 0 })
