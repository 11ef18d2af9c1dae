-- ===== src/Scheduler/Leader.antt =====
-- One leader at a time, and a round that no package stops.
use android_package_service.Base.{
  ℕ, ◌+◌, ◌≤◌, ◌<◌, String, ◌≡◌, refl, ◌≢◌, Bool, true, false, Option, none, some, List, [], ◌∷◌,
  arith, eq_iff, length, All, if◌then◌else◌,
}
use android_package_service.Scheduler.{Lock, taken, acquire_leadership, refresh_all, run_once}

acquire_leadership-taken :
    (lease now : ℕ) (owner : String) (lock : Option Lock)
    → (acquire_leadership lease now owner lock).1 ≡ true
    → (acquire_leadership lease now owner lock).0 ≡ some (taken lease now owner)
unfolding acquire_leadership
acquire_leadership-taken lease now owner none h = refl
acquire_leadership-taken lease now owner (some l) h = ground arith

-- The schedulers that asked, in order; the last lock is the first argument.
unfoldable pub contend : ℕ → List (ℕ × String) → Option Lock → Option Lock
contend lease [] lock = lock
contend lease ((now, owner) ∷ rest) lock =
    contend lease rest (acquire_leadership lease now owner lock).0

-- Another scheduler that asks up to `end`.
abbrev pub IsRival : ℕ → String → ℕ × String → Type 0
IsRival end owner c = (c.0 ≤ end) × (owner ≢ c.1)

contend-kept :
    (lease end : ℕ) (owner : String) (l : Lock) (cs : List (ℕ × String))
    → l.owner ≡ some owner
    → l.expires ≡ some end
    → All (IsRival end owner) cs
    → contend lease cs (some l) ≡ some l
unfolding contend acquire_leadership
contend-kept lease end owner l [] o e r = refl
contend-kept lease end owner l ((now, other) ∷ cs) o e r =
    ground (arith, eq_iff owner other, r.0, contend-kept lease end owner l cs o e r.1)

-- A scheduler that took the lock at `now` stays the leader until its lease is over: rivals that ask
-- up to then leave the lock as it is, and another one that asks then is refused. One that asks later
-- gets it, so a crashed leader is replaced.
pub leader_exclusive :
    (lease now early late : ℕ) (owner other : String) (cs : List (ℕ × String)) (lock : Option Lock)
    → (acquire_leadership lease now owner lock).1 ≡ true
    → All (IsRival (now + lease) owner) cs
    → owner ≢ other
    → early ≤ now + lease
    → now + lease < late
    → let after = contend lease cs (acquire_leadership lease now owner lock).0 in
      (after ≡ some (taken lease now owner))
      × (acquire_leadership lease early other after ≡ (after, false))
      × ((acquire_leadership lease late other after).1 ≡ true)
leader_exclusive lease now early late owner other cs lock h r ne le lt =
    let kept = contend-kept lease (now + lease) owner (taken lease now owner) cs refl refl r in
    rw (acquire_leadership-taken lease now owner lock h, kept)
      (unfold acquire_leadership in
        (refl, ground (arith, eq_iff owner other), ground (arith, eq_iff owner other)))

module _ {D : Type 0} (collect : String → D → D × Bool) where
  -- How often the round collected: once for each package, in order, whatever raised before.
  unfoldable pub collect_each : List String → D → D
  collect_each [] db = db
  collect_each (p ∷ ps) db = collect_each ps (collect p db).0

  refresh_all_lem :
      (ps : List String) (db : D)
      → ((refresh_all collect ps db).0 ≡ collect_each ps db)
        × ((refresh_all collect ps db).1 + (refresh_all collect ps db).2 ≡ length ps)
  unfolding refresh_all collect_each
  refresh_all_lem [] db = (refl, refl)
  refresh_all_lem (p ∷ ps) db = ground (arith, refresh_all_lem ps (collect p db).0)

  -- A round of a leader collects every tracked package once, in order, although some fail, and counts
  -- each as a success or as a failure; a scheduler that is not the leader collects nothing.
  pub run_once_complete :
      (lease now : ℕ) (owner : String) (tracked : D → List String) (lock : Option Lock) (db : D)
      → let r = run_once collect lease now owner tracked lock db in
        (r.2.leader ≡ (acquire_leadership lease now owner lock).1)
        × (r.2.ok + r.2.failed ≡ r.2.packages)
        × (r.1 ≡ (if r.2.leader then collect_each (tracked db) db else db))
        × (r.2.packages ≡ (if r.2.leader then length (tracked db) else 0))
  unfolding run_once
  run_once_complete lease now owner tracked lock db =
      ground (arith, refresh_all_lem (tracked db) db)
