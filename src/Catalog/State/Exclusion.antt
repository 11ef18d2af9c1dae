-- ===== src/Catalog/State/Exclusion.antt =====
-- At any time one catalogue at most collects a package.
use android_package_service.Base.{
  ℕ, ◌+◌, ◌≤◌, ◌<◌, String, ◌≡◌, refl, sym, ap, subst, ◌≢◌, ◌⊎◌, inl, inr, true, false, some, List,
  [], ◌∷◌, ◌&&◌, ◌==◌, arith, eq_refl, eq_iff, All, find, find-some, find-update, Bool-cases,
  holds_text,
}
use android_package_service.Catalog.State.Leases.{
  Collects, acquire_lease-old, acquire_lease-Collects, not_sym, acquire_lease-refused,
  find-update_other, find-acquire_lease_other,
}
use android_package_service.Catalog.State.{
  CollectionState, of_package, acquire_lease, released, release_lease,
}

-- The two transactions of a catalogue, by the owner and on the package.
pub data Call : Type 0 where
  acquires releases : String → String → Call

abbrev pub caller : Call → String
caller (acquires owner p) = owner
caller (releases owner p) = owner

abbrev pub subject : Call → String
subject (acquires owner p) = p
subject (releases owner p) = p

module _ (lease : ℕ) where
  unfoldable pub step : ℕ × Call → List CollectionState → List CollectionState
  step (now, acquires owner p) states = (acquire_lease lease now owner p states).0
  step (now, releases owner p) states = release_lease owner p states

  unfoldable pub run : List (ℕ × Call) → List CollectionState → List CollectionState
  run [] states = states
  run (c ∷ cs) states = run cs (step c states)

-- A call before the end of the lease, by another catalogue or on another package.
abbrev pub IsForeign : ℕ → String → String → ℕ × Call → Type 0
IsForeign end owner p c = (c.0 ≤ end) × ((caller c.1 ≢ owner) ⊎ (p ≢ subject c.1))

Collects-found :
    (end : ℕ) (owner p : String) (states states' : List CollectionState)
    (c : Collects end owner p states)
    → find (of_package p) states' ≡ some c.row
    → Collects end owner p states'
Collects-found end owner p states states' c e = record {
  row = c.row;
  found = e;
  holder = c.holder;
  until = c.until;
}

step-Collects :
    (lease end : ℕ) (owner p : String) (c : ℕ × Call) (states : List CollectionState)
    → IsForeign end owner p c
    → Collects end owner p states
    → Collects end owner p (step lease c states)
unfolding step release_lease
step-Collects lease end owner p (now, acquires other q) states (le, inl ne) c =
    elim (Bool-cases (p == q)) [
      | inr apart ↦ Collects-found end owner p states _ c (
          find-acquire_lease_other lease now other q p states c.row
            (λ e. absurd (ground (arith, eq_iff p q))) c.found)
      | inl same ↦
          let at_q : Collects end owner q states =
            subst (λ k. Collects end owner k states) ((eq_iff p q).0 same) c in
          let kept = acquire_lease-refused lease end now owner other q states at_q ne le in
          subst (λ t. Collects end owner p t) (sym (ap (λ r. r.0) kept)) c
    ]
step-Collects lease end owner p (now, acquires other q) states (le, inr ne) c =
    Collects-found end owner p states _ c
      (find-acquire_lease_other lease now other q p states c.row ne c.found)
step-Collects lease end owner p (now, releases other q) states (le, foreign) c =
    Collects-found end owner p states _ c (
      find-update_other p (λ s. of_package q s && holds_text s.collecting_owner other) released
        states c.row (λ x. refl) c.found
        (elim foreign [
          | inl ne ↦ ground (arith, c.holder, eq_iff owner other, not_sym ne)
          | inr ne ↦ ground (
            arith,
            find-some (of_package p) states c.row c.found,
            eq_iff c.row.package_name p,
            eq_iff c.row.package_name q,
            ne,
          )
        ]))

run-Collects :
    (lease end : ℕ) (owner p : String) (cs : List (ℕ × Call)) (states : List CollectionState)
    → All (IsForeign end owner p) cs
    → Collects end owner p states
    → Collects end owner p (run lease cs states)
unfolding run
run-Collects lease end owner p [] states f c = c
run-Collects lease end owner p (x ∷ cs) states f c =
    run-Collects lease end owner p cs (step lease x states) f.1
      (step-Collects lease end owner p x states f.0 c)

-- A catalogue takes the lease of a package at `now`. Whatever calls of others and on other packages
-- follow up to the end of the lease, it still has the lease, and any other catalogue that asks for
-- the package up to then is refused and changes nothing.
pub collection_exclusive :
    (lease now later : ℕ) (owner other p : String) (cs : List (ℕ × Call))
    (states : List CollectionState)
    → (acquire_lease lease now owner p states).1 ≡ true
    → All (IsForeign (now + lease) owner p) cs
    → other ≢ owner
    → later ≤ now + lease
    → let after = run lease cs (acquire_lease lease now owner p states).0 in
      Collects (now + lease) owner p after
      × (acquire_lease lease later other p after ≡ (after, false))
collection_exclusive lease now later owner other p cs states h f ne le =
    let kept =
      run-Collects lease (now + lease) owner p cs (acquire_lease lease now owner p states).0 f
        (acquire_lease-Collects lease now owner p states h) in
    (kept, acquire_lease-refused lease (now + lease) later owner other p _ kept ne le)

-- A crashed owner does not block a package: after the end of its lease any catalogue gets it.
pub expired_lease_taken :
    (lease end now : ℕ) (owner other p : String) (states : List CollectionState)
    → Collects end owner p states
    → end < now
    → (acquire_lease lease now other p states).1 ≡ true
expired_lease_taken lease end now owner other p states c late =
    rw (acquire_lease-old lease now other p states c.row c.found) (ground (arith, c.until))

find-release_lease :
    (end : ℕ) (owner p : String) (states : List CollectionState) (c : Collects end owner p states)
    → find (of_package p) (release_lease owner p states) ≡ some (released c.row)
unfolding release_lease
find-release_lease end owner p states c =
    rw
      (
        find-update (of_package p) (λ s. of_package p s && holds_text s.collecting_owner owner)
            released states (λ x. refl),
        c.found,
      )
      (ground (arith, find-some (of_package p) states c.row c.found, c.holder, eq_refl owner))

-- Once the owner gives the lease back any catalogue gets the package at any time, and a catalogue
-- that does not own the lease cannot give it back.
pub release_lease_by_owner :
    (lease end now : ℕ) (owner other p : String) (states : List CollectionState)
    → Collects end owner p states
    → other ≢ owner
    → ((acquire_lease lease now other p (release_lease owner p states)).1 ≡ true)
      × Collects end owner p (release_lease other p states)
unfolding step
release_lease_by_owner lease end now owner other p states c ne = (
  rw
      (acquire_lease-old lease now other p (release_lease owner p states) (released c.row)
        (find-release_lease end owner p states c))
      (ground arith),
  step-Collects lease end owner p (end, releases other p) states (omega arith, inl ne) c,
)
