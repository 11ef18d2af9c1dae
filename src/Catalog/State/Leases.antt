-- ===== src/Catalog/State/Leases.antt =====
-- What one call of `acquire_lease` or an update does to the row of a package.
use android_package_service.Base.{
  ℕ, ◌+◌, ◌≤◌, String, ◌≡◌, refl, sym, ap, ◌≢◌, inl, inr, true, false, Bool, none, some, List, [],
  ◌∷◌, ◌++◌, ◌==◌, arith, eq_refl, eq_iff, find, find-some, find-append, find-update, update,
  Bool-cases, Option-cases, if◌then◌else◌,
}
use android_package_service.Catalog.State.{
  CollectionState, of_package, lease_free, leased, first_state, acquire_lease,
}

-- The owner holds the package `p` under a lease that ends at `end`.
pub record Collects (end : ℕ) (owner p : String) (states : List CollectionState) : Type 0 where
  pub row : CollectionState
  pub found : find (of_package p) states ≡ some row
  pub holder : row.collecting_owner ≡ some owner
  pub until : row.lease_expires ≡ some end

module _ (lease now : ℕ) (owner p : String) (states : List CollectionState) where
  pub acquire_lease-new :
      find (of_package p) states ≡ none
      → acquire_lease lease now owner p states
        ≡ (states ++ first_state lease now owner p ∷ [], true)
  unfolding acquire_lease
  acquire_lease-new e = rw (e, acquire_lease)

  pub acquire_lease-old :
      (s : CollectionState)
      → find (of_package p) states ≡ some s
      → acquire_lease lease now owner p states ≡ (
          if lease_free s.collecting_owner s.lease_expires owner now
          then (update (of_package p) (leased lease now owner) states, true)
          else (states, false))
  unfolding acquire_lease
  acquire_lease-old s e = rw (e, acquire_lease)

  -- A call of `acquire_lease` that answers true gives the owner the lease.
  pub acquire_lease-Collects :
      (acquire_lease lease now owner p states).1 ≡ true
      → Collects (now + lease) owner p (acquire_lease lease now owner p states).0
  acquire_lease-Collects h = elim (Option-cases (find (of_package p) states)) [
    | inl e ↦ rw (acquire_lease-new e) (record {
      row = first_state lease now owner p;
      found =
          rw (find-append (of_package p) states (first_state lease now owner p ∷ []), e)
            (unfold find in ground (arith, eq_refl p));
      holder = refl;
      until = refl;
    })
    | inr (s, e) ↦ elim (Bool-cases (lease_free s.collecting_owner s.lease_expires owner now)) [
      | inr busy ↦ absurd (ground (arith, acquire_lease-old s e))
      | inl free ↦
          rw (acquire_lease-old s e, free)
            (record {
              row = leased lease now owner s;
              found =
                  rw
                    (
                      find-update (of_package p) (of_package p) (leased lease now owner) states
                          (λ x. refl),
                      e,
                    )
                    (ground (arith, find-some (of_package p) states s e));
              holder = refl;
              until = refl;
            })
    ]
  ]

pub not_sym : {a b : String} → a ≢ b → b ≢ a
not_sym ne e = ne (sym e)

-- Another catalogue that asks before the end of the lease is refused, and changes nothing.
pub acquire_lease-refused :
    (lease end now : ℕ) (owner other p : String) (states : List CollectionState)
    → Collects end owner p states
    → other ≢ owner
    → now ≤ end
    → acquire_lease lease now other p states ≡ (states, false)
acquire_lease-refused lease end now owner other p states c ne le =
    rw (acquire_lease-old lease now other p states c.row c.found)
      (ground (arith, c.holder, c.until, eq_iff owner other, not_sym ne))

-- What an update of other rows leaves of a row that a search finds.
pub find-update_other :
    (p : String) (t : CollectionState → Bool) (f : CollectionState → CollectionState)
    (states : List CollectionState) (s : CollectionState)
    → ((x : CollectionState) → (f x).package_name ≡ x.package_name)
    → find (of_package p) states ≡ some s
    → t s ≡ false
    → find (of_package p) (update t f states) ≡ some s
find-update_other p t f states s same e miss =
    rw (find-update (of_package p) t f states (λ x. ap (λ n. n == p) (same x)), e) (ground arith)

pub find-acquire_lease_other :
    (lease now : ℕ) (owner q p : String) (states : List CollectionState) (s : CollectionState)
    → p ≢ q
    → find (of_package p) states ≡ some s
    → find (of_package p) (acquire_lease lease now owner q states).0 ≡ some s
find-acquire_lease_other lease now owner q p states s ne e =
    elim (Option-cases (find (of_package q) states)) [
      | inl none_yet ↦ rw (
        acquire_lease-new lease now owner q states none_yet,
        find-append (of_package p) states (first_state lease now owner q ∷ []),
        e,
      )
      | inr (x, old) ↦
          let kept =
            find-update_other p (of_package q) (leased lease now owner) states s (λ y. refl) e
              (ground (
                arith,
                find-some (of_package p) states s e,
                eq_iff s.package_name p,
                eq_iff s.package_name q,
                ne,
              )) in
          rw (acquire_lease-old lease now owner q states x old) (ground (arith, kept))
    ]
