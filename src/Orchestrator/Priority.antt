-- ===== src/Orchestrator/Priority.antt =====
-- The order of the providers.
use android_package_service.Base.{
  ℕ, ◌≤◌, String, ◌≡◌, refl, Bool, Option, none, List, [], ◌∷◌, arith, All, All-map, le_trans,
  select, eqb, ltb, Bool-cases, inl, inr,
}
use android_package_service.Orchestrator.{
  Provider, insert_provider, by_priority, providers, preference, resolve,
}

module _ {W : Type 0} where
  abbrev pub IsDescending : List (Provider W) → Type 0
  IsDescending [] = Unit
  IsDescending (p ∷ ps) = All (λ r. r.priority ≤ p.priority) ps × IsDescending ps

  abbrev pub has_priority : ℕ → Provider W → Bool
  has_priority k p = eqb p.priority k

  All-insert :
      (k : ℕ) (p : Provider W) (ps : List (Provider W))
      → p.priority ≤ k
      → All (λ r. r.priority ≤ k) ps
      → All (λ r. r.priority ≤ k) (insert_provider p ps)
  unfolding insert_provider
  All-insert k p [] h a = (h, tt)
  All-insert k p (q ∷ qs) h a = ground (arith, All-insert k p qs h a.1)

  insert_provider-IsDescending :
      (p : Provider W) (ps : List (Provider W))
      → IsDescending ps
      → IsDescending (insert_provider p ps)
  unfolding insert_provider
  insert_provider-IsDescending p [] d = (tt, tt)
  insert_provider-IsDescending p (q ∷ qs) d = elim (Bool-cases (ltb p.priority q.priority)) [
    | inl lt ↦
        rw lt (All-insert q.priority p qs (ground arith) d.0, insert_provider-IsDescending p qs d.1)
    | inr ge ↦
        let le : q.priority ≤ p.priority = ground arith in
        rw ge ((le, All-map _ _ (λ r h. le_trans h le) qs d.0), d)
  ]

  by_priority-IsDescending : (ps : List (Provider W)) → IsDescending (by_priority ps)
  unfolding by_priority
  by_priority-IsDescending [] = tt
  by_priority-IsDescending (p ∷ ps) =
      insert_provider-IsDescending p (by_priority ps) (by_priority-IsDescending ps)

  select-insert :
      (k : ℕ) (p : Provider W) (ps : List (Provider W))
      → select (has_priority k) (insert_provider p ps) ≡ select (has_priority k) (p ∷ ps)
  unfolding insert_provider select
  select-insert k p [] = refl
  select-insert k p (q ∷ qs) = ground (arith, select-insert k p qs)

  select-by_priority :
      (k : ℕ) (ps : List (Provider W))
      → select (has_priority k) (by_priority ps) ≡ select (has_priority k) ps
  unfolding by_priority select
  select-by_priority k [] = refl
  select-by_priority k (p ∷ ps) =
      ground (arith, select-insert k p (by_priority ps), select-by_priority k ps)

  -- Without a preference the enabled providers are tried in descending order of priority, those with
  -- one priority in the order in which they are configured, and none is lost or added.
  pub resolve_in_order :
      (enabled : List (Provider W)) (preferred : Option String) (k : ℕ)
      → preference preferred ≡ none
      → (resolve enabled preferred ≡ providers (by_priority enabled))
        × IsDescending (by_priority enabled)
        × (select (has_priority k) (by_priority enabled) ≡ select (has_priority k) enabled)
  unfolding resolve
  resolve_in_order enabled preferred k h =
      (rw (h, resolve) refl, by_priority-IsDescending enabled, select-by_priority k enabled)
