-- ===== src/Ledger/Facts.antt =====
-- The ledger as a set of facts.
use android_package_service.Base.{
  ℕ, String, ◌≡◌, refl, sym, inl, inr, Bool, true, false, not, ◌&&◌, ◌||◌, Option, none, some, List,
  [], ◌∷◌, ◌==◌, eq_iff, any, any-append, Bool-cases, arith, eqb,
}
use android_package_service.Ledger.{Entry, same_key, new_entry, upsert, upsert_sync}

-- A set of facts: does it have this name and code of this package?
abbrev pub Facts : Type 0
Facts = String → String → ℕ → Bool

-- The rows without their order, their sources and their times.
abbrev pub facts_of : List Entry → Facts
facts_of rows p n c = any (same_key p n c) rows

abbrev pub is_fact : String → String → Option ℕ → Bool
is_fact p n none = false
is_fact p n (some c) = not (p == "" || n == "")

abbrev pub same_fact : String → String → Option ℕ → Facts
same_fact p n none p' n' c' = false
same_fact p n (some c) p' n' c' = p == p' && (n == n' && eqb c c')

-- The set with one more fact, if it is complete.
abbrev pub with_fact : String → String → Option ℕ → Facts → Facts
with_fact p n c facts p' n' c' = facts p' n' c' || (is_fact p n c && same_fact p n c p' n' c')

abbrev pub has_fact : String → String → Option ℕ → Facts → Bool
has_fact p n none facts = false
has_fact p n (some c) facts = facts p n c

same_key-same_fact :
    (rows : List Entry) (p n p' n' : String) (c c' : ℕ)
    → any (same_key p n c) rows ≡ true
    → (p == p' && (n == n' && eqb c c')) ≡ true
    → any (same_key p' n' c') rows ≡ true
same_key-same_fact rows p n p' n' c c' h e =
    let package_same : p ≡ p' = ground (arith, eq_iff p p') in
    let name_same : n ≡ n' = ground (arith, eq_iff n n') in
    let code_same : c ≡ c' = ground arith in rw (sym package_same, sym name_same, sym code_same) h

module _ (decimal : ℕ → Option ℕ) (now : ℕ) (source : Option String) where
  -- An upsert puts the fact that it is given into the set of facts, if it is complete, and nothing
  -- else; it reports a write exactly when the fact is complete and was not in the set.
  pub facts_of-upsert :
      (p n : String) (c : Option ℕ) (rows : List Entry)
      → let done = upsert decimal now p n c source rows in
        ((p' n' : String) (c' : ℕ)
          → facts_of done.rows p' n' c' ≡ with_fact p n c (facts_of rows) p' n' c')
        × (done.written ≡ (is_fact p n c && not (has_fact p n c (facts_of rows))))
  unfolding upsert upsert_sync any
  facts_of-upsert p n none rows = (λ p' n' c'. ground arith, refl)
  facts_of-upsert p n (some c) rows = elim (Bool-cases (p == "" || n == "")) [
    | inl incomplete ↦ (λ p' n' c'. ground (arith, incomplete), ground (arith, incomplete))
    | inr complete ↦ elim (Bool-cases (any (same_key p n c) rows)) [
      | inl known ↦ (
        λ p' n' c'. ground (arith, complete, known, same_key-same_fact rows p n p' n' c c' known),
        ground (arith, complete, known),
      )
      | inr fresh ↦ (
        λ p' n' c'. ground (
          arith,
          complete,
          fresh,
          any-append (same_key p' n' c') rows (new_entry p n c source now ∷ []),
        ),
        ground (arith, complete, fresh),
      )
    ]
  ]
