-- ===== src/Collectors/Distinct.antt =====
-- The records of a collector have different names.
use android_package_service.Base.{
  ℕ, ◌≤◌, ◌≡◌, refl, ap, String, Bool, true, Option, List, [], ◌∷◌, ◌==◌, inl, inr, any, count,
  arith, Bool-cases, Option-cases, eq_iff,
}
use android_package_service.Json.{Json}
use android_package_service.Catalog.Versions.{VersionRecord}
use android_package_service.Collectors.{aptoide_record, keep_new}

abbrev pub has_name : String → VersionRecord → Bool
has_name n r = r.version_name == n

module _ (int_text : String → Option ℕ) (decimal : ℕ → Option ℕ) where
  -- A name that was seen is in no record, and each other name is in one at most.
  pub keep_new-distinct :
      (n : String) (seen : List String) (items : List Json)
      → (count (has_name n) (keep_new int_text decimal seen items) ≤ 1)
        × (any (λ s. s == n) seen ≡ true
            → count (has_name n) (keep_new int_text decimal seen items) ≡ 0)
  unfolding keep_new count any
  keep_new-distinct n seen [] = (omega arith, λ h. refl)
  keep_new-distinct n seen (item ∷ rest) =
      elim (Option-cases (aptoide_record int_text decimal item)) [
        | inl gone ↦ rw (gone, keep_new) (keep_new-distinct n seen rest)
        | inr (r, e) ↦ elim (Bool-cases (any (λ s. s == r.version_name) seen)) [
          | inl again ↦ rw (e, again, keep_new) (keep_new-distinct n seen rest)
          | inr new ↦
              let others = keep_new-distinct n (r.version_name ∷ seen) rest in
              elim (Bool-cases (r.version_name == n)) [
                | inl y ↦
                    let free = others.1 (rw y refl) in
                    let clash = ap (λ v. any (λ s. s == v) seen) ((eq_iff r.version_name n).0 y) in
                    rw (e, new, keep_new) (rw y (omega arith, λ h. absurd (cc (new, h, clash))))
                | inr z ↦ rw (e, new, keep_new) (rw z (others.0, λ h. others.1 (rw z h)))
              ]
        ]
      ]
