-- ===== src/Archiver/Attempts.antt =====
-- How often a version is tried, and that failures stay apart.
use android_package_service.Base.{
  ℕ, zero, suc, ◌≤◌, String, ◌≡◌, refl, ap, false, Option, List, [], ◌∷◌, map, arith, inl, inr,
  Bool-cases,
}
use android_package_service.Domain.{AndroidPackageRequest}
use android_package_service.Orchestrator.{Downloaded}
use android_package_service.Archiver.{
  archive_request, is_artifact, event_of, archive_one, archive_all,
}

module _ {W : Type 0} (download : AndroidPackageRequest → W → W × Downloaded) where
  unfoldable pub after_failures : ℕ → AndroidPackageRequest → W → W
  after_failures zero q w = w
  after_failures (suc k) q w = after_failures k q (download q w).0

  -- The first attempts bring no artifact.
  unfoldable pub AllFail : ℕ → AndroidPackageRequest → W → Type 0
  AllFail zero q w = Unit
  AllFail (suc k) q w = (is_artifact (download q w).1 ≡ false) × AllFail k q (download q w).0

  -- A version is tried until a download returns, at most once more than there are retries: all the
  -- attempts before the last one raised something, the last one is what is logged, and it raised
  -- something only after all the retries.
  pub archive_one_cases :
      (retries : ℕ) (q : AndroidPackageRequest) (w : W)
      → (k : ℕ) × (k ≤ retries)
        × AllFail k q w
        × (archive_one download retries q w ≡ (
          (download q (after_failures k q w)).0,
          event_of (download q (after_failures k q w)).1,
        ))
        × (is_artifact (download q (after_failures k q w)).1 ≡ false → k ≡ retries)
  unfolding archive_one after_failures AllFail
  archive_one_cases zero q w = (0, omega arith, tt, refl, λ h. refl)
  archive_one_cases (suc retries) q w = elim (Bool-cases (is_artifact (download q w).1)) [
    | inl done ↦ rw done (0, omega arith, tt, refl, ground (arith, done))
    | inr failed ↦
        let (k, le, all, e, last) = archive_one_cases retries q (download q w).0 in
        (suc k, omega arith, (failed, all), rw failed e, λ h. ap suc (last h))
  ]

  archive_all-map :
      (retries : ℕ) (package_name : String) (versions : List (String × Option ℕ)) (w : W)
      → map (λ r. r.0) (archive_all download retries package_name versions w).1
        ≡ map (λ v. v.0) versions
  unfolding archive_all
  archive_all-map retries package_name [] w = refl
  archive_all-map retries package_name (v ∷ vs) w =
      ap (λ t. v.0 ∷ t)
        (archive_all-map retries package_name vs
          (archive_one download retries (archive_request package_name v) w).0)
