-- ===== src/Orchestrator/Retries.antt =====
-- The retries of one provider.
use android_package_service.Base.{
  ℕ, zero, suc, ◌≤◌, String, ◌≡◌, refl, inl, inr, Bool, true, false, Option, arith, Bool-cases,
  if◌then◌else◌,
}
use android_package_service.Domain.{AndroidPackageRequest}
use android_package_service.Orchestrator.{
  Outcome, returned, provider_exception, exception, Provider, Downloader, is_network_error, attempt,
  attempts,
}

abbrev pub is_network_failure : {A : Type 0} → Outcome A → Bool
is_network_failure (returned a) = false
is_network_failure (provider_exception e) = is_network_error e.error
is_network_failure (exception m) = false

module _ {W : Type 0} (downloader : Downloader W) (p : Provider W) (q : AndroidPackageRequest)
    (lock : Option String) where
  -- The state after some attempts, one after the other.
  unfoldable pub after_attempts : ℕ → W → W
  after_attempts zero w = w
  after_attempts (suc k) w = after_attempts k (attempt downloader p q lock w).0

  -- Each of the first attempts ended with a network error.
  unfoldable pub IsDown : ℕ → W → Type 0
  IsDown zero w = Unit
  IsDown (suc k) w =
      (is_network_failure (attempt downloader p q lock w).1 ≡ true)
      × IsDown k (attempt downloader p q lock w).0

  attempts-suc :
      (r : ℕ) (w : W)
      → let first = attempt downloader p q lock w in
        attempts downloader (suc r) p q lock w
        ≡ (if is_network_failure first.1 then attempts downloader r p q lock first.0 else first)
  unfolding attempts
  attempts-suc r w = by_outcome (attempt downloader p q lock w)
    where
      by_outcome :
          (first : W × Outcome (String × String))
          → (elim first.1 [
            | returned r' ↦ first
            | exception m ↦ first
            | provider_exception e ↦
                if is_network_error e.error then attempts downloader r p q lock first.0 else first
          ])
            ≡ (if is_network_failure first.1 then attempts downloader r p q lock first.0 else first)
      by_outcome (w', returned a) = refl
      by_outcome (w', provider_exception e) = refl
      by_outcome (w', exception m) = refl

  -- With `r` retries there is a number of at most `r` attempts that all end with a network error,
  -- after which one more attempt gives the result, whatever it is; a network error is the result
  -- only after all the retries.
  pub attempts_cases :
      (r : ℕ) (w : W)
      → (k : ℕ) × (k ≤ r)
        × IsDown k w
        × (attempts downloader r p q lock w ≡ attempt downloader p q lock (after_attempts k w))
        × (is_network_failure (attempts downloader r p q lock w).1 ≡ true → k ≡ r)
  unfolding IsDown after_attempts
  attempts_cases zero w = unfold attempts in (0, omega arith, tt, refl, λ h. refl)
  attempts_cases (suc r) w =
      elim (Bool-cases (is_network_failure (attempt downloader p q lock w).1)) [
        | inl down ↦
            let (k, le, all, e, last) = attempts_cases r (attempt downloader p q lock w).0 in
            rw (attempts-suc r w, down) (suc k, ground arith, (down, all), e, ground (arith, last))
        | inr up ↦ rw (attempts-suc r w, up) (0, ground arith, tt, refl, ground (arith, up))
      ]
