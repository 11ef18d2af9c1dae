-- ===== src/Orchestrator/Outcomes.antt =====
-- The ways in which a call of the program ends.
use android_package_service.Base.{String, ◌≡◌, refl, ◌⊎◌, inl, inr}
use android_package_service.Domain.{ProviderError}
use android_package_service.Orchestrator.{Outcome, returned, provider_exception, exception}

pub Outcome-cases :
    {A : Type 0} (o : Outcome A)
    → ((a : A) × (o ≡ returned a))
      ⊎ (((e : ProviderError) × (o ≡ provider_exception e)) ⊎ ((m : String) × (o ≡ exception m)))
Outcome-cases (returned a) = inl (a, refl)
Outcome-cases (provider_exception e) = inr (inl (e, refl))
Outcome-cases (exception m) = inr (inr (m, refl))
