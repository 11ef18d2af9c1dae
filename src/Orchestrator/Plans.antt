-- ===== src/Orchestrator/Plans.antt =====
-- `plan` of app/catalog/orchestrator.py, and `_first_success` and `get_download_plan` of
-- app/providers/factory.py.
use android_package_service.Base.{
  ◌+◌, ◌≡◌, ◌∙◌, ap, sym, inl, inr, List, [], ◌∷◌, ◌++◌, arith, length, length-append,
}
use android_package_service.Domain.{ProviderError, AndroidPackageRequest, DownloadPlan}
use android_package_service.Ledger.{Entry}
use android_package_service.Catalog.Versions.{Version}
use android_package_service.Completion.{complete}
use android_package_service.Orchestrator.Outcomes.{Outcome-cases}
use android_package_service.Orchestrator.{
  Outcome, returned, provider_exception, exception, Provider, Resolved, providers, not_enabled,
  resolve,
}

-- What the first provider that succeeds answers, or what is raised.
pub data Answered (A : Type 0) : Type 0 where
  answer : A → Answered A
  no_answer : List ProviderError → Answered A
  unexpected : Answered A

module _ {W A : Type 0} (call : Provider W → W → W × Outcome A) where
  -- The loop of `_first_success`.
  unfoldable pub ask_all : List (Provider W) → List ProviderError → W → W × Answered A
  ask_all [] errors w = (w, no_answer errors)
  ask_all (p ∷ ps) errors w =
      let called = call p w in
      elim called.1 [
        | returned a ↦ (called.0, answer a)
        | exception m ↦ (called.0, unexpected)
        | provider_exception e ↦ ask_all ps (errors ++ (e ∷ [])) called.0
      ]

  abbrev pub ask_resolved : Resolved W → W → W × Answered A
  ask_resolved (not_enabled e) w = (w, no_answer (e ∷ []))
  ask_resolved (providers ps) w = ask_all ps [] w

abbrev pub get_download_plan :
    {W : Type 0} → List (Provider W) → AndroidPackageRequest → W → W × Answered DownloadPlan
get_download_plan enabled q w =
    ask_resolved (λ p. p.get_download_plan q) (resolve enabled q.preferred_provider) w

unfoldable pub plan :
    {W : Type 0}
    → List Entry
    → List Version
    → List (Provider W)
    → AndroidPackageRequest
    → W
    → W × Answered DownloadPlan
plan ledger versions enabled q w = get_download_plan enabled (complete ledger versions q) w

module _ {W A : Type 0} (call : Provider W → W → W × Outcome A) where
  -- Without an answer there is one error of every provider.
  pub length-ask_all :
      (ps : List (Provider W)) (errors later : List ProviderError) (w : W)
      → (ask_all call ps errors w).1 ≡ no_answer later
      → length later ≡ length errors + length ps
  unfolding ask_all
  length-ask_all [] errors later w h =
      let same : errors ≡ later = cc in ap length (sym same) ∙ omega arith
  length-ask_all (p ∷ ps) errors later w h = elim (Outcome-cases (call p w).1) [
    | inl (a, e) ↦ absurd (ground arith)
    | inr (inr (m, e)) ↦ absurd (ground arith)
    | inr (inl (error, e)) ↦
        let rest : (ask_all call ps (errors ++ (error ∷ [])) (call p w).0).1 ≡ no_answer later =
          ground arith in
        omega (
          arith,
          length-ask_all ps (errors ++ (error ∷ [])) later (call p w).0 rest,
          length-append errors (error ∷ []),
        )
  ]
