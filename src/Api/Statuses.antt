-- ===== src/Api/Statuses.antt =====
-- The status codes of errors.
use android_package_service.Base.{
  ◌≡◌, refl, ◌≢◌, ◌↔◌, true, false, not, List, [], ◌∷◌, any, All, arith,
}
use android_package_service.Domain.{
  ErrorCode, ProviderError, not_found, network_error, auth_error, bad_response, verify_failed,
  unsupported,
}
use android_package_service.Api.{is_not_found, status_for}

not_found-eq : (c : ErrorCode) → is_not_found c ≡ true → c ≡ not_found
not_found-eq not_found h = refl
not_found-eq network_error h = absurd (cc)
not_found-eq auth_error h = absurd (cc)
not_found-eq bad_response h = absurd (cc)
not_found-eq verify_failed h = absurd (cc)
not_found-eq unsupported h = absurd (cc)

any-All :
    (errors : List ProviderError)
    → any (λ e. not (is_not_found e.error)) errors ≡ false
    → All (λ e. e.error ≡ not_found) errors
unfolding any
any-All [] h = tt
any-All (e ∷ es) h = (not_found-eq e.error (ground arith), any-All es (ground arith))

All-any :
    (errors : List ProviderError)
    → All (λ e. e.error ≡ not_found) errors
    → any (λ e. not (is_not_found e.error)) errors ≡ false
unfolding any
All-any [] h = refl
All-any (e ∷ es) h = rw h.0 (All-any es h.1)

-- The reply is 404 exactly when there are errors and all of them say that nothing was found.
pub status_for_exact :
    (errors : List ProviderError)
    → (status_for errors ≡ 404) ↔ ((errors ≢ []) × All (λ e. e.error ≡ not_found) errors)
unfolding status_for any
status_for_exact [] = (λ h. absurd (ground arith), λ h. absurd (h.0 refl))
status_for_exact (e ∷ es) = (
  λ h. (λ empty. absurd (cc), any-All (e ∷ es) (ground arith)),
  λ h. ground (arith, All-any (e ∷ es) h.1),
)
