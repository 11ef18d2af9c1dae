-- ===== src/Download/Failures.antt =====
-- How the loop of `_fetch_one` over the URLs ends.
use Prim.Native.String.{String}
use android_package_service.Base.{ℕ, ◌≡◌, List}
use android_package_service.Domain.{network_error}
use android_package_service.Orchestrator.{Outcome, returned, provider_exception, exception}
use android_package_service.Download.{Network, Disk, Limits}

module _ {W : Type 0} (web : Network W) (disk : Disk W) (limits : Limits)
    (lower : String → String) where
  -- A file, or a network error of this provider.
  abbrev pub IsFileOrNetworkError : String → Outcome (List ℕ) → Type 0
  IsFileOrNetworkError provider (returned file) = Unit
  IsFileOrNetworkError provider (provider_exception e) =
      (e.provider ≡ provider) × (e.error ≡ network_error)
  IsFileOrNetworkError provider (exception m) = ⊥
