-- ===== src/Orchestrator.antt =====
-- `download` and `existing` of app/catalog/orchestrator.py, and `resolve` of
-- app/providers/factory.py. A provider's `get_download_plan` and the downloader's `download` are
-- steps on a state `W` (the network and the stores) that return, raise a ProviderException, or raise
-- something else. The downloader's `existing` reads the state. Logging is left out.
pub mod Retries
pub mod Fallback
pub mod Priority
pub mod Outcomes
pub mod Plans
use android_package_service.Base.{
  ℕ, zero, suc, String, Bool, true, false, Option, none, some, List, [], ◌∷◌, ◌++◌, ◌==◌,
  if◌then◌else◌, ltb, find, any, coalesce, ◌⊎◌, inl, inr,
}
use android_package_service.Domain.{
  ErrorCode, ProviderError, AndroidPackageRequest, DownloadPlan, unsupported, network_error,
  not_found, auth_error, bad_response, verify_failed,
}
use android_package_service.Ledger.{Entry}
use android_package_service.Catalog.Versions.{Version}
use android_package_service.Completion.{complete, lock_version_key}

pub data Outcome (A : Type 0) : Type 0 where
  returned : A → Outcome A
  provider_exception : ProviderError → Outcome A
  exception : String → Outcome A

pub record Provider (W : Type 0) : Type 0 where
  pub id : String
  pub priority : ℕ
  pub get_download_plan : AndroidPackageRequest → W → W × Outcome DownloadPlan

-- What the orchestrator calls of app/download/downloader.py.
pub record Downloader (W : Type 0) : Type 0 where
  pub existing : DownloadPlan → W → Option String
  pub download : DownloadPlan → Option String → W → W × Outcome String

-- `sorted(..., key=priority, reverse=True)`: descending, and stable.
unfoldable pub insert_provider : {W : Type 0} → Provider W → List (Provider W) → List (Provider W)
insert_provider p [] = p ∷ []
insert_provider p (q ∷ qs) =
    let rest = insert_provider p qs in if ltb p.priority q.priority then q ∷ rest else p ∷ q ∷ qs

unfoldable pub by_priority : {W : Type 0} → List (Provider W) → List (Provider W)
by_priority [] = []
by_priority (p ∷ ps) = insert_provider p (by_priority ps)

pub data Resolved (W : Type 0) : Type 0 where
  providers : List (Provider W) → Resolved W
  not_enabled : ProviderError → Resolved W

-- A preference that is empty or "auto" is no preference.
abbrev pub preference : Option String → Option String
preference none = none
preference (some p) = if p == "" then none else if p == "auto" then none else some p

unfoldable pub resolve : {W : Type 0} → List (Provider W) → Option String → Resolved W
resolve enabled preferred = elim (preference preferred) [
  | none ↦ providers (by_priority enabled)
  | some name ↦ elim (find (λ p. p.id == name) enabled) [
    | some p ↦ providers (p ∷ [])
    | none ↦
        not_enabled
          (record { provider = name; error = unsupported; message = "Provider is not enabled." })
  ]
]

-- `version_key` of a plan: `str(version_code or version_name or "latest")`.
abbrev pub named_key : Option String → String
named_key none = "latest"
named_key (some n) = if n == "" then "latest" else n

unfoldable pub version_key : (ℕ → String) → Option ℕ → Option String → String
version_key str none name = named_key name
version_key str (some zero) name = named_key name
version_key str (some (suc c)) name = str (suc c)

abbrev pub candidates : AndroidPackageRequest → List (Option ℕ × Option String)
candidates q =
    (elim q.version_code [ none ↦ [] | some c ↦ (some c, q.version_name) ∷ [] ])
    ++ (elim q.version_name [ none ↦ [] | some n ↦ (none, some n) ∷ [] ])

abbrev pub probe : String → AndroidPackageRequest → Option ℕ × Option String → DownloadPlan
probe provider_id q c = record {
  package_name = q.package_name;
  app_name = q.package_name;
  version_name = c.1;
  version_code = c.0;
  provider = provider_id;
  files = [];
}

abbrev pub is_network_error : ErrorCode → Bool
is_network_error network_error = true
is_network_error not_found = false
is_network_error auth_error = false
is_network_error bad_response = false
is_network_error verify_failed = false
is_network_error unsupported = false

abbrev pub network_error_retries : ℕ
network_error_retries = 3

-- What a download returns or raises.
pub data Downloaded : Type 0 where
  artifact : String → String → Downloaded
  aggregate_error : List ProviderError → Downloaded
  raises : String → Downloaded

module _ {W : Type 0} (downloader : Downloader W) where
  -- One turn of the retry loop: the plan, then the download; the provider is the plan's.
  unfoldable pub attempt :
      Provider W → AndroidPackageRequest → Option String → W → W × Outcome (String × String)
  attempt p q lock w =
      let planned = p.get_download_plan q w in
      elim planned.1 [
        | provider_exception e ↦ (planned.0, provider_exception e)
        | exception m ↦ (planned.0, exception m)
        | returned plan ↦
            let fetched = downloader.download plan lock planned.0 in
            elim fetched.1 [
              | provider_exception e ↦ (fetched.0, provider_exception e)
              | exception m ↦ (fetched.0, exception m)
              | returned a ↦ (fetched.0, returned (a, plan.provider))
            ]
      ]

  -- The loop over `retry`; the number is of the retries that are left.
  unfoldable pub attempts :
      ℕ → Provider W → AndroidPackageRequest → Option String → W → W × Outcome (String × String)
  attempts zero p q lock w = attempt p q lock w
  attempts (suc retries) p q lock w =
      let first = attempt p q lock w in
      let again = attempts retries p q lock first.0 in
      elim first.1 [
        | returned r ↦ first
        | exception m ↦ first
        | provider_exception e ↦ if is_network_error e.error then again else first
      ]

module _ {W : Type 0} (str : ℕ → String) (downloader : Downloader W) where
  -- The loop of `_existing_artifact`.
  unfoldable pub probe_all :
      String
      → AndroidPackageRequest
      → List (Option ℕ × Option String)
      → List String
      → W
      → Option String
  probe_all provider_id q [] seen w = none
  probe_all provider_id q (c ∷ cs) seen w =
      let key = version_key str c.0 c.1 in
      let skipped = probe_all provider_id q cs seen w in
      let rest = probe_all provider_id q cs (key ∷ seen) w in
      if any (λ s. s == key) seen
      then skipped
      else coalesce (downloader.existing (probe provider_id q c) w) rest

  unfoldable pub existing_artifact : String → AndroidPackageRequest → W → Option String
  existing_artifact provider_id q w = probe_all provider_id q (candidates q) [] w

  -- The loop over the providers, with the errors of those that failed.
  unfoldable pub try_providers :
      ℕ
      → List (Provider W)
      → AndroidPackageRequest
      → Option String
      → List ProviderError
      → W
      → W × Downloaded
  try_providers retries [] q lock errors w = (w, aggregate_error errors)
  try_providers retries (p ∷ ps) q lock errors w =
      let tried = attempts downloader retries p q lock w in
      elim (existing_artifact p.id q w) [
        | some a ↦ (w, artifact a p.id)
        | none ↦ elim tried.1 [
          | returned r ↦ (tried.0, artifact r.0 r.1)
          | exception m ↦ (tried.0, raises m)
          | provider_exception e ↦ try_providers retries ps q lock (errors ++ e ∷ []) tried.0
        ]
      ]

  -- The loop of `existing`.
  unfoldable pub first_existing : List (Provider W) → AndroidPackageRequest → W → Option String
  first_existing [] q w = none
  first_existing (p ∷ ps) q w = coalesce (existing_artifact p.id q w) (first_existing ps q w)

  module _ (ledger : List Entry) (versions : List Version) (enabled : List (Provider W)) where
    unfoldable pub download : AndroidPackageRequest → W → W × Downloaded
    download q w =
        let c = complete ledger versions q in
        elim (resolve enabled c.preferred_provider) [
          | not_enabled e ↦ (w, aggregate_error (e ∷ []))
          | providers ps ↦ try_providers network_error_retries ps c (lock_version_key str c) [] w
        ]

    -- What `existing` returns, or the error that `resolve` raises.
    unfoldable pub existing : AndroidPackageRequest → W → ProviderError ⊎ Option String
    existing q w =
        let c = complete ledger versions q in
        elim (resolve enabled c.preferred_provider) [
          | not_enabled e ↦ inl e
          | providers ps ↦ inr (first_existing ps c w)
        ]
