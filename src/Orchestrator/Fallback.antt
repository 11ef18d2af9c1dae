-- ===== src/Orchestrator/Fallback.antt =====
-- The order in which the providers are tried, and the errors that a failed download reports.
use android_package_service.Base.{
  ℕ, String, ◌≡◌, refl, ap, sym, subst, ◌∙◌, ◌⊎◌, inl, inr, Option, none, some, List, [], ◌∷◌, ◌++◌,
  arith, length, Option-cases,
}
use android_package_service.Domain.{ProviderError, AndroidPackageRequest}
use android_package_service.Orchestrator.{
  Outcome, returned, provider_exception, exception, Provider, Downloader, attempts,
  existing_artifact, Downloaded, artifact, aggregate_error, raises, try_providers, providers,
  resolve, network_error_retries, download, existing, first_existing,
}
use android_package_service.Ledger.{Entry}
use android_package_service.Catalog.Versions.{Version}
use android_package_service.Completion.{complete, lock_version_key}

append_one : {A : Type 0} (xs ys : List A) (x : A) → (xs ++ x ∷ []) ++ ys ≡ xs ++ x ∷ ys
append_one [] ys x = refl
append_one (z ∷ xs) ys x = ap (λ t. z ∷ t) (append_one xs ys x)

append_nil : {A : Type 0} (xs : List A) → xs ++ [] ≡ xs
append_nil [] = refl
append_nil (z ∷ xs) = ap (λ t. z ∷ t) (append_nil xs)

module _ {W : Type 0} (str : ℕ → String) (downloader : Downloader W) (retries : ℕ)
    (q : AndroidPackageRequest) (lock : Option String) where
  abbrev pub tries : Provider W → W → W × Outcome (String × String)
  tries p w = attempts downloader retries p q lock w

  -- These providers had no artifact and failed one after the other, with these errors, between these
  -- states.
  unfoldable pub HaveFailed : List (Provider W) → W → List ProviderError → W → Type 0
  HaveFailed [] w [] w' = w ≡ w'
  HaveFailed [] w (e ∷ es) w' = ⊥
  HaveFailed (p ∷ ps) w [] w' = ⊥
  HaveFailed (p ∷ ps) w (e ∷ es) w' =
      (existing_artifact str downloader p.id q w ≡ none)
      × ((tries p w).1 ≡ provider_exception e)
      × HaveFailed ps (tries p w).0 es w'

  -- A provider that ends the search: it has the artifact, or it had not and returned one, or it had
  -- not and something else than a provider's error was raised.
  abbrev pub Ends : Provider W → W → W × Downloaded → Type 0
  Ends p w result =
      ((a : String) × (existing_artifact str downloader p.id q w ≡ some a)
        × (result ≡ (w, artifact a p.id)))
      ⊎ ((existing_artifact str downloader p.id q w ≡ none)
          × (((a : String) × (source : String) × ((tries p w).1 ≡ returned (a, source))
                × (result ≡ ((tries p w).0, artifact a source)))
              ⊎ ((m : String) × ((tries p w).1 ≡ exception m)
                  × (result ≡ ((tries p w).0, raises m)))))

  -- The search found a provider that ends it, after those before it have failed.
  abbrev pub Stops : List (Provider W) → W → W × Downloaded → Type 0
  Stops ps w result =
      (failed : List (Provider W)) × (p : Provider W) × (others : List (Provider W)) × (es : List
        ProviderError)
      × (w' : W) × (ps ≡ failed ++ p ∷ others)
      × HaveFailed failed w es w'
      × Ends p w' result

  abbrev pub GivesUp : List (Provider W) → List ProviderError → W → W × Downloaded → Type 0
  GivesUp ps errors w result =
      (es : List ProviderError) × (w' : W) × HaveFailed ps w es w'
      × (result ≡ (w', aggregate_error (errors ++ es)))

  Outcome-cases :
      {A : Type 0} (o : Outcome A)
      → ((a : A) × (o ≡ returned a))
        ⊎ (((e : ProviderError) × (o ≡ provider_exception e)) ⊎ ((m : String) × (o ≡ exception m)))
  Outcome-cases (returned a) = inl (a, refl)
  Outcome-cases (provider_exception e) = inr (inl (e, refl))
  Outcome-cases (exception m) = inr (inr (m, refl))

  -- Either every provider had no artifact and failed, and the errors are theirs in order, or the
  -- first that had an artifact, returned one or raised something else ends the search with that.
  pub try_providers_cases :
      (ps : List (Provider W)) (errors : List ProviderError) (w : W)
      → let result = try_providers str downloader retries ps q lock errors w in
        GivesUp ps errors w result ⊎ Stops ps w result
  unfolding try_providers HaveFailed
  try_providers_cases [] errors w = inl ([], w, refl, rw (append_nil errors) refl)
  try_providers_cases (p ∷ ps) errors w =
      elim (Option-cases (existing_artifact str downloader p.id q w)) [
        | inr (a, e) ↦ inr ([], p, ps, [], w, refl, refl, inl (a, e, rw (e, try_providers) refl))
        | inl e ↦ elim (Outcome-cases (tries p w).1) [
          | inl ((a, source), o) ↦ inr (
            [],
            p,
            ps,
            [],
            w,
            refl,
            refl,
            inr (e, inl (a, source, o, rw (e, o, try_providers) refl)),
          )
          | inr (inr (m, o)) ↦
              inr ([], p, ps, [], w, refl, refl, inr (e, inr (m, o, rw (e, o, try_providers) refl)))
          | inr (inl (x, o)) ↦ elim (try_providers_cases ps (errors ++ x ∷ []) (tries p w).0) [
            | inl (es, w', h, r) ↦
                let errors_eq = ap (λ t. (w', aggregate_error t)) (append_one errors es x) in
                inl (x ∷ es, w', (e, o, h), rw (e, o, try_providers) (r ∙ errors_eq))
            | inr (failed, y, others, es, w', s, h, r) ↦ inr (
              p ∷ failed,
              y,
              others,
              x ∷ es,
              w',
              ap (λ t. p ∷ t) s,
              (e, o, h),
              rw (e, o, try_providers) r,
            )
          ]
        ]
      ]

  -- A search that gives up reports one error for each provider.
  pub HaveFailed-length :
      (ps : List (Provider W)) (w : W) (es : List ProviderError) (w' : W)
      → HaveFailed ps w es w'
      → length es ≡ length ps
  unfolding HaveFailed
  HaveFailed-length [] w [] w' h = refl
  HaveFailed-length [] w (e ∷ es) w' h = absurd h
  HaveFailed-length (p ∷ ps) w [] w' h = absurd h
  HaveFailed-length (p ∷ ps) w (e ∷ es) w' (_, _, h) =
      omega (arith, HaveFailed-length ps (tries p w).0 es w' h)

module _ {W : Type 0} (str : ℕ → String) (downloader : Downloader W) (ledger : List Entry)
    (versions : List Version) (enabled : List (Provider W)) (q : AndroidPackageRequest)
    (w : W) where
  not_aggregate :
      (p : Provider W) (w' : W) (es : List ProviderError) (result : W × Downloaded)
      → (lock : Option String) (c : AndroidPackageRequest)
      → Ends str downloader network_error_retries c lock p w' result
      → result.1 ≡ aggregate_error es
      → ⊥
  not_aggregate p w' es result lock c (inl (a, _, e)) h = absurd (cc)
  not_aggregate p w' es result lock c (inr (_, inl (a, source, _, e))) h = absurd (cc)
  not_aggregate p w' es result lock c (inr (_, inr (m, _, e))) h = absurd (cc)

  download-try :
      (ps : List (Provider W))
      → let c = complete ledger versions q in
        resolve enabled c.preferred_provider ≡ providers ps
        → download str downloader ledger versions enabled q w
          ≡ try_providers str downloader network_error_retries ps c (lock_version_key str c) [] w
  unfolding download
  download-try ps r = rw (r, download) refl

  -- A download that raises the providers' errors has tried each provider that the preference allows,
  -- none of them had an artifact, and it reports one error of each, in their order.
  pub download_errors :
      (ps : List (Provider W)) (es : List ProviderError)
      → let c = complete ledger versions q in
        let lock = lock_version_key str c in
        resolve enabled c.preferred_provider ≡ providers ps
        → (download str downloader ledger versions enabled q w).1 ≡ aggregate_error es
        → (length es ≡ length ps)
          × ((w' : W) × HaveFailed str downloader network_error_retries c lock ps w es w')
  download_errors ps es r h =
      let c = complete ledger versions q in
      let lock = lock_version_key str c in
      let reported = sym (ap (λ t. t.1) (download-try ps r)) ∙ h in
      elim (try_providers_cases str downloader network_error_retries c lock ps [] w) [
        | inl (es', w', f, e) ↦
            let same : es' ≡ es = cc (e, reported) in
            let failed = subst (λ t. HaveFailed str downloader 3 c lock ps w t w') same f in
            (HaveFailed-length str downloader 3 c lock ps w es w' failed, (w', failed))
        | inr (_, p, _, _, w', _, _, ends) ↦ absurd (not_aggregate p w' es _ lock c ends reported)
      ]

  -- If the preference allows one provider, and there is an artifact of it, a download returns this
  -- artifact and does nothing else.
  pub download-existing :
      (p : Provider W) (a : String)
      → resolve enabled (complete ledger versions q).preferred_provider ≡ providers (p ∷ [])
      → existing str downloader ledger versions enabled q w ≡ inr (some a)
      → download str downloader ledger versions enabled q w ≡ (w, artifact a p.id)
  unfolding download existing first_existing try_providers
  download-existing p a r h =
      let c = complete ledger versions q in
      elim (Option-cases (existing_artifact str downloader p.id c w)) [
        | inl e ↦
            let found : ◌≡◌ {A = ProviderError ⊎ Option String} (inr none) (inr (some a)) =
              subst (λ t. t ≡ inr (some a)) (rw (r, existing, first_existing, e) refl) h in
            absurd (cc)
        | inr (b, e) ↦
            let found : ◌≡◌ {A = ProviderError ⊎ Option String} (inr (some b)) (inr (some a)) =
              subst (λ t. t ≡ inr (some a)) (rw (r, existing, first_existing, e) refl) h in
            let same : b ≡ a = cc in
            rw (r, download, try_providers, e) (ap (λ t. (w, artifact t p.id)) same)
      ]
