-- ===== src/Artifacts/Reuse.antt =====
-- What was committed is found again.
use Prim.Native.String.{String}
use android_package_service.Base.{
  ℕ, ◌≡◌, refl, ◌∙◌, ap, inl, inr, true, false, none, some, arith, ◌==◌, Option-cases,
}
use android_package_service.Domain.{DownloadPlan}
use android_package_service.Artifacts.{
  FileReader, Metadata, Backend, is_artifact_key, verify_artifact, metadata_prefix, existing_key,
  existing, commit,
}

module _ {S F : Type 0} (reader : FileReader F) (lower : String → String) (str : ℕ → String)
    (backend : Backend S F reader.size) where
  existing_key-head :
      (plan : DownloadPlan) (key : String) (f : F) (s : S)
      → backend.local_file key s ≡ none
      → backend.head key s ≡ some (reader.size f)
      → existing_key reader lower str backend plan key (some (reader.size f)) s ≡ some key
  unfolding existing_key
  existing_key-head plan key f s e h = rw (e, existing_key, h) (ground arith)

  existing_key-local :
      (plan : DownloadPlan) (key : String) (f : F) (s : S)
      → backend.local_file key s ≡ some (some f)
      → verify_artifact reader lower str key (some f) plan (some (reader.size f)) ≡ none
      → existing_key reader lower str backend plan key (some (reader.size f)) s ≡ some key
  unfolding existing_key
  existing_key-local plan key f s e v = rw (e, existing_key, v) refl

  -- A commit that succeeded did both writes.
  commit-writes :
      (plan : DownloadPlan) (f : F) (key : String) (s s' : S)
      → commit reader lower str backend plan f key s ≡ (s', none)
      → (u : S) × (backend.upload f key s ≡ (u, none))
        × (backend.put_metadata
              (metadata_prefix str plan)
              (record { key = some key; size = some (reader.size f) })
              u
            ≡ (s', none))
  unfolding commit
  commit-writes plan f key s s' h = elim (Option-cases (backend.upload f key s).1) [
    | inl fine ↦
        let u = (backend.upload f key s).0 in (u, ap (λ o. (u, o)) fine, rw (fine, commit) at h)
    | inr (m, e) ↦ absurd (cc (rw (e, commit) at h))
  ]

  -- After an artifact was committed under a key of an artifact, the store finds this key for every
  -- plan with the same place in the store, if the artifact passes the verification against that plan,
  -- which only a local store repeats.
  pub existing-commit :
      (plan later : DownloadPlan) (f : F) (key : String) (s s' : S)
      → (key == "") ≡ false
      → is_artifact_key key ≡ true
      → metadata_prefix str later ≡ metadata_prefix str plan
      → verify_artifact reader lower str key (some f) later (some (reader.size f)) ≡ none
      → commit reader lower str backend plan f key s ≡ (s', none)
      → existing reader lower str backend later s' ≡ some key
  unfolding existing
  existing-commit plan later f key s s' full named same v h =
      let prefix = metadata_prefix str plan in
      let meta : Metadata = record { key = some key; size = some (reader.size f) } in
      let (u, first, second) = commit-writes plan f key s s' h in
      let found : existing_key reader lower str backend later key (some (reader.size f)) s'
          ≡ some key =
        elim (backend.local_file-upload f key s u first) [
          | inl none_there ↦
              existing_key-head later key f s'
                (backend.local_file-put_metadata key prefix meta u s' named second ∙ none_there)
                (backend.head-put_metadata key prefix meta u s' named second
                  ∙ backend.head-upload f key s u first)
          | inr there ↦
              existing_key-local later key f s'
                (backend.local_file-put_metadata key prefix meta u s' named second ∙ there) v
        ] in
      rw (same, existing, backend.get_metadata-put_metadata prefix meta u s' second, full) found
