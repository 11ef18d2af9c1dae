-- ===== src/Tests/Archiver.antt =====
-- Runs of app/catalog/archiver.py.
use android_package_service.Base.{ℕ, ◌+◌, ◌≡◌, refl, true, none, some, [], ◌∷◌, eqb, if◌then◌else◌}
use android_package_service.Domain.{AndroidPackageRequest}
use android_package_service.Orchestrator.{Downloaded, artifact, raises}
use android_package_service.Archiver.{
  archive_ok, archive_failed, archive_one, archive_all, archive_new,
}

-- The third call is the first that returns.
abbrev third : AndroidPackageRequest → ℕ → ℕ × Downloaded
third q n = (n + 1, if eqb n 2 then artifact "key" "aptoide" else raises "down")

archive_new_run :
    archive_new third true 1 "com.a" (("1.0", none) ∷ ("1.1", some 2) ∷ []) 0
    ≡ (3, ("1.0", archive_failed) ∷ ("1.1", archive_ok "key") ∷ [])
unfolding archive_new archive_all archive_one
archive_new_run = refl
