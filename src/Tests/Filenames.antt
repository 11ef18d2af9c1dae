-- ===== src/Tests/Filenames.antt =====
-- Runs of app/utils/filenames.py.
use android_package_service.Base.{ℕ, String, ◌≡◌, refl, none, some}
use android_package_service.Filenames.{
  replace_runs, strip_left, strip_right, safe_part, artifact_filename,
}
use android_package_service.Filenames.Safe.{IsSafe, StartsFirm, safe_part-IsSafe}

abbrev str : ℕ → String
str n = "7"

unknown-IsSafe : IsSafe "unknown"
unknown-IsSafe = (refl, (refl, (refl, (refl, (refl, (refl, (refl, tt)))))))

safe_part_traversal : safe_part "../../etc/passwd" "unknown" ≡ "etc_passwd"
unfolding safe_part replace_runs strip_left strip_right
safe_part_traversal = refl

artifact_filename_run :
    artifact_filename str "com.a" (some "1.0 beta") none "aptoide" ".apk"
    ≡ "com.a_1.0_beta_latest_aptoide.apk"
unfolding artifact_filename safe_part replace_runs strip_left strip_right
artifact_filename_run = refl

safe_part-IsSafe_example :
    IsSafe (safe_part "../../etc/passwd" "unknown")
    × StartsFirm (safe_part "../../etc/passwd" "unknown")
safe_part-IsSafe_example = safe_part-IsSafe "../../etc/passwd" "unknown" unknown-IsSafe refl
