-- ===== src/Tests/Artifacts.antt =====
-- Runs of app/download/verifier.py, app/download/artifact_store.py and app/storage/fake.py.
use Prim.Native.String.{String}
use android_package_service.Base.{ℕ, ◌≡◌, refl, true, some, []}
use android_package_service.Domain.{DownloadPlan}
use android_package_service.Catalog.Versions.{null, text, number}
use android_package_service.Filenames.{replace_runs, strip_left, strip_right, safe_part}
use android_package_service.Orchestrator.{version_key}
use android_package_service.Artifacts.{
  FileReader, ZipManifest, verify_file, verify_manifest, verify_artifact, metadata_prefix,
  object_key,
}
use android_package_service.Artifacts.Verified.{IsAccepted, verify_artifact-IsAccepted}

abbrev str : ℕ → String
str n = "42"

abbrev lower : String → String
lower s = s

-- A file is what its manifest says; all files have 5 bytes.
abbrev reader : FileReader ZipManifest
reader = record {
  size = λ f. 5;
  has_pk_header = λ f. true;
  file_hashes = λ f. record { md5 = "m"; sha1 = "a"; sha256 = "b" };
  read_zip_manifest = λ f. some f;
}

abbrev file : ZipManifest
file = record { package_name = text "com.a"; version_code = number 42; version_name = null }

abbrev plan : DownloadPlan
plan = record {
  package_name = "com.a";
  app_name = "A";
  version_name = some "1.0";
  version_code = some 42;
  provider = "aptoide";
  files = [];
}

object_key_run : object_key str plan "a.apk" ≡ "aptoide/com.a/42/a.apk"
unfolding object_key metadata_prefix version_key safe_part replace_runs strip_left strip_right
object_key_run = refl

verify_artifact-IsAccepted_example : IsAccepted reader lower str (some file) (some 5) plan
unfolding verify_artifact verify_file verify_manifest
verify_artifact-IsAccepted_example =
    verify_artifact-IsAccepted reader lower str "a.apk" (some file) plan (some 5) refl
