-- ===== src/Tests/Download.antt =====
-- Runs of app/download/downloader.py.
use Prim.Native.String.{String}
use android_package_service.Base.{
  ℕ, ◌+◌, ◌≡◌, refl, true, false, none, some, List, [], ◌∷◌, ◌==◌, if◌then◌else◌, inl, inr, any,
  find, All, length, eq_iff,
}
use android_package_service.Domain.{DownloadPlan, PackageFile, base_apk}
use android_package_service.Catalog.Versions.{dict_get, dict_set}
use android_package_service.Filenames.{
  replace_runs, strip_left, strip_right, safe_part, artifact_filename,
}
use android_package_service.Orchestrator.{Outcome, returned, version_key}
use android_package_service.Artifacts.{
  FileReader, verify_file, verify_manifest, verify_artifact, metadata_prefix, object_key,
  existing_key, existing, commit,
}
use android_package_service.Artifacts.Fake.{
  FakeStorage, upload, head, get_metadata, put_metadata, fake,
}
use android_package_service.Download.{
  Library, World, Network, Disk, Limits, Fetched, dict_del, not_json, merged_headers, receive,
  validate_parsed, validate_url, read_response, read_answer, download_url, fetch_urls, fetch_one,
  fetch_files, expand_bundles, finalize, backfill_ledger, content, download,
}
use android_package_service.Download.Transfers.{IsAllowed, IsWholeBody, download_url_sound}
use android_package_service.Download.Files.{fetch_files_verified}
use android_package_service.Download.Reuse.{download-download}

-- A network that counts its calls. Every host is public but "intern", and "lost" does not answer.
abbrev web : Network ℕ
web = record {
  urlparse = λ url. inr (record { scheme = "https"; hostname = some url; path = "/" });
  getaddrinfo = λ host n. (
    n + 1,
    inr (
        record {
          is_private = host == "intern";
          is_loopback = false;
          is_link_local = false;
          is_reserved = false;
          is_multicast = false;
          is_unspecified = false;
        }
        ∷ []),
  );
  stream = λ url headers proxy n. (
    n + 1,
    (if url == "lost"
        then inl "no answer"
        else inr (record {
          url = "mirror";
          status_error = none;
          chunks = (80 ∷ 75 ∷ []) ∷ (3 ∷ []) ∷ [];
          broken = none;
        })),
  );
  has_wget = false;
  run_wget = λ command proxy n. (n, inl "failed");
}

abbrev disk : Disk ℕ
disk = record { copy = λ p n. (n, inl "missing"); move = λ p n. (n, inl "missing") }

abbrev limits : Limits
limits = record {
  http_user_agent = "agent";
  connect_timeout = "5";
  read_timeout = "30";
  download_max_file_bytes = 3;
}

abbrev lower : String → String
lower s = s

abbrev reader : FileReader (List ℕ)
reader = record {
  size = length;
  has_pk_header = λ f. true;
  file_hashes = λ f. record { md5 = "m"; sha1 = "a"; sha256 = "b" };
  read_zip_manifest = λ f. none;
}

abbrev file_at : String → PackageFile
file_at url = record {
  kind = base_apk;
  name = "base.apk";
  source_type = "url";
  url = some url;
  source_url = none;
  source_path = none;
  headers = [];
  proxy = none;
  fallback_urls = [];
  size = some 3;
  md5 = none;
  sha1 = none;
  sha256 = none;
  split_name = none;
  split_type = none;
  metadata = [];
}

abbrev plan_at : String → DownloadPlan
plan_at url = record {
  package_name = "com.a";
  app_name = "A";
  version_name = some "1.0";
  version_code = some 42;
  provider = "aptoide";
  files = file_at url ∷ [];
}

abbrev bytes : List ℕ
bytes = 80 ∷ 75 ∷ 3 ∷ []

-- Nothing is a ZIP file or JSON, and no artifact has a manifest.
abbrev library : Library
library = record {
  lower = lower;
  str = λ n. "42";
  stem = λ s. s;
  int_of = λ s. none;
  decimal = λ n. none;
  unzip = λ f. inl "no ZIP file";
  zip = λ m tree. [];
  loads = λ f. not_json;
  parse_artifact = λ f. none;
}

abbrev nothing : Fetched
nothing = record { dir = []; names = [] }

abbrev start : World ℕ (FakeStorage (List ℕ))
start = record { net = 0; store = record { objects = []; metadata = [] }; ledger = [] }

download_url_blocked :
    (download_url web limits "intern" [] none 0).1
    ≡ inl "Download URL resolves to a blocked address."
unfolding download_url validate_url validate_parsed any
download_url_blocked = refl

download_url_sound_example :
    let headers : List (String × String) = ("User-Agent", "agent") ∷ [] in
    let answer = web.stream "h" (merged_headers headers []) none (validate_url web "h" false 0).0 in
    IsAllowed web "h" false 0
    × ((r : _) × (answer.1 ≡ inr r) × IsWholeBody web limits r none bytes answer.0)
unfolding download_url validate_url validate_parsed any read_answer read_response receive
    merged_headers
download_url_sound_example = download_url_sound web limits "h" [] none 0 bytes refl

-- A second file of a plan, and the directory after both were fetched.
abbrev split_at : String → PackageFile
split_at url = record (file_at url) { name = "split.apk" }

abbrev both : Fetched
both = record {
  dir = ("base.apk", bytes) ∷ ("split.apk", bytes) ∷ [];
  names = ("base.apk", "base.apk") ∷ ("split.apk", "split.apk") ∷ [];
}

fetch_files_verified_example :
    All
      (λ p.
        (file : List ℕ) × (content p.name both ≡ some file)
        × (verify_file reader lower (some file) p "aptoide" ≡ none))
      (file_at "h" ∷ split_at "i" ∷ [])
unfolding fetch_files fetch_one fetch_urls download_url validate_url validate_parsed any read_answer
    read_response receive merged_headers verify_file safe_part replace_runs strip_left strip_right
    dict_set dict_del
fetch_files_verified_example =
    fetch_files_verified web disk limits lower reader "tmp" "aptoide"
      (file_at "h" ∷ split_at "i" ∷ []) nothing both 0
      (
        (
          (
            λ e. absurd (cc ((eq_iff "split.apk" "base.apk").1 e)),
            λ e. absurd (cc ((eq_iff "base.apk" "split.apk.part").1 e)),
          ),
          tt,
        ),
        (tt, tt),
      )
      refl

abbrev run_of :
    DownloadPlan → World ℕ (FakeStorage (List ℕ)) → World ℕ (FakeStorage (List ℕ)) × Outcome String
run_of plan w = download library reader web disk limits (fake reader.size) "tmp" true 7 plan w

download-download_example :
    let later = (run_of (plan_at "h") start).0 in
    run_of (plan_at "h") later ≡ (later, returned "aptoide/com.a/42/com.a_1.0_42_aptoide.apk")
unfolding download fetch_files fetch_one fetch_urls download_url validate_url validate_parsed any
    read_answer read_response receive merged_headers verify_file safe_part replace_runs strip_left
    strip_right dict_set dict_del dict_get existing existing_key commit metadata_prefix object_key
    version_key verify_artifact verify_manifest expand_bundles finalize backfill_ledger
    artifact_filename find upload head get_metadata put_metadata
download-download_example =
    download-download library reader web disk limits (fake reader.size) "tmp" true 7 (plan_at "h")
      start (run_of (plan_at "h") start).0 "aptoide/com.a/42/com.a_1.0_42_aptoide.apk" refl refl
