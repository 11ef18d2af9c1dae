-- ===== src/Download/Fetch.antt =====
-- `_fetch_one` and `_fetch_files` of app/download/downloader.py. The directory of the files is a
-- dictionary from names to bytes, and `fetched` tells the name there of each file of the plan. The part
-- file stands in the same directory: what was there under its name is gone once it is renamed.
use Prim.Native.String
use Prim.Native.String.{String}
use android_package_service.Base.{
  ℕ, Bool, true, false, not, ◌&&◌, ◌||◌, Option, none, some, List, [], ◌∷◌, ◌++◌, ◌⊎◌, inl, inr,
  ◌==◌, if◌then◌else◌, holds_text,
}
use android_package_service.Domain.{PackageFile, network_error}
use android_package_service.Catalog.Versions.{dict_get, dict_set}
use android_package_service.Filenames.{safe_part, or_fallback, text_or_empty}
use android_package_service.Orchestrator.{Outcome, returned, provider_exception, exception}
use android_package_service.Artifacts.{FileReader, verify_file}
use android_package_service.Download.Web.{
  Url, Network, Limits, download_url, download_url_with_wget,
}

abbrev pub network_failure : {A : Type 0} → String → String → Outcome A
network_failure provider message =
    provider_exception (record { provider = provider; error = network_error; message = message })

unfoldable pub starts_with : String → String → Bool
starts_with String.[] s = true
starts_with (String.◌∷◌ c p) String.[] = false
starts_with (String.◌∷◌ c p) (String.◌∷◌ d s) =
    if String.◌∷◌ c "" == String.◌∷◌ d "" then starts_with p s else false

-- `"; ".join(errors)`
unfoldable pub join : List String → String
join [] = ""
join (e ∷ []) = e
join (e ∷ d ∷ es) = String.◌++◌ e (String.◌++◌ "; " (join (d ∷ es)))

-- The directory, and the name there of each file that was fetched.
pub record Fetched : Type 0 where
  pub dir : List (String × List ℕ)
  pub names : List (String × String)

-- `unlink`, or the rename of a file, for the name that goes.
unfoldable pub dict_del : {V : Type 0} → String → List (String × V) → List (String × V)
dict_del k [] = []
dict_del k ((j, v) ∷ m) = let rest = dict_del k m in if j == k then rest else (j, v) ∷ rest

abbrev pub part_of : String → String
part_of target = String.◌++◌ target ".part"

-- The bytes go to the part file, which then replaces the file.
abbrev pub keep : PackageFile → List ℕ → Fetched → Fetched
keep p file got = record {
  dir =
      dict_set (safe_part p.name "unknown") file
        (dict_del (part_of (safe_part p.name "unknown")) got.dir);
  names = dict_set p.name (safe_part p.name "unknown") got.names;
}

-- `fetched[name]` and the bytes there; a missing key is nothing.
abbrev pub content_at : Option String → Fetched → Option (List ℕ)
content_at none got = none
content_at (some target) got = dict_get target got.dir

abbrev pub content : String → Fetched → Option (List ℕ)
content name got = content_at (dict_get name got.names) got

-- `shutil.copy2` and `shutil.move` of a local file, which lies outside the directory of the files.
pub record Disk (W : Type 0) : Type 0 where
  pub copy : String → W → W × (String ⊎ List ℕ)
  pub move : String → W → W × (String ⊎ List ℕ)

-- `path or urlparse(url or "").path`
abbrev pub source_text : (String → String ⊎ Url) → PackageFile → String ⊎ String
source_text urlparse p =
    if text_or_empty p.source_path == ""
    then (elim (urlparse (text_or_empty p.url)) [ inl m ↦ inl m | inr u ↦ inr u.path ])
    else inr (text_or_empty p.source_path)

abbrev pub stopped : {W A : Type 0} → W × (String ⊎ A) → W × Outcome A
stopped (w, inl m) = (w, exception m)
stopped (w, inr a) = (w, returned a)

module _ {W : Type 0} (web : Network W) (disk : Disk W) (limits : Limits)
    (lower : String → String) where
  -- The loop over the URLs, with the messages of what failed.
  unfoldable pub fetch_urls :
      PackageFile → String → String → List String → List String → W → W × Outcome (List ℕ)
  fetch_urls p part provider [] errors w = (
    w,
    network_failure provider
        (or_fallback (join errors) (String.◌++◌ "Download failed for " p.name)),
  )
  fetch_urls p part provider (url ∷ urls) errors w =
      let first = download_url web limits url p.headers p.proxy w in
      let second = download_url_with_wget web limits lower url part p.headers p.proxy first.0 in
      elim first.1 [
        | inr file ↦ (first.0, returned file)
        | inl m ↦
            if holds_text (dict_get "download.fallback" p.metadata) "wget"
            then (elim second.1 [
              | inr file ↦ (second.0, returned file)
              | inl n ↦ fetch_urls p part provider urls (errors ++ (m ∷ n ∷ [])) second.0
            ])
            else fetch_urls p part provider urls (errors ++ (m ∷ [])) first.0
      ]

  unfoldable pub fetch_local : PackageFile → String → W → W × Outcome (List ℕ)
  fetch_local p provider w =
      if not (starts_with "fake" provider)
        && not (holds_text (dict_get "local.provider" p.metadata) provider)
      then (w, network_failure provider "Local file source is not trusted.")
      else elim (source_text web.urlparse p) [
        | inl m ↦ (w, exception m)
        | inr source ↦
            if holds_text (dict_get "local.cleanup" p.metadata) "true"
            then stopped (disk.move source w)
            else stopped (disk.copy source w)
      ]

  -- `source_url or url`
  abbrev pub first_url : PackageFile → String
  first_url p = or_fallback (text_or_empty p.source_url) (text_or_empty p.url)

  unfoldable pub fetch_one : PackageFile → String → String → W → W × Outcome (List ℕ)
  fetch_one p part provider w =
      if p.source_type == "local"
      then fetch_local p provider w
      else if not (p.source_type == "url") || first_url p == ""
      then (w, network_failure provider (String.◌++◌ "Unsupported file source: " p.source_type))
      else fetch_urls p part provider (first_url p ∷ p.fallback_urls) [] w

  module _ (reader : FileReader (List ℕ)) where
    -- `verify_file`, and the rename of the part file.
    abbrev pub verified : PackageFile → String → List ℕ → Fetched → Outcome Fetched
    verified p provider file got = elim (verify_file reader lower (some file) p provider) [
      | some e ↦ provider_exception e
      | none ↦ returned (keep p file got)
    ]

    abbrev pub then_verified : PackageFile → String → Outcome (List ℕ) → Fetched → Outcome Fetched
    then_verified p provider (returned file) got = verified p provider file got
    then_verified p provider (provider_exception e) got = provider_exception e
    then_verified p provider (exception m) got = exception m

    unfoldable pub fetch_files :
        String → String → List PackageFile → Fetched → W → W × Outcome Fetched
    fetch_files files_dir provider [] got w = (w, returned got)
    fetch_files files_dir provider (p ∷ ps) got w =
        let part = String.◌++◌ files_dir (String.◌++◌ "/" (part_of (safe_part p.name "unknown"))) in
        let file = fetch_one p part provider w in
        elim (then_verified p provider file.1 got) [
          | returned got' ↦ fetch_files files_dir provider ps got' file.0
          | provider_exception e ↦ (file.0, provider_exception e)
          | exception m ↦ (file.0, exception m)
        ]
