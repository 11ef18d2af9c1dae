-- ===== src/Download/Web.antt =====
-- The transfers of app/download/downloader.py: `_validate_url`, `_download_url` and
-- `_download_url_with_wget`. A file is the list of its bytes. The parser of URLs, the resolver, the
-- HTTP client and wget are the record `Network` on the state `W` of the network; what they raise is
-- the text of it, on the left of a sum.
use Prim.Native.String
use android_package_service.Base.{
  ℕ, ◌+◌, String, Bool, false, not, ◌||◌, Option, none, some, List, [], ◌∷◌, ◌++◌, ◌⊎◌, inl, inr,
  ◌==◌, if◌then◌else◌, ltb, length, any,
}
use android_package_service.Catalog.Versions.{dict_set}

pub record Url : Type 0 where
  pub scheme : String
  pub hostname : Option String
  pub path : String

pub record Address : Type 0 where
  pub is_private : Bool
  pub is_loopback : Bool
  pub is_link_local : Bool
  pub is_reserved : Bool
  pub is_multicast : Bool
  pub is_unspecified : Bool

-- A response after its redirects: what `raise_for_status` raises, if it does, the chunks of its body
-- and what is raised after the last one, if the transfer breaks off.
pub record Response : Type 0 where
  pub url : String
  pub status_error : Option String
  pub chunks : List (List ℕ)
  pub broken : Option String

pub record Network (W : Type 0) : Type 0 where
  pub urlparse : String → String ⊎ Url
  pub getaddrinfo : String → W → W × (String ⊎ List Address)
  pub stream : String → List (String × String) → Option String → W → W × (String ⊎ Response)
  pub has_wget : Bool
  pub run_wget : List String → Option String → W → W × (String ⊎ List ℕ)

-- The timeouts are in the notation of `:g`.
pub record Limits : Type 0 where
  pub http_user_agent : String
  pub connect_timeout : String
  pub read_timeout : String
  pub download_max_file_bytes : ℕ

abbrev pub is_blocked : Address → Bool
is_blocked a =
    a.is_private
    || (a.is_loopback
        || (a.is_link_local || (a.is_reserved || (a.is_multicast || a.is_unspecified))))

-- `not parsed.hostname`
abbrev pub host_or_empty : Option String → String
host_or_empty none = ""
host_or_empty (some h) = h

-- `bool(proxy)`
abbrev pub via_proxy : Option String → Bool
via_proxy none = false
via_proxy (some p) = not (p == "")

-- The loop over the addresses.
abbrev pub check_addresses : String ⊎ List Address → Option String
check_addresses (inl m) = some m
check_addresses (inr addresses) =
    if any is_blocked addresses then some "Download URL resolves to a blocked address." else none

-- The body of the stream, written to the part file.
unfoldable pub receive : ℕ → List (List ℕ) → Option String → ℕ → List ℕ → String ⊎ List ℕ
receive limit [] none total file = inr file
receive limit [] (some m) total file = inl m
receive limit (chunk ∷ chunks) broken total file =
    let rest = receive limit chunks broken (total + length chunk) (file ++ chunk) in
    if ltb limit (total + length chunk)
    then inl "Downloaded file exceeds configured limit."
    else rest

unfoldable pub merged_headers :
    List (String × String) → List (String × String) → List (String × String)
merged_headers m [] = m
merged_headers m ((k, v) ∷ rest) = merged_headers (dict_set k v m) rest

-- The option of wget for a header.
abbrev pub header_option : (String → String) → String × String → String
header_option lower (k, v) =
    if lower k == "user-agent"
    then String.◌++◌ "--user-agent=" v
    else if lower k == "referer"
    then String.◌++◌ "--referer=" v
    else String.◌++◌ "--header=" (String.◌++◌ k (String.◌++◌ ": " v))

unfoldable pub header_options : (String → String) → List (String × String) → List String
header_options lower [] = []
header_options lower (h ∷ hs) = header_option lower h ∷ header_options lower hs

abbrev pub wget_command :
    (String → String) → Limits → String → String → List (String × String) → List String
wget_command lower limits url part headers =
    "wget"
      ∷ "--no-check-certificate"
      ∷ String.◌++◌ "--connect-timeout=" limits.connect_timeout
      ∷ String.◌++◌ "--read-timeout=" limits.read_timeout
      ∷ "--tries=3"
      ∷ "-O"
      ∷ part
      ∷ header_options lower headers
    ++ (url ∷ [])

module _ {W : Type 0} (web : Network W) where
  -- What `_validate_url` raises, if it does.
  unfoldable pub validate_parsed : String ⊎ Url → Bool → W → W × Option String
  validate_parsed (inl m) proxied w = (w, some m)
  validate_parsed (inr parsed) proxied w =
      let host = host_or_empty parsed.hostname in
      let found = web.getaddrinfo host w in
      if not (parsed.scheme == "http" || parsed.scheme == "https")
      then (w, some "Only http and https download URLs are allowed.")
      else if host == ""
      then (w, some "Download URL host is missing.")
      else if proxied
      then (w, none)
      else (found.0, check_addresses found.1)

  unfoldable pub validate_url : String → Bool → W → W × Option String
  unfolding validate_parsed
  validate_url url proxied w = validate_parsed (web.urlparse url) proxied w

  module _ (limits : Limits) where
    -- From the response on.
    unfoldable pub read_response : Response → Option String → W → W × (String ⊎ List ℕ)
    read_response r proxy w =
        let checked = validate_url r.url (via_proxy proxy) w in
        elim r.status_error [
          | some m ↦ (w, inl m)
          | none ↦ elim checked.1 [
            | some m ↦ (checked.0, inl m)
            | none ↦ (checked.0, receive limits.download_max_file_bytes r.chunks r.broken 0 [])
          ]
        ]

    unfoldable pub read_answer : String ⊎ Response → Option String → W → W × (String ⊎ List ℕ)
    unfolding read_response
    read_answer (inl m) proxy w = (w, inl m)
    read_answer (inr r) proxy w = read_response r proxy w

    unfoldable pub download_url :
        String → List (String × String) → Option String → W → W × (String ⊎ List ℕ)
    download_url url headers proxy w =
        let checked = validate_url url (via_proxy proxy) w in
        let request_headers =
          merged_headers (("User-Agent", limits.http_user_agent) ∷ []) headers in
        let answer = web.stream url request_headers proxy checked.0 in
        elim checked.1 [ some m ↦ (checked.0, inl m) | none ↦ read_answer answer.1 proxy answer.0 ]

    abbrev pub within_limit : String ⊎ List ℕ → String ⊎ List ℕ
    within_limit (inl m) = inl m
    within_limit (inr file) =
        if ltb limits.download_max_file_bytes (length file)
        then inl "Downloaded file exceeds configured limit."
        else inr file

    unfoldable pub download_url_with_wget :
        (String → String)
        → String
        → String
        → List (String × String)
        → Option String
        → W
        → W × (String ⊎ List ℕ)
    download_url_with_wget lower url part headers proxy w =
        let checked = validate_url url (via_proxy proxy) w in
        let done = web.run_wget (wget_command lower limits url part headers) proxy checked.0 in
        elim checked.1 [
          | some m ↦ (checked.0, inl m)
          | none ↦
              if web.has_wget
              then (done.0, within_limit done.1)
              else (checked.0, inl "wget is not available.")
        ]
