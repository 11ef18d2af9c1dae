-- ===== src/Download/Transfers.antt =====
-- What a transfer brought was allowed and is not too large.
use mathlib.Core.List.{append-nil, append_assoc}
use android_package_service.Base.{
  ℕ, ◌+◌, ◌≤◌, String, ◌≡◌, refl, ◌∙◌, ap, sym, ◌≢◌, ◌⊎◌, inl, inr, Bool, true, false, Option, none,
  some, List, [], ◌∷◌, ◌++◌, eq_iff, ltb, length, length-append, any, All, arith, Bool-cases,
}
use android_package_service.Download.{
  Url, Address, Response, Network, Limits, is_blocked, host_or_empty, via_proxy, check_addresses,
  receive, merged_headers, validate_parsed, validate_url, read_response, read_answer, download_url,
}

abbrev pub concat : List (List ℕ) → List ℕ
concat [] = []
concat (c ∷ cs) = c ++ concat cs

receive_whole :
    (limit : ℕ) (chunks : List (List ℕ)) (broken : Option String) (total : ℕ) (file out : List ℕ)
    → length file ≡ total
    → total ≤ limit
    → receive limit chunks broken total file ≡ inr out
    → (out ≡ file ++ concat chunks) × (broken ≡ none) × (length out ≤ limit)
unfolding receive
receive_whole limit [] none total file out l h e =
    let same : file ≡ out = cc in
    (sym same ∙ sym (append-nil file), refl, rw (sym same) (omega arith))
receive_whole limit [] (some m) total file out l h e = absurd (cc)
receive_whole limit (c ∷ cs) broken total file out l h e =
    elim (Bool-cases (ltb limit (total + length c))) [
      | inl over ↦ ground arith
      | inr fits ↦
          let rest : receive limit cs broken (total + length c) (file ++ c) ≡ inr out =
            ground arith in
          let (whole, done, small) =
            receive_whole limit cs broken (total + length c) (file ++ c) out
              (length-append file c ∙ ap (λ n. n + length c) l) (ground arith) rest in
          (whole ∙ append_assoc file c (concat cs), done, small)
    ]

not_any-All :
    {A : Type 0} (p : A → Bool) (rows : List A) → any p rows ≡ false → All (λ r. p r ≡ false) rows
unfolding any
not_any-All p [] h = tt
not_any-All p (r ∷ rs) h = (ground arith, not_any-All p rs (ground arith))

module _ {W : Type 0} (web : Network W) where
  abbrev pub IsPublic : String → Bool → W → Type 0
  IsPublic host proxied w =
      (proxied ≡ true)
      ⊎ ((addresses : List Address) × ((web.getaddrinfo host w).1 ≡ inr addresses)
          × All (λ a. is_blocked a ≡ false) addresses)

  -- A URL with http or https and a host, that resolves to no blocked address unless a proxy connects.
  abbrev pub IsAllowed : String → Bool → W → Type 0
  IsAllowed url proxied w =
      (parsed : Url) × (web.urlparse url ≡ inr parsed)
      × ((parsed.scheme ≡ "http") ⊎ (parsed.scheme ≡ "https"))
      × (host_or_empty parsed.hostname ≢ "")
      × IsPublic (host_or_empty parsed.hostname) proxied w

  check_addresses_sound :
      (found : String ⊎ List Address)
      → check_addresses found ≡ none
      → (addresses : List Address) × (found ≡ inr addresses)
        × All (λ a. is_blocked a ≡ false) addresses
  check_addresses_sound (inl m) h = absurd (cc)
  check_addresses_sound (inr addresses) h =
      (addresses, refl, not_any-All is_blocked addresses (ground arith))

  validate_parsed-IsAllowed :
      (url : String) (proxied : Bool) (w : W) (answer : String ⊎ Url)
      → web.urlparse url ≡ answer
      → (validate_parsed web answer proxied w).1 ≡ none
      → IsAllowed url proxied w
  unfolding validate_parsed
  validate_parsed-IsAllowed url proxied w (inl m) e h = absurd (cc)
  validate_parsed-IsAllowed url proxied w (inr parsed) e h =
      let host = host_or_empty parsed.hostname in
      let scheme : (parsed.scheme ≡ "http") ⊎ (parsed.scheme ≡ "https") =
        ground (arith, eq_iff parsed.scheme "http", eq_iff parsed.scheme "https") in
      let full : host ≢ "" = ground (arith, eq_iff host "") in
      elim (Bool-cases proxied) [
        | inl behind ↦ (parsed, e, scheme, full, inl behind)
        | inr direct ↦
            let checked : check_addresses (web.getaddrinfo host w).1 ≡ none = ground (arith) in
            (
              parsed,
              e,
              scheme,
              full,
              inr (check_addresses_sound (web.getaddrinfo host w).1 checked),
            )
      ]

  validate_url-IsAllowed :
      (url : String) (proxied : Bool) (w : W)
      → (validate_url web url proxied w).1 ≡ none
      → IsAllowed url proxied w
  unfolding validate_url
  validate_url-IsAllowed url proxied w h =
      validate_parsed-IsAllowed url proxied w (web.urlparse url) refl h

  module _ (limits : Limits) where
    -- The file is the whole body of a response that had no error and whose URL is allowed, and is
    -- within the limit.
    abbrev pub IsWholeBody : Response → Option String → List ℕ → W → Type 0
    IsWholeBody r proxy file w =
        IsAllowed r.url (via_proxy proxy) w
        × (r.status_error ≡ none)
        × (r.broken ≡ none)
        × (file ≡ concat r.chunks)
        × (length file ≤ limits.download_max_file_bytes)

    read_response-IsWholeBody :
        (r : Response) (proxy : Option String) (w : W) (file : List ℕ)
        → (read_response web limits r proxy w).1 ≡ inr file
        → IsWholeBody r proxy file w
    unfolding read_response
    read_response-IsWholeBody r proxy w file h =
        let status : r.status_error ≡ none = ground arith in
        let valid : (validate_url web r.url (via_proxy proxy) w).1 ≡ none = ground arith in
        let received : receive limits.download_max_file_bytes r.chunks r.broken 0 [] ≡ inr file =
          ground arith in
        let (whole, done, small) =
          receive_whole limits.download_max_file_bytes r.chunks r.broken 0 [] file refl
            (omega arith) received in
        (validate_url-IsAllowed r.url (via_proxy proxy) w valid, status, done, whole, small)

    read_answer-IsWholeBody :
        (answer : String ⊎ Response) (proxy : Option String) (w : W) (file : List ℕ)
        → (read_answer web limits answer proxy w).1 ≡ inr file
        → (r : Response) × (answer ≡ inr r) × IsWholeBody r proxy file w
    unfolding read_answer
    read_answer-IsWholeBody (inl m) proxy w file h = absurd (cc)
    read_answer-IsWholeBody (inr r) proxy w file h =
        (r, refl, read_response-IsWholeBody r proxy w file h)

    -- A transfer over HTTP that succeeds asked for an allowed URL, got a response without an error
    -- from an allowed URL, and brought the whole of its body, which is within the limit.
    pub download_url_sound :
        (url : String) (headers : List (String × String)) (proxy : Option String) (w : W)
        (file : List ℕ)
        → (download_url web limits url headers proxy w).1 ≡ inr file
        → let request_headers =
            merged_headers (("User-Agent", limits.http_user_agent) ∷ []) headers in
          let answer =
            web.stream url request_headers proxy (validate_url web url (via_proxy proxy) w).0 in
          IsAllowed url (via_proxy proxy) w
          × ((r : Response) × (answer.1 ≡ inr r) × IsWholeBody r proxy file answer.0)
    unfolding download_url
    download_url_sound url headers proxy w file h =
        let checked = validate_url web url (via_proxy proxy) w in
        let request_headers =
          merged_headers (("User-Agent", limits.http_user_agent) ∷ []) headers in
        let answer = web.stream url request_headers proxy checked.0 in
        let valid : checked.1 ≡ none = ground arith in
        let read : (read_answer web limits answer.1 proxy answer.0).1 ≡ inr file = ground arith in
        (
          validate_url-IsAllowed url (via_proxy proxy) w valid,
          read_answer-IsWholeBody answer.1 proxy answer.0 file read,
        )
