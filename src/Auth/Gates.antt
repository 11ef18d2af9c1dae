-- ===== src/Auth/Gates.antt =====
-- The gates of app/auth/deps.py. `lower` is Python's str.lower and `quote` is urllib's; the message
-- of a refusal is left out.
use android_package_service.Base.{
  ℕ, ◌<◌, String, ◌≡◌, refl, inl, inr, Bool, true, false, ◌&&◌, Option, none, some, List, ◌==◌,
  arith, if◌then◌else◌, is_some, is_none, subst, ap, sym, ◌∙◌, eq_iff, ltb, In, find, find-some,
  Option-cases,
}
use android_package_service.Auth.{
  AdminUser, Session, ApiKey, truthy, get_admin, get_session, verify_api_key,
}
use Prim.Native.String

pub record Settings : Type 0 where
  pub auth_enabled : Bool
  pub auth_api_key_enabled : Bool

-- What the gates read of a request: the cookie of the session, the scheme and the credentials of the
-- Authorization header, the header X-API-Key, and the path with the query.
pub record Request : Type 0 where
  pub session_cookie : Option String
  pub authorization : Option (String × String)
  pub api_key_header : Option String
  pub path : String
  pub query : String

pub data Principal : Type 0 where
  nobody : Principal
  administrator : AdminUser → Principal
  key : ApiKey → Principal

pub data Verdict : Type 0 where
  admits : Principal → Verdict
  redirects : String → Verdict
  unauthorized : Verdict

-- `_extract_api_key`
unfoldable pub extract_api_key : (String → String) → Request → Option String
extract_api_key lower q = elim q.authorization [
  | none ↦ q.api_key_header
  | some a ↦ if lower a.0 == "bearer" then some a.1 else q.api_key_header
]

-- `_load_admin`
unfoldable pub load_admin : ℕ → Request → List Session → List AdminUser → Option AdminUser
load_admin now q sessions admins = elim (get_session now q.session_cookie sessions) [
  | none ↦ none
  | some session ↦ elim (get_admin admins) [
    | none ↦ none
    | some a ↦ if a.open_id == session.open_id then some a else none
  ]
]

unfoldable pub require_admin_session :
    (String → String) → Settings → ℕ → Request → List Session → List AdminUser → Verdict
require_admin_session quote settings now q sessions admins =
    let next = String.◌++◌ q.path (if q.query == "" then "" else String.◌++◌ "?" q.query) in
    if settings.auth_enabled
    then elim (load_admin now q sessions admins) [
      | some a ↦ admits (administrator a)
      | none ↦ redirects (String.◌++◌ "/auth/login?next=" (quote next))
    ]
    else admits nobody

module _ (hash_key lower : String → String) where
  unfoldable pub require_api_key : Settings → ℕ → Request → List ApiKey → List ApiKey × Verdict
  require_api_key settings now q keys =
      let r = verify_api_key hash_key now (extract_api_key lower q) keys in
      if settings.auth_enabled && settings.auth_api_key_enabled
      then (r.0, elim r.1 [ none ↦ unauthorized | some k ↦ admits (key k) ])
      else (keys, admits nobody)

  unfoldable pub require_session_or_api_key :
      Settings → ℕ → Request → List Session → List AdminUser → List ApiKey → List ApiKey × Verdict
  require_session_or_api_key settings now q sessions admins keys =
      let r = verify_api_key hash_key now (extract_api_key lower q) keys in
      if settings.auth_enabled
      then elim (load_admin now q sessions admins) [
        | some a ↦ (keys, admits (administrator a))
        | none ↦ (r.0, elim r.1 [ none ↦ unauthorized | some k ↦ admits (key k) ])
      ]
      else (keys, admits nobody)

abbrev pub is_refused : Verdict → Bool
is_refused (admits p) = false
is_refused (redirects l) = true
is_refused unauthorized = true

truthy-some : (o : Option String) (t : String) → truthy o ≡ some t → o ≡ some t
truthy-some none t h = absurd (cc)
truthy-some (some s) t h = ground (arith, eq_iff s "")

get_session_sound :
    (now : ℕ) (cookie : Option String) (sessions : List Session) (s : Session)
    → get_session now cookie sessions ≡ some s
    → In s sessions × (cookie ≡ some s.id) × (now < s.expires_at)
unfolding get_session
get_session_sound now cookie sessions s h = elim (Option-cases (truthy cookie)) [
  | inl e ↦
      let absent : none ≡ some s = subst (λ t. t ≡ some s) (rw (e, get_session) refl) h in
      absurd (cc)
  | inr (i, e) ↦
      let hit : find (λ x. x.id == i && ltb now x.expires_at) sessions ≡ some s =
        subst (λ t. t ≡ some s) (rw (e, get_session) refl) h in
      let row = find-some (λ x. x.id == i && ltb now x.expires_at) sessions s hit in
      ground (arith, row, eq_iff s.id i, truthy-some cookie i e)
]

-- The administrator is let in only by a session of the table that has the cookie's name, has not
-- expired, and is of the administrator's identity.
pub load_admin_sound :
    (now : ℕ) (q : Request) (sessions : List Session) (admins : List AdminUser) (a : AdminUser)
    → load_admin now q sessions admins ≡ some a
    → (get_admin admins ≡ some a)
      × ((s : Session) × In s sessions
          × (q.session_cookie ≡ some s.id)
          × (now < s.expires_at)
          × (s.open_id ≡ a.open_id))
unfolding load_admin
load_admin_sound now q sessions admins a h =
    elim (Option-cases (get_session now q.session_cookie sessions)) [
      | inl e ↦
          let absent : none ≡ some a = subst (λ t. t ≡ some a) (rw (e, load_admin) refl) h in
          absurd (cc)
      | inr (s, e) ↦ elim (Option-cases (get_admin admins)) [
        | inl f ↦
            let absent : none ≡ some a = subst (λ t. t ≡ some a) (rw (e, load_admin, f) refl) h in
            absurd (cc)
        | inr (b, f) ↦
            let let_in : (if b.open_id == s.open_id then some b else none) ≡ some a =
              subst (λ t. t ≡ some a) (rw (e, load_admin, f) refl) h in
            let matches : (b ≡ a) × (b.open_id ≡ s.open_id) =
              ground (arith, let_in, eq_iff b.open_id s.open_id) in
            let (i, c, t) = get_session_sound now q.session_cookie sessions s e in
            (f ∙ ap some matches.0, (s, i, c, t, sym matches.1 ∙ ap (λ x. x.open_id) matches.0))
      ]
    ]

-- With the gates closed a request to the snapshot is let in exactly for the administrator with a
-- session or for a live key, and a request with a session leaves the keys as they are.
pub require_session_or_api_key_cases :
    (hash_key lower : String → String) (settings : Settings) (now : ℕ) (q : Request)
    (sessions : List Session) (admins : List AdminUser) (keys : List ApiKey)
    → settings.auth_enabled ≡ true
    → let r = require_session_or_api_key hash_key lower settings now q sessions admins keys in
      let session = load_admin now q sessions admins in
      let checked = verify_api_key hash_key now (extract_api_key lower q) keys in
      (is_refused r.1 ≡ (is_none session && is_none checked.1))
      × (r.0 ≡ (if is_some session then keys else checked.0))
unfolding require_session_or_api_key
require_session_or_api_key_cases hash_key lower settings now q sessions admins keys on =
    elim (Option-cases (load_admin now q sessions admins)) [
      | inr (a, e) ↦ rw (on, e, require_session_or_api_key) (refl, refl)
      | inl e ↦ elim (Option-cases (verify_api_key hash_key now (extract_api_key lower q) keys).1) [
        | inl f ↦ rw (on, e, require_session_or_api_key, f) (refl, refl)
        | inr (k, f) ↦ rw (on, e, require_session_or_api_key, f) (refl, refl)
      ]
    ]
