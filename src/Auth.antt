-- ===== src/Auth.antt =====
-- app/auth/service.py, app/auth/models.py and the tables of app/auth/store.py. `hash_key` is SHA-256
-- in hexadecimal, and the tokens that `secrets` and `uuid4` make are arguments. An INSERT that meets
-- a primary key or a UNIQUE column raises: `none` here.
pub mod Keys
pub mod Logins
pub mod Gates
use Prim.Native.String
use Prim.Native.String.{String}
use android_package_service.Base.{
  ℕ, zero, suc, ◌+◌, String, Bool, true, false, not, ◌&&◌, ◌||◌, Option, none, some, List, [], ◌∷◌,
  ◌++◌, ◌==◌, if◌then◌else◌, is_none, ltb, leb, find, any, count, update, select,
}

pub record AdminUser : Type 0 where
  pub open_id : String
  pub name : Option String
  pub email : Option String
  pub created_at : ℕ

pub record ApiKey : Type 0 where
  pub id : String
  pub name : String
  pub key_prefix : String
  pub key_hash : String
  pub created_at : ℕ
  pub last_used_at : Option ℕ
  pub revoked_at : Option ℕ

pub record Session : Type 0 where
  pub id : String
  pub open_id : String
  pub created_at : ℕ
  pub expires_at : ℕ

-- A row of `oauth_states`.
pub record OauthState : Type 0 where
  pub state : String
  pub created_at : ℕ
  pub expires_at : ℕ
  pub next : Option String

-- `x` where Python tests `if not x`.
abbrev pub truthy : Option String → Option String
truthy none = none
truthy (some s) = if s == "" then none else some s

-- `SELECT * FROM admin_user LIMIT 1`
abbrev pub get_admin : List AdminUser → Option AdminUser
get_admin [] = none
get_admin (a ∷ rest) = some a

pub data Registered : Type 0 where
  admin : AdminUser → Registered
  admin_seat_taken : String → Registered

unfoldable pub register_or_check_admin :
    ℕ → String → Option String → Option String → List AdminUser → List AdminUser × Registered
register_or_check_admin now open_id name email [] =
    let row : AdminUser = record {
      open_id = open_id;
      name = name;
      email = email;
      created_at = now;
    } in
    (row ∷ [], admin row)
register_or_check_admin now open_id name email (a ∷ rest) =
    if a.open_id == open_id then (a ∷ rest, admin a) else (a ∷ rest, admin_seat_taken a.open_id)

-- The first characters of a text.
unfoldable pub prefix : ℕ → String → String
prefix zero s = ""
prefix (suc n) String.[] = ""
prefix (suc n) (String.◌∷◌ c s) = String.◌∷◌ c (prefix n s)

abbrev pub has_key_id : String → ApiKey → Bool
has_key_id i k = k.id == i

abbrev pub has_hash : String → ApiKey → Bool
has_hash h k = k.key_hash == h

-- `key_hash = ? AND revoked_at IS NULL`
abbrev pub live_hash : String → ApiKey → Bool
live_hash h k = k.key_hash == h && is_none k.revoked_at

abbrev pub used : ℕ → ApiKey → ApiKey
used now k = record k { last_used_at = some now }

abbrev pub revoked : ℕ → ApiKey → ApiKey
revoked now k = record k { revoked_at = some now }

-- `WHERE id = ? AND revoked_at IS NULL`
abbrev pub revocable : String → ApiKey → Bool
revocable i k = k.id == i && is_none k.revoked_at

module _ (hash_key : String → String) where
  -- `raw` is "aps_" and the token.
  abbrev pub new_key : ℕ → String → String → String → ApiKey
  new_key now key_id name raw = record {
    id = key_id;
    name = name;
    key_prefix = prefix 12 raw;
    key_hash = hash_key raw;
    created_at = now;
    last_used_at = none;
    revoked_at = none;
  }

  unfoldable pub create_api_key :
      ℕ → String → String → String → List ApiKey → Option (List ApiKey × ApiKey × String)
  create_api_key now key_id token name keys =
      let raw = String.◌++◌ "aps_" token in
      let key = new_key now key_id name raw in
      if any (has_key_id key_id) keys || any (has_hash (hash_key raw)) keys
      then none
      else some (keys ++ key ∷ [], key, raw)

  unfoldable pub verify_api_key : ℕ → Option String → List ApiKey → List ApiKey × Option ApiKey
  verify_api_key now raw keys = elim (truthy raw) [
    | none ↦ (keys, none)
    | some text ↦ elim (find (live_hash (hash_key text)) keys) [
      | none ↦ (keys, none)
      | some row ↦ (update (has_key_id row.id) (used now) keys, some (used now row))
    ]
  ]

unfoldable pub revoke_api_key : ℕ → String → List ApiKey → List ApiKey × Bool
revoke_api_key now key_id keys =
    (update (revocable key_id) (revoked now) keys, ltb 0 (count (revocable key_id) keys))

-- `_purge_expired`
unfoldable pub purge_sessions : ℕ → List Session → List Session
purge_sessions now sessions = select (λ s. not (leb s.expires_at now)) sessions

unfoldable pub purge_states : ℕ → List OauthState → List OauthState
purge_states now states = select (λ s. not (leb s.expires_at now)) states

abbrev pub new_session : ℕ → ℕ → String → String → Session
new_session ttl now token open_id = record {
  id = token;
  open_id = open_id;
  created_at = now;
  expires_at = now + ttl;
}

-- Each statement is a transaction of its own: the expired rows are gone even if the INSERT raises.
unfoldable pub create_session :
    ℕ
    → ℕ
    → String
    → String
    → List Session
    → List OauthState
    → List Session × List OauthState × Option Session
create_session ttl now token open_id sessions states =
    let session = new_session ttl now token open_id in
    let kept = purge_sessions now sessions in
    if any (λ s. s.id == token) kept
    then (kept, purge_states now states, none)
    else (kept ++ session ∷ [], purge_states now states, some session)

unfoldable pub get_session : ℕ → Option String → List Session → Option Session
get_session now session_id sessions = elim (truthy session_id) [
  | none ↦ none
  | some i ↦ find (λ s. s.id == i && ltb now s.expires_at) sessions
]

unfoldable pub delete_session : String → List Session → List Session
delete_session session_id sessions = select (λ s. not (s.id == session_id)) sessions

abbrev pub new_state : ℕ → ℕ → String → Option String → OauthState
new_state ttl now token next = record {
  state = token;
  created_at = now;
  expires_at = now + ttl;
  next = next;
}

unfoldable pub create_oauth_state :
    ℕ
    → ℕ
    → String
    → Option String
    → List Session
    → List OauthState
    → List Session × List OauthState × Option String
create_oauth_state ttl now token next sessions states =
    let kept = purge_states now states in
    if any (λ s. s.state == token) kept
    then (purge_sessions now sessions, kept, none)
    else (purge_sessions now sessions, kept ++ new_state ttl now token next ∷ [], some token)

-- Whether the state is valid and where the login goes on; the state is deleted either way.
unfoldable pub consume_oauth_state :
    ℕ → Option String → List OauthState → List OauthState × (Bool × Option String)
consume_oauth_state now state states = elim (truthy state) [
  | none ↦ (states, (false, none))
  | some text ↦
      let left = select (λ s. not (s.state == text)) states in
      elim (find (λ s. s.state == text) states) [
        | none ↦ (left, (false, none))
        | some row ↦
            if leb row.expires_at now then (left, (false, none)) else (left, (true, row.next))
      ]
]
