-- ===== src/Auth/Logins.antt =====
-- The administrator, the sessions and the states of a login.
use android_package_service.Base.{
  ℕ, ◌+◌, String, ◌≡◌, refl, inl, inr, Bool, true, false, not, ◌&&◌, Option, none, some, List, [],
  ◌∷◌, ◌++◌, ◌==◌, arith, if◌then◌else◌, find, any, select, eq_iff, eq_refl, Option-cases,
  Bool-cases, ltb, leb, subst,
}
use android_package_service.Auth.{
  AdminUser, Session, OauthState, truthy, admin_seat_taken, register_or_check_admin, purge_sessions,
  purge_states, new_session, create_session, get_session, delete_session, new_state,
  create_oauth_state, consume_oauth_state,
}

-- Somebody who logs in: the time, the identity and what is known of them.
abbrev pub Login : Type 0
Login = ℕ × String × Option String × Option String

unfoldable pub log_in_all : List Login → List AdminUser → List AdminUser
log_in_all [] admins = admins
log_in_all ((now, open_id, name, email) ∷ ls) admins =
    log_in_all ls (register_or_check_admin now open_id name email admins).0

log_in_all-kept : (ls : List Login) (a : AdminUser) → log_in_all ls (a ∷ []) ≡ a ∷ []
unfolding log_in_all register_or_check_admin
log_in_all-kept [] a = refl
log_in_all-kept ((now, open_id, name, email) ∷ ls) a = ground (arith, log_in_all-kept ls a)

-- Whoever logs in first stays the only administrator: whatever logins follow, the same identity is
-- let in as the first registration, and another one is refused with the identity that has the seat.
pub register_first_wins :
    (now later : ℕ) (open_id other : String) (name email name' email' : Option String)
    (ls : List Login)
    → let seat = (register_or_check_admin now open_id name email []).0 in
      let after = log_in_all ls seat in
      (after ≡ seat)
      × ((register_or_check_admin later other name' email' after).1 ≡ (
          if open_id == other
          then (register_or_check_admin now open_id name email []).1
          else admin_seat_taken open_id))
unfolding register_or_check_admin
register_first_wins now later open_id other name email name' email' ls =
    rw (log_in_all-kept ls _) (refl, ground (arith, eq_iff open_id other))

find_gone :
    (t : String) (states : List OauthState)
    → find (λ s. s.state == t) (select (λ s. not (s.state == t)) states) ≡ none
unfolding find select
find_gone t [] = refl
find_gone t (s ∷ ss) = ground (arith, find_gone t ss)

consume-left :
    (now : ℕ) (state : Option String) (t : String) (states : List OauthState)
    → truthy state ≡ some t
    → (consume_oauth_state now state states).0 ≡ select (λ s. not (s.state == t)) states
unfolding consume_oauth_state
consume-left now state t states e = elim (Option-cases (find (λ s. s.state == t) states)) [
  | inl f ↦ rw (e, consume_oauth_state, f) refl
  | inr (row, f) ↦ elim (Bool-cases (leb row.expires_at now)) [
    | inl g ↦ rw (e, consume_oauth_state, f, g) refl
    | inr g ↦ rw (e, consume_oauth_state, f, g) refl
  ]
]

find_appended :
    {A : Type 0} (q : A → Bool) (rows : List A) (a : A)
    → any q rows ≡ false
    → find q (rows ++ a ∷ []) ≡ (if q a then some a else none)
unfolding find any
find_appended q [] a h = refl
find_appended q (r ∷ rs) a h = ground (arith, find_appended q rs a)

consume-row :
    (later : ℕ) (token : String) (states : List OauthState) (row : OauthState)
    → (token == "") ≡ false
    → find (λ s. s.state == token) states ≡ some row
    → (consume_oauth_state later (some token) states).1
      ≡ (if ltb later row.expires_at then (true, row.next) else (false, none))
unfolding consume_oauth_state
consume-row later token states row full found = elim (Bool-cases (leb row.expires_at later)) [
  | inl g ↦ rw (full, consume_oauth_state, found, g) (ground arith)
  | inr g ↦ rw (full, consume_oauth_state, found, g) (ground arith)
]

abbrev lives : ℕ → Session → Bool
lives later s = ltb later s.expires_at

get-find :
    (later : ℕ) (token : String) (sessions : List Session)
    → (token == "") ≡ false
    → get_session later (some token) sessions ≡ find (λ s. s.id == token && lives later s) sessions
unfolding get_session
get-find later token sessions full = rw (full, get_session) refl

find_stronger :
    {A : Type 0} (q p : A → Bool) (rows : List A) (a : A)
    → any q rows ≡ false
    → find (λ s. q s && p s) (rows ++ a ∷ []) ≡ (if q a && p a then some a else none)
unfolding find any
find_stronger q p [] a h = refl
find_stronger q p (r ∷ rs) a h = ground (arith, find_stronger q p rs a)

delete-find :
    (p : Session → Bool) (token : String) (sessions : List Session)
    → find (λ s. s.id == token && p s) (delete_session token sessions) ≡ none
unfolding find delete_session select
delete-find p token [] = refl
delete-find p token (s ∷ ss) = ground (arith, delete-find p token ss)

consume-unknown :
    (now : ℕ) (state : Option String) (t : String) (states : List OauthState)
    → truthy state ≡ some t
    → find (λ s. s.state == t) states ≡ none
    → (consume_oauth_state now state states).1 ≡ (false, none)
unfolding consume_oauth_state
consume-unknown now state t states e f = rw (e, consume_oauth_state, f) refl

-- A state is good for one login: whatever the first call answered, a second one finds nothing.
pub consume-consume :
    (now later : ℕ) (state : Option String) (states : List OauthState)
    → (consume_oauth_state later state (consume_oauth_state now state states).0).1 ≡ (false, none)
unfolding consume_oauth_state
consume-consume now later state states = elim (Option-cases (truthy state)) [
  | inl e ↦ rw (e, consume_oauth_state) refl
  | inr (t, e) ↦
      consume-unknown later state t _ e
        (rw (consume-left now state t states e) (find_gone t states))
]

-- The state of a login that was begun is accepted exactly up to the end of its time, with the page to
-- go on to.
pub create-consume :
    (ttl now later : ℕ) (token : String) (next : Option String) (sessions : List Session)
    (states : List OauthState)
    → (token == "") ≡ false
    → let made = create_oauth_state ttl now token next sessions states in
      made.2 ≡ some token
      → (consume_oauth_state later (some token) made.1).1
        ≡ (if ltb later (now + ttl) then (true, next) else (false, none))
unfolding create_oauth_state
create-consume ttl now later token next sessions states full h =
    let q : OauthState → Bool = λ s. s.state == token in
    let kept = purge_states now states in
    elim (Bool-cases (any q kept)) [
      | inl taken ↦
          let raised : none ≡ some token =
            subst (λ t. t ≡ some token) (rw (taken, create_oauth_state) refl) h in
          absurd (cc)
      | inr free ↦
          let row = new_state ttl now token next in
          let found : find q (kept ++ row ∷ []) ≡ some row =
            ground (arith, find_appended q kept row free, eq_refl token) in
          rw (free, create_oauth_state) (consume-row later token _ row full found)
    ]

-- A session that was created is found exactly up to the end of its time, and not after it was
-- deleted.
pub create-get_session :
    (ttl now later : ℕ) (token open_id : String) (sessions : List Session)
    (states : List OauthState) (session : Session)
    → (token == "") ≡ false
    → let made = create_session ttl now token open_id sessions states in
      made.2 ≡ some session
      → (get_session later (some token) made.0
          ≡ (if ltb later (now + ttl) then some session else none))
        × (get_session later (some token) (delete_session token made.0) ≡ none)
unfolding create_session
create-get_session ttl now later token open_id sessions states session full h =
    let q : Session → Bool = λ s. s.id == token in
    let kept = purge_sessions now sessions in
    elim (Bool-cases (any q kept)) [
      | inl taken ↦
          let raised : none ≡ some session =
            subst (λ t. t ≡ some session) (rw (taken, create_session) refl) h in
          absurd (cc)
      | inr free ↦
          let row = new_session ttl now token open_id in
          let made : some row ≡ some session =
            subst (λ t. t ≡ some session) (rw (free, create_session) refl) h in
          let same : row ≡ session = cc in
          rw⁻¹ same (
            rw (free, create_session)
              (
                rw (get-find later token (kept ++ row ∷ []) full)
                    (ground (arith, find_stronger q (lives later) kept row free, eq_refl token)),
                rw (get-find later token (delete_session token (kept ++ row ∷ [])) full)
                    (delete-find (lives later) token (kept ++ row ∷ [])),
              ))
    ]
