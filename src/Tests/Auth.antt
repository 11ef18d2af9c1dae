-- ===== src/Tests/Auth.antt =====
-- Runs of app/auth/service.py.
use android_package_service.Base.{
  ℕ, String, ◌≡◌, refl, inl, true, false, none, some, List, [], ◌∷◌, arith, count,
}
use android_package_service.Auth.{
  AdminUser, ApiKey, new_key, verify_api_key, revoke_api_key, Session, OauthState, new_session,
  consume_oauth_state,
}
use android_package_service.Auth.Keys.{Call, creates, verifies, run, revoked_forever}
use android_package_service.Auth.Gates.{Settings, Request}
use android_package_service.Auth.Logins.{consume-consume}

-- A hash that tells texts apart.
abbrev marked_text : String → String
marked_text s = s

abbrev issued : ApiKey
issued = new_key marked_text 5 "k1" "ci" "aps_token"

abbrev calls : List (ℕ × Call)
calls = (11, verifies (some "aps_token")) ∷ (12, creates "k2" "other" "cd") ∷ []

revoked_forever_example :
    let after = run marked_text calls (revoke_api_key 10 "k1" (issued ∷ [])).0 in
    verify_api_key marked_text 20 (some "aps_token") after ≡ (after, none)
unfolding count
revoked_forever_example =
    revoked_forever marked_text 10 20 "aps_token" issued calls (issued ∷ []) (inl refl)
      (omega arith) refl

abbrev pending : List OauthState
pending = record { state = "s"; created_at = 0; expires_at = 600; next = some "/admin" } ∷ []

consume-consume_example :
    (consume_oauth_state 20 (some "s") (consume_oauth_state 10 (some "s") pending).0).1
    ≡ (false, none)
consume-consume_example = consume-consume 10 20 (some "s") pending

abbrev the_admin : AdminUser
the_admin = record { open_id = "ou_a"; name = none; email = none; created_at = 0 }

abbrev logged_in : List Session
logged_in = new_session 100 60 "sid" "ou_a" ∷ []

abbrev visit : Request
visit = record {
  session_cookie = some "sid";
  authorization = none;
  api_key_header = some "aps_token";
  path = "/";
  query = "";
}

abbrev closed : Settings
closed = record { auth_enabled = true; auth_api_key_enabled = true }
