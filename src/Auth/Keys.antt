-- ===== src/Auth/Keys.antt =====
-- What a key of the API opens: it does once created, and never after it was revoked.
use Prim.Native.String
use Prim.Native.String.append
use android_package_service.Base.{
  ℕ, ◌≤◌, String, ◌≡◌, refl, inl, inr, Bool, true, false, ◌||◌, Option, none, some, List, [], ◌∷◌,
  ◌++◌, ◌==◌, arith, All, In, find, any, count, update, count-update-le, count-update-eq,
  count-append, count-any, eq_iff, eq_refl, subst, only_row, count-pos, find-append, Option-cases,
  Bool-cases,
}
use android_package_service.Auth.{
  ApiKey, truthy, has_key_id, has_hash, live_hash, used, revoked, revocable, new_key,
  create_api_key, verify_api_key, revoke_api_key,
}

pub data Call : Type 0 where
  creates : String → String → String → Call
  verifies : Option String → Call
  revokes : String → Call

abbrev pub kept_keys : List ApiKey → Option (List ApiKey × ApiKey × String) → List ApiKey
kept_keys keys none = keys
kept_keys keys (some r) = r.0

module _ (hash_key : String → String) where
  unfoldable pub step : ℕ × Call → List ApiKey → List ApiKey
  step (now, creates key_id token name) keys =
      kept_keys keys (create_api_key hash_key now key_id token name keys)
  step (now, verifies raw) keys = (verify_api_key hash_key now raw keys).0
  step (now, revokes key_id) keys = (revoke_api_key now key_id keys).0

  unfoldable pub run : List (ℕ × Call) → List ApiKey → List ApiKey
  run [] keys = keys
  run (c ∷ cs) keys = run cs (step c keys)

-- The table has a key with this hash, and none of them is live.
abbrev pub IsRevoked : String → List ApiKey → Type 0
IsRevoked h keys = (1 ≤ count (has_hash h) keys) × (count (live_hash h) keys ≡ 0)

unchanged_hash :
    (h : String) (p : ApiKey → Bool) (f : ApiKey → ApiKey) (keys : List ApiKey)
    → ((k : ApiKey) → has_hash h (f k) ≡ has_hash h k)
    → ((k : ApiKey) → live_hash h (f k) ≡ true → live_hash h k ≡ true)
    → IsRevoked h keys
    → IsRevoked h (update p f keys)
unchanged_hash h p f keys same less (some_key, dead) =
    let all_same : All (λ r. p r ≡ true → has_hash h (f r) ≡ has_hash h r) keys = every keys in
    ground (
      arith,
      count-update-eq (has_hash h) p f keys all_same,
      count-update-le (live_hash h) p f keys (fewer keys),
    )
  where
    every : (l : List ApiKey) → All (λ r. p r ≡ true → has_hash h (f r) ≡ has_hash h r) l
    every [] = tt
    every (r ∷ rs) = (λ _. same r, every rs)

    fewer :
        (l : List ApiKey)
        → All (λ r. p r ≡ true → live_hash h (f r) ≡ true → live_hash h r ≡ true) l
    fewer [] = tt
    fewer (r ∷ rs) = (λ _. less r, fewer rs)

appended :
    (h : String) (keys : List ApiKey) (key : ApiKey)
    → has_hash h key ≡ false
    → IsRevoked h keys
    → IsRevoked h (keys ++ key ∷ [])
unfolding count
appended h keys key differs i =
    ground
      (arith, count-append (has_hash h) keys (key ∷ []), count-append (live_hash h) keys (key ∷ []))

find_live :
    (h : String) (keys : List ApiKey) → count (has_hash h) keys ≡ 0 → find (live_hash h) keys ≡ none
unfolding find count
find_live h [] e = refl
find_live h (k ∷ ks) e = ground (arith, find_live h ks)

not_empty : (token : String) → (String.◌++◌ "aps_" token == "") ≡ false
not_empty token = elim (Bool-cases (String.◌++◌ "aps_" token == "")) [
  | inl e ↦
      let split : String.◌++◌ "aps_" token ≡ String.◌∷◌ "a" (String.◌++◌ "ps_" token) =
        append.cons "a" "ps_" token in
      let empty : String.◌++◌ "aps_" token ≡ "" =
        ground (arith, e, eq_iff (String.◌++◌ "aps_" token) "") in
      absurd (cc)
  | inr e ↦ e
]

find_zero : {A : Type 0} (p : A → Bool) (rows : List A) → count p rows ≡ 0 → find p rows ≡ none
unfolding find count
find_zero p [] h = refl
find_zero p (r ∷ rs) h = ground (arith, find_zero p rs)

module _ (hash_key : String → String) where
  create_api_key-IsRevoked :
      (h : String) (now : ℕ) (key_id token name : String) (keys : List ApiKey)
      → IsRevoked h keys
      → IsRevoked h (kept_keys keys (create_api_key hash_key now key_id token name keys))
  unfolding create_api_key
  create_api_key-IsRevoked h now key_id token name keys i =
      let hash = hash_key (String.◌++◌ "aps_" token) in
      elim (Bool-cases (any (has_key_id key_id) keys || any (has_hash hash) keys)) [
        | inl taken ↦ rw (taken, create_api_key) i
        | inr free ↦
            let fresh : count (has_hash hash) keys ≡ 0 =
              count-any (has_hash hash) keys (ground arith) in
            let key = new_key hash_key now key_id name (String.◌++◌ "aps_" token) in
            let differs : (hash == h) ≡ false = ground (arith, eq_iff hash h, fresh, i) in
            rw (free, create_api_key) (appended h keys key differs i)
      ]

  verify_api_key-IsRevoked :
      (h : String) (now : ℕ) (raw : Option String) (keys : List ApiKey)
      → IsRevoked h keys
      → IsRevoked h (verify_api_key hash_key now raw keys).0
  unfolding verify_api_key
  verify_api_key-IsRevoked h now raw keys i = elim (Option-cases (truthy raw)) [
    | inl e ↦ rw (e, verify_api_key) i
    | inr (text, e) ↦ elim (Option-cases (find (live_hash (hash_key text)) keys)) [
      | inl f ↦ rw (e, verify_api_key, f) i
      | inr (row, f) ↦
          rw (e, verify_api_key, f) (unchanged_hash h _ (used now) keys (λ k. refl) (λ k t. t) i)
    ]
  ]

  revoke_api_key-IsRevoked :
      (h : String) (now : ℕ) (key_id : String) (keys : List ApiKey)
      → IsRevoked h keys
      → IsRevoked h (revoke_api_key now key_id keys).0
  unfolding revoke_api_key
  revoke_api_key-IsRevoked h now key_id keys i =
      unchanged_hash h _ (revoked now) keys (λ k. refl) (λ k t. ground arith) i

  run-IsRevoked :
      (h : String) (cs : List (ℕ × Call)) (keys : List ApiKey)
      → IsRevoked h keys
      → IsRevoked h (run hash_key cs keys)
  unfolding run step
  run-IsRevoked h [] keys i = i
  run-IsRevoked h ((now, creates key_id token name) ∷ cs) keys i =
      run-IsRevoked h cs _ (create_api_key-IsRevoked h now key_id token name keys i)
  run-IsRevoked h ((now, verifies raw) ∷ cs) keys i =
      run-IsRevoked h cs _ (verify_api_key-IsRevoked h now raw keys i)
  run-IsRevoked h ((now, revokes key_id) ∷ cs) keys i =
      run-IsRevoked h cs _ (revoke_api_key-IsRevoked h now key_id keys i)

  IsRevoked-verify :
      (now : ℕ) (raw : String) (keys : List ApiKey)
      → IsRevoked (hash_key raw) keys
      → verify_api_key hash_key now (some raw) keys ≡ (keys, none)
  unfolding verify_api_key
  IsRevoked-verify now raw keys i = elim (Bool-cases (raw == "")) [
    | inl e ↦ rw (e, verify_api_key) refl
    | inr e ↦ rw (e, verify_api_key, find_zero (live_hash (hash_key raw)) keys i.1) refl
  ]

  revoke-dead :
      (h : String) (now : ℕ) (key_id : String) (keys : List ApiKey)
      → All (λ k. has_hash h k ≡ true → (k.id == key_id) ≡ true) keys
      → count (live_hash h) (update (revocable key_id) (revoked now) keys) ≡ 0
  unfolding count update
  revoke-dead h now key_id [] a = refl
  revoke-dead h now key_id (k ∷ ks) a = ground (arith, a.0, revoke-dead h now key_id ks a.1)

  kept_hash :
      (h : String) (now : ℕ) (key_id : String) (keys : List ApiKey)
      → 1 ≤ count (has_hash h) keys
      → 1 ≤ count (has_hash h) (update (revocable key_id) (revoked now) keys)
  kept_hash h now key_id keys n =
      omega
        (arith, n, count-update-eq (has_hash h) (revocable key_id) (revoked now) keys (every keys))
    where
      every :
          (l : List ApiKey)
          → All (λ r. revocable key_id r ≡ true → has_hash h (revoked now r) ≡ has_hash h r) l
      every [] = tt
      every (r ∷ rs) = (λ _. refl, every rs)

  -- Once a key that alone has its hash was revoked, no text with this hash opens anything, whatever
  -- keys are created, used or revoked in between.
  pub revoked_forever :
      (now later : ℕ) (raw : String) (key : ApiKey) (cs : List (ℕ × Call)) (keys : List ApiKey)
      → In key keys
      → count (has_hash key.key_hash) keys ≤ 1
      → hash_key raw ≡ key.key_hash
      → let after = run hash_key cs (revoke_api_key now key.id keys).0 in
        verify_api_key hash_key later (some raw) after ≡ (after, none)
  unfolding revoke_api_key
  revoked_forever now later raw key cs keys i u e =
      let h = key.key_hash in
      let mine : All (λ k. has_hash h k ≡ true → (k.id == key.id) ≡ true) keys =
        only_row (has_hash h) (λ k. (k.id == key.id) ≡ true) keys key u i (eq_refl h)
          (eq_refl key.id) in
      let dead = revoke-dead h now key.id keys mine in
      let kept = kept_hash h now key.id keys (count-pos (has_hash h) keys key i (eq_refl h)) in
      let start : IsRevoked (hash_key raw) (revoke_api_key now key.id keys).0 = rw e (kept, dead) in
      IsRevoked-verify later raw _ (run-IsRevoked (hash_key raw) cs _ start)

  opens :
      (later : ℕ) (raw : String) (keys : List ApiKey) (key : ApiKey)
      → (raw == "") ≡ false
      → find (live_hash (hash_key raw)) keys ≡ none
      → key.key_hash ≡ hash_key raw
      → key.revoked_at ≡ none
      → (verify_api_key hash_key later (some raw) (keys ++ key ∷ [])).1 ≡ some (used later key)
  unfolding verify_api_key find
  opens later raw keys key full fresh e live =
      let found : find (live_hash (hash_key raw)) (keys ++ key ∷ []) ≡ some key = ground (
        arith,
        find-append (live_hash (hash_key raw)) keys (key ∷ []),
        fresh,
        e,
        live,
        eq_refl (hash_key raw),
      ) in
      rw (full, verify_api_key, found) refl

  -- The text that is shown once when a key is created opens as that key, with the time of its use.
  pub create-verify :
      (now later : ℕ) (key_id token name : String) (keys : List ApiKey)
      (r : List ApiKey × ApiKey × String)
      → create_api_key hash_key now key_id token name keys ≡ some r
      → (verify_api_key hash_key later (some r.2) r.0).1 ≡ some (used later r.1)
  unfolding create_api_key
  create-verify now later key_id token name keys r h =
      let raw = String.◌++◌ "aps_" token in
      let hash = hash_key raw in
      let key = new_key hash_key now key_id name raw in
      elim (Bool-cases (any (has_key_id key_id) keys || any (has_hash hash) keys)) [
        | inl taken ↦
            let raised : none ≡ some r =
              subst (λ t. t ≡ some r) (rw (taken, create_api_key) refl) h in
            absurd (cc)
        | inr free ↦
            let fresh = find_live hash keys (count-any (has_hash hash) keys (ground arith)) in
            let made : some (keys ++ key ∷ [], key, raw) ≡ some r =
              subst (λ t. t ≡ some r) (rw (free, create_api_key) refl) h in
            let same : (keys ++ key ∷ [], key, raw) ≡ r = cc in
            rw⁻¹ same (opens later raw keys key (not_empty token) fresh refl refl)
      ]
