-- ===== src/Completion/Facts.antt =====
-- What the completion of a request adds, and that two requests for one version share a download lock.
use android_package_service.Base.{
  ℕ, ◌≤◌, String, ◌≡◌, refl, inl, inr, ◌⊎◌, Bool, true, false, Option, none, some, List, [], ◌∷◌,
  arith, All, In, select, All-map, All-In, ap, ◌∙◌, subst, le_trans, Option-cases, Bool-cases,
}
use android_package_service.Domain.{AndroidPackageRequest}
use android_package_service.Ledger.{Entry}
use android_package_service.Catalog.Versions.{Version}
use android_package_service.Completion.{
  highest, higher, named_entry, named_version, lookup_code, fill, complete, lock_version_key,
}

abbrev pub request : String → Option ℕ → Option String → Option String → AndroidPackageRequest
request p c n preferred = record {
  package_name = p;
  version_code = c;
  version_name = n;
  preferred_provider = preferred;
}

-- A known code is at most `c`.
abbrev pub IsUpTo : ℕ → Option ℕ → Type 0
IsUpTo c none = Unit
IsUpTo c (some d) = d ≤ c

module _ {A : Type 0} (code : A → Option ℕ) where
  All-IsUpTo :
      (c d : ℕ) (rs : List A)
      → c ≤ d
      → All (λ r. IsUpTo c (code r)) rs
      → All (λ r. IsUpTo d (code r)) rs
  All-IsUpTo c d rs h a = All-map _ _ (λ r. raise_one (code r)) rs a
    where
      raise_one : (o : Option ℕ) → IsUpTo c o → IsUpTo d o
      raise_one none u = tt
      raise_one (some e) u = le_trans u h

  highest-none :
      (c : ℕ) (rows : List A) → highest code rows ≡ none → All (λ r. IsUpTo c (code r)) rows
  unfolding highest
  highest-none c [] h = tt
  highest-none c (r ∷ rs) h = elim (Option-cases (code r)) [
    | inl e ↦ ground (arith, highest-none c rs)
    | inr (d, e) ↦ ground (arith, highest-none c rs)
  ]

  higher-IsUpTo : (c d : Option ℕ) (e : ℕ) → higher c d ≡ some e → IsUpTo e c × IsUpTo e d
  higher-IsUpTo none none e h = (tt, tt)
  higher-IsUpTo none (some d) e h = (tt, ground arith)
  higher-IsUpTo (some c) none e h = (ground arith, tt)
  higher-IsUpTo (some c) (some d) e h = (ground arith, ground arith)

  higher_one : (c d : Option ℕ) (e : ℕ) → higher c d ≡ some e → (c ≡ some e) ⊎ (d ≡ some e)
  higher_one none d e h = inr h
  higher_one (some c) none e h = inl h
  higher_one (some c) (some d) e h = ground arith

  highest-IsUpTo-All :
      (rows : List A) (c : ℕ) → highest code rows ≡ some c → All (λ r. IsUpTo c (code r)) rows
  unfolding highest
  highest-IsUpTo-All [] c h = tt
  highest-IsUpTo-All (r ∷ rs) c h =
      let both = higher-IsUpTo (code r) (highest code rs) c h in
      elim (Option-cases (highest code rs)) [
        | inl g ↦ (both.0, highest-none c rs g)
        | inr (b, g) ↦
            (both.0, All-IsUpTo b c rs (subst (IsUpTo c) g both.1) (highest-IsUpTo-All rs b g))
      ]

  highest-In :
      (rows : List A) (c : ℕ) → highest code rows ≡ some c → (r : A) × In r rows × (code r ≡ some c)
  unfolding highest
  highest-In [] c h = absurd (cc)
  highest-In (r ∷ rs) c h = elim (higher_one (code r) (highest code rs) c h) [
    | inl e ↦ (r, inl refl, e)
    | inr e ↦ let (a, i, f) = highest-In rs c e in (a, inr i, f)
  ]

highest-IsUpTo :
    {A : Type 0} (code : A → Option ℕ) (rows : List A) (b c : ℕ)
    → highest code rows ≡ some b
    → All (λ r. IsUpTo c (code r)) rows
    → b ≤ c
highest-IsUpTo code rows b c h up =
    let (a, i, f) = highest-In code rows b h in
    let known : IsUpTo c (code a) = All-In _ rows a up i in ground (arith, known, f)

highest_top :
    {A : Type 0} (code : A → Option ℕ) (rows : List A) (a : A) (c : ℕ)
    → In a rows
    → code a ≡ some c
    → All (λ r. IsUpTo c (code r)) rows
    → highest code rows ≡ some c
unfolding highest
highest_top code [] a c i e up = absurd i
highest_top code (r ∷ rs) a c (inl g) e up = elim (Option-cases (highest code rs)) [
  | inl n ↦ ground (arith, ap code g)
  | inr (b, n) ↦ ground (arith, ap code g, highest-IsUpTo code rs b c n up.1)
]
highest_top code (r ∷ rs) a c (inr i) e up = elim (Option-cases (code r)) [
  | inl n ↦ ground (arith, highest_top code rs a c i e up.1)
  | inr (d, n) ↦ ground (arith, highest_top code rs a c i e up.1, up.0)
]

In-select :
    {A : Type 0} (p : A → Bool) (rows : List A) (a : A)
    → In a rows
    → p a ≡ true
    → In a (select p rows)
unfolding select
In-select p [] a i h = absurd i
In-select p (r ∷ rs) a (inl e) h = ground arith
In-select p (r ∷ rs) a (inr i) h = ground (arith, In-select p rs a i h)

All-select :
    {A : Type 0} (P : A → Type 0) (p : A → Bool) (rows : List A)
    → All (λ r. p r ≡ true → P r) rows
    → All P (select p rows)
unfolding select
All-select P p [] h = tt
All-select P p (r ∷ rs) h = elim (Bool-cases (p r)) [
  | inl e ↦ rw e (h.0 e, All-select P p rs h.1)
  | inr e ↦ rw e (All-select P p rs h.1)
]

-- A request by name and a request by code are completed to one download lock, if the ledger has the
-- name with that code and with no higher one.
pub lock_version_key_shared :
    (str : ℕ → String) (ledger : List Entry) (versions : List Version) (p n : String) (e : Entry)
    (preferred : Option String)
    → In e ledger
    → named_entry p n e ≡ true
    → All (λ r. named_entry p n r ≡ true → r.version_code ≤ e.version_code) ledger
    → let by_name = complete ledger versions (request p none (some n) preferred) in
      let by_code = complete ledger versions (request p (some e.version_code) none preferred) in
      (lock_version_key str by_name ≡ some (str e.version_code))
      × (lock_version_key str by_code ≡ some (str e.version_code))
unfolding complete fill lookup_code
lock_version_key_shared str ledger versions p n e preferred i h up =
    let known = select (named_entry p n) ledger in
    let top =
      highest_top (λ r. some r.version_code) known e e.version_code (In-select _ ledger e i h) refl
        (All-select _ (named_entry p n) ledger up) in
    (rw top refl, refl)

select-hit :
    {A : Type 0} (p : A → Bool) (r : A) (rs : List A)
    → p r ≡ true
    → select p (r ∷ rs) ≡ r ∷ select p rs
unfolding select
select-hit p r rs e = rw (e, select) refl

select-miss :
    {A : Type 0} (p : A → Bool) (r : A) (rs : List A)
    → p r ≡ false
    → select p (r ∷ rs) ≡ select p rs
unfolding select
select-miss p r rs e = rw (e, select) refl

select-In :
    {A : Type 0} (p : A → Bool) (rows : List A) (a : A)
    → In a (select p rows)
    → In a rows × (p a ≡ true)
unfolding select
select-In p [] a i = absurd i
select-In p (r ∷ rs) a i = elim (Bool-cases (p r)) [
  | inl e ↦ elim (subst (In a) (select-hit p r rs e) i) [
    | inl same ↦ (inl same, ap p same ∙ e)
    | inr i' ↦ let (j, t) = select-In p rs a i' in (inr j, t)
  ]
  | inr e ↦ let (j, t) = select-In p rs a (subst (In a) (select-miss p r rs e) i) in (inr j, t)
]

-- The highest code of the name in a table.
abbrev pub KnownCode : {A : Type 0} → (A → Option ℕ) → (A → Bool) → List A → ℕ → Type 0
KnownCode code p rows c =
    ((r : _) × In r rows × (p r ≡ true) × (code r ≡ some c))
    × All (λ r. IsUpTo c (code r)) (select p rows)

highest-KnownCode :
    {A : Type 0} (code : A → Option ℕ) (p : A → Bool) (rows : List A) (c : ℕ)
    → highest code (select p rows) ≡ some c
    → KnownCode code p rows c
highest-KnownCode code p rows c h =
    let (r, i, e) = highest-In code (select p rows) c h in
    let (j, t) = select-In p rows r i in ((r, j, t, e), highest-IsUpTo-All code (select p rows) c h)

-- A code that a request by name is given is the highest that the ledger has for the name, or, if the
-- ledger has none, the highest that the collected versions have for it.
pub complete_by_name :
    (ledger : List Entry) (versions : List Version) (p n : String) (preferred : Option String)
    (c : ℕ)
    → (complete ledger versions (request p none (some n) preferred)).version_code ≡ some c
    → KnownCode (λ e. some e.version_code) (named_entry p n) ledger c
      ⊎ ((highest (λ e. some e.version_code) (select (named_entry p n) ledger) ≡ none)
          × KnownCode (λ v. v.version_code) (named_version p n) versions c)
unfolding complete fill lookup_code
complete_by_name ledger versions p n preferred c h =
    elim (Option-cases (highest (λ e. some e.version_code) (select (named_entry p n) ledger))) [
      | inl e ↦
          let found : highest (λ v. v.version_code) (select (named_version p n) versions) ≡ some c =
            subst (λ t. t ≡ some c) (rw (e, lookup_code) refl) h in
          inr (e, highest-KnownCode _ (named_version p n) versions c found)
      | inr (d, e) ↦
          let same : some d ≡ some c = subst (λ t. t ≡ some c) (rw (e, lookup_code) refl) h in
          inl (highest-KnownCode _ (named_entry p n) ledger c (e ∙ same))
    ]
