-- ===== src/Aptoide/Splits.antt =====
-- The files that app/providers/aptoide.py lists have different addresses.
use android_package_service.Base.{
  ◌≤◌, ◌≡◌, refl, sym, ap, subst, String, Bool, true, false, some, List, [], ◌∷◌, ◌==◌, ◌⊎◌, inl,
  inr, any, count, All, holds_text, arith, Bool-cases, Option-cases, eq_iff,
}
use android_package_service.Domain.{ProviderError, PackageFile, split_apk}
use android_package_service.Orchestrator.{Outcome, returned, provider_exception, exception}
use android_package_service.Json.{Json, Fields, get, str_or_none}
use android_package_service.Json.Access.{dict_of}
use android_package_service.Aptoide.{
  Texts, named_split, split_file, split_files, add_file, named_or_url, Step, ◌>>=◌,
}

-- The file is at the address.
abbrev pub at : String → PackageFile → Bool
at url f = holds_text f.url url

pub Outcome-cases :
    {A : Type 0} (o : Outcome A)
    → ((a : A) × (o ≡ returned a))
      ⊎ (((e : ProviderError) × (o ≡ provider_exception e)) ⊎ ((t : String) × (o ≡ exception t)))
Outcome-cases (returned a) = inl (a, refl)
Outcome-cases (provider_exception e) = inr (inl (e, refl))
Outcome-cases (exception t) = inr (inr (t, refl))

-- What follows a step that returned.
pub bind-returned :
    {W A B : Type 0} (m : Step W A) (f : A → Step W B) (w : W) (b : B)
    → ((m >>= f) w).1 ≡ returned b
    → (a : A) × ((m w).1 ≡ returned a) × ((f a (m w).0).1 ≡ returned b)
bind-returned m f w b h = elim (Outcome-cases (m w).1) [
  | inl (a, e) ↦ (a, e, rw (e, ◌>>=◌) at h)
  | inr (inl (x, e)) ↦ absurd (cc (rw (e, ◌>>=◌) at h))
  | inr (inr (t, e)) ↦ absurd (cc (rw (e, ◌>>=◌) at h))
]

-- The split of an outcome has the kind and the address that it was made for.
split_file-returned :
    (texts : Texts) (meta : List (String × String)) (split : Fields) (url : String)
    (f : PackageFile)
    → split_file texts meta split url ≡ returned f
    → (f.kind ≡ split_apk) × (f.url ≡ some url)
split_file-returned texts meta split url f h =
    elim (Outcome-cases (named_or_url texts (str_or_none (get "name" split)) url)) [
      | inl (name, e) ↦
          let same : named_split texts meta split url name ≡ f = cc (rw (e, split_file) at h) in
          (sym (ap (λ (g : PackageFile). g.kind) same), sym (ap (λ (g : PackageFile). g.url) same))
      | inr (inl (x, e)) ↦ absurd (cc (rw (e, split_file) at h))
      | inr (inr (t, e)) ↦ absurd (cc (rw (e, split_file) at h))
    ]

add_file-returned :
    (texts : Texts) (o : Outcome PackageFile) (os : Outcome (List PackageFile))
    (fs : List PackageFile)
    → add_file texts o os ≡ returned fs
    → (f : PackageFile) × (rest : List PackageFile) × (o ≡ returned f)
      × (os ≡ returned rest)
      × (fs ≡ f ∷ rest)
add_file-returned texts (returned f) (returned rest) fs h = (f, rest, refl, refl, cc)
add_file-returned texts (returned f) (provider_exception e) fs h = absurd (cc)
add_file-returned texts (returned f) (exception t) fs h = absurd (cc)
add_file-returned texts (provider_exception e) os fs h = absurd (cc)
add_file-returned texts (exception t) os fs h = absurd (cc)

-- The splits at addresses that were not seen, each at its own.
pub record IsFresh (seen : List String) (fs : List PackageFile) : Type 0 where
  pub kinds : All (λ f. f.kind ≡ split_apk) fs
  pub once : (u : String) → count (at u) fs ≤ 1
  pub unseen : (u : String) → any (λ s. s == u) seen ≡ true → count (at u) fs ≡ 0

IsFresh-nil : (seen : List String) → IsFresh seen []
unfolding count
IsFresh-nil seen = record { kinds = tt; once = λ u. omega arith; unseen = λ u h. refl }

IsFresh-cons :
    (seen : List String) (url : String) (f : PackageFile) (fs : List PackageFile)
    → f.kind ≡ split_apk
    → f.url ≡ some url
    → any (λ s. s == url) seen ≡ false
    → IsFresh (url ∷ seen) fs
    → IsFresh seen (f ∷ fs)
unfolding count any
IsFresh-cons seen url f fs k e new fresh = record {
  kinds = (k, fresh.kinds);
  once = λ u. elim (Bool-cases (url == u)) [
    | inl y ↦
        let others : count (at u) fs ≡ 0 = fresh.unseen u (rw y refl) in rw (e, y) (omega arith)
    | inr n ↦ rw (e, n) (fresh.once u)
  ];
  unseen = λ u h. elim (Bool-cases (url == u)) [
    | inl y ↦ absurd (cc (new, h, ap (λ v. any (λ s. s == v) seen) ((eq_iff url u).0 y)))
    | inr n ↦ rw (e, n) (fresh.unseen u (rw n h))
  ];
}

pub split_files-IsFresh :
    (texts : Texts) (meta : List (String × String)) (seen : List String) (values : List Json)
    (fs : List PackageFile)
    → split_files texts meta seen values ≡ returned fs
    → IsFresh seen fs
unfolding split_files
split_files-IsFresh texts meta seen [] fs h =
    subst (λ gs. IsFresh seen gs) (cc h) (IsFresh-nil seen)
split_files-IsFresh texts meta seen (value ∷ rest) fs h = elim (Outcome-cases (dict_of value)) [
  | inl (split, e) ↦ elim (Option-cases (str_or_none (get "path" split))) [
    | inl gone ↦ split_files-IsFresh texts meta seen rest fs (rw (e, gone, split_files) at h)
    | inr (url, there) ↦ elim (Bool-cases (any (λ s. s == url) seen)) [
      | inl again ↦
          split_files-IsFresh texts meta seen rest fs (rw (e, there, again, split_files) at h)
      | inr new ↦
          let added =
            add_file-returned texts (split_file texts meta split url)
              (split_files texts meta (url ∷ seen) rest) fs
              (rw (e, there, new, split_files) at h) in
          let (f, others, one, more, same) = added in
          let (kind, address) = split_file-returned texts meta split url f one in
          subst (λ gs. IsFresh seen gs) (sym same)
            (IsFresh-cons seen url f others kind address new
              (split_files-IsFresh texts meta (url ∷ seen) rest others more))
    ]
  ]
  | inr (inl (x, e)) ↦ absurd (cc (rw (e, split_files) at h))
  | inr (inr (t, e)) ↦ absurd (cc (rw (e, split_files) at h))
]
