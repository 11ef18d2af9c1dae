-- ===== src/Filenames/Safe.antt =====
-- What `safe_part` makes safe.
use Prim.Native.Char.{Char}
use Prim.Native.String.{String}
use android_package_service.Base.{◌≡◌, refl, inl, inr, Bool, true, false, Bool-cases}
use android_package_service.Filenames.{
  is_edge, is_safe, replace_runs, strip_left, strip_right, drop_edge, or_fallback, safe_part,
}

-- Letters, digits, `.`, `_` and `-`.
abbrev pub IsSafe : String → Type 0
IsSafe String.[] = Unit
IsSafe (String.◌∷◌ c s) = (is_safe c ≡ true) × IsSafe s

-- Not empty, and no dot or underscore at the front.
abbrev pub StartsFirm : String → Type 0
StartsFirm String.[] = ⊥
StartsFirm (String.◌∷◌ c s) = is_edge c ≡ false

replace_runs-IsSafe : (begun : Bool) (s : String) → IsSafe (replace_runs begun s)
unfolding replace_runs
replace_runs-IsSafe begun String.[] = tt
replace_runs-IsSafe begun (String.◌∷◌ c s) = elim (Bool-cases (is_safe c)) [
  | inl safe ↦ rw safe (safe, replace_runs-IsSafe false s)
  | inr other ↦ elim (Bool-cases begun) [
    | inl more ↦ rw (other, more) (replace_runs-IsSafe true s)
    | inr first ↦ rw (other, first) (refl, replace_runs-IsSafe true s)
  ]
]

strip_left-IsSafe : (s : String) → IsSafe s → IsSafe (strip_left s)
unfolding strip_left
strip_left-IsSafe String.[] h = tt
strip_left-IsSafe (String.◌∷◌ c s) h = elim (Bool-cases (is_edge c)) [
  | inl edge ↦ rw edge (strip_left-IsSafe s h.1)
  | inr firm ↦ rw firm h
]

drop_edge-IsSafe : (c : Char) (s : String) → is_safe c ≡ true → IsSafe s → IsSafe (drop_edge c s)
drop_edge-IsSafe c String.[] e h = elim (Bool-cases (is_edge c)) [
  | inl edge ↦ rw edge tt
  | inr firm ↦ rw firm (e, tt)
]
drop_edge-IsSafe c (String.◌∷◌ d s) e h = (e, h)

strip_right-IsSafe : (s : String) → IsSafe s → IsSafe (strip_right s)
unfolding strip_right
strip_right-IsSafe String.[] h = tt
strip_right-IsSafe (String.◌∷◌ c s) h =
    drop_edge-IsSafe c (strip_right s) h.0 (strip_right-IsSafe s h.1)

-- Empty, or not with an edge at the front.
abbrev StartsFirmOrEmpty : String → Type 0
StartsFirmOrEmpty String.[] = Unit
StartsFirmOrEmpty (String.◌∷◌ c s) = is_edge c ≡ false

strip_left-Firm : (s : String) → StartsFirmOrEmpty (strip_left s)
unfolding strip_left
strip_left-Firm String.[] = tt
strip_left-Firm (String.◌∷◌ c s) = elim (Bool-cases (is_edge c)) [
  | inl edge ↦ rw edge (strip_left-Firm s)
  | inr firm ↦ rw firm firm
]

drop_edge-Firm : (c : Char) (s : String) → is_edge c ≡ false → StartsFirmOrEmpty (drop_edge c s)
drop_edge-Firm c String.[] e = rw e e
drop_edge-Firm c (String.◌∷◌ d s) e = e

strip_right-Firm : (s : String) → StartsFirmOrEmpty s → StartsFirmOrEmpty (strip_right s)
unfolding strip_right
strip_right-Firm String.[] h = tt
strip_right-Firm (String.◌∷◌ c s) h = drop_edge-Firm c (strip_right s) h

or_fallback-Firm :
    (s f : String) → StartsFirmOrEmpty s → StartsFirm f → StartsFirm (or_fallback s f)
or_fallback-Firm String.[] f h k = k
or_fallback-Firm (String.◌∷◌ c s) f h k = h

or_fallback-IsSafe : (s f : String) → IsSafe s → IsSafe f → IsSafe (or_fallback s f)
or_fallback-IsSafe String.[] f h k = k
or_fallback-IsSafe (String.◌∷◌ c s) f h k = h

-- Whatever the text, a part of a path is made of letters, digits, dots, underscores and hyphens, is
-- not empty and does not begin with a dot or an underscore, if the fallback is such a part: so it is
-- never `.` or `..` and has no separator.
pub safe_part-IsSafe :
    (text fallback : String)
    → IsSafe fallback
    → StartsFirm fallback
    → IsSafe (safe_part text fallback) × StartsFirm (safe_part text fallback)
unfolding safe_part
safe_part-IsSafe text fallback h k =
    let replaced = replace_runs false (or_fallback text fallback) in
    let stripped = strip_left replaced in
    let safe = strip_left-IsSafe replaced (replace_runs-IsSafe false (or_fallback text fallback)) in
    (
      or_fallback-IsSafe (strip_right stripped) fallback (strip_right-IsSafe stripped safe) h,
      or_fallback-Firm (strip_right stripped) fallback
          (strip_right-Firm stripped (strip_left-Firm replaced)) k,
    )

-- A text that is safe already stays as it is but for what is stripped.
replace_runs_safe : (s : String) → IsSafe s → replace_runs false s ≡ s
unfolding replace_runs
replace_runs_safe String.[] h = refl
replace_runs_safe (String.◌∷◌ c s) h = rw (h.0, replace_runs_safe s h.1) refl

strip_left_firm : (s : String) → StartsFirmOrEmpty s → strip_left s ≡ s
unfolding strip_left
strip_left_firm String.[] h = refl
strip_left_firm (String.◌∷◌ c s) h = rw h refl

drop_edge-drop_edge :
    (c : Char) (s : String) → strip_right s ≡ s → strip_right (drop_edge c s) ≡ drop_edge c s
unfolding strip_right
drop_edge-drop_edge c String.[] h = elim (Bool-cases (is_edge c)) [
  | inl edge ↦ rw edge refl
  | inr firm ↦ rw firm (rw firm refl)
]
drop_edge-drop_edge c (String.◌∷◌ d s) h = rw h refl

strip_right-strip_right : (s : String) → strip_right (strip_right s) ≡ strip_right s
unfolding strip_right
strip_right-strip_right String.[] = refl
strip_right-strip_right (String.◌∷◌ c s) =
    drop_edge-drop_edge c (strip_right s) (strip_right-strip_right s)

or_fallback_firm : (s f : String) → StartsFirm s → or_fallback s f ≡ s
or_fallback_firm String.[] f h = absurd h
or_fallback_firm (String.◌∷◌ c s) f h = refl

Firm-weaken : (s : String) → StartsFirm s → StartsFirmOrEmpty s
Firm-weaken String.[] h = tt
Firm-weaken (String.◌∷◌ c s) h = h

or_fallback-strip_right :
    (s f : String)
    → strip_right s ≡ s
    → strip_right f ≡ f
    → strip_right (or_fallback s f) ≡ or_fallback s f
or_fallback-strip_right String.[] f h k = k
or_fallback-strip_right (String.◌∷◌ c s) f h k = h

-- Making a part safe a second time changes nothing, if the fallback is such a part and does not end
-- with a dot or an underscore.
pub safe_part-safe_part :
    (text fallback : String)
    → IsSafe fallback
    → StartsFirm fallback
    → strip_right fallback ≡ fallback
    → safe_part (safe_part text fallback) fallback ≡ safe_part text fallback
unfolding safe_part
safe_part-safe_part text fallback h k e =
    let part = safe_part text fallback in
    let inner = strip_left (replace_runs false (or_fallback text fallback)) in
    let (safe, firm) = safe_part-IsSafe text fallback h k in
    let stripped : strip_right part ≡ part =
      or_fallback-strip_right (strip_right inner) fallback (strip_right-strip_right inner) e in
    rw
      (
        or_fallback_firm part fallback firm,
        replace_runs_safe part safe,
        strip_left_firm part (Firm-weaken part firm),
        stripped,
      )
      (or_fallback_firm part fallback firm)
