-- ===== src/Collectors/Bounds.antt =====
-- The least and the greatest of some texts.
use android_package_service.Base.{
  ◌≡◌, refl, sym, subst, String, Bool, true, false, Option, none, some, List, [], ◌∷◌, ◌++◌, ◌==◌,
  inl, inr, ◌⊎◌, All, In, All-In, arith, Bool-cases,
}
use android_package_service.Collectors.{
  text_le, least, greatest, Range, present, with_bounds, merge_dates,
}

pub text_le_refl : (s : String) → text_le s s ≡ true
unfolding text_le
text_le_refl String.[] = refl
text_le_refl (String.◌∷◌ c s) = ground (arith, text_le_refl s)

text_le_total : (s t : String) → text_le s t ≡ false → text_le t s ≡ true
unfolding text_le
text_le_total String.[] t h = absurd cc
text_le_total (String.◌∷◌ c s) String.[] h = refl
text_le_total (String.◌∷◌ c s) (String.◌∷◌ d t) h = ground (arith, text_le_total s t)

pub text_le_trans : (s t u : String) → text_le s t ≡ true → text_le t u ≡ true → text_le s u ≡ true
unfolding text_le
text_le_trans String.[] t u h k = refl
text_le_trans (String.◌∷◌ c s) String.[] u h k = absurd cc
text_le_trans (String.◌∷◌ c s) (String.◌∷◌ d t) String.[] h k = absurd cc
text_le_trans (String.◌∷◌ c s) (String.◌∷◌ d t) (String.◌∷◌ e u) h k =
    ground (arith, text_le_trans s t u)

-- A member that the order puts before every member.
abbrev pub IsExtreme : (String → String → Bool) → String → List String → Type 0
IsExtreme le m ds = In m ds × All (λ d. le m d ≡ true) ds

abbrev pub text_ge : String → String → Bool
text_ge s t = text_le t s

-- A text that the order puts after one that is there changes no bound.
module _ (le : String → String → Bool)
    (trans : (s t u : String) → le s t ≡ true → le t u ≡ true → le s u ≡ true) where
  put_second :
      (m s t : String) (ts : List String)
      → le s t ≡ true
      → IsExtreme le m (s ∷ ts)
      → IsExtreme le m (s ∷ t ∷ ts)
  put_second m s t ts h (inl e, all) = (inl e, (all.0, (trans m s t all.0 h, all.1)))
  put_second m s t ts h (inr i, all) = (inr (inr i), (all.0, (trans m s t all.0 h, all.1)))

  put_first :
      (m s t : String) (ts : List String)
      → le t s ≡ true
      → IsExtreme le m (t ∷ ts)
      → IsExtreme le m (s ∷ t ∷ ts)
  put_first m s t ts h e = (inr e.0, (trans m t s e.1.0 h, (e.1.0, e.1.1)))

text_ge_trans : (s t u : String) → text_ge s t ≡ true → text_ge t u ≡ true → text_ge s u ≡ true
text_ge_trans s t u h k = text_le_trans u t s k h

least-IsExtreme : (s : String) (ts : List String) → IsExtreme text_le (least s ts) (s ∷ ts)
unfolding least
least-IsExtreme s [] = (inl refl, (text_le_refl s, tt))
least-IsExtreme s (t ∷ ts) = elim (Bool-cases (text_le s t)) [
  | inl y ↦
      let turn : least s (t ∷ ts) ≡ least s ts = rw y refl in
      subst (λ m. IsExtreme text_le m (s ∷ t ∷ ts)) (sym turn)
        (put_second text_le text_le_trans (least s ts) s t ts y (least-IsExtreme s ts))
  | inr n ↦
      let turn : least s (t ∷ ts) ≡ least t ts = rw n refl in
      subst (λ m. IsExtreme text_le m (s ∷ t ∷ ts)) (sym turn)
        (put_first text_le text_le_trans (least t ts) s t ts (text_le_total s t n)
          (least-IsExtreme t ts))
]

greatest-IsExtreme : (s : String) (ts : List String) → IsExtreme text_ge (greatest s ts) (s ∷ ts)
unfolding greatest
greatest-IsExtreme s [] = (inl refl, (text_le_refl s, tt))
greatest-IsExtreme s (t ∷ ts) = elim (Bool-cases (text_le s t)) [
  | inl y ↦
      let turn : greatest s (t ∷ ts) ≡ greatest t ts = rw y refl in
      subst (λ m. IsExtreme text_ge m (s ∷ t ∷ ts)) (sym turn)
        (put_first text_ge text_ge_trans (greatest t ts) s t ts y (greatest-IsExtreme t ts))
  | inr n ↦
      let turn : greatest s (t ∷ ts) ≡ greatest s ts = rw n refl in
      subst (λ m. IsExtreme text_ge m (s ∷ t ∷ ts)) (sym turn)
        (put_second text_ge text_ge_trans (greatest s ts) s t ts (text_le_total s t n)
          (greatest-IsExtreme s ts))
]

All-from_In : {A : Type 0} (P : A → Type 0) (ds : List A) → ((d : A) → In d ds → P d) → All P ds
All-from_In P [] h = tt
All-from_In P (d ∷ ds) h = (h d (inl refl), All-from_In P ds (λ e i. h e (inr i)))

-- Lists with the same bounds.
IsExtreme-transfer :
    (le : String → String → Bool) (m : String) (cs ds : List String)
    → ((s t u : String) → le s t ≡ true → le t u ≡ true → le s u ≡ true)
    → IsExtreme le m cs
    → ((x : String) → In x cs → In x ds)
    → ((d : String) → In d ds → (x : String) × In x cs × (le x d ≡ true))
    → IsExtreme le m ds
IsExtreme-transfer le m cs ds trans e into below = (
  into m e.0,
  All-from_In (λ d. le m d ≡ true) ds
      (λ d i. let x = below d i in trans m x.0 d (All-In (λ c. le m c ≡ true) cs x.0 e.1 x.1) x.2),
)

-- A text as the bound of a list, and none as that of the empty list.
abbrev pub IsBound : (String → String → Bool) → Option String → List String → Type 0
IsBound le none ds = ds ≡ []
IsBound le (some m) ds = IsExtreme le m ds

-- The range goes from the first to the last of the dates.
abbrev pub IsSpan : Range → List String → Type 0
IsSpan r ds = IsBound text_le r.first ds × IsBound text_ge r.last ds

abbrev pub IsPresent : String → Type 0
IsPresent d = (d == "") ≡ false

with_bounds-IsSpan : (name : String) (ds : List String) → IsSpan (with_bounds name ds) ds
with_bounds-IsSpan name [] = (refl, refl)
with_bounds-IsSpan name (d ∷ ds) = (least-IsExtreme d ds, greatest-IsExtreme d ds)

module _ {A : Type 0} (a : A) where
  In-left : (xs ys : List A) → In a xs → In a (xs ++ ys)
  In-left [] ys i = absurd i
  In-left (x ∷ xs) ys (inl e) = inl e
  In-left (x ∷ xs) ys (inr i) = inr (In-left xs ys i)

  In-right : (xs ys : List A) → In a ys → In a (xs ++ ys)
  In-right [] ys i = i
  In-right (x ∷ xs) ys i = inr (In-right xs ys i)

  In-either : (xs ys : List A) → In a (xs ++ ys) → In a xs ⊎ In a ys
  In-either [] ys i = inr i
  In-either (x ∷ xs) ys (inl e) = inl (inl e)
  In-either (x ∷ xs) ys (inr i) = elim (In-either xs ys i) [ inl j ↦ inl (inr j) | inr j ↦ inr j ]

-- The bounds of two members and more dates are members of all the dates.
from_members :
    (f l : String) (p ds : List String)
    → In f ds
    → In l ds
    → (x : String) → In x (f ∷ l ∷ p)
    → In x (ds ++ p)
from_members f l p ds i j x (inl e) = In-left x ds p (rw e i)
from_members f l p ds i j x (inr (inl e)) = In-left x ds p (rw e j)
from_members f l p ds i j x (inr (inr k)) = In-right x ds p k

merge_bounds :
    (name : String) (f l : Option String) (p ds : List String)
    → All IsPresent ds
    → IsBound text_le f ds
    → IsBound text_ge l ds
    → IsSpan (with_bounds name (present f ++ present l ++ p)) (ds ++ p)
merge_bounds name none none p ds shown e e' =
    subst (λ xs. IsSpan (with_bounds name p) (xs ++ p)) (sym e) (with_bounds-IsSpan name p)
merge_bounds name none (some l) p ds shown e last = absurd (subst (λ xs. In l xs) e last.0)
merge_bounds name (some f) none p ds shown first e = absurd (subst (λ xs. In f xs) e first.0)
merge_bounds name (some f) (some l) p ds shown first last =
    let f_present = All-In IsPresent ds f shown first.0 in
    let l_present = All-In IsPresent ds l shown last.0 in
    let into = from_members f l p ds first.0 last.0 in
    rw (f_present, l_present)
      (
        IsExtreme-transfer text_le (least f (l ∷ p)) (f ∷ l ∷ p) (ds ++ p) text_le_trans
            (least-IsExtreme f (l ∷ p)) into
            (λ d i. elim (In-either d ds p i) [
              | inl j ↦ (f, inl refl, All-In (λ c. text_le f c ≡ true) ds d first.1 j)
              | inr j ↦ (d, inr (inr j), text_le_refl d)
            ]),
        IsExtreme-transfer text_ge (greatest f (l ∷ p)) (f ∷ l ∷ p) (ds ++ p) text_ge_trans
            (greatest-IsExtreme f (l ∷ p)) into
            (λ d i. elim (In-either d ds p i) [
              | inl j ↦ (l, inr (inl refl), All-In (λ c. text_ge l c ≡ true) ds d last.1 j)
              | inr j ↦ (d, inr (inr j), text_le_refl d)
            ]),
      )

-- A range with one more date goes from the first to the last of all the dates.
pub merge_dates-IsSpan :
    (r : Range) (ds : List String) (date : Option String)
    → All IsPresent ds
    → IsSpan r ds
    → IsSpan (merge_dates r date) (ds ++ present date)
unfolding merge_dates
merge_dates-IsSpan r ds date shown span =
    merge_bounds r.name r.first r.last (present date) ds shown span.0 span.1
