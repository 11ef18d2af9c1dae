-- ===== src/Monitor/Ordered.antt =====
-- Facts about the sorted lists of app/api/monitor.py and the values at their positions.
use android_package_service.Base.{
  ℕ, zero, suc, ◌-◌, ◌≤◌, ◌<◌, ◌≡◌, refl, ◌∙◌, ap, inl, inr, some, List, [], ◌∷◌, arith, All,
  length, leb, Bool-cases,
}
use android_package_service.Manifest.{get_elem?}
use android_package_service.Monitor.{insert_sorted, sorted, last}

abbrev pub IsSorted : List ℕ → Type 0
IsSorted [] = Unit {0}
IsSorted (v ∷ vs) = All (λ w. v ≤ w) vs × IsSorted vs

pub All-insert_sorted :
    (P : ℕ → Type 0) (v : ℕ) (vs : List ℕ) → P v → All P vs → All P (insert_sorted v vs)
unfolding insert_sorted
All-insert_sorted P v [] p all = (p, tt)
All-insert_sorted P v (w ∷ ws) p all = elim (Bool-cases (leb v w)) [
  | inl le ↦ rw le (p, all)
  | inr gt ↦ rw gt (all.0, All-insert_sorted P v ws p all.1)
]

All-le : (v w : ℕ) (ws : List ℕ) → v ≤ w → All (λ x. w ≤ x) ws → All (λ x. v ≤ x) ws
All-le v w [] h all = tt
All-le v w (x ∷ xs) h all = (omega (arith, all.0), All-le v w xs h all.1)

insert_sorted-IsSorted : (v : ℕ) (vs : List ℕ) → IsSorted vs → IsSorted (insert_sorted v vs)
unfolding insert_sorted
insert_sorted-IsSorted v [] s = (tt, tt)
insert_sorted-IsSorted v (w ∷ ws) s = elim (Bool-cases (leb v w)) [
  | inl le ↦ let below : v ≤ w = ground arith in rw le ((below, All-le v w ws below s.0), s)
  | inr gt ↦
      let below : w ≤ v = ground arith in
      rw gt (All-insert_sorted (λ x. w ≤ x) v ws below s.0, insert_sorted-IsSorted v ws s.1)
]

pub sorted-IsSorted : (vs : List ℕ) → IsSorted (sorted vs)
unfolding sorted
sorted-IsSorted [] = tt
sorted-IsSorted (v ∷ vs) = insert_sorted-IsSorted v (sorted vs) (sorted-IsSorted vs)

length-insert_sorted : (v : ℕ) (vs : List ℕ) → length (insert_sorted v vs) ≡ suc (length vs)
unfolding insert_sorted
length-insert_sorted v [] = refl
length-insert_sorted v (w ∷ ws) = ground (arith, length-insert_sorted v ws)

pub length-sorted : (vs : List ℕ) → length (sorted vs) ≡ length vs
unfolding sorted
length-sorted [] = refl
length-sorted (v ∷ vs) = omega (arith, length-insert_sorted v (sorted vs), length-sorted vs)

-- A value at a position, 0 out of range.
abbrev pub nth : List ℕ → ℕ → ℕ
nth [] i = 0
nth (v ∷ vs) zero = v
nth (v ∷ vs) (suc i) = nth vs i

pub get_elem?-nth : (vs : List ℕ) (i : ℕ) → i < length vs → get_elem? vs i ≡ some (nth vs i)
unfolding get_elem?
get_elem?-nth [] i h = absurd (omega arith)
get_elem?-nth (v ∷ vs) zero h = refl
get_elem?-nth (v ∷ vs) (suc i) h = get_elem?-nth vs i (omega arith)

pub nth-above : (v : ℕ) (vs : List ℕ) (i : ℕ) → All (λ w. v ≤ w) vs → i < length vs → v ≤ nth vs i
nth-above v [] i all h = absurd (omega arith)
nth-above v (w ∷ ws) zero all h = all.0
nth-above v (w ∷ ws) (suc i) all h = nth-above v ws i all.1 (omega arith)

pub nth_mono : (vs : List ℕ) (i j : ℕ) → IsSorted vs → i ≤ j → j < length vs → nth vs i ≤ nth vs j
nth_mono [] i j s le h = absurd (omega arith)
nth_mono (v ∷ vs) zero zero s le h = omega arith
nth_mono (v ∷ vs) zero (suc j) s le h = nth-above v vs j s.0 (omega arith)
nth_mono (v ∷ vs) (suc i) zero s le h = absurd (omega arith)
nth_mono (v ∷ vs) (suc i) (suc j) s le h = nth_mono vs i j s.1 (omega arith) (omega arith)

last-nth : (v : ℕ) (vs : List ℕ) → last (v ∷ vs) ≡ some (nth (v ∷ vs) (length vs))
unfolding last
last-nth v [] = refl
last-nth v (w ∷ ws) = last-nth w ws

pub All-sorted : (P : ℕ → Type 0) (vs : List ℕ) → All P vs → All P (sorted vs)
unfolding sorted
All-sorted P [] all = tt
All-sorted P (v ∷ vs) all = All-insert_sorted P v (sorted vs) all.0 (All-sorted P vs all.1)

pub All-nth : (P : ℕ → Type 0) (vs : List ℕ) (i : ℕ) → All P vs → i < length vs → P (nth vs i)
All-nth P [] i all h = absurd (omega arith)
All-nth P (v ∷ vs) zero all h = all.0
All-nth P (v ∷ vs) (suc i) all h = All-nth P vs i all.1 (omega arith)

pub last-at : (vs : List ℕ) → 0 < length vs → last vs ≡ some (nth vs (length vs - 1))
last-at [] h = absurd (omega arith)
last-at (v ∷ vs) h = last-nth v vs ∙ ap (λ i. some (nth (v ∷ vs) i)) (omega arith)
