-- ===== src/Monitor/Percentiles.antt =====
-- The statistics of app/api/monitor.py stand on the durations themselves, whatever the arithmetic.
use android_package_service.Base.{ℕ, ◌-◌, ◌≤◌, ◌≡◌, ◌⊎◌, Option, some, List, All, In, length}
use android_package_service.Monitor.{Floats, weighted, rank_of, DurationStats}

-- The integers up to this one, 2 ^ 53, are floats.
abbrev pub exact_integers : ℕ
exact_integers = 9007199254740992

-- A share of some values leaves a rank among them: the product with a constant of at most one is
-- not rounded above an integer that a float holds.
abbrev pub IsShare : {R : Type 0} → Floats R → R → Type 0
IsShare floats pct =
    (n : ℕ)
    → n ≤ exact_integers
    → (floats.floor (rank_of floats n pct) ≤ floats.ceil (rank_of floats n pct))
      × (floats.ceil (rank_of floats n pct) ≤ n)

-- The percentile is one of the durations, or weighs two of them, by the distances of the rank from the
-- integers below and above it.
pub record IsDrawn {R : Type 0} (floats : Floats R) (durations : List ℕ) (pct : R) (o : Option R)
    : Type 0 where
  pub low : ℕ
  pub high : ℕ
  pub low_in : In low durations
  pub high_in : In high durations
  pub in_order : low ≤ high
  pub value :
      (o ≡ some (floats.tenth low))
      ⊎ (let rank = rank_of floats (length durations - 1) pct in
          o ≡ some (weighted floats rank (floats.floor rank) (floats.ceil rank) low high))

-- The statistics of some durations.
pub record IsSummary {R : Type 0} (floats : Floats R) (durations : List ℕ) (s : DurationStats R)
    : Type 0 where
  pub counted : s.count ≡ length durations
  pub greatest : ℕ
  pub is_max : s.max_ms ≡ some greatest
  pub greatest_in : In greatest durations
  pub none_above : All (λ d. d ≤ greatest) durations
  pub p50 : IsDrawn floats durations floats.half s.p50_ms
  pub p90 : IsDrawn floats durations floats.nine_tenths s.p90_ms
  pub p95 : IsDrawn floats durations floats.nineteen_twentieths s.p95_ms
