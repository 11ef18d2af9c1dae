-- ===== src/Monitor/Durations.antt =====
-- The durations of app/api/monitor.py: `_ms`, `_percentile` and `_duration_stats`. A duration is a
-- number of tenths of a millisecond, which `tenths` rounds a number of microseconds to. The percentiles
-- are computed with any arithmetic `Floats`; the other quotients are exact fractions, before they are
-- rounded for the reply.
use android_package_service.Base.{
  ℕ, zero, suc, ◌+◌, ◌-◌, ◌*◌, Option, none, some, List, [], ◌∷◌, if◌then◌else◌, ltb, leb, eqb,
  length,
}
use android_package_service.Manifest.{get_elem?}

pub record Fraction : Type 0 where
  pub numerator : ℕ
  pub denominator : ℕ

-- `round(n / d, …) if d else None`
abbrev pub fraction_of : ℕ → ℕ → Option Fraction
fraction_of n zero = none
fraction_of n (suc d) = some (record { numerator = n; denominator = suc d })

-- `_ms`; a negative duration is none.
unfoldable pub ms : (ℕ → ℕ) → Option ℕ → Option ℕ → Option ℕ
ms tenths none end = none
ms tenths (some start) none = none
ms tenths (some start) (some end) = if leb start end then some (tenths (end - start)) else none

unfoldable pub insert_sorted : ℕ → List ℕ → List ℕ
insert_sorted v [] = v ∷ []
insert_sorted v (w ∷ ws) = if leb v w then v ∷ w ∷ ws else w ∷ insert_sorted v ws

-- `sorted(durations)`
unfoldable pub sorted : List ℕ → List ℕ
sorted [] = []
sorted (v ∷ vs) = insert_sorted v (sorted vs)

-- The floating-point numbers: `float` of an integer, the duration of so many tenths, the arithmetic,
-- `math.floor` and `math.ceil` of a number that is not negative, and the constants 0.50, 0.90 and 0.95.
pub record Floats (R : Type 0) : Type 0 where
  pub nat : ℕ → R
  pub tenth : ℕ → R
  pub plus : R → R → R
  pub minus : R → R → R
  pub times : R → R → R
  pub floor : R → ℕ
  pub ceil : R → ℕ
  pub half : R
  pub nine_tenths : R
  pub nineteen_twentieths : R

module _ {R : Type 0} (floats : Floats R) where
  -- `sorted_vals[low] * (high - rank) + sorted_vals[high] * (rank - low)`
  abbrev pub weighted : R → ℕ → ℕ → ℕ → ℕ → R
  weighted rank low high v w =
      floats.plus (floats.times (floats.tenth v) (floats.minus (floats.nat high) rank))
        (floats.times (floats.tenth w) (floats.minus rank (floats.nat low)))

  abbrev pub blend : R → ℕ → ℕ → Option ℕ → Option ℕ → Option R
  blend rank low high none w = none
  blend rank low high (some v) none = none
  blend rank low high (some v) (some w) = some (weighted rank low high v w)

  abbrev pub value_of : Option ℕ → Option R
  value_of none = none
  value_of (some v) = some (floats.tenth v)

  abbrev pub rank_of : ℕ → R → R
  rank_of n pct = floats.times (floats.nat n) pct

  abbrev pub at_rank : List ℕ → R → Option R
  at_rank values rank =
      let low = floats.floor rank in
      let high = floats.ceil rank in
      if eqb low high
      then value_of (get_elem? values low)
      else blend rank low high (get_elem? values low) (get_elem? values high)

  -- `_percentile`; an index out of range, which raises, is none.
  unfoldable pub percentile : List ℕ → R → Option R
  percentile [] pct = none
  percentile (v ∷ []) pct = some (floats.tenth v)
  percentile (v ∷ w ∷ vs) pct = at_rank (v ∷ w ∷ vs) (rank_of (suc (length vs)) pct)

-- `_DURATION_BUCKETS`: the edges in seconds; the last bucket is open.
abbrev pub bucket_edges : List ℕ
bucket_edges = 5 ∷ 15 ∷ 30 ∷ 60 ∷ 180 ∷ 600 ∷ []

-- The counts of the buckets after one more duration.
unfoldable pub add_to_bucket : List ℕ → ℕ → List ℕ → List ℕ
add_to_bucket edges value [] = []
add_to_bucket [] value (c ∷ cs) = suc c ∷ cs
add_to_bucket (edge ∷ edges) value (c ∷ cs) =
    if ltb value (edge * 10000) then suc c ∷ cs else c ∷ add_to_bucket edges value cs

abbrev pub no_counts : List ℕ → List ℕ
no_counts [] = 0 ∷ []
no_counts (edge ∷ edges) = 0 ∷ no_counts edges

unfoldable pub fill_buckets : List ℕ → List ℕ → List ℕ
fill_buckets [] counts = counts
fill_buckets (value ∷ values) counts = fill_buckets values (add_to_bucket bucket_edges value counts)

unfoldable pub sum : List ℕ → ℕ
sum [] = 0
sum (v ∷ vs) = v + sum vs

unfoldable pub last : List ℕ → Option ℕ
last [] = none
last (v ∷ []) = some v
last (v ∷ w ∷ ws) = last (w ∷ ws)

pub record DurationStats (R : Type 0) : Type 0 where
  pub count : ℕ
  pub avg_ms : Option Fraction
  pub p50_ms : Option R
  pub p90_ms : Option R
  pub p95_ms : Option R
  pub max_ms : Option ℕ
  pub histogram : List ℕ

-- The order does not change the sum; without durations everything is none.
unfoldable pub duration_stats : {R : Type 0} → Floats R → List ℕ → DurationStats R
unfolding sum last fill_buckets percentile
duration_stats floats durations =
    let ordered = sorted durations in
    record {
      count = length ordered;
      avg_ms = fraction_of (sum ordered) (length ordered);
      p50_ms = percentile floats ordered floats.half;
      p90_ms = percentile floats ordered floats.nine_tenths;
      p95_ms = percentile floats ordered floats.nineteen_twentieths;
      max_ms = last ordered;
      histogram = fill_buckets durations (no_counts bucket_edges);
    }
