-- ===== src/Monitor/Days.antt =====
-- The buckets of `_daily_series` in app/api/monitor.py: every day of the window has one.
use android_package_service.Base.{
  ℕ, zero, suc, ◌+◌, ◌-◌, ◌*◌, ◌≤◌, ◌<◌, ◌≡◌, refl, ◌∙◌, Bool, true, List, [], ◌∷◌, arith, inl, inr,
  Bool-cases, count, update, select, All, eqb, leb, count-update-eq, All-of, All-map,
}
use android_package_service.Jobs.{Row}
use android_package_service.Api.{is_succeeded}
use android_package_service.Monitor.{
  day_of, day_length, window_jobs, Day, empty_days, with_job, fill_days, is_terminal,
}
use android_package_service.Monitor.Sums.{total_of, total_of-update, All-select, All-select_if}

abbrev pub is_day : ℕ → Day → Bool
is_day t d = eqb d.date t

count-empty_days_before :
    (n today t : ℕ) → n ≤ suc today → t + n < suc today → count (is_day t) (empty_days n today) ≡ 0
unfolding count empty_days
count-empty_days_before zero today t le h = refl
count-empty_days_before (suc n) today t le h =
    ground (arith, count-empty_days_before n today t (omega arith) (omega arith))

pub count-empty_days :
    (n today t : ℕ)
    → n ≤ suc today
    → suc today ≤ t + n
    → t ≤ today
    → count (is_day t) (empty_days n today) ≡ 1
unfolding count empty_days
count-empty_days zero today t le h last = absurd (omega arith)
count-empty_days (suc n) today t le h last = elim (Bool-cases (eqb (today - n) t)) [
  | inl here ↦
      let e : today - n ≡ t = ground arith in
      rw here (omega (arith, count-empty_days_before n today t (omega arith) (omega arith)))
  | inr elsewhere ↦
      let e : suc today ≤ t + n = ground arith in
      rw elsewhere (count-empty_days n today t (omega arith) e last)
]

with_job-date : (r : Row) (d : Day) → (with_job r.status d).date ≡ d.date
with_job-date r d = elim (Bool-cases (is_succeeded r.status)) [
  | inl y ↦ rw y refl
  | inr n ↦ rw n refl
]

-- Each job with a bucket of its day adds to the sums of the buckets.
pub total_of-fill_days :
    (key : Day → ℕ) (w : Row → ℕ)
    → ((r : Row) (d : Day) → key (with_job r.status d) ≡ key d + w r)
    → (rs : List Row) (buckets : List Day)
    → All (λ r. count (is_day (day_of r.created_at)) buckets ≡ 1) rs
    → total_of key (fill_days rs buckets) ≡ total_of key buckets + total_of w rs
unfolding fill_days total_of
total_of-fill_days key w adds [] buckets h = omega arith
total_of-fill_days key w adds (r ∷ rs) buckets h =
    let t = day_of r.created_at in
    let rest = update (is_day t) (with_job r.status) buckets in
    let kept =
      All-map _ _
        (λ q one.
          count-update-eq (is_day (day_of q.created_at)) (is_day t) (with_job r.status) buckets
            (All-of _ (λ d turn. rw (with_job-date r d) refl) buckets)
          ∙ one)
        rs h.1 in
    omega (
      arith,
      total_of-fill_days key w adds rs rest kept,
      total_of-update key (w r) (is_day t) (with_job r.status) buckets (adds r) h.0,
    )

pub total_of-empty_days :
    (key : Day → ℕ)
    → ((t : ℕ) → key (record { date = t; total = 0; succeeded = 0; failed = 0 }) ≡ 0)
    → (n today : ℕ) → total_of key (empty_days n today) ≡ 0
unfolding empty_days total_of
total_of-empty_days key fresh zero today = refl
total_of-empty_days key fresh (suc n) today =
    omega (arith, fresh (today - n), total_of-empty_days key fresh n today)

-- A row of the window was created on one of its days.
window-day :
    (created days today : ℕ)
    → leb ((today - (days - 1)) * day_length) created ≡ true
    → today - (days - 1) ≤ day_of created
unfolding day_length
window-day created days today h =
    let below : (today - (days - 1)) * day_length ≤ created = ground arith in omega arith

pub days_of_window :
    (now days : ℕ) (rows : List Row)
    → 1 ≤ days
    → days ≤ suc (day_of now)
    → All (λ r. day_of r.created_at ≤ day_of now) rows
    → All
        (λ r. count (is_day (day_of r.created_at)) (empty_days days (day_of now)) ≡ 1)
        (select is_terminal (window_jobs now days rows))
unfolding window_jobs
days_of_window now days rows least most past =
    All-select (λ r. count (is_day (day_of r.created_at)) (empty_days days (day_of now)) ≡ 1)
      is_terminal (window_jobs now days rows)
      (All-select_if (λ r. count (is_day (day_of r.created_at)) (empty_days days (day_of now)) ≡ 1)
        (λ r. leb ((day_of now - (days - 1)) * day_length) r.created_at) rows
        (All-map _ _
          (λ r late inside.
            let early = window-day r.created_at days (day_of now) inside in
            count-empty_days days (day_of now) (day_of r.created_at) most (omega arith) late)
          rows past))
