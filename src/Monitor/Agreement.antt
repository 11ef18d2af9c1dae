-- ===== src/Monitor/Agreement.antt =====
-- The parts of the snapshot of app/api/monitor.py agree with each other and with the table.
use android_package_service.Base.{
  ℕ, suc, ◌+◌, ◌≤◌, ◌≡◌, refl, ◌∙◌, not, Option, List, [], arith, inl, inr, String, Bool-cases,
  count, select, All, ltb,
}
use android_package_service.Jobs.{Row}
use android_package_service.Api.{is_succeeded}
use android_package_service.Monitor.{
  day_of, is_terminal, window_jobs, Day, with_job, empty_days, daily_series, PackageItem,
  with_package_job, add_packages, per_package_stats, success_durations, sum, no_counts,
  bucket_edges, duration_stats, ProviderItem, providers, attempts_of, add_rows, Analytics,
  analytics, Floats,
}
use android_package_service.Monitor.Ordered.{length-sorted}
use android_package_service.Monitor.Sums.{
  one_if, total_of, total_of-one, total_of-count, total_of-rest, total_of-sort_by, IsDescending,
  sort_descending-IsDescending, All-sort_by,
}
use android_package_service.Monitor.Days.{
  is_day, total_of-fill_days, total_of-empty_days, days_of_window,
}
use android_package_service.Monitor.Tallies.{
  new_package, total_of-add_packages, length-success_durations, sum-fill_buckets,
}
use android_package_service.Monitor.Items.{
  AreDistinct, AreDistinct-nil, add_rows-AreDistinct, sort_by-AreDistinct,
}
use android_package_service.Monitor.Attempts.{
  successes_of, failures_of, IsCounted, total_of-add_rows, add_rows-IsCounted,
}

-- How many jobs succeeded, how many did not, and how many there are.
abbrev pub wins : Row → ℕ
wins r = one_if (is_succeeded r.status)

abbrev pub losses : Row → ℕ
losses r = one_if (not (is_succeeded r.status))

module _ (tenths : ℕ → ℕ) where
  with_job-adds :
      (r : Row) (d : Day)
      → ((with_job r.status d).total ≡ d.total + 1)
        × ((with_job r.status d).succeeded ≡ d.succeeded + wins r)
        × ((with_job r.status d).failed ≡ d.failed + losses r)
  with_job-adds r d = elim (Bool-cases (is_succeeded r.status)) [
    | inl y ↦ rw y (refl, refl, omega arith)
    | inr n ↦ rw n (refl, omega arith, refl)
  ]

  with_package_job-adds :
      (r : Row) (i : PackageItem)
      → ((with_package_job tenths r i).total ≡ i.total + 1)
        × ((with_package_job tenths r i).succeeded ≡ i.succeeded + wins r)
        × ((with_package_job tenths r i).failed ≡ i.failed + losses r)
  with_package_job-adds r i = elim (Bool-cases (is_succeeded r.status)) [
    | inl y ↦ rw y (refl, refl, omega arith)
    | inr n ↦ rw n (refl, omega arith, refl)
  ]

-- The days and the packages add up to the totals, and the histogram to the number of durations.
pub record IsConsistent {R : Type 0} (a : Analytics R) : Type 0 where
  pub days_total : total_of (λ d. d.total) a.daily ≡ a.totals.total
  pub days_succeeded : total_of (λ d. d.succeeded) a.daily ≡ a.totals.succeeded
  pub days_failed : total_of (λ d. d.failed) a.daily ≡ a.totals.failed
  pub packages_total : total_of (λ i. i.total) a.per_package ≡ a.totals.total
  pub packages_succeeded : total_of (λ i. i.succeeded) a.per_package ≡ a.totals.succeeded
  pub packages_failed : total_of (λ i. i.failed) a.per_package ≡ a.totals.failed
  pub outcomes : a.totals.succeeded + a.totals.failed ≡ a.totals.total
  pub timed : a.duration.count ≤ a.totals.succeeded
  pub histogram : sum a.duration.histogram ≡ a.duration.count
  pub busiest_first : IsDescending (λ i. i.total) a.per_package

module _ (tenths : ℕ → ℕ) (rows : List Row) where
  total_of-packages :
      (key : PackageItem → ℕ) (w : Row → ℕ)
      → ((r : Row) → key (new_package r) ≡ 0)
      → ((r : Row) (i : PackageItem) → key (with_package_job tenths r i) ≡ key i + w r)
      → total_of key (per_package_stats tenths rows) ≡ total_of w (select is_terminal rows)
  unfolding per_package_stats total_of
  total_of-packages key w fresh adds = omega (
    arith,
    total_of-add_packages tenths key w fresh adds rows [],
    total_of-sort_by key (λ b a. ltb a.total b.total) (add_packages tenths rows []),
  )

  per_package_stats-IsDescending : IsDescending (λ i. i.total) (per_package_stats tenths rows)
  unfolding per_package_stats
  per_package_stats-IsDescending =
      sort_descending-IsDescending (λ i. i.total) (add_packages tenths rows [])

total_of-days :
    (key : Day → ℕ) (w : Row → ℕ)
    → ((t : ℕ) → key (record { date = t; total = 0; succeeded = 0; failed = 0 }) ≡ 0)
    → ((r : Row) (d : Day) → key (with_job r.status d) ≡ key d + w r)
    → (now days : ℕ) (rows : List Row)
    → All (λ r. count (is_day (day_of r.created_at)) (empty_days days (day_of now)) ≡ 1) rows
    → total_of key (daily_series rows now days) ≡ total_of w rows
unfolding daily_series
total_of-days key w fresh adds now days rows h = omega (
  arith,
  total_of-fill_days key w adds rows (empty_days days (day_of now)) h,
  total_of-empty_days key fresh days (day_of now),
)

-- If the window has a day and starts after the epoch, and no job was created after today, the days
-- and the packages of the analytics add up to the totals, no more durations are counted than jobs
-- succeeded, the histogram counts each of them, and the packages with most jobs come first.
pub analytics-IsConsistent :
    {R : Type 0} (floats : Floats R) (tenths : ℕ → ℕ) (now days : ℕ) (rows : List Row)
    → 1 ≤ days
    → days ≤ suc (day_of now)
    → All (λ r. day_of r.created_at ≤ day_of now) rows
    → IsConsistent (analytics floats tenths (window_jobs now days rows) now days)
unfolding analytics duration_stats
analytics-IsConsistent floats tenths now days rows least most past =
    let window = window_jobs now days rows in
    let terminal = select is_terminal window in
    let inside = days_of_window now days rows least most past in
    let durations = success_durations tenths window in
    let won = λ (r : Row). is_succeeded r.status in
    let one = total_of-one terminal in
    let wins_all = total_of-count won terminal in
    let rest = total_of-rest won terminal in
    record {
      days_total =
          total_of-days (λ d. d.total) (λ r. 1) (λ t. refl) (λ r d. (with_job-adds tenths r d).0)
            now days terminal inside
          ∙ one;
      days_succeeded =
          total_of-days (λ d. d.succeeded) wins (λ t. refl) (λ r d. (with_job-adds tenths r d).1)
            now days terminal inside
          ∙ wins_all;
      days_failed = omega (
        arith,
        rest,
        total_of-days (λ d. d.failed) losses (λ t. refl) (λ r d. (with_job-adds tenths r d).2) now
            days terminal inside,
      );
      packages_total =
          total_of-packages tenths window (λ i. i.total) (λ r. 1) (λ r. refl)
            (λ r i. (with_package_job-adds tenths r i).0)
          ∙ one;
      packages_succeeded =
          total_of-packages tenths window (λ i. i.succeeded) wins (λ r. refl)
            (λ r i. (with_package_job-adds tenths r i).1)
          ∙ wins_all;
      packages_failed = omega (
        arith,
        rest,
        total_of-packages tenths window (λ i. i.failed) losses (λ r. refl)
            (λ r i. (with_package_job-adds tenths r i).2),
      );
      outcomes = omega (arith, rest);
      timed = omega (arith, length-sorted durations, length-success_durations tenths window);
      histogram = omega (
        arith,
        length-sorted durations,
        sum-fill_buckets durations (no_counts bucket_edges) refl,
      );
      busiest_first = per_package_stats-IsDescending tenths window;
    }

-- Every success and every failure of the rows is in one item, which also has each of its failures
-- under an error code, each provider has one item, and the items with most attempts come first.
pub record IsBalanced (hit : Row → Option String) (rows : List Row) (items : List ProviderItem)
    : Type 0 where
  pub successes : total_of (λ i. i.successes) items ≡ total_of (successes_of hit) rows
  pub failures : total_of (λ i. i.failures) items ≡ total_of failures_of rows
  pub by_code : All IsCounted items
  pub one_item : AreDistinct items
  pub busiest_first : IsDescending attempts_of items

-- The successes of the items add up to the jobs that succeeded with a known provider, their failures
-- to the errors of the failed jobs; the error codes of an item add up to its failures; no provider has
-- two items; the items with most attempts come first.
pub providers-IsBalanced :
    (hit : Row → Option String) (rows : List Row) → IsBalanced hit rows (providers hit rows)
unfolding providers total_of
providers-IsBalanced hit rows =
    let precedes = λ (b a : ProviderItem). ltb (attempts_of a) (attempts_of b) in
    let items = add_rows hit rows [] in
    let sums = total_of-add_rows hit rows [] in
    record {
      successes = omega (arith, total_of-sort_by (λ i. i.successes) precedes items, sums.0);
      failures = omega (arith, total_of-sort_by (λ i. i.failures) precedes items, sums.1);
      by_code = All-sort_by IsCounted precedes items (add_rows-IsCounted hit rows [] tt);
      one_item =
          sort_by-AreDistinct precedes items (add_rows-AreDistinct hit rows [] AreDistinct-nil);
      busiest_first = sort_descending-IsDescending attempts_of items;
    }
