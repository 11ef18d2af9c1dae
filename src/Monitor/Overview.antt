-- ===== src/Monitor/Overview.antt =====
-- The snapshot of app/api/monitor.py: `snapshot`, `_overview` and `_analytics`. SQL leaves the order of
-- rows with equal keys open; here they keep the order of the table.
use android_package_service.Base.{
  ℕ, ◌+◌, ◌-◌, String, Bool, true, ◌&&◌, Option, none, some, List, [], ◌∷◌, if◌then◌else◌, ltb,
  length, map, count, select, is_some,
}
use android_package_service.Jobs.{Row, is_queued, is_running}
use android_package_service.Api.{is_succeeded}
use android_package_service.Ledger.{Entry}
use android_package_service.Catalog.State.{CollectionState}
use android_package_service.Catalog.Persist.{Database}
use android_package_service.Monitor.Durations.{
  Floats, Fraction, fraction_of, DurationStats, duration_stats,
}
use android_package_service.Monitor.Jobs.{
  is_failed, is_terminal, window_jobs, Day, daily_series, sort_descending,
}
use android_package_service.Monitor.Flow.{ProviderItem, count_name, providers}
use android_package_service.Monitor.Packages.{PackageItem, per_package_stats, success_durations}
use android_package_service.Monitor.Board.{Tasks, tasks}

pub record Totals : Type 0 where
  pub total : ℕ
  pub succeeded : ℕ
  pub failed : ℕ
  pub success_rate : Option Fraction

pub record Analytics (R : Type 0) : Type 0 where
  pub totals : Totals
  pub daily : List Day
  pub duration : DurationStats R
  pub per_package : List PackageItem

-- `_analytics`
unfoldable pub analytics : {R : Type 0} → Floats R → (ℕ → ℕ) → List Row → ℕ → ℕ → Analytics R
analytics floats tenths rows now days =
    let terminal = select is_terminal rows in
    let done = count (λ r. is_succeeded r.status) terminal in
    record {
      totals = record {
        total = length terminal;
        succeeded = done;
        failed = length terminal - done;
        success_rate = fraction_of done (length terminal);
      };
      daily = daily_series terminal now days;
      duration = duration_stats floats (success_durations tenths rows);
      per_package = per_package_stats tenths rows;
    }

-- The names with the number of times each occurs.
unfoldable pub counted : List String → List (String × ℕ)
counted [] = []
counted (n ∷ ns) = count_name n (counted ns)

pub record JobCounts : Type 0 where
  pub queued : ℕ
  pub running : ℕ
  pub succeeded : ℕ
  pub failed : ℕ
  pub total : ℕ

unfoldable pub job_counts : List Row → JobCounts
job_counts rows =
    let q = count (λ r. is_queued r.status) rows in
    let w = count (λ r. is_running r.status) rows in
    let s = count (λ r. is_succeeded r.status) rows in
    let f = count (λ r. is_failed r.status) rows in
    record { queued = q; running = w; succeeded = s; failed = f; total = q + w + s + f }

-- The lease has no end, or it ends after the time.
abbrev pub open_lease : Option ℕ → ℕ → Bool
open_lease none now = true
open_lease (some t) now = ltb now t

abbrev pub is_collecting : ℕ → CollectionState → Bool
is_collecting now s = is_some s.collecting_owner && open_lease s.lease_expires now

abbrev pub later : Option ℕ → Option ℕ → Option ℕ
later none t = t
later (some s) none = some s
later (some s) (some t) = if ltb s t then some t else some s

unfoldable pub latest_refresh : List CollectionState → Option ℕ
latest_refresh [] = none
latest_refresh (s ∷ ss) = later s.last_refresh_at (latest_refresh ss)

pub record Overview : Type 0 where
  pub packages : ℕ
  pub total : ℕ
  pub downloadable : ℕ
  pub known_only : ℕ
  pub sources : List (String × ℕ)
  pub ledger_facts : ℕ
  pub jobs : JobCounts
  pub tracked_packages : ℕ
  pub collecting_now : ℕ
  pub last_refresh_at : Option ℕ

-- `_overview`
unfoldable pub overview : Database → List Entry → List Row → ℕ → Overview
unfolding counted latest_refresh
overview db ledger rows now =
    let downloadable = count (λ v. v.downloadable) db.versions in
    record {
      packages = length (counted (map (λ v. v.package_name) db.versions));
      total = length db.versions;
      downloadable = downloadable;
      known_only = length db.versions - downloadable;
      sources = sort_descending (λ e. e.1) (counted (map (λ s. s.source) db.sources));
      ledger_facts = length ledger;
      jobs = job_counts rows;
      tracked_packages = length db.states;
      collecting_now = count (is_collecting now) db.states;
      last_refresh_at = latest_refresh db.states;
    }

pub record Snapshot (R : Type 0) : Type 0 where
  pub generated_at : ℕ
  pub window_days : ℕ
  pub overview : Overview
  pub tasks : Tasks
  pub providers : List ProviderItem
  pub analytics : Analytics R

module _ {R : Type 0} (floats : Floats R) (tenths : ℕ → ℕ) (hit : Row → Option String) where
  -- `snapshot`
  unfoldable pub snapshot : ℕ → ℕ → ℕ → ℕ → Database → List Entry → List Row → Snapshot R
  snapshot active_limit recent_limit days now db ledger rows =
      let window = window_jobs now days rows in
      record {
        generated_at = now;
        window_days = days;
        overview = overview db ledger rows now;
        tasks = tasks tenths hit active_limit recent_limit now rows;
        providers = providers hit window;
        analytics = analytics floats tenths window now days;
      }
