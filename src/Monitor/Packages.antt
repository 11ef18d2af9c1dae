-- ===== src/Monitor/Packages.antt =====
-- `_per_package_stats` of app/api/monitor.py and the durations of the jobs.
use android_package_service.Base.{
  ℕ, ◌+◌, String, Option, none, some, List, [], ◌∷◌, ◌++◌, ◌==◌, if◌then◌else◌,
}
use android_package_service.Jobs.{Row}
use android_package_service.Api.{is_succeeded}
use android_package_service.Monitor.Durations.{ms}
use android_package_service.Monitor.Jobs.{is_terminal, sort_descending, sort_by}

pub record PackageItem : Type 0 where
  pub package_name : String
  pub total : ℕ
  pub succeeded : ℕ
  pub failed : ℕ
  pub durations : List ℕ

module _ (tenths : ℕ → ℕ) where
  abbrev pub duration_of : Row → Option ℕ
  duration_of r = ms tenths r.started_at r.finished_at

  abbrev pub with_duration : Option ℕ → List ℕ → List ℕ
  with_duration none ds = ds
  with_duration (some d) ds = ds ++ (d ∷ [])

  abbrev pub with_package_job : Row → PackageItem → PackageItem
  with_package_job r i =
      if is_succeeded r.status
      then record i {
        total = i.total + 1;
        succeeded = i.succeeded + 1;
        durations = with_duration (duration_of r) i.durations;
      }
      else record i { total = i.total + 1; failed = i.failed + 1 }

  unfoldable pub change_package : Row → List PackageItem → List PackageItem
  change_package r [] =
      with_package_job r (record {
        package_name = r.package_name;
        total = 0;
        succeeded = 0;
        failed = 0;
        durations = [];
      })
      ∷ []
  change_package r (i ∷ is) =
      if i.package_name == r.package_name
      then with_package_job r i ∷ is
      else i ∷ change_package r is

  unfoldable pub add_packages : List Row → List PackageItem → List PackageItem
  unfolding change_package
  add_packages [] items = items
  add_packages (r ∷ rs) items =
      add_packages rs (if is_terminal r then change_package r items else items)

  -- `_per_package_stats`; the statistics of an item are those of its durations.
  unfoldable pub per_package_stats : List Row → List PackageItem
  unfolding add_packages sort_by
  per_package_stats rows = sort_descending (λ i. i.total) (add_packages rows [])

  unfoldable pub success_durations : List Row → List ℕ
  success_durations [] = []
  success_durations (r ∷ rs) =
      if is_succeeded r.status
      then with_duration (duration_of r) [] ++ success_durations rs
      else success_durations rs
