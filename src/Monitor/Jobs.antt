-- ===== src/Monitor/Jobs.antt =====
-- What the snapshot of app/api/monitor.py reads of the rows of `download_jobs`: the window, the days and
-- the provider that served a job. A dictionary is the list of its values in the order in which their
-- keys came; a day is its number since the epoch.
-- `parts` is `Path(text).parts`. A column with the JSON of a list of errors is the list.
use android_package_service.Base.{
  ℕ, zero, suc, ◌+◌, ◌-◌, ◌*◌, ◌/◌, String, Bool, true, false, ◌||◌, Option, none, some, List, [],
  ◌∷◌, ◌==◌, if◌then◌else◌, ltb, leb, eqb, select, update,
}
use android_package_service.Jobs.{Row, Status, queued, running, succeeded, failed}
use android_package_service.Filenames.{text_or_empty}
use android_package_service.Api.{relative_to, is_succeeded}

-- The microseconds of a day.
unfoldable pub day_length : ℕ
day_length = 86400000000

abbrev pub day_of : ℕ → ℕ
day_of t = t / day_length

abbrev pub is_failed : Status → Bool
is_failed failed = true
is_failed queued = false
is_failed running = false
is_failed succeeded = false

abbrev pub is_terminal : Row → Bool
is_terminal r = is_succeeded r.status || is_failed r.status

-- `_window_jobs`: from the first of the last days on.
unfoldable pub window_jobs : ℕ → ℕ → List Row → List Row
window_jobs now days rows =
    select (λ r. leb ((day_of now - (days - 1)) * day_length) r.created_at) rows

pub record Day : Type 0 where
  pub date : ℕ
  pub total : ℕ
  pub succeeded : ℕ
  pub failed : ℕ

-- The empty buckets of the last days, the oldest first.
unfoldable pub empty_days : ℕ → ℕ → List Day
empty_days zero today = []
empty_days (suc offset) today =
    record { date = today - offset; total = 0; succeeded = 0; failed = 0 } ∷ empty_days offset today

abbrev pub with_job : Status → Day → Day
with_job status d =
    if is_succeeded status
    then record d { total = d.total + 1; succeeded = d.succeeded + 1 }
    else record d { total = d.total + 1; failed = d.failed + 1 }

unfoldable pub fill_days : List Row → List Day → List Day
fill_days [] buckets = buckets
fill_days (r ∷ rs) buckets =
    fill_days rs (update (λ d. eqb d.date (day_of r.created_at)) (with_job r.status) buckets)

-- `_daily_series`
unfoldable pub daily_series : List Row → ℕ → ℕ → List Day
unfolding empty_days fill_days
daily_series terminal now days = fill_days terminal (empty_days days (day_of now))

-- The part behind the first part "artifacts".
unfoldable pub after_artifacts : List String → Option String
after_artifacts [] = none
after_artifacts (p ∷ []) = none
after_artifacts (p ∷ q ∷ ps) = if p == "artifacts" then some q else after_artifacts (q ∷ ps)

abbrev pub first_part : List String → Option String
first_part [] = none
first_part (p ∷ ps) = some p

module _ (parts : String → List String) (artifacts_dir : Option (List String)) where
  abbrev pub below_artifacts : List String → Option (List String) → Option String
  below_artifacts path none = after_artifacts path
  below_artifacts path (some below) = first_part below

  -- `_provider_from_artifact`
  unfoldable pub provider_from_artifact : Option String → Option String
  unfolding after_artifacts
  provider_from_artifact none = none
  provider_from_artifact (some text) = if text == "" then none else elim artifacts_dir [
    | none ↦ after_artifacts (parts text)
    | some dir ↦ below_artifacts (parts text) (relative_to dir (parts text))
  ]

  -- `_hit_provider`
  unfoldable pub hit_provider : Row → Option String
  unfolding provider_from_artifact
  hit_provider r =
      if text_or_empty r.succeeded_provider == ""
      then provider_from_artifact r.artifact_path
      else r.succeeded_provider

-- A stable sort: `precedes b a` when `b` stands strictly before `a`.
module _ {A : Type 0} (precedes : A → A → Bool) where
  unfoldable pub insert_by : A → List A → List A
  insert_by a [] = a ∷ []
  insert_by a (b ∷ bs) = if precedes b a then b ∷ insert_by a bs else a ∷ b ∷ bs

  unfoldable pub sort_by : List A → List A
  sort_by [] = []
  sort_by (a ∷ as') = insert_by a (sort_by as')

-- `sort(key=…, reverse=True)`
abbrev pub sort_descending : {A : Type 0} → (A → ℕ) → List A → List A
sort_descending key rows = sort_by (λ b a. ltb (key a) (key b)) rows
