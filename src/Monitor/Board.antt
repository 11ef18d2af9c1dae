-- ===== src/Monitor/Board.antt =====
-- The board of tasks of app/api/monitor.py: `_tasks` and `_job_to_dict`. SQL leaves the order of rows
-- with equal keys open; here they keep the order of the table.
use android_package_service.Base.{
  ℕ, suc, String, Bool, ◌&&◌, ◌||◌, Option, none, some, List, ltb, eqb, map, select,
}
use android_package_service.Domain.{ProviderError}
use android_package_service.Manifest.{take}
use android_package_service.Jobs.{
  Row, Status, queued, running, succeeded, failed, is_queued, is_running,
}
use android_package_service.Api.{is_succeeded}
use android_package_service.Monitor.Durations.{ms}
use android_package_service.Monitor.Jobs.{is_failed, sort_by}
use android_package_service.Monitor.Flow.{errors_or_none}

pub record JobCard : Type 0 where
  pub id : String
  pub package_name : String
  pub version_code : Option ℕ
  pub version_name : Option String
  pub requested_provider : Option String
  pub succeeded_provider : Option String
  pub status : Status
  pub worker : Option String
  pub error : Option String
  pub provider_errors : List ProviderError
  pub created_at : ℕ
  pub started_at : Option ℕ
  pub finished_at : Option ℕ
  pub updated_at : ℕ
  pub queue_wait_ms : Option ℕ
  pub download_ms : Option ℕ
  pub elapsed_ms : Option ℕ

-- The start of a job that runs: its creation when it has no start.
abbrev pub start_of : Option ℕ → ℕ → Option ℕ
start_of none created = some created
start_of (some t) created = some t

abbrev pub elapsed : (ℕ → ℕ) → Status → ℕ → Option ℕ → Option ℕ → ℕ → Option ℕ
elapsed tenths running created started finished now =
    ms tenths (start_of started created) (some now)
elapsed tenths queued created started finished now = ms tenths (some created) (some now)
elapsed tenths succeeded created started finished now = ms tenths (some created) finished
elapsed tenths failed created started finished now = ms tenths (some created) finished

-- A missing time sorts before every time.
abbrev pub time_key : Option ℕ → ℕ
time_key none = 0
time_key (some t) = suc t

-- `ORDER BY finished_at DESC, updated_at DESC`
abbrev pub finished_later : Row → Row → Bool
finished_later b a =
    ltb (time_key a.finished_at) (time_key b.finished_at)
    || (eqb (time_key a.finished_at) (time_key b.finished_at) && ltb a.updated_at b.updated_at)

pub record Tasks : Type 0 where
  pub running : List JobCard
  pub queued : List JobCard
  pub recent_failed : List JobCard
  pub recent_succeeded : List JobCard

module _ (tenths : ℕ → ℕ) (hit : Row → Option String) where
  -- `_job_to_dict`
  unfoldable pub job_to_dict : ℕ → Row → JobCard
  job_to_dict now r = record {
    id = r.id;
    package_name = r.package_name;
    version_code = r.version_code;
    version_name = r.version_name;
    requested_provider = r.provider;
    succeeded_provider = hit r;
    status = r.status;
    worker = r.worker;
    error = r.error;
    provider_errors = errors_or_none r.provider_errors;
    created_at = r.created_at;
    started_at = r.started_at;
    finished_at = r.finished_at;
    updated_at = r.updated_at;
    queue_wait_ms = ms tenths (some r.created_at) r.started_at;
    download_ms = ms tenths r.started_at r.finished_at;
    elapsed_ms = elapsed tenths r.status r.created_at r.started_at r.finished_at now;
  }

  -- `SELECT * FROM download_jobs WHERE status = ? ORDER BY … LIMIT ?`
  unfoldable pub board : (Row → Bool) → (Row → Row → Bool) → ℕ → ℕ → List Row → List JobCard
  board wanted precedes limit now rows =
      map (job_to_dict now) (take limit (sort_by precedes (select wanted rows)))

  -- `_tasks`
  unfoldable pub tasks : ℕ → ℕ → ℕ → List Row → Tasks
  tasks active_limit recent_limit now rows = record {
    running =
        board (λ r. is_running r.status)
          (λ b a. ltb (time_key b.started_at) (time_key a.started_at)) active_limit now rows;
    queued =
        board (λ r. is_queued r.status) (λ b a. ltb b.created_at a.created_at) active_limit now
          rows;
    recent_failed = board (λ r. is_failed r.status) finished_later recent_limit now rows;
    recent_succeeded = board (λ r. is_succeeded r.status) finished_later recent_limit now rows;
  }
