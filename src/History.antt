-- ===== src/History.antt =====
-- pricewatch/services/scrape_history_service.py: the reads of runs and jobs for the admin pages. The
-- functions keep the names of the repository's, which they call.
use managment2_main.Base.{ℕ, String, Bool, Option, none, some, List}
use managment2_main.Models.{Datetime, RunStatus, ScrapeRun, ScrapeJob, run_not_found, job_not_found}
use managment2_main.Engine.{Engine}
use managment2_main.Session.{World, Action, gets, or_raise, ◌>>=◌}
use managment2_main.Runs.{
  list_runs as runs_of_table, get_run, list_runs_for_job as runs_of_job, list_retry_candidates,
}
use managment2_main.Jobs.{list_scrape_jobs, get_scrape_job}

-- `_LEGACY_STATUS_MAP.get(status, status)`
abbrev pub current_status : RunStatus → RunStatus
current_status RunStatus.finished = RunStatus.success
current_status RunStatus.queued = RunStatus.queued
current_status RunStatus.running = RunStatus.running
current_status RunStatus.success = RunStatus.success
current_status RunStatus.partial = RunStatus.partial
current_status RunStatus.failed = RunStatus.failed
current_status RunStatus.cancelled = RunStatus.cancelled
current_status RunStatus.skipped = RunStatus.skipped
current_status (RunStatus.other text) = RunStatus.other text

-- `_normalize_status`
unfoldable pub normalize_status : Option RunStatus → Option RunStatus
normalize_status none = none
normalize_status (some s) = some (current_status s)

unfoldable pub require_history_run : ℕ → Action ScrapeRun
unfolding ◌>>=◌
require_history_run run_id = do found ← gets (get_run run_id); or_raise (run_not_found run_id) found

unfoldable pub get_job : ℕ → Action ScrapeJob
unfolding ◌>>=◌
get_job job_id = do found ← gets (get_scrape_job job_id); or_raise (job_not_found job_id) found

module _ ⦃e : Engine⦄ where
  unfoldable pub list_history_runs :
      Option ℕ
      → Option String
      → Option RunStatus
      → Option String
      → Option ℕ
      → Option ℕ
      → World
      → List ScrapeRun
  list_history_runs store_id run_type status trigger_type limit offset w =
      runs_of_table store_id run_type (normalize_status status) trigger_type limit offset w

  unfoldable pub list_history_runs_for_job :
      ℕ → Option RunStatus → Option ℕ → Option ℕ → World → List ScrapeRun
  list_history_runs_for_job job_id status limit offset w =
      runs_of_job job_id (normalize_status status) limit offset w

  unfoldable pub list_history_retry_candidates :
      Option ℕ → Option Datetime → ℕ → World → List ScrapeRun
  list_history_retry_candidates job_id backoff_cutoff limit w =
      list_retry_candidates job_id backoff_cutoff limit w

  unfoldable pub list_jobs :
      Option Bool → Option String → Option ℕ → Option ℕ → World → List ScrapeJob
  list_jobs enabled runner_type limit offset w = list_scrape_jobs enabled runner_type limit offset w
