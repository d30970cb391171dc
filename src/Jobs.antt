-- ===== src/Jobs.antt =====
-- pricewatch/db/repositories/scrape_job_repository.py: the jobs that the scheduler fires, and when.

pub mod Due
use managment2_main.RunRows.{value_or, given_or, active_run_of}
use managment2_main.Base.{
  ℕ, String, Bool, false, not, ◌&&◌, Option, none, some, List, select, take, length, ltb, leb, ◌==◌,
  ℤ, compareℤ, if◌then◌else◌, str_eq,
}
use managment2_main.Models.{
  JsonObject, Datetime, instant, job_not_found, schedule_not_found, ScrapeJob, ScrapeSchedule,
}
use managment2_main.Engine.{Engine}
use managment2_main.Query.{filter_by, page, then_by, is_lt_or_eq, nulls_last}
use managment2_main.Session.{
  World, Action, pure, gets, or_raise, ◌>>=◌, ◌>>◌, job_row, schedule_row, change_job,
  change_schedule, add_job, add_schedule, delete_schedules,
}

-- The keyword arguments of `create_scrape_job`.
pub record JobArgs : Type 0 where
  pub source_key : String
  pub runner_type : String
  pub params_json : Option JsonObject
  pub enabled : Bool
  pub priority : ℤ
  pub allow_overlap : Bool
  pub timeout_sec : Option ℕ
  pub max_retries : ℕ
  pub retry_backoff_sec : ℕ
  pub concurrency_key : Option String
  pub next_run_at : Option Datetime

abbrev new_job : JobArgs → ℕ → ScrapeJob
new_job a i = record {
  id = i;
  source_key = a.source_key;
  runner_type = a.runner_type;
  params_json = a.params_json;
  enabled = a.enabled;
  priority = a.priority;
  allow_overlap = a.allow_overlap;
  timeout_sec = a.timeout_sec;
  max_retries = a.max_retries;
  retry_backoff_sec = a.retry_backoff_sec;
  concurrency_key = a.concurrency_key;
  next_run_at = a.next_run_at;
  last_run_at = none;
}

-- The optional arguments of `update_scrape_job`; `None` leaves a column as it is.
pub record JobChanges : Type 0 where
  pub enabled : Option Bool
  pub priority : Option ℤ
  pub allow_overlap : Option Bool
  pub timeout_sec : Option ℕ
  pub max_retries : Option ℕ
  pub retry_backoff_sec : Option ℕ
  pub concurrency_key : Option String
  pub next_run_at : Option Datetime
  pub params_json : Option JsonObject

abbrev pub changed_job : JobChanges → ScrapeJob → ScrapeJob
changed_job c j = record {
  id = j.id;
  source_key = j.source_key;
  runner_type = j.runner_type;
  params_json = given_or c.params_json j.params_json;
  enabled = value_or c.enabled j.enabled;
  priority = value_or c.priority j.priority;
  allow_overlap = value_or c.allow_overlap j.allow_overlap;
  timeout_sec = given_or c.timeout_sec j.timeout_sec;
  max_retries = value_or c.max_retries j.max_retries;
  retry_backoff_sec = value_or c.retry_backoff_sec j.retry_backoff_sec;
  concurrency_key = given_or c.concurrency_key j.concurrency_key;
  next_run_at = given_or c.next_run_at j.next_run_at;
  last_run_at = j.last_run_at;
}

unfoldable pub require_job : ℕ → Action ScrapeJob
unfolding job_row ◌>>=◌
require_job job_id = do found ← gets (job_row job_id); or_raise (job_not_found job_id) found

unfoldable pub update_scrape_job : ℕ → JobChanges → Action ScrapeJob
unfolding require_job change_job
update_scrape_job job_id changes = do
  job ← require_job job_id
  change_job job_id (changed_job changes)
  pure (changed_job changes job)

-- `last_run_at` is set where it is given.
abbrev pub rescheduled : Datetime → Option Datetime → ScrapeJob → ScrapeJob
rescheduled next_run_at last_run_at j = record j {
  next_run_at = some next_run_at;
  last_run_at = given_or last_run_at j.last_run_at;
}

unfoldable pub set_job_next_run_at : ℕ → Datetime → Option Datetime → Action ScrapeJob
unfolding ◌>>=◌
set_job_next_run_at job_id next_run_at last_run_at = do
  job ← require_job job_id
  change_job job_id (rescheduled next_run_at last_run_at)
  pure (rescheduled next_run_at last_run_at job)

unfoldable pub get_scrape_job : ℕ → World → Option ScrapeJob
unfolding job_row
get_scrape_job job_id w = job_row job_id w

-- `enabled AND next_run_at <= now`; a NULL does not compare.
unfoldable pub is_due : Datetime → ScrapeJob → Bool
is_due now j =
    j.enabled && elim j.next_run_at [ none ↦ false | some t ↦ leb (instant t) (instant now) ]

-- `ORDER BY priority DESC, next_run_at`
unfoldable pub due_le : ScrapeJob → ScrapeJob → Bool
due_le a b =
    then_by (compareℤ b.priority a.priority) (is_lt_or_eq (nulls_last a.next_run_at b.next_run_at))

-- `ORDER BY priority DESC, id`
unfoldable pub priority_le : ScrapeJob → ScrapeJob → Bool
priority_le a b = then_by (compareℤ b.priority a.priority) (leb a.id b.id)

unfoldable pub has_active_run_for_job : ℕ → World → Bool
unfolding active_run_of
has_active_run_for_job job_id w = ltb 0 (length (select (active_run_of job_id) w.runs))

module _ ⦃e : Engine⦄ where
  unfoldable pub create_scrape_job : JobArgs → Action ScrapeJob
  unfolding add_job
  create_scrape_job args = add_job (new_job args)

  unfoldable pub list_scrape_jobs :
      Option Bool → Option String → Option ℕ → Option ℕ → World → List ScrapeJob
  unfolding filter_by page priority_le
  list_scrape_jobs enabled runner_type limit offset w = page limit offset (
      e.order_by ScrapeJob priority_le (
        filter_by runner_type (λ t j. str_eq j.runner_type t)
          (filter_by enabled (λ b j. if b then j.enabled else not j.enabled) w.jobs)))

  unfoldable pub list_due_scrape_jobs : Datetime → ℕ → World → List ScrapeJob
  unfolding ◌>>=◌
  list_due_scrape_jobs now limit w =
      take limit (e.order_by ScrapeJob due_le (select (is_due now) w.jobs))
