-- ===== src/Schedules.antt =====
-- pricewatch/db/repositories/scrape_schedule_repository.py: the schedules of the jobs.
pub mod Delete
use managment2_main.RunRows.{value_or, given_or}
use managment2_main.Base.{ℕ, String, Bool, ◌&&◌, Option, List, select, length, ◌==◌}
use managment2_main.Models.{schedule_not_found, ScrapeSchedule}
use managment2_main.Engine.{Engine}
use managment2_main.Session.{
  World, Action, pure, gets, or_raise, ◌>>=◌, ◌>>◌, schedule_row, change_schedule, add_schedule,
  delete_schedules,
}

-- The keyword arguments of `create_scrape_schedule`.
pub record ScheduleArgs : Type 0 where
  pub job_id : ℕ
  pub schedule_type : String
  pub cron_expr : Option String
  pub interval_sec : Option ℕ
  pub timezone : String
  pub jitter_sec : ℕ
  pub misfire_policy : String
  pub enabled : Bool

abbrev new_schedule : ScheduleArgs → ℕ → ScrapeSchedule
new_schedule a i = record {
  id = i;
  job_id = a.job_id;
  schedule_type = a.schedule_type;
  cron_expr = a.cron_expr;
  interval_sec = a.interval_sec;
  timezone = a.timezone;
  jitter_sec = a.jitter_sec;
  misfire_policy = a.misfire_policy;
  enabled = a.enabled;
}

-- The optional arguments of `update_scrape_schedule`.
pub record ScheduleChanges : Type 0 where
  pub cron_expr : Option String
  pub interval_sec : Option ℕ
  pub timezone : Option String
  pub jitter_sec : Option ℕ
  pub misfire_policy : Option String
  pub enabled : Option Bool

abbrev pub changed_schedule : ScheduleChanges → ScrapeSchedule → ScrapeSchedule
changed_schedule c s = record s {
  cron_expr = given_or c.cron_expr s.cron_expr;
  interval_sec = given_or c.interval_sec s.interval_sec;
  timezone = value_or c.timezone s.timezone;
  jitter_sec = value_or c.jitter_sec s.jitter_sec;
  misfire_policy = value_or c.misfire_policy s.misfire_policy;
  enabled = value_or c.enabled s.enabled;
}

unfoldable pub update_scrape_schedule : ℕ → ScheduleChanges → Action ScrapeSchedule
unfolding schedule_row change_schedule ◌>>=◌
update_scrape_schedule schedule_id changes = do
  found ← gets (schedule_row schedule_id)
  schedule ← or_raise (schedule_not_found schedule_id) found
  change_schedule schedule_id (changed_schedule changes)
  pure (changed_schedule changes schedule)

abbrev pub schedule_of : ℕ → ScrapeSchedule → Bool
schedule_of job_id s = s.job_id == job_id

unfoldable pub list_schedules_for_job : ℕ → World → List ScrapeSchedule
list_schedules_for_job job_id w = select (schedule_of job_id) w.schedules

-- Deletes the rows that the query found, and returns how many.
unfoldable pub delete_schedule_for_job : ℕ → Action ℕ
unfolding list_schedules_for_job ◌>>=◌ delete_schedules
delete_schedule_for_job job_id = do
  rows ← gets (list_schedules_for_job job_id)
  delete_schedules (schedule_of job_id)
  pure (length rows)

module _ ⦃e : Engine⦄ where
  unfoldable pub create_scrape_schedule : ScheduleArgs → Action ScrapeSchedule
  unfolding add_schedule
  create_scrape_schedule args = add_schedule (new_schedule args)

  -- `.first()` of a query with no `ORDER BY`: the database chooses among the enabled schedules.
  unfoldable pub get_schedule_for_job : ℕ → World → Option ScrapeSchedule
  get_schedule_for_job job_id w =
      e.pick ScrapeSchedule (select (λ s. schedule_of job_id s && s.enabled) w.schedules)
