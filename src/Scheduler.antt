-- ===== src/Scheduler.antt =====
-- pricewatch/scrape/scheduler.py: one tick enqueues the due jobs and the retries that are owed.
--
-- The rows that a loop walks over are the rows that its query returned. The loops change a row only
-- in its own round, so reading the columns from there is reading the live object.
pub mod Loop
pub mod Firing
pub mod Retrying
pub mod Tick
pub mod Guard
pub mod Owed
pub mod Lineage
pub mod Overlap
pub mod Attempts
pub mod Refused
use managment2_main.Schedules.{get_schedule_for_job}
use managment2_main.Base.{
  ℕ, ◌+◌, ◌-◌, Bool, true, not, ◌&&◌, Option, none, some, [], ◌∷◌, ◌++◌, leb, or_default,
  if◌then◌else◌, str_eq,
}
use managment2_main.Models.{
  JsonObject, JsonValue, Datetime, as_utc, plus, seconds, ScrapeRun, ScrapeJob, ScrapeSchedule,
}
use managment2_main.Engine.{Engine}
use managment2_main.Session.{
  World, TickError, job_failed, retry_failed, SchedulerTick, Action, pure, gets, lift, catch, ◌>>=◌,
  ◌>>◌, change_run, change_tick, for_each, utcnow,
}
use managment2_main.RunRows.{EnqueueArgs}
use managment2_main.Runs.{enqueue_run, list_retry_candidates}
use managment2_main.Jobs.{
  get_scrape_job, has_active_run_for_job, list_due_scrape_jobs, set_job_next_run_at,
}
use managment2_main.Timing.{Plan, datetime_gt, advance_next_run}

abbrev pub empty_tick : SchedulerTick
empty_tick = record {
  enqueued = [];
  retries_enqueued = [];
  skipped_overlap = [];
  skipped_no_schedule = [];
  errors = [];
}

abbrev pub note_enqueued : ℕ → SchedulerTick → SchedulerTick
note_enqueued run_id t = record t { enqueued = t.enqueued ++ run_id ∷ [] }

abbrev pub note_retry : ℕ → SchedulerTick → SchedulerTick
note_retry run_id t = record t {
  enqueued = t.enqueued ++ run_id ∷ [];
  retries_enqueued = t.retries_enqueued ++ run_id ∷ [];
}

abbrev pub note_overlap : ℕ → SchedulerTick → SchedulerTick
note_overlap job_id t = record t { skipped_overlap = t.skipped_overlap ++ job_id ∷ [] }

abbrev pub note_no_schedule : ℕ → SchedulerTick → SchedulerTick
note_no_schedule job_id t = record t { skipped_no_schedule = t.skipped_no_schedule ++ job_id ∷ [] }

abbrev pub note_error : TickError → SchedulerTick → SchedulerTick
note_error x t = record t { errors = t.errors ++ x ∷ [] }

-- `{"source_key": job.source_key}`
abbrev pub source_of : ScrapeJob → Option JsonObject
source_of job = some (JsonObject.field "source_key" (JsonValue.text job.source_key) JsonObject.end)

-- The arguments of `advance_next_run` that come from the schedule row.
abbrev pub plan_of : ScrapeSchedule → ℕ → Plan
plan_of s jitter = record {
  schedule_type = s.schedule_type;
  cron_expr = s.cron_expr;
  interval_sec = s.interval_sec;
  tz_name = if str_eq s.timezone "" then "UTC" else s.timezone;
  jitter_sec = jitter;
}

-- `job.next_run_at or now`
abbrev pub due_since : ScrapeJob → Datetime → Datetime
due_since job now = elim job.next_run_at [ none ↦ now | some t ↦ t ]

abbrev pub scheduled_args : ScrapeJob → EnqueueArgs
scheduled_args job = record {
  job_id = some job.id;
  store_id = none;
  run_type = some job.runner_type;
  trigger_type = "scheduled";
  attempt = 1;
  metadata_json = source_of job;
  checkpoint_in_json = none;
}

abbrev pub retry_args : ScrapeJob → ScrapeRun → ℕ → EnqueueArgs
retry_args job source attempt = record {
  job_id = some job.id;
  store_id = none;
  run_type = some job.runner_type;
  trigger_type = "retry";
  attempt = attempt + 1;
  metadata_json = source_of job;
  checkpoint_in_json = source.checkpoint_out_json;
}

abbrev pub as_processed : ScrapeRun → ScrapeRun
as_processed r = record r { retry_processed = true }

abbrev pub as_exhausted : ScrapeRun → ScrapeRun
as_exhausted r = record r { retry_processed = true; retry_exhausted = true }

abbrev pub retry_of : ℕ → ScrapeRun → ScrapeRun
retry_of source_id r = record r { retry_of_run_id = some source_id }

-- `not job.allow_overlap and has_active_run_for_job(session, job.id)`
unfoldable pub overlap_guard : ScrapeJob → World → Bool
unfolding has_active_run_for_job
overlap_guard job w = not job.allow_overlap && has_active_run_for_job job.id w

module _ ⦃e : Engine⦄ where
  unfoldable pub skip_ahead : ScrapeJob → Datetime → Option ScrapeSchedule → Action (Unit {0})
  unfolding ◌>>=◌
  skip_ahead job now none = pure tt
  skip_ahead job now (some s) =
      catch
        (do
          next ← advance_next_run (plan_of s 0) (due_since job now) now
          updated ← set_job_next_run_at job.id next none
          pure tt)
        (λ exc. pure tt)

  -- `_advance_job_next_run`
  unfoldable pub advance_job_next_run : ScrapeJob → Datetime → Action (Unit {0})
  unfolding ◌>>=◌
  advance_job_next_run job now = do
    schedule ← gets (get_schedule_for_job job.id)
    skip_ahead job now schedule

  -- What follows the enqueueing of a scheduled run.
  unfoldable pub after_fire : Datetime → ScrapeJob → ScrapeSchedule → ScrapeRun → Action (Unit {0})
  unfolding ◌>>=◌
  after_fire now job s run = do
    change_tick (note_enqueued run.id)
    next ← advance_next_run (plan_of s s.jitter_sec) (due_since job now) now
    updated ← set_job_next_run_at job.id next (some now)
    pure tt

  unfoldable pub fire : Datetime → ScrapeJob → Option ScrapeSchedule → Action (Unit {0})
  unfolding ◌>>=◌
  fire now job none = change_tick (note_no_schedule job.id)
  fire now job (some s) = do run ← enqueue_run (scheduled_args job); after_fire now job s run

  -- The `try` block of the loop over due jobs.
  unfoldable pub process_job : Datetime → ScrapeJob → Action (Unit {0})
  unfolding ◌>>=◌
  process_job now job = do
    blocked ← gets (overlap_guard job)
    if blocked
        then (do change_tick (note_overlap job.id); advance_job_next_run job now)
        else (do schedule ← gets (get_schedule_for_job job.id); fire now job schedule)

  unfoldable pub due_job : Datetime → ScrapeJob → Action (Unit {0})
  unfolding ◌>>=◌
  due_job now job =
      catch (process_job now job) (λ exc. change_tick (note_error (job_failed job.id exc)))

  -- What follows the enqueueing of a retry: the lineage pointer, the mark on the source, the tick.
  unfoldable pub link_retry : ScrapeRun → ScrapeRun → Action (Unit {0})
  unfolding ◌>>=◌
  link_retry source run = do
    change_run run.id (retry_of source.id)
    change_run source.id as_processed
    change_tick (note_retry run.id)

  unfoldable pub spawn_retry : ScrapeRun → ScrapeJob → ℕ → Action (Unit {0})
  unfolding ◌>>=◌
  spawn_retry source job attempt = do
    run ← enqueue_run (retry_args job source attempt)
    link_retry source run

  unfoldable pub spawn_if_free : ScrapeRun → ScrapeJob → ℕ → Action (Unit {0})
  unfolding ◌>>=◌
  spawn_if_free source job attempt = do
    blocked ← gets (overlap_guard job)
    if blocked then pure tt else spawn_retry source job attempt

  unfoldable pub retry_after :
      Datetime → ScrapeRun → ScrapeJob → ℕ → Option Datetime → Action (Unit {0})
  unfolding ◌>>=◌
  retry_after now source job attempt none = pure tt
  retry_after now source job attempt (some finished) = do
    waiting ← lift (datetime_gt (plus finished (seconds (or_default job.retry_backoff_sec 60))) now)
    if waiting then pure tt else spawn_if_free source job attempt

  unfoldable pub retry_job : Datetime → ScrapeRun → ScrapeJob → Action (Unit {0})
  unfolding ◌>>=◌
  retry_job now source job =
      let attempt = or_default source.attempt 1 in
      if not job.enabled
      then change_run source.id as_processed
      else if leb job.max_retries (attempt - 1)
      then change_run source.id as_exhausted
      else retry_after now source job attempt source.finished_at

  unfoldable pub retry_for : Datetime → ScrapeRun → Option ScrapeJob → Action (Unit {0})
  retry_for now source none = change_run source.id as_processed
  retry_for now source (some job) = retry_job now source job

  -- The `try` block of the loop over retry candidates.
  unfoldable pub process_candidate : Datetime → ScrapeRun → Option ℕ → Action (Unit {0})
  unfolding ◌>>=◌
  process_candidate now source none = change_run source.id as_processed
  process_candidate now source (some job_id) = do
    job ← gets (get_scrape_job job_id)
    retry_for now source job

  unfoldable pub candidate : Datetime → ScrapeRun → Action (Unit {0})
  unfolding ◌>>=◌
  candidate now source =
      catch (process_candidate now source source.job_id)
        (λ exc. change_tick (note_error (retry_failed source.id exc)))

  unfoldable pub process_retry_candidates : Datetime → ℕ → Action (Unit {0})
  unfolding ◌>>=◌
  process_retry_candidates now limit = do
    candidates ← gets (list_retry_candidates none none limit)
    for_each (candidate now) candidates

  unfoldable pub time_or_now : Option Datetime → Action Datetime
  unfolding ◌>>=◌
  time_or_now none = utcnow
  time_or_now (some t) = pure (as_utc t)

  unfoldable pub process_due_jobs : Datetime → ℕ → Action (Unit {0})
  unfolding ◌>>=◌
  process_due_jobs now limit = do
    due ← gets (list_due_scrape_jobs now limit)
    for_each (due_job now) due

  unfoldable pub run_tick : Option Datetime → ℕ → Action SchedulerTick
  unfolding ◌>>=◌
  run_tick at limit = do
    now ← time_or_now at
    change_tick (λ _. empty_tick)
    process_due_jobs now limit
    process_retry_candidates now limit
    gets (λ w. w.tick)
