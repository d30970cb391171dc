-- ===== src/Scheduler/Refused.antt =====
-- A due job whose schedule is refused after its run was enqueued.
use managment2_main.Base.{true, leb, or_default, ◌-◌, ℕ, ◌≡◌, refl, false, none, some, ◌⊎◌}
use managment2_main.Models.{
  ScrapeRun, naive_and_aware, Datetime, ScrapeJob, ScrapeSchedule, interval_not_positive,
}
use managment2_main.Session.{retry_failed, World, ok, raised, job_failed, change_tick}
use managment2_main.Jobs.{get_scrape_job}
use managment2_main.Timing.{datetime_gt, advance_next_run, Plan}
use managment2_main.Scheduler.{
  candidate, process_candidate, retry_for, retry_job, retry_after, overlap_guard, due_job,
  process_job, fire, after_fire, scheduled_args, note_enqueued, note_error, plan_of, due_since,
}
use managment2_main.Schedules.{get_schedule_for_job}
use managment2_main.Engine.{Engine}
use managment2_main.Runs.Enqueue.{enqueued, after_enqueue, enqueue_run-eq}
use managment2_main.Timing.Interval.{compute_next_run_refused}

module _ ⦃e : Engine⦄ where
  advance_next_run_refused :
      (p : Plan) (current now : Datetime) (w : World)
      → p.schedule_type ≡ "interval"
      → (p.interval_sec ≡ none) ⊎ (p.interval_sec ≡ some 0)
      → advance_next_run p current now w ≡ (raised interval_not_positive, w)
  unfolding advance_next_run
  advance_next_run_refused p current now w ty bad =
      rw (compute_next_run_refused p current w ty bad) refl

  -- A free due job with an interval schedule that has no positive interval gets a run enqueued, and then
  -- its error noted: jobs, schedules and the other runs are as they were, so the job is due still.
  pub due_job_refused :
      (now : Datetime) (job : ScrapeJob) (s : ScrapeSchedule) (w : World)
      → overlap_guard job w ≡ false
      → get_schedule_for_job job.id w ≡ some s
      → s.schedule_type ≡ "interval"
      → (s.interval_sec ≡ none) ⊎ (s.interval_sec ≡ some 0)
      → due_job now job w ≡ (
        ok tt,
        record (after_enqueue (scheduled_args job) w) {
          tick =
              note_error
                (job_failed job.id interval_not_positive)
                (note_enqueued (enqueued (scheduled_args job) w).id w.tick);
        },
      )
  unfolding due_job process_job fire after_fire change_tick
  due_job_refused now job s w free found ty bad =
      rw (free, found, enqueue_run-eq (scheduled_args job) w)
        (rw
          (advance_next_run_refused (plan_of s s.jitter_sec) (due_since job now) now
            (record (after_enqueue (scheduled_args job) w) {
              tick = note_enqueued (enqueued (scheduled_args job) w).id w.tick;
            })
            ty bad)
          refl)

  -- A candidate whose end time is naive, as a backend without time zones returns it, is not retried where
  -- the tick's time is aware: the comparison raises, the error is noted, and the tables are as they
  -- were, so the run stays a candidate.
  pub candidate_naive :
      (source : ScrapeRun) (job : ScrapeJob) (i ended now : ℕ) (w : World)
      → source.job_id ≡ some i
      → get_scrape_job i w ≡ some job
      → job.enabled ≡ true
      → leb job.max_retries (or_default source.attempt 1 - 1) ≡ false
      → source.finished_at ≡ some (Datetime.naive ended)
      → candidate (Datetime.aware now) source w
        ≡ (ok tt, record w { tick = note_error (retry_failed source.id naive_and_aware) w.tick })
  unfolding candidate process_candidate retry_for retry_job retry_after datetime_gt change_tick
  candidate_naive source job i ended now w of_job found enabled left naive_end =
      rw (of_job, found, enabled, left, naive_end) refl
