-- ===== src/Scheduler/Overlap.antt =====
-- The overlap guard of the scheduler during a tick.
use managment2_main.Base.{ℕ, ◌≤◌, ◌≡◌, refl, false, tally, arith, Option, length-select}
use managment2_main.Models.{Datetime, ScrapeJob}
use managment2_main.Engine.{Engine, EngineLaws}
use managment2_main.Session.{World}
use managment2_main.Session.Tables.{Tables}
use managment2_main.RunRows.{active_run_of}
use managment2_main.Jobs.{has_active_run_for_job}
use managment2_main.Scheduler.{
  overlap_guard, scheduled_args, retry_args, as_processed, as_exhausted, retry_of, run_tick,
}
use managment2_main.Scheduler.Firing.{FiringRules}
use managment2_main.Scheduler.Retrying.{RetryRules}
use managment2_main.Scheduler.Tick.{run_tick_keeps}
use managment2_main.Scheduler.Guard.{
  strict_job, NoOverlap, Guarded, IsConsistent, IsConsistent-of_mem, Keeps-change_run,
  Keeps-set_job_next_run_at, enqueue_run-Guarded,
}

module _ ⦃e : Engine⦄ (strict : ℕ → ℕ) where
  -- A consistent job whose overlap test failed has no active run, if any of its rows is strict.
  no_active_run :
      (job : ScrapeJob) (w : World)
      → IsConsistent strict job
      → overlap_guard job w ≡ false
      → 1 ≤ strict job.id
      → tally (active_run_of job.id) w.runs ≡ 0
  unfolding overlap_guard has_active_run_for_job
  no_active_run job w c clear s = ground (arith, c s, length-select (active_run_of job.id) w.runs)

  firing_rules : FiringRules e (Guarded strict) (IsConsistent strict)
  firing_rules = record {
    job_known = IsConsistent-of_mem strict;
    rescheduled = Keeps-set_job_next_run_at strict;
    scheduled = λ job w c clear g.
        enqueue_run-Guarded strict (scheduled_args job) job.id w refl (no_active_run job w c clear)
          g;
  }

  retry_rules : RetryRules e (Guarded strict) (IsConsistent strict)
  unfolding active_run_of
  retry_rules = record {
    job_known = IsConsistent-of_mem strict;
    processed = λ i. Keeps-change_run strict i as_processed (λ k r. refl);
    exhausted = λ i. Keeps-change_run strict i as_exhausted (λ k r. refl);
    linked = λ i s. Keeps-change_run strict i (retry_of s) (λ k r. refl);
    retried = λ job source attempt w c clear left g.
        enqueue_run-Guarded strict (retry_args job source attempt) job.id w refl
          (no_active_run job w c clear) g;
  }

module _ ⦃e : Engine⦄ where
  -- A tick keeps the overlap guard: where job ids are unique and every job that forbids overlap has
  -- at most one queued or running run, that is still so after the tick, whatever it enqueued.
  pub run_tick-NoOverlap :
      (laws : EngineLaws e) (now : Option Datetime) (limit : ℕ) (w : World)
      → NoOverlap w.runs w.jobs
      → NoOverlap (run_tick now limit w).1.runs (run_tick now limit w).1.jobs
  unfolding Tables
  run_tick-NoOverlap laws now limit w n =
      let strict : ℕ → ℕ = λ i. tally (strict_job i) w.jobs in
      let g =
        run_tick_keeps (Guarded strict) (IsConsistent strict) laws (firing_rules strict)
          (retry_rules strict) now limit w
          (record { strict_count = λ i. refl; unique_id = n.unique; one_active = n.at_most_one }) in
      record {
        unique = g.unique_id;
        at_most_one = λ i s. g.one_active i (rw (g.strict_count i) at s);
      }
