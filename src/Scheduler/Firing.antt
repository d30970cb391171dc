-- ===== src/Scheduler/Firing.antt =====
-- The walk over the due jobs, for statements about the runs and the jobs.
use managment2_main.Base.{List, Mem, ℕ, ◌≡◌, false, Option, none, some, inl, inr, Bool-cases}
use managment2_main.Models.{Datetime, ScrapeRun, ScrapeJob, ScrapeSchedule}
use managment2_main.Engine.{Engine, EngineLaws}
use managment2_main.Session.{World, job_failed, ◌>>◌, change_tick}
use managment2_main.Session.Keeps.{Keeps, keeps_rules, catch_at, for_each_at}
use managment2_main.Session.Tables.{Tables, Keeps-change_tick}
use managment2_main.Timing.Keeps.{Keeps-advance_next_run}
use managment2_main.Runs.Enqueue.{enqueued, enqueue_run-eq, after_enqueue}
use managment2_main.Jobs.Due.{list_due_scrape_jobs_sound}
use managment2_main.Jobs.{list_due_scrape_jobs, set_job_next_run_at}
use managment2_main.Scheduler.{
  overlap_guard, scheduled_args, after_fire, note_overlap, note_no_schedule, note_error, skip_ahead,
  advance_job_next_run, fire, process_job, due_job, process_due_jobs,
}

-- What the writes of the walk over the due jobs do to a statement `Q` about the two tables, where `C`
-- says what is known of a job whose row is in the table.
pub record FiringRules (e : Engine) (Q : List ScrapeRun → List ScrapeJob → Type 0)
    (C : ScrapeJob → Type 0) : Type 0 where
  pub job_known :
      (runs : List ScrapeRun) (jobs : List ScrapeJob) (job : ScrapeJob)
      → Q runs jobs
      → Mem job jobs
      → C job
  pub rescheduled :
      (i : ℕ) (t : Datetime) (last : Option Datetime)
      → Keeps (Tables Q) (set_job_next_run_at i t last)
  pub scheduled :
      (job : ScrapeJob) (w : World)
      → C job
      → overlap_guard job w ≡ false
      → Tables Q w
      → Tables Q (after_enqueue ⦃e = e⦄ (scheduled_args job) w)

module _ ⦃e : Engine⦄ (Q : List ScrapeRun → List ScrapeJob → Type 0) (C : ScrapeJob → Type 0)
    (rules : FiringRules e Q C) where
  abbrev P : World → Type 0
  P = Tables Q

  after_fire-Keeps :
      (now : Datetime) (job : ScrapeJob) (s : ScrapeSchedule) (run : ScrapeRun)
      → Keeps P (after_fire now job s run)
  unfolding after_fire
  after_fire-Keeps now job s run =
      search (keeps_rules, Keeps-change_tick, Keeps-advance_next_run, rules.rescheduled)

  skip_ahead-Keeps :
      (job : ScrapeJob) (now : Datetime) (o : Option ScrapeSchedule)
      → Keeps P (skip_ahead job now o)
  unfolding skip_ahead
  skip_ahead-Keeps job now none = search keeps_rules
  skip_ahead-Keeps job now (some s) =
      search (keeps_rules, Keeps-advance_next_run, rules.rescheduled)

  advance_job_next_run-Keeps :
      (job : ScrapeJob) (now : Datetime) → Keeps P (advance_job_next_run job now)
  unfolding advance_job_next_run
  advance_job_next_run-Keeps job now = search (keeps_rules, skip_ahead-Keeps)

  overlapping-Keeps :
      (job : ScrapeJob) (now : Datetime)
      → Keeps P (change_tick (note_overlap job.id) >> advance_job_next_run job now)
  overlapping-Keeps job now = search (keeps_rules, Keeps-change_tick, advance_job_next_run-Keeps)

  fire_keeps :
      (now : Datetime) (job : ScrapeJob) (o : Option ScrapeSchedule) (w : World)
      → C job
      → overlap_guard job w ≡ false
      → P w
      → P (fire now job o w).1
  unfolding fire
  fire_keeps now job none w c clear g = (Keeps-change_tick Q (note_no_schedule job.id)).at w g
  fire_keeps now job (some s) w c clear g = rw (enqueue_run-eq (scheduled_args job) w) (
      (after_fire-Keeps now job s (enqueued (scheduled_args job) w)).at _
        (rules.scheduled job w c clear g))

  process_job_keeps :
      (now : Datetime) (job : ScrapeJob) (w : World) → C job → P w → P (process_job now job w).1
  unfolding process_job
  process_job_keeps now job w c g = elim (Bool-cases (overlap_guard job w)) [
    | inl blocked ↦ rw blocked ((overlapping-Keeps job now).at w g)
    | inr clear ↦ rw clear (fire_keeps now job _ w c clear g)
  ]

  due_job_keeps :
      (now : Datetime) (job : ScrapeJob) (w : World) → C job → P w → P (due_job now job w).1
  unfolding due_job
  due_job_keeps now job w c g =
      catch_at P (process_job now job) _ w (process_job_keeps now job w c g)
        (λ x. Keeps-change_tick Q (note_error (job_failed job.id x)))

  pub process_due_jobs_keeps :
      (laws : EngineLaws e) (now : Datetime) (limit : ℕ) (w : World)
      → P w
      → P (process_due_jobs now limit w).1
  unfolding process_due_jobs Tables
  process_due_jobs_keeps laws now limit w g =
      for_each_at P (due_job now) (list_due_scrape_jobs now limit w)
        (λ job m v h.
          due_job_keeps now job v
            (rules.job_known w.runs w.jobs job g
              (list_due_scrape_jobs_sound laws now limit w job m).0)
            h)
        w g
