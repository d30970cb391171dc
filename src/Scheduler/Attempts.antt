-- ===== src/Scheduler/Attempts.antt =====
-- The retry budget: the attempts of a job's runs against its `max_retries`.
use managment2_main.Base.{
  ℕ, ◌+◌, ◌≤◌, ◌≡◌, refl, Bool, ◌&&◌, Option, some, List, Mem, tally, arith, ltb, ◌==◌, ==_refl,
  is_id, tally-update, false_of_tally-zero, Bool-cases, inl, inr,
}
use managment2_main.Models.{Datetime, ScrapeRun, ScrapeJob}
use managment2_main.Engine.{Engine, EngineLaws}
use managment2_main.Session.{World, change_run, change_job}
use managment2_main.Session.Keeps.{Keeps, keeps_rules}
use managment2_main.Session.Tables.{Tables}
use managment2_main.RunRows.{EnqueueArgs, queued_run}
use managment2_main.Runs.Enqueue.{after_enqueue, tally-after_enqueue}
use managment2_main.Jobs.{rescheduled, set_job_next_run_at, require_job}
use managment2_main.Scheduler.{
  scheduled_args, retry_args, as_processed, as_exhausted, retry_of, run_tick,
}
use managment2_main.Scheduler.Firing.{FiringRules}
use managment2_main.Scheduler.Retrying.{RetryRules}
use managment2_main.Scheduler.Tick.{run_tick_keeps}

-- A row of job `i` with more than `n` retries; a run of it beyond the attempts that `n` retries allow.
abbrev pub allows_more : ℕ → ℕ → ScrapeJob → Bool
allows_more i n j = j.id == i && ltb n j.max_retries

abbrev pub beyond : ℕ → ℕ → ScrapeRun → Bool
beyond i n r = is_id r.job_id i && ltb (n + 1) r.attempt

-- No job `i` has more than `budget i` retries, and no run of it an attempt above `budget i + 1`.
pub record InBudget (budget : ℕ → ℕ) (runs : List ScrapeRun) (jobs : List ScrapeJob) : Type 0 where
  pub job_budget : (i : ℕ) → tally (allows_more i (budget i)) jobs ≡ 0
  pub run_budget : (i : ℕ) → tally (beyond i (budget i)) runs ≡ 0

module _ (budget : ℕ → ℕ) where
  abbrev WithinBudget : ScrapeJob → Type 0
  WithinBudget job = job.max_retries ≤ budget job.id

  within :
      (runs : List ScrapeRun) (jobs : List ScrapeJob) (job : ScrapeJob)
      → InBudget budget runs jobs
      → Mem job jobs
      → WithinBudget job
  within runs jobs job b m = ground (
    arith,
    false_of_tally-zero (allows_more job.id (budget job.id)) jobs (b.job_budget job.id) m,
    ==_refl job.id,
  )

  Keeps-change_run :
      (i : ℕ) (f : ScrapeRun → ScrapeRun)
      → ((k n : ℕ) (r : ScrapeRun) → beyond k n (f r) ≡ beyond k n r)
      → Keeps (Tables (InBudget budget)) (change_run i f)
  unfolding Tables change_run
  Keeps-change_run i f same = record {
    at = λ w b. record {
      job_budget = b.job_budget;
      run_budget = λ k.
          rw
            (tally-update (beyond k (budget k)) (λ r. r.id == i) f w.runs
              (λ r _. same k (budget k) r))
            (b.run_budget k);
    };
  }

  Keeps-change_job :
      (i : ℕ) (t : Datetime) (last : Option Datetime)
      → Keeps (Tables (InBudget budget)) (change_job i (rescheduled t last))
  unfolding Tables change_job
  Keeps-change_job i t last = record {
    at = λ w b. record {
      job_budget = λ k.
          rw
            (tally-update (allows_more k (budget k)) (λ j. j.id == i) (rescheduled t last) w.jobs
              (λ j _. refl))
            (b.job_budget k);
      run_budget = b.run_budget;
    };
  }

  Keeps-set_job_next_run_at :
      (i : ℕ) (t : Datetime) (last : Option Datetime)
      → Keeps (Tables (InBudget budget)) (set_job_next_run_at i t last)
  unfolding set_job_next_run_at require_job
  Keeps-set_job_next_run_at i t last = search (keeps_rules, Keeps-change_job)

  module _ ⦃e : Engine⦄ where
    enqueue_run-InBudget :
        (args : EnqueueArgs) (i : ℕ) (w : World)
        → args.job_id ≡ some i
        → args.attempt ≤ budget i + 1
        → Tables (InBudget budget) w
        → Tables (InBudget budget) (after_enqueue args w)
    unfolding Tables queued_run
    enqueue_run-InBudget args i w job small b = record {
      job_budget = b.job_budget;
      run_budget = λ k.
          rw (tally-after_enqueue (beyond k (budget k)) args w, b.run_budget k, job)
            (elim (Bool-cases (i == k)) [
              | inl same ↦ rw same (ground (arith, small))
              | inr other ↦ rw other refl
            ]);
    }

    firing_rules : FiringRules e (InBudget budget) WithinBudget
    firing_rules = record {
      job_known = within;
      rescheduled = Keeps-set_job_next_run_at;
      scheduled = λ job w c clear b.
          enqueue_run-InBudget (scheduled_args job) job.id w refl (omega arith) b;
    }

    retry_rules : RetryRules e (InBudget budget) WithinBudget
    retry_rules = record {
      job_known = within;
      processed = λ i. Keeps-change_run i as_processed (λ k n r. refl);
      exhausted = λ i. Keeps-change_run i as_exhausted (λ k n r. refl);
      linked = λ i s. Keeps-change_run i (retry_of s) (λ k n r. refl);
      retried = λ job source attempt w c clear left b.
          enqueue_run-InBudget (retry_args job source attempt) job.id w refl (ground arith) b;
    }

    -- A tick keeps the retry budget of every job: where no job has more retries than its budget and no
    -- run of it is beyond the first attempt and that many retries, that is still so after the tick.
    pub run_tick-InBudget :
        (laws : EngineLaws e) (now : Option Datetime) (limit : ℕ) (w : World)
        → InBudget budget w.runs w.jobs
        → InBudget budget (run_tick now limit w).1.runs (run_tick now limit w).1.jobs
    unfolding Tables
    run_tick-InBudget laws now limit w b =
        run_tick_keeps (InBudget budget) WithinBudget laws firing_rules retry_rules now limit w b
