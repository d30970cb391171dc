-- ===== src/Scheduler/Guard.antt =====
-- The overlap guard as a property of the two tables, and the writes that keep it.
use managment2_main.Base.{
  ℕ, ◌≤◌, ◌≡◌, refl, false, Bool, not, ◌&&◌, Option, some, List, Mem, tally, arith, ◌==◌, inl, inr,
  Bool-cases, ==_refl, ==_iff, tally-update, tally-split, tally-pos_of_mem, update,
}
use managment2_main.Models.{Datetime, ScrapeRun, ScrapeJob}
use managment2_main.Engine.{Engine}
use managment2_main.Session.{World, change_run, change_job}
use managment2_main.Session.Keeps.{Keeps, keeps_rules}
use managment2_main.Session.Tables.{Tables}
use managment2_main.RunRows.{active_run_of, EnqueueArgs, queued_run}
use managment2_main.Runs.Enqueue.{after_enqueue, tally-after_enqueue}
use managment2_main.Jobs.{rescheduled, set_job_next_run_at, require_job}

-- A job row with this id that forbids overlap.
abbrev pub strict_job : ℕ → ScrapeJob → Bool
strict_job i j = j.id == i && not j.allow_overlap

-- Job ids are unique, and a job that forbids overlap has at most one active run.
pub record NoOverlap (runs : List ScrapeRun) (jobs : List ScrapeJob) : Type 0 where
  pub unique : (i : ℕ) → tally (λ j. j.id == i) jobs ≤ 1
  pub at_most_one : (i : ℕ) → 1 ≤ tally (strict_job i) jobs → tally (active_run_of i) runs ≤ 1

-- The same, with the count of strict rows named: it does not change during a tick.
pub record Guarded (strict : ℕ → ℕ) (runs : List ScrapeRun) (jobs : List ScrapeJob) : Type 0 where
  pub strict_count : (i : ℕ) → tally (strict_job i) jobs ≡ strict i
  pub unique_id : (i : ℕ) → tally (λ j. j.id == i) jobs ≤ 1
  pub one_active : (i : ℕ) → 1 ≤ strict i → tally (active_run_of i) runs ≤ 1

module _ (strict : ℕ → ℕ) where
  abbrev pub IsGuarded : World → Type 0
  IsGuarded = Tables (Guarded strict)

  -- The row of a job with a strict row is that row.
  abbrev pub IsConsistent : ScrapeJob → Type 0
  IsConsistent job = 1 ≤ strict job.id → job.allow_overlap ≡ false

  pub IsConsistent-of_mem :
      (runs : List ScrapeRun) (jobs : List ScrapeJob) (job : ScrapeJob)
      → Guarded strict runs jobs
      → Mem job jobs
      → IsConsistent job
  IsConsistent-of_mem runs jobs job g m some_strict = elim (Bool-cases job.allow_overlap) [
    | inr strict_row ↦ strict_row
    | inl loose ↦ absurd (
        omega (
          arith,
          g.strict_count job.id,
          g.unique_id job.id,
          tally-split (λ j. j.id == job.id) (λ j. not j.allow_overlap) jobs,
          tally-pos_of_mem (λ j. j.id == job.id && not (not j.allow_overlap)) jobs m
              (rw (==_refl job.id, loose) refl),
        ))
  ]

  pub Keeps-change_run :
      (i : ℕ) (f : ScrapeRun → ScrapeRun)
      → ((k : ℕ) (r : ScrapeRun) → active_run_of k (f r) ≡ active_run_of k r)
      → Keeps IsGuarded (change_run i f)
  unfolding Tables change_run
  Keeps-change_run i f same = record {
    at = λ w g. record {
      strict_count = g.strict_count;
      unique_id = g.unique_id;
      one_active = λ k s.
          rw (tally-update (active_run_of k) (λ r. r.id == i) f w.runs (λ r _. same k r))
            (g.one_active k s);
    };
  }

  reschedule-Guarded :
      (i : ℕ) (t : Datetime) (last : Option Datetime) (w : World)
      → IsGuarded w
      → IsGuarded (record w { jobs = update (λ j. j.id == i) (rescheduled t last) w.jobs })
  unfolding Tables
  reschedule-Guarded i t last w g = record {
    strict_count = λ k.
        rw (tally-update (strict_job k) (λ j. j.id == i) (rescheduled t last) w.jobs (λ j _. refl))
          (g.strict_count k);
    unique_id = λ k.
        rw
          (tally-update (λ j. j.id == k) (λ j. j.id == i) (rescheduled t last) w.jobs (λ j _. refl))
          (g.unique_id k);
    one_active = g.one_active;
  }

  Keeps-change_job :
      (i : ℕ) (t : Datetime) (last : Option Datetime)
      → Keeps IsGuarded (change_job i (rescheduled t last))
  unfolding change_job
  Keeps-change_job i t last = record { at = reschedule-Guarded i t last }

  pub Keeps-set_job_next_run_at :
      (i : ℕ) (t : Datetime) (last : Option Datetime)
      → Keeps IsGuarded (set_job_next_run_at i t last)
  unfolding set_job_next_run_at require_job
  Keeps-set_job_next_run_at i t last = search (keeps_rules, Keeps-change_job)

  module _ ⦃e : Engine⦄ where
    -- Enqueueing keeps the guard where the job has no active run, or no strict row.
    pub enqueue_run-Guarded :
        (args : EnqueueArgs) (i : ℕ) (w : World)
        → args.job_id ≡ some i
        → (1 ≤ strict i → tally (active_run_of i) w.runs ≡ 0)
        → IsGuarded w
        → IsGuarded (after_enqueue args w)
    unfolding Tables active_run_of queued_run
    enqueue_run-Guarded args i w job free g = record {
      strict_count = g.strict_count;
      unique_id = g.unique_id;
      one_active = λ k s.
          rw (tally-after_enqueue (active_run_of k) args w, job)
            (elim (Bool-cases (i == k)) [
              | inl same ↦
                  let here : i ≡ k = (==_iff i k).0 same in
                  let idle : tally (active_run_of k) w.runs ≡ 0 = rw (← here) (free (rw here s)) in
                  rw same (omega arith)
              | inr other ↦ rw other (ground (arith, g.one_active k s))
            ]);
    }
