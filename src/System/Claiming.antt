-- ===== src/System/Claiming.antt =====
-- The worker's writes, the overlap guard, the lineage of retries and the retry budget.
use managment2_main.Scheduler.Attempts.{InBudget, beyond}
use managment2_main.Base.{
  ℕ, String, ◌≤◌, ◌≡◌, refl, Bool, true, false, not, ◌&&◌, Option, some, List, Mem, tally, update,
  arith, ◌==◌, ==_refl, tally-split, tally-pos_of_mem, false_of_tally-zero, tally-update,
  tally-update-le, tally-update_members, Option-cases, inl, inr,
}
use managment2_main.Models.{
  JsonObject, Datetime, RunStatus, Message, ScrapeRun, ScrapeJob, is_queued, is_active,
  RunnerResult,
}
use managment2_main.Engine.{Engine, EngineLaws}
use managment2_main.Session.{World, change_run, ok, ◌>>=◌, utcnow}
use managment2_main.Session.Keeps.{Keeps, Keeps-bind, keeps_rules}
use managment2_main.Session.Tables.{Tables, Keeps-utcnow}
use managment2_main.RunRows.{
  active_run_of, child_of, claimed_by, complete_with, CounterArgs, apply_counts,
}
use managment2_main.Runs.{
  next_queued, claim, claim_next_queued_run, changed, require_run, complete_run, update_counters,
}
use managment2_main.Runs.Claim.{next_queued_oldest}
use managment2_main.Scheduler.Guard.{NoOverlap}
use managment2_main.Scheduler.Lineage.{OneChild}
use managment2_main.Worker.{Registry, Runner, RunnerContext, get_runner}
use managment2_main.Worker.Keeps.{WorkerRules}

-- What holds of the two tables in every state of the system.
pub record Safe (budget : ℕ → ℕ) (runs : List ScrapeRun) (jobs : List ScrapeJob) : Type 0 where
  pub overlap : NoOverlap runs jobs
  pub lineage : OneChild runs
  pub retries : InBudget budget runs jobs

-- Ids are unique, so every row with the id of a queued run is queued.
rows_queued :
    (runs : List ScrapeRun) (source r : ScrapeRun)
    → tally (λ q. q.id == source.id) runs ≤ 1
    → Mem source runs
    → is_queued source.status ≡ true
    → Mem r runs
    → (r.id == source.id) ≡ true
    → is_queued r.status ≡ true
rows_queued runs source r unique m waits m' same =
    let waiting : 1 ≤ tally (λ q. (q.id == source.id) && is_queued q.status) runs =
      tally-pos_of_mem (λ q. (q.id == source.id) && is_queued q.status) runs m
        (rw (==_refl source.id, waits) refl) in
    let others : tally (λ q. (q.id == source.id) && not (is_queued q.status)) runs ≡ 0 =
      omega (arith, tally-split (λ q. q.id == source.id) (λ q. is_queued q.status) runs) in
    ground (
      arith,
      false_of_tally-zero (λ q. (q.id == source.id) && not (is_queued q.status)) runs others m',
    )

active_of_queued :
    (k : ℕ) (worker : String) (t : Datetime) (r : ScrapeRun)
    → is_queued r.status ≡ true
    → active_run_of k (claimed_by worker t r) ≡ active_run_of k r
unfolding active_run_of
active_of_queued k worker t r waits = ground arith

-- What is asked of the registered runners: they keep what holds of the tables, and they report a
-- status that is not queued or running.
pub record RunnersBehave (registry : Registry) (Q : List ScrapeRun → List ScrapeJob → Type 0)
    : Type 0 where
  pub keeps :
      (name : String) (runner : Runner) (ctx : RunnerContext)
      → get_runner name registry ≡ ok runner
      → Keeps (Tables Q) (runner.run ctx)
  pub ends :
      (name : String) (runner : Runner) (ctx : RunnerContext) (w : World) (result : RunnerResult)
      → get_runner name registry ≡ ok runner
      → (runner.run ctx w).0 ≡ ok result
      → is_active (some result.status) ≡ false

module _ (budget : ℕ → ℕ) where
  -- A write to rows that makes no run active and leaves ids and lineage alone.
  Safe-update :
      (runs : List ScrapeRun) (jobs : List ScrapeJob) (i : ℕ) (f : ScrapeRun → ScrapeRun)
      → ((k : ℕ)
          → tally (active_run_of k) (update (λ r. r.id == i) f runs) ≤ tally (active_run_of k) runs)
      → ((k : ℕ) (r : ScrapeRun) → child_of k (f r) ≡ child_of k r)
      → ((k : ℕ) (r : ScrapeRun) → ((f r).id == k) ≡ (r.id == k))
      → ((k n : ℕ) (r : ScrapeRun) → beyond k n (f r) ≡ beyond k n r)
      → Safe budget runs jobs
      → Safe budget (update (λ r. r.id == i) f runs) jobs
  Safe-update runs jobs i f fewer lineage ids attempts s = record {
    overlap = record {
      unique = s.overlap.unique;
      at_most_one = λ k strict. omega (arith, fewer k, s.overlap.at_most_one k strict);
    };
    lineage = record {
      unique = λ k.
          rw (tally-update (λ r. r.id == k) (λ r. r.id == i) f runs (λ r _. ids k r))
            (s.lineage.unique k);
      at_most_one = λ k.
          rw (tally-update (child_of k) (λ r. r.id == i) f runs (λ r _. lineage k r))
            (s.lineage.at_most_one k);
    };
    retries = record {
      job_budget = s.retries.job_budget;
      run_budget = λ k.
          rw
            (tally-update (beyond k (budget k)) (λ r. r.id == i) f runs
              (λ r _. attempts k (budget k) r))
            (s.retries.run_budget k);
    };
  }

  module _ ⦃e : Engine⦄ where
    claim_next_queued_run-Safe :
        (laws : EngineLaws e) (worker : String) (w : World)
        → Tables (Safe budget) w
        → Tables (Safe budget) (claim_next_queued_run worker w).1
    unfolding claim_next_queued_run Tables claim changed change_run child_of
    claim_next_queued_run-Safe laws worker w s = elim (Option-cases (next_queued w)) [
      | inl idle ↦ rw idle s
      | inr (source, found) ↦
          let (m, waits, _) = next_queued_oldest laws w found in
          let stamp = claimed_by worker (Datetime.aware (e.clock w.clock_reads)) in
          rw found (
            Safe-update w.runs w.jobs source.id stamp
              (λ k.
                rw
                  (tally-update_members (active_run_of k) (λ r. r.id == source.id) stamp w.runs
                    (λ r m' same.
                      active_of_queued k worker (Datetime.aware (e.clock w.clock_reads)) r
                        (rows_queued w.runs source r (s.lineage.unique source.id) m waits m' same)))
                  (omega arith))
              (λ k r. refl) (λ k r. refl) (λ k n r. refl) s)
    ]

  Keeps-changed :
      (f : ScrapeRun → ScrapeRun) (run : ScrapeRun)
      → ((k : ℕ) (r : ScrapeRun) → active_run_of k (f r) ≡ true → active_run_of k r ≡ true)
      → ((k : ℕ) (r : ScrapeRun) → child_of k (f r) ≡ child_of k r)
      → ((k : ℕ) (r : ScrapeRun) → ((f r).id == k) ≡ (r.id == k))
      → ((k n : ℕ) (r : ScrapeRun) → beyond k n (f r) ≡ beyond k n r)
      → Keeps (Tables (Safe budget)) (changed f run)
  unfolding changed change_run Tables
  Keeps-changed f run active lineage ids attempts = record {
    at = λ w s.
        Safe-update w.runs w.jobs run.id f
          (λ k.
            tally-update-le (active_run_of k) (λ r. r.id == run.id) f w.runs (λ r _. active k r))
          lineage ids attempts s;
  }

  Keeps-require_run : (i : ℕ) → Keeps (Tables (Safe budget)) (require_run i)
  unfolding require_run
  Keeps-require_run i = search keeps_rules

  Keeps-counted :
      (i : ℕ) (args : CounterArgs) (absolute : Bool)
      → Keeps (Tables (Safe budget)) (update_counters i args absolute)
  unfolding update_counters ◌>>=◌ active_run_of child_of
  Keeps-counted i args absolute =
      Keeps-bind (require_run i)
        (changed (λ r. record r { counters = apply_counts absolute r.counters args }))
        (Keeps-require_run i)
        (λ run. Keeps-changed _ run (λ k r h. h) (λ k r. refl) (λ k r. refl) (λ k n r. refl))

  module _ ⦃e : Engine⦄ where
    Keeps-completed :
        (i : ℕ) (status : RunStatus) (text : Option Message) (out : Option JsonObject)
        (retry : Bool)
        → is_active (some status) ≡ false
        → Keeps (Tables (Safe budget)) (complete_run i status text out retry)
    unfolding complete_run ◌>>=◌ active_run_of child_of
    Keeps-completed i status text out retry ends =
        Keeps-bind (require_run i)
          (λ run. utcnow >>= λ now. changed (complete_with status text out retry now) run)
          (Keeps-require_run i)
          (λ run.
            Keeps-bind utcnow (λ now. changed (complete_with status text out retry now) run)
              (Keeps-utcnow (Safe budget))
              (λ now.
                Keeps-changed _ run (λ k r h. ground arith) (λ k r. refl) (λ k r. refl)
                  (λ k n r. refl)))

  pub worker_rules :
      (e : Engine) (registry : Registry)
      → EngineLaws e
      → RunnersBehave registry (Safe budget)
      → WorkerRules e registry (Safe budget)
  worker_rules e registry laws runners = record {
    claimed = claim_next_queued_run-Safe ⦃e = e⦄ laws;
    completed = Keeps-completed ⦃e = e⦄;
    counted = Keeps-counted;
    runner_keeps = runners.keeps;
    runner_ends = runners.ends;
  }
