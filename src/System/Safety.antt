-- ===== src/System/Safety.antt =====
-- The states that the scheduler and the workers reach.
use managment2_main.Base.{ℕ, none}
use managment2_main.Engine.{Engine, EngineLaws}
use managment2_main.Session.{World}
use managment2_main.Session.Tables.{Tables}
use managment2_main.Scheduler.{run_tick}
use managment2_main.Scheduler.Attempts.{run_tick-InBudget}
use managment2_main.Scheduler.Overlap.{run_tick-NoOverlap}
use managment2_main.Scheduler.Lineage.{run_tick-OneChild}
use managment2_main.Worker.{Registry}
use managment2_main.Worker.Keeps.{process_one_keeps}
use managment2_main.System.{Step, Reaches}
use managment2_main.System.Commit.{tick_once_keeps, iteration_keeps}
use managment2_main.System.Claiming.{Safe, RunnersBehave, worker_rules}

module _ ⦃e : Engine⦄ (laws : EngineLaws e) (registry : Registry) (budget : ℕ → ℕ) where
  run_tick-Safe : (w : World) → Tables (Safe budget) w → Tables (Safe budget) (run_tick none 50 w).1
  unfolding Tables
  run_tick-Safe w s = record {
    overlap = run_tick-NoOverlap laws none 50 w s.overlap;
    lineage = run_tick-OneChild laws none 50 w s.lineage;
    retries = run_tick-InBudget budget laws none 50 w s.retries;
  }

  step-Safe :
      (w v : World)
      → RunnersBehave registry (Safe budget)
      → Step registry w v
      → Tables (Safe budget) w
      → Tables (Safe budget) v
  step-Safe w v runners (Step.ticked start done fail _) s =
      tick_once_keeps (Safe budget) start done fail run_tick-Safe w s
  step-Safe w v runners (Step.worked worker _) s =
      iteration_keeps (Safe budget) registry worker
        (process_one_keeps registry (Safe budget) (worker_rules budget e registry laws runners)
          worker)
        w s

  -- Where the runners behave, every state that ticks and worker iterations reach from a safe one is
  -- safe: run and job ids are unique, a job that forbids overlap has at most one queued or running run,
  -- no run has two retry children, and no job has more retries, and no run of it more attempts, than the
  -- job's budget.
  pub Reaches-Safe :
      (w v : World)
      → RunnersBehave registry (Safe budget)
      → Reaches registry w v
      → Safe budget w.runs w.jobs
      → Safe budget v.runs v.jobs
  unfolding Tables
  Reaches-Safe w v runners (Reaches.here _) s = s
  Reaches-Safe w v runners (Reaches.then _ u _ path step) s =
      step-Safe u v runners step (Reaches-Safe w u runners path s)
