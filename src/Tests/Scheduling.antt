-- ===== src/Tests/Scheduling.antt =====
-- The scheduler's theorems at concrete states.
use managment2_main.Base.{some, arith, tally}
use managment2_main.Sample.{sample_laws, sample_engine}
use managment2_main.Sample.World.{due_world, at}
use managment2_main.RunRows.{active_run_of, child_of}
use managment2_main.Scheduler.{run_tick}
use managment2_main.Scheduler.Guard.{NoOverlap}
use managment2_main.Scheduler.Attempts.{InBudget, run_tick-InBudget}
use managment2_main.Scheduler.Lineage.{OneChild, run_tick-OneChild}
use managment2_main.Scheduler.Overlap.{run_tick-NoOverlap}

due_world-NoOverlap : NoOverlap due_world.runs due_world.jobs
unfolding tally active_run_of
due_world-NoOverlap = record { unique = λ i. ground arith; at_most_one = λ i s. ground arith }

run_tick-NoOverlap_example :
    NoOverlap
      (run_tick (some (at 1000)) 50 due_world).1.runs
      (run_tick (some (at 1000)) 50 due_world).1.jobs
run_tick-NoOverlap_example =
    run_tick-NoOverlap sample_laws (some (at 1000)) 50 due_world due_world-NoOverlap

-- Job 2 has two retries, so its budget and that of every other job is two.
due_world-InBudget : InBudget (λ _. 2) due_world.runs due_world.jobs
unfolding tally
due_world-InBudget = record { job_budget = λ i. ground arith; run_budget = λ i. ground arith }

run_tick-InBudget_example :
    InBudget
      (λ _. 2)
      (run_tick (some (at 1000)) 50 due_world).1.runs
      (run_tick (some (at 1000)) 50 due_world).1.jobs
run_tick-InBudget_example =
    run_tick-InBudget (λ _. 2) sample_laws (some (at 1000)) 50 due_world due_world-InBudget

due_world-OneChild : OneChild due_world.runs
unfolding tally child_of
due_world-OneChild = record { unique = λ i. ground arith; at_most_one = λ k. ground arith }

run_tick-OneChild_example : OneChild (run_tick (some (at 1000)) 50 due_world).1.runs
run_tick-OneChild_example =
    run_tick-OneChild sample_laws (some (at 1000)) 50 due_world due_world-OneChild
