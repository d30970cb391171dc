-- ===== src/Tests/Systems.antt =====
-- The theorems on the scheduler and the workers together, at concrete states.
use managment2_main.Base.{String, ◌≡◌, refl, arith, tally, inl, inr, Bool-cases, str_eq, ◌⊎◌}
use managment2_main.Session.{World, ok}
use managment2_main.Session.Tables.{Tables}
use managment2_main.Sample.{sample_laws, sample_engine}
use managment2_main.Sample.World.{due_world}
use managment2_main.Sample.Runners.{sample_registry, shop_runner, broken_runner, three_products}
use managment2_main.RunRows.{active_run_of, child_of}
use managment2_main.Worker.{Runner, get_runner}
use managment2_main.Worker.Loop.{iteration}
use managment2_main.Scheduler.Loop.{tick_once}
use managment2_main.System.{Step, Reaches}
use managment2_main.System.Claiming.{Safe, RunnersBehave}
use managment2_main.System.Safety.{Reaches-Safe}

due_world-Safe : Safe (λ _. 2) due_world.runs due_world.jobs
unfolding tally active_run_of child_of
due_world-Safe = record {
  overlap = record { unique = λ i. ground arith; at_most_one = λ i s. ground arith };
  lineage = record { unique = λ i. ground arith; at_most_one = λ k. ground arith };
  retries = record { job_budget = λ i. ground arith; run_budget = λ i. ground arith };
}

-- A registered runner is one of the two.
registered :
    (name : String) (runner : Runner)
    → get_runner name sample_registry ≡ ok runner
    → (runner ≡ shop_runner) ⊎ (runner ≡ broken_runner)
unfolding get_runner
registered name runner found = elim (Bool-cases (str_eq "shop_scrape" name)) [
  | inl shop ↦ inl (cc (rw shop at found))
  | inr not_shop ↦ elim (Bool-cases (str_eq "mall_scrape" name)) [
    | inl mall ↦ inr (cc (rw (not_shop, mall) at found))
    | inr neither ↦ absurd (cc (rw (not_shop, neither) at found))
  ]
]

sample_runners : RunnersBehave sample_registry (Safe (λ _. 2))
unfolding Tables
sample_runners = record {
  keeps = λ name runner ctx found. elim (registered name runner found) [
    | inl shop ↦ rw shop (record { at = λ w s. s })
    | inr broken ↦ rw broken (record { at = λ w s. s })
  ];
  ends = λ name runner ctx w result found same. elim (registered name runner found) [
    | inl shop ↦ let here : result ≡ three_products = cc (rw shop at same) in rw here refl
    | inr broken ↦ absurd (cc (rw broken at same))
  ];
}

-- A tick and then a worker's iteration.
abbrev ticked : World
ticked = (tick_once (λ _. ok tt) (λ _ _. ok tt) (λ _ _. ok tt) due_world).1

abbrev worked : World
worked = (iteration sample_registry "w1" ticked).1

path : Reaches sample_registry due_world worked
path =
    Reaches.then due_world ticked worked
      (Reaches.then due_world due_world ticked (Reaches.here due_world)
        (Step.ticked (λ _. ok tt) (λ _ _. ok tt) (λ _ _. ok tt) due_world))
      (Step.worked "w1" ticked)

Reaches-Safe_example : Safe (λ _. 2) worked.runs worked.jobs
Reaches-Safe_example =
    Reaches-Safe sample_laws sample_registry (λ _. 2) due_world worked sample_runners path
      due_world-Safe
