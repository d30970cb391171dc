-- ===== src/Tests/Outcomes.antt =====
-- The theorems on outcomes, the registry and refused schedules at concrete states.
use managment2_main.Sample.World.{
  failed_row, loose_row, waiting_world, due_world, run_of, strict_row, hourly, at,
}
use managment2_main.Models.{
  Datetime, seconds, naive_and_aware, ScrapeRun, ScrapeSchedule, running, unhandled, of_error,
  runner_raised, unknown_runner_type, empty_runner_type, interval_not_positive,
}
use managment2_main.Session.{retry_failed, World, ok, raised, job_failed}
use managment2_main.Jobs.{get_scrape_job, has_active_run_for_job}
use managment2_main.Scheduler.{
  candidate, overlap_guard, due_job, scheduled_args, note_enqueued, note_error,
}
use managment2_main.Scheduler.Refused.{candidate_naive, due_job_refused}
use managment2_main.Schedules.{get_schedule_for_job}
use managment2_main.Base.{
  ℕ, ◌≡◌, refl, true, false, some, [], ◌∷◌, str_eq, ◌==◌, if◌then◌else◌, inr, find, select, ◌⊎◌,
}
use managment2_main.Sample.{sample_engine}
use managment2_main.Sample.Runners.{sample_registry, shop_runner, broken_runner, three_products}
use managment2_main.Runs.{get_run}
use managment2_main.Runs.Enqueue.{enqueued, after_enqueue}
use managment2_main.RunRows.{active_run_of}
use managment2_main.Worker.{
  Registry, get_runner, register_runner, run_safely, execute, process_claimed,
}
use managment2_main.Worker.Outcome.{
  FailedWith, stored, get_run-execute, execute_crash, process_claimed_unknown,
}
use managment2_main.Worker.Registering.{get_runner-register_runner}

-- The run that the worker executes.
abbrev claimed : ScrapeRun
claimed = run_of 2 2 running

present : get_run 2 waiting_world ≡ some claimed
unfolding get_run find
present = refl

three_counted : run_safely shop_runner claimed waiting_world ≡ (ok three_products, waiting_world)
unfolding run_safely
three_counted = refl

get_run-execute_example :
    get_run 2 (execute shop_runner claimed waiting_world).1
    ≡ some (stored waiting_world three_products claimed)
get_run-execute_example =
    get_run-execute shop_runner claimed claimed 2 three_products waiting_world waiting_world
      three_counted present

execute_crash_example :
    (final : ScrapeRun) × FailedWith (unhandled (runner_raised "timeout")) claimed final
    × ((j : ℕ)
        → get_run j (execute broken_runner claimed waiting_world).1
          ≡ (if 2 == j then some final else get_run j waiting_world))
execute_crash_example =
    execute_crash broken_runner claimed claimed (runner_raised "timeout") waiting_world
      waiting_world refl present

no_runner : get_runner "shop_scrape" [] ≡ raised (unknown_runner_type "shop_scrape")
unfolding get_runner
no_runner = refl

process_claimed_unknown_example :
    (final : ScrapeRun) × FailedWith (of_error (unknown_runner_type "shop_scrape")) claimed final
    × ((j : ℕ)
        → get_run j (process_claimed [] (some claimed) waiting_world).1
          ≡ (if 2 == j then some final else get_run j waiting_world))
process_claimed_unknown_example =
    process_claimed_unknown [] claimed claimed (unknown_runner_type "shop_scrape") waiting_world
      no_runner present

get_runner-register_runner_example :
    (str_eq "shop_scrape" "" ≡ true
      × (register_runner shop_runner sample_registry ≡ raised (empty_runner_type "shop_scrape")))
    ⊎ ((after : Registry) × (register_runner shop_runner sample_registry ≡ ok after)
        × (get_runner "mall_scrape" after ≡ (
            if str_eq "shop_scrape" "mall_scrape"
            then ok shop_runner
            else get_runner "mall_scrape" sample_registry)))
get_runner-register_runner_example =
    get_runner-register_runner shop_runner sample_registry "mall_scrape"

abbrev broken_schedule : ScrapeSchedule
broken_schedule = record hourly { interval_sec = some 0 }

abbrev refused_world : World
refused_world = record due_world { schedules = broken_schedule ∷ [] }

free : overlap_guard strict_row refused_world ≡ false
unfolding overlap_guard has_active_run_for_job active_run_of select
free = refl

scheduled : get_schedule_for_job 1 refused_world ≡ some broken_schedule
unfolding get_schedule_for_job select sample_engine
scheduled = refl

due_job_refused_example : due_job (at 1000) strict_row refused_world ≡ (
  ok tt,
  record (after_enqueue (scheduled_args strict_row) refused_world) {
    tick =
        note_error (job_failed 1 interval_not_positive) (
          note_enqueued (enqueued (scheduled_args strict_row) refused_world).id refused_world.tick);
  },
)
due_job_refused_example =
    due_job_refused (at 1000) strict_row broken_schedule refused_world free scheduled refl
      (inr refl)

-- Job 2 has retries left; its failed run ended at a naive time.
abbrev naive_row : ScrapeRun
naive_row = record failed_row { finished_at = some (Datetime.naive (seconds 500)) }

job_found : get_scrape_job 2 due_world ≡ some loose_row
unfolding get_scrape_job find
job_found = refl

candidate_naive_example : candidate (at 1000) naive_row due_world ≡ (
  ok tt,
  record due_world { tick = note_error (retry_failed 3 naive_and_aware) due_world.tick },
)
candidate_naive_example =
    candidate_naive naive_row loose_row 2 (seconds 500) (seconds 1000) due_world refl job_found refl
      refl refl
