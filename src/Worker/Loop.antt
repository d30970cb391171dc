-- ===== src/Worker/Loop.antt =====
-- `run_loop` of pricewatch/scrape/worker.py: iterations, each in a session of its own that is committed
-- where a run was claimed and rolled back where none was or where `process_one` raised.
--
-- Sleeping while idle is left out.
use Prim.Native.Nat.{max}
use managment2_main.Base.{Option, ℕ, zero, suc, String, true, some, if◌then◌else◌, Bool}
use managment2_main.Models.{Message, Datetime}
use managment2_main.Engine.{Engine}
use managment2_main.Session.{
  World, WorkerState, Result, ok, raised, Action, pure, ◌>>=◌, ◌>>◌, rolled_back, change_worker,
  utcnow,
}
use managment2_main.Worker.{Registry, WorkerResult, process_one}

abbrev pub loop_started : Datetime → WorkerState → WorkerState
loop_started now s = record s { running = true; started_at = some now }

unfoldable pub settle_iteration : World → Result WorkerResult → Action (Unit {0})
unfolding rolled_back
settle_iteration before (ok result) w = (ok tt, if result.claimed then w else rolled_back before w)
settle_iteration before (raised exc) w = (ok tt, rolled_back before w)

module _ ⦃e : Engine⦄ (registry : Registry) (worker_id : String) where
  -- The body of the loop: no exception leaves it.
  unfoldable pub iteration : Action (Unit {0})
  iteration w = let (r, v) = process_one registry worker_id w in settle_iteration w r v

  unfoldable pub run_iterations : ℕ → Action (Unit {0})
  unfolding ◌>>=◌
  run_iterations zero = pure tt
  run_iterations (suc n) = do iteration; run_iterations n

  -- With `max_iterations` set. The limit is tested after an iteration, so one always runs.
  unfoldable pub run_loop : ℕ → Action (Unit {0})
  unfolding ◌>>=◌
  run_loop max_iterations = do
    now ← utcnow
    change_worker (loop_started now)
    run_iterations (max 1 max_iterations)

-- `get_worker_runtime_status`, without the conversion of times to texts.
pub record WorkerStatus : Type 0 where
  pub running : Bool
  pub started_at : Option Datetime
  pub worker_last_poll_at : Option Datetime
  pub worker_last_claimed_run_id : Option ℕ
  pub worker_last_completed_run_id : Option ℕ
  pub worker_last_error : Option Message
  pub worker_polls_total : ℕ
  pub worker_runs_claimed_total : ℕ

unfoldable pub get_worker_runtime_status : World → WorkerStatus
get_worker_runtime_status w = record {
  running = w.worker.running;
  started_at = w.worker.started_at;
  worker_last_poll_at = w.worker.last_poll_at;
  worker_last_claimed_run_id = w.worker.last_claimed_run_id;
  worker_last_completed_run_id = w.worker.last_completed_run_id;
  worker_last_error = w.worker.last_error;
  worker_polls_total = w.worker.polls_total;
  worker_runs_claimed_total = w.worker.runs_claimed_total;
}
