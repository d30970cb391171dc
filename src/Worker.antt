-- ===== src/Worker.antt =====
-- pricewatch/scrape/worker.py and registry.py: claiming a queued run, running it, storing its outcome.
--
-- A runner class is its name and its `run` method, which may change the database and may raise.
pub mod Loop
pub mod Keeps
pub mod Outcome
pub mod Registering
use managment2_main.Base.{
  ℕ, suc, String, Bool, true, false, ◌||◌, Option, none, some, List, [], ◌∷◌, ltb, if◌then◌else◌,
  str_eq, ◌==◌,
}
use managment2_main.Models.{
  JsonObject, Datetime, failed, Error, empty_runner_type, unknown_runner_type, Message, literal,
  of_error, unhandled, Counters, no_counts, ScrapeRun, ScrapeJob, RunnerResult, is_failed,
}
use managment2_main.Engine.{Engine}
use managment2_main.Session.{
  World, WorkerState, Result, ok, raised, Action, pure, gets, catch, ◌>>=◌, ◌>>◌, job_row,
  change_worker, utcnow,
}
use managment2_main.RunRows.{CounterArgs}
use managment2_main.Runs.{claim_next_queued_run, complete_run, update_counters}

pub record RunnerContext : Type 0 where
  pub run_id : ℕ
  pub job_id : Option ℕ
  pub runner_type : String
  pub params : JsonObject
  pub checkpoint_in : Option JsonObject

pub record Runner : Type 0 where
  pub runner_type : String
  pub run : RunnerContext → Action RunnerResult

-- `_REGISTRY`
abbrev pub Registry : Type 0
Registry = List Runner

-- `_REGISTRY[runner_cls.runner_type] = runner_cls`
unfoldable pub put_runner : Runner → Registry → Registry
put_runner r [] = r ∷ []
put_runner r (q ∷ reg) =
    if str_eq q.runner_type r.runner_type then r ∷ reg else q ∷ put_runner r reg

unfoldable pub register_runner : Runner → Registry → Result Registry
unfolding put_runner
register_runner r reg =
    if str_eq r.runner_type ""
    then raised (empty_runner_type r.runner_type)
    else ok (put_runner r reg)

unfoldable pub get_runner : String → Registry → Result Runner
get_runner name [] = raised (unknown_runner_type name)
get_runner name (q ∷ reg) = if str_eq q.runner_type name then ok q else get_runner name reg

-- `WorkerResult`
pub record WorkerResult : Type 0 where
  pub claimed : Bool
  pub run_id : Option ℕ
  pub runner_type : Option String
  pub outcome : Option RunnerResult
  pub error : Option Error

abbrev pub nothing_claimed : WorkerResult
nothing_claimed = record {
  claimed = false;
  run_id = none;
  runner_type = none;
  outcome = none;
  error = none;
}

-- `run.run_type or ""`
abbrev pub type_name : Option String → String
type_name none = ""
type_name (some t) = t

-- `dict(run.job.params_json or {}) if run.job and run.job.params_json else {}`
abbrev params_of : Option ScrapeJob → JsonObject
params_of none = JsonObject.end
params_of (some job) = elim job.params_json [ none ↦ JsonObject.end | some p ↦ p ]

abbrev job_of : Option ℕ → World → Option ScrapeJob
unfolding job_row
job_of none w = none
job_of (some i) w = job_row i w

abbrev pub context_of : ScrapeRun → World → RunnerContext
unfolding job_row
context_of run w = record {
  run_id = run.id;
  job_id = run.job_id;
  runner_type = type_name run.run_type;
  params = params_of (job_of run.job_id w);
  checkpoint_in = run.checkpoint_in_json;
}

-- What a runner that raised is taken to have returned.
abbrev pub crashed : Error → RunnerResult
crashed exc = record {
  status = failed;
  error_message = some (unhandled exc);
  checkpoint_out = none;
  counts = no_counts;
  retryable = false;
}

-- `n or None`
abbrev pub none_if_zero : ℕ → Option ℕ
none_if_zero n = if n == 0 then none else some n

abbrev pub counter_args : Counters → CounterArgs
counter_args c = record {
  categories_processed = none_if_zero c.categories_processed;
  products_processed = none_if_zero c.products_processed;
  products_created = none_if_zero c.products_created;
  products_updated = none_if_zero c.products_updated;
  price_changes_detected = none_if_zero c.price_changes_detected;
}

abbrev pub has_counters : Counters → Bool
has_counters c =
    ltb 0 c.categories_processed
    || ltb 0 c.products_processed
    || ltb 0 c.products_created
    || ltb 0 c.products_updated
    || ltb 0 c.price_changes_detected

unfoldable pub persist_counters : ℕ → RunnerResult → Action (Unit {0})
unfolding ◌>>=◌
persist_counters run_id result =
    if has_counters result.counts
    then catch (do run ← update_counters run_id (counter_args result.counts) false; pure tt)
        (λ exc. pure tt)
    else pure tt

-- An empty text counts as no message.
abbrev pub truthy : Option Message → Option Message
truthy none = none
truthy (some (literal t)) = if str_eq t "" then none else some (literal t)
truthy (some (of_error x)) = some (of_error x)
truthy (some (unhandled x)) = some (unhandled x)

-- `_worker_state["last_error"]` after a run that finished.
abbrev pub last_error_of : RunnerResult → Option Message
last_error_of result = if is_failed (some result.status) then truthy result.error_message else none

abbrev pub polled : Datetime → WorkerState → WorkerState
polled now s = record s { last_poll_at = some now; polls_total = suc s.polls_total }

abbrev pub claimed_run : ℕ → WorkerState → WorkerState
claimed_run run_id s = record s {
  last_claimed_run_id = some run_id;
  runs_claimed_total = suc s.runs_claimed_total;
}

abbrev pub completed_run : ℕ → Option Message → WorkerState → WorkerState
completed_run run_id message s = record s {
  last_completed_run_id = some run_id;
  last_error = message;
}

module _ ⦃e : Engine⦄ where
  -- The runner's result; an exception becomes a failed result.
  unfoldable pub run_safely : Runner → ScrapeRun → Action RunnerResult
  unfolding ◌>>=◌
  run_safely runner run = do
    ctx ← gets (context_of run)
    catch (runner.run ctx) (λ exc. pure (crashed exc))

  -- Steps 3 to 5 of `process_one`.
  unfoldable pub execute : Runner → ScrapeRun → Action WorkerResult
  unfolding ◌>>=◌
  execute runner run = do
    result ← run_safely runner run
    done ←
        complete_run run.id result.status result.error_message result.checkpoint_out
          result.retryable
    persist_counters run.id result
    change_worker (completed_run run.id (last_error_of result))
    pure (record {
      claimed = true;
      run_id = some run.id;
      runner_type = some (type_name run.run_type);
      outcome = some result;
      error = none;
    })

  unfoldable pub reject : ScrapeRun → Error → Action WorkerResult
  unfolding ◌>>=◌
  reject run exc = do
    done ← complete_run run.id failed (some (of_error exc)) none false
    change_worker (completed_run run.id (some (of_error exc)))
    pure (record {
      claimed = true;
      run_id = some run.id;
      runner_type = some (type_name run.run_type);
      outcome = none;
      error = some exc;
    })

  unfoldable pub dispatch : Result Runner → ScrapeRun → Action WorkerResult
  dispatch (ok runner) run = execute runner run
  dispatch (raised exc) run = reject run exc

  unfoldable pub process_claimed : Registry → Option ScrapeRun → Action WorkerResult
  unfolding ◌>>=◌
  process_claimed registry none = pure nothing_claimed
  process_claimed registry (some run) = do
    change_worker (claimed_run run.id)
    dispatch (get_runner (type_name run.run_type) registry) run

  unfoldable pub process_one : Registry → String → Action WorkerResult
  unfolding ◌>>=◌
  process_one registry worker_id = do
    now ← utcnow
    change_worker (polled now)
    run ← claim_next_queued_run worker_id
    process_claimed registry run
