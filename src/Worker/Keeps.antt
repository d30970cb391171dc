-- ===== src/Worker/Keeps.antt =====
-- One call of `process_one`, for statements about the runs and the jobs.
use managment2_main.Base.{ℕ, String, ◌≡◌, refl, false, Bool, Option, none, some, List}
use managment2_main.Models.{
  JsonObject, RunStatus, Message, ScrapeRun, ScrapeJob, RunnerResult, Error, failed, is_active,
  of_error,
}
use managment2_main.Engine.{Engine}
use managment2_main.Session.{World, Result, ok, raised, change_worker, catch, utcnow, pure}
use managment2_main.Session.Keeps.{Keeps, Keeps-bind, keeps_rules, bind_at}
use managment2_main.Session.Tables.{Tables, Keeps-utcnow, Keeps-change_worker}
use managment2_main.RunRows.{CounterArgs}
use managment2_main.Runs.{claim_next_queued_run, complete_run, update_counters}
use managment2_main.Worker.{
  Runner, RunnerContext, Registry, get_runner, context_of, crashed, run_safely, execute, reject,
  dispatch, process_claimed, process_one, persist_counters, polled, claimed_run, type_name,
}

-- What the writes of `process_one` and the registered runners do to a statement `Q`.
pub record WorkerRules (e : Engine) (registry : Registry)
    (Q : List ScrapeRun → List ScrapeJob → Type 0) : Type 0 where
  pub claimed :
      (worker : String) (w : World)
      → Tables Q w
      → Tables Q (claim_next_queued_run ⦃e = e⦄ worker w).1
  pub completed :
      (i : ℕ) (status : RunStatus) (text : Option Message) (out : Option JsonObject) (retry : Bool)
      → is_active (some status) ≡ false
      → Keeps (Tables Q) (complete_run ⦃e = e⦄ i status text out retry)
  pub counted :
      (i : ℕ) (args : CounterArgs) (absolute : Bool)
      → Keeps (Tables Q) (update_counters i args absolute)
  pub runner_keeps :
      (name : String) (runner : Runner) (ctx : RunnerContext)
      → get_runner name registry ≡ ok runner
      → Keeps (Tables Q) (runner.run ctx)
  pub runner_ends :
      (name : String) (runner : Runner) (ctx : RunnerContext) (w : World) (result : RunnerResult)
      → get_runner name registry ≡ ok runner
      → (runner.run ctx w).0 ≡ ok result
      → is_active (some result.status) ≡ false

module _ ⦃e : Engine⦄ (registry : Registry) (Q : List ScrapeRun → List ScrapeJob → Type 0)
    (rules : WorkerRules e registry Q) where
  -- A runner's result, or what stands for it after a crash, is terminal.
  abbrev Outcome : Result RunnerResult × World → Type 0
  Outcome (r, v) =
      (result : RunnerResult) × (r ≡ ok result)
      × (is_active (some result.status) ≡ false)
      × Tables Q v

  run_safely_ends :
      (name : String) (runner : Runner) (run : ScrapeRun) (w : World)
      → get_runner name registry ≡ ok runner
      → Tables Q w
      → Outcome (run_safely runner run w)
  unfolding run_safely
  run_safely_ends name runner run w found h =
      go (runner.run (context_of run w) w).0 (runner.run (context_of run w) w).1 refl
        ((rules.runner_keeps name runner (context_of run w) found).at w h)
    where
      go :
          (r : Result RunnerResult) (v : World)
          → (runner.run (context_of run w) w).0 ≡ r
          → Tables Q v
          → Outcome (catch (λ _. (r, v)) (λ exc. pure (crashed exc)) w)
      go (ok result) v same k =
          (result, refl, rules.runner_ends name runner (context_of run w) w result found same, k)
      go (raised x) v same k = (crashed x, refl, refl, k)

  persist_counters-Keeps :
      (i : ℕ) (result : RunnerResult) → Keeps (Tables Q) (persist_counters i result)
  unfolding persist_counters
  persist_counters-Keeps i result = search (keeps_rules, rules.counted)

  execute_keeps :
      (name : String) (runner : Runner) (run : ScrapeRun) (w : World)
      → get_runner name registry ≡ ok runner
      → Tables Q w
      → Tables Q (execute runner run w).1
  unfolding execute
  execute_keeps name runner run w found h =
      let (result, same, ends, after) = run_safely_ends name runner run w found h in
      rw same (
        (Keeps-bind _ _
            (rules.completed run.id result.status result.error_message result.checkpoint_out
              result.retryable ends)
            (λ done. search (keeps_rules, persist_counters-Keeps, Keeps-change_worker))).at
          _ after)

  reject-Keeps : (run : ScrapeRun) (exc : Error) → Keeps (Tables Q) (reject run exc)
  unfolding reject
  reject-Keeps run exc =
      Keeps-bind _ _ (rules.completed run.id failed (some (of_error exc)) none false refl)
        (λ done. search (keeps_rules, Keeps-change_worker))

  dispatch_keeps :
      (name : String) (run : ScrapeRun) (w : World)
      → Tables Q w
      → Tables Q (dispatch (get_runner name registry) run w).1
  unfolding dispatch
  dispatch_keeps name run w h = go (get_runner name registry) refl
    where
      go : (r : Result Runner) → get_runner name registry ≡ r → Tables Q (dispatch r run w).1
      go (ok runner) found = execute_keeps name runner run w found h
      go (raised exc) missing = (reject-Keeps run exc).at w h

  process_claimed_keeps :
      (claimed : Option ScrapeRun) (w : World)
      → Tables Q w
      → Tables Q (process_claimed registry claimed w).1
  unfolding process_claimed
  process_claimed_keeps none w h = h
  process_claimed_keeps (some run) w h =
      bind_at (Tables Q) (change_worker (claimed_run run.id)) _ w
        ((Keeps-change_worker Q (claimed_run run.id)).at w h)
        (λ _ v. dispatch_keeps (type_name run.run_type) run v)

  pub process_one_keeps :
      (worker : String) (w : World) → Tables Q w → Tables Q (process_one registry worker w).1
  unfolding process_one
  process_one_keeps worker w h = bind_at (Tables Q) utcnow _ w ((Keeps-utcnow Q).at w h) λ now v k.
      bind_at (Tables Q) (change_worker (polled now)) _ v
        ((Keeps-change_worker Q (polled now)).at v k)
        λ _ v₁ k₁.
          bind_at (Tables Q) (claim_next_queued_run worker) _ v₁ (rules.claimed worker v₁ k₁)
            (λ run v₂. process_claimed_keeps run v₂)
