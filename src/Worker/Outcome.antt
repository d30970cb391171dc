-- ===== src/Worker/Outcome.antt =====
-- What `process_one` stores of a run's outcome once a runner has returned or raised.
use managment2_main.Base.{
  ℕ, ◌+◌, ◌≡◌, refl, Bool, false, Option, some, arith, ◌==◌, ==_iff, ==_refl, find_sound,
  Bool-cases, inl, inr, if◌then◌else◌, ap, Option-cases, ◌∙◌, none,
}
use managment2_main.Models.{
  unhandled, of_error, failed, no_counts, JsonObject, RunStatus, Message, Counters, ScrapeRun,
  RunnerResult, Error,
}
use managment2_main.Engine.{Engine}
use managment2_main.Session.{World, ok, ◌>>=◌, change_worker, raised}
use managment2_main.RunRows.{apply_counts, apply_count, add_counts}
use managment2_main.Runs.{get_run, update_counters, complete_run}
use managment2_main.Runs.Complete.{find-update, get_run-complete_run, completed}
use managment2_main.Worker.{
  Registry, get_runner, type_name, process_claimed, dispatch, reject, claimed_run, Runner,
  counter_args, has_counters, persist_counters, run_safely, execute, none_if_zero, context_of,
  crashed,
}

-- A count of zero is passed on as "not given", which adds nothing either.
apply_count-none_if_zero : (a b : ℕ) → apply_count false a (none_if_zero b) ≡ a + b
apply_count-none_if_zero a b = ground arith

apply_counts-counter_args :
    (c d : Counters) → apply_counts false c (counter_args d) ≡ add_counts c d
apply_counts-counter_args c d =
    rw
      (
        apply_count-none_if_zero c.categories_processed d.categories_processed,
        apply_count-none_if_zero c.products_processed d.products_processed,
        apply_count-none_if_zero c.products_created d.products_created,
        apply_count-none_if_zero c.products_updated d.products_updated,
        apply_count-none_if_zero c.price_changes_detected d.price_changes_detected,
      )
      refl

add_nothing : (c d : Counters) → has_counters d ≡ false → add_counts c d ≡ c
add_nothing c d h = ground arith

abbrev pub counted : RunnerResult → ScrapeRun → ScrapeRun
counted result r = record r { counters = add_counts r.counters result.counts }

persist_counters_lem :
    (i j : ℕ) (result : RunnerResult) (r : ScrapeRun) (w : World)
    → get_run i w ≡ some r
    → get_run j (persist_counters i result w).1
      ≡ (if i == j then some (counted result r) else get_run j w)
unfolding persist_counters update_counters get_run
persist_counters_lem i j result r w h =
    let same : r.id ≡ i = (==_iff r.id i).0 (find_sound (λ q. q.id == i) w.runs h) in
    elim (Bool-cases (has_counters result.counts)) [
      | inl some_counts ↦
          let stored : record r {
            counters = apply_counts false r.counters (counter_args result.counts);
          }
              ≡ counted result r =
            ap (λ c. record r { counters = c })
              (apply_counts-counter_args r.counters result.counts) in
          rw (some_counts, h)
            (ground (
              arith,
              find-update
                  (λ q. record q {
                    counters = apply_counts false q.counters (counter_args result.counts);
                  })
                  r.id j w.runs (λ q. refl),
              same,
              h,
              stored,
            ))
      | inr no_counts ↦
          let stored : counted result r ≡ r =
            ap (λ c. record r { counters = c }) (add_nothing r.counters result.counts no_counts) in
          rw (no_counts, stored) (ground (arith, h, ==_iff i j))
    ]

persist_counters_ok :
    (i : ℕ) (result : RunnerResult) (w : World) → (persist_counters i result w).0 ≡ ok tt
unfolding persist_counters update_counters ◌>>=◌ get_run
persist_counters_ok i result w = elim (Bool-cases (has_counters result.counts)) [
  | inr no_counts ↦ rw no_counts refl
  | inl some_counts ↦ elim (Option-cases (get_run i w)) [
    | inl gone ↦ rw (some_counts, gone) refl
    | inr (r, h) ↦ rw (some_counts, h) refl
  ]
]

module _ ⦃e : Engine⦄ where
  complete_run_ok :
      (i : ℕ) (w : World) (status : RunStatus) (text : Option Message) (out : Option JsonObject)
      (retry : Bool) (r : ScrapeRun)
      → get_run i w ≡ some r
      → (complete_run i status text out retry w).0 ≡ ok (completed w status text out retry r)
  unfolding complete_run get_run
  complete_run_ok i w status text out retry r h = rw h refl

  -- The row of a run after `process_one` has stored its outcome, as a function of the row that the
  -- runner left: status, end time, error, checkpoint, the retry flag, and the counts added.
  abbrev pub stored : World → RunnerResult → ScrapeRun → ScrapeRun
  stored v result row =
      counted result
        (completed v result.status result.error_message result.checkpoint_out result.retryable row)

  pub get_run-execute :
      (runner : Runner) (run row : ScrapeRun) (j : ℕ) (result : RunnerResult) (w v : World)
      → run_safely runner run w ≡ (ok result, v)
      → get_run run.id v ≡ some row
      → get_run j (execute runner run w).1
        ≡ (if run.id == j then some (stored v result row) else get_run j v)
  unfolding execute change_worker get_run
  get_run-execute runner run row j result w v ran here =
      let done : World =
        (complete_run run.id result.status result.error_message result.checkpoint_out
          result.retryable v).1 in
      let after =
        get_run-complete_run run.id j v result.status result.error_message result.checkpoint_out
          result.retryable row here in
      let row_after : ScrapeRun =
        completed v result.status result.error_message result.checkpoint_out result.retryable row in
      let at_row : get_run run.id done ≡ some row_after = rw (==_refl run.id) at (
        get_run-complete_run run.id run.id v result.status result.error_message
          result.checkpoint_out result.retryable row here) in
      let final = persist_counters_lem run.id j result row_after done at_row in
      rw
        (
          ran,
          complete_run_ok run.id v result.status result.error_message result.checkpoint_out
              result.retryable row here,
        )
        (rw (persist_counters_ok run.id result done) (elim (Bool-cases (run.id == j)) [
          | inl same ↦ rw same (rw same at final)
          | inr other ↦ rw other ((rw other at final) ∙ (rw other at after))
        ]))

  -- What is stored of a run that could not be executed: it failed for that reason, is not to be retried,
  -- and its counts are as they were.
  pub record FailedWith (why : Message) (row final : ScrapeRun) : Type 0 where
    pub has_failed : final.status ≡ some failed
    pub has_reason : final.error_message ≡ some why
    pub not_retryable : final.retryable ≡ false
    pub same_counts : final.counters ≡ row.counters

  -- A runner that raises makes its run fail for good: the failure is stored with the exception's text, is
  -- not retryable, adds no counts, and no other run is touched by the worker.
  pub execute_crash :
      (runner : Runner) (run row : ScrapeRun) (exc : Error) (w v : World)
      → runner.run (context_of run w) w ≡ (raised exc, v)
      → get_run run.id v ≡ some row
      → (final : ScrapeRun) × FailedWith (unhandled exc) row final
        × ((j : ℕ)
            → get_run j (execute runner run w).1
              ≡ (if run.id == j then some final else get_run j v))
  unfolding run_safely
  execute_crash runner run row exc w v ran here =
      let safe : run_safely runner run w ≡ (ok (crashed exc), v) = rw ran refl in
      (
        stored v (crashed exc) row,
        record {
          has_failed = refl;
          has_reason = refl;
          not_retryable = refl;
          same_counts = add_nothing row.counters no_counts refl;
        },
        λ j. get_run-execute runner run row j (crashed exc) w v safe here,
      )

  -- A run whose type no runner is registered for fails for that reason and is not retryable; no other
  -- run is touched, and the worker reports the run as claimed.
  pub process_claimed_unknown :
      (registry : Registry) (run row : ScrapeRun) (exc : Error) (w : World)
      → get_runner (type_name run.run_type) registry ≡ raised exc
      → get_run run.id w ≡ some row
      → (final : ScrapeRun) × FailedWith (of_error exc) row final
        × ((j : ℕ)
            → get_run j (process_claimed registry (some run) w).1
              ≡ (if run.id == j then some final else get_run j w))
  unfolding process_claimed dispatch reject change_worker get_run
  process_claimed_unknown registry run row exc w missing here =
      let w' : World = record w { worker = claimed_run run.id w.worker } in
      (
        completed w' failed (some (of_error exc)) none false row,
        record { has_failed = refl; has_reason = refl; not_retryable = refl; same_counts = refl },
        λ j.
            rw (missing, complete_run_ok run.id w' failed (some (of_error exc)) none false row here)
              (get_run-complete_run run.id j w' failed (some (of_error exc)) none false row here),
      )
