-- ===== src/Runs/Complete.antt =====
-- How a run ends: what the operations that address one run by its id change, and what they refuse.
use managment2_main.Base.{
  ap, ◌&&◌, ◌∙◌, true, false, ℕ, ◌≡◌, refl, Bool, Option, none, some, List, [], ◌∷◌, arith, ◌==◌,
  ==_iff, find, update, find_sound, ==_iff, refl, if◌then◌else◌, String,
}
use managment2_main.Models.{
  is_failed, JsonObject, Datetime, RunStatus, run_not_found, Message, Counters, ScrapeRun, queued,
  running, success, partial, failed, cancelled, skipped, finished, other,
}
use managment2_main.Engine.{Engine}
use managment2_main.Session.{World, raised}
use managment2_main.RunRows.{given_or, CounterArgs, complete_with}
use managment2_main.Runs.{
  get_run, finish_run, fail_run, increment_counters, update_counters, mark_run_running,
  complete_run,
}

-- A lookup after an update that keeps the identifiers.
pub find-update :
    (f : ScrapeRun → ScrapeRun) (i j : ℕ) (rows : List ScrapeRun)
    → ((r : ScrapeRun) → (f r).id ≡ r.id)
    → find (λ r. r.id == j) (update (λ r. r.id == i) f rows) ≡ (
        if i == j
        then elim (find (λ r. r.id == j) rows) [ none ↦ none | some r ↦ some (f r) ]
        else find (λ r. r.id == j) rows)
unfolding find update
find-update f i j [] keep = ground arith
find-update f i j (r ∷ rows) keep = ground (arith, keep r, find-update f i j rows keep)

-- The flag of a failed run; a run that ended otherwise is not retryable.
abbrev pub where_failed : RunStatus → Bool → Bool
where_failed failed b = b
where_failed queued b = false
where_failed running b = false
where_failed success b = false
where_failed partial b = false
where_failed cancelled b = false
where_failed skipped b = false
where_failed finished b = false
where_failed (other text) b = false

given_or-eq :
    {A : Type 0} (o old : Option A) → given_or o old ≡ (elim o [ none ↦ old | some a ↦ some a ])
given_or-eq none old = refl
given_or-eq (some a) old = refl

flag-eq : (s : RunStatus) (b : Bool) → (b && is_failed (some s)) ≡ where_failed s b
flag-eq queued true = refl
flag-eq queued false = refl
flag-eq running true = refl
flag-eq running false = refl
flag-eq success true = refl
flag-eq success false = refl
flag-eq partial true = refl
flag-eq partial false = refl
flag-eq failed true = refl
flag-eq failed false = refl
flag-eq cancelled true = refl
flag-eq cancelled false = refl
flag-eq skipped true = refl
flag-eq skipped false = refl
flag-eq finished true = refl
flag-eq finished false = refl
flag-eq (other t) true = refl
flag-eq (other t) false = refl

module _ ⦃e : Engine⦄ where
  -- An id that no run has is refused by every operation that addresses a run, and the state is left
  -- as it was.
  pub missing_run_refused :
      (i : ℕ) (w : World) (status : RunStatus) (text : Option Message) (why : Message)
      (out : Option JsonObject) (retry absolute : Bool) (c : Counters) (args : CounterArgs)
      (worker : String)
      → get_run i w ≡ none
      → (finish_run i status text w ≡ (raised (run_not_found i), w))
        × (fail_run i why w ≡ (raised (run_not_found i), w))
        × (increment_counters i c w ≡ (raised (run_not_found i), w))
        × (update_counters i args absolute w ≡ (raised (run_not_found i), w))
        × (mark_run_running i worker w ≡ (raised (run_not_found i), w))
        × (complete_run i status text out retry w ≡ (raised (run_not_found i), w))
  unfolding get_run finish_run fail_run increment_counters update_counters mark_run_running
      complete_run
  missing_run_refused i w status text why out retry absolute c args worker h =
      (rw h, rw h, rw h, rw h, rw h, rw h)

  -- The row that `complete_run` leaves, as a function of the row that it found.
  abbrev pub completed :
      World → RunStatus → Option Message → Option JsonObject → Bool → ScrapeRun → ScrapeRun
  completed w status text out retry =
      complete_with status text out retry (Datetime.aware (e.clock w.clock_reads))

  pub get_run-complete_run :
      (i j : ℕ) (w : World) (status : RunStatus) (text : Option Message) (out : Option JsonObject)
      (retry : Bool) (r : ScrapeRun)
      → get_run i w ≡ some r
      → get_run j (complete_run i status text out retry w).1
        ≡ (if i == j then some (completed w status text out retry r) else get_run j w)
  unfolding get_run complete_run
  get_run-complete_run i j w status text out retry r h =
      let same : r.id ≡ i = (==_iff r.id i).0 (find_sound (λ q. q.id == i) w.runs h) in
      rw h (
        ground (
          arith,
          find-update (completed w status text out retry) r.id j w.runs (λ q. refl),
          same,
          h,
        ))

  completed-eq :
      (w : World) (status : RunStatus) (text : Option Message) (out : Option JsonObject)
      (retry : Bool) (r : ScrapeRun)
      → completed w status text out retry r ≡ (record r {
        status = some status;
        finished_at = some (Datetime.aware (e.clock w.clock_reads));
        error_message = elim text [ none ↦ r.error_message | some t ↦ some t ];
        checkpoint_out_json = elim out [ none ↦ r.checkpoint_out_json | some o ↦ some o ];
        retryable = where_failed status retry;
      })
  completed-eq w status text out retry r =
      rw
        (
          given_or-eq text r.error_message,
          given_or-eq out r.checkpoint_out_json,
          flag-eq status retry,
        )
        refl

  -- Completing a run that is there stores its status, the time of the clock as its end, the error
  -- text and the checkpoint where they are given and the old ones where not, and that it is
  -- retryable only where it failed; the rest of its row and every other run are as they were.
  pub complete_run_lem :
      (i j : ℕ) (w : World) (status : RunStatus) (text : Option Message) (out : Option JsonObject)
      (retry : Bool) (r : ScrapeRun)
      → get_run i w ≡ some r
      → get_run j (complete_run i status text out retry w).1 ≡ (
          if i == j
          then some (record r {
            status = some status;
            finished_at = some (Datetime.aware (e.clock w.clock_reads));
            error_message = elim text [ none ↦ r.error_message | some t ↦ some t ];
            checkpoint_out_json = elim out [ none ↦ r.checkpoint_out_json | some o ↦ some o ];
            retryable = where_failed status retry;
          })
          else get_run j w)
  complete_run_lem i j w status text out retry r h =
      get_run-complete_run i j w status text out retry r h
      ∙ ap (λ x. if i == j then some x else get_run j w) (completed-eq w status text out retry r)
