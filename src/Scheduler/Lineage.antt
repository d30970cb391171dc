-- ===== src/Scheduler/Lineage.antt =====
-- Retry children during a tick: the walk over the retry candidates, and `OneChild`.
use managment2_main.Base.{
  ℕ, ◌-◌, ◌≤◌, ◌≡◌, refl, not, none, some, Option, List, [], ◌∷◌, tally, arith, ◌==◌, ==_iff, leb,
  or_default, tally-cases, Bool-cases, inl, inr, ◌⊎◌,
}
use managment2_main.Models.{Datetime, plus, seconds, ScrapeRun, ScrapeJob, Error}
use managment2_main.Engine.{Engine, EngineLaws}
use managment2_main.Session.{
  World, Result, ok, raised, change_job, change_tick, change_run, retry_failed,
}
use managment2_main.Session.Keeps.{Keeps, keeps_rules, catch_at, for_each_walk}
use managment2_main.Session.Tables.{Tables, Keeps-change_tick}
use managment2_main.RunRows.{child_of}
use managment2_main.Runs.{list_retry_candidates}
use managment2_main.Runs.Enqueue.{enqueue_run-eq}
use managment2_main.Runs.Candidates.{
  is_candidate→IsCandidate, list_retry_candidates-is_candidate, tally-list_retry_candidates-le,
}
use managment2_main.Jobs.{set_job_next_run_at, require_job, get_scrape_job}
use managment2_main.Timing.{datetime_gt}
use managment2_main.Scheduler.{
  scheduled_args, retry_args, as_processed, as_exhausted, run_tick, overlap_guard, note_error,
  link_retry, spawn_retry, spawn_if_free, retry_after, retry_job, retry_for, process_candidate,
  candidate, process_retry_candidates,
}
use managment2_main.Scheduler.Firing.{FiringRules, process_due_jobs_keeps}
use managment2_main.Scheduler.Tick.{run_tick_of_walks}
use managment2_main.Scheduler.Owed.{Owed, Owed-tail, Owed-update, enqueue_run-Owed, link_retry-Owed}

-- Of the runs alone.
abbrev Waiting : List ScrapeRun → List ScrapeRun → List ScrapeJob → Type 0
Waiting cs runs jobs = Owed cs runs

Result-cases {ℓ} :
    {A : Type ℓ} (r : Result A) → ((a : A) × (r ≡ ok a)) ⊎ ((x : Error) × (r ≡ raised x))
Result-cases (ok a) = inl (a, refl)
Result-cases (raised x) = inr (x, refl)

module _ ⦃e : Engine⦄ (laws : EngineLaws e) where
  Keeps-change_job :
      (cs : List ScrapeRun) (i : ℕ) (f : ScrapeJob → ScrapeJob)
      → Keeps (Tables (Waiting cs)) (change_job i f)
  unfolding Tables change_job
  Keeps-change_job cs i f = record { at = λ w o. o }

  Keeps-set_job_next_run_at :
      (cs : List ScrapeRun) (i : ℕ) (t : Datetime) (last : Option Datetime)
      → Keeps (Tables (Waiting cs)) (set_job_next_run_at i t last)
  unfolding set_job_next_run_at require_job
  Keeps-set_job_next_run_at cs i t last = search (keeps_rules, Keeps-change_job)

  firing_rules : FiringRules e (Waiting []) (λ _. Unit {0})
  unfolding Tables
  firing_rules = record {
    job_known = λ runs jobs job o m. tt;
    rescheduled = Keeps-set_job_next_run_at [];
    scheduled = λ job w c clear o. enqueue_run-Owed laws (scheduled_args job) [] w o;
  }

  -- A candidate has no child yet, and is listed once.
  candidates-Owed :
      (limit : ℕ) (w : World)
      → Owed [] w.runs
      → Owed (list_retry_candidates none none limit w) w.runs
  unfolding tally
  candidates-Owed limit w o = record {
    unique = o.unique;
    one_child = λ k. elim (tally-cases (λ r. r.id == k) (list_retry_candidates none none limit w)) [
      | inl unlisted ↦ omega (arith, o.one_child k)
      | inr (r, listed, same) ↦
          let childless : tally (child_of r.id) w.runs ≡ 0 =
            (is_candidate→IsCandidate w r
              (list_retry_candidates-is_candidate laws w none none limit r listed).1).no_child in
          let none_yet : tally (child_of k) w.runs ≡ 0 = rw (← (==_iff r.id k).0 same) childless in
          omega (
            arith,
            o.unique k,
            tally-list_retry_candidates-le laws w none none limit (λ q. q.id == k),
          )
    ];
  }

  module _ (source : ScrapeRun) (cs : List ScrapeRun) where
    abbrev Before : World → Type 0
    Before w = Owed (source ∷ cs) w.runs

    abbrev After : World → Type 0
    After w = Owed cs w.runs

    processed_lem : (w : World) → Before w → After (change_run source.id as_processed w).1
    unfolding change_run child_of
    processed_lem w o =
        Owed-update cs w.runs source.id as_processed (λ k r. refl) (λ k r. refl)
          (Owed-tail source cs w.runs o)

    exhausted_lem : (w : World) → Before w → After (change_run source.id as_exhausted w).1
    unfolding change_run child_of
    exhausted_lem w o =
        Owed-update cs w.runs source.id as_exhausted (λ k r. refl) (λ k r. refl)
          (Owed-tail source cs w.runs o)

    spawn_retry_lem :
        (job : ScrapeJob) (attempt : ℕ) (w : World)
        → Before w
        → After (spawn_retry source job attempt w).1
    unfolding spawn_retry link_retry change_run change_tick child_of
    spawn_retry_lem job attempt w o =
        let args = retry_args job source attempt in
        rw (enqueue_run-eq args w) (
          Owed-update cs _ source.id as_processed (λ k r. refl) (λ k r. refl)
            (link_retry-Owed laws args source cs w o))

    spawn_if_free_lem :
        (job : ScrapeJob) (attempt : ℕ) (w : World)
        → Before w
        → After (spawn_if_free source job attempt w).1
    unfolding spawn_if_free
    spawn_if_free_lem job attempt w o = elim (Bool-cases (overlap_guard job w)) [
      | inl blocked ↦ rw blocked (Owed-tail source cs w.runs o)
      | inr clear ↦ rw clear (spawn_retry_lem job attempt w o)
    ]

    retry_after_lem :
        (now : Datetime) (job : ScrapeJob) (attempt : ℕ) (t : Option Datetime) (w : World)
        → Before w
        → After (retry_after now source job attempt t w).1
    unfolding retry_after
    retry_after_lem now job attempt none w o = Owed-tail source cs w.runs o
    retry_after_lem now job attempt (some t) w o =
        elim (Result-cases
          (datetime_gt (plus t (seconds (or_default job.retry_backoff_sec 60))) now)) [
            | inr (x, mixed) ↦ rw mixed (Owed-tail source cs w.runs o)
            | inl (waits, known) ↦ elim (Bool-cases waits) [
              | inl waiting ↦ rw (known, waiting) (Owed-tail source cs w.runs o)
              | inr over ↦ rw (known, over) (spawn_if_free_lem job attempt w o)
            ]
          ]

    retry_job_lem :
        (now : Datetime) (job : ScrapeJob) (w : World)
        → Before w
        → After (retry_job now source job w).1
    unfolding retry_job
    retry_job_lem now job w o = elim (Bool-cases (not job.enabled)) [
      | inl off ↦ rw off (processed_lem w o)
      | inr on ↦ elim (Bool-cases (leb job.max_retries (or_default source.attempt 1 - 1))) [
        | inl spent ↦ rw (on, spent) (exhausted_lem w o)
        | inr left ↦ rw (on, left) (retry_after_lem now job _ source.finished_at w o)
      ]
    ]

    retry_for_lem :
        (now : Datetime) (found : Option ScrapeJob) (w : World)
        → Before w
        → After (retry_for now source found w).1
    unfolding retry_for
    retry_for_lem now none w o = processed_lem w o
    retry_for_lem now (some job) w o = retry_job_lem now job w o

    process_candidate_lem :
        (now : Datetime) (job_id : Option ℕ) (w : World)
        → Before w
        → After (process_candidate now source job_id w).1
    unfolding process_candidate
    process_candidate_lem now none w o = processed_lem w o
    process_candidate_lem now (some i) w o = retry_for_lem now (get_scrape_job i w) w o

    candidate_lem : (now : Datetime) (w : World) → Before w → After (candidate now source w).1
    unfolding candidate Tables
    candidate_lem now w o =
        catch_at (Tables (Waiting cs)) (process_candidate now source source.job_id) _ w
          (process_candidate_lem now source.job_id w o)
          (λ x. Keeps-change_tick (Waiting cs) (note_error (retry_failed source.id x)))

  process_retry_candidates_lem :
      (now : Datetime) (limit : ℕ) (w : World)
      → Owed [] w.runs
      → Owed [] (process_retry_candidates now limit w).1.runs
  unfolding process_retry_candidates
  process_retry_candidates_lem now limit w o =
      for_each_walk (λ cs v. Owed cs v.runs) (candidate now)
        (λ source cs v. candidate_lem source cs now v) (λ source cs v. Owed-tail source cs v.runs)
        (list_retry_candidates none none limit w) w (candidates-Owed limit w o)

-- Run ids are unique, and no run has two retry children.
pub record OneChild (runs : List ScrapeRun) : Type 0 where
  pub unique : (i : ℕ) → tally (λ r. r.id == i) runs ≤ 1
  pub at_most_one : (k : ℕ) → tally (child_of k) runs ≤ 1

module _ ⦃e : Engine⦄ where
  -- A tick keeps the lineage of retries: where run ids are unique and no run has two retry children,
  -- that is still so after the tick.
  pub run_tick-OneChild :
      (laws : EngineLaws e) (now : Option Datetime) (limit : ℕ) (w : World)
      → OneChild w.runs
      → OneChild (run_tick now limit w).1.runs
  unfolding Tables tally
  run_tick-OneChild laws now limit w c =
      let o =
        run_tick_of_walks (Waiting []) now limit w
          (λ t v.
            process_due_jobs_keeps (Waiting []) (λ _. Unit {0}) (firing_rules laws) laws t limit v)
          (λ t v. process_retry_candidates_lem laws t limit v)
          (record { unique = c.unique; one_child = λ k. omega (arith, c.at_most_one k) }) in
      record { unique = o.unique; at_most_one = λ k. omega (arith, o.one_child k) }
