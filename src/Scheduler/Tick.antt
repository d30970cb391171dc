-- ===== src/Scheduler/Tick.antt =====
-- The whole tick, for statements about the runs and the jobs.
use managment2_main.Base.{ℕ, Option, none, some, List}
use managment2_main.Models.{Datetime, ScrapeRun, ScrapeJob}
use managment2_main.Engine.{Engine, EngineLaws}
use managment2_main.Session.{World, change_tick}
use managment2_main.Session.Keeps.{Keeps, keeps_rules, bind_at}
use managment2_main.Session.Tables.{Tables, Keeps-utcnow, Keeps-change_tick}
use managment2_main.Scheduler.{
  time_or_now, empty_tick, process_due_jobs, process_retry_candidates, run_tick,
}
use managment2_main.Scheduler.Firing.{FiringRules, process_due_jobs_keeps}
use managment2_main.Scheduler.Retrying.{RetryRules, process_retry_candidates_keeps}

module _ ⦃e : Engine⦄ (Q : List ScrapeRun → List ScrapeJob → Type 0) where
  time_or_now_keeps : (o : Option Datetime) → Keeps (Tables Q) (time_or_now o)
  unfolding time_or_now
  time_or_now_keeps none = Keeps-utcnow Q
  time_or_now_keeps (some t) = search keeps_rules

  -- A tick keeps what its two walks keep.
  pub run_tick_of_walks :
      (now : Option Datetime) (limit : ℕ) (w : World)
      → ((t : Datetime) (v : World) → Tables Q v → Tables Q (process_due_jobs t limit v).1)
      → ((t : Datetime) (v : World) → Tables Q v → Tables Q (process_retry_candidates t limit v).1)
      → Tables Q w
      → Tables Q (run_tick now limit w).1
  unfolding run_tick
  run_tick_of_walks now limit w firing retrying g =
      bind_at (Tables Q) (time_or_now now) _ w ((time_or_now_keeps now).at w g) λ t v h.
        bind_at (Tables Q) (change_tick (λ _. empty_tick)) _ v
          ((Keeps-change_tick Q (λ _. empty_tick)).at v h)
          λ _ v₁ h₁. bind_at (Tables Q) (process_due_jobs t limit) _ v₁ (firing t v₁ h₁) λ _ v₂ h₂.
            bind_at (Tables Q) (process_retry_candidates t limit) _ v₂ (retrying t v₂ h₂)
              (λ _ v₃ h₃. h₃)

  pub run_tick_keeps :
      (C : ScrapeJob → Type 0)
      → EngineLaws e
      → FiringRules e Q C
      → RetryRules e Q C
      → (now : Option Datetime) (limit : ℕ) (w : World) → Tables Q w
      → Tables Q (run_tick now limit w).1
  run_tick_keeps C laws firing retrying now limit w g =
      run_tick_of_walks now limit w (λ t v. process_due_jobs_keeps Q C firing laws t limit v)
        (λ t v. process_retry_candidates_keeps Q C retrying t limit v) g
