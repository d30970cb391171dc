-- ===== src/Session/Tables.antt =====
-- Actions that leave the runs and the jobs alone keep whatever is said of those two tables.
use managment2_main.Base.{ℕ, List}
use managment2_main.Models.{ScrapeRun, ScrapeJob}
use managment2_main.Engine.{Engine}
use managment2_main.Session.{
  World, SchedulerTick, WorkerState, utcnow, randint, change_tick, change_worker,
}
use managment2_main.Session.Keeps.{Keeps}

-- A statement about the runs and the jobs of a state.
unfoldable pub Tables : (List ScrapeRun → List ScrapeJob → Type 0) → World → Type 0
Tables Q w = Q w.runs w.jobs

module _ (Q : List ScrapeRun → List ScrapeJob → Type 0) where
  pub Keeps-change_tick : (f : SchedulerTick → SchedulerTick) → Keeps (Tables Q) (change_tick f)
  unfolding Tables change_tick
  Keeps-change_tick f = record { at = λ w h. h }

  pub Keeps-change_worker : (f : WorkerState → WorkerState) → Keeps (Tables Q) (change_worker f)
  unfolding Tables change_worker
  Keeps-change_worker f = record { at = λ w h. h }

  pub Keeps-utcnow : ⦃e : Engine⦄ → Keeps (Tables Q) utcnow
  unfolding Tables utcnow
  Keeps-utcnow = record { at = λ w h. h }

  pub Keeps-randint : ⦃e : Engine⦄ → (k : ℕ) → Keeps (Tables Q) (randint k)
  unfolding Tables randint
  Keeps-randint k = record { at = λ w h. h }

pub ruleset tables_rules = (Keeps-change_tick, Keeps-change_worker, Keeps-utcnow, Keeps-randint)
