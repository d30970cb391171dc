-- ===== src/System/Commit.antt =====
-- Commit and rollback around a tick and around a call of `process_one`.
use managment2_main.Base.{String, none, List, Bool-cases, inl, inr}
use managment2_main.Models.{Error, ScrapeRun, ScrapeJob}
use managment2_main.Engine.{Engine}
use managment2_main.Session.{World, SchedulerTick, Result, ok, raised, rolled_back, ◌>>=◌}
use managment2_main.Session.Keeps.{bind_at}
use managment2_main.Session.Tables.{Tables}
use managment2_main.Scheduler.{run_tick}
use managment2_main.Scheduler.Loop.{call, done_or_error, settle_tick, tick_once}
use managment2_main.Worker.{Registry, WorkerResult, process_one}
use managment2_main.Worker.Loop.{settle_iteration, iteration}

module _ (Q : List ScrapeRun → List ScrapeJob → Type 0) where
  rolled_back_keeps : (before w : World) → Tables Q before → Tables Q (rolled_back before w)
  unfolding Tables rolled_back
  rolled_back_keeps before w h = h

  module _ ⦃e : Engine⦄ (on_tick_start : World → Result (Unit {0}))
      (on_tick_done : SchedulerTick → World → Result (Unit {0}))
      (on_error : Error → World → Result (Unit {0})) where
    settle_tick_keeps :
        (before : World) (r : Result SchedulerTick) (w : World)
        → Tables Q before
        → Tables Q w
        → Tables Q (settle_tick on_tick_start on_tick_done on_error before r w).1
    unfolding settle_tick done_or_error call ◌>>=◌
    settle_tick_keeps before (raised exc) w b h = rolled_back_keeps before w b
    settle_tick_keeps before (ok tick) w b h = go (on_tick_done tick w)
      where
        go :
            (r : Result (Unit {0}))
            → Tables Q (done_or_error on_tick_start on_tick_done on_error r w).1
        go (ok a) = h
        go (raised exc) = h

    pub tick_once_keeps :
        ((w : World) → Tables Q w → Tables Q (run_tick none 50 w).1)
        → (w : World) → Tables Q w
        → Tables Q (tick_once on_tick_start on_tick_done on_error w).1
    unfolding tick_once call
    tick_once_keeps step w h =
        settle_tick_keeps w _ _ h
          (bind_at (Tables Q) (call on_tick_start) (λ _. run_tick none 50) w h (λ _ v. step v))

  module _ ⦃e : Engine⦄ (registry : Registry) (worker_id : String) where
    settle_iteration_keeps :
        (before : World) (r : Result WorkerResult) (w : World)
        → Tables Q before
        → Tables Q w
        → Tables Q (settle_iteration before r w).1
    unfolding settle_iteration
    settle_iteration_keeps before (raised exc) w b h = rolled_back_keeps before w b
    settle_iteration_keeps before (ok result) w b h = elim (Bool-cases result.claimed) [
      | inl claimed ↦ rw claimed h
      | inr idle ↦ rw idle (rolled_back_keeps before w b)
    ]

    pub iteration_keeps :
        ((w : World) → Tables Q w → Tables Q (process_one registry worker_id w).1)
        → (w : World) → Tables Q w
        → Tables Q (iteration registry worker_id w).1
    unfolding iteration
    iteration_keeps step w h = settle_iteration_keeps w _ _ h (step w h)
