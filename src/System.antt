-- ===== src/System.antt =====
-- The scheduler and the workers on one database: the ticks of scheduler.py's `run_loop` and the
-- iterations of worker.py's `run_loop`, in any order.
--
-- A tick or an iteration is one transaction, so it is one step here: what two transactions do to each
-- other while both run is the database's isolation and is not modelled.
pub mod Commit
pub mod Claiming
pub mod Safety
use managment2_main.Base.{String}
use managment2_main.Models.{Error}
use managment2_main.Engine.{Engine}
use managment2_main.Session.{World, SchedulerTick, Result}
use managment2_main.Scheduler.Loop.{tick_once}
use managment2_main.Worker.{Registry}
use managment2_main.Worker.Loop.{iteration}

module _ ⦃e : Engine⦄ (registry : Registry) where
  pub data Step : World → World → Type 0 where
    ticked :
        (on_tick_start : World → Result (Unit {0}))
        (on_tick_done : SchedulerTick → World → Result (Unit {0}))
        (on_error : Error → World → Result (Unit {0})) (w : World)
        → Step w (tick_once on_tick_start on_tick_done on_error w).1
    worked : (worker_id : String) (w : World) → Step w (iteration registry worker_id w).1

  -- The states that a sequence of steps leads to.
  pub data Reaches : World → World → Type 0 where
    here : (w : World) → Reaches w w
    then : (w v u : World) → Reaches w v → Step v u → Reaches w u
