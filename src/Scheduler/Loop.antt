-- ===== src/Scheduler/Loop.antt =====
-- `run_loop` of pricewatch/scrape/scheduler.py: ticks, each in a session of its own that is committed
-- or rolled back.
--
-- The callbacks get no session: what they may do here is raise. Sleeping between ticks is left out.
use Prim.Native.Nat.{max}
use managment2_main.Base.{ℕ, zero, suc, none}
use managment2_main.Models.{Error}
use managment2_main.Engine.{Engine}
use managment2_main.Session.{
  World, SchedulerTick, Result, ok, raised, Action, pure, ◌>>=◌, ◌>>◌, rolled_back,
}
use managment2_main.Scheduler.{run_tick}

-- A call of a callback; an absent callback is one that returns.
unfoldable pub call : (World → Result (Unit {0})) → Action (Unit {0})
call f w = (f w, w)

module _ ⦃e : Engine⦄ (on_tick_start : World → Result (Unit {0}))
    (on_tick_done : SchedulerTick → World → Result (Unit {0}))
    (on_error : Error → World → Result (Unit {0})) where
  -- After the commit a callback that raises still leads to `on_error`, with nothing to roll back.
  unfoldable pub done_or_error : Result (Unit {0}) → Action (Unit {0})
  unfolding call
  done_or_error (ok a) = pure tt
  done_or_error (raised exc) = call (on_error exc)

  unfoldable pub settle_tick : World → Result SchedulerTick → Action (Unit {0})
  unfolding rolled_back call
  settle_tick before (ok tick) w = done_or_error (on_tick_done tick w) w
  settle_tick before (raised exc) w = call (on_error exc) (rolled_back before w)

  -- The body of the loop. An exception of `on_error` leaves the loop.
  unfoldable pub tick_once : Action (Unit {0})
  unfolding ◌>>=◌ call
  tick_once w = let (r, v) = (do call on_tick_start; run_tick none 50) w in settle_tick w r v

  unfoldable pub run_ticks : ℕ → Action (Unit {0})
  unfolding ◌>>=◌
  run_ticks zero = pure tt
  run_ticks (suc n) = do tick_once; run_ticks n

  -- With `max_ticks` set. The limit is tested after a tick, so one tick always runs.
  unfoldable pub run_loop : ℕ → Action (Unit {0})
  run_loop max_ticks = run_ticks (max 1 max_ticks)
