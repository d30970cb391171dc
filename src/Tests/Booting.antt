-- ===== src/Tests/Booting.antt =====
-- The theorems on the start of the scheduler's thread at a concrete process.
use managment2_main.Base.{
  ℤ, String, ◌≡◌, refl, true, false, not, ◌&&◌, ◌||◌, Option, none, some, [], inl, if◌then◌else◌,
}
use managment2_main.Sample.World.{at}
use managment2_main.Bootstrap.{
  ConfigValue, words, flag, number, Settings, Process, already_running, thread_alive, reason_for,
  is_production, is_testing, scheduler_enabled, scheduler_autostart, start_scheduler_if_enabled,
  get_scheduler_runtime_status,
}
use managment2_main.Bootstrap.OneThread.{
  OneThread, Moves, Move, Moves-OneThread, start_scheduler_lem,
}

abbrev normal : ConfigValue → String
normal (flag true) = "true"
normal (flag false) = "false"
normal (words t) = t
normal (number n) = "1"

abbrev to_int : ConfigValue → Option ℤ
to_int v = none

abbrev defaults : Settings
defaults = record { app = none; environ = λ key. none }

abbrev fresh : Process
fresh = record {
  state = record {
    started = false;
    thread = none;
    started_at = none;
    last_tick_at = none;
    last_error = none;
    skip_reason = none;
  };
  alive = [];
}

abbrev launched : Process
launched = (start_scheduler_if_enabled normal to_int defaults 1 (at 5) fresh).1

abbrev again : Process
again = (start_scheduler_if_enabled normal to_int defaults 2 (at 6) launched).1

-- Two starts in a row.
moves : Moves normal to_int defaults fresh again
moves =
    Moves.move fresh launched again
      (Moves.move fresh fresh launched (Moves.stay fresh) (Move.start 1 (at 5) fresh))
      (Move.start 2 (at 6) launched)

Moves-OneThread_example : OneThread again
Moves-OneThread_example =
    Moves-OneThread normal to_int defaults fresh again moves (record { only = inl refl })

start_scheduler_lem_example :
    ((start_scheduler_if_enabled normal to_int defaults 2 (at 6) launched).0 ≡ (
      not (thread_alive launched.state.thread launched.alive)
      && not (is_testing normal to_int defaults)
      && not (is_production normal to_int defaults)
      && scheduler_enabled normal to_int defaults
      && scheduler_autostart normal to_int defaults))
    × ((get_scheduler_runtime_status again).scheduler_running ≡ (
        thread_alive launched.state.thread launched.alive
        || (start_scheduler_if_enabled normal to_int defaults 2 (at 6) launched).0))
    × (again.state.skip_reason ≡ (
        if (start_scheduler_if_enabled normal to_int defaults 2 (at 6) launched).0
        then none
        else if thread_alive launched.state.thread launched.alive
        then some already_running
        else some (reason_for normal to_int defaults)))
start_scheduler_lem_example = start_scheduler_lem normal to_int defaults 2 (at 6) launched
