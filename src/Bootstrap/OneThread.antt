-- ===== src/Bootstrap/OneThread.antt =====
-- The background thread of bootstrap.py: when it is started, and how many are alive.
use managment2_main.Base.{
  ℕ, ℤ, String, ◌≡◌, ◌⊎◌, refl, not, ◌&&◌, ◌||◌, Option, none, some, [], ◌∷◌, select, arith, ◌==◌,
  Bool-cases, inl, inr, if◌then◌else◌,
}
use managment2_main.Models.{Datetime, Error}
use managment2_main.Bootstrap.{
  ConfigValue, Settings, Process, already_running, thread_alive, should_start_scheduler, reason_for,
  is_production, is_testing, scheduler_enabled, scheduler_autostart, start_scheduler_if_enabled,
  on_tick_start, on_tick_done, on_loop_error, thread_ends, get_scheduler_runtime_status,
}

-- No thread is alive, or exactly the one that the module remembers.
pub record OneThread (p : Process) : Type 0 where
  pub only : (p.alive ≡ []) ⊎ ((t : ℕ) × (p.alive ≡ t ∷ []) × (p.state.thread ≡ some t))

module _ (normal : ConfigValue → String) (to_int : ConfigValue → Option ℤ) (s : Settings) where
  -- A start succeeds exactly where no thread runs and the settings allow it: not for tests, not in
  -- production, enabled, and started by itself. Then the thread runs and no reason is kept; otherwise
  -- nothing is started and the reason is kept.
  pub start_scheduler_lem :
      (t : ℕ) (now : Datetime) (p : Process)
      → ((start_scheduler_if_enabled normal to_int s t now p).0 ≡ (
          not (thread_alive p.state.thread p.alive)
          && not (is_testing normal to_int s)
          && not (is_production normal to_int s)
          && scheduler_enabled normal to_int s
          && scheduler_autostart normal to_int s))
        × ((get_scheduler_runtime_status
              (start_scheduler_if_enabled normal to_int s t now p).1).scheduler_running
            ≡ (thread_alive p.state.thread p.alive
                || (start_scheduler_if_enabled normal to_int s t now p).0))
        × ((start_scheduler_if_enabled normal to_int s t now p).1.state.skip_reason ≡ (
            if (start_scheduler_if_enabled normal to_int s t now p).0
            then none
            else if thread_alive p.state.thread p.alive
            then some already_running
            else some (reason_for normal to_int s)))
  unfolding start_scheduler_if_enabled should_start_scheduler get_scheduler_runtime_status
  start_scheduler_lem t now p = (ground arith, ground arith, ground arith)

  -- What happens to the process: a start with the number of a thread to be made, the callbacks of the
  -- loop, and the end of a thread.
  pub data Move : Process → Process → Type 0 where
    start :
        (t : ℕ) (now : Datetime) (p : Process)
        → Move p (start_scheduler_if_enabled normal to_int s t now p).1
    tick_start : (now : Datetime) (p : Process) → Move p (on_tick_start now p)
    tick_done : (now : Datetime) (p : Process) → Move p (on_tick_done now p)
    loop_error : (exc : Error) (p : Process) → Move p (on_loop_error exc p)
    ends : (t : ℕ) (p : Process) → Move p (thread_ends t p)

  pub data Moves : Process → Process → Type 0 where
    stay : (p : Process) → Moves p p
    move : (p q r : Process) → Moves p q → Move q r → Moves p r

  start_scheduler-OneThread :
      (t : ℕ) (now : Datetime) (p : Process)
      → OneThread p
      → OneThread (start_scheduler_if_enabled normal to_int s t now p).1
  unfolding start_scheduler_if_enabled
  start_scheduler-OneThread t now p o = elim (Bool-cases (thread_alive p.state.thread p.alive)) [
    | inl alive ↦ rw alive (record { only = o.only })
    | inr idle ↦ elim (Bool-cases (should_start_scheduler normal to_int s)) [
      | inr refused ↦ rw (idle, refused) (record { only = o.only })
      | inl allowed ↦ elim o.only [
        | inl nothing ↦ rw (idle, allowed, nothing) (record { only = inr (t, refl, refl) })
        | inr (u, one, remembered) ↦ absurd (ground (arith, rw (remembered, one) at idle))
      ]
    ]
  ]

  thread_ends-OneThread : (t : ℕ) (p : Process) → OneThread p → OneThread (thread_ends t p)
  unfolding thread_ends select
  thread_ends-OneThread t p o = elim o.only [
    | inl nothing ↦ record { only = inl (rw nothing refl) }
    | inr (u, one, remembered) ↦ elim (Bool-cases (u == t)) [
      | inl same ↦ record { only = inl (rw (one, same) refl) }
      | inr other ↦ record { only = inr (u, rw (one, other) refl, remembered) }
    ]
  ]

  Move-OneThread : (p q : Process) → Move p q → OneThread p → OneThread q
  unfolding on_tick_start on_tick_done on_loop_error
  Move-OneThread p q (Move.start t now _) o = start_scheduler-OneThread t now p o
  Move-OneThread p q (Move.tick_start now _) o = record { only = o.only }
  Move-OneThread p q (Move.tick_done now _) o = record { only = o.only }
  Move-OneThread p q (Move.loop_error exc _) o = record { only = o.only }
  Move-OneThread p q (Move.ends t _) o = thread_ends-OneThread t p o

  -- However often and in whatever order starts are tried, callbacks run and threads end, no thread is
  -- alive or exactly the one that the module remembers.
  pub Moves-OneThread : (p q : Process) → Moves p q → OneThread p → OneThread q
  Moves-OneThread p q (Moves.stay _) o = o
  Moves-OneThread p q (Moves.move _ r _ path last) o =
      Move-OneThread r q last (Moves-OneThread p r path o)
