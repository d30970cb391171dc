-- ===== src/Bootstrap.antt =====
-- pricewatch/scrape/runtime_config.py and bootstrap.py: settings, and the start of the scheduler's
-- background thread.
--
-- Parameters: `normal` is `str(value).strip().lower()`, `to_int` is `int(value)`, `none` where that
-- raises. Threads are numbers; which of them are alive is part of the state here.
pub mod OneThread
use managment2_main.Base.{
  ℕ, ℤ, pos, String, Bool, true, false, not, ◌&&◌, ◌||◌, Option, none, some, List, [], ◌∷◌, ◌==◌,
  select, str_eq, if◌then◌else◌,
}
use managment2_main.Models.{Datetime, Error}

-- A value of `app.config`; a variable of the environment is a text.
pub data ConfigValue : Type 0 where
  flag : Bool → ConfigValue
  words : String → ConfigValue
  number : ℤ → ConfigValue

-- The configuration of the application, if there is one, and the environment.
pub record Settings : Type 0 where
  pub app : Option (String → Option ConfigValue)
  pub environ : String → Option String

abbrev pub from_environ : Option String → Option ConfigValue
from_environ none = none
from_environ (some t) = some (words t)

abbrev pub first_of : Option ConfigValue → Option ConfigValue → Option ConfigValue
first_of none other = other
first_of (some v) other = some v

abbrev pub from_app : Option (String → Option ConfigValue) → String → Option ConfigValue
from_app none key = none
from_app (some config) key = config key

-- The value of the application, or of the environment.
unfoldable pub read_value : Settings → String → Option ConfigValue
read_value s key = first_of (from_app s.app key) (from_environ (s.environ key))

-- `bool(value)`
abbrev pub is_truthy : Option ConfigValue → Bool
is_truthy none = false
is_truthy (some (flag b)) = b
is_truthy (some (words t)) = not (str_eq t "")
is_truthy (some (number (pos n))) = not (n == 0)
is_truthy (some (number (ℤ.negsuc n))) = true

-- Why a start was skipped.
pub data SkipReason : Type 0 where
  already_running testing_context production_mode not_enabled no_autostart : SkipReason

pub record BootState : Type 0 where
  pub started : Bool
  pub thread : Option ℕ
  pub started_at : Option Datetime
  pub last_tick_at : Option Datetime
  pub last_error : Option Error
  pub skip_reason : Option SkipReason

-- The state of the module and the threads that are alive.
pub record Process : Type 0 where
  pub state : BootState
  pub alive : List ℕ

abbrev pub is_alive : ℕ → List ℕ → Bool
is_alive t [] = false
is_alive t (u ∷ rest) = (u == t) || is_alive t rest

abbrev pub thread_alive : Option ℕ → List ℕ → Bool
thread_alive none alive = false
thread_alive (some t) alive = is_alive t alive

module _ (normal : ConfigValue → String) (to_int : ConfigValue → Option ℤ) where
  abbrev pub env_of : Option ConfigValue → String
  env_of none = "development"
  env_of (some v) = normal v

  unfoldable pub get_app_env : Settings → String
  unfolding read_value
  get_app_env s = env_of (read_value s "APP_ENV")

  unfoldable pub is_production : Settings → Bool
  is_production s = str_eq (get_app_env s) "production" || str_eq (get_app_env s) "prod"

  unfoldable pub is_development : Settings → Bool
  is_development s = not (is_production s)

  abbrev pub bool_of : Bool → Option ConfigValue → Bool
  bool_of default none = default
  bool_of default (some (flag b)) = b
  bool_of default (some v) =
      str_eq (normal v) "1"
      || str_eq (normal v) "true"
      || str_eq (normal v) "yes"
      || str_eq (normal v) "on"

  unfoldable pub read_bool : Settings → String → Bool → Bool
  unfolding read_value
  read_bool s key default = bool_of default (read_value s key)

  abbrev pub int_of : ℤ → Option ConfigValue → ℤ
  int_of default none = default
  int_of default (some v) = elim (to_int v) [ none ↦ default | some n ↦ n ]

  unfoldable pub read_int : Settings → String → ℤ → ℤ
  unfolding read_value
  read_int s key default = int_of default (read_value s key)

  unfoldable pub scheduler_enabled : Settings → Bool
  scheduler_enabled s = read_bool s "SCHEDULER_ENABLED" true

  unfoldable pub scheduler_autostart : Settings → Bool
  scheduler_autostart s = read_bool s "SCHEDULER_AUTOSTART" true

  unfoldable pub scheduler_tick_seconds : Settings → ℤ
  scheduler_tick_seconds s = read_int s "SCHEDULER_TICK_SECONDS" (pos 30)

  unfoldable pub worker_enabled : Settings → Bool
  worker_enabled s = read_bool s "WORKER_ENABLED" true

  unfoldable pub worker_poll_interval : Settings → ℤ
  worker_poll_interval s = read_int s "WORKER_POLL_INTERVAL_SEC" (pos 5)

  -- `app.config.get("TESTING")`
  unfoldable pub is_testing : Settings → Bool
  is_testing s = is_truthy (from_app s.app "TESTING")

  unfoldable pub should_start_scheduler : Settings → Bool
  should_start_scheduler s =
      if is_testing s
      then false
      else if is_production s
      then false
      else if not (scheduler_enabled s)
      then false
      else if not (scheduler_autostart s)
      then false
      else true

  unfoldable pub reason_for : Settings → SkipReason
  reason_for s =
      if is_testing s
      then testing_context
      else if is_production s
      then production_mode
      else if not (scheduler_enabled s)
      then not_enabled
      else no_autostart

  -- `t` is the new thread, `now` the clock. The result is what the function returns.
  unfoldable pub start_scheduler_if_enabled : Settings → ℕ → Datetime → Process → Bool × Process
  start_scheduler_if_enabled s t now p =
      if thread_alive p.state.thread p.alive
      then (false, record p { state = record p.state { skip_reason = some already_running } })
      else if not (should_start_scheduler s)
      then (false, record p { state = record p.state { skip_reason = some (reason_for s) } })
      else (
        true,
        record {
          state = record p.state {
            started = true;
            thread = some t;
            started_at = some now;
            skip_reason = none;
          };
          alive = t ∷ p.alive;
        },
      )

-- The callbacks of the loop.
unfoldable pub on_tick_start : Datetime → Process → Process
on_tick_start now p = record p { state = record p.state { last_tick_at = some now } }

unfoldable pub on_tick_done : Datetime → Process → Process
on_tick_done now p = record p {
  state = record p.state { last_tick_at = some now; last_error = none };
}

unfoldable pub on_loop_error : Error → Process → Process
on_loop_error exc p = record p { state = record p.state { last_error = some exc } }

-- The end of a thread.
unfoldable pub thread_ends : ℕ → Process → Process
thread_ends t p = record p { alive = select (λ u. not (u == t)) p.alive }

-- `get_scheduler_runtime_status`, without the conversion of times to texts.
pub record RuntimeStatus : Type 0 where
  pub scheduler_running : Bool
  pub scheduler_started : Bool
  pub scheduler_started_at : Option Datetime
  pub scheduler_last_tick_at : Option Datetime
  pub scheduler_last_error : Option Error
  pub scheduler_skip_reason : Option SkipReason

unfoldable pub get_scheduler_runtime_status : Process → RuntimeStatus
get_scheduler_runtime_status p = record {
  scheduler_running = thread_alive p.state.thread p.alive;
  scheduler_started = p.state.started;
  scheduler_started_at = p.state.started_at;
  scheduler_last_tick_at = p.state.last_tick_at;
  scheduler_last_error = p.state.last_error;
  scheduler_skip_reason = p.state.skip_reason;
}
