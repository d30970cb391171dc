-- ===== src/Timing.antt =====
-- pricewatch/scrape/schedule.py: when a schedule fires next.
--
-- Conversions between UTC and the wall time of a zone, and the cron iteration on wall times, belong
-- to `zoneinfo` and `croniter`; what the code does around them is here.
pub mod Zones
pub mod Interval
pub mod Cron
pub mod Keeps
use managment2_main.Base.{
  ℕ, ◌+◌, String, Bool, Option, none, some, List, [], ◌∷◌, ◌++◌, ltb, leb, if◌then◌else◌, str_eq,
}
use managment2_main.Models.{
  Datetime, instant, as_utc, plus, seconds, Error, interval_not_positive, cron_expr_missing,
  invalid_timezone, bad_cron, unknown_schedule_type, naive_and_aware,
}
use managment2_main.Engine.{ZoneInfo, Engine}
use managment2_main.Session.{
  World, Result, ok, raised, Action, pure, raise, gets, lift, or_raise, ◌>>=◌, ◌>>◌, randint,
}

-- `a <= b` and `a > b`: Python refuses to order a naive and an aware datetime.
unfoldable pub datetime_le : Datetime → Datetime → Result Bool
datetime_le (Datetime.naive a) (Datetime.naive b) = ok (leb a b)
datetime_le (Datetime.aware a) (Datetime.aware b) = ok (leb a b)
datetime_le _ _ = raised naive_and_aware

unfoldable pub datetime_gt : Datetime → Datetime → Result Bool
datetime_gt (Datetime.naive a) (Datetime.naive b) = ok (ltb b a)
datetime_gt (Datetime.aware a) (Datetime.aware b) = ok (ltb b a)
datetime_gt _ _ = raised naive_and_aware

-- `_TZ_CACHE[tz_name]`
unfoldable pub cached : String → List (String × ZoneInfo) → Option ZoneInfo
cached name [] = none
cached name ((key, zone) ∷ rest) = if str_eq key name then some zone else cached name rest

-- `_TZ_CACHE[tz_name] = zi`, for a key that is not there.
remember : String → ZoneInfo → Action ZoneInfo
remember name zone w = (ok zone, record w { tz_cache = w.tz_cache ++ (name, zone) ∷ [] })

-- The keyword arguments of `compute_next_run` that describe the schedule.
pub record Plan : Type 0 where
  pub schedule_type : String
  pub cron_expr : Option String
  pub interval_sec : Option ℕ
  pub tz_name : String
  pub jitter_sec : ℕ

-- `interval_sec is None or interval_sec <= 0` raises.
unfoldable pub interval_base : Option ℕ → Datetime → Result Datetime
interval_base none from_dt = raised interval_not_positive
interval_base (some n) from_dt =
    if leb n 0 then raised interval_not_positive else ok (plus from_dt (seconds n))

module _ ⦃e : Engine⦄ where
  load_zone : String → Action ZoneInfo
  unfolding remember ◌>>=◌
  load_zone name =
      if e.zone_known name
      then remember name (record { key = name })
      else raise (invalid_timezone name)

  zone_or_load : String → Option ZoneInfo → Action ZoneInfo
  unfolding load_zone
  zone_or_load name none = load_zone name
  zone_or_load name (some zone) = pure zone

  -- `_resolve_tz`, and `validate_timezone`, which drops its result.
  unfoldable pub resolve_tz : String → Action ZoneInfo
  unfolding zone_or_load cached ◌>>=◌
  resolve_tz name = do found ← gets (λ w. cached name w.tz_cache); zone_or_load name found

  unfoldable pub validate_timezone : String → Action (Unit {0})
  unfolding resolve_tz
  validate_timezone name = do zone ← resolve_tz name; pure tt

  -- Local wall time, the next match of the expression, and back to UTC.
  unfoldable pub cron_time : String → ZoneInfo → Datetime → Option Datetime
  cron_time expr zone from_dt = elim (e.cron_next expr (e.to_local zone (instant from_dt))) [
    | none ↦ none
    | some wall ↦ some (Datetime.aware (e.to_utc zone wall))
  ]

  -- `if not cron_expr` refuses `None` and the empty text.
  unfoldable pub cron_base : Option String → String → Datetime → Action Datetime
  unfolding cron_time ◌>>=◌
  cron_base none tz_name from_dt = raise cron_expr_missing
  cron_base (some expr) tz_name from_dt =
      if str_eq expr ""
      then raise cron_expr_missing
      else do zone ← resolve_tz tz_name; or_raise (bad_cron expr) (cron_time expr zone from_dt)

  -- `if jitter_sec > 0`
  unfoldable pub add_jitter : ℕ → Datetime → Action Datetime
  unfolding randint ◌>>=◌
  add_jitter jitter_sec base =
      if ltb 0 jitter_sec
      then (do drawn ← randint jitter_sec; pure (plus base (seconds drawn)))
      else pure base

  unfoldable pub base_time : Plan → Datetime → Action Datetime
  unfolding ◌>>=◌
  base_time p from_dt =
      if str_eq p.schedule_type "interval"
      then lift (interval_base p.interval_sec from_dt)
      else if str_eq p.schedule_type "cron"
      then cron_base p.cron_expr p.tz_name from_dt
      else raise (unknown_schedule_type p.schedule_type)

  unfoldable pub compute_next_run : Plan → Datetime → Action Datetime
  unfolding ◌>>=◌
  compute_next_run p from_dt = do base ← base_time p (as_utc from_dt); add_jitter p.jitter_sec base

  -- One step from `current`; where that is not after `now`, one step from `now` with no jitter.
  unfoldable pub advance_next_run : Plan → Datetime → Datetime → Action Datetime
  unfolding datetime_le ◌>>=◌
  advance_next_run p current now = do
    next ← compute_next_run p current
    overdue ← lift (datetime_le next (as_utc now))
    if overdue then compute_next_run (record p { jitter_sec = 0 }) (as_utc now) else pure next
