-- ===== src/Timing/Cron.antt =====
-- Cron schedules: the next match in the schedule's zone, and when it lies in the future.
use managment2_main.Base.{
  ℕ, ◌+◌, ◌≤◌, ◌<◌, ◌≡◌, String, str_eq, refl, true, false, some, arith, inl, inr, Bool-cases, leb,
}
use managment2_main.Models.{Datetime, instant, as_utc, seconds}
use managment2_main.Engine.{ZoneInfo, Engine, EngineLaws}
use managment2_main.Session.{World, Result, ok}
use managment2_main.Timing.{
  Plan, compute_next_run, advance_next_run, resolve_tz, add_jitter, base_time, cron_base, cron_time,
}
use managment2_main.Timing.Zones.{CacheSound, resolve_tz-eq}
use managment2_main.Timing.Interval.{add_jitter_within}

-- A zone with no fold: a wall time after that of an instant is read back as a later instant.
pub record NoFold (e : Engine) (zone : ZoneInfo) : Type 0 where
  pub ahead : (t b : ℕ) → e.to_local zone t < b → t < e.to_utc zone b

-- A cron plan that the code accepts, with its expression.
pub record IsCron (e : Engine) (p : Plan) (expr : String) : Type 0 where
  pub is_cron : p.schedule_type ≡ "cron"
  pub has_expr : p.cron_expr ≡ some expr
  pub not_empty : str_eq expr "" ≡ false
  pub known : e.zone_known p.tz_name ≡ true

module _ ⦃e : Engine⦄ where
  add_jitter-tz_cache :
      (j : ℕ) (b : Datetime) (w : World) → (add_jitter j b w).1.tz_cache ≡ w.tz_cache
  unfolding add_jitter
  add_jitter-tz_cache j b w = ground arith

  -- What `cron_base` returns, on a state whose cache is sound.
  abbrev CronValue : ℕ → Result Datetime × World → Type 0
  CronValue t (r, w) = (r ≡ ok (Datetime.aware t)) × CacheSound w.tz_cache

  cron_base-eq :
      (name expr : String) (from : Datetime) (w : World) (wall : ℕ)
      → CacheSound w.tz_cache
      → str_eq expr "" ≡ false
      → e.zone_known name ≡ true
      → e.cron_next expr (e.to_local (record { key = name }) (instant from)) ≡ some wall
      → CronValue (e.to_utc (record { key = name }) wall) (cron_base (some expr) name from w)
  unfolding cron_base cron_time
  cron_base-eq name expr from w wall sound full known match =
      let (zone, still) = resolve_tz-eq name w sound in
      let found : (resolve_tz name w).0 ≡ ok (record { key = name }) = rw known at zone in
      rw (full, found) (rw (match, cron_time) (refl, still))

  -- A cron plan with a known zone fires at the next match after the local time, read back as UTC, and
  -- up to `jitter_sec` seconds later.
  pub compute_next_run_cron :
      (laws : EngineLaws e) (p : Plan) (from : Datetime) (w : World) (expr : String) (wall : ℕ)
      → CacheSound w.tz_cache
      → IsCron e p expr
      → e.cron_next expr (e.to_local (record { key = p.tz_name }) (instant from)) ≡ some wall
      → (d : ℕ) × ((compute_next_run p from w).0
          ≡ ok (Datetime.aware (e.to_utc (record { key = p.tz_name }) wall + seconds d)))
        × (d ≤ p.jitter_sec)
        × CacheSound (compute_next_run p from w).1.tz_cache
  unfolding compute_next_run base_time
  compute_next_run_cron laws p from w expr wall sound c match =
      let (value, still) =
        cron_base-eq p.tz_name expr (as_utc from) w wall sound c.not_empty c.known match in
      let t : ℕ = e.to_utc (record { key = p.tz_name }) wall in
      let w' : World = (cron_base (some expr) p.tz_name (as_utc from) w).1 in
      let (d, jittered, small) = add_jitter_within laws p.jitter_sec t w' in
      rw (c.is_cron, c.has_expr, value)
        (d, jittered, small, rw (add_jitter-tz_cache p.jitter_sec (Datetime.aware t) w') still)

module _ ⦃e : Engine⦄ (laws : EngineLaws e) (p : Plan) (expr : String) (c : IsCron e p expr) where
  abbrev zone : ZoneInfo
  zone = record { key = p.tz_name }

  -- The pass from `now` that an overdue schedule makes.
  catch_up :
      (now : Datetime) (w : World) (wall : ℕ)
      → CacheSound w.tz_cache
      → e.cron_next expr (e.to_local zone (instant now)) ≡ some wall
      → (compute_next_run (record p { jitter_sec = 0 }) (as_utc now) w).0
        ≡ ok (Datetime.aware (e.to_utc zone wall))
  catch_up now w wall sound match =
      let q : Plan = record p { jitter_sec = 0 } in
      let d : IsCron e q expr = record {
        is_cron = c.is_cron;
        has_expr = c.has_expr;
        not_empty = c.not_empty;
        known = c.known;
      } in
      let (k, value, small, _) =
        compute_next_run_cron laws q (as_utc now) w expr wall sound d match in
      let none_left : k ≡ 0 = omega arith in rw value (rw none_left (ground arith))

  -- In a zone whose wall time has no fold, a cron schedule that always has a further match fires
  -- next in the future.
  pub advance_next_run_cron_future :
      (current now : Datetime) (w : World)
      → CacheSound w.tz_cache
      → NoFold e zone
      → ((t : ℕ) → (u : ℕ) × (e.cron_next expr t ≡ some u))
      → (t : ℕ) × ((advance_next_run p current now w).0 ≡ ok (Datetime.aware t)) × (instant now < t)
  unfolding advance_next_run
  advance_next_run_cron_future current now w sound smooth matches =
      let (wall, match) = matches (e.to_local zone (instant current)) in
      let (later, again) = matches (e.to_local zone (instant now)) in
      let (d, value, small, still) =
        compute_next_run_cron laws p current w expr wall sound c match in
      let next : ℕ = e.to_utc zone wall + seconds d in
      let after : instant now < e.to_utc zone later =
        smooth.ahead (instant now) later (laws.cron_later expr _ later again) in
      elim (Bool-cases (leb next (instant now))) [
        | inl overdue ↦
            (e.to_utc zone later, rw (value, overdue) (catch_up now _ later still again), after)
        | inr ahead ↦ (next, rw (value, ahead) refl, ground arith)
      ]

  -- Where the next match after the old time and the largest jitter are not after now, an overdue
  -- cron schedule fires at the first match after the wall time of now, read back as UTC, with no
  -- jitter, even where that is not after now.
  pub advance_next_run_cron_overdue :
      (current now : Datetime) (w : World) (first again : ℕ)
      → CacheSound w.tz_cache
      → e.cron_next expr (e.to_local zone (instant current)) ≡ some first
      → e.cron_next expr (e.to_local zone (instant now)) ≡ some again
      → e.to_utc zone first + seconds p.jitter_sec ≤ instant now
      → (advance_next_run p current now w).0 ≡ ok (Datetime.aware (e.to_utc zone again))
  unfolding advance_next_run
  advance_next_run_cron_overdue current now w first again sound m₁ m₂ early =
      let (d, value, small, still) = compute_next_run_cron laws p current w expr first sound c m₁ in
      let overdue : leb (e.to_utc zone first + seconds d) (instant now) ≡ true = ground arith in
      rw (value, overdue) (catch_up now _ again still m₂)
