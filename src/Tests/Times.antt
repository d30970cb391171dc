-- ===== src/Tests/Times.antt =====
-- The theorems on schedules at concrete times.
use managment2_main.Base.{ℕ, ◌+◌, ◌≤◌, ◌<◌, ◌≡◌, refl, none, some, arith}
use managment2_main.Models.{Datetime, instant, seconds}
use managment2_main.Session.{ok}
use managment2_main.Sample.{sample_laws, sample_engine}
use managment2_main.Sample.World.{due_world, at}
use managment2_main.Timing.{Plan, compute_next_run, advance_next_run, resolve_tz, cached}
use managment2_main.Timing.Zones.{CacheSound, zone_info, resolve_tz-eq}
use managment2_main.Timing.Interval.{advance_next_run_future}
use managment2_main.Timing.Cron.{
  NoFold, IsCron, compute_next_run_cron, advance_next_run_cron_future,
  advance_next_run_cron_overdue,
}

abbrev hourly_plan : Plan
hourly_plan = record {
  schedule_type = "interval";
  cron_expr = none;
  interval_sec = some 3600;
  tz_name = "UTC";
  jitter_sec = 30;
}

abbrev broken_plan : Plan
broken_plan = record {
  schedule_type = "interval";
  cron_expr = none;
  interval_sec = some 0;
  tz_name = "UTC";
  jitter_sec = 30;
}

abbrev cron_plan : Plan
cron_plan = record {
  schedule_type = "cron";
  cron_expr = some "* * * * *";
  interval_sec = none;
  tz_name = "UTC";
  jitter_sec = 0;
}

-- The same in a zone nine hours ahead of UTC.
abbrev tokyo_plan : Plan
tokyo_plan = record {
  schedule_type = "cron";
  cron_expr = some "* * * * *";
  interval_sec = none;
  tz_name = "Asia/Tokyo";
  jitter_sec = 0;
}

-- The same in the zone that repeats an hour.
abbrev fold_plan : Plan
fold_plan = record {
  schedule_type = "cron";
  cron_expr = some "* * * * *";
  interval_sec = none;
  tz_name = "Fold";
  jitter_sec = 0;
}

empty-CacheSound : CacheSound due_world.tz_cache
unfolding cached
empty-CacheSound = record { at_name = λ n z h. absurd (cc) }

cron_plan-IsCron : IsCron sample_engine cron_plan "* * * * *"
unfolding sample_engine
cron_plan-IsCron = record { is_cron = refl; has_expr = refl; not_empty = refl; known = refl }

fold_plan-IsCron : IsCron sample_engine fold_plan "* * * * *"
unfolding sample_engine
fold_plan-IsCron = record { is_cron = refl; has_expr = refl; not_empty = refl; known = refl }

tokyo_plan-IsCron : IsCron sample_engine tokyo_plan "* * * * *"
unfolding sample_engine
tokyo_plan-IsCron = record { is_cron = refl; has_expr = refl; not_empty = refl; known = refl }

tokyo-NoFold : NoFold sample_engine (record { key = "Asia/Tokyo" })
unfolding sample_engine
tokyo-NoFold = record { ahead = λ t b h. omega (arith, h) }

advance_next_run_future_example :
    (t : ℕ) × ((advance_next_run hourly_plan (at 900) (at 9000) due_world).0
      ≡ ok (Datetime.aware t))
    × (instant (at 9000) < t)
    × (t ≤ instant (at 9000) + seconds 3600 + seconds hourly_plan.jitter_sec)
advance_next_run_future_example =
    advance_next_run_future sample_laws hourly_plan (at 900) (at 9000) due_world 3600 refl refl
      (omega arith) (omega arith)

resolve_tz-eq_example :
    ((resolve_tz "Mars" due_world).0 ≡ zone_info "Mars")
    × CacheSound (resolve_tz "Mars" due_world).1.tz_cache
resolve_tz-eq_example = resolve_tz-eq "Mars" due_world empty-CacheSound

compute_next_run_cron_example :
    (d : ℕ) × ((compute_next_run cron_plan (at 900) due_world).0
      ≡ ok (
          Datetime.aware (sample_engine.to_utc (record { key = "UTC" }) (seconds 960) + seconds d)))
    × (d ≤ cron_plan.jitter_sec)
    × CacheSound (compute_next_run cron_plan (at 900) due_world).1.tz_cache
unfolding sample_engine
compute_next_run_cron_example =
    compute_next_run_cron sample_laws cron_plan (at 900) due_world "* * * * *" (seconds 960)
      empty-CacheSound cron_plan-IsCron refl

advance_next_run_cron_future_example :
    (t : ℕ) × ((advance_next_run tokyo_plan (at 900) (at 9000) due_world).0 ≡ ok (Datetime.aware t))
    × (instant (at 9000) < t)
unfolding sample_engine
advance_next_run_cron_future_example =
    advance_next_run_cron_future sample_laws tokyo_plan "* * * * *" tokyo_plan-IsCron (at 900)
      (at 9000) due_world empty-CacheSound tokyo-NoFold (λ t. (t + seconds 60, refl))

-- In the zone that repeats an hour: at 9000 s the next wall time, 9060 s, is read as 5460 s.
advance_next_run_cron_overdue_example :
    (advance_next_run fold_plan (at 900) (at 9000) due_world).0
    ≡ ok (Datetime.aware (sample_engine.to_utc (record { key = "Fold" }) (seconds 9060)))
unfolding sample_engine
advance_next_run_cron_overdue_example =
    advance_next_run_cron_overdue sample_laws fold_plan "* * * * *" fold_plan-IsCron (at 900)
      (at 9000) due_world (seconds 960) (seconds 9060) empty-CacheSound refl refl (omega arith)
