-- ===== src/Timing/Interval.antt =====
-- Interval schedules: the exact next time, what is refused, and that a schedule catches up.
use managment2_main.Base.{
  ℕ, ◌+◌, ◌≤◌, ◌<◌, ◌≡◌, refl, false, none, some, ltb, leb, arith, Bool-cases, inl, inr, ◌⊎◌,
}
use managment2_main.Models.{Datetime, instant, as_utc, seconds, interval_not_positive}
use managment2_main.Engine.{Engine, EngineLaws}
use managment2_main.Session.{World, ok, raised}
use managment2_main.Timing.{
  Plan, interval_base, base_time, add_jitter, compute_next_run, advance_next_run,
}

pos_test : (n : ℕ) → 0 < n → leb n 0 ≡ false
pos_test n h = ground arith

module _ ⦃e : Engine⦄ where
  pub add_jitter_within :
      (laws : EngineLaws e) (j t : ℕ) (w : World)
      → (d : ℕ) × ((add_jitter j (Datetime.aware t) w).0 ≡ ok (Datetime.aware (t + seconds d)))
        × (d ≤ j)
  unfolding add_jitter
  add_jitter_within laws j t w = elim (Bool-cases (ltb 0 j)) [
    | inl some_jitter ↦
        rw some_jitter (e.randint w.random_reads j, refl, laws.randint_le w.random_reads j)
    | inr no_jitter ↦ rw no_jitter (0, ground arith, omega arith)
  ]

  -- An interval schedule fires its interval after the reference time, up to a jitter of at most
  -- `jitter_sec` seconds later. A naive reference time counts as UTC.
  pub compute_next_run_interval :
      (laws : EngineLaws e) (p : Plan) (from : Datetime) (w : World) (n : ℕ)
      → p.schedule_type ≡ "interval"
      → p.interval_sec ≡ some n
      → 0 < n
      → (d : ℕ) × ((compute_next_run p from w).0
          ≡ ok (Datetime.aware (instant from + seconds n + seconds d)))
        × (d ≤ p.jitter_sec)
  unfolding compute_next_run base_time interval_base
  compute_next_run_interval laws p from w n ty sec h =
      rw (ty, sec, pos_test n h) (add_jitter_within laws p.jitter_sec (instant from + seconds n) w)

  -- Without a positive interval the computation is refused, and nothing is read or changed.
  pub compute_next_run_refused :
      (p : Plan) (from : Datetime) (w : World)
      → p.schedule_type ≡ "interval"
      → (p.interval_sec ≡ none) ⊎ (p.interval_sec ≡ some 0)
      → compute_next_run p from w ≡ (raised interval_not_positive, w)
  unfolding compute_next_run base_time interval_base
  compute_next_run_refused p from w ty bad = elim bad [
    | inl no_interval ↦ rw (ty, no_interval)
    | inr no_seconds ↦ rw (ty, no_seconds)
  ]

  catch_up :
      (laws : EngineLaws e) (p : Plan) (now : Datetime) (w : World) (n : ℕ)
      → p.schedule_type ≡ "interval"
      → p.interval_sec ≡ some n
      → 0 < n
      → (compute_next_run (record p { jitter_sec = 0 }) (as_utc now) w).0
        ≡ ok (Datetime.aware (instant now + seconds n))
  catch_up laws p now w n ty sec h =
      let (d, value, small) =
        compute_next_run_interval laws (record p { jitter_sec = 0 }) (as_utc now) w n ty sec h in
      let none_left : d ≡ 0 = omega arith in rw value (rw none_left (ground arith))

  -- After a firing, an interval schedule fires again in the future and at most one interval and the
  -- jitter after now, however long it was overdue: missed firings are skipped.
  pub advance_next_run_future :
      (laws : EngineLaws e) (p : Plan) (current now : Datetime) (w : World) (n : ℕ)
      → p.schedule_type ≡ "interval"
      → p.interval_sec ≡ some n
      → 0 < n
      → instant current ≤ instant now
      → (t : ℕ) × ((advance_next_run p current now w).0 ≡ ok (Datetime.aware t))
        × (instant now < t)
        × (t ≤ instant now + seconds n + seconds p.jitter_sec)
  unfolding advance_next_run
  advance_next_run_future laws p current now w n ty sec h due =
      let (d, value, small) = compute_next_run_interval laws p current w n ty sec h in
      let next : ℕ = instant current + seconds n + seconds d in
      elim (Bool-cases (leb next (instant now))) [
        | inl overdue ↦ (
          instant now + seconds n,
          rw (value, overdue) (catch_up laws p now _ n ty sec h),
          omega arith,
          omega arith,
        )
        | inr ahead ↦ (next, rw (value, ahead) refl, ground arith, omega arith)
      ]
