-- ===== src/Timing/Keeps.antt =====
-- Timing computations and the tables of runs and jobs.
use managment2_main.Base.{ℕ, List, String, Option, none, some}
use managment2_main.Models.{Datetime, ScrapeRun, ScrapeJob}
use managment2_main.Engine.{ZoneInfo, Engine}
use managment2_main.Session.Keeps.{Keeps, keeps_rules}
use managment2_main.Session.Tables.{Tables, tables_rules}
use managment2_main.Timing.{
  Plan, remember, load_zone, zone_or_load, resolve_tz, cron_base, add_jitter, base_time,
  compute_next_run, advance_next_run,
}

module _ ⦃e : Engine⦄ (Q : List ScrapeRun → List ScrapeJob → Type 0) where
  Keeps-remember : (name : String) (zone : ZoneInfo) → Keeps (Tables Q) (remember name zone)
  unfolding Tables remember
  Keeps-remember name zone = record { at = λ w h. h }

  Keeps-zone_or_load :
      (name : String) (o : Option ZoneInfo) → Keeps (Tables Q) (zone_or_load name o)
  unfolding zone_or_load load_zone
  Keeps-zone_or_load name none = search (keeps_rules, Keeps-remember)
  Keeps-zone_or_load name (some z) = search keeps_rules

  Keeps-resolve_tz : (name : String) → Keeps (Tables Q) (resolve_tz name)
  unfolding resolve_tz
  Keeps-resolve_tz name = search (keeps_rules, Keeps-zone_or_load)

  Keeps-cron_base :
      (x : Option String) (name : String) (t : Datetime) → Keeps (Tables Q) (cron_base x name t)
  unfolding cron_base
  Keeps-cron_base none name t = search keeps_rules
  Keeps-cron_base (some x) name t = search (keeps_rules, Keeps-resolve_tz)

  Keeps-add_jitter : (j : ℕ) (t : Datetime) → Keeps (Tables Q) (add_jitter j t)
  unfolding add_jitter
  Keeps-add_jitter j t = search (keeps_rules, tables_rules)

  Keeps-base_time : (p : Plan) (t : Datetime) → Keeps (Tables Q) (base_time p t)
  unfolding base_time
  Keeps-base_time p t = search (keeps_rules, Keeps-cron_base)

  Keeps-compute_next_run : (p : Plan) (t : Datetime) → Keeps (Tables Q) (compute_next_run p t)
  unfolding compute_next_run
  Keeps-compute_next_run p t = search (keeps_rules, Keeps-base_time, Keeps-add_jitter)

  pub Keeps-advance_next_run :
      (p : Plan) (t now : Datetime) → Keeps (Tables Q) (advance_next_run p t now)
  unfolding advance_next_run
  Keeps-advance_next_run p t now = search (keeps_rules, Keeps-compute_next_run)
