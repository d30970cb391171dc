-- ===== src/Jobs/Due.antt =====
-- `list_due_scrape_jobs`: which jobs a tick is given, and in which order.
use managment2_main.Base.{
  ℕ, ◌≡◌, true, Mem, select, tally, ◌≤◌, arith, ◌⊎◌, mem-of_select, select_sound, mem-select,
  mem-of_take, take-all, length-select, Pairwise-take,
}
use mathlib.Core.List.{Pairwise}
use managment2_main.Models.{Datetime, ScrapeJob}
use managment2_main.Engine.{Engine, EngineLaws}
use managment2_main.Engine.Order.{mem-of_order_by, mem-order_by, length-order_by}
use managment2_main.Session.{World}
use managment2_main.Jobs.{is_due, due_le, list_due_scrape_jobs}

due_le_total : (a b : ScrapeJob) → (due_le a b ≡ true) ⊎ (due_le b a ≡ true)
unfolding due_le
due_le_total a b = ground arith

due_le_trans : (a b c : ScrapeJob) → due_le a b ≡ true → due_le b c ≡ true → due_le a c ≡ true
unfolding due_le
due_le_trans a b c h k = ground arith

module _ ⦃e : Engine⦄ (laws : EngineLaws e) (now : Datetime) (limit : ℕ) (w : World) where
  -- A listed job is a row of the table, enabled, with a next run that is not after now.
  pub list_due_scrape_jobs_sound :
      (job : ScrapeJob)
      → Mem job (list_due_scrape_jobs now limit w)
      → Mem job w.jobs × (is_due now job ≡ true)
  unfolding list_due_scrape_jobs
  list_due_scrape_jobs_sound job m =
      let here = mem-of_order_by laws due_le (select (is_due now) w.jobs) (mem-of_take limit _ m) in
      (mem-of_select _ w.jobs here, select_sound (is_due now) w.jobs here)

  -- Jobs of higher priority come first, and among those of one priority the longest overdue.
  pub list_due_scrape_jobs_sorted :
      Pairwise (λ a b. due_le a b ≡ true) (list_due_scrape_jobs now limit w)
  unfolding list_due_scrape_jobs
  list_due_scrape_jobs_sorted = Pairwise-take limit _ (
      laws.order_by_sorted ScrapeJob due_le (record { total = due_le_total; trans = due_le_trans })
        (select (is_due now) w.jobs))

  -- Where no more jobs are due than the limit allows, every due job is listed.
  pub list_due_scrape_jobs_complete :
      (job : ScrapeJob)
      → tally (is_due now) w.jobs ≤ limit
      → Mem job w.jobs
      → is_due now job ≡ true
      → Mem job (list_due_scrape_jobs now limit w)
  unfolding list_due_scrape_jobs due_le is_due
  list_due_scrape_jobs_complete job room m due =
      let rows = select (is_due now) w.jobs in
      rw
        (take-all limit (e.order_by ScrapeJob due_le rows)
          (omega (arith, length-order_by laws due_le rows, length-select (is_due now) w.jobs)))
        (mem-order_by laws due_le rows (mem-select _ w.jobs m due))
