-- ===== src/Runs/Enqueue.antt =====
-- `enqueue_run`: one more row at the end of the table, queued, under a fresh id.
use managment2_main.Base.{
  suc, ◌+◌, ◌≡◌, refl, Bool, [], ◌∷◌, ◌++◌, map, tally, tally-append, if◌then◌else◌, arith,
}
use managment2_main.Models.{Datetime, ScrapeRun}
use managment2_main.Engine.{Engine}
use managment2_main.Session.{World, ok}
use managment2_main.RunRows.{EnqueueArgs, queued_run}
use managment2_main.Runs.{enqueue_run}

module _ ⦃e : Engine⦄ where
  -- The row that `enqueue_run` adds.
  abbrev pub enqueued : EnqueueArgs → World → ScrapeRun
  enqueued args w =
      queued_run args (Datetime.aware (e.clock w.clock_reads))
        (Datetime.aware (e.clock (suc w.clock_reads))) (e.next_id (map (λ r. r.id) w.runs))

  abbrev pub after_enqueue : EnqueueArgs → World → World
  after_enqueue args w = record w {
    runs = w.runs ++ enqueued args w ∷ [];
    clock_reads = suc (suc w.clock_reads);
  }

  pub enqueue_run-eq :
      (args : EnqueueArgs) (w : World)
      → enqueue_run args w ≡ (ok (enqueued args w), after_enqueue args w)
  unfolding enqueue_run
  enqueue_run-eq args w = refl

  pub tally-after_enqueue :
      (q : ScrapeRun → Bool) (args : EnqueueArgs) (w : World)
      → tally q (after_enqueue args w).runs
        ≡ tally q w.runs + (if q (enqueued args w) then 1 else 0)
  unfolding tally
  tally-after_enqueue q args w = rw tally-append (omega arith)
