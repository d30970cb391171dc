-- ===== src/Scheduler/Owed.antt =====
-- Retry children: how many runs point to each source run, and the writes of a tick that change it.
use managment2_main.Base.{
  tally_fresh, ℕ, ◌+◌, ◌≤◌, ◌≡◌, refl, List, [], ◌∷◌, map, tally, update, arith, ◌==◌, ==_iff,
  tally-update, tally-append, update_none, update-append, Bool-cases, inl, inr, if◌then◌else◌,
}
use managment2_main.Models.{ScrapeRun}
use managment2_main.Engine.{Engine, EngineLaws}
use managment2_main.Session.{World}
use managment2_main.RunRows.{child_of, EnqueueArgs, queued_run}
use managment2_main.Runs.Enqueue.{enqueued, after_enqueue, tally-after_enqueue}
use managment2_main.Scheduler.{retry_of}

-- Run ids are unique, and each run has at most one retry child, or none while it stands in `waiting`,
-- the candidates that are still to be processed.
pub record Owed (waiting runs : List ScrapeRun) : Type 0 where
  pub unique : (i : ℕ) → tally (λ r. r.id == i) runs ≤ 1
  pub one_child : (k : ℕ) → tally (child_of k) runs + tally (λ r. r.id == k) waiting ≤ 1

pub Owed-tail :
    (source : ScrapeRun) (waiting runs : List ScrapeRun)
    → Owed (source ∷ waiting) runs
    → Owed waiting runs
unfolding tally
Owed-tail source waiting runs o = record {
  unique = o.unique;
  one_child = λ k. omega (arith, o.one_child k);
}

-- A write that leaves ids and lineage alone.
pub Owed-update :
    (waiting runs : List ScrapeRun) (i : ℕ) (f : ScrapeRun → ScrapeRun)
    → ((k : ℕ) (r : ScrapeRun) → child_of k (f r) ≡ child_of k r)
    → ((k : ℕ) (r : ScrapeRun) → ((f r).id == k) ≡ (r.id == k))
    → Owed waiting runs
    → Owed waiting (update (λ r. r.id == i) f runs)
Owed-update waiting runs i f lineage ids o = record {
  unique =
      λ k. rw (tally-update (λ r. r.id == k) (λ r. r.id == i) f runs (λ r _. ids k r)) (o.unique k);
  one_child = λ k.
      rw (tally-update (child_of k) (λ r. r.id == i) f runs (λ r _. lineage k r)) (o.one_child k);
}

module _ ⦃e : Engine⦄ (laws : EngineLaws e) where
  no_such_id :
      (args : EnqueueArgs) (w : World) → tally (λ r. r.id == (enqueued args w).id) w.runs ≡ 0
  unfolding queued_run
  no_such_id args w =
      tally_fresh (λ r. r.id) (e.next_id (map (λ r. r.id) w.runs)) w.runs
        (laws.next_id_fresh (map (λ r. r.id) w.runs))

  -- The id of an enqueued run is no other run's, and it is nobody's child.
  pub enqueue_run-Owed :
      (args : EnqueueArgs) (waiting : List ScrapeRun) (w : World)
      → Owed waiting w.runs
      → Owed waiting (after_enqueue args w).runs
  unfolding child_of queued_run
  enqueue_run-Owed args waiting w o =
      let fresh = no_such_id args w in
      record {
        unique = λ k.
            rw (tally-after_enqueue (λ r. r.id == k) args w)
              (elim (Bool-cases ((enqueued args w).id == k)) [
                | inl same ↦
                    let here : (enqueued args w).id ≡ k = (==_iff (enqueued args w).id k).0 same in
                    let none_yet : tally (λ r. r.id == k) w.runs ≡ 0 = rw (← here) fresh in
                    rw same (omega arith)
                | inr other ↦ rw other (omega (arith, o.unique k))
              ]);
        one_child =
            λ k. rw (tally-after_enqueue (child_of k) args w) (omega (arith, o.one_child k));
      }

  -- The lineage pointer gives the source one child, and no other run any.
  tally-linked :
      (args : EnqueueArgs) (w : World) (s k : ℕ)
      → tally
          (child_of k)
          (update (λ r. r.id == (enqueued args w).id) (retry_of s) (after_enqueue args w).runs)
        ≡ tally (child_of k) w.runs + (if s == k then 1 else 0)
  unfolding update tally child_of
  tally-linked args w s k =
      rw
        (
          update-append (λ r. r.id == (enqueued args w).id) (retry_of s) w.runs
              (enqueued args w ∷ []),
          update_none (λ r. r.id == (enqueued args w).id) (retry_of s) w.runs (no_such_id args w),
          tally-append (child_of k) w.runs,
        )
        (ground arith)

  pub link_retry-Owed :
      (args : EnqueueArgs) (source : ScrapeRun) (waiting : List ScrapeRun) (w : World)
      → Owed (source ∷ waiting) w.runs
      → Owed waiting (
          update
            (λ r. r.id == (enqueued args w).id)
            (retry_of source.id)
            (after_enqueue args w).runs)
  unfolding tally
  link_retry-Owed args source waiting w o = record {
    unique = λ k.
        rw
          (tally-update (λ r. r.id == k) (λ r. r.id == (enqueued args w).id) (retry_of source.id)
            (after_enqueue args w).runs (λ r _. refl))
          ((enqueue_run-Owed args (source ∷ waiting) w o).unique k);
    one_child = λ k. rw (tally-linked args w source.id k) (omega (arith, o.one_child k));
  }
