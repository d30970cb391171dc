-- ===== src/Runs/Claim.antt =====
-- `claim_next_queued_run`: which run is claimed, what changes, and when there is none.
use managment2_main.Base.{
  ℕ, ◌≤◌, ◌<◌, Option, ◌≡◌, refl, true, false, none, some, Mem, select, update, arith, Bool-cases,
  inl, inr, ◌⊎◌, String, Option-cases, ◌==◌, select_sound, mem-of_select, mem-select,
}
use managment2_main.Models.{ScrapeRun, RunStatus, is_queued, Datetime, instant}
use managment2_main.Engine.{Engine, EngineLaws, IsOrder}
use managment2_main.Engine.Order.{mem-head?-order_by, order_by_empty, order_by_least}
use managment2_main.Session.{World, ok}
use managment2_main.RunRows.{claim_le}
use managment2_main.Runs.{next_queued, claim_next_queued_run}

claim_le_trans :
    (a b c : ScrapeRun) → claim_le a b ≡ true → claim_le b c ≡ true → claim_le a c ≡ true
unfolding claim_le
claim_le_trans a b c h k = ground arith

claim_le_total : (a b : ScrapeRun) → (claim_le a b ≡ true) ⊎ (claim_le b a ≡ true)
unfolding claim_le
claim_le_total a b = ground arith

pub claim_le-IsOrder : IsOrder claim_le
claim_le-IsOrder = record { total = claim_le_total; trans = claim_le_trans }

-- The order of the queue: a run that was queued earlier, with the lower id where the times are equal; a
-- run with no time comes last.
abbrev pub InOrder : Option Datetime → ℕ → Option Datetime → ℕ → Type 0
InOrder (some a) i (some b) j = (instant a < instant b) ⊎ ((instant a ≡ instant b) × (i ≤ j))
InOrder (some a) i none j = Unit {0}
InOrder none i (some b) j = ⊥
InOrder none i none j = i ≤ j

abbrev pub QueuedBefore : ScrapeRun → ScrapeRun → Type 0
QueuedBefore a b = InOrder a.queued_at a.id b.queued_at b.id

claim_le-InOrder :
    (a b : ScrapeRun) (s t : Option Datetime)
    → claim_le (record a { queued_at = s }) (record b { queued_at = t }) ≡ true
    → InOrder s a.id t b.id
unfolding claim_le
claim_le-InOrder a b (some s) (some t) h = ground arith
claim_le-InOrder a b (some s) none h = tt
claim_le-InOrder a b none (some t) h = absurd (cc)
claim_le-InOrder a b none none h = ground arith

-- A run as a worker claims it.
abbrev pub run_by : String → Datetime → ScrapeRun → ScrapeRun
run_by worker now r = record r {
  status = some RunStatus.running;
  worker_id = some worker;
  started_at = some now;
}

is_queued_sound : (s : Option RunStatus) → is_queued s ≡ true → s ≡ some RunStatus.queued
is_queued_sound none h = absurd (cc)
is_queued_sound (some RunStatus.queued) h = refl
is_queued_sound (some RunStatus.running) h = absurd (cc)
is_queued_sound (some RunStatus.success) h = absurd (cc)
is_queued_sound (some RunStatus.partial) h = absurd (cc)
is_queued_sound (some RunStatus.failed) h = absurd (cc)
is_queued_sound (some RunStatus.cancelled) h = absurd (cc)
is_queued_sound (some RunStatus.skipped) h = absurd (cc)
is_queued_sound (some RunStatus.finished) h = absurd (cc)
is_queued_sound (some (RunStatus.other t)) h = absurd (cc)

module _ ⦃e : Engine⦄ (laws : EngineLaws e) where
  -- The run to claim is queued, and no queued run comes before it in queue order.
  pub next_queued_oldest :
      (w : World) {r : ScrapeRun}
      → next_queued w ≡ some r
      → Mem r w.runs
        × (is_queued r.status ≡ true)
        × ((q : ScrapeRun) → Mem q w.runs → is_queued q.status ≡ true → claim_le r q ≡ true)
  unfolding next_queued
  next_queued_oldest w {r} h =
      let waiting = select (λ q. is_queued q.status) w.runs in
      let m : Mem r waiting = mem-head?-order_by laws claim_le waiting h in
      (
        mem-of_select _ w.runs m,
        select_sound (λ q. is_queued q.status) w.runs m,
        λ q mq queued.
            order_by_least laws claim_le waiting claim_le-IsOrder h (mem-select _ w.runs mq queued),
      )

  pub next_queued-none :
      (w : World) (q : ScrapeRun) → next_queued w ≡ none → Mem q w.runs → is_queued q.status ≡ false
  unfolding next_queued
  next_queued-none w q h m = elim (Bool-cases (is_queued q.status)) [
    | inl waits ↦ absurd (
        order_by_empty laws claim_le (select (λ r. is_queued r.status) w.runs) h
          (mem-select _ w.runs m waits))
    | inr other ↦ other
  ]

  -- A claim that returns a run has taken the oldest queued one: it was queued, every other queued
  -- run was queued later or at the same time with no lower id, where a run with no time comes
  -- last; and exactly its row has changed, which is now running, with the name of the worker and
  -- the time of the claim as its start.
  pub claim_next_queued_run_oldest :
      (worker : String) (w : World) {r : ScrapeRun}
      → (claim_next_queued_run worker w).0 ≡ ok (some r)
      → (source : ScrapeRun) × Mem source w.runs
        × (source.status ≡ some RunStatus.queued)
        × ((q : ScrapeRun)
            → Mem q w.runs
            → q.status ≡ some RunStatus.queued
            → QueuedBefore source q)
        × (r ≡ run_by worker (Datetime.aware (e.clock w.clock_reads)) source)
        × ((claim_next_queued_run worker w).1.runs
            ≡ update
                (λ q. q.id == source.id)
                (run_by worker (Datetime.aware (e.clock w.clock_reads)))
                w.runs)
  unfolding claim_next_queued_run
  claim_next_queued_run_oldest worker w {r} h = elim (Option-cases (next_queued w)) [
    | inl idle ↦ absurd (cc (rw idle at h))
    | inr (source, found) ↦
        let (here, waits, first) = next_queued_oldest w found in
        (
          source,
          here,
          is_queued_sound source.status waits,
          λ q m queued.
              claim_le-InOrder source q source.queued_at q.queued_at (first q m (rw queued refl)),
          cc (rw found at h),
          rw found refl,
        )
  ]

  -- With no queued run a claim returns nothing and changes nothing.
  pub claim_next_queued_run_idle :
      (worker : String) (w : World)
      → ((q : ScrapeRun) → Mem q w.runs → is_queued q.status ≡ false)
      → claim_next_queued_run worker w ≡ (ok none, w)
  unfolding claim_next_queued_run
  claim_next_queued_run_idle worker w none_waits = elim (Option-cases (next_queued w)) [
    | inl idle ↦ rw idle
    | inr (source, found) ↦
        let (here, waits, _) = next_queued_oldest w found in absurd (cc (none_waits source here))
  ]
