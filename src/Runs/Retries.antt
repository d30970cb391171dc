-- ===== src/Runs/Retries.antt =====
-- Which runs `list_retry_candidates` lists, and in which order it fills its limit.
use mathlib.Core.Logic.Or
use managment2_main.Base.{
  ℕ, ◌≤◌, ◌≡◌, ◌≢◌, inl, inr, refl, true, false, Option, none, some, List, Mem, select, length,
  arith, is_id, mem-of_select, select_sound, mem-select, mem-of_take, false_of_tally-zero,
  tally-cases, ◌==◌, ==_iff, ==_refl,
}
use mathlib.Core.Logic.{◌∨₁◌, ∥∥₁_prop}
use managment2_main.Models.{Datetime, instant, ScrapeRun, RunStatus, is_failed}
use managment2_main.Engine.{Engine, EngineLaws}
use managment2_main.Engine.Order.{mem-of_order_by, mem-order_by}
use managment2_main.Query.{filter_by}
use managment2_main.Session.{World}
use managment2_main.RunRows.{child_of, is_candidate, finished_by, finished_le}
use managment2_main.Runs.{list_retry_candidates}
use managment2_main.Runs.Candidates.{is_candidate→IsCandidate, IsCandidate→is_candidate}
use managment2_main.Runs.RetryOrder.{
  NotAfter, finished_le-NotAfter, finished_le-IsOrder, take-sorted,
}

-- A run that is owed a retry: it failed, may be retried, was not dealt with, and no run is a retry of it.
pub record Owed (w : World) (r : ScrapeRun) : Type 0 where
  pub status : r.status ≡ some RunStatus.failed
  pub retryable : r.retryable ≡ true
  pub not_processed : r.retry_processed ≡ false
  pub not_exhausted : r.retry_exhausted ≡ false
  pub no_child : (c : ScrapeRun) → Mem c w.runs → c.retry_of_run_id ≢ some r.id

-- The two filters, where they are given.
abbrev pub OfJob : Option ℕ → Option ℕ → Type 0
OfJob none job = Unit {0}
OfJob (some j) job = job ≡ some j

abbrev pub EndedBy : Option Datetime → Option Datetime → Type 0
EndedBy (some cutoff) (some t) = instant t ≤ instant cutoff
EndedBy (some cutoff) none = ⊥
EndedBy none t = Unit {0}

is_failed_sound : (s : Option RunStatus) → is_failed s ≡ true → s ≡ some RunStatus.failed
is_failed_sound none h = absurd (cc)
is_failed_sound (some RunStatus.queued) h = absurd (cc)
is_failed_sound (some RunStatus.running) h = absurd (cc)
is_failed_sound (some RunStatus.success) h = absurd (cc)
is_failed_sound (some RunStatus.partial) h = absurd (cc)
is_failed_sound (some RunStatus.failed) h = refl
is_failed_sound (some RunStatus.cancelled) h = absurd (cc)
is_failed_sound (some RunStatus.skipped) h = absurd (cc)
is_failed_sound (some RunStatus.finished) h = absurd (cc)
is_failed_sound (some (RunStatus.other t)) h = absurd (cc)

is_id_sound : (o : Option ℕ) (i : ℕ) → is_id o i ≡ true → o ≡ some i
is_id_sound none i h = absurd (cc)
is_id_sound (some a) i h = rw ((==_iff a i).0 h) refl

child_apart : (c : ScrapeRun) (i : ℕ) → child_of i c ≡ false → c.retry_of_run_id ≢ some i
unfolding child_of
child_apart c i h same = let both : (i == i) ≡ false = rw same at h in absurd (cc (both, ==_refl i))

candidate-Owed : (w : World) (r : ScrapeRun) → is_candidate w r ≡ true → Owed w r
candidate-Owed w r h =
    let c = is_candidate→IsCandidate w r h in
    record {
      status = is_failed_sound r.status c.has_failed;
      retryable = c.is_retryable;
      not_processed = c.not_processed;
      not_exhausted = c.not_exhausted;
      no_child =
          λ q m. child_apart q r.id (false_of_tally-zero (child_of r.id) w.runs c.no_child m);
    }

Owed-candidate : (w : World) (r : ScrapeRun) → Owed w r → is_candidate w r ≡ true
unfolding child_of
Owed-candidate w r o = IsCandidate→is_candidate w r (record {
  has_failed = rw (o.status) refl;
  is_retryable = o.retryable;
  not_processed = o.not_processed;
  not_exhausted = o.not_exhausted;
  no_child = elim (tally-cases (child_of r.id) w.runs) [
    | inl nothing ↦ nothing
    | inr (c, m, child) ↦ absurd (o.no_child c m (is_id_sound c.retry_of_run_id r.id child))
  ];
})

module _ ⦃e : Engine⦄ (laws : EngineLaws e) (w : World) where
  abbrev in_time : Option ℕ → Option Datetime → List ScrapeRun
  in_time job_id cutoff =
      filter_by cutoff finished_by
        (filter_by job_id (λ j q. is_id q.job_id j) (select (is_candidate w) w.runs))

  of_job :
      (job_id : Option ℕ) (rows : List ScrapeRun) (r : ScrapeRun)
      → Mem r (filter_by job_id (λ j q. is_id q.job_id j) rows)
      → Mem r rows × OfJob job_id r.job_id
  unfolding filter_by
  of_job none rows r m = (m, tt)
  of_job (some j) rows r m =
      (mem-of_select _ rows m, is_id_sound r.job_id j (select_sound (λ q. is_id q.job_id j) rows m))

  ended_by-EndedBy :
      (cutoff : Datetime) (r : ScrapeRun) (t : Option Datetime)
      → finished_by cutoff (record r { finished_at = t }) ≡ true
      → EndedBy (some cutoff) t
  ended_by-EndedBy cutoff r none h = absurd (cc)
  ended_by-EndedBy cutoff r (some t) h = ground arith

  EndedBy-ended_by :
      (cutoff : Datetime) (r : ScrapeRun) (t : Option Datetime)
      → EndedBy (some cutoff) t
      → finished_by cutoff (record r { finished_at = t }) ≡ true
  EndedBy-ended_by cutoff r none h = absurd h
  EndedBy-ended_by cutoff r (some t) h = ground arith

  ended :
      (cutoff : Option Datetime) (rows : List ScrapeRun) (r : ScrapeRun)
      → Mem r (filter_by cutoff finished_by rows)
      → Mem r rows × EndedBy cutoff r.finished_at
  unfolding filter_by
  ended none rows r m = (m, tt)
  ended (some t) rows r m = (
    mem-of_select _ rows m,
    ended_by-EndedBy t r r.finished_at (select_sound (finished_by t) rows m),
  )

  mem-of_job :
      (job_id : Option ℕ) (rows : List ScrapeRun) (r : ScrapeRun)
      → Mem r rows
      → OfJob job_id r.job_id
      → Mem r (filter_by job_id (λ j q. is_id q.job_id j) rows)
  unfolding filter_by
  mem-of_job none rows r m mine = m
  mem-of_job (some j) rows r m mine =
      mem-select (λ q. is_id q.job_id j) rows m (rw mine (==_refl j))

  mem-ended :
      (cutoff : Option Datetime) (rows : List ScrapeRun) (r : ScrapeRun)
      → Mem r rows
      → EndedBy cutoff r.finished_at
      → Mem r (filter_by cutoff finished_by rows)
  unfolding filter_by
  mem-ended none rows r m timely = m
  mem-ended (some t) rows r m timely =
      mem-select (finished_by t) rows m (EndedBy-ended_by t r r.finished_at timely)

  -- Every listed retry candidate is a row of the table that failed, is retryable, was neither
  -- processed nor exhausted and that no row names as the run it retries; it is of the given job
  -- and ended by the given time, where these are given.
  pub list_retry_candidates_sound :
      (job_id : Option ℕ) (cutoff : Option Datetime) (limit : ℕ) (r : ScrapeRun)
      → Mem r (list_retry_candidates job_id cutoff limit w)
      → Mem r w.runs × Owed w r × OfJob job_id r.job_id × EndedBy cutoff r.finished_at
  unfolding list_retry_candidates
  list_retry_candidates_sound job_id cutoff limit r m =
      let owed = select (is_candidate w) w.runs in
      let (first, timely) =
        ended cutoff _ r
          (mem-of_order_by laws finished_le (in_time job_id cutoff) (mem-of_take limit _ m)) in
      let (here, mine) = of_job job_id owed r first in
      (
        mem-of_select _ w.runs here,
        candidate-Owed w r (select_sound (is_candidate w) w.runs here),
        mine,
        timely,
      )

  -- A row that is owed a retry, is of the given job and ended by the given time is listed, or the
  -- list has as many rows as its limit and none of these ended after it, where a row with no end
  -- comes last.
  pub list_retry_candidates_complete :
      (job_id : Option ℕ) (cutoff : Option Datetime) (limit : ℕ) (r : ScrapeRun)
      → Mem r w.runs
      → Owed w r
      → OfJob job_id r.job_id
      → EndedBy cutoff r.finished_at
      → Mem r (list_retry_candidates job_id cutoff limit w)
        ∨₁ ((length (list_retry_candidates job_id cutoff limit w) ≡ limit)
            × ((q : ScrapeRun)
                → Mem q (list_retry_candidates job_id cutoff limit w)
                → NotAfter q.finished_at r.finished_at))
  unfolding list_retry_candidates
  list_retry_candidates_complete job_id cutoff limit r m owed mine timely =
      Or.elim ∥∥₁_prop
        (take-sorted finished_le limit (e.order_by ScrapeRun finished_le (in_time job_id cutoff)) r
          (laws.order_by_sorted ScrapeRun finished_le finished_le-IsOrder (in_time job_id cutoff))
          (mem-order_by laws finished_le (in_time job_id cutoff) (
            mem-ended cutoff _ r
              (mem-of_job job_id _ r
                (mem-select (is_candidate w) w.runs m (Owed-candidate w r owed)) mine)
              timely)))
        (λ listed. Or.inl listed)
        (λ out. Or.inr (
          out.0,
          λ q listed. finished_le-NotAfter q r q.finished_at r.finished_at (out.1 q listed),
        ))
