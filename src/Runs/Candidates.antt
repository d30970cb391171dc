-- ===== src/Runs/Candidates.antt =====
-- `list_retry_candidates`: which runs are owed a retry.
use managment2_main.Base.{
  ℕ, ◌≤◌, ◌≡◌, true, false, Bool, Option, none, some, List, Mem, select, tally, arith, is_id,
  mem-of_select, select_sound, mem-of_take, tally-select-le, tally-take-le,
}
use managment2_main.Models.{Datetime, ScrapeRun, is_failed}
use managment2_main.Engine.{Engine, EngineLaws}
use managment2_main.Engine.Order.{mem-of_order_by, tally-order_by}
use managment2_main.Query.{filter_by}
use managment2_main.Session.{World}
use managment2_main.RunRows.{child_of, is_candidate, finished_by, finished_le}
use managment2_main.Runs.{list_retry_candidates}

-- The conditions of a retry candidate, one by one.
pub record IsCandidate (w : World) (r : ScrapeRun) : Type 0 where
  pub has_failed : is_failed r.status ≡ true
  pub is_retryable : r.retryable ≡ true
  pub not_processed : r.retry_processed ≡ false
  pub not_exhausted : r.retry_exhausted ≡ false
  pub no_child : tally (child_of r.id) w.runs ≡ 0

pub is_candidate→IsCandidate :
    (w : World) (r : ScrapeRun) → is_candidate w r ≡ true → IsCandidate w r
unfolding is_candidate
is_candidate→IsCandidate w r h = ground arith

pub IsCandidate→is_candidate :
    (w : World) (r : ScrapeRun) → IsCandidate w r → is_candidate w r ≡ true
unfolding is_candidate
IsCandidate→is_candidate w r c = ground arith

module _ {A : Type 0} {B : Type 0} (p : A → B → Bool) where
  mem-of_filter_by :
      (o : Option A) (rows : List B) {b : B} → Mem b (filter_by o p rows) → Mem b rows
  unfolding filter_by
  mem-of_filter_by none rows m = m
  mem-of_filter_by (some a) rows m = mem-of_select (p a) rows m

  tally-filter_by-le :
      (q : B → Bool) (o : Option A) (rows : List B) → tally q (filter_by o p rows) ≤ tally q rows
  unfolding filter_by
  tally-filter_by-le q none rows = omega arith
  tally-filter_by-le q (some a) rows = tally-select-le q (p a) rows

module _ ⦃e : Engine⦄ (laws : EngineLaws e) (w : World) where
  -- A listed run passes the test of the query.
  pub list_retry_candidates-is_candidate :
      (job_id : Option ℕ) (cutoff : Option Datetime) (limit : ℕ) (r : ScrapeRun)
      → Mem r (list_retry_candidates job_id cutoff limit w)
      → Mem r w.runs × (is_candidate w r ≡ true)
  unfolding list_retry_candidates
  list_retry_candidates-is_candidate job_id cutoff limit r m =
      let owed = select (is_candidate w) w.runs in
      let of_job = filter_by job_id (λ j q. is_id q.job_id j) owed in
      let in_time = filter_by cutoff finished_by of_job in
      let here : Mem r owed = mem-of_filter_by _ job_id owed (
        mem-of_filter_by _ cutoff of_job
          (mem-of_order_by laws finished_le in_time (mem-of_take limit _ m))) in
      (mem-of_select _ w.runs here, select_sound (is_candidate w) w.runs here)

  -- No run is listed more often than it stands in the table.
  pub tally-list_retry_candidates-le :
      (job_id : Option ℕ) (cutoff : Option Datetime) (limit : ℕ) (q : ScrapeRun → Bool)
      → tally q (list_retry_candidates job_id cutoff limit w) ≤ tally q w.runs
  unfolding list_retry_candidates
  tally-list_retry_candidates-le job_id cutoff limit q =
      let owed = select (is_candidate w) w.runs in
      let of_job = filter_by job_id (λ j r. is_id r.job_id j) owed in
      let in_time = filter_by cutoff finished_by of_job in
      omega (
        arith,
        tally-take-le q limit (e.order_by ScrapeRun finished_le in_time),
        tally-order_by laws finished_le in_time q,
        tally-filter_by-le finished_by q cutoff of_job,
        tally-filter_by-le (λ j r. is_id r.job_id j) q job_id owed,
        tally-select-le q (is_candidate w) w.runs,
      )
