-- ===== src/Runs.antt =====
-- pricewatch/db/repositories/scrape_run_repository.py: the life of a ScrapeRun row.
pub mod Claim
pub mod Complete
pub mod Candidates
pub mod RetryOrder
pub mod Retries
pub mod Enqueue
use managment2_main.Base.{
  ℕ, String, Bool, false, Option, none, some, List, select, take, head?, leb, is_id,
}
use managment2_main.Models.{
  JsonObject, non_empty, Datetime, RunStatus, running, failed, run_not_found, Message, Counters,
  ScrapeRun, is_queued, is_text, has_status,
}
use managment2_main.Engine.{Engine}
use managment2_main.Query.{filter_by, page, then_by, is_lt_or_eq, desc}
use managment2_main.Session.{
  World, Action, pure, gets, or_raise, ◌>>=◌, ◌>>◌, run_row, change_run, utcnow, add_run,
}
use managment2_main.RunRows.{
  blank_run, end_with, claimed_by, complete_with, add_counts, CounterArgs, apply_counts,
  EnqueueArgs, queued_run, claim_le, is_candidate, finished_by, finished_le,
}

-- `session.get(ScrapeRun, run_id)`, and the `ValueError` where there is none.
unfoldable pub require_run : ℕ → Action ScrapeRun
unfolding run_row ◌>>=◌
require_run run_id = do found ← gets (run_row run_id); or_raise (run_not_found run_id) found

-- Assignments to the columns of `run`, flushed; the object as it then is.
unfoldable pub changed : (ScrapeRun → ScrapeRun) → ScrapeRun → Action ScrapeRun
unfolding change_run ◌>>=◌
changed f run = do change_run run.id f; pure (f run)

unfoldable pub get_run : ℕ → World → Option ScrapeRun
unfolding run_row
get_run run_id w = run_row run_id w

unfoldable pub increment_counters : ℕ → Counters → Action ScrapeRun
unfolding require_run changed
increment_counters run_id amounts = do
  run ← require_run run_id
  changed (λ r. record r { counters = add_counts r.counters amounts }) run

unfoldable pub update_counters : ℕ → CounterArgs → Bool → Action ScrapeRun
unfolding require_run changed
update_counters run_id args absolute = do
  run ← require_run run_id
  changed (λ r. record r { counters = apply_counts absolute r.counters args }) run

module _ ⦃e : Engine⦄ where
  unfoldable pub start_run : Option ℕ → Option String → Option JsonObject → Action ScrapeRun
  unfolding ◌>>=◌ utcnow add_run non_empty
  start_run store_id run_type metadata_json = do
    now ← utcnow
    add_run (λ i. record (blank_run i) {
      store_id = store_id;
      run_type = run_type;
      status = some running;
      started_at = some now;
      metadata_json = non_empty metadata_json;
    })

  unfoldable pub finish_run : ℕ → RunStatus → Option Message → Action ScrapeRun
  unfolding require_run changed utcnow
  finish_run run_id status error_message = do
    run ← require_run run_id
    now ← utcnow
    changed (end_with status error_message now) run

  unfoldable pub fail_run : ℕ → Message → Action ScrapeRun
  unfolding require_run changed utcnow
  fail_run run_id error_message = do
    run ← require_run run_id
    now ← utcnow
    changed (end_with failed (some error_message) now) run

  unfoldable pub enqueue_run : EnqueueArgs → Action ScrapeRun
  unfolding ◌>>=◌ utcnow add_run queued_run
  enqueue_run args = do now ← utcnow; flushed ← utcnow; add_run (queued_run args now flushed)

  -- The oldest queued run. Both backends run the same query; the row lock is the database's.
  unfoldable pub next_queued : World → Option ScrapeRun
  next_queued w = head? (e.order_by ScrapeRun claim_le (select (λ r. is_queued r.status) w.runs))

  unfoldable pub claim : String → Option ScrapeRun → Action (Option ScrapeRun)
  unfolding changed utcnow
  claim worker_id none = pure none
  claim worker_id (some run) = do
    now ← utcnow
    run ← changed (claimed_by worker_id now) run
    pure (some run)

  unfoldable pub claim_next_queued_run : String → Action (Option ScrapeRun)
  unfolding claim ◌>>=◌
  claim_next_queued_run worker_id = do run ← gets next_queued; claim worker_id run

  -- `if run.started_at is None: run.started_at = utcnow()`
  start_time : Option Datetime → Action Datetime
  unfolding utcnow ◌>>=◌
  start_time none = utcnow
  start_time (some t) = pure t

  unfoldable pub mark_run_running : ℕ → String → Action ScrapeRun
  unfolding require_run changed start_time
  mark_run_running run_id worker_id = do
    run ← require_run run_id
    since ← start_time run.started_at
    changed (claimed_by worker_id since) run

  unfoldable pub complete_run :
      ℕ → RunStatus → Option Message → Option JsonObject → Bool → Action ScrapeRun
  unfolding require_run changed utcnow
  complete_run run_id status error_message checkpoint_out retryable = do
    run ← require_run run_id
    now ← utcnow
    changed (complete_with status error_message checkpoint_out retryable now) run

  unfoldable pub list_retry_candidates : Option ℕ → Option Datetime → ℕ → World → List ScrapeRun
  unfolding ◌>>=◌
  list_retry_candidates job_id backoff_cutoff limit w = take limit (
      e.order_by ScrapeRun finished_le (
        filter_by backoff_cutoff finished_by
          (filter_by job_id (λ j r. is_id r.job_id j) (select (is_candidate w) w.runs))))

  -- `ORDER BY started_at DESC`, and `ORDER BY queued_at DESC NULLS LAST, id DESC`
  pub started_desc : ScrapeRun → ScrapeRun → Bool
  started_desc a b = is_lt_or_eq (desc e.desc_nulls_first a.started_at b.started_at)

  pub queued_desc : ScrapeRun → ScrapeRun → Bool
  queued_desc a b = then_by (desc false a.queued_at b.queued_at) (leb b.id a.id)

  unfoldable pub list_runs :
      Option ℕ
      → Option String
      → Option RunStatus
      → Option String
      → Option ℕ
      → Option ℕ
      → World
      → List ScrapeRun
  unfolding filter_by page started_desc
  list_runs store_id run_type status trigger_type limit offset w = page limit offset (
      e.order_by ScrapeRun started_desc (
        filter_by trigger_type (λ t r. is_text r.trigger_type t)
          (filter_by status (λ s r. has_status s r.status)
            (filter_by run_type (λ t r. is_text r.run_type t)
              (filter_by store_id (λ s r. is_id r.store_id s) w.runs)))))

  unfoldable pub list_runs_for_job :
      ℕ → Option RunStatus → Option ℕ → Option ℕ → World → List ScrapeRun
  unfolding filter_by page queued_desc
  list_runs_for_job job_id status limit offset w = page limit offset (
      e.order_by ScrapeRun queued_desc (
        filter_by status (λ s r. has_status s r.status)
          (select (λ r. is_id r.job_id job_id) w.runs)))
