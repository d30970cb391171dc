-- ===== src/RunRows.antt =====
-- Rows of `scrape_runs` as pricewatch/db/repositories/scrape_run_repository.py builds, changes, tests
-- and sorts them: the pure parts of its functions.
use managment2_main.Base.{
  ℕ, ◌+◌, String, Bool, true, false, not, ◌&&◌, Option, none, some, tally, ltb, leb, is_id,
}
use managment2_main.Models.{
  JsonObject, non_empty, Datetime, instant, RunStatus, queued, running, Message, Counters,
  no_counts, ScrapeRun, is_queued, is_running, is_failed, is_active,
}
use managment2_main.Query.{then_by, is_lt_or_eq, nulls_last}
use managment2_main.Session.{World}

-- The keyword arguments of `ScrapeRun(…)` that stay at the model's defaults.
abbrev pub blank_run : ℕ → ScrapeRun
blank_run i = record {
  id = i;
  store_id = none;
  job_id = none;
  run_type = none;
  trigger_type = none;
  status = none;
  attempt = 1;
  queued_at = none;
  started_at = none;
  finished_at = none;
  worker_id = none;
  counters = no_counts;
  error_message = none;
  metadata_json = none;
  checkpoint_in_json = none;
  checkpoint_out_json = none;
  retryable = false;
  retry_of_run_id = none;
  retry_processed = false;
  retry_exhausted = false;
}

-- An argument that is `None` leaves the column as it is.
abbrev pub given_or {ℓ} : {A : Type ℓ} → Option A → Option A → Option A
given_or none old = old
given_or (some a) old = some a

abbrev pub value_or {ℓ} : {A : Type ℓ} → Option A → A → A
value_or none old = old
value_or (some a) old = a

-- The column assignments of the functions below, as functions of the row.
abbrev pub end_with : RunStatus → Option Message → Datetime → ScrapeRun → ScrapeRun
end_with status error_message now r = record r {
  status = some status;
  error_message = given_or error_message r.error_message;
  finished_at = some now;
}

abbrev pub claimed_by : String → Datetime → ScrapeRun → ScrapeRun
claimed_by worker now r = record r {
  status = some running;
  worker_id = some worker;
  started_at = some now;
}

abbrev pub complete_with :
    RunStatus → Option Message → Option JsonObject → Bool → Datetime → ScrapeRun → ScrapeRun
complete_with status error_message checkpoint_out retryable now r = record r {
  status = some status;
  finished_at = some now;
  error_message = given_or error_message r.error_message;
  checkpoint_out_json = given_or checkpoint_out r.checkpoint_out_json;
  retryable = retryable && is_failed (some status);
}

abbrev pub add_counts : Counters → Counters → Counters
add_counts c d = record {
  categories_processed = c.categories_processed + d.categories_processed;
  products_processed = c.products_processed + d.products_processed;
  products_created = c.products_created + d.products_created;
  products_updated = c.products_updated + d.products_updated;
  price_changes_detected = c.price_changes_detected + d.price_changes_detected;
}

-- The five `int | None` arguments of `update_counters`.
pub record CounterArgs : Type 0 where
  pub categories_processed : Option ℕ
  pub products_processed : Option ℕ
  pub products_created : Option ℕ
  pub products_updated : Option ℕ
  pub price_changes_detected : Option ℕ

-- `_apply`
abbrev pub apply_count : Bool → ℕ → Option ℕ → ℕ
apply_count absolute current none = current
apply_count true current (some value) = value
apply_count false current (some value) = current + value

abbrev pub apply_counts : Bool → Counters → CounterArgs → Counters
apply_counts absolute c a = record {
  categories_processed = apply_count absolute c.categories_processed a.categories_processed;
  products_processed = apply_count absolute c.products_processed a.products_processed;
  products_created = apply_count absolute c.products_created a.products_created;
  products_updated = apply_count absolute c.products_updated a.products_updated;
  price_changes_detected = apply_count absolute c.price_changes_detected a.price_changes_detected;
}

-- The keyword arguments of `enqueue_run`.
pub record EnqueueArgs : Type 0 where
  pub job_id : Option ℕ
  pub store_id : Option ℕ
  pub run_type : Option String
  pub trigger_type : String
  pub attempt : ℕ
  pub metadata_json : Option JsonObject
  pub checkpoint_in_json : Option JsonObject

-- The inserted row. `started_at` has the column default `utcnow`, which the flush applies.
unfoldable pub queued_run : EnqueueArgs → Datetime → Datetime → ℕ → ScrapeRun
unfolding non_empty
queued_run args now flushed i = record (blank_run i) {
  job_id = args.job_id;
  store_id = args.store_id;
  run_type = args.run_type;
  trigger_type = some args.trigger_type;
  status = some queued;
  attempt = args.attempt;
  queued_at = some now;
  started_at = some flushed;
  metadata_json = non_empty args.metadata_json;
  checkpoint_in_json = non_empty args.checkpoint_in_json;
}

-- `status IN ('queued', 'running')` for the runs of one job.
unfoldable pub active_run_of : ℕ → ScrapeRun → Bool
active_run_of job_id r = is_id r.job_id job_id && is_active r.status

-- `ORDER BY queued_at ASC NULLS LAST, id ASC`
unfoldable pub claim_le : ScrapeRun → ScrapeRun → Bool
claim_le a b = then_by (nulls_last a.queued_at b.queued_at) (leb a.id b.id)

-- `id IN (SELECT retry_of_run_id … WHERE retry_of_run_id IS NOT NULL)`
unfoldable pub child_of : ℕ → ScrapeRun → Bool
child_of run_id r = is_id r.retry_of_run_id run_id

unfoldable pub is_candidate : World → ScrapeRun → Bool
unfolding child_of
is_candidate w r =
    is_failed r.status
    && r.retryable
    && not r.retry_processed
    && not r.retry_exhausted
    && not (ltb 0 (tally (child_of r.id) w.runs))

-- `finished_at <= backoff_cutoff`; a NULL does not compare.
abbrev pub finished_by : Datetime → ScrapeRun → Bool
finished_by cutoff r = elim r.finished_at [
  | none ↦ false
  | some t ↦ leb (instant t) (instant cutoff)
]

unfoldable pub finished_le : ScrapeRun → ScrapeRun → Bool
finished_le a b = is_lt_or_eq (nulls_last a.finished_at b.finished_at)

pub record QueueStats : Type 0 where
  pub queued : ℕ
  pub running : ℕ
  pub failed_retryable : ℕ

unfoldable pub get_queue_stats : World → QueueStats
get_queue_stats w = record {
  queued = tally (λ r. is_queued r.status) w.runs;
  running = tally (λ r. is_running r.status) w.runs;
  failed_retryable = tally (λ r. is_failed r.status && r.retryable && not r.retry_exhausted) w.runs;
}
