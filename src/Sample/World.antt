-- ===== src/Sample/World.antt =====
-- Small concrete states: two jobs with their schedules, and runs in several stages of their life.
use managment2_main.Base.{ℕ, true, false, none, some, List, [], ◌∷◌, pos}
use managment2_main.Models.{
  Datetime, seconds, RunStatus, queued, running, success, failed, ScrapeRun, ScrapeJob,
  ScrapeSchedule, JsonObject, JsonValue,
}
use managment2_main.Models.Catalogue.{Catalogue}
use managment2_main.Session.{World, WorkerState}
use managment2_main.RunRows.{blank_run}
use managment2_main.Scheduler.{empty_tick}

abbrev pub at : ℕ → Datetime
at s = Datetime.aware (seconds s)

-- Job 1 forbids overlap and is due at 900 s; job 2 allows it, has two retries, and is not due.
abbrev pub strict_row : ScrapeJob
strict_row = record {
  id = 1;
  source_key = "shop";
  runner_type = "shop_scrape";
  params_json = none;
  enabled = true;
  priority = pos 0;
  allow_overlap = false;
  timeout_sec = none;
  max_retries = 0;
  retry_backoff_sec = 60;
  concurrency_key = none;
  next_run_at = some (at 900);
  last_run_at = none;
}

abbrev pub loose_row : ScrapeJob
loose_row = record {
  id = 2;
  source_key = "mall";
  runner_type = "mall_scrape";
  params_json = none;
  enabled = true;
  priority = pos 5;
  allow_overlap = true;
  timeout_sec = none;
  max_retries = 2;
  retry_backoff_sec = 30;
  concurrency_key = none;
  next_run_at = none;
  last_run_at = none;
}

abbrev pub hourly : ScrapeSchedule
hourly = record {
  id = 1;
  job_id = 1;
  schedule_type = "interval";
  cron_expr = none;
  interval_sec = some 3600;
  timezone = "UTC";
  jitter_sec = 30;
  misfire_policy = "skip";
  enabled = true;
}

abbrev pub run_of : ℕ → ℕ → RunStatus → ScrapeRun
run_of i job status = record (blank_run i) {
  job_id = some job;
  run_type = some "shop_scrape";
  status = some status;
  queued_at = some (at i);
  started_at = some (at i);
}

abbrev pub failed_row : ScrapeRun
failed_row = record (run_of 3 2 failed) {
  finished_at = some (at 500);
  retryable = true;
  checkpoint_out_json = some (JsonObject.field "page" JsonValue.null JsonObject.end);
}

abbrev pub idle_worker : WorkerState
idle_worker = record {
  running = false;
  started_at = none;
  last_poll_at = none;
  last_claimed_run_id = none;
  last_completed_run_id = none;
  last_error = none;
  polls_total = 0;
  runs_claimed_total = 0;
}

abbrev pub empty_catalogue : Catalogue
empty_catalogue = record {
  stores = [];
  categories = [];
  category_mappings = [];
  products = [];
  product_mappings = [];
  price_history = [];
}

abbrev pub world_of : List ScrapeRun → World
world_of runs = record {
  runs = runs;
  jobs = strict_row ∷ loose_row ∷ [];
  schedules = hourly ∷ [];
  gap_statuses = [];
  catalogue = empty_catalogue;
  tz_cache = [];
  clock_reads = 0;
  random_reads = 0;
  tick = empty_tick;
  worker = idle_worker;
}

-- Job 1 is free, job 2 has a failed run that may be retried.
abbrev pub due_world : World
due_world = world_of (run_of 1 1 success ∷ failed_row ∷ [])

-- Two runs wait, the older one stands second.
abbrev pub waiting_world : World
waiting_world = world_of (run_of 7 2 queued ∷ run_of 4 2 queued ∷ run_of 2 2 running ∷ [])
