-- ===== src/Models.antt =====
-- pricewatch/db/models.py (the scheduler's tables), pricewatch/scrape/contracts.py and the values
-- that they hold: JSON objects, datetimes, error texts.
--
-- A datetime is a number of microseconds since `datetime.min`, with Python's distinction between
-- naive and aware (UTC) values. Columns that the ORM maintains by itself (`created_at`,
-- `updated_at`) and relationships are left out.
pub mod Catalogue
use managment2_main.Base.{
  ℕ, ◌+◌, ◌*◌, ℤ, String, Bool, true, false, Option, none, some, str_eq, List,
}

mutual
  pub data JsonValue : Type 0 where
    null : JsonValue
    boolean : Bool → JsonValue
    number : ℤ → JsonValue
    text : String → JsonValue
    array : JsonArray → JsonValue
    object : JsonObject → JsonValue

  pub data JsonArray : Type 0 where
    nil : JsonArray
    cons : JsonValue → JsonArray → JsonArray

  pub data JsonObject : Type 0 where
    end : JsonObject
    field : String → JsonValue → JsonObject → JsonObject

-- `dict(x) if x else None`: an empty dictionary is stored as NULL.
unfoldable pub non_empty : Option JsonObject → Option JsonObject
non_empty none = none
non_empty (some JsonObject.end) = none
non_empty (some (JsonObject.field k v o)) = some (JsonObject.field k v o)

pub data Datetime : Type 0 where
  naive : ℕ → Datetime
  aware : ℕ → Datetime

abbrev pub instant : Datetime → ℕ
instant (naive t) = t
instant (aware t) = t

-- `if dt.tzinfo is None: dt = dt.replace(tzinfo=timezone.utc)`
abbrev pub as_utc : Datetime → Datetime
as_utc dt = Datetime.aware (instant dt)

-- `timedelta(seconds=n)`
abbrev pub seconds : ℕ → ℕ
seconds n = n * 1000000

abbrev pub plus : Datetime → ℕ → Datetime
plus (naive t) d = naive (t + d)
plus (aware t) d = aware (t + d)

-- class RunStatus; `other` is any further text in the column.
pub data RunStatus : Type 0 where
  queued running success partial failed cancelled skipped finished : RunStatus
  other : String → RunStatus

-- Exceptions that the code raises or meets, by what they report.
pub data Error : Type 0 where
  run_not_found : ℕ → Error
  job_not_found : ℕ → Error
  schedule_not_found : ℕ → Error
  interval_not_positive : Error
  cron_expr_missing : Error
  invalid_timezone : String → Error
  bad_cron : String → Error
  unknown_schedule_type : String → Error
  naive_and_aware : Error
  empty_runner_type : String → Error
  unknown_runner_type : String → Error
  runner_raised : String → Error
  store_failed : Error
  invalid_gap_status : String → Error
  category_not_found : ℕ → Error
  multiple_rows : Error
  category_mapping_not_found : ℕ → Error
  product_mapping_not_found : ℕ → Error
  store_not_found : ℕ → Error
  product_not_found : ℕ → Error
  product_url_missing : Error
  not_a_reference_store : ℕ → Error
  is_a_reference_store : ℕ → Error
  same_store : Error
  category_not_mapped : ℕ → ℕ → Error
  no_category_mappings : ℕ → Error
  product_not_in_scope : ℕ → Option ℕ → List ℕ → Error
  no_category : ℕ → Error
  adapter_not_found : String → Error
  no_reference_store : Error
  no_product_scraping : Error
  scraping_failed : String → Error

-- An error text: a literal one, `str(exc)`, or "Runner raised unhandled exception: {exc}".
pub data Message : Type 0 where
  literal : String → Message
  of_error : Error → Message
  unhandled : Error → Message

pub record Counters : Type 0 where
  pub categories_processed : ℕ
  pub products_processed : ℕ
  pub products_created : ℕ
  pub products_updated : ℕ
  pub price_changes_detected : ℕ

abbrev pub no_counts : Counters
no_counts = record {
  categories_processed = 0;
  products_processed = 0;
  products_created = 0;
  products_updated = 0;
  price_changes_detected = 0;
}

pub record ScrapeRun : Type 0 where
  pub id : ℕ
  pub store_id : Option ℕ
  pub job_id : Option ℕ
  pub run_type : Option String
  pub trigger_type : Option String
  pub status : Option RunStatus
  pub attempt : ℕ
  pub queued_at : Option Datetime
  pub started_at : Option Datetime
  pub finished_at : Option Datetime
  pub worker_id : Option String
  pub counters : Counters
  pub error_message : Option Message
  pub metadata_json : Option JsonObject
  pub checkpoint_in_json : Option JsonObject
  pub checkpoint_out_json : Option JsonObject
  pub retryable : Bool
  pub retry_of_run_id : Option ℕ
  pub retry_processed : Bool
  pub retry_exhausted : Bool

pub record ScrapeJob : Type 0 where
  pub id : ℕ
  pub source_key : String
  pub runner_type : String
  pub params_json : Option JsonObject
  pub enabled : Bool
  pub priority : ℤ
  pub allow_overlap : Bool
  pub timeout_sec : Option ℕ
  pub max_retries : ℕ
  pub retry_backoff_sec : ℕ
  pub concurrency_key : Option String
  pub next_run_at : Option Datetime
  pub last_run_at : Option Datetime

pub record ScrapeSchedule : Type 0 where
  pub id : ℕ
  pub job_id : ℕ
  pub schedule_type : String
  pub cron_expr : Option String
  pub interval_sec : Option ℕ
  pub timezone : String
  pub jitter_sec : ℕ
  pub misfire_policy : String
  pub enabled : Bool

pub record GapItemStatus : Type 0 where
  pub id : ℕ
  pub reference_category_id : ℕ
  pub target_product_id : ℕ
  pub status : String
  pub updated_at : Datetime

-- `RunnerResult` of contracts.py. The defaults of its fields are in `runner_success`.
pub record RunnerResult : Type 0 where
  pub status : RunStatus
  pub error_message : Option Message
  pub checkpoint_out : Option JsonObject
  pub counts : Counters
  pub retryable : Bool

abbrev pub runner_success : RunnerResult
runner_success = record {
  status = success;
  error_message = none;
  checkpoint_out = none;
  counts = no_counts;
  retryable = false;
}

-- Tests on a status column.
abbrev pub is_queued : Option RunStatus → Bool
is_queued (some queued) = true
is_queued _ = false

abbrev pub is_running : Option RunStatus → Bool
is_running (some running) = true
is_running _ = false

abbrev pub is_failed : Option RunStatus → Bool
is_failed (some failed) = true
is_failed _ = false

-- `status IN ('queued', 'running')`
abbrev pub is_active : Option RunStatus → Bool
is_active (some queued) = true
is_active (some running) = true
is_active _ = false

-- `column == text` for a nullable text column.
abbrev pub is_text : Option String → String → Bool
is_text none t = false
is_text (some s) t = str_eq s t

abbrev pub same_status : RunStatus → RunStatus → Bool
same_status queued queued = true
same_status running running = true
same_status success success = true
same_status partial partial = true
same_status failed failed = true
same_status cancelled cancelled = true
same_status skipped skipped = true
same_status finished finished = true
same_status (other s) (other t) = str_eq s t
same_status _ _ = false

abbrev pub has_status : RunStatus → Option RunStatus → Bool
has_status s none = false
has_status s (some t) = same_status t s
