-- ===== src/Lib.antt =====
-- Managment2: price watching for online shops. Jobs are fired by a scheduler, runs of them are queued
-- in the database and executed by workers.
--
-- Parts and files (paths from the repository's root):
--   Models      pricewatch/db/models.py (Catalogue: stores, categories, products, mappings),
--               pricewatch/scrape/contracts.py (RunnerResult)
--   Engine      clock, random source, zoneinfo, croniter, row order and new ids, with their laws
--   Query       filters, pages and sort keys of the repositories' queries
--   Session     the state (tables and process globals) and actions on it, which may raise
--   RunRows     pricewatch/db/repositories/scrape_run_repository.py, what it does to one row
--   Runs        pricewatch/db/repositories/scrape_run_repository.py, its functions under their own names
--   Jobs        pricewatch/db/repositories/scrape_job_repository.py
--   Schedules   pricewatch/db/repositories/scrape_schedule_repository.py
--   Timing      pricewatch/scrape/schedule.py; resolve_tz is _resolve_tz
--   Scheduler   pricewatch/scrape/scheduler.py; run_tick, with process_due_jobs and process_retry_candidates for
--               its two phases, due_job and candidate for the bodies of their loops;
--               Firing and Retrying hold what the walks over these loops keep, Loop is run_loop
--   Worker      pricewatch/scrape/worker.py and registry.py; Loop is run_loop
--   Gap         pricewatch/db/repositories/gap_repository.py; View is build_gap_view of
--               pricewatch/services/gap_service.py
--   Catalogue   pricewatch/db/repositories/{store,category,product,mapping}_repository.py (Stores,
--               Categories, Products, Mappings), pricewatch/services/store_service.py (Stores),
--               mapping_service.py and category_matching_service.py beside it (Linking),
--               pricewatch/db/services/normalization.py
--   Matching    pricewatch/core/normalize.py: Patterns, Extract and Prepare are what _prep finds in a
--               title, Score is _pair_score, Pairing is heuristic_match
--   Comparison  pricewatch/services/comparison_service.py: compare_products is _compare_multi on
--               loaded products, classify its phase 3; Scope is compare and the manual picker
--   Syncing     pricewatch/services/product_sync_service.py: sync_category_products with its loop
--               (sync_items) and its end (settle); Prices is parse_price_value and its use, Adapters is
--               utils.py beside it, Skipped is validation_diagnostics.py, Categories is
--               category_sync_service.py; Closing is what both services write to their run
--   History     pricewatch/services/scrape_history_service.py; normalize_status is _normalize_status
--   Bootstrap   pricewatch/scrape/runtime_config.py and bootstrap.py beside it; read_bool is _read_bool
--   System      ticks and worker iterations in any order, as a step relation
--   Sample, Tests   a concrete engine and small states, and the theorems applied to them
--
-- The scheduler reads due jobs and retry candidates, enqueues runs and moves the jobs' next run. The
-- worker claims the oldest queued run, executes its runner and stores the outcome; a failure that the
-- runner calls retryable becomes a retry candidate of a later tick.
--
-- An action takes the state to a result or an exception and to the state as it then is, since a raise
-- inside a `try` block leaves the earlier writes of the session in place. Loops walk over the rows
-- that a query returned; the two run_loop functions are modelled with their limit set, and run
-- max 1 limit rounds, since the limit is tested after a round. A round is one transaction, rolled back
-- where the code rolls back. Datetimes are microseconds, naive or aware; integers of
-- columns and schedules that the program only uses as counts, seconds and limits are natural numbers,
-- so 0 stands for the refused values that are not positive.
--
-- A sync of products starts a run, asks the adapter of the store for the items of a category, skips those
-- without a name or an address, writes the others to the catalogue, and finishes the run with its counts,
-- or fails it and raises again; a sync of categories does the same for a store.
--
-- The comparison reads the catalogue: it takes the stored decisions of product mappings first, matches
-- the remaining products by their titles, and sorts the rows into matches, candidates, reference-only
-- and target-only products. A score is a difference of two natural numbers of millionths of a point;
-- prices are ten-thousandths, confidences millionths. The regular expressions are kept as texts for the
-- parameter that stands for the module re.
--
-- Not modelled: logging, flushes (a row object and its row are one), the failure of a database call,
-- the row lock of the PostgreSQL claim, created_at and updated_at of the scheduler's tables, the details
-- that explain a score. The comparison that the gap review shows is an argument there. What an
-- adapter scrapes is an argument. HTTP and the web routes are not modelled.
pub mod Base
pub mod Models
pub mod Engine
pub mod Query
pub mod Session
pub mod RunRows
pub mod Runs
pub mod Jobs
pub mod Schedules
pub mod Timing
pub mod Scheduler
pub mod Worker
pub mod System
pub mod Gap
pub mod Catalogue
pub mod Matching
pub mod Comparison
pub mod Syncing
pub mod History
pub mod Bootstrap
mod Sample
mod Tests
