-- ===== src/Syncing/Categories.antt =====
-- pricewatch/services/category_sync_service.py: the categories of a store are scraped and stored under a
-- run. The number of the store is left out of the kept entries. `normalize` is the validation of pricewatch/schemas/sync/category.py for fields that are texts.
use managment2_main.Base.{
  ℕ, suc, pos, String, Option, none, some, List, [], ◌∷◌, ◌++◌, str_eq, if◌then◌else◌,
}
use managment2_main.Models.{
  adapter_not_found, store_not_found, no_reference_store, JsonValue, JsonObject, ScrapeRun,
}
use managment2_main.Models.Catalogue.{Store, Category}
use managment2_main.Engine.{Engine}
use managment2_main.Session.{Action, pure, gets, lift, or_raise, catch, ◌>>=◌}
use managment2_main.RunRows.{CounterArgs}
use managment2_main.Runs.{start_run}
use managment2_main.Catalogue.{store_row}
use managment2_main.Catalogue.Linking.{or_empty}
use managment2_main.Catalogue.Categories.{upsert_category, list_categories_by_store}
use managment2_main.Catalogue.Stores.{get_reference_store}
use managment2_main.Syncing.Prices.{Importer}
use managment2_main.Syncing.Adapters.{
  get_categories, RawCategory, Adapter, resolve_adapter_for_store,
}
use managment2_main.Syncing.Skipped.{
  Entry, Diagnostics, no_errors, record_validation_error, counts_json, sample_json, limit_field,
}
use managment2_main.Syncing.Closing.{close_run, fail_and_raise}
use managment2_main.Syncing.{field_if, or_nothing}

-- The counter of the loop, and the metadata.
pub record Loaded : Type 0 where
  pub count : ℕ
  pub errors : Diagnostics

abbrev pub none_loaded : Loaded
none_loaded = record { count = 0; errors = no_errors }

abbrev pub unnamed : Adapter → Store → RawCategory → Entry
unnamed adapter store dto = record {
  reason = "missing_category_name";
  message = "Category skipped because name is missing";
  fields =
      field_if "category_url" dto.url
      ++ (field_if "adapter_name" (some adapter.name)
          ++ (if str_eq store.name "" then [] else field_if "store_name" (some store.name)));
}

abbrev pub skip_category : Entry → Loaded → Loaded
skip_category entry p = record p { errors = record_validation_error entry p.errors }

abbrev pub count_category : Loaded → Loaded
count_category p = record p { count = suc p.count }

-- The keys of the metadata that this service writes.
unfoldable pub category_metadata : ℕ → Diagnostics → JsonObject → JsonObject
category_metadata store d rest = JsonObject.field "store_id" (JsonValue.number (pos store)) (
    JsonObject.field "skipped_invalid_categories" (JsonValue.number (pos d.skipped)) (
      JsonObject.field "validation_error_counts" (JsonValue.object (counts_json d.counts)) (
        JsonObject.field "validation_errors_sample" (JsonValue.array (sample_json d.sample)) rest)))

abbrev pub category_args : Loaded → CounterArgs
category_args p = record {
  categories_processed = some p.count;
  products_processed = none;
  products_created = none;
  products_updated = none;
  price_changes_detected = none;
}

pub record CategoryReport : Type 0 where
  pub store : Store
  pub scrape_run : ScrapeRun
  pub categories : List Category

module _ ⦃e : Engine⦄ where
  -- `stripped if stripped else None`
  abbrev pub stripped : Option String → Option String
  stripped none = none
  stripped (some t) = if str_eq (e.strip t) "" then none else some (e.strip t)

  unfoldable pub normalize : RawCategory → RawCategory
  normalize raw = record {
    name = stripped raw.name;
    url = stripped raw.url;
    external_id = stripped raw.external_id;
  }

  unfoldable pub load_category : Store → Adapter → Loaded → RawCategory → Action Loaded
  unfolding ◌>>=◌
  load_category store adapter p dto =
      if str_eq (or_empty dto.name) ""
      then pure (skip_category (unnamed adapter store dto) p)
      else (do
        row ← upsert_category store.id (or_empty dto.name) dto.external_id dto.url
        pure (count_category p))

  unfoldable pub load_categories : Store → Adapter → Loaded → List RawCategory → Action Loaded
  unfolding ◌>>=◌
  load_categories store adapter p [] = pure p
  load_categories store adapter p (raw ∷ raws) = do
    next ← load_category store adapter p (normalize raw)
    load_categories store adapter next raws

  -- The body of the `try` block.
  unfoldable pub load_run : Store → Adapter → ℕ → Action (Loaded × ScrapeRun)
  unfolding ◌>>=◌
  load_run store adapter run = do
    raw ← lift (get_categories adapter)
    p ← load_categories store adapter none_loaded (or_nothing raw)
    done ← close_run run (category_args p) (category_metadata store.id p.errors limit_field)
    pure (p, done)

  unfoldable pub load_known : Store → Adapter → Action CategoryReport
  unfolding ◌>>=◌ catch
  load_known store adapter = do
    run ←
        start_run (some store.id) (some "categories")
          (some (category_metadata store.id no_errors JsonObject.end))
    result ← catch (load_run store adapter run.id) (fail_and_raise run.id)
    categories ← gets (list_categories_by_store store.id)
    pure (record { store = store; scrape_run = result.1; categories = categories })

module _ ⦃e : Engine⦄ ⦃i : Importer⦄ where
  unfoldable pub sync_store_categories : List Adapter → ℕ → Action CategoryReport
  unfolding ◌>>=◌
  sync_store_categories adapters store_id = do
    found ← gets (store_row store_id)
    store ← or_raise (store_not_found store_id) found
    adapter ← or_raise (adapter_not_found store.name) (resolve_adapter_for_store adapters store)
    load_known store adapter

  unfoldable pub sync_reference_store_categories : List Adapter → Action CategoryReport
  unfolding ◌>>=◌
  sync_reference_store_categories adapters = do
    found ← gets get_reference_store
    store ← or_raise no_reference_store found
    sync_store_categories adapters store.id
