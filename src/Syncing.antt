-- ===== src/Syncing.antt =====
-- pricewatch/services/product_sync_service.py, with validation_diagnostics.py and utils.py beside it
-- and `parse_price_value` of pricewatch/core/normalize.py: the products of one category are scraped
-- and stored under a run.
--
-- An adapter is known by what it answers. A scraped item is the fields that are read of it, which
-- are texts, and a price that is a number or a text; a float is a whole number of ten-thousandths.
-- The run's metadata is written where the code ends well; that its row shows the dictionary while it
-- is filled is left out.
pub mod Prices
pub mod Closing
pub mod Adapters
pub mod Skipped
pub mod Balance
pub mod Categories
pub mod CategoryRun
pub mod CategoryOutcome
pub mod Addresses
pub mod Writes
pub mod Complete
pub mod RunRow
pub mod Outcome
use managment2_main.Base.{
  ℕ, ◌+◌, suc, ℤ, pos, String, Bool, true, false, not, ◌&&◌, ◌||◌, Option, none, some, List, [],
  ◌∷◌, ◌++◌, find, str_eq, ltb, length, ◌==◌, if◌then◌else◌,
}
use managment2_main.Models.{
  Error, adapter_not_found, no_product_scraping, category_not_found, store_not_found, JsonValue,
  JsonArray, JsonObject, Message, RunStatus, ScrapeRun,
}
use managment2_main.Models.Catalogue.{Store, Category, Product}
use managment2_main.Engine.{Engine}
use managment2_main.Session.{
  World, Result, raised, Action, pure, raise, gets, lift, or_raise, catch, ◌>>=◌, ◌>>◌, change_run,
}
use managment2_main.RunRows.{CounterArgs}
use managment2_main.Runs.{start_run, finish_run, fail_run, update_counters}
use managment2_main.Catalogue.{category_row, store_row}
use managment2_main.Catalogue.Linking.{or_empty}
use managment2_main.Catalogue.Products.{Scraped, list_products_by_category, upsert_product}
use managment2_main.Matching.{Matcher}
use managment2_main.Syncing.Closing.{close_run, fail_and_raise}
use managment2_main.Syncing.Adapters.{
  RawProduct, Adapter, resolve_adapter_for_store, fetch_products,
}
use managment2_main.Syncing.Skipped.{
  Entry, Diagnostics, no_errors, record_validation_error, metadata_json, limit_field,
}
use managment2_main.Syncing.Prices.{RawPrice, Importer, or_given, explicit_price, with_raw_price}

-- The result of `_normalize_product_dto`.
pub record Normalized : Type 0 where
  pub name : Option String
  pub product_url : Option String
  pub price : Option ℤ
  pub currency : Option String
  pub price_raw : Option String
  pub source_url : Option String
  pub external_id : Option String
  pub description : Option String
  pub is_available : Option Bool
  pub raw_product_url : Option String

abbrev pub field_if : String → Option String → List (String × String)
field_if key none = []
field_if key (some value) = (key, value) ∷ []

-- The local counters of the loop, and the metadata.
pub record Progress : Type 0 where
  pub processed : ℕ
  pub created : ℕ
  pub updated : ℕ
  pub price_changes : ℕ
  pub skipped_missing_url : ℕ
  pub errors : Diagnostics

abbrev pub no_progress : Progress
no_progress = record {
  processed = 0;
  created = 0;
  updated = 0;
  price_changes = 0;
  skipped_missing_url = 0;
  errors = no_errors;
}

abbrev pub nameless : Adapter → Entry
nameless adapter = record {
  reason = "missing_product_name";
  message = "Product skipped because name is missing";
  fields = field_if "adapter_name" (some adapter.name);
}

abbrev pub addressless : Adapter → Normalized → Entry
addressless adapter n = record {
  reason = "missing_product_url";
  message = "Product skipped because product_url is missing";
  fields =
      field_if "product_name" n.name
      ++ (field_if "product_url" n.raw_product_url
          ++ (field_if "source_url" n.source_url ++ field_if "adapter_name" (some adapter.name)));
}

-- `if name is missing … continue`, and the same for the address.
abbrev pub without_name : Adapter → Progress → Progress
without_name adapter p = record p {
  processed = suc p.processed;
  errors = record_validation_error (nameless adapter) p.errors;
}

abbrev pub without_url : Adapter → Normalized → Progress → Progress
without_url adapter n p = record p {
  processed = suc p.processed;
  skipped_missing_url = suc p.skipped_missing_url;
  errors = record_validation_error (addressless adapter n) p.errors;
}

abbrev pub one_if : Bool → ℕ
one_if b = if b then 1 else 0

-- The counters after `upsert_product`.
unfoldable pub stored : Progress → Product × Bool × Bool → Progress
stored p (product, was_created, price_changed) = record p {
  processed = suc p.processed;
  created = p.created + one_if was_created;
  updated = p.updated + one_if (not was_created);
  price_changes = p.price_changes + one_if price_changed;
}

abbrev pub scraped_of : ℕ → ℕ → Normalized → Scraped
scraped_of category run n = record {
  name = or_empty n.name;
  price = n.price;
  currency = n.currency;
  category_id = some category;
  external_id = n.external_id;
  description = n.description;
  source_url = n.source_url;
  is_available = n.is_available;
  scrape_run_id = some run;
}

abbrev pub or_nothing {ℓ} : {A : Type ℓ} → Option (List A) → List A
or_nothing none = []
or_nothing (some xs) = xs

pub record SyncReport : Type 0 where
  pub category : Category
  pub store : Store
  pub scrape_run : ScrapeRun
  pub products : List Product
  pub summary : Progress

abbrev pub progress_args : Progress → CounterArgs
progress_args p = record {
  categories_processed = none;
  products_processed = some p.processed;
  products_created = some p.created;
  products_updated = some p.updated;
  price_changes_detected = some p.price_changes;
}

module _ ⦃e : Engine⦄ ⦃i : Importer⦄ where
  -- `urljoin`, or the trimmed text where it raises.
  abbrev joined : String → Option String → String
  joined trimmed none = trimmed
  joined trimmed (some u) = u

  is_absolute : String → Bool
  is_absolute lower = i.starts_with lower "http://" || i.starts_with lower "https://"

  unfoldable pub absolute_url : String → Option String → String
  unfolding is_absolute
  absolute_url trimmed none = trimmed
  absolute_url trimmed (some base) =
      if not (str_eq base "") && not (is_absolute (e.lower trimmed))
      then joined trimmed (i.urljoin base trimmed)
      else trimmed

  unfoldable pub normalize_product_url : Option String → Option String → Option String
  normalize_product_url none category_url = none
  normalize_product_url (some raw) category_url =
      if str_eq (e.strip raw) "" then none else some (absolute_url (e.strip raw) category_url)

module _ ⦃e : Engine⦄ ⦃m : Matcher⦄ ⦃i : Importer⦄ where
  unfoldable pub normalize_product_dto : RawProduct → Option String → Normalized
  normalize_product_dto item category_url =
      let (price, currency) = with_raw_price item.price_raw (explicit_price item.price) in
      record {
        name = item.name;
        product_url = normalize_product_url (or_given item.product_url item.url) category_url;
        price = price;
        currency = or_given item.currency currency;
        price_raw = item.price_raw;
        source_url =
            normalize_product_url (or_given (or_given item.source_url item.source) item.source_site)
              category_url;
        external_id = item.external_id;
        description = item.description;
        is_available = item.is_available;
        raw_product_url = or_given item.product_url item.url;
      }

  -- The body of the loop for a normalized item; `store.id` is `category.store_id`.
  unfoldable pub sync_normalized : Category → Adapter → ℕ → Progress → Normalized → Action Progress
  unfolding ◌>>=◌
  sync_normalized c adapter run p n =
      if str_eq (or_empty n.name) ""
      then pure (without_name adapter p)
      else if str_eq (or_empty n.product_url) ""
      then pure (without_url adapter n p)
      else (do
        result ← upsert_product c.store_id (or_empty n.product_url) (scraped_of c.id run n)
        pure (stored p result))

  unfoldable pub sync_items : Category → Adapter → ℕ → Progress → List RawProduct → Action Progress
  unfolding ◌>>=◌
  sync_items c adapter run p [] = pure p
  sync_items c adapter run p (item ∷ items) = do
    next ← sync_normalized c adapter run p (normalize_product_dto item c.url)
    sync_items c adapter run next items

  -- What is written after the loop.
  unfoldable pub settle : Category → ℕ → Progress → Action (Progress × ScrapeRun)
  unfolding ◌>>=◌
  settle c run p = do
    done ←
        close_run run (progress_args p)
          (metadata_json c.id p.skipped_missing_url p.errors limit_field)
    pure (p, done)

  -- The body of the `try` block.
  unfoldable pub sync_run : Category → Adapter → ℕ → Action (Progress × ScrapeRun)
  unfolding ◌>>=◌
  sync_run c adapter run = do
    raw ← lift (fetch_products adapter c)
    p ← sync_items c adapter run no_progress (or_nothing raw)
    settle c run p

  unfoldable pub start_sync : Category → Action ScrapeRun
  start_sync c =
      start_run (some c.store_id) (some "category_products")
        (some (metadata_json c.id 0 no_errors JsonObject.end))

  unfoldable pub sync_known : Category → Store → Adapter → Action SyncReport
  unfolding ◌>>=◌ catch
  sync_known c store adapter = do
    run ← start_sync c
    result ← catch (sync_run c adapter run.id) (fail_and_raise run.id)
    products ← gets (list_products_by_category c.id)
    pure (record {
      category = c;
      store = store;
      scrape_run = result.1;
      products = products;
      summary = result.0;
    })

  -- `category.store` is the row that the foreign key names.
  unfoldable pub sync_category_products : List Adapter → ℕ → Action SyncReport
  unfolding ◌>>=◌
  sync_category_products adapters category_id = do
    found ← gets (category_row category_id)
    c ← or_raise (category_not_found category_id) found
    owner ← gets (store_row c.store_id)
    store ← or_raise (store_not_found c.store_id) owner
    adapter ← or_raise (adapter_not_found store.name) (resolve_adapter_for_store adapters store)
    sync_known c store adapter

  unfoldable pub get_products_for_category : ℕ → World → List Product
  get_products_for_category category w = list_products_by_category category w
