-- ===== src/Syncing/Outcome.antt =====
-- How a sync ends: where the adapter answers, the run has succeeded with the counts of the items; where
-- it raises, the run fails and the exception is raised again.
use managment2_main.Base.{
  take, tally, ◌+◌, ℕ, ◌≡◌, refl, ◌∙◌, Option, none, some, List, length, arith,
}
use managment2_main.Syncing.Skipped.{Entry, metadata_json, no_errors}
use managment2_main.Syncing.Complete.{entries_of, lacks_url, sync_items_lem}
use managment2_main.Session.{pure, World, Result, ok, raised, catch, ◌>>=◌, run_row}
use managment2_main.Syncing.{
  progress_args, no_progress, SyncReport, or_nothing, sync_items, settle, sync_run, start_sync,
  sync_known, sync_category_products, Progress,
}
use managment2_main.Syncing.Addresses.{ImporterLaws, IsWebAddress}
use managment2_main.Models.{
  Datetime, Error, RunStatus, Message, ScrapeRun, no_counts, Counters, JsonObject,
}
use managment2_main.Models.Catalogue.{Catalogue, Category, Store}
use managment2_main.Engine.{Engine, EngineLaws}
use managment2_main.Session.Yields.{Yields, Yields-bind, Yields-at, Yields-catch}
use managment2_main.Catalogue.{category_row, store_row}
use managment2_main.Catalogue.Products.Ledger.{Stored}
use managment2_main.RunRows.{end_with}
use managment2_main.Runs.{get_run}
use managment2_main.Matching.{Matcher}
use managment2_main.Syncing.Prices.{Importer}
use managment2_main.Syncing.Adapters.{
  RawProduct, Adapter, fetch_products, resolve_adapter_for_store,
}
use managment2_main.Syncing.Balance.{Balanced, Balanced-no_progress}
use managment2_main.Syncing.RunRow.{
  There, Others, close_run-Yields, start_run-Yields, fail_run-Yields,
}
use managment2_main.Syncing.Closing.{close_run, fail_and_raise}

-- The counts of a sync, as they are stored.
abbrev pub counts_of : Progress → Counters
counts_of p = record {
  categories_processed = 0;
  products_processed = p.processed;
  products_created = p.created;
  products_updated = p.updated;
  price_changes_detected = p.price_changes;
}

-- What the end of a sync with the counts `p` leaves.
pub record Settled (p : Progress) (run : ScrapeRun) (w : World) : Type 0 where
  pub there : get_run run.id w ≡ some run
  pub status : run.status ≡ some RunStatus.success
  pub counters : run.counters ≡ counts_of p

-- The counters and the diagnostics of a sync that took the one catalogue to the other, and skipped
-- `entries` of its `n` items.
pub record Accounted (n : ℕ) (entries : List Entry) (p : Progress) (before after : Catalogue)
    : Type 0 where
  pub balanced : Balanced p
  pub all_processed : p.processed ≡ n
  pub skipped : p.errors.skipped ≡ length entries
  pub sample : p.errors.sample ≡ take 10 entries
  pub missing_url : p.skipped_missing_url ≡ tally lacks_url entries
  pub created : length after.products ≡ length before.products + p.created
  pub priced : length after.price_history ≡ length before.price_history + p.price_changes

-- A sync from `w` on returned.
pub record Finished (n : ℕ) (entries : List Entry) (w : World) (r : SyncReport) (v : World)
    : Type 0 where
  pub accounted : Accounted n entries r.summary w.catalogue v.catalogue
  pub settled : Settled r.summary r.scrape_run v
  pub new_run : get_run r.scrape_run.id w ≡ none
  pub others : Others r.scrape_run.id w v
  pub stored : Stored v.catalogue.products

-- What the two ways to end have in common: the category, its store and an adapter are there.
pub record Ready ⦃e : Engine⦄ ⦃i : Importer⦄ (adapters : List Adapter) (category_id : ℕ) (w : World)
    : Type 0 where
  pub category : Category
  pub store : Store
  pub adapter : Adapter
  pub category_found : category_row category_id w ≡ some category
  pub store_found : store_row category.store_id w ≡ some store
  pub adapter_found : resolve_adapter_for_store adapters store ≡ some adapter

module _ ⦃e : Engine⦄ ⦃m : Matcher⦄ ⦃i : Importer⦄ (laws : EngineLaws e)
    (importer : ImporterLaws e i) where
  sync_run_lem :
      (c : Category) (adapter : Adapter) (raw : Option (List RawProduct)) (r : ScrapeRun)
      (w : World)
      → fetch_products adapter c ≡ ok raw
      → IsWebAddress i c.url
      → There r w
      → r.counters ≡ no_counts
      → Stored w.catalogue.products
      → Yields
          (λ out v.
            Accounted
              (length (or_nothing raw))
              (entries_of adapter c.url (or_nothing raw))
              out.0
              w.catalogue
              v.catalogue
            × Settled out.0 out.1 v
            × Others r.id w v
            × (out.1.id ≡ r.id)
            × Stored v.catalogue.products)
          (sync_run c adapter r.id w)
  unfolding sync_run settle get_run run_row ◌>>=◌
  sync_run_lem c adapter raw r w answer web there counts keyed = rw answer (
      Yields-bind (sync_items c adapter r.id no_progress (or_nothing raw)) (λ p. settle c r.id p) w
        (sync_items_lem laws importer c adapter r.id (or_nothing raw) no_progress w web
          Balanced-no_progress keyed)
        (λ p v q.
          Yields-bind (close_run r.id (progress_args p) _) (λ done. pure (p, done)) v
            (close_run-Yields (progress_args p) _ r v (rw q.same_runs there) counts)
            (λ done x q2.
              Yields-at (p, done) x
                (
                  record {
                    balanced = q.balanced;
                    all_processed = omega (arith, q.all_processed);
                    skipped = omega (arith, q.skipped);
                    sample = q.sample;
                    missing_url = omega (arith, q.missing_url);
                    created = rw (q2.catalogue) (omega (arith, q.created));
                    priced = rw (q2.catalogue) (omega (arith, q.priced));
                  },
                  record { there = q2.there; status = q2.status; counters = q2.counters },
                  λ j apart. q2.others j apart ∙ rw q.same_runs refl,
                  q2.same_id,
                  rw (q2.catalogue) (q.stored),
                ))))

  -- Where the category, its store and an adapter are there, the address of the category is not
  -- given or begins with http:// or https://, the adapter answers, and product ids and pairs of
  -- store and address are unique, the sync of the category returns: every scraped item was counted
  -- once, as created, updated or skipped; as many products and prices were added as are counted as
  -- created and as price changes; the items without a name or an address are the skipped ones, each
  -- under one reason and the first ten in the sample in their order, and those without an address
  -- are counted too; the new run has succeeded with these counts, every other run is as it was, and
  -- product ids and pairs are still unique.
  pub sync_category_products_accounts :
      (adapters : List Adapter) (category_id : ℕ) (w : World) (ready : Ready adapters category_id w)
      (raw : Option (List RawProduct))
      → IsWebAddress i ready.category.url
      → fetch_products ready.adapter ready.category ≡ ok raw
      → Stored w.catalogue.products
      → Yields
          (Finished
            (length (or_nothing raw))
            (entries_of ready.adapter ready.category.url (or_nothing raw))
            w)
          (sync_category_products adapters category_id w)
  unfolding sync_category_products sync_known start_sync
  sync_category_products_accounts adapters category_id w ready raw web answer keyed =
      let c : Category = ready.category in
      rw (ready.category_found, ready.store_found, ready.adapter_found)
        (Yields-bind (start_sync c) _ w (start_run-Yields laws _ _ _ w) (λ r v q.
          Yields-bind (catch (sync_run c ready.adapter r.id) (fail_and_raise r.id)) _ v
            (Yields-catch (sync_run c ready.adapter r.id) (fail_and_raise r.id) v
              (sync_run_lem c ready.adapter raw r v answer web q.0 q.1 (rw (q.2) keyed)))
            (λ out x q2. Yields-at _ x (record {
              accounted = rw (q.2) at (q2.0);
              settled = q2.1;
              new_run = rw (q2.3) (q.4);
              others = λ j apart. q2.2 j (rw (q2.3) at apart) ∙ q.3 j (rw (q2.3) at apart);
              stored = q2.4;
            }))))

-- A sync from `w` on raised, with the run that it started.
pub record Aborted {ℓ} {A : Type ℓ} (err : Error) (w : World) (run : ScrapeRun)
    (out : Result A × World) : Type ℓ where
  pub raises : out.0 ≡ raised err
  pub there : get_run run.id out.1 ≡ some run
  pub status : run.status ≡ some RunStatus.failed
  pub error_message : run.error_message ≡ some (Message.of_error err)
  pub new_run : get_run run.id w ≡ none
  pub others : Others run.id w out.1
  pub catalogue : out.1.catalogue ≡ w.catalogue

module _ ⦃e : Engine⦄ ⦃m : Matcher⦄ ⦃i : Importer⦄ (laws : EngineLaws e) where
  -- Where the category, its store and an adapter are there and the adapter raises, the sync
  -- raises the same exception; its new run has failed with the text of the exception, and every
  -- other run and the catalogue are as they were.
  pub sync_category_products_raises :
      (adapters : List Adapter) (category_id : ℕ) (w : World) (ready : Ready adapters category_id w)
      (err : Error)
      → fetch_products ready.adapter ready.category ≡ raised err
      → (run : ScrapeRun) × Aborted err w run (sync_category_products adapters category_id w)
  unfolding sync_category_products sync_known start_sync sync_run fail_and_raise catch get_run
      run_row ◌>>=◌
  sync_category_products_raises adapters category_id w ready err answer =
      let y =
        start_run-Yields laws (some ready.category.store_id) (some "category_products")
          (some (metadata_json ready.category.id 0 no_errors JsonObject.end)) w in
      let r : ScrapeRun = y.value in
      let v : World = y.world in
      let q = y.holds in
      let z = fail_run-Yields (Message.of_error err) r v (q.0) in
      let q2 = z.holds in
      (
        end_with RunStatus.failed (some (Message.of_error err))
            (Datetime.aware (e.clock v.clock_reads)) r,
        rw
            (
              ready.category_found, ready.store_found, ready.adapter_found, y.returns, answer,
              z.returns,
            )
            (record {
              raises = refl;
              there = q2.1;
              status = refl;
              error_message = refl;
              new_run = q.4;
              others = λ j apart. q2.3 j apart ∙ q.3 j apart;
              catalogue = q2.2 ∙ q.2;
            }),
      )
