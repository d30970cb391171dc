-- ===== src/Syncing/CategoryOutcome.antt =====
-- How a sync of categories ends where the adapter answers.
use managment2_main.Base.{
  ℕ, ◌≤◌, ◌≡◌, refl, ◌∙◌, Option, none, some, List, Mem, tally, str_eq, false, String, arith,
}
use managment2_main.Models.{ScrapeRun, RunStatus, no_counts}
use managment2_main.Models.Catalogue.{Store}
use managment2_main.Engine.{Engine, EngineLaws}
use managment2_main.Session.{World, ok, pure, catch, ◌>>=◌}
use managment2_main.Session.Yields.{Yields, Yields-bind, Yields-at, Yields-catch}
use managment2_main.Runs.{get_run, start_run}
use managment2_main.Session.{run_row}
use managment2_main.Catalogue.{store_row}
use managment2_main.Catalogue.Linking.{or_empty}
use managment2_main.Syncing.Prices.{Importer}
use managment2_main.Syncing.Adapters.{
  get_categories, RawCategory, Adapter, resolve_adapter_for_store,
}
use managment2_main.Syncing.Closing.{close_run, fail_and_raise}
use managment2_main.Syncing.{or_nothing}
use managment2_main.Syncing.RunRow.{There, Others, close_run-Yields, start_run-Yields}
use managment2_main.Syncing.Balance.{Diagnosed-no_errors}
use managment2_main.Syncing.Categories.{
  none_loaded, category_args, CategoryReport, normalize, load_categories, load_run, load_known,
  sync_store_categories,
}
use managment2_main.Syncing.CategoryRun.{Named, rows_of, has_name, load_categories_lem}

-- A sync of the categories `raws` of a store from `w` on returned.
pub record Collected ⦃e : Engine⦄ (store : Store) (raws : List RawCategory) (w : World)
    (r : CategoryReport) (v : World) : Type 0 where
  pub there : get_run r.scrape_run.id v ≡ some r.scrape_run
  pub status : r.scrape_run.status ≡ some RunStatus.success
  pub counted : r.scrape_run.counters.categories_processed ≡ tally has_name raws
  pub new_run : get_run r.scrape_run.id w ≡ none
  pub others : Others r.scrape_run.id w v
  pub named : Named v
  pub all_there :
      (raw : RawCategory)
      → Mem raw raws
      → str_eq (or_empty (normalize raw).name) "" ≡ false
      → rows_of store.id (or_empty (normalize raw).name) v ≡ 1
  pub none_lost : (i : ℕ) (name : String) → rows_of i name w ≤ rows_of i name v

module _ ⦃e : Engine⦄ (laws : EngineLaws e) where
  load_run_lem :
      (store : Store) (adapter : Adapter) (raw : Option (List RawCategory)) (r : ScrapeRun)
      (w : World)
      → get_categories adapter ≡ ok raw
      → There r w
      → r.counters ≡ no_counts
      → Named w
      → Yields
          (λ out v.
            (get_run out.1.id v ≡ some out.1)
            × (out.1.status ≡ some RunStatus.success)
            × (out.1.counters.categories_processed ≡ tally has_name (or_nothing raw))
            × (out.1.id ≡ r.id)
            × Others r.id w v
            × Named v
            × ((item : RawCategory)
                → Mem item (or_nothing raw)
                → str_eq (or_empty (normalize item).name) "" ≡ false
                → rows_of store.id (or_empty (normalize item).name) v ≡ 1)
            × ((i : ℕ) (name : String) → rows_of i name w ≤ rows_of i name v))
          (load_run store adapter r.id w)
  unfolding load_run get_run run_row ◌>>=◌
  load_run_lem store adapter raw r w answer there counts named = rw answer (
      Yields-bind (load_categories store adapter none_loaded (or_nothing raw)) _ w
        (load_categories_lem laws store adapter (or_nothing raw) none_loaded w Diagnosed-no_errors
          named)
        (λ p v k.
          Yields-bind (close_run r.id (category_args p) _) (λ done. pure (p, done)) v
            (close_run-Yields (category_args p) _ r v (rw k.wrote.same_runs there) counts)
            (λ done x q2.
              Yields-at (p, done) x
                (
                  q2.there,
                  q2.status,
                  rw q2.counters (omega (arith, k.counted)),
                  q2.same_id,
                  λ j apart. q2.others j apart ∙ rw k.wrote.same_runs refl,
                  rw q2.catalogue k.wrote.named,
                  λ item m given. rw q2.catalogue (
                      omega (
                        arith,
                        k.there item m given,
                        k.wrote.named.unique_key (store.id, or_empty (normalize item).name),
                      )),
                  λ i name. rw q2.catalogue (k.wrote.keeps i name),
                ))))

module _ ⦃e : Engine⦄ ⦃i : Importer⦄ (laws : EngineLaws e) where
  -- Where the store and an adapter for it are there, the adapter answers, and category ids and pairs
  -- of store and name are unique, the sync of categories returns: the new run has succeeded and
  -- counts the categories with a name that is not blank, each of these is in one row of the store
  -- under its stripped name, no category is lost, every other run is as it was, and category ids
  -- and pairs are still unique.
  pub sync_store_categories_complete :
      (adapters : List Adapter) (store_id : ℕ) (store : Store) (adapter : Adapter)
      (raw : Option (List RawCategory)) (w : World)
      → store_row store_id w ≡ some store
      → resolve_adapter_for_store adapters store ≡ some adapter
      → get_categories adapter ≡ ok raw
      → Named w
      → Yields (Collected store (or_nothing raw) w) (sync_store_categories adapters store_id w)
  unfolding sync_store_categories load_known
  sync_store_categories_complete adapters store_id store adapter raw w found chosen answer named =
      rw (found, chosen)
        (Yields-bind (start_run (some store.id) (some "categories") _) _ w
          (start_run-Yields laws _ _ _ w)
          (λ r v q.
            Yields-bind (catch (load_run store adapter r.id) (fail_and_raise r.id)) _ v
              (Yields-catch (load_run store adapter r.id) (fail_and_raise r.id) v
                (load_run_lem laws store adapter raw r v answer q.0 q.1 (rw (q.2) named)))
              (λ out x q2. Yields-at _ x (record {
                there = q2.0;
                status = q2.1;
                counted = q2.2;
                new_run = rw (q2.3) (q.4);
                others = λ j apart. q2.4 j (rw (q2.3) at apart) ∙ q.3 j (rw (q2.3) at apart);
                named = q2.5;
                all_there = q2.6;
                none_lost = λ i name. rw (q.2) at (q2.7 i name);
              }))))
