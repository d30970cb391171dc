-- ===== src/Tests/Syncs.antt =====
-- The syncs of products at the sample shop.
use managment2_main.Catalogue.Products.Ledger
use managment2_main.Sample.Shop.{
  main_stick, other_stick, main_sticks, other_shop, other_sticks, sample_matcher,
}
use managment2_main.Models.Catalogue.{Category}
use managment2_main.Session.{World}
use managment2_main.Base.{tally, arith, find, refl, some, [], ◌∷◌}
use managment2_main.Models.{scraping_failed, ScrapeRun}
use managment2_main.Session.Yields.{Yields}
use managment2_main.Sample.{sample_engine, sample_laws}
use managment2_main.Sample.Adapters.{
  sample_importer, importer_laws, four_items, three_categories, working, broken,
}
use managment2_main.Catalogue.{category_row, store_row}
use managment2_main.Tests.Catalogues.{two_products}
use managment2_main.Syncing.Adapters.{
  get_categories, fetch_with, fetch_products, resolve_adapter_for_store,
}
use managment2_main.Syncing.Categories.{sync_store_categories}
use managment2_main.Syncing.CategoryRun.{Named}
use managment2_main.Syncing.CategoryOutcome.{Collected, sync_store_categories_complete}
use managment2_main.Syncing.Complete.{entries_of}
use managment2_main.Syncing.{sync_category_products}
use managment2_main.Syncing.Outcome.{
  Finished, Ready, Aborted, sync_category_products_accounts, sync_category_products_raises,
}

-- The category has an address, and the second product of it is known.
abbrev web_category : Category
web_category = record other_sticks { url = some "http://shop.test/" }

abbrev web_shop : World
web_shop = record two_products {
  catalogue = record (two_products.catalogue) {
    categories = main_sticks ∷ web_category ∷ [];
    products = main_stick ∷ record other_stick { product_url = "http://shop.test/other/2" } ∷ [];
  };
}

web_products : Ledger.Stored web_shop.catalogue.products
unfolding tally
web_products = record { unique_id = λ i. ground arith; unique_key = λ k. ground arith }

ready_shop : Ready (working ∷ []) 20 web_shop
unfolding category_row store_row find resolve_adapter_for_store
ready_shop = record {
  category = web_category;
  store = other_shop;
  adapter = working;
  category_found = refl;
  store_found = refl;
  adapter_found = refl;
}

broken_shop : Ready (broken ∷ []) 20 two_products
unfolding category_row store_row find resolve_adapter_for_store
broken_shop = record {
  category = other_sticks;
  store = other_shop;
  adapter = broken;
  category_found = refl;
  store_found = refl;
  adapter_found = refl;
}

-- A new product, a known one, and two that are skipped.
sync_category_products_accounts_example :
    Yields
      (Finished 4 (entries_of working (some "http://shop.test/") four_items) web_shop)
      (sync_category_products (working ∷ []) 20 web_shop)
unfolding fetch_products fetch_with ready_shop sample_importer
sync_category_products_accounts_example =
    sync_category_products_accounts sample_laws importer_laws (working ∷ []) 20 web_shop ready_shop
      (some four_items) refl refl web_products

sync_category_products_raises_example :
    (run : ScrapeRun) × Aborted
      (scraping_failed "timeout")
      two_products
      run
      (sync_category_products (broken ∷ []) 20 two_products)
unfolding fetch_products fetch_with broken_shop
sync_category_products_raises_example =
    sync_category_products_raises sample_laws (broken ∷ []) 20 two_products broken_shop
      (scraping_failed "timeout") refl

shop_categories : Named two_products
unfolding tally
shop_categories = record { unique_id = λ i. ground arith; unique_key = λ k. ground arith }

-- A known category, a new one, and one without a name.
sync_store_categories_complete_example :
    Yields
      (Collected other_shop three_categories two_products)
      (sync_store_categories (working ∷ []) 2 two_products)
unfolding get_categories store_row find resolve_adapter_for_store
sync_store_categories_complete_example =
    sync_store_categories_complete sample_laws (working ∷ []) 2 other_shop working
      (some three_categories) two_products refl refl refl shop_categories
