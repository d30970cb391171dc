-- ===== src/Tests/Catalogues.antt =====
-- The theorems on the catalogue at concrete tables.
use managment2_main.Sample.Shop.{
  main_stick, other_stick, main_shop, other_shop, shop_world, unlinked_world, scraped_stick,
}
use managment2_main.Base.{
  Bool-cases, inl, inr, ◌≡◌, refl, none, some, [], ◌∷◌, tally, arith, find, Mem, ◌==◌,
}
use managment2_main.Catalogue.Products.Ledger.{latest, price_at, Ledger, upsert_product-Ledger}
use managment2_main.Catalogue.Linking.{nothing_linked, auto_link}
use managment2_main.Catalogue.Linking.Step.{Grows, Has}
use managment2_main.Catalogue.Linking.Complete.{Stores, Alike, auto_link_complete}
use managment2_main.Catalogue.{store_row}
use managment2_main.Models.Catalogue.{Category}
use managment2_main.Session.{World}
use managment2_main.Session.Yields.{Yields}
use managment2_main.Sample.{sample_engine, sample_laws}
use managment2_main.Sample.World.{at}
use managment2_main.Catalogue.Products.{has_url, upsert_product}
use managment2_main.Catalogue.Products.Lookup.{find-upsert_product, written}
use managment2_main.Catalogue.Mappings.{Decision, create_product_mapping}
use managment2_main.Catalogue.Mappings.Decisions.{decided, decided-create_product_mapping}
use managment2_main.Catalogue.Products.Ledger
use managment2_main.Catalogue.Mappings.Decisions
use managment2_main.Catalogue.Linking.Step

mappings-Stored : Decisions.Stored shop_world.catalogue.product_mappings
unfolding tally
mappings-Stored = record { unique_id = λ i. ground arith; unique_key = λ k. ground arith }

abbrev confirmed : Decision
confirmed = record { match_status = some "confirmed"; confidence = none; comment = none }

-- The rejected pair is confirmed: the later decision is read.
decided-create_product_mapping_example :
    decided (create_product_mapping 1 3 confirmed shop_world).1 1 3 ≡ some confirmed
decided-create_product_mapping_example =
    decided-create_product_mapping 1 3 confirmed shop_world mappings-Stored 1 3

abbrev pub two_products : World
two_products = record shop_world {
  catalogue = record (shop_world.catalogue) { products = main_stick ∷ other_stick ∷ [] };
}

pub products-Stored : Ledger.Stored two_products.catalogue.products
unfolding tally
products-Stored = record { unique_id = λ i. ground arith; unique_key = λ k. ground arith }

products-Ledger : Ledger two_products
unfolding Ledger latest price_at find
products-Ledger i = elim (Bool-cases (1 == i)) [
  | inl one ↦ rw one refl
  | inr other ↦ elim (Bool-cases (2 == i)) [
    | inl two ↦ rw (other, two) refl
    | inr none_there ↦ rw (other, none_there) refl
  ]
]

-- The price of a known product is new.
upsert_product-Ledger_example : Ledger (upsert_product 2 "other/2" scraped_stick two_products).1
upsert_product-Ledger_example =
    upsert_product-Ledger sample_laws 2 "other/2" scraped_stick two_products products-Stored
      products-Ledger

find-upsert_product_example :
    find
      (has_url (2, "other/2"))
      (upsert_product 2 "other/2" scraped_stick two_products).1.catalogue.products
    ≡ some (
        written 2 "other/2" scraped_stick
          (at 1000)
          two_products.catalogue.products
          (find (has_url (2, "other/2")) two_products.catalogue.products))
unfolding sample_engine
find-upsert_product_example =
    find-upsert_product 2 "other/2" scraped_stick two_products products-Stored refl 2 "other/2"

links-Stored : Step.Stored unlinked_world.catalogue.category_mappings
unfolding tally
links-Stored = record { unique_id = λ i. ground arith; unique_key = λ k. ground arith }

shops_fit : Stores 1 2 unlinked_world
unfolding store_row find
shops_fit = record {
  reference_row = main_shop;
  target_row = other_shop;
  reference_found = refl;
  target_found = refl;
  is_reference = refl;
  is_target = refl;
}

auto_link_complete_example :
    Yields
      (λ r w'.
        Grows unlinked_world nothing_linked r w'
        × ((c t : Category)
            → Mem c unlinked_world.catalogue.categories
            → Mem t unlinked_world.catalogue.categories
            → c.store_id ≡ 1
            → t.store_id ≡ 2
            → Alike c t
            → Has w' c.id t.id))
      (auto_link 1 2 unlinked_world)
auto_link_complete_example =
    auto_link_complete sample_laws 1 2 unlinked_world links-Stored shops_fit
