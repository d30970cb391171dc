-- ===== src/Catalogue.antt =====
-- The catalogue: pricewatch/db/repositories/{store,category,product,mapping}_repository.py,
-- pricewatch/db/services/normalization.py and the services on them. Here: the rows of a table by id,
-- `session.add` with `flush`, and the normal forms of names.
pub mod Stores
pub mod Categories
pub mod Products
pub mod Mappings
pub mod Linking
use managment2_main.Base.{ℕ, String, Option, [], ◌∷◌, ◌++◌, map, find, update, ◌==◌}
use managment2_main.Models.Catalogue.{
  Store, Category, CategoryMapping, Product, ProductMapping, ProductPriceHistory,
}
use managment2_main.Engine.{Engine}
use managment2_main.Session.{World, ok, Action, change_catalogue}

-- `session.get(Model, id)`
unfoldable pub store_row : ℕ → World → Option Store
store_row i w = find (λ s. s.id == i) w.catalogue.stores

unfoldable pub category_row : ℕ → World → Option Category
category_row i w = find (λ c. c.id == i) w.catalogue.categories

unfoldable pub product_row : ℕ → World → Option Product
product_row i w = find (λ p. p.id == i) w.catalogue.products

-- Changes of the columns of one row.
unfoldable pub change_store : ℕ → (Store → Store) → Action (Unit {0})
unfolding change_catalogue
change_store i f = change_catalogue (λ c. record c { stores = update (λ s. s.id == i) f c.stores })

unfoldable pub change_category : ℕ → (Category → Category) → Action (Unit {0})
unfolding change_catalogue
change_category i f =
    change_catalogue (λ c. record c { categories = update (λ r. r.id == i) f c.categories })

unfoldable pub change_category_mapping : ℕ → (CategoryMapping → CategoryMapping) → Action (Unit {0})
unfolding change_catalogue
change_category_mapping i f =
    change_catalogue
      (λ c. record c { category_mappings = update (λ m. m.id == i) f c.category_mappings })

unfoldable pub change_product : ℕ → (Product → Product) → Action (Unit {0})
unfolding change_catalogue
change_product i f =
    change_catalogue (λ c. record c { products = update (λ p. p.id == i) f c.products })

unfoldable pub change_product_mapping : ℕ → (ProductMapping → ProductMapping) → Action (Unit {0})
unfolding change_catalogue
change_product_mapping i f =
    change_catalogue
      (λ c. record c { product_mappings = update (λ m. m.id == i) f c.product_mappings })

module _ ⦃e : Engine⦄ where
  -- `session.add(row); session.flush()`: the row is stored under a new id, which is the result.
  unfoldable pub add_store : (ℕ → Store) → Action Store
  add_store row w =
      let added = row (e.next_id (map (λ r. r.id) w.catalogue.stores)) in
      (
        ok added,
        record w { catalogue = record (w.catalogue) { stores = w.catalogue.stores ++ added ∷ [] } },
      )

  unfoldable pub add_category : (ℕ → Category) → Action Category
  add_category row w =
      let added = row (e.next_id (map (λ r. r.id) w.catalogue.categories)) in
      (
        ok added,
        record w {
          catalogue = record (w.catalogue) { categories = w.catalogue.categories ++ added ∷ [] };
        },
      )

  unfoldable pub add_category_mapping : (ℕ → CategoryMapping) → Action CategoryMapping
  add_category_mapping row w =
      let added = row (e.next_id (map (λ r. r.id) w.catalogue.category_mappings)) in
      (
        ok added,
        record w {
          catalogue = record (w.catalogue) {
            category_mappings = w.catalogue.category_mappings ++ added ∷ [];
          };
        },
      )

  unfoldable pub add_product : (ℕ → Product) → Action Product
  add_product row w =
      let added = row (e.next_id (map (λ r. r.id) w.catalogue.products)) in
      (
        ok added,
        record w {
          catalogue = record (w.catalogue) { products = w.catalogue.products ++ added ∷ [] };
        },
      )

  unfoldable pub add_product_mapping : (ℕ → ProductMapping) → Action ProductMapping
  add_product_mapping row w =
      let added = row (e.next_id (map (λ r. r.id) w.catalogue.product_mappings)) in
      (
        ok added,
        record w {
          catalogue = record (w.catalogue) {
            product_mappings = w.catalogue.product_mappings ++ added ∷ [];
          };
        },
      )

  unfoldable pub add_price : (ℕ → ProductPriceHistory) → Action ProductPriceHistory
  add_price row w =
      let added = row (e.next_id (map (λ r. r.id) w.catalogue.price_history)) in
      (
        ok added,
        record w {
          catalogue = record (w.catalogue) {
            price_history = w.catalogue.price_history ++ added ∷ [];
          };
        },
      )

  -- `normalize_title` of pricewatch/core/normalize.py
  unfoldable pub normalize_title : String → String
  normalize_title title =
      e.strip (
        e.re_sub "\\s+" " "
          (e.re_sub "[^a-z0-9\\s]" "" (e.re_sub "\\([^)]*\\)" "" (e.lower title))))

  unfoldable pub normalize_product_name : String → String × String
  normalize_product_name raw_name =
      let normalized = normalize_title raw_name in (normalized, e.sha256 normalized)

  unfoldable pub normalize_category_name : String → String
  normalize_category_name raw_name = normalize_title raw_name
