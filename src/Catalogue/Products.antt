-- ===== src/Catalogue/Products.antt =====
-- pricewatch/db/repositories/product_repository.py
--
-- The parameter `with_status` only chooses which parts of the result are returned; here all three are.
pub mod Ledger
pub mod Lookup
use Prim.Native.String.{◌++◌ as str_append}
use managment2_main.Base.{
  leb, ℕ, ℤ, pos, negsuc, String, Bool, true, false, not, ◌&&◌, ◌||◌, Option, none, some, List, [],
  ◌∷◌, select, take, map, str_eq, ◌==◌, is_id, if◌then◌else◌,
}
use managment2_main.Models.{Datetime, product_url_missing, is_text}
use managment2_main.Models.Catalogue.{Product, ProductPriceHistory, ProductMapping}
use managment2_main.Engine.{Engine}
use managment2_main.Session.{World, Action, pure, raise, ◌>>=◌, ◌>>◌, utcnow}
use managment2_main.Query.{one_row}
use managment2_main.Gap.{is_listed}
use managment2_main.Catalogue.{change_product, add_product, add_price, normalize_product_name}

abbrev pub has_url : ℕ × String → Product → Bool
has_url (store, url) p = (p.store_id == store) && str_eq p.product_url url

unfoldable pub get_product_by_url : ℕ → String → Action (Option Product)
get_product_by_url store url = one_row (λ w. w.catalogue.products) (has_url (store, url))

abbrev same_price : ℤ → ℤ → Bool
same_price (pos a) (pos b) = a == b
same_price (pos a) (negsuc b) = false
same_price (negsuc a) (pos b) = false
same_price (negsuc a) (negsuc b) = a == b

-- `_price_changed`
unfoldable pub price_changed : Option ℤ → Option ℤ → Bool
price_changed none none = false
price_changed none (some new) = true
price_changed (some old) none = true
price_changed (some old) (some new) = not (same_price old new)

-- The arguments of `upsert_product` besides the key.
pub record Scraped : Type 0 where
  pub name : String
  pub price : Option ℤ
  pub currency : Option String
  pub category_id : Option ℕ
  pub external_id : Option String
  pub description : Option String
  pub source_url : Option String
  pub is_available : Option Bool
  pub scrape_run_id : Option ℕ

abbrev pub or_flag : Option Bool → Bool → Bool
or_flag none b = b
or_flag (some a) b = a

abbrev pub with_scraped : Scraped → String × String → Datetime → Product → Product
with_scraped s (normalized, hash) now p = record p {
  name = s.name;
  normalized_name = some normalized;
  name_hash = some hash;
  price = s.price;
  currency = s.currency;
  category_id = s.category_id;
  external_id = s.external_id;
  description = s.description;
  source_url = s.source_url;
  is_available = or_flag s.is_available p.is_available;
  scrape_run_id = s.scrape_run_id;
  scraped_at = some now;
  updated_at = now;
}

abbrev pub new_product : ℕ → String → Scraped → String × String → Datetime → ℕ → Product
new_product store url s (normalized, hash) now i = record {
  id = i;
  store_id = store;
  category_id = s.category_id;
  scrape_run_id = s.scrape_run_id;
  external_id = s.external_id;
  name = s.name;
  normalized_name = some normalized;
  name_hash = some hash;
  price = s.price;
  currency = s.currency;
  description = s.description;
  product_url = url;
  source_url = s.source_url;
  is_available = or_flag s.is_available true;
  scraped_at = some now;
  updated_at = now;
}

-- `source_url or product.product_url`
abbrev pub or_text : Option String → String → String
or_text none t = t
or_text (some s) t = if str_eq s "" then t else s

abbrev pub is_given {ℓ} : {A : Type ℓ} → Option A → Bool
is_given none = false
is_given (some a) = true

abbrev pub new_price :
    ℕ → Option ℤ → Option String → Option String → Option ℕ → Datetime → ℕ → ProductPriceHistory
new_price product price currency source_url run now i = record {
  id = i;
  product_id = product;
  price = price;
  currency = currency;
  source_url = source_url;
  scrape_run_id = run;
  captured_at = now;
}

unfoldable pub find_products_by_name_hash : String → World → List Product
find_products_by_name_hash hash w = select (λ p. is_text p.name_hash hash) w.catalogue.products

-- `id IN (SELECT target_product_id ...)`
unfoldable pub confirmed_targets : World → List ℕ
confirmed_targets w =
    map (λ m. m.target_product_id)
      (select (λ m. is_text m.match_status "confirmed") w.catalogue.product_mappings)

unfoldable pub rejected_targets : ℕ → World → List ℕ
rejected_targets reference w =
    map (λ m. m.target_product_id)
      (select
        (λ (m : ProductMapping).
          (m.reference_product_id == reference) && is_text m.match_status "rejected")
        w.catalogue.product_mappings)

abbrev pub in_categories : List ℕ → Product → Bool
in_categories ids p = elim p.category_id [ none ↦ false | some c ↦ is_listed c ids ]

module _ ⦃e : Engine⦄ where
  abbrev pub by_id : Product → Product → Bool
  by_id a b = leb a.id b.id

  unfoldable pub list_products_by_store : ℕ → World → List Product
  list_products_by_store store w =
      e.order_by Product by_id (select (λ p. p.store_id == store) w.catalogue.products)

  unfoldable pub list_products_by_category : ℕ → World → List Product
  list_products_by_category category w =
      e.order_by Product by_id (select (λ p. is_id p.category_id category) w.catalogue.products)

  -- `if search: q.filter(Product.name.ilike(f"%{search}%"))`
  unfoldable pub is_searched : Option String → Product → Bool
  is_searched none p = true
  is_searched (some s) p = str_eq s "" || e.ilike p.name (str_append "%" (str_append s "%"))

  -- The test of a row: the four filters together.
  unfoldable pub is_eligible : List ℕ → ℕ → Option String → Bool → World → Product → Bool
  is_eligible ids reference needle include_rejected w p =
      in_categories ids p
      && not (is_listed p.id (confirmed_targets w))
      && is_searched needle p
      && (include_rejected || not (is_listed p.id (rejected_targets reference w)))

  unfoldable pub search_products_by_categories :
      List ℕ → ℕ → Option String → ℕ → Bool → World → List Product
  search_products_by_categories [] reference needle limit include_rejected w = []
  search_products_by_categories (c ∷ ids) reference needle limit include_rejected w = take limit (
      e.order_by Product by_id
        (select (is_eligible (c ∷ ids) reference needle include_rejected w) w.catalogue.products))

  unfoldable pub add_price_history :
      ℕ → Option ℤ → Option String → Option String → Option ℕ → Action ProductPriceHistory
  unfolding ◌>>=◌
  add_price_history product price currency source_url run = do
    now ← utcnow
    add_price (new_price product price currency source_url run now)

  -- `if changed: add_price_history(...)` for a product and what was scraped of it.
  unfoldable pub record_price : Bool → ℕ → String → Scraped → Action (Unit {0})
  unfolding ◌>>=◌
  record_price false product url s = pure tt
  record_price true product url s = do
    entry ←
        add_price_history product s.price s.currency (some (or_text s.source_url url))
          s.scrape_run_id
    pure tt

  unfoldable pub write_product :
      ℕ → String → Scraped → Datetime → Option Product → Action (Product × Bool × Bool)
  unfolding ◌>>=◌
  write_product store url s now none = do
    product ← add_product (new_product store url s (normalize_product_name s.name) now)
    record_price (is_given s.price) product.id url s
    pure (product, true, is_given s.price)
  write_product store url s now (some product) = do
    change_product product.id (with_scraped s (normalize_product_name s.name) now)
    record_price (price_changed product.price s.price) product.id product.product_url s
    pure (
      with_scraped s (normalize_product_name s.name) now product,
      false,
      price_changed product.price s.price,
    )

  unfoldable pub upsert_product : ℕ → String → Scraped → Action (Product × Bool × Bool)
  unfolding ◌>>=◌
  upsert_product store raw_url s =
      if str_eq (e.strip raw_url) "" then raise product_url_missing else (do
        now ← utcnow
        product ← get_product_by_url store (e.strip raw_url)
        write_product store (e.strip raw_url) s now product)
