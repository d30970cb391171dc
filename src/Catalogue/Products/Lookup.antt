-- ===== src/Catalogue/Products/Lookup.antt =====
-- `upsert_product` and the pairs (store, URL): they stay unique, and every pair reads what was last
-- written for it.
use managment2_main.Base.{
  ◌++◌, ◌∷◌, [], update, if◌then◌else◌, ℕ, suc, ◌≡◌, refl, String, Bool, true, false, ◌&&◌, Option,
  none, some, List, find, ==_iff, Option-cases, inl, inr, map, str_eq, eq_iff, and-true, find_sound,
  ◌==◌,
}
use managment2_main.Query.Keyed.{Keyed-update, Keyed-append, find-insert, find-change}
use managment2_main.Session.{ok, World, utcnow}
use managment2_main.Models.{Datetime}
use managment2_main.Models.Catalogue.{Product}
use managment2_main.Engine.{Engine, EngineLaws}
use managment2_main.Catalogue.{change_product, add_product, add_price, normalize_product_name}
use managment2_main.Catalogue.Products.{
  has_url, price_changed, Scraped, with_scraped, is_given, add_price_history, record_price,
  write_product, upsert_product,
}
use managment2_main.Catalogue.Products.Ledger.{Stored, upsert_product-eq, inserted}

same_key :
    (store store' : ℕ) (url url' : String)
    → ((store == store') && str_eq url url') ≡ true
    → ◌≡◌ {A = ℕ × String} (store', url') (store, url)
same_key store store' url url' h =
    let (es, eu) = and-true (store == store') (str_eq url url') h in
    rw ((==_iff store store').0 es, (eq_iff url url').0 eu) refl

row_key :
    (store store' : ℕ) (url url' : String) (p : Product)
    → has_url (store, url) p ≡ true
    → has_url (store', url') p ≡ ((store == store') && str_eq url url')
row_key store store' url url' p h =
    let (es, eu) = and-true (p.store_id == store) (str_eq p.product_url url) h in
    rw ((==_iff p.store_id store).0 es, (eq_iff p.product_url url).0 eu) refl

module _ ⦃e : Engine⦄ where
  -- The row that a call leaves for its pair.
  abbrev pub written : ℕ → String → Scraped → Datetime → List Product → Option Product → Product
  written store url s now products none = inserted store url s now products
  written store url s now products (some row) =
      with_scraped s (normalize_product_name s.name) now row

  record_price-products :
      (b : Bool) (i : ℕ) (url : String) (s : Scraped) (w : World)
      → (record_price b i url s w).1.catalogue.products ≡ w.catalogue.products
  unfolding record_price add_price_history add_price utcnow
  record_price-products false i url s w = refl
  record_price-products true i url s w = refl

  pub record_price-ok :
      (b : Bool) (i : ℕ) (url : String) (s : Scraped) (w : World)
      → (record_price b i url s w).0 ≡ ok tt
  unfolding record_price add_price_history add_price utcnow
  record_price-ok false i url s w = refl
  record_price-ok true i url s w = refl

  -- The products after a write.
  write_product-none :
      (store : ℕ) (url : String) (s : Scraped) (now : Datetime) (w : World)
      → (write_product store url s now none w).1.catalogue.products
        ≡ w.catalogue.products ++ inserted store url s now w.catalogue.products ∷ []
  unfolding write_product add_product
  write_product-none store url s now w =
      rw (record_price-ok (is_given s.price) _ url s _)
        (record_price-products (is_given s.price) _ url s _)

  write_product-some :
      (store : ℕ) (url : String) (s : Scraped) (now : Datetime) (row : Product) (w : World)
      → (write_product store url s now (some row) w).1.catalogue.products
        ≡ update
            (λ p. p.id == row.id)
            (with_scraped s (normalize_product_name s.name) now)
            w.catalogue.products
  unfolding write_product change_product
  write_product-some store url s now row w =
      rw (record_price-ok (price_changed row.price s.price) row.id row.product_url s _)
        (record_price-products (price_changed row.price s.price) row.id row.product_url s _)

  write_product-Stored :
      (laws : EngineLaws e) (store : ℕ) (url : String) (s : Scraped) (now : Datetime) (w : World)
      → Stored w.catalogue.products
      → Stored
          (write_product store url s now
            (find (has_url (store, url)) w.catalogue.products)
            w).1.catalogue.products
  write_product-Stored laws store url s now w keyed =
      elim (Option-cases (find (has_url (store, url)) w.catalogue.products)) [
        | inl missing ↦
            rw (missing, write_product-none store url s now w)
              (Keyed-append (λ p. p.id) has_url (store, url)
                (inserted store url s now w.catalogue.products) w.catalogue.products
                (laws.next_id_fresh (map (λ p. p.id) w.catalogue.products))
                (λ j h. rw (same_key store j.0 url j.1 h) refl) missing keyed)
        | inr (row, found) ↦
            rw (found, write_product-some store url s now row w)
              (Keyed-update (λ p. p.id) has_url row.id
                (with_scraped s (normalize_product_name s.name) now) w.catalogue.products
                (λ p. refl) (λ p k. refl) keyed)
      ]

  write_product-find :
      (store : ℕ) (url : String) (s : Scraped) (now : Datetime) (w : World)
      → Stored w.catalogue.products
      → (store' : ℕ) (url' : String)
      → find
          (has_url (store', url'))
          (write_product store url s now
            (find (has_url (store, url)) w.catalogue.products)
            w).1.catalogue.products
        ≡ (if (store == store') && str_eq url url'
            then some (
                written store url s now w.catalogue.products
                  (find (has_url (store, url)) w.catalogue.products))
            else find (has_url (store', url')) w.catalogue.products)
  write_product-find store url s now w keyed store' url' =
      elim (Option-cases (find (has_url (store, url)) w.catalogue.products)) [
        | inl missing ↦
            rw (missing, write_product-none store url s now w)
              (find-insert (λ p. p.id) has_url (store, url) (store', url')
                (inserted store url s now w.catalogue.products) w.catalogue.products missing
                (same_key store store' url url'))
        | inr (row, found) ↦
            let is_same : has_url (store', url') row ≡ ((store == store') && str_eq url url') =
              row_key store store' url url' row
                (find_sound (has_url (store, url)) w.catalogue.products found) in
            rw (found, write_product-some store url s now row w)
              (rw
                (find-change (λ p. p.id) has_url (store, url) (store', url')
                  (with_scraped s (normalize_product_name s.name) now) row w.catalogue.products
                  keyed found (λ h. same_key store store' url url' (rw (← is_same) h)) (λ p. refl))
                (rw is_same refl))
      ]

  -- A write keeps ids and pairs unique.
  pub upsert_product-Stored :
      (laws : EngineLaws e) (store : ℕ) (url : String) (s : Scraped) (w : World)
      → Stored w.catalogue.products
      → str_eq (e.strip url) "" ≡ false
      → Stored (upsert_product store url s w).1.catalogue.products
  upsert_product-Stored laws store url s w keyed given =
      rw (upsert_product-eq store url s w keyed given) (
        write_product-Stored laws store (e.strip url) s (Datetime.aware (e.clock w.clock_reads))
          (record w { clock_reads = suc w.clock_reads }) keyed)

  -- Where product ids and pairs of store and address are unique and the address is not blank, a
  -- lookup of the written pair finds the row as written, new or updated, and a lookup of any
  -- other pair finds what it found before.
  pub find-upsert_product :
      (store : ℕ) (url : String) (s : Scraped) (w : World)
      → Stored w.catalogue.products
      → str_eq (e.strip url) "" ≡ false
      → (store' : ℕ) (url' : String)
      → find (has_url (store', url')) (upsert_product store url s w).1.catalogue.products ≡ (
          if (store == store') && str_eq (e.strip url) url'
          then some (
              written store
                (e.strip url)
                s
                (Datetime.aware (e.clock w.clock_reads))
                w.catalogue.products
                (find (has_url (store, e.strip url)) w.catalogue.products))
          else find (has_url (store', url')) w.catalogue.products)
  find-upsert_product store url s w keyed given store' url' =
      rw (upsert_product-eq store url s w keyed given) (
        write_product-find store (e.strip url) s (Datetime.aware (e.clock w.clock_reads))
          (record w { clock_reads = suc w.clock_reads }) keyed store' url')
