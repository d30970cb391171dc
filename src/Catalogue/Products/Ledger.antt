-- ===== src/Catalogue/Products/Ledger.antt =====
-- `upsert_product` and the price history: the last entry of a product is its price.
use managment2_main.Base.{
  find_sound, tally_fresh, ◌∙◌, ℕ, suc, ℤ, ◌≡◌, refl, String, true, false, Option, none, some, List,
  [], ◌∷◌, ◌++◌, find, update, arith, ◌==◌, ==_iff, ==_refl, Bool-cases, Option-cases, inl, inr,
  if◌then◌else◌, map, str_eq,
}
use managment2_main.Query.Keyed.{find_zero, find-id, Keyed, one_row-eq, find-append, find-update}
use managment2_main.Models.{Datetime}
use managment2_main.Models.Catalogue.{Product, ProductPriceHistory}
use managment2_main.Engine.{Engine, EngineLaws}
use managment2_main.Session.{World, utcnow}
use managment2_main.Catalogue.{change_product, add_product, add_price, normalize_product_name}
use managment2_main.Catalogue.Products.{
  has_url, get_product_by_url, price_changed, Scraped, with_scraped, new_product, is_given,
  add_price_history, record_price, write_product, upsert_product,
}

-- Ids and the pairs (store, URL) are unique.
abbrev pub Stored : List Product → Type 0
Stored = Keyed (λ p. p.id) has_url

-- The price of the last entry of a product, where it has one.
unfoldable pub latest : ℕ → List ProductPriceHistory → Option ℤ → Option ℤ
latest i [] price = price
latest i (h ∷ history) price = latest i history (if h.product_id == i then h.price else price)

abbrev price_or_none : Option Product → Option ℤ
price_or_none none = none
price_or_none (some p) = p.price

unfoldable pub price_at : ℕ → List Product → Option ℤ
price_at i products = price_or_none (find (λ p. p.id == i) products)

-- The last entry of every product is its price.
unfoldable pub Ledger : World → Type 0
Ledger w = (i : ℕ) → latest i w.catalogue.price_history none ≡ price_at i w.catalogue.products

latest-append :
    (i : ℕ) (history : List ProductPriceHistory) (h : ProductPriceHistory) (price : Option ℤ)
    → latest i (history ++ h ∷ []) price
      ≡ (if h.product_id == i then h.price else latest i history price)
unfolding latest
latest-append i [] h price = refl
latest-append i (g ∷ history) h price =
    latest-append i history h (if g.product_id == i then g.price else price)

price_changed_sound : (old new : Option ℤ) → price_changed old new ≡ false → new ≡ old
unfolding price_changed
price_changed_sound none none h = refl
price_changed_sound none (some n) h = absurd (cc)
price_changed_sound (some o) none h = absurd (cc)
price_changed_sound (some (ℤ.pos a)) (some (ℤ.pos b)) h = rw ((==_iff a b).0 (ground (arith))) refl
price_changed_sound (some (ℤ.pos a)) (some (ℤ.negsuc b)) h = absurd (cc)
price_changed_sound (some (ℤ.negsuc a)) (some (ℤ.pos b)) h = absurd (cc)
price_changed_sound (some (ℤ.negsuc a)) (some (ℤ.negsuc b)) h =
    rw ((==_iff a b).0 (ground (arith))) refl

is_given_sound : (price : Option ℤ) → is_given price ≡ false → price ≡ none
is_given_sound none h = refl
is_given_sound (some p) h = absurd (cc)

price_at-append :
    (i : ℕ) (products : List Product) (p : Product)
    → find (λ q. q.id == p.id) products ≡ none
    → price_at i (products ++ p ∷ []) ≡ (if p.id == i then p.price else price_at i products)
unfolding price_at
price_at-append i products p missing =
    rw (find-append (λ q. q.id == i) products p) (elim (Bool-cases (p.id == i)) [
      | inl same ↦
          let nothing : find (λ q. q.id == i) products ≡ none =
            rw (← (==_iff p.id i).0 same) missing in
          rw (nothing, same) refl
      | inr other ↦ elim (Option-cases (find (λ q. q.id == i) products)) [
        | inl nothing ↦ rw (nothing, other) refl
        | inr (q, there) ↦ rw (there, other) refl
      ]
    ])

price_at-update :
    (i : ℕ) (row : Product) (f : Product → Product) (price : Option ℤ) (products : List Product)
    → ((p : Product) → (f p).id ≡ p.id)
    → ((p : Product) → (f p).price ≡ price)
    → find (λ p. p.id == row.id) products ≡ some row
    → price_at i (update (λ p. p.id == row.id) f products)
      ≡ (if row.id == i then price else price_at i products)
unfolding price_at
price_at-update i row f price products ids prices there =
    rw (find-update (λ p. p.id == i) (λ p. p.id == row.id) f products (λ p _. rw (ids p) refl))
      (elim (Bool-cases (row.id == i)) [
        | inl same ↦
            let here : find (λ p. p.id == i) products ≡ some row =
              rw (← (==_iff row.id i).0 same) there in
            rw (here, same, ==_refl row.id) (prices row)
        | inr other ↦ elim (Option-cases (find (λ p. p.id == i) products)) [
          | inl nothing ↦ rw (nothing, other) refl
          | inr (r, found) ↦
              let apart : (r.id == row.id) ≡ false =
                ground (arith, find_sound (λ p. p.id == i) products found) in
              rw (found, other, apart) refl
        ]
      ])

module _ ⦃e : Engine⦄ where
  pub upsert_product-eq :
      (store : ℕ) (url : String) (s : Scraped) (w : World)
      → Stored w.catalogue.products
      → str_eq (e.strip url) "" ≡ false
      → upsert_product store url s w
        ≡ write_product store
            (e.strip url)
            s
            (Datetime.aware (e.clock w.clock_reads))
            (find (has_url (store, e.strip url)) w.catalogue.products)
            (record w { clock_reads = suc w.clock_reads })
  unfolding upsert_product get_product_by_url utcnow
  upsert_product-eq store url s w keyed given = rw given (
      rw
        (one_row-eq (λ w. w.catalogue.products) (has_url (store, e.strip url))
          (record w { clock_reads = suc w.clock_reads }) (keyed.unique_key (store, e.strip url)))
        refl)

  -- What is stored of a product, and its price.
  change_keeps :
      (i : ℕ) (row : Product) (s : Scraped) (names : String × String) (now : Datetime)
      (products : List Product)
      → find (λ p. p.id == row.id) products ≡ some row
      → price_at i (update (λ p. p.id == row.id) (with_scraped s names now) products)
        ≡ (if row.id == i then s.price else price_at i products)
  change_keeps i row s names now products there =
      price_at-update i row (with_scraped s names now) s.price products (λ p. refl) (λ p. refl)
        there

  change_unpriced :
      (i : ℕ) (row : Product) (s : Scraped) (names : String × String) (now : Datetime)
      (products : List Product)
      → find (λ p. p.id == row.id) products ≡ some row
      → s.price ≡ row.price
      → price_at i (update (λ p. p.id == row.id) (with_scraped s names now) products)
        ≡ price_at i products
  unfolding price_at
  change_unpriced i row s names now products there same =
      change_keeps i row s names now products there ∙ (elim (Bool-cases (row.id == i)) [
        | inl here ↦
            let found : find (λ p. p.id == i) products ≡ some row =
              rw (← (==_iff row.id i).0 here) there in
            rw (found, here) same
        | inr other ↦ rw other refl
      ])

  new_id :
      (laws : EngineLaws e) (products : List Product)
      → find (λ p. p.id == e.next_id (map (λ p. p.id) products)) products ≡ none
  new_id laws products = find_zero _ products (
      tally_fresh (λ p. p.id) (e.next_id (map (λ p. p.id) products)) products
        (laws.next_id_fresh (map (λ p. p.id) products)))

  row_of_id :
      (store : ℕ) (url : String) (row : Product) (products : List Product)
      → Stored products
      → find (has_url (store, url)) products ≡ some row
      → find (λ p. p.id == row.id) products ≡ some row
  row_of_id store url row products keyed found =
      find-id (λ p. p.id) has_url (store, url) row products (keyed.unique_id row.id) found

  abbrev pub inserted : ℕ → String → Scraped → Datetime → List Product → Product
  inserted store url s now products =
      new_product store url s (normalize_product_name s.name) now
        (e.next_id (map (λ p. p.id) products))

  append_unpriced :
      (i : ℕ) (products : List Product) (p : Product)
      → find (λ q. q.id == p.id) products ≡ none
      → p.price ≡ none
      → price_at i (products ++ p ∷ []) ≡ price_at i products
  unfolding price_at
  append_unpriced i products p missing unpriced =
      price_at-append i products p missing ∙ (elim (Bool-cases (p.id == i)) [
        | inl here ↦
            let nothing : find (λ q. q.id == i) products ≡ none =
              rw (← (==_iff p.id i).0 here) missing in
            rw (nothing, here) unpriced
        | inr other ↦ rw other refl
      ])

  write_product-Ledger :
      (laws : EngineLaws e) (store : ℕ) (url : String) (s : Scraped) (now : Datetime) (w : World)
      → Stored w.catalogue.products
      → Ledger w
      → Ledger
          (write_product store url s now (find (has_url (store, url)) w.catalogue.products) w).1
  unfolding Ledger write_product record_price add_price_history add_product add_price change_product
      utcnow
  write_product-Ledger laws store url s now w keyed ledger i =
      elim (Option-cases (find (has_url (store, url)) w.catalogue.products)) [
        | inl missing ↦ rw missing (elim (Bool-cases (is_given s.price)) [
          | inl price ↦ rw price (
              rw
                (
                  latest-append i w.catalogue.price_history,
                  price_at-append i w.catalogue.products
                      (inserted store url s now w.catalogue.products)
                      (new_id laws w.catalogue.products),
                  ledger i,
                )
                refl)
          | inr price ↦ rw price (
              rw
                (
                  append_unpriced i w.catalogue.products
                      (inserted store url s now w.catalogue.products)
                      (new_id laws w.catalogue.products) (is_given_sound s.price price),
                  ledger i,
                )
                refl)
        ])
        | inr (row, found) ↦ rw found (elim (Bool-cases (price_changed row.price s.price)) [
          | inl price ↦ rw price (
              rw
                (
                  latest-append i w.catalogue.price_history,
                  change_keeps i row s (normalize_product_name s.name) now w.catalogue.products
                      (row_of_id store url row w.catalogue.products keyed found),
                  ledger i,
                )
                refl)
          | inr price ↦ rw price (
              rw
                (
                  change_unpriced i row s (normalize_product_name s.name) now w.catalogue.products
                      (row_of_id store url row w.catalogue.products keyed found)
                      (price_changed_sound row.price s.price price),
                  ledger i,
                )
                refl)
        ])
      ]

  blank_url :
      (store : ℕ) (url : String) (s : Scraped) (w : World)
      → str_eq (e.strip url) "" ≡ true
      → Ledger w
      → Ledger (upsert_product store url s w).1
  unfolding upsert_product
  blank_url store url s w blank ledger = rw blank ledger

  later_clock : (w : World) → Ledger w → Ledger (record w { clock_reads = suc w.clock_reads })
  unfolding Ledger
  later_clock w l = l

  -- Where product ids and pairs of store and address are unique and the last entry of the price
  -- history of every product is its price, that is still so after a product is created or
  -- updated, and after a call that is refused.
  pub upsert_product-Ledger :
      (laws : EngineLaws e) (store : ℕ) (url : String) (s : Scraped) (w : World)
      → Stored w.catalogue.products
      → Ledger w
      → Ledger (upsert_product store url s w).1
  upsert_product-Ledger laws store url s w keyed ledger =
      elim (Bool-cases (str_eq (e.strip url) "")) [
        | inl blank ↦ blank_url store url s w blank ledger
        | inr given ↦ rw (upsert_product-eq store url s w keyed given) (
            write_product-Ledger laws store (e.strip url) s (Datetime.aware (e.clock w.clock_reads))
              (record w { clock_reads = suc w.clock_reads }) keyed (later_clock w ledger))
      ]
