-- ===== src/Syncing/Writes.antt =====
-- What `upsert_product` adds to the catalogue in a sync.
use managment2_main.Base.{
  update, ◌++◌, Bool, ℕ, ◌+◌, ◌≡◌, refl, String, true, false, Option, none, some, List, [], ◌∷◌,
  length, arith, str_eq,
}
use managment2_main.Syncing.{one_if}
use managment2_main.Models.{Datetime}
use managment2_main.Models.Catalogue.{Product}
use managment2_main.Engine.{Engine, EngineLaws}
use managment2_main.Session.{World, pure, ◌>>=◌, utcnow}
use managment2_main.Session.Yields.{Yields, Yields-bind, Yields-at}
use managment2_main.Catalogue.{add_product, add_price, change_product}
use managment2_main.Catalogue.Products.{
  Scraped, add_price_history, record_price, write_product, upsert_product,
}
use managment2_main.Catalogue.Products.Ledger.{Stored, upsert_product-eq}
use managment2_main.Catalogue.Products.Lookup.{upsert_product-Stored}

-- The runs are as they were, and rows were added to the catalogue as the result says.
abbrev pub Added : Bool → Bool → World → World → Type 0
Added was_created changed w v =
    (v.runs ≡ w.runs)
    × (length v.catalogue.products ≡ length w.catalogue.products + one_if was_created)
    × (length v.catalogue.price_history ≡ length w.catalogue.price_history + one_if changed)

pub length-snoc : {A : Type 0} (xs : List A) (x : A) → length (xs ++ x ∷ []) ≡ length xs + 1
length-snoc [] x = refl
length-snoc (y ∷ xs) x = omega (arith, length-snoc xs x)

length-update :
    {A : Type 0} (p : A → Bool) (f : A → A) (xs : List A) → length (update p f xs) ≡ length xs
unfolding update
length-update p f [] = refl
length-update p f (x ∷ xs) = ground (arith, length-update p f xs)

module _ ⦃e : Engine⦄ (laws : EngineLaws e) where
  record_price-Yields :
      (b : Bool) (product : ℕ) (url : String) (s : Scraped) (w : World)
      → Yields
          (λ _ v.
            (v.runs ≡ w.runs)
            × (length v.catalogue.products ≡ length w.catalogue.products)
            × (length v.catalogue.price_history ≡ length w.catalogue.price_history + one_if b))
          (record_price b product url s w)
  unfolding record_price add_price_history add_price utcnow ◌>>=◌
  record_price-Yields false product url s w = Yields-at tt w (refl, refl, omega arith)
  record_price-Yields true product url s w =
      Yields-at tt _ (refl, refl, length-snoc w.catalogue.price_history _)

  write_product-Yields :
      (store : ℕ) (url : String) (s : Scraped) (now : Datetime) (row : Option Product) (w : World)
      → Yields (λ r v. Added r.1 r.2 w v) (write_product store url s now row w)
  unfolding write_product add_product change_product ◌>>=◌
  write_product-Yields store url s now none w =
      Yields-bind (record_price _ _ url s) (λ _. pure _) _ (record_price-Yields _ _ url s _)
        (λ _ v q. Yields-at _ v (q.0, rw (q.1) (length-snoc w.catalogue.products _), q.2))
  write_product-Yields store url s now (some row) w =
      Yields-bind (record_price _ _ row.product_url s) (λ _. pure _) _
        (record_price-Yields _ _ row.product_url s _)
        (λ _ v q.
          Yields-at _ v
            (q.0, rw (q.1) (rw (length-update _ _ w.catalogue.products) (omega arith)), q.2))

  pub upsert_product-Yields :
      (store : ℕ) (url : String) (s : Scraped) (w : World)
      → Stored w.catalogue.products
      → str_eq (e.strip url) "" ≡ false
      → Yields
          (λ r v. Stored v.catalogue.products × Added r.1 r.2 w v)
          (upsert_product store url s w)
  upsert_product-Yields store url s w keyed given =
      let y : Yields (λ r v. Added r.1 r.2 w v) (upsert_product store url s w) =
        rw (upsert_product-eq store url s w keyed given)
          (write_product-Yields store (e.strip url) s _ _ _) in
      record {
        value = y.value;
        world = y.world;
        returns = y.returns;
        holds = (rw y.returns at (upsert_product-Stored laws store url s w keyed given), y.holds);
      }
