-- ===== src/Comparison/Scope/Offered.antt =====
-- What `get_eligible_target_products` offers, `validate_target_scope` accepts, and no confirmed match
-- of another reference product stands in the way.
use mathlib.Core.Logic.Or
use mathlib.Core.Bool.{Bool-set}
use mathlib.Core.List.{not-mem-nil, mem-cons}
use managment2_main.Comparison.Followed.{listed_later}
use managment2_main.Base.{
  ℕ, ◌≤◌, String, ◌≡◌, refl, Bool, true, false, not, ◌&&◌, Option, none, some, List, [], ◌∷◌, Mem,
  map, find, tally, select, arith, Bool-cases, Option-cases, inl, inr, ◌==◌, ==_refl, ==_iff,
  and-true, tally-find, tally-split, tally-pos_of_mem, mem-of_find, find_sound, mem-of_select,
  select_sound, mem-of_take,
}
use managment2_main.Models.{is_text}
use managment2_main.Models.Catalogue.{Product, ProductMapping}
use managment2_main.Engine.{Engine, EngineLaws}
use managment2_main.Engine.Order.{mem-of_order_by}
use managment2_main.Session.{World, ok, ◌>>=◌}
use managment2_main.Gap.{is_listed}
use managment2_main.Catalogue.{product_row}
use managment2_main.Catalogue.Products.{
  search_products_by_categories, in_categories, is_eligible, is_searched, confirmed_targets, by_id,
}
use managment2_main.Catalogue.Mappings.{is_conflict, get_conflicting_confirmed_mapping}
use managment2_main.Comparison.Scope.{
  resolve_valid_mapped_target_cat_ids, validate_target_scope, get_eligible_target_products,
}
use managment2_main.Comparison.Scope.Checked.{Scoped, mapped_ids, check_scope_ok, validate_accepts}

listed-select :
    {A : Type 0} (f : A → ℕ) (p : A → Bool) (rows : List A) (a : A)
    → Mem a rows
    → p a ≡ true
    → is_listed (f a) (map f (select p rows)) ≡ true
unfolding select
listed-select f p [] a k h = absurd (not-mem-nil k)
listed-select f p (x ∷ rows) a k h = elim (Bool-cases (p x)) [
  | inl passes ↦ rw passes (
      Or.elim (Bool-set _ _) (mem-cons.0 k) (λ same. rw (same, ==_refl (f x)) refl)
        (λ later.
          listed_later (f a) (f x) (map f (select p rows)) (listed-select f p rows a later h)))
  | inr fails ↦ rw fails (
      Or.elim (Bool-set _ _) (mem-cons.0 k) (λ same. absurd (cc (same, h, fails)))
        (λ later. listed-select f p rows a later h))
]

conflict_says :
    (r i : ℕ) (m : ProductMapping)
    → is_conflict r i m ≡ true
    → (m.target_product_id ≡ i) × (is_text m.match_status "confirmed" ≡ true)
conflict_says r i m h =
    let (both, confirmed) =
      and-true ((m.target_product_id == i) && not (m.reference_product_id == r))
        (is_text m.match_status "confirmed") h in
    (
      (==_iff m.target_product_id i).0
          (and-true (m.target_product_id == i) (not (m.reference_product_id == r)) both).0,
      confirmed,
    )

four : (a b c d : Bool) → (a && not b && c && d) ≡ true → (a ≡ true) × (b ≡ false)
four true false c d h = (refl, refl)
four true true c d h = absurd (cc)
four false b c d h = absurd (cc)

-- Where ids are unique, the row of a product's id has its categories.
same_row :
    (ids : List ℕ) (p : Product) (w : World)
    → tally (λ q. q.id == p.id) w.catalogue.products ≤ 1
    → Mem p w.catalogue.products
    → in_categories ids p ≡ true
    → (q : Product) × (product_row p.id w ≡ some q) × (in_categories ids q ≡ true)
unfolding product_row
same_row ids p w one m inside =
    elim (Option-cases (find (λ q. q.id == p.id) w.catalogue.products)) [
      | inl missing ↦ absurd (
          omega (
            arith,
            tally-find (λ q. q.id == p.id) w.catalogue.products missing,
            tally-pos_of_mem (λ q. q.id == p.id) w.catalogue.products m (==_refl p.id),
          ))
      | inr (q, found) ↦ elim (Bool-cases (in_categories ids q)) [
        | inl good ↦ (q, found, good)
        | inr bad ↦ absurd (
            omega (
              arith,
              one,
              tally-split (λ q. q.id == p.id) (in_categories ids) w.catalogue.products,
              tally-pos_of_mem (λ q. (q.id == p.id) && in_categories ids q) w.catalogue.products m
                  (rw (==_refl p.id, inside) refl),
              tally-pos_of_mem (λ q. (q.id == p.id) && not (in_categories ids q))
                  w.catalogue.products (mem-of_find (λ q. q.id == p.id) w.catalogue.products found)
                  (rw (find_sound (λ q. q.id == p.id) w.catalogue.products found, bad) refl),
            ))
      ]
    ]

module _ {e : Engine} (laws : EngineLaws e) where
  get_eligible-eq :
      (r : ℕ) (ids : List ℕ) (needle : Option String) (limit : ℕ) (again : Bool) (w : World)
      → Scoped r ids w
      → get_eligible_target_products ⦃e = e⦄ r ids needle limit again w
        ≡ (ok (search_products_by_categories ⦃e = e⦄ ids r needle limit again w), w)
  unfolding get_eligible_target_products resolve_valid_mapped_target_cat_ids ◌>>=◌
  get_eligible-eq r ids needle limit again w s =
      rw (s.found, s.categorised)
        (rw (check_scope_ok s.category (mapped_ids s.category w) ids w s.mapped) refl)

  -- A row of the search is a product that passes the four filters.
  found_is_eligible :
      (r : ℕ) (ids : List ℕ) (needle : Option String) (limit : ℕ) (again : Bool) (w : World)
      (p : Product)
      → Mem p (search_products_by_categories ⦃e = e⦄ ids r needle limit again w)
      → Mem p w.catalogue.products × (is_eligible ⦃e = e⦄ ids r needle again w p ≡ true)
  unfolding search_products_by_categories
  found_is_eligible r [] needle limit again w p k = absurd (not-mem-nil k)
  found_is_eligible r (c ∷ ids) needle limit again w p k =
      let rows = select (is_eligible ⦃e = e⦄ (c ∷ ids) r needle again w) w.catalogue.products in
      let k' : Mem p rows =
        mem-of_order_by laws (by_id ⦃e = e⦄) rows
          (mem-of_take limit (e.order_by Product (by_id ⦃e = e⦄) rows) k) in
      (
        mem-of_select (is_eligible ⦃e = e⦄ (c ∷ ids) r needle again w) w.catalogue.products k',
        select_sound (is_eligible ⦃e = e⦄ (c ∷ ids) r needle again w) w.catalogue.products k',
      )

  eligible_says :
      (r : ℕ) (ids : List ℕ) (needle : Option String) (again : Bool) (w : World) (p : Product)
      → is_eligible ⦃e = e⦄ ids r needle again w p ≡ true
      → (in_categories ids p ≡ true) × (is_listed p.id (confirmed_targets w) ≡ false)
  unfolding is_eligible
  eligible_says r ids needle again w p h =
      four (in_categories ids p) (is_listed p.id (confirmed_targets w))
        (is_searched ⦃e = e⦄ needle p) _ h

  -- No confirmed mapping names the product, so none conflicts.
  no_conflict :
      (r i : ℕ) (w : World)
      → is_listed i (confirmed_targets w) ≡ false
      → get_conflicting_confirmed_mapping ⦃e = e⦄ r i w ≡ none
  unfolding get_conflicting_confirmed_mapping confirmed_targets
  no_conflict r i w out =
      elim (Option-cases
        (e.pick ProductMapping (select (is_conflict r i) w.catalogue.product_mappings))) [
          | inl nothing ↦ nothing
          | inr (row, picked) ↦
              let rows = select (is_conflict r i) w.catalogue.product_mappings in
              let k : Mem row rows = laws.pick_mem ProductMapping rows row picked in
              let (same, confirmed) =
                conflict_says r i row
                  (select_sound (is_conflict r i) w.catalogue.product_mappings k) in
              let listed : is_listed row.target_product_id (
                    map (λ m. m.target_product_id)
                      (select (λ m. is_text m.match_status "confirmed")
                        w.catalogue.product_mappings))
                  ≡ true =
                listed-select (λ m. m.target_product_id) (λ m. is_text m.match_status "confirmed")
                  w.catalogue.product_mappings row
                  (mem-of_select (is_conflict r i) w.catalogue.product_mappings k) confirmed in
              absurd (cc (rw same at listed, out))
        ]

  -- Where product ids are unique and the given categories are mapped to the category of the
  -- reference product, every product that is offered for a manual match passes the check of a
  -- manual match, and no confirmed mapping of another reference product names it.
  pub eligible_confirmable :
      (r : ℕ) (ids : List ℕ) (needle : Option String) (limit : ℕ) (again : Bool) (w : World)
      → Scoped r ids w
      → ((i : ℕ) → tally (λ q. q.id == i) w.catalogue.products ≤ 1)
      → (ps : List Product)
      → (get_eligible_target_products ⦃e = e⦄ r ids needle limit again w).0 ≡ ok ps
      → (p : Product) → Mem p ps
      → ((validate_target_scope r p.id ids w).0 ≡ ok tt)
        × (get_conflicting_confirmed_mapping ⦃e = e⦄ r p.id w ≡ none)
  eligible_confirmable r ids needle limit again w s unique ps returned p k =
      let out : ok (search_products_by_categories ⦃e = e⦄ ids r needle limit again w) ≡ ok ps =
        rw (get_eligible-eq r ids needle limit again w s) at returned in
      let same : search_products_by_categories ⦃e = e⦄ ids r needle limit again w ≡ ps = cc in
      let (m, good) = found_is_eligible r ids needle limit again w p (rw same k) in
      let (inside, free) = eligible_says r ids needle again w p good in
      let (q, found, within) = same_row ids p w (unique p.id) m inside in
      (
        rw
            (validate_accepts r p.id ids w
              (record { scoped = s; target = q; there = found; inside = within }))
            refl,
        no_conflict r p.id w free,
      )
