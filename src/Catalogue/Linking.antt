-- ===== src/Catalogue/Linking.antt =====
-- pricewatch/services/mapping_service.py and pricewatch/services/category_matching_service.py: links
-- between categories of the reference store and of a target store.
--
-- The store of a category is a row: the foreign key holds.
use managment2_main.Models.{
  Error, category_not_found, not_a_reference_store, is_a_reference_store, same_store,
  store_not_found,
}
pub mod Step
pub mod Complete
use managment2_main.Base.{
  ℕ, suc, String, Bool, true, false, not, Option, none, some, List, [], ◌∷◌, ◌++◌, select, str_eq,
  ◌==◌, if◌then◌else◌,
}
use managment2_main.Models.Catalogue.{Store, Category, CategoryMapping}
use managment2_main.Engine.{Engine}
use managment2_main.Session.{World, Action, pure, raise, gets, or_raise, ◌>>=◌, ◌>>◌}
use managment2_main.Catalogue.{store_row, category_row}
use managment2_main.Catalogue.Categories.{
  list_categories_by_store, get_category_mapping, create_category_mapping,
}

-- `getattr(getattr(category, "store", None), "is_reference", False)`
abbrev flag : Option Store → Bool
flag none = false
flag (some s) = s.is_reference

unfoldable pub in_reference_store : World → Category → Bool
in_reference_store w c = flag (store_row c.store_id w)

-- `if not condition: raise`
unfoldable pub require : Bool → Error → Action (Unit {0})
require true exc = pure tt
require false exc = raise exc

abbrev pub or_empty : Option String → String
or_empty none = ""
or_empty (some s) = s

-- `tgt_by_norm.get(norm, [])`
unfoldable pub same_name : String → List Category → List Category
same_name norm = select (λ c. str_eq (or_empty c.normalized_name) norm)

-- The three results of `auto_link`: pairs of ids, and a count.
pub record Linked : Type 0 where
  pub created : List (ℕ × ℕ)
  pub skipped_existing : List (ℕ × ℕ)
  pub skipped_no_norm : ℕ

abbrev pub nothing_linked : Linked
nothing_linked = record { created = []; skipped_existing = []; skipped_no_norm = 0 }

module _ ⦃e : Engine⦄ where
  -- `MappingService.create_category_mapping`
  unfoldable pub create_checked_mapping : ℕ → ℕ → Option String → Option ℕ → Action CategoryMapping
  unfolding ◌>>=◌
  create_checked_mapping reference target match_type confidence = do
    ref_row ← gets (category_row reference)
    tgt_row ← gets (category_row target)
    ref_cat ← or_raise (category_not_found reference) ref_row
    tgt_cat ← or_raise (category_not_found target) tgt_row
    ref_is_reference ← gets (λ w. in_reference_store w ref_cat)
    tgt_is_reference ← gets (λ w. in_reference_store w tgt_cat)
    require ref_is_reference (not_a_reference_store ref_cat.store_id)
    require (not tgt_is_reference) (is_a_reference_store tgt_cat.store_id)
    require (not (ref_cat.store_id == tgt_cat.store_id)) same_store
    create_category_mapping reference target match_type confidence

  -- One pair of `auto_link`; a confidence of 1.0 is a million millionths.
  unfoldable pub link_new : Category → Category → Linked → Option CategoryMapping → Action Linked
  unfolding ◌>>=◌
  link_new ref_cat tgt_cat r (some existing) =
      pure (record r { skipped_existing = r.skipped_existing ++ (ref_cat.id, tgt_cat.id) ∷ [] })
  link_new ref_cat tgt_cat r none = do
    row ← create_category_mapping ref_cat.id tgt_cat.id (some "exact") (some 1000000)
    pure (record r { created = r.created ++ (ref_cat.id, tgt_cat.id) ∷ [] })

  unfoldable pub link_pairs : Category → List Category → Linked → Action Linked
  unfolding ◌>>=◌
  link_pairs ref_cat [] r = pure r
  link_pairs ref_cat (tgt_cat ∷ rest) r = do
    existing ← get_category_mapping ref_cat.id tgt_cat.id
    next ← link_new ref_cat tgt_cat r existing
    link_pairs ref_cat rest next

  -- One category of the reference store: `if not ref_norm: continue`.
  unfoldable pub link_category : List Category → Category → Linked → Action Linked
  link_category tgt_cats ref_cat r =
      if str_eq (or_empty ref_cat.normalized_name) ""
      then pure (record r { skipped_no_norm = suc r.skipped_no_norm })
      else link_pairs ref_cat (same_name (or_empty ref_cat.normalized_name) tgt_cats) r

  unfoldable pub link_categories : List Category → List Category → Linked → Action Linked
  unfolding ◌>>=◌
  link_categories tgt_cats [] r = pure r
  link_categories tgt_cats (ref_cat ∷ rest) r = do
    next ← link_category tgt_cats ref_cat r
    link_categories tgt_cats rest next

  unfoldable pub auto_link : ℕ → ℕ → Action Linked
  unfolding ◌>>=◌
  auto_link reference_store target_store = do
    ref_row ← gets (store_row reference_store)
    tgt_row ← gets (store_row target_store)
    ref_store ← or_raise (store_not_found reference_store) ref_row
    tgt_store ← or_raise (store_not_found target_store) tgt_row
    require ref_store.is_reference (not_a_reference_store reference_store)
    require (not tgt_store.is_reference) (is_a_reference_store target_store)
    ref_cats ← gets (list_categories_by_store reference_store)
    tgt_cats ← gets (list_categories_by_store target_store)
    link_categories tgt_cats ref_cats nothing_linked
