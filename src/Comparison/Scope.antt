-- ===== src/Comparison/Scope.antt =====
-- pricewatch/services/comparison_service.py: `compare` with its checks of the categories, and the
-- products that an operator may choose by hand.
--
-- The category of a mapping and the store of a category are rows: the foreign keys hold.
pub mod Checked
pub mod Offered
use managment2_main.Base.{ℕ, ℤ, String, Bool, not, Option, none, some, List, [], ◌∷◌, map}
use managment2_main.Models.{
  category_not_found, not_a_reference_store, is_a_reference_store, category_not_mapped,
  no_category_mappings, product_not_found, product_not_in_scope, no_category,
}
use managment2_main.Models.Catalogue.{Category, CategoryMapping, Product}
use managment2_main.Engine.{Engine}
use managment2_main.Session.{World, Action, pure, raise, gets, or_raise, ◌>>=◌, ◌>>◌}
use managment2_main.Gap.{is_listed}
use managment2_main.Catalogue.{category_row, product_row}
use managment2_main.Catalogue.Categories.{list_mapped_target_categories}
use managment2_main.Catalogue.Products.{search_products_by_categories, in_categories}
use managment2_main.Catalogue.Linking.{in_reference_store, require}
use managment2_main.Matching.{Matcher}
use managment2_main.Comparison.{Compared, compare_multi}

unfoldable pub load_reference_category : ℕ → Action Category
unfolding ◌>>=◌
load_reference_category i = do
  row ← gets (category_row i)
  category ← or_raise (category_not_found i) row
  is_reference ← gets (λ w. in_reference_store w category)
  require is_reference (not_a_reference_store i)
  pure category

unfoldable pub load_target_category : ℕ → Action Category
unfolding ◌>>=◌
load_target_category i = do
  row ← gets (category_row i)
  category ← or_raise (category_not_found i) row
  is_reference ← gets (λ w. in_reference_store w category)
  require (not is_reference) (is_a_reference_store i)
  pure category

-- `for tid in ids_to_use`: each category is there, of a target store, and mapped.
unfoldable pub check_targets : ℕ → List ℕ → List ℕ → Action (Unit {0})
unfolding ◌>>=◌
check_targets reference mapped [] = pure tt
check_targets reference mapped (i ∷ ids) = do
  category ← load_target_category i
  require (is_listed i mapped) (category_not_mapped i reference)
  check_targets reference mapped ids

unfoldable pub load_targets : List ℕ → Action (List Category)
unfolding ◌>>=◌
load_targets [] = pure []
load_targets (i ∷ ids) = do
  category ← load_target_category i
  categories ← load_targets ids
  pure (category ∷ categories)

-- The categories of the mappings, where they are found.
unfoldable pub mapped_categories : List CategoryMapping → World → List Category
mapped_categories [] w = []
mapped_categories (m ∷ mappings) w = elim (category_row m.target_category_id w) [
  | none ↦ mapped_categories mappings w
  | some c ↦ c ∷ mapped_categories mappings w
]

-- `target_category_ids`, else `[target_category_id]`.
abbrev pub ids_to_use : Option (List ℕ) → Option ℕ → Option (List ℕ)
ids_to_use (some ids) single = some ids
ids_to_use none none = none
ids_to_use none (some i) = some (i ∷ [])

unfoldable pub select_targets : ℕ → Option (List ℕ) → Option ℕ → Action (List Category)
unfolding ◌>>=◌
select_targets reference (some ids) target_store = do
  mappings ← gets (list_mapped_target_categories reference none)
  check_targets reference (map (λ m. m.target_category_id) mappings) ids
  load_targets ids
select_targets reference none target_store = do
  mappings ← gets (list_mapped_target_categories reference target_store)
  elim mappings [
    | [] ↦ raise (no_category_mappings reference)
    | m ∷ rest ↦ gets (mapped_categories (m ∷ rest))
  ]

-- `_resolve_valid_mapped_target_cat_ids`. A reference product without a category has no mappings, and
-- `int(None)` raises.
unfoldable pub resolve_valid_mapped_target_cat_ids : ℕ → Action (ℕ × List ℕ)
unfolding ◌>>=◌
resolve_valid_mapped_target_cat_ids reference_product = do
  row ← gets (product_row reference_product)
  product ← or_raise (product_not_found reference_product) row
  category ← or_raise (no_category reference_product) product.category_id
  mappings ← gets (list_mapped_target_categories category none)
  pure (category, map (λ m. m.target_category_id) mappings)

-- `for cat_id in target_category_ids: if cat_id not in valid: raise`
unfoldable pub check_scope : ℕ → List ℕ → List ℕ → Action (Unit {0})
unfolding ◌>>=◌
check_scope reference valid [] = pure tt
check_scope reference valid (i ∷ ids) = do
  require (is_listed i valid) (category_not_mapped i reference)
  check_scope reference valid ids

unfoldable pub validate_target_scope : ℕ → ℕ → List ℕ → Action (Unit {0})
unfolding ◌>>=◌
validate_target_scope reference_product target_product ids = do
  resolved ← resolve_valid_mapped_target_cat_ids reference_product
  check_scope resolved.0 resolved.1 ids
  row ← gets (product_row target_product)
  product ← or_raise (product_not_found target_product) row
  require (in_categories ids product) (product_not_in_scope target_product product.category_id ids)

module _ ⦃e : Engine⦄ where
  unfoldable pub get_eligible_target_products :
      ℕ → List ℕ → Option String → ℕ → Bool → Action (List Product)
  unfolding ◌>>=◌
  get_eligible_target_products reference_product ids needle limit include_rejected = do
    resolved ← resolve_valid_mapped_target_cat_ids reference_product
    check_scope resolved.0 resolved.1 ids
    gets (search_products_by_categories ids reference_product needle limit include_rejected)

  unfoldable pub compare :
      ⦃m : Matcher⦄
      → (Option ℤ → Option String → String)
      → ℕ
      → Option ℕ
      → Option (List ℕ)
      → Option ℕ
      → Action Compared
  unfolding ◌>>=◌
  compare price_text reference single ids target_store = do
    category ← load_reference_category reference
    targets ← select_targets reference (ids_to_use ids single) target_store
    gets (compare_multi price_text category targets)
