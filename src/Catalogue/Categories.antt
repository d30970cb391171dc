-- ===== src/Catalogue/Categories.antt =====
-- pricewatch/db/repositories/category_repository.py
use managment2_main.RunRows.{given_or}
use managment2_main.Base.{
  ℕ, String, Bool, true, false, not, ◌&&◌, Option, none, some, List, map, select, tally, find,
  str_eq, ◌==◌, is_id, if◌then◌else◌,
}
use managment2_main.Models.{Datetime, category_mapping_not_found}
use managment2_main.Models.Catalogue.{Category, CategoryMapping, Product}
use managment2_main.Engine.{Engine}
use managment2_main.Session.{
  World, Action, pure, gets, or_raise, ◌>>=◌, ◌>>◌, utcnow, change_catalogue,
}
use managment2_main.Query.{one_row, filter_by}
use managment2_main.Catalogue.{
  category_row, change_category, change_category_mapping, add_category, add_category_mapping,
  normalize_category_name,
}

-- The filters of the lookups.
abbrev pub has_store_and_name : ℕ × String → Category → Bool
has_store_and_name (store, name) c = (c.store_id == store) && str_eq c.name name

abbrev pub is_category_pair : ℕ × ℕ → CategoryMapping → Bool
is_category_pair (reference, target) m =
    (m.reference_category_id == reference) && (m.target_category_id == target)

unfoldable pub get_category_by_name : ℕ → String → Action (Option Category)
get_category_by_name store name =
    one_row (λ w. w.catalogue.categories) (has_store_and_name (store, name))

unfoldable pub get_category_mapping : ℕ → ℕ → Action (Option CategoryMapping)
get_category_mapping reference target =
    one_row (λ w. w.catalogue.category_mappings) (is_category_pair (reference, target))

abbrev pub with_category_columns :
    Option String → Option String → String → Datetime → Category → Category
with_category_columns external_id url normalized now c = record c {
  external_id = external_id;
  url = url;
  normalized_name = some normalized;
  updated_at = now;
}

abbrev pub new_category :
    ℕ → String → Option String → Option String → String → Datetime → ℕ → Category
new_category store name external_id url normalized now i = record {
  id = i;
  store_id = store;
  external_id = external_id;
  name = name;
  normalized_name = some normalized;
  url = url;
  updated_at = now;
}

-- `a != b` on nullable columns.
abbrev pub same_text : Option String → Option String → Bool
same_text none none = true
same_text none (some t) = false
same_text (some s) none = false
same_text (some s) (some t) = str_eq s t

abbrev pub same_number : Option ℕ → Option ℕ → Bool
same_number none none = true
same_number none (some b) = false
same_number (some a) none = false
same_number (some a) (some b) = a == b

abbrev pub with_link : Option String → Option ℕ → Datetime → CategoryMapping → CategoryMapping
with_link match_type confidence now m = record m {
  match_type = match_type;
  confidence = confidence;
  updated_at = now;
}

abbrev pub new_category_mapping : ℕ → ℕ → Option String → Option ℕ → Datetime → ℕ → CategoryMapping
new_category_mapping reference target match_type confidence now i = record {
  id = i;
  reference_category_id = reference;
  target_category_id = target;
  match_type = match_type;
  confidence = confidence;
  updated_at = now;
}

unfoldable pub delete_category_mapping : ℕ → Action (Unit {0})
delete_category_mapping i =
    change_catalogue
      (λ c. record c { category_mappings = select (λ m. not (m.id == i)) c.category_mappings })

-- `Category.store_id == store`, by the mapping's target or reference category.
unfoldable pub category_in_store : World → ℕ → ℕ → Bool
category_in_store w category store = elim (category_row category w) [
  | none ↦ false
  | some c ↦ c.store_id == store
]

unfoldable pub list_mapped_target_categories : ℕ → Option ℕ → World → List CategoryMapping
list_mapped_target_categories reference target_store w =
    filter_by target_store (λ store m. category_in_store w m.target_category_id store)
      (select (λ m. m.reference_category_id == reference) w.catalogue.category_mappings)

unfoldable pub list_category_mappings : Option ℕ → Option ℕ → World → List CategoryMapping
list_category_mappings reference_store target_store w =
    filter_by target_store (λ store m. category_in_store w m.target_category_id store)
      (filter_by reference_store (λ store m. category_in_store w m.reference_category_id store)
        w.catalogue.category_mappings)

-- The pairs (category, count) of the aggregated query.
unfoldable pub count_products_by_category : ℕ → World → List (ℕ × ℕ)
count_products_by_category store w =
    map (λ c. (c.id, tally (λ (p : Product). is_id p.category_id c.id) w.catalogue.products))
      (select (λ c. c.store_id == store) w.catalogue.categories)

-- The categories that no mapping names on the given side.
abbrev pub mapping_column : Bool → CategoryMapping → ℕ
mapping_column true m = m.reference_category_id
mapping_column false m = m.target_category_id

module _ ⦃e : Engine⦄ where
  abbrev by_name : Category → Category → Bool
  by_name a b = e.text_le a.name b.name

  unfoldable pub list_categories_by_store : ℕ → World → List Category
  list_categories_by_store store w =
      e.order_by Category by_name (select (λ c. c.store_id == store) w.catalogue.categories)

  unfoldable pub list_unmapped_categories : ℕ → Bool → World → List Category
  list_unmapped_categories store as_reference w = e.order_by Category by_name (
      select
        (λ c. tally (λ m. mapping_column as_reference m == c.id) w.catalogue.category_mappings == 0)
        (select (λ c. c.store_id == store) w.catalogue.categories))

  unfoldable pub write_category :
      ℕ → String → Option String → Option String → String → Option Category → Action Category
  unfolding ◌>>=◌
  write_category store name external_id url normalized none = do
    now ← utcnow
    add_category (new_category store name external_id url normalized now)
  write_category store name external_id url normalized (some category) = do
    now ← utcnow
    change_category category.id (with_category_columns external_id url normalized now)
    pure (with_category_columns external_id url normalized now category)

  unfoldable pub upsert_category : ℕ → String → Option String → Option String → Action Category
  unfolding ◌>>=◌
  upsert_category store name external_id url = do
    category ← get_category_by_name store name
    write_category store name external_id url (normalize_category_name name) category

  unfoldable pub write_category_mapping :
      ℕ → ℕ → Option String → Option ℕ → Option CategoryMapping → Action CategoryMapping
  unfolding ◌>>=◌
  write_category_mapping reference target match_type confidence none = do
    now ← utcnow
    add_category_mapping (new_category_mapping reference target match_type confidence now)
  write_category_mapping reference target match_type confidence (some existing) =
      if same_text existing.match_type match_type && same_number existing.confidence confidence
      then pure existing
      else (do
        now ← utcnow
        change_category_mapping existing.id (with_link match_type confidence now)
        pure (with_link match_type confidence now existing))

  unfoldable pub create_category_mapping : ℕ → ℕ → Option String → Option ℕ → Action CategoryMapping
  unfolding ◌>>=◌
  create_category_mapping reference target match_type confidence = do
    existing ← get_category_mapping reference target
    write_category_mapping reference target match_type confidence existing

  unfoldable pub update_category_mapping : ℕ → Option String → Option ℕ → Action CategoryMapping
  unfolding ◌>>=◌
  update_category_mapping i match_type confidence = do
    row ← gets (λ w. find (λ m. m.id == i) w.catalogue.category_mappings)
    mapping ← or_raise (category_mapping_not_found i) row
    now ← utcnow
    let updated =
        with_link (given_or match_type mapping.match_type) (given_or confidence mapping.confidence)
          now mapping
    change_category_mapping i (λ _. updated)
    pure updated
