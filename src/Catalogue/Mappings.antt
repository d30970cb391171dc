-- ===== src/Catalogue/Mappings.antt =====
-- pricewatch/db/repositories/mapping_repository.py: what an operator decided about pairs of products.
pub mod Decisions
use Prim.Native.String.{◌++◌ as str_append}
use managment2_main.RunRows.{given_or}
use managment2_main.Base.{
  ℕ, String, Bool, true, false, not, ◌&&◌, ◌||◌, Option, none, some, List, [], ◌∷◌, map, select,
  find, str_eq, ◌==◌, is_id, if◌then◌else◌,
}
use managment2_main.Models.{Datetime, is_text, product_mapping_not_found}
use managment2_main.Models.Catalogue.{Product, ProductMapping}
use managment2_main.Engine.{Engine}
use managment2_main.Session.{
  World, Action, pure, gets, or_raise, ◌>>=◌, ◌>>◌, utcnow, change_catalogue,
}
use managment2_main.Query.{one_row, filter_by, page}
use managment2_main.Gap.{is_listed}
use managment2_main.Catalogue.{product_row, change_product_mapping, add_product_mapping}
use managment2_main.Catalogue.Categories.{same_text, same_number}

abbrev pub is_product_pair : ℕ × ℕ → ProductMapping → Bool
is_product_pair (reference, target) m =
    (m.reference_product_id == reference) && (m.target_product_id == target)

unfoldable pub get_product_mapping : ℕ → ℕ → Action (Option ProductMapping)
get_product_mapping reference target =
    one_row (λ w. w.catalogue.product_mappings) (is_product_pair (reference, target))

-- The columns that a decision writes.
pub record Decision : Type 0 where
  pub match_status : Option String
  pub confidence : Option ℕ
  pub comment : Option String

abbrev pub same_decision : Decision → ProductMapping → Bool
same_decision d m =
    same_text m.match_status d.match_status
    && same_number m.confidence d.confidence
    && same_text m.comment d.comment

abbrev pub with_decision : Decision → Datetime → ProductMapping → ProductMapping
with_decision d now m = record m {
  match_status = d.match_status;
  confidence = d.confidence;
  comment = d.comment;
  updated_at = now;
}

abbrev pub new_mapping : ℕ → ℕ → Decision → Datetime → ℕ → ProductMapping
new_mapping reference target d now i = record {
  id = i;
  reference_product_id = reference;
  target_product_id = target;
  match_status = d.match_status;
  confidence = d.confidence;
  comment = d.comment;
  updated_at = now;
}

unfoldable pub delete_product_mapping : ℕ → Action (Unit {0})
delete_product_mapping i =
    change_catalogue
      (λ c. record c { product_mappings = select (λ m. not (m.id == i)) c.product_mappings })

-- A test of the product that a mapping names, false where there is none.
unfoldable pub product_has : (Product → Bool) → World → ℕ → Bool
product_has p w i = elim (product_row i w) [ none ↦ false | some product ↦ p product ]

unfoldable pub list_matches_for_reference_product : ℕ → World → List ProductMapping
list_matches_for_reference_product reference w =
    select (λ m. m.reference_product_id == reference) w.catalogue.product_mappings

unfoldable pub list_matches_for_target_product : ℕ → World → List ProductMapping
list_matches_for_target_product target w =
    select (λ m. m.target_product_id == target) w.catalogue.product_mappings

unfoldable pub list_product_mappings : Option ℕ → Option ℕ → World → List ProductMapping
list_product_mappings reference_store target_store w =
    filter_by target_store (λ store m. product_has (λ p. p.store_id == store) w m.target_product_id)
      (filter_by reference_store
        (λ store m. product_has (λ p. p.store_id == store) w m.reference_product_id)
        w.catalogue.product_mappings)

-- `(reference_product_id, target_product_id)` of the rejected rows of the given references.
abbrev pub is_rejected_of : List ℕ → ProductMapping → Bool
is_rejected_of references m =
    is_listed m.reference_product_id references && is_text m.match_status "rejected"

unfoldable pub get_rejected_pairs_for_refs : List ℕ → World → List (ℕ × ℕ)
get_rejected_pairs_for_refs references w =
    map (λ m. (m.reference_product_id, m.target_product_id))
      (select (is_rejected_of references) w.catalogue.product_mappings)

-- `result.setdefault(reference, set()).add(target)`; a set is a list of ids, a dictionary a list of
-- pairs.
unfoldable pub add_target : ℕ → ℕ → List (ℕ × List ℕ) → List (ℕ × List ℕ)
add_target reference target [] = (reference, target ∷ []) ∷ []
add_target reference target ((r, targets) ∷ rest) =
    if r == reference
    then (r, target ∷ targets) ∷ rest
    else (r, targets) ∷ add_target reference target rest

unfoldable pub group_targets : List ProductMapping → List (ℕ × List ℕ) → List (ℕ × List ℕ)
group_targets [] result = result
group_targets (m ∷ rows) result =
    group_targets rows (add_target m.reference_product_id m.target_product_id result)

unfoldable pub get_confirmed_target_ids_for_refs : List ℕ → World → List (ℕ × List ℕ)
get_confirmed_target_ids_for_refs references w =
    group_targets
      (select
        (λ m. is_listed m.reference_product_id references && is_text m.match_status "confirmed")
        w.catalogue.product_mappings)
      []

unfoldable pub get_all_confirmed_target_ids : List ℕ → World → List ℕ
get_all_confirmed_target_ids targets w =
    map (λ m. m.target_product_id)
      (select (λ m. is_listed m.target_product_id targets && is_text m.match_status "confirmed")
        w.catalogue.product_mappings)

-- A confirmed mapping of another reference product to this target.
abbrev pub is_conflict : ℕ → ℕ → ProductMapping → Bool
is_conflict reference target m =
    (m.target_product_id == target)
    && not (m.reference_product_id == reference)
    && is_text m.match_status "confirmed"

-- The arguments of `list_product_mappings_filtered`; `status` is `some "confirmed"` and `limit`
-- `some 500` by default.
pub record MappingFilter : Type 0 where
  pub reference_store_id : Option ℕ
  pub target_store_id : Option ℕ
  pub reference_category_id : Option ℕ
  pub target_category_id : Option ℕ
  pub status : Option String
  pub needle : Option String
  pub limit : Option ℕ

-- `if limit: q = q.limit(limit)`
abbrev pub positive : Option ℕ → Option ℕ
positive none = none
positive (some n) = if n == 0 then none else some n

module _ ⦃e : Engine⦄ where
  -- `if search: q.filter(or_(reference name ILIKE, target name ILIKE))`
  unfoldable pub names_match : Option String → World → ProductMapping → Bool
  names_match none w m = true
  names_match (some s) w m =
      let pattern = str_append "%" (str_append s "%") in
      str_eq s ""
      || product_has (λ p. e.ilike p.name pattern) w m.reference_product_id
      || product_has (λ p. e.ilike p.name pattern) w m.target_product_id

  unfoldable pub list_product_mappings_filtered : MappingFilter → World → List ProductMapping
  list_product_mappings_filtered f w = page (positive f.limit) none (
      select (names_match f.needle w) (
        filter_by f.target_category_id
          (λ c m. product_has (λ p. is_id p.category_id c) w m.target_product_id)
          (filter_by f.reference_category_id
            (λ c m. product_has (λ p. is_id p.category_id c) w m.reference_product_id)
            (filter_by f.target_store_id
              (λ s m. product_has (λ p. p.store_id == s) w m.target_product_id)
              (filter_by f.reference_store_id
                (λ s m. product_has (λ p. p.store_id == s) w m.reference_product_id)
                (filter_by f.status (λ s m. is_text m.match_status s)
                  w.catalogue.product_mappings))))))

  unfoldable pub get_conflicting_confirmed_mapping : ℕ → ℕ → World → Option ProductMapping
  get_conflicting_confirmed_mapping reference target w =
      e.pick ProductMapping (select (is_conflict reference target) w.catalogue.product_mappings)

  unfoldable pub write_mapping : ℕ → ℕ → Decision → Option ProductMapping → Action ProductMapping
  unfolding ◌>>=◌
  write_mapping reference target d none = do
    now ← utcnow
    add_product_mapping (new_mapping reference target d now)
  write_mapping reference target d (some existing) =
      if same_decision d existing then pure existing else (do
        now ← utcnow
        change_product_mapping existing.id (with_decision d now)
        pure (with_decision d now existing))

  unfoldable pub create_product_mapping : ℕ → ℕ → Decision → Action ProductMapping
  unfolding ◌>>=◌
  create_product_mapping reference target d = do
    existing ← get_product_mapping reference target
    write_mapping reference target d existing

  -- `match_status` is never `None` here.
  unfoldable pub upsert_match_decision :
      ℕ → ℕ → String → Option ℕ → Option String → Action ProductMapping
  unfolding create_product_mapping
  upsert_match_decision reference target status confidence comment =
      create_product_mapping reference target
        (record { match_status = some status; confidence = confidence; comment = comment })

  unfoldable pub update_product_mapping : ℕ → Decision → Action ProductMapping
  unfolding ◌>>=◌
  update_product_mapping i d = do
    row ← gets (λ w. find (λ m. m.id == i) w.catalogue.product_mappings)
    mapping ← or_raise (product_mapping_not_found i) row
    now ← utcnow
    let given : Decision = record {
      match_status = given_or d.match_status mapping.match_status;
      confidence = given_or d.confidence mapping.confidence;
      comment = given_or d.comment mapping.comment;
    }
    change_product_mapping i (with_decision given now)
    pure (with_decision given now mapping)
