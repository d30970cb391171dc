-- ===== src/Comparison.antt =====
-- pricewatch/services/comparison_service.py: what `_compare_multi` makes of the reference products and
-- the target products, the stored decisions and the result of `heuristic_match`.
--
-- A product stands for its serialised form. Sets of ids are lists; `score_details` are left out.
pub mod Scope
pub mod Accounts
pub mod Reported
pub mod Rejected
pub mod Tracked
pub mod Followed
pub mod Disjoint
use managment2_main.Base.{
  ℕ, ◌*◌, ℤ, String, Bool, true, false, not, ◌&&◌, ◌||◌, Option, none, some, List, [], ◌∷◌, ◌++◌,
  map, select, leb, ◌==◌, if◌then◌else◌,
}
use managment2_main.Models.{is_text}
use managment2_main.Models.Catalogue.{Category, Product, ProductMapping}
use managment2_main.Engine.{Engine}
use managment2_main.Session.{World}
use managment2_main.Gap.{is_listed}
use managment2_main.Catalogue.Products.{list_products_by_category}
use managment2_main.Catalogue.Mappings.{
  list_matches_for_reference_product, get_rejected_pairs_for_refs, get_all_confirmed_target_ids,
}
use managment2_main.Matching.{Matcher, Item}
use managment2_main.Matching.Pairing.{
  Row, Candidate, matched, ambiguous, no_match, half_even, heuristic_match,
}

-- A product with the category it was loaded for: `tgt_by_id` and `tgt_cat_by_product_id` together.
pub record Target : Type 0 where
  pub product : Product
  pub category : Category

-- `{p.id: ... for p in ...}.get(id)`: a later entry of an id replaces an earlier one.
unfoldable pub product_of : ℕ → List Product → Option Product
product_of i [] = none
product_of i (p ∷ products) = elim (product_of i products) [
  | some later ↦ some later
  | none ↦ if p.id == i then some p else none
]

unfoldable pub category_of : ℕ → List Target → Option Category
category_of i [] = none
category_of i (t ∷ targets) = elim (category_of i targets) [
  | some later ↦ some later
  | none ↦ if t.product.id == i then some t.category else none
]

-- `pair in rejected_pairs`
abbrev pub has_pair : ℕ → ℕ → List (ℕ × ℕ) → Bool
has_pair r t [] = false
has_pair r t ((a, b) ∷ pairs) = ((a == r) && (b == t)) || has_pair r t pairs

-- One side of an entry: a product, or the item where the product is not found.
pub data Side : Type 0 where
  product : Product → Side
  item : Item → Side

pub record Entry : Type 0 where
  pub reference : Side
  pub target : Side
  pub category : Option Category
  pub score_percent : ℕ
  pub match_source : String
  pub is_confirmed : Bool

pub record Choice : Type 0 where
  pub target : Side
  pub category : Option Category
  pub score_percent : ℕ
  pub can_accept : Bool
  pub disabled_reason : Option String

pub record Group : Type 0 where
  pub reference : Side
  pub candidates : List Choice

-- Phase 1: `confirmed_matches`, `ref_ids_confirmed` and `tgt_ids_confirmed`.
pub record Stored : Type 0 where
  pub entries : List Entry
  pub references : List ℕ
  pub targets : List ℕ

-- `int(round((pm.confidence or 1.0) * 100))`
abbrev pub percent_of : Option ℕ → ℕ
percent_of none = 100
percent_of (some c) = if c == 0 then 100 else half_even (c * 100)

abbrev pub stored_entry : Product → Product → Option Category → Option ℕ → Entry
stored_entry ref_prod tgt_prod category confidence = record {
  reference = Side.product ref_prod;
  target = Side.product tgt_prod;
  category = category;
  score_percent = percent_of confidence;
  match_source = "confirmed";
  is_confirmed = true;
}

unfoldable pub apply_mapping : List Target → Product → Stored → ProductMapping → Stored
apply_mapping targets ref_prod s pm =
    if is_text pm.match_status "confirmed" && not (is_listed pm.target_product_id s.targets)
    then elim (product_of pm.target_product_id (map (λ t. t.product) targets)) [
      | none ↦ s
      | some tgt_prod ↦ record {
        entries =
            s.entries
            ++ stored_entry ref_prod tgt_prod (category_of pm.target_product_id targets)
                pm.confidence
              ∷ [];
        references = ref_prod.id ∷ s.references;
        targets = pm.target_product_id ∷ s.targets;
      }
    ]
    else s

unfoldable pub apply_saved : List Target → Product → List ProductMapping → Stored → Stored
unfolding apply_mapping
apply_saved targets ref_prod [] s = s
apply_saved targets ref_prod (pm ∷ saved) s =
    apply_saved targets ref_prod saved (apply_mapping targets ref_prod s pm)

unfoldable pub apply_stored : List Target → World → List Product → Stored → Stored
unfolding apply_saved
apply_stored targets w [] s = s
apply_stored targets w (r ∷ refs) s =
    apply_stored targets w refs
      (apply_saved targets r (list_matches_for_reference_product r.id w) s)

-- `_product_to_item`. The price is a text before it is a number: `f"{price} {currency}".strip()`.
module _ (price_text : Option ℤ → Option String → String) where
  abbrev pub product_to_item : Product → Item
  product_to_item p = record {
    db_id = p.id;
    name = p.name;
    price = p.price;
    price_raw = price_text p.price p.currency;
    url = p.product_url;
  }

-- What phase 3 classifies against.
pub record Known : Type 0 where
  pub references : List Product
  pub targets : List Product
  pub categories : List Target
  pub confirmed : List ℕ
  pub rejected : List (ℕ × ℕ)

abbrev pub side_of : Option Product → Item → Side
side_of none i = Side.item i
side_of (some p) i = Side.product p

-- `(ref_prod_id, cand_db_id) in rejected_pairs if (ref_prod_id and cand_db_id) else False`
abbrev pub is_rejected_pair : Option Product → ℕ → List (ℕ × ℕ) → Bool
is_rejected_pair none t pairs = false
is_rejected_pair (some r) t pairs = not (r.id == 0) && not (t == 0) && has_pair r.id t pairs

abbrev pub if_id {ℓ} : {A : Type ℓ} → ℕ → Option A → Option A
if_id i o = if i == 0 then none else o

abbrev pub disabled : Bool → Option String
disabled true = some "already_confirmed_elsewhere"
disabled false = none

-- One entry of `_build_candidates`, for an item with its percentage.
abbrev pub choice_of : Known → Item → ℕ → Choice
choice_of k i percent =
    let taken = not (i.db_id == 0) && is_listed i.db_id k.confirmed in
    record {
      target = side_of (if_id i.db_id (product_of i.db_id k.targets)) i;
      category = if_id i.db_id (category_of i.db_id k.categories);
      score_percent = percent;
      can_accept = not taken;
      disabled_reason = disabled taken;
    }

-- `_build_candidates`
unfoldable pub build_candidates : Known → Option Product → List (Item × ℕ) → List Choice
build_candidates k ref_prod [] = []
build_candidates k ref_prod ((i, percent) ∷ raw) =
    let rest = build_candidates k ref_prod raw in
    if is_rejected_pair ref_prod i.db_id k.rejected then rest else choice_of k i percent ∷ rest

-- Phase 3: what is collected from the rows.
pub record Classified : Type 0 where
  pub entries : List Entry
  pub groups : List Group
  pub reference_only : List Side
  pub in_candidates : List ℕ
  pub heuristic_confirmed : List ℕ

abbrev pub nothing_classified : Classified
nothing_classified = record {
  entries = [];
  groups = [];
  reference_only = [];
  in_candidates = [];
  heuristic_confirmed = [];
}

abbrev pub or_zero : Option ℕ → ℕ
or_zero none = 0
or_zero (some n) = n

-- The ids that are marked as candidates: `if cand_db_id`.
unfoldable pub candidate_ids : List Candidate → List ℕ
candidate_ids [] = []
candidate_ids (c ∷ candidates) =
    let rest = candidate_ids candidates in if c.item.db_id == 0 then rest else c.item.db_id ∷ rest

abbrev pub heuristic_entry : Known → Option Product → Option Product → Item → Item → ℕ → Entry
heuristic_entry k ref_prod tgt_prod i j percent = record {
  reference = side_of ref_prod i;
  target = side_of tgt_prod j;
  category = elim tgt_prod [ none ↦ none | some t ↦ category_of t.id k.categories ];
  score_percent = percent;
  match_source = "heuristic_high_confidence";
  is_confirmed = false;
}

abbrev pub ids_of : Option Product → List ℕ
ids_of none = []
ids_of (some p) = p.id ∷ []

-- `(ref_prod.id, tgt_prod.id) in rejected_pairs`, where both are found.
abbrev pub both_rejected : Option Product → Option Product → List (ℕ × ℕ) → Bool
both_rejected none t pairs = false
both_rejected (some r) none pairs = false
both_rejected (some r) (some t) pairs = has_pair r.id t.id pairs

-- A matched pair of items.
unfoldable pub classify_matched : Known → Item → Item → ℕ → Classified → Classified
unfolding build_candidates
classify_matched k i j percent c =
    let ref_prod = product_of i.db_id k.references in
    let tgt_prod = product_of j.db_id k.targets in
    if both_rejected ref_prod tgt_prod k.rejected
    then record c { reference_only = c.reference_only ++ side_of ref_prod i ∷ [] }
    else if leb 85 percent
    then record c {
      entries = c.entries ++ heuristic_entry k ref_prod tgt_prod i j percent ∷ [];
      heuristic_confirmed = ids_of tgt_prod ++ c.heuristic_confirmed;
    }
    else record c {
      groups =
          c.groups
          ++ record {
            reference = side_of ref_prod i;
            candidates = build_candidates k ref_prod ((j, percent) ∷ []);
          }
            ∷ [];
      in_candidates = ids_of tgt_prod ++ c.in_candidates;
    }

unfoldable pub classify_ambiguous : Known → Item → List Candidate → Classified → Classified
unfolding build_candidates candidate_ids
classify_ambiguous k i candidates c =
    let ref_prod = product_of i.db_id k.references in
    record c {
      groups =
          c.groups
          ++ record {
            reference = side_of ref_prod i;
            candidates =
                build_candidates k ref_prod (map (λ d. (d.item, d.score_percent)) candidates);
          }
            ∷ [];
      in_candidates = candidate_ids candidates ++ c.in_candidates;
    }

-- A row by its status and its two items; a matched row has both.
unfoldable pub classify_row : Known → Row → Classified → Classified
unfolding classify_matched classify_ambiguous
classify_row k row c = elim row.main [
  | none ↦ c
  | some i ↦ elim row.status [
    | matched ↦ elim row.other [
      | none ↦ c
      | some j ↦ classify_matched k i j (or_zero row.score_percent) c
    ]
    | ambiguous ↦ classify_ambiguous k i row.candidates c
    | no_match ↦ elim row.other [
      | none ↦ record c {
        reference_only = c.reference_only ++ side_of (product_of i.db_id k.references) i ∷ [];
      }
      | some j ↦ c
    ]
  ]
]

unfoldable pub classify : Known → List Row → Classified → Classified
unfolding classify_row
classify k [] c = c
classify k (row ∷ rows) c = classify k rows (classify_row k row c)

-- The result; the summary is the lengths of its lists.
pub record Compared : Type 0 where
  pub confirmed_matches : List Entry
  pub candidate_groups : List Group
  pub reference_only : List Side
  pub target_only : List Target

-- Phase 4.
unfoldable pub target_only_of : Stored → Classified → List Target → List Target
target_only_of s c targets =
    select
      (λ t.
        not (is_listed t.product.id s.targets)
        && not (is_listed t.product.id c.heuristic_confirmed)
        && not (is_listed t.product.id c.in_candidates))
      targets

abbrev pub no_stored : Stored
no_stored = record { entries = []; references = []; targets = [] }

-- `[p for p in products if p.id not in ids]`
abbrev pub remaining : List ℕ → List Product → List Product
remaining ids products = select (λ p. not (is_listed p.id ids)) products

-- The result of phase 1.
abbrev pub stored_of : List Product → List Target → World → Stored
stored_of refs targets w = apply_stored targets w refs no_stored

abbrev pub known_of : List Product → List Target → World → Known
known_of refs targets w = record {
  references = remaining (stored_of refs targets w).references refs;
  targets = remaining (stored_of refs targets w).targets (map (λ t. t.product) targets);
  categories = targets;
  confirmed = get_all_confirmed_target_ids (map (λ t. t.product.id) targets) w;
  rejected = get_rejected_pairs_for_refs (map (λ r. r.id) refs) w;
}

module _ ⦃e : Engine⦄ where
  -- The products of the selected target categories, in their order.
  unfoldable pub targets_of : List Category → World → List Target
  targets_of [] w = []
  targets_of (c ∷ categories) w =
      map (λ p. record { product = p; category = c }) (list_products_by_category c.id w)
      ++ targets_of categories w

module _ ⦃e : Engine⦄ ⦃m : Matcher⦄ (price_text : Option ℤ → Option String → String) where
  abbrev items_of : List Product → List Item
  items_of products = map (product_to_item price_text) products

  -- Phases 2 and 3.
  unfoldable pub classified_of : List Product → List Target → World → Classified
  unfolding apply_stored classify
  classified_of refs targets w =
      let k = known_of refs targets w in
      classify k (heuristic_match (items_of k.references) (items_of k.targets)) nothing_classified

  -- `_compare_multi` on the products that were loaded.
  unfoldable pub compare_products : List Product → List Target → World → Compared
  unfolding classified_of target_only_of
  compare_products refs targets w =
      let stored = stored_of refs targets w in
      let c = classified_of refs targets w in
      record {
        confirmed_matches = stored.entries ++ c.entries;
        candidate_groups = c.groups;
        reference_only = c.reference_only;
        target_only = target_only_of stored c targets;
      }

  unfoldable pub compare_multi : Category → List Category → World → Compared
  unfolding compare_products targets_of
  compare_multi ref_cat categories w =
      compare_products (list_products_by_category ref_cat.id w) (targets_of categories w) w
