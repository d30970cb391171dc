-- ===== src/Tests/Matches.antt =====
-- The theorems on matching and comparison at concrete products.
use mathlib.Core.List.{mem-cons_self}
use managment2_main.Base.{
  ◌&&◌, ◌==◌, select, ℕ, ◌+◌, ◌≤◌, ◌≡◌, refl, ◌↔◌, String, Option, false, none, some, List, [], ◌∷◌,
  map, tally, arith, Each, find,
}
use managment2_main.Comparison.{
  Side, product_of, Known, classify, nothing_classified, target_only_of, no_stored,
  build_candidates, candidate_ids, compare_products, classified_of,
}
use managment2_main.Matching.Score.{token_bonus, bonus, penalty, pair_score, is_rejected}
use managment2_main.Matching.{Prepared, Item}
use managment2_main.Matching.Pairing.{
  match_item, pool_of, decide, sort_scored, none_pool, MatchStatus, matched, ambiguous, Row,
  heuristic_match,
}
use managment2_main.Query.{filter_by}
use managment2_main.Comparison.Scope.{
  resolve_valid_mapped_target_cat_ids, check_scope, validate_target_scope,
  get_eligible_target_products,
}
use managment2_main.Catalogue.Linking.{require}
use managment2_main.Catalogue.Products.{
  search_products_by_categories, is_eligible, confirmed_targets, is_searched, rejected_targets,
}
use managment2_main.Models.Catalogue.{Product}
use managment2_main.Session.{ok}
use managment2_main.Sample.{sample_engine, sample_laws}
use managment2_main.Sample.Shop.{
  shop_world, main_stick, other_stick, other_glove, targets, sample_matcher, item_of, no_price,
  main_sticks,
}
use managment2_main.Matching.Once.{mains, mains-heuristic_match}
use managment2_main.Matching.Fit.{Fits, heuristic_match-Fits}
use managment2_main.Catalogue.{product_row}
use managment2_main.Catalogue.Categories.{list_mapped_target_categories}
use managment2_main.Catalogue.Mappings.{
  get_rejected_pairs_for_refs, get_conflicting_confirmed_mapping,
}
use managment2_main.Comparison.Accounts.{Unique}
use managment2_main.Comparison.Reported.{is_product, confirms, proposes, compare_products_accounts}
use managment2_main.Comparison.Rejected.{NoRejected, classified_of-NoRejected}
use managment2_main.Comparison.Disjoint.{Disjoint, compare_products-Disjoint}
use managment2_main.Comparison.Scope.Checked.{Scoped, InScope, validate_target_scope-InScope}
use managment2_main.Comparison.Scope.Offered.{eligible_confirmable}

abbrev references : List Item
references = item_of 1 "bauer stick" ∷ item_of 4 "ccm helmet" ∷ []

abbrev candidates : List Item
candidates = item_of 2 "bauer stick" ∷ item_of 3 "ccm glove" ∷ []

mains-heuristic_match_example : mains (heuristic_match references candidates) ≡ references
mains-heuristic_match_example = mains-heuristic_match references candidates

heuristic_match-Fits_example : Each Fits (heuristic_match references candidates)
heuristic_match-Fits_example = heuristic_match-Fits references candidates

one_reference : Unique (main_stick ∷ [])
unfolding tally
one_reference i = ground arith

-- How often the one reference product is reported.
compare_products_accounts_example :
    let r = compare_products no_price (main_stick ∷ []) targets shop_world in
    tally (proposes (is_product 1)) r.confirmed_matches
      + tally (λ g. is_product 1 g.reference) r.candidate_groups
      + tally (is_product 1) r.reference_only
    ≡ tally
        (λ p. is_product 1 (Side.product p) && (tally (confirms p.id) r.confirmed_matches == 0))
        (main_stick ∷ [])
compare_products_accounts_example =
    compare_products_accounts no_price (main_stick ∷ []) targets shop_world one_reference
      (is_product 1)

classified_of-NoRejected_example :
    NoRejected
      (get_rejected_pairs_for_refs (1 ∷ []) shop_world)
      (classified_of no_price (main_stick ∷ []) targets shop_world)
classified_of-NoRejected_example =
    classified_of-NoRejected no_price (main_stick ∷ []) targets shop_world

compare_products-Disjoint_example :
    Disjoint (compare_products no_price (main_stick ∷ []) targets shop_world)
compare_products-Disjoint_example =
    compare_products-Disjoint no_price (main_stick ∷ []) targets shop_world

validate_target_scope-InScope_example :
    ((validate_target_scope 1 2 (20 ∷ []) shop_world).0 ≡ ok tt) ↔ InScope 1 2 (20 ∷ []) shop_world
validate_target_scope-InScope_example = validate_target_scope-InScope 1 2 (20 ∷ []) shop_world

scoped : Scoped 1 (20 ∷ []) shop_world
unfolding product_row find list_mapped_target_categories filter_by select
scoped = record {
  reference = main_stick;
  found = refl;
  category = 10;
  categorised = refl;
  mapped = refl;
}

unique : (i : ℕ) → tally (λ (q : Product). q.id == i) shop_world.catalogue.products ≤ 1
unfolding tally
unique i = ground arith

-- The rejected glove is not offered.
offered :
    (get_eligible_target_products 1 (20 ∷ []) none 50 false shop_world).0 ≡ ok (other_stick ∷ [])
unfolding sample_engine get_eligible_target_products resolve_valid_mapped_target_cat_ids product_row
    find check_scope require list_mapped_target_categories filter_by select
    search_products_by_categories is_eligible confirmed_targets is_searched rejected_targets
offered = refl

eligible_confirmable_example :
    ((validate_target_scope 1 2 (20 ∷ []) shop_world).0 ≡ ok tt)
    × (get_conflicting_confirmed_mapping 1 2 shop_world ≡ none)
eligible_confirmable_example =
    eligible_confirmable sample_laws 1 (20 ∷ []) none 50 false shop_world scoped unique
      (other_stick ∷ []) offered other_stick mem-cons_self

-- Prepared items that differ in their brand only.
abbrev prepared : Option String → Prepared
prepared brand = record {
  index = 0;
  raw = item_of 1 "stick";
  norm = "stick";
  price_uah = none;
  brand = brand;
  level = none;
  tokens = [];
  flex = none;
  hand = none;
  product_type = none;
  sport_context = none;
  goalie = false;
  curve = none;
  skate_fit = none;
  size_tokens = [];
  accessory_flag = false;
}

abbrev statuses : Option String → List MatchStatus
statuses brand = map (λ r. r.status) (match_item (prepared brand) (prepared brand ∷ [])).0

-- A title of a known brand is matched with the same title.
branded_matched : statuses (some "BAUER") ≡ matched ∷ []
unfolding sample_matcher match_item pool_of decide sort_scored pair_score is_rejected select
    token_bonus bonus penalty
branded_matched = refl

-- Without a brand the same title is ambiguous: the pool holds the target twice.
unbranded_ambiguous : statuses none ≡ ambiguous ∷ ambiguous ∷ []
unfolding sample_matcher match_item pool_of decide sort_scored pair_score is_rejected none_pool
    select token_bonus bonus penalty
unbranded_ambiguous = refl

-- A rejected candidate of an ambiguous row is in no block of the result.
abbrev glove_candidate : Row
glove_candidate = record {
  status = ambiguous;
  color = "blue";
  main = some (item_of 1 "stick");
  other = none;
  score = none;
  score_percent = none;
  gap = none;
  candidates =
      record {
        score = record { gain = 70000000; loss = 0 };
        score_percent = 70;
        item = item_of 3 "glove";
      }
      ∷ [];
}

abbrev glove_known : Known
glove_known = record {
  references = main_stick ∷ [];
  targets = other_glove ∷ [];
  categories = [];
  confirmed = [];
  rejected = (1, 3) ∷ [];
}

rejected_candidate_vanishes :
    let c = classify glove_known (glove_candidate ∷ []) nothing_classified in
    (map (λ g. g.candidates) c.groups ≡ [] ∷ [])
    × (target_only_of no_stored c (record { product = other_glove; category = main_sticks } ∷ [])
        ≡ [])
unfolding classify build_candidates target_only_of candidate_ids select product_of
rejected_candidate_vanishes = (refl, refl)
