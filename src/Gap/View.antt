-- ===== src/Gap/View.antt =====
-- `GapService.build_gap_view` of pricewatch/services/gap_service.py.
--
-- Parameters: `lower` is `str.lower`, `strip` is `str.strip`, `contains` is `in` on texts. The metadata
-- that the view copies from the comparison's result is left out.
use managment2_main.Base.{
  ℕ, zero, suc, ◌-◌, String, Bool, true, false, ◌||◌, Option, none, some, List, [], ◌∷◌, ◌++◌, map,
  length, tally, select, str_eq, if◌then◌else◌, is_id,
}
use managment2_main.Models.{category_not_found}
use managment2_main.Session.{World, Result, Action, pure, raise, gets, ◌>>=◌}
use managment2_main.Gap.{bulk_get_gap_statuses, dict_get}

pub record GapProduct : Type 0 where
  pub id : Option ℕ
  pub name : Option String
  pub is_available : Bool

pub record GapCategory : Type 0 where
  pub id : Option ℕ
  pub name : Option String

-- An item of the comparison's `target_only`.
pub record TargetOnly : Type 0 where
  pub target_product : Option GapProduct
  pub target_category : Option GapCategory

pub record Enriched : Type 0 where
  pub target_product : Option GapProduct
  pub target_category : Option GapCategory
  pub status : String

pub record Summary : Type 0 where
  pub total : ℕ
  pub new : ℕ
  pub in_progress : ℕ
  pub done : ℕ

pub record GroupItem : Type 0 where
  pub target_product : Option GapProduct
  pub status : String

pub record Group : Type 0 where
  pub target_category : Option GapCategory
  pub count : ℕ
  pub items : List GroupItem

pub record GapView : Type 0 where
  pub summary : Summary
  pub groups : List Group

-- The id of an item's product where there is one that counts as true.
abbrev pub product_id : Option GapProduct → Option ℕ
product_id none = none
product_id (some p) = elim p.id [ none ↦ none | some zero ↦ none | some (suc n) ↦ some (suc n) ]

abbrev pub keep_id : Option ℕ → List ℕ → List ℕ
keep_id none ids = ids
keep_id (some i) ids = i ∷ ids

unfoldable pub product_ids : List TargetOnly → List ℕ
product_ids [] = []
product_ids (item ∷ items) = keep_id (product_id item.target_product) (product_ids items)

abbrev pub or_new : Option String → String
or_new none = "new"
or_new (some status) = status

-- `persisted_statuses.get(tgt_id, "new") if tgt_id else "new"`
abbrev pub status_for : List (ℕ × String) → Option ℕ → String
status_for statuses none = "new"
status_for statuses (some i) = or_new (dict_get i statuses)

abbrev pub enrich : List (ℕ × String) → TargetOnly → Enriched
enrich statuses item = record {
  target_product = item.target_product;
  target_category = item.target_category;
  status = status_for statuses (product_id item.target_product);
}

-- `_build_summary`
unfoldable pub build_summary : List Enriched → Summary
build_summary items = record {
  total = length items;
  new =
      length items
      - tally (λ i. str_eq i.status "in_progress") items
      - tally (λ i. str_eq i.status "done") items;
  in_progress = tally (λ i. str_eq i.status "in_progress") items;
  done = tally (λ i. str_eq i.status "done") items;
}

-- The key of a group: the category's id, `None` where there is none.
abbrev pub category_key : Option GapCategory → Option ℕ
category_key none = none
category_key (some c) = c.id

abbrev pub same_key : Option ℕ → Option ℕ → Bool
same_key none none = true
same_key none (some k) = false
same_key (some k) o = is_id o k

abbrev pub as_group_item : Enriched → GroupItem
as_group_item i = record { target_product = i.target_product; status = i.status }

-- One round of `_group_by_category`: the groups in the order of their first items.
unfoldable pub add_to_groups : Enriched → List Group → List Group
add_to_groups i [] =
    record { target_category = i.target_category; count = 1; items = as_group_item i ∷ [] } ∷ []
add_to_groups i (g ∷ groups) =
    if same_key (category_key g.target_category) (category_key i.target_category)
    then record g { count = suc g.count; items = g.items ++ as_group_item i ∷ [] } ∷ groups
    else g ∷ add_to_groups i groups

unfoldable pub group_from : List Group → List Enriched → List Group
group_from groups [] = groups
group_from groups (i ∷ items) = group_from (add_to_groups i groups) items

-- `_group_by_category`
unfoldable pub group_by_category : List Enriched → List Group
unfolding group_from
group_by_category items = group_from [] items

-- `only_available` is a filter where it is `True`.
abbrev pub is_available_item : Enriched → Bool
is_available_item i = elim i.target_product [ none ↦ false | some p ↦ p.is_available ]

unfoldable pub filter_available : Option Bool → List Enriched → List Enriched
filter_available (some true) items = select is_available_item items
filter_available _ items = items

abbrev pub default_statuses : List String
default_statuses = "new" ∷ "in_progress" ∷ []

-- `statuses` where it is given and not empty.
abbrev pub chosen_statuses : Option (List String) → List String
chosen_statuses none = default_statuses
chosen_statuses (some []) = default_statuses
chosen_statuses (some (s ∷ rest)) = s ∷ rest

abbrev pub is_chosen : List String → String → Bool
is_chosen [] s = false
is_chosen (t ∷ rest) s = str_eq t s || is_chosen rest s

module _ (strip lower : String → String) (contains : String → String → Bool) where
  abbrev pub name_of : Enriched → String
  name_of i = elim i.target_product [ none ↦ "" | some p ↦ elim p.name [ none ↦ "" | some n ↦ n ] ]

  unfoldable pub filter_search : Option String → List Enriched → List Enriched
  filter_search none items = items
  filter_search (some q) items =
      if str_eq q ""
      then items
      else select (λ i. contains (lower (strip q)) (lower (name_of i))) items

  unfoldable pub visible_items :
      Option String → Option Bool → Option (List String) → List Enriched → List Enriched
  visible_items sought only_available statuses items =
      select (λ i. is_chosen (chosen_statuses statuses) i.status)
        (filter_search sought (filter_available only_available items))

  unfoldable pub gap_view :
      Option String → Option Bool → Option (List String) → List Enriched → GapView
  gap_view sought only_available statuses items = record {
    summary = build_summary items;
    groups = group_by_category (visible_items sought only_available statuses items);
  }

  -- `known` is `get_category` for the reference category, `compare` the comparison, which may refuse.
  unfoldable pub build_gap_view :
      (World → Bool)
      → (World → Result (List TargetOnly))
      → ℕ
      → Option String
      → Option Bool
      → Option (List String)
      → Action GapView
  unfolding ◌>>=◌
  build_gap_view known compare category sought only_available statuses = do
    found ← gets known
    if found
        then (do
          target_only ← (λ w. (compare w, w))
          persisted ← gets (bulk_get_gap_statuses category (product_ids target_only))
          pure (gap_view sought only_available statuses (map (enrich persisted) target_only)))
        else raise (category_not_found category)
