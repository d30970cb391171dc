-- ===== src/Gap/Groups.antt =====
-- The groups and the summary of the gap view.
use managment2_main.Base.{
  not, ◌&&◌, String, str_eq, eq_iff, length, ℕ, suc, ◌≡◌, refl, sym, ap, Bool, true, false, Option,
  none, some, List, [], ◌∷◌, ◌++◌, find, ==_iff, ==_refl, Bool-cases, inl, inr, if◌then◌else◌,
  arith, map, tally, select, ◌+◌, ◌∙◌,
}
use mathlib.Core.List.{append-nil, append_assoc}
use managment2_main.Gap.View.{
  Enriched, GroupItem, Group, category_key, same_key, as_group_item, add_to_groups,
  group_by_category, group_from, build_summary,
}

same_key_refl : (a : Option ℕ) → same_key a a ≡ true
same_key_refl none = refl
same_key_refl (some a) = ==_refl a

same_key_iff : (a b : Option ℕ) → same_key a b ≡ true → a ≡ b
same_key_iff none none h = refl
same_key_iff none (some b) h = absurd (cc)
same_key_iff (some a) none h = absurd (cc)
same_key_iff (some a) (some b) h = ap some (sym ((==_iff b a).0 h))

-- An item, a group of this category.
abbrev pub in_category : Option ℕ → Enriched → Bool
in_category k i = same_key (category_key i.target_category) k

abbrev pub has_key : Option ℕ → Group → Bool
has_key k g = same_key (category_key g.target_category) k

-- The items and the count that the groups give a category.
unfoldable pub items_of : Option ℕ → List Group → List GroupItem
items_of k groups = elim (find (has_key k) groups) [ none ↦ [] | some g ↦ g.items ]

unfoldable pub count_of : Option ℕ → List Group → ℕ
count_of k groups = elim (find (has_key k) groups) [ none ↦ 0 | some g ↦ g.count ]

-- The first group decides, or the rest does.
find_here :
    (k : Option ℕ) (g : Group) (groups : List Group)
    → has_key k g ≡ true
    → find (has_key k) (g ∷ groups) ≡ some g
unfolding find
find_here k g groups h = rw h refl

find_nil : (k : Option ℕ) → find (has_key k) [] ≡ none
unfolding find
find_nil k = refl

find_later :
    (k : Option ℕ) (g : Group) (groups : List Group)
    → has_key k g ≡ false
    → find (has_key k) (g ∷ groups) ≡ find (has_key k) groups
unfolding find
find_later k g groups h = rw h refl

abbrev extended : Enriched → Group → Group
extended i g = record g { count = suc g.count; items = g.items ++ as_group_item i ∷ [] }

abbrev single : Enriched → Group
single i = record { target_category = i.target_category; count = 1; items = as_group_item i ∷ [] }

-- The group of a category after a round: the item's own category has it extended or opened.
abbrev joined : Enriched → Option Group → Option Group
joined i none = some (single i)
joined i (some g) = some (extended i g)

find-add_to_groups :
    (k : Option ℕ) (i : Enriched) (groups : List Group)
    → find (has_key k) (add_to_groups i groups)
      ≡ (if in_category k i then joined i (find (has_key k) groups) else find (has_key k) groups)
unfolding add_to_groups
find-add_to_groups k i [] = elim (Bool-cases (in_category k i)) [
  | inl this ↦ rw (this, find_here k (single i) [] this, find_nil k) refl
  | inr other ↦ rw (other, find_later k (single i) [] other) refl
]
find-add_to_groups k i (g ∷ groups) =
    elim (Bool-cases (same_key (category_key g.target_category) (category_key i.target_category))) [
      | inl joins ↦
          let here : category_key g.target_category ≡ category_key i.target_category =
            same_key_iff (category_key g.target_category) (category_key i.target_category) joins in
          elim (Bool-cases (has_key k g)) [
            | inl this ↦
                let mine : in_category k i ≡ true = rw (← here) this in
                rw (joins, mine, find_here k (extended i g) groups this, find_here k g groups this)
                  refl
            | inr other ↦
                let mine : in_category k i ≡ false = rw (← here) other in
                rw
                  (
                    joins,
                    mine,
                    find_later k (extended i g) groups other,
                    find_later k g groups other,
                  )
                  refl
          ]
      | inr apart ↦ elim (Bool-cases (has_key k g)) [
        | inr other ↦
            rw (apart, find_later k g (add_to_groups i groups) other, find_later k g groups other)
              (find-add_to_groups k i groups)
        | inl this ↦ elim (Bool-cases (in_category k i)) [
          | inr elsewhere ↦
              rw
                (
                  apart,
                  elsewhere,
                  find_here k g (add_to_groups i groups) this,
                  find_here k g groups this,
                )
                refl
          | inl mine ↦
              let a = same_key_iff (category_key g.target_category) k this in
              let b = same_key_iff (category_key i.target_category) k mine in
              let c : same_key (category_key g.target_category) (category_key i.target_category)
                  ≡ true =
                rw (a, b) (same_key_refl k) in
              absurd (cc (apart, c))
        ]
      ]
    ]

items_of-add_to_groups :
    (k : Option ℕ) (i : Enriched) (groups : List Group)
    → items_of k (add_to_groups i groups)
      ≡ (if in_category k i then items_of k groups ++ as_group_item i ∷ [] else items_of k groups)
unfolding items_of
items_of-add_to_groups k i groups =
    rw (items_of, find-add_to_groups k i groups) (ground (arith, find (has_key k) groups))

count_of-add_to_groups :
    (k : Option ℕ) (i : Enriched) (groups : List Group)
    → count_of k (add_to_groups i groups)
      ≡ (if in_category k i then suc (count_of k groups) else count_of k groups)
unfolding count_of
count_of-add_to_groups k i groups =
    rw (count_of, find-add_to_groups k i groups) (ground (arith, find (has_key k) groups))

items_of-group_from :
    (k : Option ℕ) (items : List Enriched) (groups : List Group)
    → items_of k (group_from groups items)
      ≡ items_of k groups ++ map as_group_item (select (in_category k) items)
unfolding group_from select
items_of-group_from k [] groups = sym (append-nil (items_of k groups))
items_of-group_from k (i ∷ items) groups =
    items_of-group_from k items (add_to_groups i groups)
    ∙ rw (items_of-add_to_groups k i groups) (elim (Bool-cases (in_category k i)) [
      | inl mine ↦ rw mine (
          append_assoc (items_of k groups) (as_group_item i ∷ [])
            (map as_group_item (select (in_category k) items)))
      | inr other ↦ rw other refl
    ])

count_of-group_from :
    (k : Option ℕ) (items : List Enriched) (groups : List Group)
    → count_of k (group_from groups items) ≡ count_of k groups + tally (in_category k) items
unfolding group_from tally
count_of-group_from k [] groups = omega arith
count_of-group_from k (i ∷ items) groups =
    ground (
      arith,
      count_of-group_from k items (add_to_groups i groups),
      count_of-add_to_groups k i groups,
    )

-- Each category's group holds exactly the items of that category, in their order, with their number;
-- a category with no item has no items and the count 0.
pub group_by_category_lem :
    (k : Option ℕ) (items : List Enriched)
    → (items_of k (group_by_category items) ≡ map as_group_item (select (in_category k) items))
      × (count_of k (group_by_category items) ≡ tally (in_category k) items)
unfolding group_by_category items_of count_of find
group_by_category_lem k items =
    (items_of-group_from k items [], ground (arith, count_of-group_from k items []))

-- Items that are neither in progress nor done.
abbrev pub is_new_item : Enriched → Bool
is_new_item i = not (str_eq i.status "in_progress") && not (str_eq i.status "done")

one_status : (t : String) → (str_eq t "in_progress" && str_eq t "done") ≡ false
one_status t = elim (Bool-cases (str_eq t "in_progress")) [
  | inr other ↦ rw other refl
  | inl here ↦ let e : t ≡ "in_progress" = (eq_iff t "in_progress").0 here in rw e refl
]

tally-statuses :
    (items : List Enriched)
    → length items
      ≡ tally is_new_item items
        + tally (λ i. str_eq i.status "in_progress") items
        + tally (λ i. str_eq i.status "done") items
unfolding tally
tally-statuses [] = refl
tally-statuses (i ∷ items) = ground (arith, tally-statuses items, one_status i.status)

-- The summary counts every item once: as in progress, as done, or as new where it is neither.
pub build_summary_lem :
    (items : List Enriched)
    → ((build_summary items).new + (build_summary items).in_progress + (build_summary items).done
        ≡ (build_summary items).total)
      × ((build_summary items).new ≡ tally is_new_item items)
unfolding build_summary
build_summary_lem items = (omega (arith, tally-statuses items), omega (arith, tally-statuses items))
