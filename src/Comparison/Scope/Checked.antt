-- ===== src/Comparison/Scope/Checked.antt =====
-- `validate_target_scope` and `get_eligible_target_products`: what they check, and that what the one
-- offers the other accepts.
use managment2_main.Session.{raised, World, ok, ◌>>=◌}
use managment2_main.Models.{category_not_mapped}
use managment2_main.Base.{
  ℕ, ◌≡◌, refl, ◌↔◌, Bool, true, false, ◌&&◌, none, some, List, [], ◌∷◌, map, Bool-cases,
  Option-cases, inl, inr, if◌then◌else◌, and-true,
}
use managment2_main.Models.Catalogue.{Product}
use managment2_main.Gap.{is_listed}
use managment2_main.Catalogue.{product_row}
use managment2_main.Catalogue.Categories.{list_mapped_target_categories}
use managment2_main.Catalogue.Products.{in_categories}
use managment2_main.Catalogue.Linking.{require}
use managment2_main.Comparison.Scope.{
  resolve_valid_mapped_target_cat_ids, check_scope, validate_target_scope,
}

abbrev pub all_listed : List ℕ → List ℕ → Bool
all_listed valid [] = true
all_listed valid (i ∷ ids) = is_listed i valid && all_listed valid ids

-- The target categories that are mapped to a category.
abbrev pub mapped_ids : ℕ → World → List ℕ
mapped_ids category w =
    map (λ m. m.target_category_id) (list_mapped_target_categories category none w)

-- The reference product is there and has a category, and every given category is mapped to it.
pub record Scoped (reference_product : ℕ) (ids : List ℕ) (w : World) : Type 0 where
  pub reference : Product
  pub found : product_row reference_product w ≡ some reference
  pub category : ℕ
  pub categorised : reference.category_id ≡ some category
  pub mapped : all_listed (mapped_ids category w) ids ≡ true

-- Besides, the target product is there, in one of the given categories.
pub record InScope (reference_product target_product : ℕ) (ids : List ℕ) (w : World) : Type 0 where
  pub scoped : Scoped reference_product ids w
  pub target : Product
  pub there : product_row target_product w ≡ some target
  pub inside : in_categories ids target ≡ true

pub check_scope_ok :
    (c : ℕ) (valid ids : List ℕ) (w : World)
    → all_listed valid ids ≡ true
    → check_scope c valid ids w ≡ (ok tt, w)
unfolding check_scope require ◌>>=◌
check_scope_ok c valid [] w h = refl
check_scope_ok c valid (i ∷ ids) w h =
    let (here, rest) = and-true (is_listed i valid) (all_listed valid ids) h in
    rw here (check_scope_ok c valid ids w rest)

-- The first category that is not mapped is the one that the error names.
abbrev first_unmapped : List ℕ → List ℕ → ℕ
first_unmapped valid [] = 0
first_unmapped valid (i ∷ ids) = if is_listed i valid then first_unmapped valid ids else i

check_scope_refuses :
    (c : ℕ) (valid ids : List ℕ) (w : World)
    → all_listed valid ids ≡ false
    → check_scope c valid ids w ≡ (raised (category_not_mapped (first_unmapped valid ids) c), w)
unfolding check_scope require ◌>>=◌
check_scope_refuses c valid [] w h = absurd (cc)
check_scope_refuses c valid (i ∷ ids) w h = elim (Bool-cases (is_listed i valid)) [
  | inl here ↦ rw here (check_scope_refuses c valid ids w (rw here at h))
  | inr out ↦ rw out refl
]

-- What passes is in scope.
pub validate_accepts :
    (r t : ℕ) (ids : List ℕ) (w : World)
    → InScope r t ids w
    → validate_target_scope r t ids w ≡ (ok tt, w)
unfolding validate_target_scope resolve_valid_mapped_target_cat_ids ◌>>=◌ require
validate_accepts r t ids w s =
    rw (s.scoped.found, s.scoped.categorised)
      (rw (check_scope_ok s.scoped.category (mapped_ids s.scoped.category w) ids w s.scoped.mapped)
        (rw (s.there, s.inside) refl))

validate_sound :
    (r t : ℕ) (ids : List ℕ) (w : World)
    → (validate_target_scope r t ids w).0 ≡ ok tt
    → InScope r t ids w
unfolding validate_target_scope resolve_valid_mapped_target_cat_ids ◌>>=◌ require
validate_sound r t ids w h = elim (Option-cases (product_row r w)) [
  | inl missing ↦ absurd (cc (rw missing at h))
  | inr (reference, found) ↦ elim (Option-cases reference.category_id) [
    | inl uncategorised ↦ absurd (cc (rw (found, uncategorised) at h))
    | inr (category, categorised) ↦ elim (Bool-cases (all_listed (mapped_ids category w) ids)) [
      | inr unmapped ↦ absurd (
          cc (
            rw
              (
                found,
                categorised,
                check_scope_refuses category (mapped_ids category w) ids w unmapped,
              )
              at h))
      | inl mapped ↦ elim (Option-cases (product_row t w)) [
        | inl nothing ↦ absurd (
            cc (
              rw
                (
                  found,
                  categorised,
                  check_scope_ok category (mapped_ids category w) ids w mapped,
                  nothing,
                )
                at h))
        | inr (target, there) ↦ elim (Bool-cases (in_categories ids target)) [
          | inr outside ↦ absurd (
              cc (
                rw
                  (
                    found,
                    categorised,
                    check_scope_ok category (mapped_ids category w) ids w mapped,
                    there,
                    outside,
                  )
                  at h))
          | inl inside ↦ record {
            scoped = record {
              reference = reference;
              found = found;
              category = category;
              categorised = categorised;
              mapped = mapped;
            };
            target = target;
            there = there;
            inside = inside;
          }
        ]
      ]
    ]
  ]
]

-- The check of a manual match returns exactly where the reference product is there and has a
-- category, all given categories are mapped to it, and the target product is there in one of the
-- given categories.
pub validate_target_scope-InScope :
    (r t : ℕ) (ids : List ℕ) (w : World)
    → ((validate_target_scope r t ids w).0 ≡ ok tt) ↔ InScope r t ids w
validate_target_scope-InScope r t ids w =
    (validate_sound r t ids w, λ s. rw (validate_accepts r t ids w s) refl)
