-- ===== src/Comparison/Tracked.antt =====
-- Phase 1 of the comparison keeps the ids of the targets that its entries use.
use managment2_main.Comparison.{
  Target, Stored, Side, Entry, product_of, apply_mapping, apply_saved, apply_stored,
}
use managment2_main.Models.{is_text}
use managment2_main.Base.{
  ℕ, ◌≡◌, refl, Bool, true, false, not, ◌&&◌, ◌||◌, List, [], ◌∷◌, ◌++◌, map, Each, Each-append,
  arith, Bool-cases, Option-cases, inl, inr, ==_refl,
}
use managment2_main.Models.Catalogue.{Product, ProductMapping}
use managment2_main.Session.{World}
use managment2_main.Gap.{is_listed}
use managment2_main.Catalogue.Mappings.{list_matches_for_reference_product}
use managment2_main.Comparison.Rejected.{product_of-id}

-- The id of a target product is in the list.
unfoldable pub Tracked : List ℕ → Side → Type 0
Tracked ids side = (t : Product) → side ≡ Side.product t → is_listed t.id ids ≡ true

listed-append :
    (i : ℕ) (xs ys : List ℕ) → is_listed i (xs ++ ys) ≡ (is_listed i xs || is_listed i ys)
listed-append i [] ys = refl
listed-append i (x ∷ xs) ys = ground (arith, listed-append i xs ys)

pub or_true : (b : Bool) → (b || true) ≡ true
or_true true = refl
or_true false = refl

pub Tracked-more : (more ids : List ℕ) (side : Side) → Tracked ids side → Tracked (more ++ ids) side
unfolding Tracked
Tracked-more more ids side h t e =
    rw (listed-append t.id more ids, h t e) (or_true (is_listed t.id more))

side_injective : (t t' : Product) → Side.product t ≡ Side.product t' → t ≡ t'
side_injective t t' e = cc

Tracked-own : (i : ℕ) (t : Product) (ids : List ℕ) → t.id ≡ i → Tracked (i ∷ ids) (Side.product t)
unfolding Tracked
Tracked-own i t ids same t' e =
    let here : t ≡ t' = side_injective t t' e in rw (← here, same, ==_refl i) refl

pub Each-map :
    {A : Type 0} {P Q : A → Type 0} (xs : List A) → ((x : A) → P x → Q x) → Each P xs → Each Q xs
Each-map [] f Each.nil = Each.nil
Each-map (x ∷ xs) f (Each.cons h rest) = Each.cons (f x h) (Each-map xs f rest)

-- Phase 1 tracks the targets of its entries.
abbrev pub StoredTracked : Stored → Type 0
StoredTracked s = Each (λ (e : Entry). Tracked s.targets e.target) s.entries

apply_mapping-Tracked :
    (targets : List Target) (r : Product) (s : Stored) (pm : ProductMapping)
    → StoredTracked s
    → StoredTracked (apply_mapping targets r s pm)
unfolding apply_mapping Tracked
apply_mapping-Tracked targets r s pm h =
    elim (Bool-cases
      (is_text pm.match_status "confirmed" && not (is_listed pm.target_product_id s.targets))) [
        | inr skip ↦ rw skip h
        | inl take ↦
            elim (Option-cases (product_of pm.target_product_id (map (λ t. t.product) targets))) [
              | inl missing ↦ rw (take, missing) h
              | inr (t, found) ↦
                  rw (take, found)
                    (Each-append s.entries _
                      (Each-map s.entries
                        (λ e k. Tracked-more (pm.target_product_id ∷ []) s.targets e.target k) h)
                      (Each.cons
                        (Tracked-own pm.target_product_id t s.targets (
                          product_of-id pm.target_product_id (map (λ t. t.product) targets) t
                            found))
                        Each.nil))
            ]
      ]

apply_saved-Tracked :
    (targets : List Target) (r : Product) (saved : List ProductMapping) (s : Stored)
    → StoredTracked s
    → StoredTracked (apply_saved targets r saved s)
unfolding apply_saved
apply_saved-Tracked targets r [] s h = h
apply_saved-Tracked targets r (pm ∷ saved) s h =
    apply_saved-Tracked targets r saved (apply_mapping targets r s pm)
      (apply_mapping-Tracked targets r s pm h)

pub apply_stored-Tracked :
    (targets : List Target) (w : World) (refs : List Product) (s : Stored)
    → StoredTracked s
    → StoredTracked (apply_stored targets w refs s)
unfolding apply_stored
apply_stored-Tracked targets w [] s h = h
apply_stored-Tracked targets w (r ∷ refs) s h =
    apply_stored-Tracked targets w refs
      (apply_saved targets r (list_matches_for_reference_product r.id w) s)
      (apply_saved-Tracked targets r (list_matches_for_reference_product r.id w) s h)
