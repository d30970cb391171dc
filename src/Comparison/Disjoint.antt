-- ===== src/Comparison/Disjoint.antt =====
-- A target product of a match or of a list of candidates is not among the target-only products.
use managment2_main.Comparison.{
  Compared, Target, Classified, nothing_classified, Stored, no_stored, Side, Entry, Group, Choice,
  classified_of, known_of, stored_of, product_to_item, target_only_of, compare_products,
}
use managment2_main.Base.{
  ℕ, ℤ, String, ◌≡◌, refl, Bool, true, false, not, ◌&&◌, Option, List, Mem, map, Each, Each-append,
  Bool-cases, inl, inr, ◌==◌, ==_iff, select_sound,
}
use managment2_main.Models.Catalogue.{Product}
use managment2_main.Engine.{Engine}
use managment2_main.Session.{World}
use managment2_main.Gap.{is_listed}
use managment2_main.Matching.{Matcher}
use managment2_main.Matching.Pairing.{heuristic_match}
use managment2_main.Comparison.Tracked.{Tracked, Each-map, apply_stored-Tracked}
use managment2_main.Comparison.Followed.{Followed, classify-Followed}

-- No product of the list has the side's id.
unfoldable pub Apart : List Target → Side → Type 0
Apart others side =
    (t : Product)
    → side ≡ Side.product t
    → (u : Target) → Mem u others
    → (u.product.id == t.id) ≡ false

-- No target-only product is in a match or in a list of candidates.
pub record Disjoint (r : Compared) : Type 0 where
  pub matches : Each (λ (e : Entry). Apart r.target_only e.target) r.confirmed_matches
  pub candidates :
      Each
        (λ (g : Group). Each (λ (d : Choice). Apart r.target_only d.target) g.candidates)
        r.candidate_groups

not_listed :
    (i j : ℕ) (ids : List ℕ) → is_listed i ids ≡ false → is_listed j ids ≡ true → (i == j) ≡ false
not_listed i j ids out inside = elim (Bool-cases (i == j)) [
  | inr other ↦ other
  | inl same ↦ absurd (cc (rw ((==_iff i j).0 same) at out, inside))
]

-- A target-only product is in none of the three lists of ids.
three_not :
    (a b c : Bool) → (not a && not b && not c) ≡ true → (a ≡ false) × (b ≡ false) × (c ≡ false)
three_not false false false h = (refl, refl, refl)
three_not true b c h = absurd (cc)
three_not false true c h = absurd (cc)
three_not false false true h = absurd (cc)

target_only_sound :
    (s : Stored) (c : Classified) (targets : List Target) (u : Target)
    → Mem u (target_only_of s c targets)
    → (is_listed u.product.id s.targets ≡ false)
      × (is_listed u.product.id c.heuristic_confirmed ≡ false)
      × (is_listed u.product.id c.in_candidates ≡ false)
unfolding target_only_of
target_only_sound s c targets u k = three_not _ _ _ (select_sound _ targets k)

Tracked-Apart :
    (ids : List ℕ) (others : List Target) (side : Side)
    → ((u : Target) → Mem u others → is_listed u.product.id ids ≡ false)
    → Tracked ids side
    → Apart others side
unfolding Tracked Apart
Tracked-Apart ids others side out h t e u k = not_listed u.product.id t.id ids (out u k) (h t e)

module _ ⦃e : Engine⦄ ⦃m : Matcher⦄ (price_text : Option ℤ → Option String → String) where
  classified_of-Followed :
      (refs : List Product) (targets : List Target) (w : World)
      → Followed (classified_of price_text refs targets w)
  unfolding classified_of
  classified_of-Followed refs targets w =
      classify-Followed (known_of refs targets w)
        (heuristic_match (map (product_to_item price_text) (known_of refs targets w).references)
          (map (product_to_item price_text) (known_of refs targets w).targets))
        nothing_classified (record { entries = Each.nil; groups = Each.nil })

  -- No target-only product of a comparison has the id of a target product of a match, stored or
  -- heuristic, or of a candidate.
  pub compare_products-Disjoint :
      (refs : List Product) (targets : List Target) (w : World)
      → Disjoint (compare_products price_text refs targets w)
  unfolding compare_products
  compare_products-Disjoint refs targets w =
      let s = stored_of refs targets w in
      let c = classified_of price_text refs targets w in
      let f = classified_of-Followed refs targets w in
      let out = target_only_sound s c targets in
      record {
        matches =
            Each-append s.entries c.entries
              (Each-map s.entries
                (λ e.
                  Tracked-Apart s.targets (target_only_of s c targets) e.target
                    (λ u k. (out u k).0))
                (apply_stored-Tracked targets w refs no_stored Each.nil))
              (Each-map c.entries
                (λ e.
                  Tracked-Apart c.heuristic_confirmed (target_only_of s c targets) e.target
                    (λ u k. (out u k).1))
                f.entries);
        candidates =
            Each-map c.groups
              (λ g. Each-map g.candidates (λ d.
                Tracked-Apart c.in_candidates (target_only_of s c targets) d.target
                  (λ u k. (out u k).2)))
              f.groups;
      }
