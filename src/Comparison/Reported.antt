-- ===== src/Comparison/Reported.antt =====
-- What a comparison reports of its reference products: the stored matches, and each other product once.
use managment2_main.Comparison.{
  product_to_item, Side, Entry, Target, Stored, Known, Classified, nothing_classified, no_stored,
  product_of, apply_mapping, apply_saved, apply_stored, stored_of, known_of, both_rejected, or_zero,
  classify_matched, classify_ambiguous, classify_row, classify, classified_of, compare_products,
}
use managment2_main.Base.{
  ℕ, ◌+◌, ◌≡◌, refl, ℤ, String, Bool, false, not, ◌&&◌, Option, none, some, List, [], ◌∷◌, ◌++◌,
  map, select, tally, tally-append, arith, ◌==◌, ==_iff, Bool-cases, Option-cases, inl, inr, leb,
}
use managment2_main.Models.{is_text}
use managment2_main.Models.Catalogue.{Product, ProductMapping}
use managment2_main.Engine.{Engine}
use managment2_main.Session.{World}
use managment2_main.Gap.{is_listed}
use managment2_main.Catalogue.Mappings.{list_matches_for_reference_product}
use managment2_main.Matching.{Matcher, Item}
use managment2_main.Matching.Pairing.{
  Row, MatchStatus, matched, ambiguous, no_match, heuristic_match,
}
use managment2_main.Comparison.Accounts.{Unique, count, count-classified_of}

-- The side is the product with this id.
abbrev pub is_product : ℕ → Side → Bool
is_product i (Side.product p) = p.id == i
is_product i (Side.item j) = false

-- A stored match of the product with this id.
abbrev pub confirms : ℕ → Entry → Bool
confirms i e = e.is_confirmed && is_product i e.reference

-- An entry that is no stored match, of a side that passes a test.
abbrev pub proposes : (Side → Bool) → Entry → Bool
proposes q e = not e.is_confirmed && q e.reference

-- The entries of phase 1 are the stored matches of the ids that it notes.
record Noted (s : Stored) : Type 0 where
  ids : (i : ℕ) → tally (confirms i) s.entries ≡ tally (λ j. j == i) s.references
  no_other : (q : Side → Bool) → tally (proposes q) s.entries ≡ 0

apply_mapping-Noted :
    (targets : List Target) (r : Product) (s : Stored) (pm : ProductMapping)
    → Noted s
    → Noted (apply_mapping targets r s pm)
unfolding apply_mapping tally
apply_mapping-Noted targets r s pm n =
    elim (Bool-cases
      (is_text pm.match_status "confirmed" && not (is_listed pm.target_product_id s.targets))) [
        | inr skipped ↦ rw skipped n
        | inl applied ↦
            elim (Option-cases (product_of pm.target_product_id (map (λ t. t.product) targets))) [
              | inl nothing ↦ rw (applied, nothing) n
              | inr (t, there) ↦
                  rw (applied, there)
                    (record {
                      ids = λ i. rw (tally-append (confirms i) s.entries) (omega (arith, n.ids i));
                      no_other = λ q.
                          rw (tally-append (proposes q) s.entries) (omega (arith, n.no_other q));
                    })
            ]
      ]

apply_saved-Noted :
    (targets : List Target) (r : Product) (saved : List ProductMapping) (s : Stored)
    → Noted s
    → Noted (apply_saved targets r saved s)
unfolding apply_saved
apply_saved-Noted targets r [] s n = n
apply_saved-Noted targets r (pm ∷ saved) s n =
    apply_saved-Noted targets r saved _ (apply_mapping-Noted targets r s pm n)

apply_stored-Noted :
    (targets : List Target) (w : World) (refs : List Product) (s : Stored)
    → Noted s
    → Noted (apply_stored targets w refs s)
unfolding apply_stored
apply_stored-Noted targets w [] s n = n
apply_stored-Noted targets w (r ∷ refs) s n =
    apply_stored-Noted targets w refs _
      (apply_saved-Noted targets r (list_matches_for_reference_product r.id w) s n)

no_stored-Noted : Noted no_stored
unfolding tally
no_stored-Noted = record { ids = λ i. refl; no_other = λ q. refl }

-- Phase 3 adds no stored match.
abbrev Unconfirmed : Classified → Type 0
Unconfirmed c = (i : ℕ) → tally (confirms i) c.entries ≡ 0

classify_matched-Unconfirmed :
    (k : Known) (i j : Item) (percent : ℕ) (c : Classified)
    → Unconfirmed c
    → Unconfirmed (classify_matched k i j percent c)
unfolding classify_matched tally
classify_matched-Unconfirmed k i j percent c h n =
    elim (Bool-cases
      (both_rejected (product_of i.db_id k.references) (product_of j.db_id k.targets) k.rejected)) [
        | inl bad ↦ rw bad (h n)
        | inr good ↦ elim (Bool-cases (leb 85 percent)) [
          | inl high ↦
              rw (good, high) (rw (tally-append (confirms n) c.entries) (omega (arith, h n)))
          | inr low ↦ rw (good, low) (h n)
        ]
      ]

classify_row-Unconfirmed :
    (k : Known) (main : Option Item) (status : MatchStatus) (other : Option Item) (row : Row)
    (c : Classified)
    → Unconfirmed c
    → Unconfirmed (classify_row k (record row { main = main; status = status; other = other }) c)
unfolding classify_row classify_ambiguous
classify_row-Unconfirmed k none status other row c h = h
classify_row-Unconfirmed k (some i) matched none row c h = h
classify_row-Unconfirmed k (some i) matched (some j) row c h =
    classify_matched-Unconfirmed k i j (or_zero row.score_percent) c h
classify_row-Unconfirmed k (some i) ambiguous other row c h = h
classify_row-Unconfirmed k (some i) no_match none row c h = h
classify_row-Unconfirmed k (some i) no_match (some j) row c h = h

classify-Unconfirmed :
    (k : Known) (rows : List Row) (c : Classified) → Unconfirmed c → Unconfirmed (classify k rows c)
unfolding classify
classify-Unconfirmed k [] c h = h
classify-Unconfirmed k (row ∷ rows) c h =
    classify-Unconfirmed k rows (classify_row k row c)
      (classify_row-Unconfirmed k row.main row.status row.other row c h)

nothing-Unconfirmed : Unconfirmed nothing_classified
unfolding tally
nothing-Unconfirmed i = refl

is_listed-tally : (i : ℕ) (ids : List ℕ) → not (is_listed i ids) ≡ (tally (λ j. j == i) ids == 0)
unfolding tally
is_listed-tally i [] = refl
is_listed-tally i (j ∷ ids) = ground (arith, is_listed-tally i ids, ==_iff i j, ==_iff j i)

stored_test :
    (s : Stored) (c : Classified)
    → Noted s
    → Unconfirmed c
    → (i : ℕ) → not (is_listed i s.references) ≡ (tally (confirms i) (s.entries ++ c.entries) == 0)
stored_test s c n h i =
    rw (is_listed-tally i s.references, tally-append (confirms i) s.entries c.entries, n.ids i)
      (rw (h i) (ground arith))

tally-select :
    {A : Type 0} (q p p' : A → Bool) (xs : List A)
    → ((x : A) → p x ≡ p' x)
    → tally q (select p xs) ≡ tally (λ x. q x && p' x) xs
unfolding tally select
tally-select q p p' [] same = refl
tally-select q p p' (x ∷ xs) same = ground (arith, same x, tally-select q p p' xs same)

module _ ⦃e : Engine⦄ ⦃m : Matcher⦄ (price_text : Option ℤ → Option String → String) where
  -- Every reference product that has no stored match in the result is reported exactly once, and
  -- nothing else is: where the ids of the reference products are unique, any test of sides is
  -- passed by as many references of heuristic matches, of candidate groups and of the
  -- reference-only list together, as by reference products of which the result has no stored match.
  pub compare_products_accounts :
      (refs : List Product) (targets : List Target) (w : World)
      → Unique refs
      → (q : Side → Bool)
      → let r = compare_products price_text refs targets w in
        tally (proposes q) r.confirmed_matches
          + tally (λ g. q g.reference) r.candidate_groups
          + tally q r.reference_only
        ≡ tally (λ p. q (Side.product p) && (tally (confirms p.id) r.confirmed_matches == 0)) refs
  unfolding compare_products count classified_of
  compare_products_accounts refs targets w unique q =
      let s = stored_of refs targets w in
      let k = known_of refs targets w in
      let c = classified_of price_text refs targets w in
      let n : Noted s = apply_stored-Noted targets w refs no_stored no_stored-Noted in
      let unconfirmed : Unconfirmed c =
        classify-Unconfirmed k
          (heuristic_match (map (product_to_item price_text) k.references)
            (map (product_to_item price_text) k.targets))
          nothing_classified nothing-Unconfirmed in
      omega (
        arith,
        tally-append (proposes q) s.entries c.entries,
        n.no_other q,
        count-classified_of price_text q refs targets w unique,
        tally-select (λ p. q (Side.product p)) (λ p. not (is_listed p.id s.references))
            (λ p. tally (confirms p.id) (s.entries ++ c.entries) == 0) refs
            (λ p. stored_test s c n unconfirmed p.id),
      )
