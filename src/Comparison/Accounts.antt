-- ===== src/Comparison/Accounts.antt =====
-- What the classification reports of the reference products that have no stored match: each once, as a
-- heuristic match, as a group of candidates, or as a reference-only product.
use managment2_main.Comparison.{
  classified_of, stored_of, known_of, or_zero, Target, Known, Classified, nothing_classified,
  both_rejected, classify_matched, classify_ambiguous, classify_row, classify, remaining,
  product_to_item, product_of, Side, side_of,
}
use managment2_main.Base.{
  ℕ, ◌+◌, ℤ, String, ◌≡◌, refl, Bool, true, not, Option, none, some, List, [], ◌∷◌, map, select,
  Each, Each-append, Each-map, arith, tally, tally-append, tally-select-le, ◌==◌, ==_refl, ◌&&◌,
  ◌≤◌, if◌then◌else◌, Bool-cases, inl, inr, leb,
}
use managment2_main.Models.Catalogue.{Product}
use managment2_main.Gap.{is_listed}
use managment2_main.Engine.{Engine}
use managment2_main.Session.{World}
use managment2_main.Matching.{Matcher, Item, Prepared}
use managment2_main.Matching.Prepare.{prep}
use managment2_main.Matching.Score.{is_some, minus, below}
use managment2_main.Matching.Pairing.{
  Row, Scored, MatchStatus, matched, ambiguous, no_match, blank_row, decide, second_score, is_used,
  unused_rows, pool_of, scored_of, match_item, match_items, heuristic_match,
}
use managment2_main.Matching.Once.{mains, mains-heuristic_match}

-- A matched row has both items, and a row of an unmatched reference item has no target item.
abbrev is_shaped : Option Item → MatchStatus → Option Item → Bool
is_shaped none status other = true
is_shaped (some i) matched other = is_some other
is_shaped (some i) ambiguous other = true
is_shaped (some i) no_match other = not (is_some other)

unfoldable Shaped : Row → Type 0
Shaped row = is_shaped row.main row.status row.other ≡ true

decide-Shaped : (a : Prepared) (scored : List Scored) → Each Shaped (decide a scored).0
unfolding decide Shaped
decide-Shaped a [] = Each.cons refl Each.nil
decide-Shaped a (best ∷ rest) = elim (Bool-cases (below best.score 65)) [
  | inl low ↦ rw low (Each.cons refl Each.nil)
  | inr high ↦ elim (Bool-cases (below (minus best.score (second_score rest)) 6)) [
    | inl close ↦ rw (high, close) (Each.cons refl (Each.cons refl Each.nil))
    | inr apart ↦ rw (high, apart) (Each.cons refl Each.nil)
  ]
]

unused_rows-Shaped :
    (used : List (Option ℕ)) (others : List Prepared) → Each Shaped (unused_rows used others)
unfolding unused_rows Shaped
unused_rows-Shaped used others = go (select (λ b. not (is_used b.index used)) others)
  where
    go :
        (bs : List Prepared)
        → Each Shaped (map (λ b. blank_row no_match "red" none (some b.raw)) bs)
    go [] = Each.nil
    go (b ∷ bs) = Each.cons refl (go bs)

module _ ⦃m : Matcher⦄ where
  match_item-Shaped : (a : Prepared) (others : List Prepared) → Each Shaped (match_item a others).0
  unfolding match_item
  match_item-Shaped a others = go (pool_of a.brand others)
    where
      go :
          (pool : List Prepared)
          → Each Shaped
              (elim pool as (λ _. List Row × Option ℕ) [
                | [] ↦ decide a []
                | b ∷ rest ↦ decide a (scored_of a (b ∷ rest))
              ]).0
      go [] = decide-Shaped a []
      go (b ∷ rest) = decide-Shaped a (scored_of a (b ∷ rest))

  match_items-Shaped : (heads others : List Prepared) → Each Shaped (match_items heads others).0
  unfolding match_items
  match_items-Shaped [] others = Each.nil
  match_items-Shaped (a ∷ heads) others =
      Each-append _ _ (match_item-Shaped a others) (match_items-Shaped heads others)

  heuristic_match-Shaped :
      (references targets : List Item) → Each Shaped (heuristic_match references targets)
  unfolding heuristic_match
  heuristic_match-Shaped references targets =
      Each-append _ _ (match_items-Shaped (prep 0 references) (prep 0 targets))
        (unused_rows-Shaped (match_items (prep 0 references) (prep 0 targets)).1 (prep 0 targets))

-- How many reported reference sides pass a test, stored matches left aside.
unfoldable pub count : (Side → Bool) → Classified → ℕ
count q c =
    tally (λ e. not e.is_confirmed && q e.reference) c.entries
    + tally (λ g. q g.reference) c.groups
    + tally q c.reference_only

abbrev one_if : Bool → ℕ
one_if b = if b then 1 else 0

-- The side that stands for a reference item.
abbrev side_in : Known → Item → Side
side_in k i = side_of (product_of i.db_id k.references) i

count-classify_matched :
    (q : Side → Bool) (k : Known) (i j : Item) (percent : ℕ) (c : Classified)
    → count q (classify_matched k i j percent c) ≡ count q c + one_if (q (side_in k i))
unfolding classify_matched count tally
count-classify_matched q k i j percent c =
    elim (Bool-cases
      (both_rejected (product_of i.db_id k.references) (product_of j.db_id k.targets) k.rejected)) [
        | inl bad ↦ rw bad (rw (tally-append q c.reference_only) (omega arith))
        | inr good ↦ elim (Bool-cases (leb 85 percent)) [
          | inl high ↦
              rw (good, high)
                (rw (tally-append (λ e. not e.is_confirmed && q e.reference) c.entries)
                  (omega arith))
          | inr low ↦ rw (good, low) (rw (tally-append (λ g. q g.reference) c.groups) (omega arith))
        ]
      ]

abbrev given : (Side → Bool) → Known → Option Item → ℕ
given q k none = 0
given q k (some i) = one_if (q (side_in k i))

tally-main :
    (q : Side → Bool) (k : Known) (o : Option Item) (items : List Item)
    → tally
        (λ i. q (side_in k i))
        (elim o as (λ _. List Item) [ none ↦ items | some i ↦ i ∷ items ])
      ≡ given q k o + tally (λ i. q (side_in k i)) items
unfolding tally
tally-main q k none items = omega arith
tally-main q k (some i) items = omega arith

count-row :
    (q : Side → Bool) (k : Known) (main : Option Item) (status : MatchStatus) (other : Option Item)
    (row : Row) (c : Classified)
    → is_shaped main status other ≡ true
    → count q (classify_row k (record row { main = main; status = status; other = other }) c)
      ≡ count q c + given q k main
unfolding classify_row classify_ambiguous count tally
count-row q k none status other row c h = omega arith
count-row q k (some i) matched none row c h = absurd (cc)
count-row q k (some i) matched (some j) row c h =
    count-classify_matched q k i j (or_zero row.score_percent) c
count-row q k (some i) ambiguous other row c h =
    rw (tally-append (λ g. q g.reference) c.groups) (omega arith)
count-row q k (some i) no_match none row c h = rw (tally-append q c.reference_only) (omega arith)
count-row q k (some i) no_match (some j) row c h = absurd (cc)

count-classify :
    (q : Side → Bool) (k : Known) (rows : List Row) (c : Classified)
    → Each Shaped rows
    → count q (classify k rows c) ≡ count q c + tally (λ i. q (side_in k i)) (mains rows)
unfolding classify mains Shaped tally
count-classify q k [] c Each.nil = omega arith
count-classify q k (row ∷ rows) c (Each.cons h rest) =
    let here : count q (classify_row k row c) ≡ count q c + given q k row.main =
      count-row q k row.main row.status row.other row c h in
    omega (
      arith,
      here,
      count-classify q k rows (classify_row k row c) rest,
      tally-main q k row.main (mains rows),
    )

count_nothing : (q : Side → Bool) → count q nothing_classified ≡ 0
unfolding count tally
count_nothing q = refl

-- Ids are unique.
abbrev pub Unique : List Product → Type 0
Unique ps = (i : ℕ) → tally (λ p. p.id == i) ps ≤ 1

product_of-none :
    (i : ℕ) (ps : List Product) → tally (λ p. p.id == i) ps ≡ 0 → product_of i ps ≡ none
unfolding product_of tally
product_of-none i [] h = refl
product_of-none i (p ∷ ps) h = elim (Bool-cases (p.id == i)) [
  | inl here ↦ absurd (omega (arith, rw here at h))
  | inr other ↦ rw (product_of-none i ps (omega (arith, rw other at h)), other) refl
]

-- Each product is found by its id.
product_of-own : (ps : List Product) → Unique ps → Each (λ p. product_of p.id ps ≡ some p) ps
unfolding product_of tally
product_of-own [] u = Each.nil
product_of-own (p ∷ ps) u =
    let alone : tally (λ r. r.id == p.id) ps ≡ 0 = omega (arith, rw (==_refl p.id) at (u p.id)) in
    Each.cons (rw (product_of-none p.id ps alone, ==_refl p.id) refl)
      (Each-map (λ r h. rw h refl) (product_of-own ps (λ i. omega (arith, u i))))

module _ ⦃e : Engine⦄ ⦃m : Matcher⦄ (price_text : Option ℤ → Option String → String) where
  tally-own :
      (q : Side → Bool) (k : Known) (ps : List Product)
      → Each (λ p. product_of p.id k.references ≡ some p) ps
      → tally (λ i. q (side_in k i)) (map (product_to_item price_text) ps)
        ≡ tally (λ p. q (Side.product p)) ps
  unfolding tally
  tally-own q k [] Each.nil = refl
  tally-own q k (p ∷ ps) (Each.cons h rest) = rw h (rw (tally-own q k ps rest) refl)

  pub count-classified_of :
      (q : Side → Bool) (refs : List Product) (targets : List Target) (w : World)
      → Unique refs
      → count q (classified_of price_text refs targets w)
        ≡ tally (λ p. q (Side.product p)) (remaining (stored_of refs targets w).references refs)
  unfolding classified_of
  count-classified_of q refs targets w u =
      let k = known_of refs targets w in
      let references : List Item = map (product_to_item price_text) k.references in
      let others : List Item = map (product_to_item price_text) k.targets in
      let own = product_of-own k.references (λ i. omega (
        arith,
        u i,
        tally-select-le (λ p. p.id == i)
            (λ p. not (is_listed p.id (stored_of refs targets w).references)) refs,
      )) in
      rw
        (
          count-classify q k (heuristic_match references others) nothing_classified
              (heuristic_match-Shaped references others),
          mains-heuristic_match references others,
        )
        (omega (arith, tally-own q k k.references own, count_nothing q))
