-- ===== src/Matching/Once.antt =====
-- The rows with a reference item are those of the reference items, once each and in their order.
use mathlib.Core.List.{append-nil}
use managment2_main.Base.{
  ℕ, suc, ◌≡◌, refl, ap, Option, none, some, List, [], ◌∷◌, ◌++◌, map, select, Bool-cases, inl, inr,
}
use managment2_main.Matching.{Matcher, Item, Prepared}
use managment2_main.Matching.Prepare.{prep, prep_item}
use managment2_main.Matching.Score.{minus, below}
use managment2_main.Matching.Pairing.{
  Row, Scored, decide, second_score, is_used, unused_rows, pool_of, scored_of, match_item,
  match_items, heuristic_match,
}

-- `[row["main"] for row in rows if row["main"] is not None]`
unfoldable pub mains : List Row → List Item
mains [] = []
mains (row ∷ rows) = elim row.main [ none ↦ mains rows | some i ↦ i ∷ mains rows ]

mains-append : (rows more : List Row) → mains (rows ++ more) ≡ mains rows ++ mains more
unfolding mains
mains-append [] more = refl
mains-append (row ∷ rows) more = go row.main (mains-append rows more)
  where
    go :
        (o : Option Item)
        → mains (rows ++ more) ≡ mains rows ++ mains more
        → elim o as (λ _. List Item) [
          | none ↦ mains (rows ++ more)
          | some i ↦ i ∷ mains (rows ++ more)
        ]
          ≡ elim o as (λ _. List Item) [ none ↦ mains rows | some i ↦ i ∷ mains rows ] ++ mains more
    go none h = h
    go (some i) h = ap (◌∷◌ i) h

mains-decide : (a : Prepared) (scored : List Scored) → mains (decide a scored).0 ≡ a.raw ∷ []
unfolding mains decide
mains-decide a [] = refl
mains-decide a (best ∷ rest) = elim (Bool-cases (below best.score 65)) [
  | inl low ↦ rw low refl
  | inr high ↦ elim (Bool-cases (below (minus best.score (second_score rest)) 6)) [
    | inl close ↦ rw (high, close) refl
    | inr apart ↦ rw (high, apart) refl
  ]
]

mains-unused_rows :
    (used : List (Option ℕ)) (others : List Prepared) → mains (unused_rows used others) ≡ []
unfolding mains unused_rows select
mains-unused_rows used [] = refl
mains-unused_rows used (b ∷ others) = elim (Bool-cases (is_used b.index used)) [
  | inl taken ↦ rw taken (mains-unused_rows used others)
  | inr free ↦ rw free (mains-unused_rows used others)
]

module _ ⦃m : Matcher⦄ where
  mains-match_item :
      (a : Prepared) (others : List Prepared) → mains (match_item a others).0 ≡ a.raw ∷ []
  unfolding match_item
  mains-match_item a others = go (pool_of a.brand others)
    where
      go :
          (pool : List Prepared)
          → mains
              (elim pool as (λ _. List Row × Option ℕ) [
                | [] ↦ decide a []
                | b ∷ rest ↦ decide a (scored_of a (b ∷ rest))
              ]).0
            ≡ a.raw ∷ []
      go [] = mains-decide a []
      go (b ∷ rest) = mains-decide a (scored_of a (b ∷ rest))

  mains-nil : mains [] ≡ []
  unfolding mains
  mains-nil = refl

  mains-match_items :
      (heads others : List Prepared) → mains (match_items heads others).0 ≡ map (λ a. a.raw) heads
  unfolding match_items
  mains-match_items [] others = mains-nil
  mains-match_items (a ∷ heads) others =
      rw
        (
          mains-append (match_item a others).0 (match_items heads others).0,
          mains-match_item a others,
          mains-match_items heads others,
        )
        refl

  raw-prep : (i : ℕ) (items : List Item) → map (λ a. a.raw) (prep i items) ≡ items
  unfolding prep prep_item
  raw-prep i [] = refl
  raw-prep i (item ∷ items) = ap (◌∷◌ item) (raw-prep (suc i) items)

  -- The rows of a matching that have a reference item are those of the reference items, each once
  -- and in their order.
  pub mains-heuristic_match :
      (references targets : List Item) → mains (heuristic_match references targets) ≡ references
  unfolding heuristic_match
  mains-heuristic_match references targets =
      rw
        (
          mains-append (match_items (prep 0 references) (prep 0 targets)).0
              (unused_rows (match_items (prep 0 references) (prep 0 targets)).1 (prep 0 targets)),
          mains-match_items (prep 0 references) (prep 0 targets),
          mains-unused_rows (match_items (prep 0 references) (prep 0 targets)).1 (prep 0 targets),
          raw-prep 0 references,
        )
        (append-nil references)
