-- ===== src/Matching/Fit.antt =====
-- No row pairs items that the hard rejects keep apart, and no candidate list names one.
use mathlib.Core.Logic.Or
use mathlib.Core.Bool.{Bool-set}
use mathlib.Core.List.{mem-cons, not-mem-nil, mem-cons_of_mem}
use managment2_main.Base.{
  Each-append, Each, ◌⊎◌, ℕ, suc, ◌≡◌, refl, true, false, not, Option, none, some, List, [], ◌∷◌,
  Mem, map, select, take, Bool-cases, inl, inr, mem-of_take,
}
use managment2_main.Matching.Pairing.{
  blank_row, no_match, Row, Candidate, Scored, candidates_of, decide, second_score, is_used,
  unused_rows, pool_of, scored_of, match_item, match_items, heuristic_match,
}
use managment2_main.Matching.{Matcher, Item, Prepared}
use managment2_main.Matching.Prepare.{prep, prep_item}
use managment2_main.Matching.Score.{minus, below}
use managment2_main.Matching.Pool.{
  compatible, AllFaithful, Good, prep-AllFaithful, pool_of-AllFaithful, scored_of-Good,
}

module _ ⦃m : Matcher⦄ where
  -- The items a row brings together are compatible.
  pub record Fits (row : Row) : Type 0 where
    pub pair : (x y : Item) → row.main ≡ some x → row.other ≡ some y → compatible x y ≡ true
    pub listed :
        (x : Item) (c : Candidate)
        → row.main ≡ some x
        → Mem c row.candidates
        → compatible x c.item ≡ true

  Good-head :
      (x : Item) (best : Scored) (rest : List Scored)
      → Good x (best ∷ rest)
      → below best.score 65 ≡ false
      → compatible x best.target.raw ≡ true
  unfolding Good
  Good-head x best rest g h = g best (mem-cons.1 (Or.inl refl)) h

  candidates-Good :
      (x : Item) (scored : List Scored) (c : Candidate)
      → Good x scored
      → Mem c (candidates_of scored)
      → compatible x c.item ≡ true
  unfolding Good candidates_of
  candidates-Good x [] c g k = absurd (not-mem-nil k)
  candidates-Good x (s ∷ scored) c g k = elim (Bool-cases (below s.score 65)) [
    | inl low ↦ absurd (not-mem-nil (rw low at k))
    | inr high ↦
        Or.elim (Bool-set _ _) (mem-cons.0 (rw high at k))
          (λ same. rw same (g s (mem-cons.1 (Or.inl refl)) high))
          (λ later. candidates-Good x scored c (λ t h. g t (mem-cons_of_mem s h)) later)
  ]

  take-Good : (n : ℕ) (x : Item) (scored : List Scored) → Good x scored → Good x (take n scored)
  unfolding Good
  take-Good n x scored g s k h = g s (mem-of_take n scored k) h

  -- A row with at most one item, and no candidates.
  lone : (row : Row) → (row.main ≡ none) ⊎ (row.other ≡ none) → row.candidates ≡ [] → Fits row
  lone row side empty = record {
    pair = λ x y e f. elim side [ inl h ↦ absurd (cc (h, e)) | inr h ↦ absurd (cc (h, f)) ];
    listed = λ x c e k. absurd (not-mem-nil (rw empty at k));
  }

  some_raw : {x y : Item} → some x ≡ some y → x ≡ y
  some_raw h = cc

  decide-Fits :
      (a : Prepared) (scored : List Scored) → Good a.raw scored → Each Fits (decide a scored).0
  unfolding decide
  decide-Fits a [] g = Each.cons (lone _ (inr refl) refl) Each.nil
  decide-Fits a (best ∷ rest) g = elim (Bool-cases (below best.score 65)) [
    | inl low ↦ rw low (Each.cons (lone _ (inr refl) refl) Each.nil)
    | inr high ↦ elim (Bool-cases (below (minus best.score (second_score rest)) 6)) [
      | inl close ↦
          rw (high, close)
            (Each.cons
              (record {
                pair = λ x y e f. absurd (cc);
                listed = λ x c e k.
                    let same : a.raw ≡ x = some_raw e in
                    rw (← same) (
                      candidates-Good a.raw (take 5 (best ∷ rest)) c
                        (take-Good 5 a.raw (best ∷ rest) g) k);
              })
              (Each.cons (lone _ (inl refl) refl) Each.nil))
      | inr apart ↦
          rw (high, apart)
            (Each.cons
              (record {
                pair = λ x y e f.
                    let same : a.raw ≡ x = some_raw e in
                    let same' : best.target.raw ≡ y = some_raw f in
                    rw (← same, ← same') (Good-head a.raw best rest g high);
                listed = λ x c e k. absurd (not-mem-nil k);
              })
              Each.nil)
    ]
  ]

  nothing_scored : (x : Item) → Good x []
  unfolding Good
  nothing_scored x s k = absurd (not-mem-nil k)

  of_raw :
      (i : ℕ) (x : Item) (scored : List Scored) → Good x scored → Good (prep_item i x).raw scored
  unfolding prep_item
  of_raw i x scored g = g

  match_item-Fits :
      (i : ℕ) (x : Item) (others : List Prepared)
      → AllFaithful others
      → Each Fits (match_item (prep_item i x) others).0
  unfolding match_item
  match_item-Fits i x others f =
      go (pool_of (prep_item i x).brand others) (pool_of-AllFaithful (prep_item i x).brand others f)
    where
      go :
          (pool : List Prepared)
          → AllFaithful pool
          → Each Fits
              (elim pool as (λ _. List Row × Option ℕ) [
                | [] ↦ decide (prep_item i x) []
                | b ∷ rest ↦ decide (prep_item i x) (scored_of (prep_item i x) (b ∷ rest))
              ]).0
      go [] f = decide-Fits (prep_item i x) [] (nothing_scored (prep_item i x).raw)
      go (b ∷ rest) f =
          decide-Fits (prep_item i x) (scored_of (prep_item i x) (b ∷ rest))
            (of_raw i x (scored_of (prep_item i x) (b ∷ rest)) (scored_of-Good i x (b ∷ rest) f))

  match_items-Fits :
      (i : ℕ) (items : List Item) (others : List Prepared)
      → AllFaithful others
      → Each Fits (match_items (prep i items) others).0
  unfolding match_items prep
  match_items-Fits i [] others f = Each.nil
  match_items-Fits i (x ∷ items) others f =
      Each-append _ _ (match_item-Fits i x others f) (match_items-Fits (suc i) items others f)

  unused_rows-Fits :
      (used : List (Option ℕ)) (others : List Prepared) → Each Fits (unused_rows used others)
  unfolding unused_rows
  unused_rows-Fits used others = go (select (λ b. not (is_used b.index used)) others)
    where
      go :
          (bs : List Prepared)
          → Each Fits (map (λ b. blank_row no_match "red" none (some b.raw)) bs)
      go [] = Each.nil
      go (b ∷ bs) = Each.cons (lone _ (inl refl) refl) (go bs)

  -- No row of a matching brings together, as a pair or as a candidate, two items that the hard
  -- rejects keep apart: conflicting brands, sports, goalie marks, product types or accessory
  -- marks.
  pub heuristic_match-Fits :
      (references targets : List Item) → Each Fits (heuristic_match references targets)
  unfolding heuristic_match
  heuristic_match-Fits references targets =
      Each-append _ _ (match_items-Fits 0 references (prep 0 targets) (prep-AllFaithful 0 targets))
        (unused_rows-Fits (match_items (prep 0 references) (prep 0 targets)).1 (prep 0 targets))
