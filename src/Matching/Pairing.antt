-- ===== src/Matching/Pairing.antt =====
-- `heuristic_match` of pricewatch/core/normalize.py, with its default arguments.
use Prim.Native.Nat.{min, ◌/◌, ◌%◌}
use managment2_main.Base.{
  ℕ, zero, suc, ◌+◌, ◌-◌, String, Bool, false, not, ◌&&◌, ◌||◌, Option, none, some, List, [], ◌∷◌,
  ◌++◌, map, select, take, str_eq, ◌==◌, ltb, if◌then◌else◌,
}
use managment2_main.Matching.{Matcher, Item, Prepared}
use managment2_main.Matching.Prepare.{prep}
use managment2_main.Matching.Score.{
  Score, rejected_score, lower_than, minus, below, color_for_matched, pair_score,
}

-- `other_by_brand`: an item stands under its brand and under `None`. One without a brand is put there
-- twice.
abbrev pub has_brand : String → Prepared → Bool
has_brand brand b = elim b.brand [ none ↦ false | some c ↦ str_eq c brand ]

unfoldable pub none_pool : List Prepared → List Prepared
none_pool [] = []
none_pool (b ∷ others) = elim b.brand [
  | none ↦ b ∷ b ∷ none_pool others
  | some c ↦ b ∷ none_pool others
]

abbrev pub or_pool : List Prepared → List Prepared → List Prepared
or_pool [] pool = pool
or_pool (b ∷ branded) pool = b ∷ branded

-- `other_by_brand.get(brand, other_by_brand.get(None, []))`
unfoldable pub pool_of : Option String → List Prepared → List Prepared
pool_of none others = none_pool others
pool_of (some brand) others = or_pool (select (has_brand brand) others) (none_pool others)

-- `scored`, and its stable sort by descending score.
pub record Scored : Type 0 where
  pub score : Score
  pub target : Prepared

unfoldable pub insert_scored : Scored → List Scored → List Scored
insert_scored x [] = x ∷ []
insert_scored x (y ∷ scored) =
    if lower_than x.score y.score then y ∷ insert_scored x scored else x ∷ y ∷ scored

unfoldable pub sort_scored : List Scored → List Scored
unfolding insert_scored
sort_scored [] = []
sort_scored (x ∷ scored) = insert_scored x (sort_scored scored)

abbrev pub nth {ℓ} : {A : Type ℓ} → ℕ → List A → Option A
nth i [] = none
nth zero (x ∷ xs) = some x
nth (suc i) (x ∷ xs) = nth i xs

-- `max(0, min(100, int(round(score))))`, where `round` takes the even neighbour of a half.
abbrev pub half_even : ℕ → ℕ
half_even n =
    let whole = n / 1000000 in
    let rest = n % 1000000 in
    if ltb rest 500000
    then whole
    else if (rest == 500000) && (whole % 2 == 0)
    then whole
    else whole + 1

unfoldable pub score_percent : Score → ℕ
score_percent s = min 100 (half_even (s.gain - s.loss))

pub data MatchStatus : Type 0 where
  matched ambiguous no_match : MatchStatus

pub record Candidate : Type 0 where
  pub score : Score
  pub score_percent : ℕ
  pub item : Item

-- A row of the result; `candidates` is there for ambiguous rows with a reference item.
pub record Row : Type 0 where
  pub status : MatchStatus
  pub color : String
  pub main : Option Item
  pub other : Option Item
  pub score : Option Score
  pub score_percent : Option ℕ
  pub gap : Option Score
  pub candidates : List Candidate

abbrev pub blank_row : MatchStatus → String → Option Item → Option Item → Row
blank_row status color main other = record {
  status = status;
  color = color;
  main = main;
  other = other;
  score = none;
  score_percent = none;
  gap = none;
  candidates = [];
}

abbrev pub scored_row :
    MatchStatus → String → Option Item → Option Item → Score → Score → List Candidate → Row
scored_row status color main other best gap candidates = record {
  status = status;
  color = color;
  main = main;
  other = other;
  score = some best;
  score_percent = some (score_percent best);
  gap = some gap;
  candidates = candidates;
}

-- `for s, cb, cd in scored[:5]: if s < min_score: break`
unfoldable pub candidates_of : List Scored → List Candidate
candidates_of [] = []
candidates_of (x ∷ scored) =
    let rest = candidates_of scored in
    if below x.score 65
    then []
    else (record { score = x.score; score_percent = score_percent x.score; item = x.target.raw }
        ∷ rest)

-- The second best score.
abbrev pub second_score : List Scored → Score
second_score [] = rejected_score
second_score (x ∷ scored) = x.score

-- What one reference item contributes: its rows, and the position of the target it uses.
unfoldable pub decide : Prepared → List Scored → List Row × Option ℕ
decide a [] = (blank_row no_match "blue" (some a.raw) none ∷ [], none)
decide a (best ∷ rest) =
    let gap = minus best.score (second_score rest) in
    if below best.score 65
    then (scored_row no_match "blue" (some a.raw) none best.score gap [] ∷ [], none)
    else if below gap 6
    then (
      scored_row ambiguous "blue" (some a.raw) none best.score gap
            (candidates_of (take 5 (best ∷ rest)))
          ∷ scored_row ambiguous "red" none (some best.target.raw) best.score gap []
          ∷ [],
      none,
    )
    else (
      scored_row matched (color_for_matched a.price_uah best.target.price_uah) (some a.raw)
            (some best.target.raw) best.score gap []
          ∷ [],
      some best.target.index,
    )

abbrev pub is_used : ℕ → List (Option ℕ) → Bool
is_used i [] = false
is_used i (none ∷ used) = is_used i used
is_used i (some j ∷ used) = (j == i) || is_used i used

-- The targets that no reference item uses.
unfoldable pub unused_rows : List (Option ℕ) → List Prepared → List Row
unused_rows used others =
    map (λ (b : Prepared). blank_row no_match "red" none (some b.raw))
      (select (λ b. not (is_used b.index used)) others)

module _ ⦃m : Matcher⦄ where
  -- `scored` before the sort: the entries of the pool that `process.extract` names.
  unfoldable pub score_pool : Prepared → List Prepared → List ℕ → List Scored
  score_pool a pool [] = []
  score_pool a pool (i ∷ positions) = elim (nth i pool) [
    | none ↦ score_pool a pool positions
    | some b ↦ record { score = pair_score a b; target = b } ∷ score_pool a pool positions
  ]

  unfoldable pub scored_of : Prepared → List Prepared → List Scored
  unfolding score_pool
  scored_of a pool = sort_scored (score_pool a pool (m.extract a.norm (map (λ b. b.norm) pool) 25))

  -- An empty pool gives no scored entries: the code's two rows for it are one here.
  unfoldable pub match_item : Prepared → List Prepared → List Row × Option ℕ
  unfolding scored_of
  match_item a others = elim (pool_of a.brand others) [
    | [] ↦ decide a []
    | b ∷ pool ↦ decide a (scored_of a (b ∷ pool))
  ]

  unfoldable pub match_items : List Prepared → List Prepared → List Row × List (Option ℕ)
  match_items [] others = ([], [])
  match_items (a ∷ mains) others =
      let (rows, used) = match_item a others in
      let (more, later) = match_items mains others in (rows ++ more, used ∷ later)

  unfoldable pub heuristic_match : List Item → List Item → List Row
  unfolding match_items
  heuristic_match reference_items target_items =
      let others = prep 0 target_items in
      let (rows, used) = match_items (prep 0 reference_items) others in
      rows ++ unused_rows used others
