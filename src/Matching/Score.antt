-- ===== src/Matching/Score.antt =====
-- `_pair_score` and `_color_for_matched` of pricewatch/core/normalize.py.
use Prim.Native.Nat.{min, max, Ordering}
use managment2_main.Base.{
  ℕ, ◌+◌, ◌*◌, ℤ, pos, String, Bool, true, false, not, ◌&&◌, ◌||◌, Option, none, some, List, [],
  ◌∷◌, length, select, str_eq, ◌==◌, ltb, leb, compareℤ, if◌then◌else◌,
}
use managment2_main.Models.{is_text}
use managment2_main.Matching.{Matcher, Prepared}
use managment2_main.Matching.Patterns.{model_series, compound_series}
use managment2_main.Matching.Extract.{has_text, has_space}

-- `gain - loss`, in millionths of a point.
pub record Score : Type 0 where
  pub gain : ℕ
  pub loss : ℕ

abbrev pub points : ℕ → ℕ
points n = n * 1000000

-- `-1e9`
abbrev pub rejected_score : Score
rejected_score = record { gain = 0; loss = points 1000000000 }

-- `a < b`
abbrev pub lower_than : Score → Score → Bool
lower_than a b = ltb (a.gain + b.loss) (b.gain + a.loss)

-- `a - b`
abbrev pub minus : Score → Score → Score
minus a b = record { gain = a.gain + b.loss; loss = a.loss + b.gain }

-- `s < n points`
abbrev pub below : Score → ℕ → Bool
below s n = lower_than s (record { gain = points n; loss = 0 })

-- Both are known (and not empty), and they differ or agree.
abbrev is_known : Option String → Bool
is_known none = false
is_known (some s) = not (str_eq s "")

abbrev differ : Option String → Option String → Bool
differ none b = false
differ (some s) none = false
differ (some s) (some t) = not (str_eq s t)

abbrev agree : Option String → Option String → Bool
agree none b = false
agree (some s) none = false
agree (some s) (some t) = str_eq s t

abbrev pub conflict : Option String → Option String → Bool
conflict a b = is_known a && is_known b && differ a b

abbrev pub matches : Option String → Option String → Bool
matches a b = is_known a && is_known b && agree a b

-- The same for `is not None`: a hand is never the empty text.
abbrev pub number_conflict : Option ℕ → Option ℕ → Bool
number_conflict none b = false
number_conflict (some a) none = false
number_conflict (some a) (some b) = not (a == b)

abbrev pub number_matches : Option ℕ → Option ℕ → Bool
number_matches none b = false
number_matches (some a) none = false
number_matches (some a) (some b) = a == b

abbrev pub is_some {ℓ} : {A : Type ℓ} → Option A → Bool
is_some none = false
is_some (some a) = true

-- `_COMPATIBLE_PAIRS`, in both orders.
abbrev one_way : Option String → Option String → Bool
one_way a b =
    (is_text a "STICK" && is_text b "GOALIE_STICK")
    || (is_text a "SKATES" && is_text b "GOALIE_SKATES")
    || (is_text a "GLOVES" && is_text b "GOALIE_GLOVE")
    || (is_text a "HELMET" && is_text b "GOALIE_HELMET")
    || (is_text a "PANTS" && is_text b "GOALIE_PANTS")

abbrev pub is_compatible : Option String → Option String → Bool
is_compatible a b = one_way a b || one_way b a

abbrev pub xor : Bool → Bool → Bool
xor true b = not b
xor false b = b

-- The hard rejects, in the code's order.
abbrev pub goalie_conflict : Prepared → Prepared → Bool
goalie_conflict a b = xor a.goalie b.goalie && (is_some a.product_type || is_some b.product_type)

abbrev pub type_conflict : Prepared → Prepared → Bool
type_conflict a b =
    conflict a.product_type b.product_type && not (is_compatible a.product_type b.product_type)

unfoldable pub is_rejected : Prepared → Prepared → Bool
is_rejected a b =
    conflict a.brand b.brand
    || conflict a.sport_context b.sport_context
    || goalie_conflict a b
    || type_conflict a b
    || xor a.accessory_flag b.accessory_flag

-- `set(a).intersection(b)`
unfoldable pub shared : List String → List String → List String
shared xs ys = select (λ x. has_text x ys) xs

-- `inter & (_series_upper | _compound_canonical)`
abbrev canonical_names : List (String × Option String) → List String
canonical_names [] = []
canonical_names ((p, none) ∷ rest) = canonical_names rest
canonical_names ((p, some c) ∷ rest) = c ∷ canonical_names rest

unfoldable pub is_series : String → Bool
is_series t =
    has_text t (select (λ s. not (has_space s)) model_series)
    || has_text t (canonical_names compound_series)

abbrev pub when_points : Bool → ℕ → ℕ
when_points b n = if b then points n else 0

-- The price modifier: what it adds and what it takes, for two prices above 0. `ratio >= 0.90` is
-- `10 * min >= 9 * max`, and `ratio < 0.50` is `2 * min < max`.
abbrev price_gain : Option ℤ → Option ℤ → ℕ
price_gain (some (pos a)) (some (pos b)) =
    when_points (ltb 0 a && ltb 0 b && leb (9 * max a b) (10 * min a b)) 3
price_gain _ _ = 0

abbrev price_loss : Option ℤ → Option ℤ → ℕ
price_loss (some (pos a)) (some (pos b)) =
    when_points (ltb 0 a && ltb 0 b && ltb (2 * min a b) (max a b)) 5
price_loss _ _ = 0

-- `_color_for_matched`
unfoldable pub color_for_matched : Option ℤ → Option ℤ → String
color_for_matched none other = "none"
color_for_matched (some a) none = "none"
color_for_matched (some a) (some b) = elim (compareℤ a b) [
  | Ordering.lt ↦ "green"
  | Ordering.eq ↦ "none"
  | Ordering.gt ↦ "yellow"
]

module _ ⦃m : Matcher⦄ where
  abbrev pub strong_tokens : List String → ℕ
  strong_tokens tokens = length (select (λ t. m.has_digit t) tokens)

  abbrev pub weak_tokens : List String → ℕ
  weak_tokens tokens = length (select (λ t. not (m.has_digit t)) tokens)

  unfoldable pub token_bonus : List String → ℕ
  token_bonus inter = points (10 * strong_tokens inter + 4 * weak_tokens inter)

  unfoldable pub penalty : Prepared → Prepared → ℕ
  unfolding shared
  penalty a b =
      when_points (conflict a.level b.level) 25
      + when_points (number_conflict a.flex b.flex) 40
      + when_points (conflict a.hand b.hand) 60
      + when_points (conflict a.curve b.curve) 20
      + when_points (conflict a.skate_fit b.skate_fit) 30
      + when_points
          (not (length a.size_tokens == 0)
            && not (length b.size_tokens == 0)
            && (length (shared a.size_tokens b.size_tokens) == 0))
          15

  unfoldable pub bonus : Prepared → Prepared → List String → ℕ
  unfolding is_series
  bonus a b inter =
      when_points (matches a.product_type b.product_type) 5
      + when_points (matches a.sport_context b.sport_context) 3
      + when_points (a.goalie && b.goalie) 4
      + points (8 * length (select is_series inter))
      + when_points (matches a.curve b.curve) 6
      + when_points (matches a.hand b.hand) 5
      + when_points (number_matches a.flex b.flex) 4
      + when_points (matches a.skate_fit b.skate_fit) 6

  unfoldable pub pair_score : Prepared → Prepared → Score
  unfolding shared
  pair_score a b = if is_rejected a b then rejected_score else (record {
    gain =
        m.token_set_ratio a.norm b.norm
        + token_bonus (shared a.tokens b.tokens)
        + bonus a b (shared a.tokens b.tokens)
        + price_gain a.price_uah b.price_uah;
    loss = penalty a b + price_loss a.price_uah b.price_uah;
  })
