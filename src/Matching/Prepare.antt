-- ===== src/Matching/Prepare.antt =====
-- The tokens of a title, the price of an item, and `_prep` of pricewatch/core/normalize.py.
use Prim.Native.Nat.{◌/◌}
use Prim.Native.String.{◌++◌ as str_append}
use managment2_main.Base.{
  ℕ, zero, suc, ℤ, pos, negsuc, String, true, false, not, ◌&&◌, Option, none, some, List, [], ◌∷◌,
  if◌then◌else◌,
}
use managment2_main.Matching.{Matcher, Match, Item, Prepared}
use managment2_main.Matching.Patterns.{
  curve_tokens, skate_fit_tokens, model_series, compound_series,
}
use managment2_main.Matching.Extract.{
  is_found, group_at, add_text, has_space, word, compact, orelse, normalize_item_title,
  extract_brand, extract_level, extract_flex, extract_hand, extract_goalie_flag,
  extract_product_type, extract_sport_context, extract_curve, extract_skate_fit,
  extract_numeric_size_tokens, extract_accessory_flag,
}

module _ ⦃m : Matcher⦄ where
  -- The compound series; one without a canonical name takes it from the match.
  unfoldable pub add_compound : String → List (String × Option String) → List String → List String
  add_compound t [] tokens = tokens
  add_compound t ((pattern, canonical) ∷ rules) tokens =
      add_compound t rules (elim (m.re_search false pattern t) [
        | none ↦ tokens
        | some groups ↦ elim canonical [
          | none ↦ add_text (str_append (group_at 1 groups) "PRO") tokens
          | some name ↦ add_text name tokens
        ]
      ])

  -- ``re.search(rf"\b{re.escape(s_up)}\b", t)``: the names of one word need no escape.
  unfoldable pub add_series : String → List String → List String → List String
  add_series t [] tokens = tokens
  add_series t (series ∷ rest) tokens = add_series t rest (
      if not (has_space series) && is_found false (word series) t
      then add_text series tokens
      else tokens)

  unfoldable pub add_matches : List Match → List String → List String
  add_matches [] tokens = tokens
  add_matches (groups ∷ rest) tokens = add_matches rest (add_text (group_at 0 groups) tokens)

  abbrev add_versioned : Option Match → List String → List String
  add_versioned none tokens = tokens
  add_versioned (some groups) tokens =
      add_text (str_append (group_at 1 groups) (group_at 2 groups)) tokens

  abbrev add_compact : Option Match → List String → List String
  add_compact none tokens = tokens
  add_compact (some groups) tokens = add_text (compact (group_at 0 groups)) tokens

  -- The tokens as a set: they are only intersected.
  unfoldable pub extract_tokens : String → List String
  unfolding add_compound add_series add_matches
  extract_tokens title =
      let t = m.upper title in
      let series = add_series t model_series (add_compound t compound_series []) in
      let models = add_matches (m.re_finditer false "\\b[A-Z]{1,3}\\d{1,4}[A-Z]?\\b" t) series in
      let short = add_matches (m.re_finditer false "\\b\\dX\\b|\\b\\dS\\b" t) models in
      let versioned =
        add_versioned (m.re_search false "\\b(HYPERLITE|MACH|SHADOW)\\s*(\\d)\\b" t) short in
      add_compact (m.re_search true skate_fit_tokens t)
        (add_compact (m.re_search true curve_tokens t) versioned)

  -- `int(float(price))`: the whole part, towards zero, of a number of ten-thousandths.
  abbrev whole : ℤ → ℤ
  whole (pos n) = pos (n / 10000)
  whole (negsuc n) = elim (suc n / 10000) [ zero ↦ pos 0 | suc k ↦ negsuc k ]

  abbrev int_of_digits : Option Match → Option ℤ
  int_of_digits none = none
  int_of_digits (some groups) = elim (m.int_of (m.re_sub false "\\s+" "" (group_at 1 groups))) [
    | none ↦ none
    | some n ↦ some (pos n)
  ]

  unfoldable pub parse_price_uah : String → Option ℤ
  parse_price_uah s =
      int_of_digits (
        orelse (m.re_search true "(\\d[\\d\\s]*)\\s*грн" s)
          (m.re_search true "(\\d[\\d\\s]*)грн" s))

  abbrev item_price : Option ℤ → String → Option ℤ
  item_price none raw = parse_price_uah raw
  item_price (some price) raw = some (whole price)

  unfoldable pub prep_item : ℕ → Item → Prepared
  prep_item i item =
      let title = m.strip item.name in
      record {
        index = i;
        raw = item;
        norm = normalize_item_title title;
        price_uah = item_price item.price item.price_raw;
        brand = extract_brand title;
        level = extract_level title;
        tokens = extract_tokens title;
        flex = extract_flex title;
        hand = extract_hand title;
        product_type = extract_product_type title;
        sport_context = extract_sport_context title;
        goalie = extract_goalie_flag title;
        curve = extract_curve title;
        skate_fit = extract_skate_fit title;
        size_tokens = extract_numeric_size_tokens title;
        accessory_flag = extract_accessory_flag title;
      }

  -- `_prep`
  unfoldable pub prep : ℕ → List Item → List Prepared
  prep i [] = []
  prep i (item ∷ items) = prep_item i item ∷ prep (suc i) items
