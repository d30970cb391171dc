-- ===== src/Syncing/Prices.antt =====
-- The price of a scraped item: `parse_price` and `parse_price_value` of pricewatch/core/normalize.py,
-- and how `_normalize_product_dto` of pricewatch/services/product_sync_service.py uses them.
use managment2_main.Base.{
  ℤ, String, Bool, false, Option, none, some, [], ◌∷◌, str_eq, if◌then◌else◌,
}
use managment2_main.Engine.{Engine}
use managment2_main.Matching.{Match, Matcher}

-- A `price` that is an int or a float, or a text.
pub data RawPrice : Type 0 where
  amount : ℤ → RawPrice
  written : String → RawPrice

-- What the code calls of the standard library.
pub record Importer : Type 0 where
  pub starts_with : String → String → Bool
  -- `host.endswith(f".{d}")`, `f"https://{url}"`, the `netloc` of `urlparse`
  pub ends_with_domain : String → String → Bool
  pub https : String → String
  pub netloc : String → String
  -- `urljoin`; `none` where it raises
  pub urljoin : String → String → Option String
  -- `float(text)`; `none` where it raises
  pub float_of : String → Option ℤ

-- `a or b`
abbrev pub or_given : Option String → Option String → Option String
or_given none b = b
or_given (some a) b = if str_eq a "" then b else some a

abbrev group_or_empty : Option String → String
group_or_empty none = ""
group_or_empty (some t) = t

-- `m.group(1)`, `m.group(2)` and `m.group(0)`
abbrev two_groups : Match → String × String
two_groups (whole ∷ a ∷ b ∷ gs) = (group_or_empty a, group_or_empty b)
two_groups (whole ∷ a ∷ []) = (group_or_empty a, "")
two_groups (whole ∷ []) = ("", "")
two_groups [] = ("", "")

abbrev whole_match : Match → String
whole_match [] = ""
whole_match (t ∷ gs) = group_or_empty t

module _ ⦃e : Engine⦄ ⦃m : Matcher⦄ ⦃i : Importer⦄ where
  abbrev split_price : String → Option Match → String × String
  split_price text none = (e.strip text, "")
  split_price text (some g) = let (value, curr) = two_groups g in (e.strip value, e.strip curr)

  -- For a text; `None` and an empty one give two empty texts.
  unfoldable pub parse_price : Option String → String × String
  parse_price none = ("", "")
  parse_price (some text) =
      if str_eq text ""
      then ("", "")
      else split_price text (m.re_search false "([\\d\\s,.]+)\\s*([^\\d\\s]+)" text)

  abbrev float_of_match : Option Match → Option ℤ
  float_of_match none = none
  float_of_match (some g) = i.float_of (whole_match g)

  abbrev number_in : String → Option Match
  number_in text = m.re_search false "-?\\d+(?:\\.\\d+)?" text

  unfoldable pub parse_price_value : Option String → Option ℤ × String
  unfolding parse_price
  parse_price_value price_str =
      let (value, currency) = parse_price price_str in
      if str_eq value "" then (none, currency) else (
        float_of_match
            (number_in (m.replace "," "." (m.replace "\u{a0}" "" (m.replace " " "" value)))),
        currency,
      )

  -- The number in the text and the currency after it, where it has one.
  abbrev with_currency : Option ℤ → String → Option ℤ × Option String
  with_currency none curr = (none, none)
  with_currency (some price) curr = (some price, (if str_eq curr "" then none else some curr))

  abbrev price_in : String → Option Match → Option ℤ × Option String
  price_in text none = let (price, curr) = parse_price_value (some text) in (price, some curr)
  price_in text (some g) =
      with_currency (i.float_of (whole_match g)) (parse_price_value (some text)).1

  abbrev or_parsed : String → Option ℤ → Option ℤ × Option String
  or_parsed text (some price) = (some price, none)
  or_parsed text none =
      price_in text
        (number_in (m.replace "," "." (m.replace " " "" (m.replace "\u{a0}" "" (e.strip text)))))

  -- `parsed_price` and `parsed_currency` after the field `price`.
  unfoldable pub explicit_price : Option RawPrice → Option ℤ × Option String
  explicit_price none = (none, none)
  explicit_price (some (RawPrice.amount price)) = (some price, none)
  explicit_price (some (RawPrice.written text)) =
      if str_eq (e.strip text) "" then (none, none) else or_parsed text (i.float_of (e.strip text))

  abbrev from_raw : Option String → Option ℤ × String → Option ℤ × Option String
  from_raw currency (none, curr) = (none, currency)
  from_raw currency (some price, curr) = (some price, or_given currency (some curr))

  -- The same after `price_raw`, which is read where there is no price yet.
  unfoldable pub with_raw_price :
      Option String → Option ℤ × Option String → Option ℤ × Option String
  with_raw_price price_raw (some price, currency) = (some price, currency)
  with_raw_price price_raw (none, currency) = from_raw currency (parse_price_value price_raw)
