-- ===== src/Matching.antt =====
-- pricewatch/core/normalize.py: the matching of reference products with target products.
--
-- The module `re`, the methods of `str`, and the package `rapidfuzz` are the fields of `Matcher`. A
-- score is a difference of two numbers of millionths of a point, so that the penalties need no
-- negative numbers; the `score_details` shown to operators are left out.
pub mod Patterns
pub mod Extract
pub mod Prepare
pub mod Score
pub mod Pairing
pub mod Once
pub mod Pool
pub mod Fit
use managment2_main.Base.{ℕ, ℤ, String, ◌≡◌, ◌≤◌, ◌<◌, Bool, Option, List, Mem, length, tally, ◌==◌}

-- The groups of a match, the whole match first.
abbrev pub Match : Type 0
Match = List (Option String)

pub record Matcher : Type 0 where
  -- `re.search(pattern, text, flags)`, `re.finditer`, `re.sub`; the first argument is `re.I`
  pub re_search : Bool → String → String → Option Match
  pub re_finditer : Bool → String → String → List Match
  pub re_sub : Bool → String → String → String → String
  pub lower : String → String
  pub upper : String → String
  pub strip : String → String
  pub rstrip_dots : String → String
  pub replace : String → String → String → String
  -- whether `any(ch.isdigit() for ch in text)`
  pub has_digit : String → Bool
  -- `int(text)`, and `float(text)` in tenths
  pub int_of : String → Option ℕ
  pub tenths_of : String → Option ℕ
  -- `fuzz.token_set_ratio` in millionths, and the positions that `process.extract` returns
  pub token_set_ratio : String → String → ℕ
  pub extract : String → List String → ℕ → List ℕ

-- An item as `_product_to_item` builds it.
pub record Item : Type 0 where
  pub db_id : ℕ
  pub name : String
  pub price : Option ℤ
  pub price_raw : String
  pub url : String

-- What `_prep` finds out about an item; the index is the item's position, which identifies it.
pub record Prepared : Type 0 where
  pub index : ℕ
  pub raw : Item
  pub norm : String
  pub price_uah : Option ℤ
  pub brand : Option String
  pub level : Option String
  pub tokens : List String
  pub flex : Option ℕ
  pub hand : Option String
  pub product_type : Option String
  pub sport_context : Option String
  pub goalie : Bool
  pub curve : Option String
  pub skate_fit : Option String
  pub size_tokens : List String
  pub accessory_flag : Bool
