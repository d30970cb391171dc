-- ===== src/Sample/Shop.antt =====
-- A reference shop and a target shop with a few products, and a matcher that knows two brands.
use Prim.Native.String.{find, len}
use managment2_main.Base.{
  ℕ, zero, suc, ℤ, pos, String, Bool, true, false, ◌&&◌, ◌||◌, Option, none, some, List, [], ◌∷◌,
  length, take, str_eq, ltb, if◌then◌else◌,
}
use managment2_main.Models.Catalogue.{Store, Category, CategoryMapping, Product, ProductMapping}
use managment2_main.Session.{World}
use managment2_main.Sample.World.{at, due_world}
use managment2_main.Catalogue.Products.{Scraped}
use managment2_main.Matching.{Matcher, Match, Item}
use managment2_main.Comparison.{Target}

abbrev pub main_shop : Store
main_shop = record { id = 1; name = "Main"; is_reference = true; base_url = none }

abbrev pub other_shop : Store
other_shop = record { id = 2; name = "Other"; is_reference = false; base_url = none }

abbrev category_row : ℕ → ℕ → Category
category_row i store = record {
  id = i;
  store_id = store;
  external_id = none;
  name = "Sticks";
  normalized_name = some "sticks";
  url = none;
  updated_at = at 100;
}

abbrev pub main_sticks : Category
main_sticks = category_row 10 1

abbrev pub other_sticks : Category
other_sticks = category_row 20 2

abbrev product_row : ℕ → ℕ → ℕ → String → String → Product
product_row i store category name url = record {
  id = i;
  store_id = store;
  category_id = some category;
  scrape_run_id = none;
  external_id = none;
  name = name;
  normalized_name = some name;
  name_hash = some name;
  price = none;
  currency = none;
  description = none;
  product_url = url;
  source_url = none;
  is_available = true;
  scraped_at = none;
  updated_at = at 100;
}

abbrev pub main_stick : Product
main_stick = product_row 1 1 10 "bauer stick" "main/1"

abbrev pub other_stick : Product
other_stick = product_row 2 2 20 "bauer stick" "other/2"

abbrev pub other_glove : Product
other_glove = product_row 3 2 20 "ccm glove" "other/3"

abbrev sticks_link : CategoryMapping
sticks_link = record {
  id = 1;
  reference_category_id = 10;
  target_category_id = 20;
  match_type = some "exact";
  confidence = none;
  updated_at = at 100;
}

-- The glove was rejected for the stick of the reference shop.
abbrev glove_rejected : ProductMapping
glove_rejected = record {
  id = 1;
  reference_product_id = 1;
  target_product_id = 3;
  match_status = some "rejected";
  confidence = none;
  comment = none;
  updated_at = at 100;
}

abbrev pub shop_world : World
shop_world = record due_world {
  catalogue = record {
    stores = main_shop ∷ other_shop ∷ [];
    categories = main_sticks ∷ other_sticks ∷ [];
    category_mappings = sticks_link ∷ [];
    products = main_stick ∷ other_stick ∷ other_glove ∷ [];
    product_mappings = glove_rejected ∷ [];
    price_history = [];
  };
}

-- The same before the categories were linked.
abbrev pub unlinked_world : World
unlinked_world = record due_world {
  catalogue = record (shop_world.catalogue) { category_mappings = [] };
}

abbrev pub scraped_stick : Scraped
scraped_stick = record {
  name = "bauer stick";
  price = some (pos 990000);
  currency = some "UAH";
  category_id = some 20;
  external_id = none;
  description = none;
  source_url = none;
  is_available = none;
  scrape_run_id = some 3;
}

abbrev pub targets : List Target
targets =
    record { product = other_stick; category = other_sticks }
    ∷ record { product = other_glove; category = other_sticks }
    ∷ []

abbrev contains : String → String → Bool
contains t s = ltb (find t s) (len t)

abbrev found_brand : String → String → Option Match
found_brand pattern t =
    if (str_eq pattern "\\bbauer\\b" && contains t "bauer")
      || (str_eq pattern "\\bccm\\b" && contains t "ccm")
    then some (none ∷ [])
    else none

abbrev count_from : ℕ → ℕ → List ℕ
count_from i zero = []
count_from i (suc n) = i ∷ count_from (suc i) n

abbrev up_to : ℕ → List ℕ
up_to n = count_from 0 n

-- Titles score 90 where they are the same, and 30 else.
instance unfoldable pub sample_matcher : Matcher
sample_matcher = record {
  re_search = λ ignore_case pattern t. found_brand pattern t;
  re_finditer = λ ignore_case pattern t. [];
  re_sub = λ ignore_case pattern by t. t;
  lower = λ t. t;
  upper = λ t. t;
  strip = λ t. t;
  rstrip_dots = λ t. t;
  replace = λ old new t. t;
  has_digit = λ t. false;
  int_of = λ t. none;
  tenths_of = λ t. none;
  token_set_ratio = λ s t. if str_eq s t then 90000000 else 30000000;
  extract = λ s norms limit. take limit (up_to (length norms));
}

abbrev pub no_price : Option ℤ → Option String → String
no_price price currency = ""

abbrev pub item_of : ℕ → String → Item
item_of i name = record { db_id = i; name = name; price = none; price_raw = ""; url = name }
