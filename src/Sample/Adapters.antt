-- ===== src/Sample/Adapters.antt =====
-- An importer, and adapters of the sample shop.
use managment2_main.Base.{str_eq, ◌≡◌, refl, false, String, Option, none, some, List, [], ◌∷◌, pos}
use managment2_main.Sample.{sample_engine}
use managment2_main.Syncing.Addresses.{ImporterLaws}
use managment2_main.Models.{scraping_failed}
use managment2_main.Session.{ok, raised}
use managment2_main.Syncing.Prices.{RawPrice, Importer}
use managment2_main.Syncing.Adapters.{RawProduct, RawCategory, Scraper, Adapter}
use Prim.Native.String.{◌++◌ as str_append}
use Prim.Native.String.append
use Prim.Native.String.compare
use text.Mathlib.Text.{starts_with}

-- `urljoin` appends; `netloc` and `float` find nothing.
instance unfoldable pub sample_importer : Importer
sample_importer = record {
  starts_with = λ text start. starts_with text start;
  ends_with_domain = λ host domain. false;
  https = λ url. url;
  netloc = λ url. url;
  urljoin = λ base url. some (str_append base url);
  float_of = λ text. none;
}

append_given : (base s : String) → str_eq s "" ≡ false → str_eq (str_append base s) "" ≡ false
append_given String.[] s h = rw (append.nil s) h
append_given (String.◌∷◌ c base) s h =
    rw (append.cons c base s, compare.cons-nil c (str_append base s)) refl

pub importer_laws : ImporterLaws sample_engine sample_importer
unfolding sample_engine sample_importer
importer_laws = record {
  strip_strip = λ s. refl;
  urljoin_given = λ base s u web given joined.
      let same : str_append base s ≡ u = cc in rw (← same) (append_given base s given);
}

abbrev raw : Option String → Option String → RawProduct
raw name url = record {
  name = name;
  description = none;
  external_id = none;
  is_available = none;
  product_url = none;
  url = url;
  source_url = none;
  source = none;
  source_site = none;
  price = some (RawPrice.amount (pos 120000));
  price_raw = none;
  currency = none;
}

-- A new product, a known one, one without a name and one without an address.
abbrev pub four_items : List RawProduct
four_items =
    raw (some "ccm helmet") (some "other/9")
    ∷ raw (some "bauer stick") (some "other/2")
    ∷ raw none (some "other/3")
    ∷ raw (some "puck") none
    ∷ []

abbrev category : Option String → RawCategory
category name = record { name = name; url = none; external_id = none }

-- A known category, a new one, and one without a name.
abbrev pub three_categories : List RawCategory
three_categories = category (some "Sticks") ∷ category (some "Helmets") ∷ category (some "") ∷ []

abbrev pub working : Adapter
working = record {
  name = "Other";
  domains = [];
  is_reference = false;
  scraper = Scraper.by_category (λ c. ok (some four_items));
  categories = ok (some three_categories);
}

abbrev pub broken : Adapter
broken = record working { scraper = Scraper.by_category (λ c. raised (scraping_failed "timeout")) }
