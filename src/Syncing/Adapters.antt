-- ===== src/Syncing/Adapters.antt =====
-- The adapters of shops as the syncs see them (pricewatch/core/plugin_base.py), and the choice of one for
-- a store: pricewatch/services/utils.py.
use managment2_main.Base.{
  String, Bool, true, false, ◌||◌, Option, none, some, List, [], ◌∷◌, find, str_eq, if◌then◌else◌,
}
use managment2_main.Models.{no_product_scraping}
use managment2_main.Models.Catalogue.{Store, Category}
use managment2_main.Session.{Result, raised}
use managment2_main.Catalogue.Linking.{or_empty}
use managment2_main.Syncing.Prices.{RawPrice, Importer}

-- The fields of an item of an adapter.
pub record RawProduct : Type 0 where
  pub name : Option String
  pub description : Option String
  pub external_id : Option String
  pub is_available : Option Bool
  pub product_url : Option String
  pub url : Option String
  pub source_url : Option String
  pub source : Option String
  pub source_site : Option String
  pub price : Option RawPrice
  pub price_raw : Option String
  pub currency : Option String

-- The same of a category.
pub record RawCategory : Type 0 where
  pub name : Option String
  pub url : Option String
  pub external_id : Option String

-- Which of the two methods an adapter has; an answer may be `None`.
pub data Scraper : Type 0 where
  by_category : (Category → Result (Option (List RawProduct))) → Scraper
  by_target : (String → Result (Option (List RawProduct))) → Scraper
  no_scraper : Scraper

pub record Adapter : Type 0 where
  pub name : String
  pub domains : List String
  pub is_reference : Bool
  pub scraper : Scraper
  -- `get_categories`
  pub categories : Result (Option (List RawCategory))

-- `ShopRegistry.reference_adapter`; `none` where it raises.
unfoldable pub reference_adapter : List Adapter → Option Adapter
reference_adapter adapters = find (λ a. a.is_reference) adapters

-- `category.url or category.name`
abbrev target_of : Category → String
target_of c = if str_eq (or_empty c.url) "" then c.name else or_empty c.url

unfoldable pub fetch_with : Scraper → Category → Result (Option (List RawProduct))
fetch_with (by_category f) c = f c
fetch_with (by_target f) c = f (target_of c)
fetch_with no_scraper c = raised no_product_scraping

unfoldable pub fetch_products : Adapter → Category → Result (Option (List RawProduct))
fetch_products adapter c = fetch_with adapter.scraper c

unfoldable pub get_categories : Adapter → Result (Option (List RawCategory))
get_categories adapter = adapter.categories

module _ ⦃i : Importer⦄ where
  -- `any(host == d or host.endswith(f".{d}") for d in domains)`
  unfoldable pub has_domain : String → List String → Bool
  has_domain host [] = false
  has_domain host (d ∷ domains) =
      str_eq host d || i.ends_with_domain host d || has_domain host domains

  abbrev or_reference : Bool → List Adapter → Option Adapter → Option Adapter
  or_reference is_reference adapters (some a) = some a
  or_reference true adapters none = reference_adapter adapters
  or_reference false adapters none = none

  abbrev host_of : String → String
  host_of base_url = i.netloc (if i.starts_with base_url "http" then base_url else i.https base_url)

  -- `if store.base_url: …`
  abbrev by_domain : Option String → List Adapter → Option Adapter
  by_domain none adapters = none
  by_domain (some base_url) adapters =
      if str_eq base_url ""
      then none
      else find (λ a. has_domain (host_of base_url) a.domains) adapters

  abbrev or_by_domain : Store → List Adapter → Option Adapter → Option Adapter
  or_by_domain store adapters (some a) = some a
  or_by_domain store adapters none = by_domain store.base_url adapters

  unfoldable pub resolve_adapter_for_store : List Adapter → Store → Option Adapter
  resolve_adapter_for_store adapters store =
      or_reference store.is_reference adapters
        (or_by_domain store adapters (find (λ a. str_eq a.name store.name) adapters))
