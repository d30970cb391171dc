-- ===== src/Models/Catalogue.antt =====
-- pricewatch/db/models.py: the catalogue's tables: stores, categories, products with their prices,
-- and the mappings between the reference side and the target side.
--
-- A price is a whole number of ten-thousandths (the column is `Numeric(12, 4)`), a confidence one of
-- millionths.
use managment2_main.Base.{ℕ, ℤ, String, Bool, Option, List}
use managment2_main.Models.{Datetime}

pub record Store : Type 0 where
  pub id : ℕ
  pub name : String
  pub is_reference : Bool
  pub base_url : Option String

pub record Category : Type 0 where
  pub id : ℕ
  pub store_id : ℕ
  pub external_id : Option String
  pub name : String
  pub normalized_name : Option String
  pub url : Option String
  pub updated_at : Datetime

pub record CategoryMapping : Type 0 where
  pub id : ℕ
  pub reference_category_id : ℕ
  pub target_category_id : ℕ
  pub match_type : Option String
  pub confidence : Option ℕ
  pub updated_at : Datetime

pub record Product : Type 0 where
  pub id : ℕ
  pub store_id : ℕ
  pub category_id : Option ℕ
  pub scrape_run_id : Option ℕ
  pub external_id : Option String
  pub name : String
  pub normalized_name : Option String
  pub name_hash : Option String
  pub price : Option ℤ
  pub currency : Option String
  pub description : Option String
  pub product_url : String
  pub source_url : Option String
  pub is_available : Bool
  pub scraped_at : Option Datetime
  pub updated_at : Datetime

pub record ProductMapping : Type 0 where
  pub id : ℕ
  pub reference_product_id : ℕ
  pub target_product_id : ℕ
  pub match_status : Option String
  pub confidence : Option ℕ
  pub comment : Option String
  pub updated_at : Datetime

pub record ProductPriceHistory : Type 0 where
  pub id : ℕ
  pub product_id : ℕ
  pub price : Option ℤ
  pub currency : Option String
  pub source_url : Option String
  pub scrape_run_id : Option ℕ
  pub captured_at : Datetime

-- The tables.
pub record Catalogue : Type 0 where
  pub stores : List Store
  pub categories : List Category
  pub category_mappings : List CategoryMapping
  pub products : List Product
  pub product_mappings : List ProductMapping
  pub price_history : List ProductPriceHistory
