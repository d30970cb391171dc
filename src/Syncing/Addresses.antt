-- ===== src/Syncing/Addresses.antt =====
-- The addresses of scraped items: one that the loop of a sync does not skip is not blank.
use managment2_main.Base.{
  ◌||◌, Bool, Bool-cases, inl, inr, ◌≡◌, refl, String, true, false, Option, none, some, str_eq,
  if◌then◌else◌,
}
use managment2_main.Syncing.{absolute_url, joined, normalize_product_url}
use managment2_main.Engine.{Engine}
use managment2_main.Catalogue.Linking.{or_empty}
use managment2_main.Syncing.Prices.{Importer}

-- The text begins with `http://` or `https://`.
abbrev pub is_web : Importer → String → Bool
is_web i base = i.starts_with base "http://" || i.starts_with base "https://"

-- What is documented of `str.strip` and `urljoin`: a stripped text stays as it is, and an absolute
-- address joined with a text that is not blank is not blank.
pub record ImporterLaws (e : Engine) (i : Importer) : Type 0 where
  pub strip_strip : (s : String) → e.strip (e.strip s) ≡ e.strip s
  pub urljoin_given :
      (base s u : String)
      → is_web i base ≡ true
      → str_eq (e.strip s) "" ≡ false
      → i.urljoin base s ≡ some u
      → str_eq (e.strip u) "" ≡ false

-- The address of a category, where it is given, begins with `http://` or `https://`.
abbrev pub IsWebAddress : Importer → Option String → Type 0
IsWebAddress i none = Unit {0}
IsWebAddress i (some base) = is_web i base ≡ true

module _ ⦃e : Engine⦄ ⦃i : Importer⦄ (laws : ImporterLaws e i) where
  if_given :
      (b : Bool) (s t : String)
      → (str_eq s "" ≡ false → str_eq (e.strip s) "" ≡ false)
      → (str_eq t "" ≡ false → str_eq (e.strip t) "" ≡ false)
      → str_eq (if b then s else t) "" ≡ false
      → str_eq (e.strip (if b then s else t)) "" ≡ false
  if_given true s t hs ht = hs
  if_given false s t hs ht = ht

  joined_given :
      (base trimmed : String) (o : Option String)
      → i.urljoin base trimmed ≡ o
      → is_web i base ≡ true
      → str_eq (e.strip trimmed) "" ≡ false
      → str_eq (joined trimmed o) "" ≡ false
      → str_eq (e.strip (joined trimmed o)) "" ≡ false
  joined_given base trimmed none h web given _ = given
  joined_given base trimmed (some u) h web given _ = laws.urljoin_given base trimmed u web given h

  absolute_url_given :
      (trimmed : String) (base : Option String)
      → IsWebAddress i base
      → str_eq (e.strip trimmed) "" ≡ false
      → str_eq (absolute_url trimmed base) "" ≡ false
      → str_eq (e.strip (absolute_url trimmed base)) "" ≡ false
  unfolding absolute_url
  absolute_url_given trimmed none web h given = h
  absolute_url_given trimmed (some base) web h given =
      if_given _ (joined trimmed (i.urljoin base trimmed)) trimmed
        (joined_given base trimmed (i.urljoin base trimmed) refl web h) (λ _. h) given

  -- An address that the loop does not skip is not blank.
  pub normalize_product_url_given :
      (raw base : Option String)
      → IsWebAddress i base
      → str_eq (or_empty (normalize_product_url raw base)) "" ≡ false
      → str_eq (e.strip (or_empty (normalize_product_url raw base))) "" ≡ false
  unfolding normalize_product_url
  normalize_product_url_given none base web given = absurd (cc)
  normalize_product_url_given (some raw) base web given =
      elim (Bool-cases (str_eq (e.strip raw) "")) [
        | inl blank ↦ let same : true ≡ false = rw blank at given in absurd (cc)
        | inr some_text ↦ rw some_text (
            absolute_url_given (e.strip raw) base web (rw (laws.strip_strip raw) some_text)
              (rw some_text at given))
      ]
