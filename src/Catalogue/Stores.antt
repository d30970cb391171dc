-- ===== src/Catalogue/Stores.antt =====
-- pricewatch/db/repositories/store_repository.py and pricewatch/services/store_service.py.
--
-- An adapter is what `sync_with_registry` reads of it; the reference adapter of the registry is an
-- argument (`none` where `reference_adapter()` raises or there is none).
use Prim.Native.String.{◌++◌ as str_append, ◌∷◌}
use text.Mathlib.Text.{starts_with}
use managment2_main.Base.{
  [], ◌∷◌, ℕ, String, Bool, true, false, not, Option, none, some, List, select, str_eq,
  if◌then◌else◌, ◌||◌,
}
use managment2_main.Models.{store_not_found}
use managment2_main.Models.Catalogue.{Store}
use managment2_main.Engine.{Engine}
use managment2_main.Session.{World, Action, pure, gets, or_raise, ◌>>=◌, ◌>>◌}
use managment2_main.Query.{one_row}
use managment2_main.Catalogue.{store_row, change_store, add_store}

abbrev pub has_name : String → Store → Bool
has_name name s = str_eq s.name name

unfoldable pub get_store_by_name : String → Action (Option Store)
get_store_by_name name = one_row (λ w. w.catalogue.stores) (has_name name)

-- `base_url is not None and base_url != store.base_url`
abbrev pub other_url : Option String → Option String → Bool
other_url none stored = false
other_url (some url) none = true
other_url (some url) (some stored) = not (str_eq url stored)

abbrev pub same_flag : Bool → Bool → Bool
same_flag true b = b
same_flag false b = not b

abbrev pub with_url : Option String → Store → Store
with_url url s = if other_url url s.base_url then record s { base_url = url } else s

abbrev pub with_meta : Bool → Option String → Store → Store
with_meta is_reference url s = record (with_url url s) { is_reference = is_reference }

abbrev pub new_store : String → Bool → Option String → ℕ → Store
new_store name is_reference url i = record {
  id = i;
  name = name;
  is_reference = is_reference;
  base_url = url;
}

-- `getattr(adapter, ...)` of an adapter.
pub record AdapterInfo : Type 0 where
  pub name : String
  pub base_url : Option String
  pub domains : List String
  pub is_reference : Bool

abbrev pub has_text : String → List String → Bool
has_text t [] = false
has_text t (s ∷ texts) = str_eq t s || has_text t texts

-- The first domain as an address.
abbrev pub domain_url : List String → Option String
domain_url [] = none
domain_url (domain ∷ domains) =
    if starts_with domain "http://" || starts_with domain "https://"
    then some domain
    else some (str_append "https://" domain)

-- `_adapter_base_url`: an empty address is none.
abbrev pub adapter_base_url : AdapterInfo → Option String
adapter_base_url a = elim a.base_url [
  | none ↦ domain_url a.domains
  | some url ↦ if str_eq url "" then domain_url a.domains else some url
]

module _ ⦃e : Engine⦄ where
  unfoldable pub list_stores : World → List Store
  list_stores w = e.order_by Store (λ a b. e.text_le a.name b.name) w.catalogue.stores

  unfoldable pub write_store : String → Bool → Option String → Option Store → Action Store
  unfolding ◌>>=◌
  write_store name is_reference url none = add_store (new_store name is_reference url)
  write_store name is_reference url (some store) = do
    change_store store.id (with_meta is_reference url)
    pure (with_meta is_reference url store)

  unfoldable pub get_or_create_store : String → Bool → Option String → Action Store
  unfolding ◌>>=◌
  get_or_create_store name is_reference url = do
    store ← get_store_by_name name
    write_store name is_reference url store

  -- `StoreService`
  unfoldable pub get_store : ℕ → Action Store
  unfolding ◌>>=◌
  get_store i = do store ← gets (store_row i); or_raise (store_not_found i) store

  unfoldable pub get_reference_store : World → Option Store
  get_reference_store w = e.pick Store (select (λ s. s.is_reference) w.catalogue.stores)

  unfoldable pub register_store : String → Option String → Bool → Action Store
  register_store name url is_reference = get_or_create_store name is_reference url

  -- `register_store` for each adapter; the result is the names of the stores.
  unfoldable pub register_adapters : List AdapterInfo → Action (List String)
  unfolding ◌>>=◌
  register_adapters [] = pure []
  register_adapters (a ∷ adapters) = do
    store ← register_store a.name (adapter_base_url a) a.is_reference
    names ← register_adapters adapters
    pure (store.name ∷ names)

  -- The reference adapter, where no adapter of the registry has its name.
  unfoldable pub register_reference : List String → Option AdapterInfo → Action (Unit {0})
  unfolding ◌>>=◌
  register_reference names none = pure tt
  register_reference names (some a) =
      if has_text a.name names
      then pure tt
      else (do added ← register_store a.name (adapter_base_url a) true; pure tt)

  unfoldable pub sync_with_registry : List AdapterInfo → Option AdapterInfo → Action (List Store)
  unfolding ◌>>=◌
  sync_with_registry adapters reference = do
    names ← register_adapters adapters
    register_reference names reference
    gets list_stores
