-- ===== src/Catalogue/Linking/Complete.antt =====
-- What `auto_link` achieves: every pair of categories with one normal form is linked afterwards, no
-- link is lost, and the report counts the rows that were added.
use mathlib.Core.Logic.Or
use mathlib.Core.List.{mem-cons, not-mem-nil}
use native.Mathlib.Bridge.{le_prop}
use managment2_main.Catalogue.{store_row}
use managment2_main.Models.Catalogue.{Store, Category}
use managment2_main.Catalogue.Categories.{
  list_categories_by_store, is_category_pair, get_category_mapping,
}
use managment2_main.Engine.Order.{mem-order_by}
use managment2_main.Catalogue.Linking.{
  auto_link, nothing_linked, require, or_empty, same_name, Linked, link_new, link_pairs,
  link_category, link_categories,
}
use managment2_main.Base.{
  ℕ, ◌≡◌, refl, true, false, some, List, [], ◌∷◌, Mem, find, select, ◌==◌, ==_refl, Bool-cases, inl,
  inr, str_eq, mem-select,
}
use managment2_main.Engine.{Engine, EngineLaws}
use managment2_main.Session.{World, ◌>>=◌}
use managment2_main.Session.Yields.{Yields, Yields-bind, Yields-at, Yields-weaken}
use managment2_main.Query.Keyed.{one_row-eq}
use managment2_main.Catalogue.Linking.Step.{
  Stored, Has, Grows, Grows-same, Grows-trans, link_new_lem,
}

-- The two have one normal form, which is not empty.
unfoldable pub Alike : Category → Category → Type 0
Alike c t =
    (str_eq (or_empty c.normalized_name) "" ≡ false)
    × (str_eq (or_empty t.normalized_name) (or_empty c.normalized_name) ≡ true)

-- The stores fit: the reference store is one, the target store is none.
pub record Stores (reference target : ℕ) (w : World) : Type 0 where
  pub reference_row : Store
  pub target_row : Store
  pub reference_found : store_row reference w ≡ some reference_row
  pub target_found : store_row target w ≡ some target_row
  pub is_reference : reference_row.is_reference ≡ true
  pub is_target : target_row.is_reference ≡ false

module _ ⦃e : Engine⦄ (laws : EngineLaws e) where
  all_linked :
      (c t : Category) (ts : List Category) (w : World)
      → Has w c.id t.id
      → ((u : Category) → Mem u ts → Has w c.id u.id)
      → (u : Category) → Mem u (t ∷ ts)
      → Has w c.id u.id
  unfolding Has
  all_linked c t ts w here rest u m = Or.elim le_prop (mem-cons.0 m) (λ same. rw same here) (rest u)

  -- The pairs of one category.
  link_pairs_lem :
      (c : Category) (ts : List Category) (r : Linked) (w : World)
      → Stored w.catalogue.category_mappings
      → Yields
          (λ r' w'. Grows w r r' w' × ((t : Category) → Mem t ts → Has w' c.id t.id))
          (link_pairs c ts r w)
  unfolding link_pairs get_category_mapping
  link_pairs_lem c [] r w s = Yields-at r w (Grows-same w r r s refl, λ t m. absurd (not-mem-nil m))
  link_pairs_lem c (t ∷ ts) r w s =
      rw
        (one_row-eq (λ w. w.catalogue.category_mappings) (is_category_pair (c.id, t.id)) w
          (s.unique_key (c.id, t.id)))
        (Yields-bind
          (link_new c t r (find (is_category_pair (c.id, t.id)) w.catalogue.category_mappings))
          (λ next. link_pairs c ts next) w (link_new_lem laws c t r w s)
          (λ next v q. Yields-weaken (link_pairs_lem c ts next v q.0.stored) (λ r' w' q'.
            (Grows-trans q.0 q'.0, all_linked c t ts w' (q'.0.keeps c.id t.id q.1) q'.1))))

  link_category_lem :
      (c : Category) (ts : List Category) (r : Linked) (w : World)
      → Stored w.catalogue.category_mappings
      → Yields
          (λ r' w'. Grows w r r' w' × ((t : Category) → Mem t ts → Alike c t → Has w' c.id t.id))
          (link_category ts c r w)
  unfolding link_category same_name Alike ◌>>=◌
  link_category_lem c ts r w s = elim (Bool-cases (str_eq (or_empty c.normalized_name) "")) [
    | inl blank ↦ rw blank (Yields-at _ w (Grows-same w r _ s refl, λ t m a. absurd (cc (a.0))))
    | inr given ↦ rw given (
        Yields-weaken
          (link_pairs_lem c
            (select (λ t. str_eq (or_empty t.normalized_name) (or_empty c.normalized_name)) ts) r w
            s)
          (λ r' w' q. (
            q.0,
            λ t m a. q.1 t (
                mem-select (λ t. str_eq (or_empty t.normalized_name) (or_empty c.normalized_name))
                  ts m a.1),
          )))
  ]

  all-Alike :
      (c : Category) (cs ts : List Category) (w : World)
      → ((t : Category) → Mem t ts → Alike c t → Has w c.id t.id)
      → ((d t : Category) → Mem d cs → Mem t ts → Alike d t → Has w d.id t.id)
      → (d t : Category) → Mem d (c ∷ cs)
      → Mem t ts
      → Alike d t
      → Has w d.id t.id
  unfolding Has
  all-Alike c cs ts w here rest d t m mt a =
      Or.elim le_prop (mem-cons.0 m) (λ same. rw same (here t mt (rw same at a)))
        (λ later. rest d t later mt a)

  link_categories_lem :
      (ts cs : List Category) (r : Linked) (w : World)
      → Stored w.catalogue.category_mappings
      → Yields
          (λ r' w'.
            Grows w r r' w'
            × ((c t : Category) → Mem c cs → Mem t ts → Alike c t → Has w' c.id t.id))
          (link_categories ts cs r w)
  unfolding link_categories
  link_categories_lem ts [] r w s =
      Yields-at r w (Grows-same w r r s refl, λ c t m. absurd (not-mem-nil m))
  link_categories_lem ts (c ∷ cs) r w s =
      Yields-bind (link_category ts c r) (λ next. link_categories ts cs next) w
        (link_category_lem c ts r w s)
        (λ next v q. Yields-weaken (link_categories_lem ts cs next v q.0.stored) (λ r' w' q'. (
          Grows-trans q.0 q'.0,
          all-Alike c cs ts w' (λ t m a. q'.0.keeps c.id t.id (q.1 t m a)) q'.1,
        )))

  listed :
      (store : ℕ) (c : Category) (w : World)
      → Mem c w.catalogue.categories
      → c.store_id ≡ store
      → Mem c (list_categories_by_store store w)
  unfolding list_categories_by_store
  listed store c w m same = mem-order_by laws _ _ (
      mem-select (λ c. c.store_id == store) w.catalogue.categories m
        (rw (same, ==_refl store) refl))

  -- Where ids and pairs of the category mappings are unique and the two stores are a reference
  -- store and another one, the automatic linking returns; then every two categories of the stores
  -- with one normal form that is not empty are linked, no link is lost, ids and pairs are unique,
  -- and as many rows are added as the report lists.
  pub auto_link_complete :
      (reference target : ℕ) (w : World)
      → Stored w.catalogue.category_mappings
      → Stores reference target w
      → Yields
          (λ r w'.
            Grows w nothing_linked r w'
            × ((c t : Category)
                → Mem c w.catalogue.categories
                → Mem t w.catalogue.categories
                → c.store_id ≡ reference
                → t.store_id ≡ target
                → Alike c t
                → Has w' c.id t.id))
          (auto_link reference target w)
  unfolding auto_link require ◌>>=◌ list_categories_by_store
  auto_link_complete reference target w s h =
      rw (h.reference_found, h.target_found, h.is_reference, h.is_target)
        (Yields-weaken
          (link_categories_lem (list_categories_by_store target w)
            (list_categories_by_store reference w) nothing_linked w s)
          (λ r w' q. (
            q.0,
            λ c t mc mt ec et a. q.1 c t (listed reference c w mc ec) (listed target t w mt et) a,
          )))
