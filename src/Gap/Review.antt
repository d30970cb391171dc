-- ===== src/Gap/Review.antt =====
-- The gap view as a whole: its statuses, its groups and its summary.
use mathlib.Core.Bool.{Bool-set}
use mathlib.Core.Logic.Or
use mathlib.Core.List.{mem-cons, not-mem-nil}
use managment2_main.Gap.Entries.{status_in, dict_get-entries}
use managment2_main.Gap.View.{
  or_new, TargetOnly, Enriched, GapView, product_id, product_ids, enrich, build_summary,
  as_group_item, visible_items, gap_view, build_gap_view,
}
use managment2_main.Gap.{status_or_new, get_gap_status, bulk_get_gap_statuses, is_pair, is_listed}
use managment2_main.Models.{GapItemStatus}
use managment2_main.Base.{
  String, Option, Option-cases, ==_refl, inl, inr, true, none, some, map, select, arith, Mem, refl,
  ℕ, ◌≡◌, Bool, List, [], ◌∷◌, find, length, ◌+◌,
}
use managment2_main.Gap.Groups.{items_of, in_category, build_summary_lem, group_by_category_lem}
use managment2_main.Gap.Lookup.{Stored, get_gap_status-eq}
use managment2_main.Session.{ok, World, Result}

product_ids_with :
    (q : ℕ) (x : TargetOnly) (items : List TargetOnly)
    → product_id x.target_product ≡ some q
    → product_ids (x ∷ items) ≡ q ∷ product_ids items
unfolding product_ids
product_ids_with q x items h = rw h refl

product_ids_without :
    (x : TargetOnly) (items : List TargetOnly)
    → product_id x.target_product ≡ none
    → product_ids (x ∷ items) ≡ product_ids items
unfolding product_ids
product_ids_without x items h = rw h refl

listed-product_ids :
    (n : ℕ) (item : TargetOnly) (items : List TargetOnly)
    → Mem item items
    → product_id item.target_product ≡ some n
    → is_listed n (product_ids items) ≡ true
listed-product_ids n item [] m h = absurd (not-mem-nil m)
listed-product_ids n item (x ∷ items) m h =
    Or.elim (Bool-set _ _) (mem-cons.0 m)
      (λ same.
        let here : product_id x.target_product ≡ some n = rw (← same) h in
        rw (product_ids_with n x items here, ==_refl n) refl)
      (λ t. elim (Option-cases (product_id x.target_product)) [
        | inl nothing ↦
            rw (product_ids_without x items nothing) (listed-product_ids n item items t h)
        | inr (q, found) ↦
            rw (product_ids_with q x items found, listed-product_ids n item items t h)
              (ground arith)
      ])

status_lem :
    (o : Option GapItemStatus) (w : World)
    → Path (Result String × World) (ok (status_or_new o), w) (ok (or_new (status_in o)), w)
status_lem none w = refl
status_lem (some g) w = refl

-- What a review shows, and how it relates to the table and to the comparison's items.
pub record Reviewed (strip lower : String → String) (contains : String → String → Bool)
    (category : ℕ) (sought : Option String) (only_available : Option Bool)
    (statuses : Option (List String)) (w : World) (items : List TargetOnly) (view : GapView)
    : Type 0 where
  pub shown : List Enriched
  pub each_shown : shown ≡ map (enrich (bulk_get_gap_statuses category (product_ids items) w)) items
  pub total : view.summary.total ≡ length shown
  pub parts : view.summary.new + view.summary.in_progress + view.summary.done ≡ view.summary.total
  pub grouped :
      (k : Option ℕ)
      → items_of k view.groups
        ≡ map as_group_item (
            select
              (in_category k)
              (visible_items strip lower contains sought only_available statuses shown))
  pub read_alike :
      (item : TargetOnly) (n : ℕ)
      → Mem item items
      → product_id item.target_product ≡ some n
      → get_gap_status category n w
        ≡ (ok (enrich (bulk_get_gap_statuses category (product_ids items) w) item).status, w)

module _ (strip lower : String → String) (contains : String → String → Bool) where
  -- A view of a known category whose comparison succeeds changes nothing; every target-only item is
  -- counted once in its summary, whatever the filters; the groups hold exactly the items that pass the
  -- filters, by category and in their order; and the status shown of a product is the one that a single
  -- read returns.
  pub build_gap_view_lem :
      (known : World → Bool) (compare : World → Result (List TargetOnly)) (category : ℕ)
      (sought : Option String) (only_available : Option Bool) (statuses : Option (List String))
      (w : World) (items : List TargetOnly)
      → Stored w.gap_statuses
      → known w ≡ true
      → compare w ≡ ok items
      → (view : GapView) × (build_gap_view strip lower contains known compare category sought
            only_available statuses w
          ≡ (ok view, w))
        × Reviewed strip lower contains category sought only_available statuses w items view
  unfolding build_gap_view gap_view build_summary bulk_get_gap_statuses
  build_gap_view_lem known compare category sought only_available statuses w items s here done =
      let persisted = bulk_get_gap_statuses category (product_ids items) w in
      let shown : List Enriched = map (enrich persisted) items in
      (
        gap_view strip lower contains sought only_available statuses shown,
        rw (here, done) refl,
        record {
          shown = shown;
          each_shown = refl;
          total = refl;
          parts = (build_summary_lem shown).0;
          grouped = λ k.
              (group_by_category_lem k
                (visible_items strip lower contains sought only_available statuses shown)).0;
          read_alike = λ item n m h.
              rw
                (
                  get_gap_status-eq category n w (s.unique_pair category n),
                  h,
                  dict_get-entries category n (product_ids items) w.gap_statuses
                      (s.unique_pair category n) (listed-product_ids n item items m h),
                )
                (status_lem (find (is_pair category n) w.gap_statuses) w);
        },
      )
