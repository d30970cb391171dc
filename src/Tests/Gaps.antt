-- ===== src/Tests/Gaps.antt =====
-- The theorems on the gap review at a concrete table and comparison.
use managment2_main.Base.{
  ◌≡◌, refl, String, true, false, none, some, [], ◌∷◌, map, select, tally, arith, str_eq,
}
use managment2_main.Models.{GapItemStatus}
use managment2_main.Session.{World, ok}
use managment2_main.Sample.{sample_engine, sample_laws}
use managment2_main.Sample.World.{due_world, at}
use managment2_main.Gap.{get_gap_status, upsert_gap_status}
use managment2_main.Gap.Lookup.{Stored}
use managment2_main.Gap.Store.{get_gap_status-upsert_gap_status}
use managment2_main.Gap.View.{
  TargetOnly, Enriched, GapView, as_group_item, group_by_category, build_gap_view,
}
use managment2_main.Gap.Groups.{in_category, items_of, count_of, group_by_category_lem}
use managment2_main.Gap.Review.{Reviewed, build_gap_view_lem}

abbrev stick_done : GapItemStatus
stick_done = record {
  id = 1;
  reference_category_id = 4;
  target_product_id = 9;
  status = "done";
  updated_at = at 100;
}

abbrev gap_world : World
gap_world = record due_world { gap_statuses = stick_done ∷ [] }

gap_world-Stored : Stored gap_world.gap_statuses
unfolding tally
gap_world-Stored = record { unique_id = λ i. ground arith; unique_pair = λ c p. ground arith }

get_gap_status-upsert_gap_status_example :
    (get_gap_status 4 9 (upsert_gap_status 4 9 "in_progress" gap_world).1).0 ≡ ok "in_progress"
get_gap_status-upsert_gap_status_example =
    get_gap_status-upsert_gap_status sample_laws 4 9 4 9 "in_progress" gap_world gap_world-Stored
      refl

abbrev stick : TargetOnly
stick = record {
  target_product = some (record { id = some 9; name = some "Stick"; is_available = true });
  target_category = some (record { id = some 2; name = some "Sticks" });
}

abbrev puck : TargetOnly
puck = record {
  target_product = some (record { id = some 8; name = some "Puck"; is_available = false });
  target_category = none;
}

abbrev plain : Enriched
plain = record {
  target_product = stick.target_product;
  target_category = stick.target_category;
  status = "new";
}

group_by_category_lem_example :
    (items_of (some 2) (group_by_category (plain ∷ plain ∷ []))
      ≡ map as_group_item (select (in_category (some 2)) (plain ∷ plain ∷ [])))
    × (count_of (some 2) (group_by_category (plain ∷ plain ∷ []))
        ≡ tally (in_category (some 2)) (plain ∷ plain ∷ []))
group_by_category_lem_example = group_by_category_lem (some 2) (plain ∷ plain ∷ [])

abbrev same_text : String → String
same_text t = t

build_gap_view_lem_example :
    (view : GapView) × (build_gap_view same_text same_text str_eq
        (λ w. true)
        (λ w. ok (stick ∷ puck ∷ []))
        4
        none
        (some true)
        none
        gap_world
      ≡ (ok view, gap_world))
    × Reviewed same_text same_text str_eq 4 none (some true) none gap_world (stick ∷ puck ∷ []) view
build_gap_view_lem_example =
    build_gap_view_lem same_text same_text str_eq (λ w. true) (λ w. ok (stick ∷ puck ∷ [])) 4 none
      (some true) none gap_world (stick ∷ puck ∷ []) gap_world-Stored refl refl
