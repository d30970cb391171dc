-- ===== src/Gap.antt =====
-- pricewatch/db/repositories/gap_repository.py and pricewatch/services/gap_service.py: the review of
-- target-only products.
--
-- A status that is stored is in_progress or done; new is the absence of a row. The comparison whose
-- target-only items are reviewed, and the reference category, are arguments here.
pub mod View
pub mod Lookup
pub mod Store
pub mod Groups
pub mod Entries
pub mod Review
use managment2_main.Base.{
  ℕ, suc, ◌-◌, String, Bool, true, false, not, ◌&&◌, ◌||◌, Option, none, some, List, [], ◌∷◌, ◌++◌,
  map, length, tally, select, find, ◌==◌, str_eq, if◌then◌else◌,
}
use managment2_main.Models.{Datetime, GapItemStatus, Error, invalid_gap_status, category_not_found}
use managment2_main.Query.{one_or_none}
use managment2_main.Engine.{Engine}
use managment2_main.Session.{
  World, Result, ok, raised, Action, pure, raise, gets, lift, ◌>>=◌, ◌>>◌, change_gap_statuses,
  add_gap_status, utcnow,
}

-- `status in ALLOWED_STATUSES`
abbrev pub is_allowed : String → Bool
is_allowed status = str_eq status "in_progress" || str_eq status "done"

-- The filter on the pair.
abbrev pub is_pair : ℕ → ℕ → GapItemStatus → Bool
is_pair category product g =
    (g.reference_category_id == category) && (g.target_product_id == product)

abbrev pub status_or_new : Option GapItemStatus → String
status_or_new none = "new"
status_or_new (some g) = g.status

unfoldable pub get_gap_status : ℕ → ℕ → Action String
unfolding ◌>>=◌
get_gap_status category product = do
  rows ← gets (λ w. select (is_pair category product) w.gap_statuses)
  row ← lift (one_or_none rows)
  pure (status_or_new row)

abbrev pub new_gap_status : ℕ → ℕ → String → Datetime → ℕ → GapItemStatus
new_gap_status category product status now i = record {
  id = i;
  reference_category_id = category;
  target_product_id = product;
  status = status;
  updated_at = now;
}

abbrev pub with_status : String → Datetime → GapItemStatus → GapItemStatus
with_status status now g = record g { status = status; updated_at = now }

-- `{row.target_product_id: row.status for row in rows}` as a list of pairs, and `get` on it: a later
-- pair of a key replaces an earlier one.
unfoldable pub dict_get : ℕ → List (ℕ × String) → Option String
dict_get product [] = none
dict_get product ((p, status) ∷ rest) = elim (dict_get product rest) [
  | some later ↦ some later
  | none ↦ if p == product then some status else none
]

-- `in` on a list of ids.
abbrev pub is_listed : ℕ → List ℕ → Bool
is_listed p [] = false
is_listed p (q ∷ ids) = (p == q) || is_listed p ids

unfoldable pub bulk_get_gap_statuses : ℕ → List ℕ → World → List (ℕ × String)
bulk_get_gap_statuses category ids w =
    map (λ g. (g.target_product_id, g.status))
      (select (λ g. (g.reference_category_id == category) && is_listed g.target_product_id ids)
        w.gap_statuses)

module _ ⦃e : Engine⦄ where
  unfoldable pub write_gap_status : ℕ → ℕ → String → Option GapItemStatus → Action GapItemStatus
  unfolding ◌>>=◌
  write_gap_status category product status none = do
    now ← utcnow
    add_gap_status (new_gap_status category product status now)
  write_gap_status category product status (some row) = do
    now ← utcnow
    change_gap_statuses (λ g. g.id == row.id) (with_status status now)
    pure (with_status status now row)

  unfoldable pub upsert_gap_status : ℕ → ℕ → String → Action GapItemStatus
  unfolding ◌>>=◌
  upsert_gap_status category product status =
      if is_allowed status
      then (do
        rows ← gets (λ w. select (is_pair category product) w.gap_statuses)
        row ← lift (one_or_none rows)
        write_gap_status category product status row)
      else raise (invalid_gap_status status)

  -- `GapService.set_gap_item_status`; the row is the response.
  unfoldable pub set_gap_item_status : ℕ → ℕ → String → Action GapItemStatus
  unfolding upsert_gap_status
  set_gap_item_status category product status =
      if is_allowed status
      then upsert_gap_status category product status
      else raise (invalid_gap_status status)
