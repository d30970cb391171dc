-- ===== src/Gap/Lookup.antt =====
-- Lookups of a pair in the table of gap statuses, where ids and pairs are unique.
use managment2_main.Base.{
  ℕ, ◌≤◌, ◌≡◌, refl, String, true, false, not, ◌&&◌, none, some, List, Mem, find, tally, update,
  arith, ◌==◌, ==_refl, tally-split, tally-pos_of_mem, Bool-cases, inl, inr, if◌then◌else◌,
}
use managment2_main.Models.{GapItemStatus, Datetime}
use managment2_main.Session.{World, ok}
use managment2_main.Query.Keyed
use managment2_main.Query.Keyed.{one_or_none-select}
use managment2_main.Gap.{is_pair, status_or_new, get_gap_status, with_status}

-- Ids are unique, and so are the pairs of a reference category and a target product.
pub record Stored (rows : List GapItemStatus) : Type 0 where
  pub unique_id : (i : ℕ) → tally (λ g. g.id == i) rows ≤ 1
  pub unique_pair : (c p : ℕ) → tally (is_pair c p) rows ≤ 1

-- What is read of a pair, where pairs are unique.
pub get_gap_status-eq :
    (c p : ℕ) (w : World)
    → tally (is_pair c p) w.gap_statuses ≤ 1
    → get_gap_status c p w ≡ (ok (status_or_new (find (is_pair c p) w.gap_statuses)), w)
unfolding get_gap_status
get_gap_status-eq c p w h = rw (one_or_none-select (is_pair c p) w.gap_statuses h) refl

pub find-update :
    (c p i : ℕ) (status : String) (now : Datetime) (rows : List GapItemStatus)
    → find (is_pair c p) (update (λ g. g.id == i) (with_status status now) rows)
      ≡ elim (find (is_pair c p) rows) [
        | some r ↦ some (if r.id == i then with_status status now r else r)
        | none ↦ none
      ]
find-update c p i status now rows =
    Keyed.find-update (is_pair c p) (λ g. g.id == i) (with_status status now) rows (λ g _. refl)

-- Two rows with one id are of one pair.
pub other_id :
    (c p : ℕ) (rows : List GapItemStatus) (row r : GapItemStatus)
    → Stored rows
    → Mem row rows
    → Mem r rows
    → is_pair c p row ≡ true
    → is_pair c p r ≡ false
    → (r.id == row.id) ≡ false
other_id c p rows row r s m m' here there = elim (Bool-cases (r.id == row.id)) [
  | inr other ↦ other
  | inl same ↦ absurd (
      omega (
        arith,
        s.unique_id row.id,
        tally-split (λ g. g.id == row.id) (is_pair c p) rows,
        tally-pos_of_mem (λ g. (g.id == row.id) && is_pair c p g) rows m
            (rw (==_refl row.id, here) refl),
        tally-pos_of_mem (λ g. (g.id == row.id) && not (is_pair c p g)) rows m'
            (rw (same, there) refl),
      ))
]
