-- ===== src/Query.antt =====
-- The parts of a query that the repositories share: optional filters, pages and sort keys.
pub mod Keyed
use Prim.Native.Nat.{compare, Ordering}
use managment2_main.Base.{
  ℕ, Bool, true, false, Option, none, some, List, select, take, drop, [], ◌∷◌,
}
use managment2_main.Models.{Datetime, instant, multiple_rows}
use managment2_main.Session.{World, Result, ok, raised, Action, gets, lift, ◌>>=◌}

-- `if value is not None: q = q.filter(column == value)`
unfoldable pub filter_by {ℓ κ} :
    {A : Type ℓ} {B : Type κ} → Option A → (A → B → Bool) → List B → List B
filter_by none p rows = rows
filter_by (some a) p rows = select (p a) rows

abbrev limited {ℓ} : {A : Type ℓ} → Option ℕ → List A → List A
limited none rows = rows
limited (some n) rows = take n rows

abbrev from_offset {ℓ} : {A : Type ℓ} → Option ℕ → List A → List A
from_offset none rows = rows
from_offset (some n) rows = drop n rows

-- `LIMIT` and `OFFSET`, where given.
unfoldable pub page {ℓ} : {A : Type ℓ} → Option ℕ → Option ℕ → List A → List A
page limit offset rows = limited limit (from_offset offset rows)

-- A second sort key decides where the first one ties.
abbrev pub then_by : Ordering → Bool → Bool
then_by Ordering.lt rest = true
then_by Ordering.eq rest = rest
then_by Ordering.gt rest = false

abbrev pub reversed : Ordering → Ordering
reversed Ordering.lt = Ordering.gt
reversed Ordering.eq = Ordering.eq
reversed Ordering.gt = Ordering.lt

-- `column ASC NULLS LAST` on a datetime column, as a comparison of two values.
abbrev pub nulls_last : Option Datetime → Option Datetime → Ordering
nulls_last none none = Ordering.eq
nulls_last none (some b) = Ordering.gt
nulls_last (some a) none = Ordering.lt
nulls_last (some a) (some b) = compare (instant a) (instant b)

-- `column DESC`, with NULL first or last.
abbrev nulls_at : Bool → Ordering
nulls_at true = Ordering.lt
nulls_at false = Ordering.gt

abbrev pub desc : Bool → Option Datetime → Option Datetime → Ordering
desc first none none = Ordering.eq
desc first none (some b) = nulls_at first
desc first (some a) none = reversed (nulls_at first)
desc first (some a) (some b) = compare (instant b) (instant a)

abbrev pub is_lt_or_eq : Ordering → Bool
is_lt_or_eq o = then_by o true

-- `query.one_or_none()` on a table, with a test for the `WHERE` clause.
unfoldable pub one_or_none {ℓ} : {A : Type ℓ} → List A → Result (Option A)
one_or_none [] = ok none
one_or_none (x ∷ []) = ok (some x)
one_or_none (x ∷ y ∷ rows) = raised multiple_rows

unfoldable pub one_row {ℓ} : {A : Type ℓ} → (World → List A) → (A → Bool) → Action (Option A)
unfolding ◌>>=◌
one_row table p = do rows ← gets (λ w. select p (table w)); lift (one_or_none rows)
