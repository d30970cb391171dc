-- ===== src/Engine.antt =====
-- What the program calls and does not implement: the clock, `random.randint`, the IANA time zone
-- database (`zoneinfo`), the `croniter` package, and the parts of a SQL query that the database
-- decides (the row order of `ORDER BY`, the identifiers of new rows).
pub mod Order
use mathlib.Core.List.{Perm, Pairwise}
use managment2_main.Base.{
  ℕ, ◌≤◌, ◌<◌, String, ◌≡◌, ◌⊎◌, Bool, true, Option, none, some, List, [], Mem,
}

-- A `zoneinfo.ZoneInfo`, known by its key.
pub record ZoneInfo : Type 0 where
  pub key : String

pub record Engine : Type 1 where
  -- the n-th reading of the clock, in microseconds, and the n-th draw of `random.randint(0, k)`
  pub clock : ℕ → ℕ
  pub randint : ℕ → ℕ → ℕ
  -- whether `ZoneInfo(name)` finds the zone; UTC to local wall time; wall time with fold 0 to UTC
  pub zone_known : String → Bool
  pub to_local : ZoneInfo → ℕ → ℕ
  pub to_utc : ZoneInfo → ℕ → ℕ
  -- `croniter(expr, start_time=t).get_next()`; `none` where the expression is refused
  pub cron_next : String → ℕ → Option ℕ
  -- `ORDER BY` by the keys that the comparison stands for; `first()` with no `ORDER BY`; the id of a
  -- row to insert
  pub order_by : (A : Type 0) → (A → A → Bool) → List A → List A
  pub pick : (A : Type 0) → List A → Option A
  pub next_id : List ℕ → ℕ
  -- whether `DESC` puts NULL first (PostgreSQL) or last (SQLite)
  pub desc_nulls_first : Bool
  -- `column ILIKE pattern`; the order of texts; `str.lower`, `str.strip`, `re.sub(pattern, by, text)`
  -- and the hexadecimal SHA-256 digest of the UTF-8 text
  pub ilike : String → String → Bool
  pub text_le : String → String → Bool
  pub lower : String → String
  pub strip : String → String
  pub re_sub : String → String → String → String
  pub sha256 : String → String

-- A comparison of rows by sort keys.
pub record IsOrder {A : Type 0} (le : A → A → Bool) : Type 0 where
  pub total : (a b : A) → (le a b ≡ true) ⊎ (le b a ≡ true)
  pub trans : (a b c : A) → le a b ≡ true → le b c ≡ true → le a c ≡ true

-- The documented behaviour that the program relies on.
pub record EngineLaws (e : Engine) : Type 1 where
  pub randint_le : (n k : ℕ) → e.randint n k ≤ k
  pub cron_later : (x : String) (t u : ℕ) → e.cron_next x t ≡ some u → t < u
  pub order_by_perm : (A : Type 0) (le : A → A → Bool) (xs : List A) → Perm (e.order_by A le xs) xs
  pub order_by_sorted :
      (A : Type 0) (le : A → A → Bool)
      → IsOrder le
      → (xs : List A) → Pairwise (λ a b. le a b ≡ true) (e.order_by A le xs)
  pub pick_mem : (A : Type 0) (xs : List A) (a : A) → e.pick A xs ≡ some a → Mem a xs
  pub pick_none : (A : Type 0) (xs : List A) → e.pick A xs ≡ none → xs ≡ []
  pub next_id_fresh : (ids : List ℕ) → ¬ Mem (e.next_id ids) ids
