-- ===== src/Runs/RetryOrder.antt =====
-- The order in which `list_retry_candidates` fills its limit: by the end of the runs.
use mathlib.Core.Logic.Or
use mathlib.Core.List.{Pairwise, mem-cons, not-mem-nil, mem-cons_of_mem}
use managment2_main.Base.{
  ℕ, zero, suc, ◌≤◌, ◌≡◌, ◌⊎◌, refl, true, Bool, Option, none, some, List, [], ◌∷◌, Mem, take,
  length, arith,
}
use mathlib.Core.Logic.{◌∨₁◌, ∥∥₁_prop}
use mathlib.Core.Bool.{Bool-set}
use managment2_main.Models.{Datetime, instant, ScrapeRun}
use managment2_main.Engine.{IsOrder}
use managment2_main.RunRows.{finished_le}

-- The end of one run is not after that of another; a run with no end comes last.
abbrev pub NotAfter : Option Datetime → Option Datetime → Type 0
NotAfter (some s) (some t) = instant s ≤ instant t
NotAfter s none = Unit {0}
NotAfter none (some t) = ⊥

pub finished_le-NotAfter :
    (a b : ScrapeRun) (s t : Option Datetime)
    → finished_le (record a { finished_at = s }) (record b { finished_at = t }) ≡ true
    → NotAfter s t
unfolding finished_le
finished_le-NotAfter a b none none h = tt
finished_le-NotAfter a b none (some t) h = absurd (cc)
finished_le-NotAfter a b (some s) none h = tt
finished_le-NotAfter a b (some s) (some t) h = ground arith

finished_le_trans :
    (a b c : ScrapeRun) → finished_le a b ≡ true → finished_le b c ≡ true → finished_le a c ≡ true
unfolding finished_le
finished_le_trans a b c h k = ground arith

finished_le_total : (a b : ScrapeRun) → (finished_le a b ≡ true) ⊎ (finished_le b a ≡ true)
unfolding finished_le
finished_le_total a b = ground arith

pub finished_le-IsOrder : IsOrder finished_le
finished_le-IsOrder = record { total = finished_le_total; trans = finished_le_trans }

-- A row of a sorted list is among the first `n`, or these are `n` rows that do not come after it.
module _ {A : Type 0} (le : A → A → Bool) where
  abbrev pub NotListed : ℕ → List A → A → Type 0
  NotListed n front x = (length front ≡ n) × ((y : A) → Mem y front → le y x ≡ true)

  keep_front :
      (n : ℕ) (a x : A) (front : List A)
      → le a x ≡ true
      → Mem x front ∨₁ NotListed n front x
      → Mem x (a ∷ front) ∨₁ NotListed (suc n) (a ∷ front) x
  keep_front n a x front before h =
      Or.elim ∥∥₁_prop h (λ m. Or.inl (mem-cons_of_mem a m))
        (λ out. Or.inr (
          omega (arith, out.0),
          λ y m. Or.elim (Bool-set _ _) (mem-cons.0 m) (λ same. rw same before) (out.1 y),
        ))

  pub take-sorted :
      (n : ℕ) (xs : List A) (x : A)
      → Pairwise (λ a b. le a b ≡ true) xs
      → Mem x xs
      → Mem x (take n xs) ∨₁ NotListed n (take n xs) x
  take-sorted zero xs x s m = Or.inr (refl, λ y none. absurd (not-mem-nil none))
  take-sorted (suc n) [] x s m = absurd (not-mem-nil m)
  take-sorted (suc n) (a ∷ xs) x (Pairwise.cons first s) m =
      Or.elim ∥∥₁_prop (mem-cons.0 m) (λ same. Or.inl (mem-cons.1 (Or.inl same)))
        (λ later. keep_front n a x (take n xs) (first x later) (take-sorted n xs x s later))
