-- ===== src/Engine/Order.antt =====
-- What `ORDER BY` gives a query: the same rows, and the least one first.
use mathlib.Core.Bool.{Bool-set}
use mathlib.Core.Logic.Or
use mathlib.Core.List.{Pairwise, mem-cons, not-mem-nil}
use mathlib.Core.List.Perm
use managment2_main.Base.{
  ◌≡◌, true, none, some, Bool, List, [], ◌∷◌, Mem, head?, tally, length, tally-all, inl, inr,
  tally-perm,
}
use managment2_main.Engine.{Engine, EngineLaws, IsOrder}

module _ {A : Type 0} (le : A → A → Bool) (o : IsOrder le) where
  le_refl : (a : A) → le a a ≡ true
  le_refl a = elim (o.total a a) [ inl h ↦ h | inr h ↦ h ]

  head_least :
      (xs : List A) {a b : A}
      → Pairwise (λ x y. le x y ≡ true) xs
      → head? xs ≡ some a
      → Mem b xs
      → le a b ≡ true
  head_least [] s h m = absurd (not-mem-nil m)
  head_least (x ∷ xs) {a} {b} (Pairwise.cons first _) h m =
      Or.elim (Bool-set _ _) (mem-cons.0 m) same (λ t. let e : a ≡ x = cc in rw e (first b t))
    where
      same : b ≡ x → le a b ≡ true
      same p = let e : a ≡ x = cc in rw (e, p) (le_refl x)

module _ {A : Type 0} where
  mem-of_head? : (xs : List A) {a : A} → head? xs ≡ some a → Mem a xs
  mem-of_head? [] h = absurd (cc)
  mem-of_head? (x ∷ xs) {a} h = mem-cons.1 (Or.inl (cc))

  not-mem-of_head? : (xs : List A) {a : A} → head? xs ≡ none → ¬ Mem a xs
  not-mem-of_head? [] h m = not-mem-nil m
  not-mem-of_head? (x ∷ xs) h m = absurd (cc)

module _ {e : Engine} (laws : EngineLaws e) {A : Type 0} (le : A → A → Bool) (xs : List A) where
  pub mem-of_order_by : {a : A} → Mem a (e.order_by A le xs) → Mem a xs
  mem-of_order_by m = (Perm.mem_iff (laws.order_by_perm A le xs)).0 m

  pub mem-order_by : {a : A} → Mem a xs → Mem a (e.order_by A le xs)
  mem-order_by m = (Perm.mem_iff (laws.order_by_perm A le xs)).1 m

  pub tally-order_by : (q : A → Bool) → tally q (e.order_by A le xs) ≡ tally q xs
  tally-order_by q = tally-perm q (laws.order_by_perm A le xs)

  pub length-order_by : length (e.order_by A le xs) ≡ length xs
  length-order_by =
      rw (← tally-all (e.order_by A le xs), ← tally-all xs) (tally-order_by (λ _. true))

  pub mem-head?-order_by : {a : A} → head? (e.order_by A le xs) ≡ some a → Mem a xs
  mem-head?-order_by h = mem-of_order_by (mem-of_head? (e.order_by A le xs) h)

  pub order_by_empty : {a : A} → head? (e.order_by A le xs) ≡ none → ¬ Mem a xs
  order_by_empty h m = not-mem-of_head? (e.order_by A le xs) h (mem-order_by m)

  pub order_by_least :
      {a b : A} → IsOrder le → head? (e.order_by A le xs) ≡ some a → Mem b xs → le a b ≡ true
  order_by_least o h m =
      head_least le o (e.order_by A le xs) (laws.order_by_sorted A le o xs) h (mem-order_by m)
