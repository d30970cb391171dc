-- ===== src/Sample.antt =====
-- A concrete engine: insertion sort for `ORDER BY`, the next free number for ids, and clocks that
-- tick by one second. It shows that the assumed laws can be met.
pub mod World
pub mod Runners
pub mod Shop
pub mod Adapters
use Prim.Native.Nat.{max, ◌%◌}
use mathlib.Core.Bool.{Bool-set}
use mathlib.Core.Logic.Or
use mathlib.Core.List.{Perm, Pairwise, mem-cons, not-mem-nil, mem-cons_self, mem-cons_of_mem}
use mathlib.Core.List.Perm
use native.Mathlib.Bridge.{le_prop}
use native.Mathlib.Nat.{mod-lt}
use managment2_main.Base.{
  ℕ, suc, ◌+◌, ◌*◌, ◌≤◌, ◌<◌, ◌≡◌, refl, String, Bool, true, false, Option, none, some, List, [],
  ◌∷◌, Mem, head?, if◌then◌else◌, Bool-cases, inl, inr, arith, str_eq, ◌||◌, leb, ◌-◌,
}
use managment2_main.Engine.{ZoneInfo, Engine, EngineLaws, IsOrder}

module _ {A : Type 0} (le : A → A → Bool) where
  unfoldable pub insert : A → List A → List A
  insert a [] = a ∷ []
  insert a (x ∷ xs) = if le a x then a ∷ x ∷ xs else x ∷ insert a xs

  unfoldable pub sort : List A → List A
  unfolding insert
  sort [] = []
  sort (x ∷ xs) = insert x (sort xs)

  insert-perm : (a : A) (xs : List A) → Perm (insert a xs) (a ∷ xs)
  unfolding insert
  insert-perm a [] = Perm.refl (a ∷ [])
  insert-perm a (x ∷ xs) = elim (Bool-cases (le a x)) [
    | inl first ↦ rw first (Perm.refl (a ∷ x ∷ xs))
    | inr later ↦ rw later (Perm.trans (Perm.cons x (insert-perm a xs)) (Perm.swap a x xs))
  ]

  sort-perm : (xs : List A) → Perm (sort xs) xs
  unfolding sort
  sort-perm [] = Perm.refl []
  sort-perm (x ∷ xs) = Perm.trans (insert-perm x (sort xs)) (Perm.cons x (sort-perm xs))

  le-cons :
      (a x : A) (xs : List A)
      → le a x ≡ true
      → ((y : A) → Mem y xs → le a y ≡ true)
      → (y : A) → Mem y (x ∷ xs)
      → le a y ≡ true
  le-cons a x xs h rest y m = Or.elim (Bool-set _ _) (mem-cons.0 m) (λ e. rw e h) (rest y)

  insert-sorted :
      IsOrder le
      → (a : A) (xs : List A) → Pairwise (λ x y. le x y ≡ true) xs
      → Pairwise (λ x y. le x y ≡ true) (insert a xs)
  unfolding insert
  insert-sorted o a [] s = Pairwise.cons (λ y m. absurd (not-mem-nil m)) Pairwise.nil
  insert-sorted o a (x ∷ xs) (Pairwise.cons first s) = elim (Bool-cases (le a x)) [
    | inl before ↦ rw before (
        Pairwise.cons (le-cons a x xs before (λ y m. o.trans a x y before (first y m)))
          (Pairwise.cons first s))
    | inr after ↦ rw after (
        Pairwise.cons
          (λ y m. le-cons x a xs (flipped after) first y ((Perm.mem_iff (insert-perm a xs)).0 m))
          (insert-sorted o a xs s))
  ]
    where
      flipped : le a x ≡ false → le x a ≡ true
      flipped h = elim (o.total a x) [ inl k ↦ absurd (cc (h, k)) | inr k ↦ k ]

  pub sort-sorted : IsOrder le → (xs : List A) → Pairwise (λ x y. le x y ≡ true) (sort xs)
  unfolding sort
  sort-sorted o [] = Pairwise.nil
  sort-sorted o (x ∷ xs) = insert-sorted o x (sort xs) (sort-sorted o xs)

unfoldable pub greatest : List ℕ → ℕ
greatest [] = 0
greatest (x ∷ xs) = max x (greatest xs)

le-greatest : (xs : List ℕ) (a : ℕ) → Mem a xs → a ≤ greatest xs
unfolding greatest
le-greatest [] a m = absurd (not-mem-nil m)
le-greatest (x ∷ xs) a m =
    Or.elim le_prop (mem-cons.0 m) (λ e. rw e (omega arith))
      (λ t. omega (arith, le-greatest xs a t))

abbrev second : ℕ
second = 1000000

-- The clock reads 1000 s, 1001 s, …; the zone "Fold" repeats the hour before 1000 s and is UTC after
-- it; "Fixed" and "UTC" are UTC. Cron expressions match every minute, "never" not at all.
instance unfoldable pub sample_engine : Engine
unfolding sort greatest
sample_engine = record {
  clock = λ n. (n + 1000) * second;
  randint = λ n k. n % suc k;
  zone_known = λ name.
      str_eq name "UTC" || str_eq name "Fixed" || str_eq name "Fold" || str_eq name "Asia/Tokyo";
  to_local = λ z t. if str_eq z.key "Asia/Tokyo" then t + 32400 * second else t;
  to_utc = λ z t.
      if str_eq z.key "Asia/Tokyo"
      then t - 32400 * second
      else if str_eq z.key "Fold"
      then t - 3600 * second
      else t;
  cron_next = λ x t. if str_eq x "never" then none else some (t + 60 * second);
  order_by = λ A le xs. sort le xs;
  pick = λ A xs. head? xs;
  next_id = λ ids. suc (greatest ids);
  desc_nulls_first = true;
  ilike = λ column pattern. str_eq column pattern;
  text_le = λ s t. true;
  lower = λ s. s;
  strip = λ s. s;
  re_sub = λ pattern by s. s;
  sha256 = λ s. s;
}

head?-mem : (A : Type 0) (xs : List A) (a : A) → head? xs ≡ some a → Mem a xs
head?-mem A [] a h = absurd (cc)
head?-mem A (x ∷ xs) a h = mem-cons.1 (Or.inl (cc))

head?-none : (A : Type 0) (xs : List A) → head? xs ≡ none → xs ≡ []
head?-none A [] h = refl
head?-none A (x ∷ xs) h = absurd (cc)

cron_later : (x : String) (t u : ℕ) → sample_engine.cron_next x t ≡ some u → t < u
unfolding sample_engine
cron_later x t u h = ground arith

fresh : (ids : List ℕ) → ¬ Mem (suc (greatest ids)) ids
fresh ids m = omega (arith, le-greatest ids (suc (greatest ids)) m)

pub sample_laws : EngineLaws sample_engine
unfolding sample_engine
sample_laws = record {
  randint_le = λ n k. omega (arith, mod-lt n {m = suc k} (omega arith));
  cron_later = cron_later;
  order_by_perm = λ A le xs. sort-perm le xs;
  order_by_sorted = λ A le o xs. sort-sorted le o xs;
  pick_mem = head?-mem;
  pick_none = head?-none;
  next_id_fresh = fresh;
}
