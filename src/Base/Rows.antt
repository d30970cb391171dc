-- ===== src/Base/Rows.antt =====
-- Laws of selection, search, counting and update on the rows of a table.
use Prim.Native.Nat.{ℕ, zero, suc, ◌+◌, ◌≤◌}
use mathlib.Core.Path.{sym, ◌≡◌, refl, ◌∙◌, ap}
use mathlib.Core.Logic.{∥∥₁_prop, ∥∥₁_elim, inl, inr, ◌⊎◌}
use mathlib.Core.Logic.Or
use mathlib.Core.Bool.{Bool, true, false, not, ◌&&◌, Bool-set}
use mathlib.Core.Option.{none, some}
use mathlib.Core.List.{
  map, List, [], ◌∷◌, Mem, Perm, Permᴰ, Pairwise, mem-cons, not-mem-nil, mem-cons_of_mem, ◌++◌,
  mem-cons_self,
}
use native.Mathlib.Nat.{ℕ_set}
use native.Mathlib.Bridge.{le_prop}
use native.Mathlib.Omega.{arith}
use managment2_main.Base.Tests.{◌==◌, ==_iff, if◌then◌else◌, Bool-cases}
use managment2_main.Base.Lists.{mem-of_take, take, select, find, tally, update}

module _ {ℓ} {A : Type ℓ} where
  pub mem-of_select : (p : A → Bool) (xs : List A) {a : A} → Mem a (select p xs) → Mem a xs
  unfolding select
  mem-of_select p [] m = m
  mem-of_select p (x ∷ xs) {a} m = elim (Bool-cases (p x)) [
    | inl e ↦
        Or.elim ∥∥₁_prop (mem-cons.0 (rw e at m)) (λ h. mem-cons.1 (Or.inl h))
          (λ t. mem-cons_of_mem x (mem-of_select p xs t))
    | inr e ↦ mem-cons_of_mem x (mem-of_select p xs (rw e at m))
  ]

  pub select_sound : (p : A → Bool) (xs : List A) {a : A} → Mem a (select p xs) → p a ≡ true
  unfolding select
  select_sound p [] m = absurd (not-mem-nil m)
  select_sound p (x ∷ xs) {a} m = elim (Bool-cases (p x)) [
    | inl e ↦
        Or.elim (Bool-set _ _) (mem-cons.0 (rw e at m)) (λ h. rw h e) (λ t. select_sound p xs t)
    | inr e ↦ select_sound p xs (rw e at m)
  ]

  pub mem-select :
      (p : A → Bool) (xs : List A) {a : A} → Mem a xs → p a ≡ true → Mem a (select p xs)
  unfolding select
  mem-select p [] m h = m
  mem-select p (x ∷ xs) {a} m h = elim (Bool-cases (p x)) [
    | inl e ↦ rw e (
        Or.elim ∥∥₁_prop (mem-cons.0 m) (λ q. mem-cons.1 (Or.inl q))
          (λ t. mem-cons_of_mem x (mem-select p xs t h)))
    | inr e ↦
        rw e (Or.elim ∥∥₁_prop (mem-cons.0 m) (λ q. absurd (clash q e)) (λ t. mem-select p xs t h))
  ]
    where
      clash : a ≡ x → p x ≡ false → ⊥
      clash q e = cc (q, e, h)

  pub tally-select-le : (q p : A → Bool) (xs : List A) → tally q (select p xs) ≤ tally q xs
  unfolding select tally
  tally-select-le q p [] = omega arith
  tally-select-le q p (x ∷ xs) = ground (arith, tally-select-le q p xs)

  pub tally-take-le : (q : A → Bool) (n : ℕ) (xs : List A) → tally q (take n xs) ≤ tally q xs
  unfolding tally
  tally-take-le q zero xs = omega arith
  tally-take-le q (suc n) [] = omega arith
  tally-take-le q (suc n) (x ∷ xs) = omega (arith, tally-take-le q n xs)

  tally-permᴰ : (q : A → Bool) {xs ys : List A} → Permᴰ xs ys → tally q xs ≡ tally q ys
  unfolding tally
  tally-permᴰ q Permᴰ.nil = refl
  tally-permᴰ q (Permᴰ.cons e p) = rw e (omega (arith, tally-permᴰ q p))
  tally-permᴰ q (Permᴰ.swap e f) = rw (e, f) (omega arith)
  tally-permᴰ q (Permᴰ.trans p r) = tally-permᴰ q p ∙ tally-permᴰ q r

  pub tally-perm : (q : A → Bool) {xs ys : List A} → Perm xs ys → tally q xs ≡ tally q ys
  tally-perm q p = ∥∥₁_elim p (ℕ_set _ _) (tally-permᴰ q)

  pub tally-pos_of_mem :
      (q : A → Bool) (xs : List A) {a : A} → Mem a xs → q a ≡ true → 1 ≤ tally q xs
  unfolding tally
  tally-pos_of_mem q [] m h = absurd (not-mem-nil m)
  tally-pos_of_mem q (x ∷ xs) {a} m h =
      Or.elim le_prop (mem-cons.0 m) here (λ t. omega (arith, tally-pos_of_mem q xs t h))
    where
      here : a ≡ x → 1 ≤ (if q x then 1 else 0) + tally q xs
      here e = let k : q x ≡ true = rw e at h in rw k (omega arith)

  pub false_of_tally-zero :
      (q : A → Bool) (xs : List A) {a : A} → tally q xs ≡ 0 → Mem a xs → q a ≡ false
  false_of_tally-zero q xs {a} z m = elim (Bool-cases (q a)) [
    | inl h ↦ absurd (omega (arith, tally-pos_of_mem q xs m h))
    | inr h ↦ h
  ]

  pub find_sound : (p : A → Bool) (xs : List A) {a : A} → find p xs ≡ some a → p a ≡ true
  unfolding find
  find_sound p [] h = cc
  find_sound p (x ∷ xs) {a} h = ground (arith, find_sound p xs {a = a})

  pub find_complete :
      (p : A → Bool) (xs : List A) {a : A} → find p xs ≡ none → Mem a xs → p a ≡ false
  unfolding find
  find_complete p [] h m = absurd (not-mem-nil m)
  find_complete p (x ∷ xs) h m = elim (Bool-cases (p x)) [
    | inl e ↦ absurd (cc (rw e at h))
    | inr e ↦
        Or.elim (Bool-set _ _) (mem-cons.0 m) (λ q. rw q e) (λ t. find_complete p xs (rw e at h) t)
  ]

  pub mem-of_find : (p : A → Bool) (xs : List A) {a : A} → find p xs ≡ some a → Mem a xs
  unfolding find
  mem-of_find p [] h = absurd (cc)
  mem-of_find p (x ∷ xs) {a} h = elim (Bool-cases (p x)) [
    | inl e ↦ mem-cons.1 (Or.inl (cc (rw e at h)))
    | inr e ↦ mem-cons_of_mem x (mem-of_find p xs (rw e at h))
  ]

  -- A count that no updated row enters does not grow, and one that the update respects stays.
  pub tally-update-le :
      (q p : A → Bool) (f : A → A) (xs : List A)
      → ((x : A) → p x ≡ true → q (f x) ≡ true → q x ≡ true)
      → tally q (update p f xs) ≤ tally q xs
  unfolding tally update
  tally-update-le q p f [] h = omega arith
  tally-update-le q p f (x ∷ xs) h = ground (arith, h x, tally-update-le q p f xs h)

  pub tally-update :
      (q p : A → Bool) (f : A → A) (xs : List A)
      → ((x : A) → p x ≡ true → q (f x) ≡ q x)
      → tally q (update p f xs) ≡ tally q xs
  unfolding tally update
  tally-update q p f [] h = refl
  tally-update q p f (x ∷ xs) h = ground (arith, h x, tally-update q p f xs h)

  -- A count splits along a second test.
  pub tally-split :
      (p q : A → Bool) (xs : List A)
      → tally p xs ≡ tally (λ x. p x && q x) xs + tally (λ x. p x && not (q x)) xs
  unfolding tally
  tally-split p q [] = omega arith
  tally-split p q (x ∷ xs) = ground (arith, tally-split p q xs)

  pub Pairwise-take {κ} :
      {R : A → A → Type κ} (n : ℕ) (xs : List A) → Pairwise R xs → Pairwise R (take n xs)
  Pairwise-take zero xs s = Pairwise.nil
  Pairwise-take (suc n) [] s = Pairwise.nil
  Pairwise-take (suc n) (x ∷ xs) (Pairwise.cons h s) =
      Pairwise.cons (λ y m. h y (mem-of_take n xs m)) (Pairwise-take n xs s)

  -- An update of no row, and of the rows of two lists.
  pub update_none : (p : A → Bool) (f : A → A) (xs : List A) → tally p xs ≡ 0 → update p f xs ≡ xs
  unfolding tally update
  update_none p f [] h = refl
  update_none p f (x ∷ xs) h = elim (Bool-cases (p x)) [
    | inl e ↦ absurd (ground (arith, rw e at h))
    | inr e ↦ rw e (ap (◌∷◌ x) (update_none p f xs (ground (arith, rw e at h))))
  ]

  pub update-append :
      (p : A → Bool) (f : A → A) (xs ys : List A)
      → update p f (xs ++ ys) ≡ update p f xs ++ update p f ys
  unfolding update
  update-append p f [] ys = refl
  update-append p f (x ∷ xs) ys = ap (◌∷◌ (if p x then f x else x)) (update-append p f xs ys)

  pub tally-cases :
      (p : A → Bool) (xs : List A) → (tally p xs ≡ 0) ⊎ ((a : A) × Mem a xs × (p a ≡ true))
  unfolding tally
  tally-cases p [] = inl refl
  tally-cases p (x ∷ xs) = elim (Bool-cases (p x)) [
    | inl e ↦ inr (x, mem-cons_self, e)
    | inr e ↦ elim (tally-cases p xs) [
      | inl z ↦ inl (rw e (rw z refl))
      | inr (a, m, h) ↦ inr (a, mem-cons_of_mem x m, h)
    ]
  ]

  -- As `tally-update`, where only the rows of the table are known to keep the test.
  pub tally-update_members :
      (q p : A → Bool) (f : A → A) (xs : List A)
      → ((x : A) → Mem x xs → p x ≡ true → q (f x) ≡ q x)
      → tally q (update p f xs) ≡ tally q xs
  unfolding tally update
  tally-update_members q p f [] h = refl
  tally-update_members q p f (x ∷ xs) h =
      ground
        (arith, h x mem-cons_self, tally-update_members q p f xs (λ y m. h y (mem-cons_of_mem x m)))

  pub tally-find : (p : A → Bool) (xs : List A) → find p xs ≡ none → tally p xs ≡ 0
  unfolding find tally
  tally-find p [] h = refl
  tally-find p (x ∷ xs) h = ground (arith, tally-find p xs)

  pub tally_fresh :
      (key : A → ℕ) (i : ℕ) (xs : List A) → ¬ Mem i (map key xs) → tally (λ x. key x == i) xs ≡ 0
  unfolding tally
  tally_fresh key i [] h = refl
  tally_fresh key i (x ∷ xs) h = elim (Bool-cases (key x == i)) [
    | inl same ↦ absurd (h (mem-cons.1 (Or.inl (sym ((==_iff (key x) i).0 same)))))
    | inr other ↦ rw other (rw (tally_fresh key i xs (λ m. h (mem-cons_of_mem (key x) m))) refl)
  ]
