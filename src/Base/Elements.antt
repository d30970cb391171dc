-- ===== src/Base/Elements.antt =====
-- A statement about every element of a list, in order.
use mathlib.Core.List.{List, [], ◌∷◌, ◌++◌}

pub data Each {ℓ κ} {A : Type ℓ} (P : A → Type κ) : List A → Type (ℓ ⊔ κ) where
  nil : Each P []
  cons : {x : A} {xs : List A} → P x → Each P xs → Each P (x ∷ xs)

module _ {ℓ κ} {A : Type ℓ} {P : A → Type κ} where
  pub Each-append : (xs ys : List A) → Each P xs → Each P ys → Each P (xs ++ ys)
  Each-append [] ys Each.nil more = more
  Each-append (x ∷ xs) ys (Each.cons h rest) more = Each.cons h (Each-append xs ys rest more)

  pub Each-all : ((x : A) → P x) → (xs : List A) → Each P xs
  Each-all h [] = Each.nil
  Each-all h (x ∷ xs) = Each.cons (h x) (Each-all h xs)

module _ {ℓ κ κ'} {A : Type ℓ} {P : A → Type κ} {Q : A → Type κ'} where
  pub Each-map : ((x : A) → P x → Q x) → {xs : List A} → Each P xs → Each Q xs
  Each-map h Each.nil = Each.nil
  Each-map h (Each.cons {x} p rest) = Each.cons (h x p) (Each-map h rest)
