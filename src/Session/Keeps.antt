-- ===== src/Session/Keeps.antt =====
-- What holds before and after an action, whether it returns or raises: one rule for each way to
-- build an action.
use mathlib.Core.List.{mem-cons_self, mem-cons_of_mem}
use managment2_main.Base.{Bool, true, false, Option, none, some, if◌then◌else◌, List, [], ◌∷◌, Mem}
use managment2_main.Models.{Error}
use managment2_main.Session.{
  World, Result, ok, raised, Action, pure, raise, gets, lift, or_raise, catch, ◌>>=◌, for_each,
}

-- `m` takes a state with `P` to a state with `P`.
pub record Keeps {ℓ} {A : Type ℓ} (P : World → Type 0) (m : Action A) : Type ℓ where
  pub at : (w : World) → P w → P (m w).1

module _ {ℓ} {A : Type ℓ} {P : World → Type 0} where
  pub Keeps-pure : (a : A) → Keeps P (pure a)
  unfolding pure
  Keeps-pure a = record { at = λ w h. h }

  pub Keeps-raise : (e : Error) → Keeps P (raise {A = A} e)
  unfolding raise
  Keeps-raise e = record { at = λ w h. h }

  pub Keeps-gets : (f : World → A) → Keeps P (gets f)
  unfolding gets
  Keeps-gets f = record { at = λ w h. h }

  pub Keeps-lift : (r : Result A) → Keeps P (lift r)
  unfolding lift
  Keeps-lift r = record { at = λ w h. h }

  pub Keeps-or_raise : (e : Error) (o : Option A) → Keeps P (or_raise e o)
  unfolding or_raise
  Keeps-or_raise e none = record { at = λ w h. h }
  Keeps-or_raise e (some a) = record { at = λ w h. h }

  pub Keeps-if : (b : Bool) (m n : Action A) → Keeps P m → Keeps P n → Keeps P (if b then m else n)
  Keeps-if true m n km kn = km
  Keeps-if false m n km kn = kn

  pub Keeps-catch :
      (m : Action A) (h : Error → Action A)
      → Keeps P m
      → ((e : Error) → Keeps P (h e))
      → Keeps P (catch m h)
  unfolding catch
  Keeps-catch m h km kh = record { at = λ w p. after (m w).0 (m w).1 (km.at w p) }
    where
      after : (r : Result A) (w : World) → P w → P (catch (λ _. (r, w)) h w).1
      after (ok a) w p = p
      after (raised e) w p = (kh e).at w p

module _ {ℓ κ} {A : Type ℓ} {B : Type κ} {P : World → Type 0} where
  pub Keeps-bind :
      (m : Action A) (f : A → Action B) → Keeps P m → ((a : A) → Keeps P (f a)) → Keeps P (m >>= f)
  unfolding ◌>>=◌
  Keeps-bind m f km kf = record { at = λ w p. after (m w).0 (m w).1 (km.at w p) }
    where
      after : (r : Result A) (w : World) → P w → P (((λ _. (r, w)) >>= f) w).1
      after (ok a) w p = (kf a).at w p
      after (raised e) w p = p

-- The same at one state, where a part keeps `P` only under conditions.
module _ {ℓ κ} {A : Type ℓ} {B : Type κ} (P : World → Type 0) where
  pub bind_at :
      (m : Action A) (f : A → Action B) (w : World)
      → P (m w).1
      → ((a : A) (v : World) → P v → P (f a v).1)
      → P ((m >>= f) w).1
  unfolding ◌>>=◌
  bind_at m f w here after = go (m w).0 (m w).1 here
    where
      go : (r : Result A) (v : World) → P v → P (((λ _. (r, v)) >>= f) w).1
      go (ok a) v h = after a v h
      go (raised e) v h = h

module _ {ℓ} {A : Type ℓ} (P : World → Type 0) where
  pub catch_at :
      (m : Action A) (h : Error → Action A) (w : World)
      → P (m w).1
      → ((e : Error) → Keeps P (h e))
      → P (catch m h w).1
  unfolding catch
  catch_at m h w here k = go (m w).0 (m w).1 here
    where
      go : (r : Result A) (v : World) → P v → P (catch (λ _. (r, v)) h w).1
      go (ok a) v p = p
      go (raised e) v p = (k e).at v p

  pub for_each_at :
      (body : A → Action (Unit {0})) (xs : List A)
      → ((x : A) → Mem x xs → (v : World) → P v → P (body x v).1)
      → (w : World) → P w
      → P (for_each body xs w).1
  unfolding for_each
  for_each_at body [] step w h = (Keeps-pure {0} {P = P} tt).at w h
  for_each_at body (x ∷ xs) step w h =
      bind_at P (body x) (λ _. for_each body xs) w (step x mem-cons_self w h)
        (λ _ v. for_each_at body xs (λ y m. step y (mem-cons_of_mem x m)) v)

-- A loop with a statement about the items that are left: where an item raises, they are dropped.
module _ {ℓ} {A : Type ℓ} (P : List A → World → Type 0) where
  pub for_each_walk :
      (body : A → Action (Unit {0}))
      → ((x : A) (xs : List A) (v : World) → P (x ∷ xs) v → P xs (body x v).1)
      → ((x : A) (xs : List A) (v : World) → P (x ∷ xs) v → P xs v)
      → (xs : List A) (w : World) → P xs w
      → P [] (for_each body xs w).1
  unfolding for_each ◌>>=◌
  for_each_walk body step drop [] w h = (Keeps-pure {0} {P = P []} tt).at w h
  for_each_walk body step drop (x ∷ xs) w h =
      go (for_each_walk body step drop xs) (body x w).0 (body x w).1 (step x xs w h)
    where
      all : (ys : List A) (v : World) → P ys v → P [] v
      all [] v p = p
      all (y ∷ ys) v p = all ys v (drop y ys v p)

      go :
          ((v : World) → P xs v → P [] (for_each body xs v).1)
          → (r : Result (Unit {0})) (v : World) → P xs v
          → P [] (((λ _. (r, v)) >>= (λ _. for_each body xs)) w).1
      go rest (ok a) v p = rest v p
      go rest (raised e) v p = all xs v p

pub Keeps-for_each {ℓ} :
    {A : Type ℓ} {P : World → Type 0} (body : A → Action (Unit {0})) (xs : List A)
    → ((x : A) → Keeps P (body x))
    → Keeps P (for_each body xs)
unfolding for_each
Keeps-for_each body [] k = Keeps-pure tt
Keeps-for_each body (x ∷ xs) k =
    Keeps-bind (body x) (λ _. for_each body xs) (k x) (λ _. Keeps-for_each body xs k)

pub ruleset keeps_rules = (
  Keeps-pure, Keeps-raise, Keeps-gets, Keeps-lift, Keeps-or_raise, Keeps-if, Keeps-catch,
  Keeps-bind, Keeps-for_each,
)
