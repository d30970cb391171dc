-- ===== src/Session/Yields.antt =====
-- Total correctness of an action at one state: it returns a value, and the value and the state after
-- it are related as stated.
use managment2_main.Base.{◌≡◌, refl}
use managment2_main.Models.{Error}
use managment2_main.Session.{World, Result, ok, Action, catch, ◌>>=◌}

pub record Yields {ℓ κ} {A : Type ℓ} (Q : A → World → Type κ) (out : Result A × World)
    : Type (ℓ ⊔ κ) where
  pub value : A
  pub world : World
  pub returns : out ≡ (ok value, world)
  pub holds : Q value world

module _ {ℓ κ λ'} {A : Type ℓ} {B : Type κ} where
  pub Yields-bind :
      {Q : A → World → Type λ'} {R : B → World → Type λ'} (m : Action A) (f : A → Action B)
      (w : World)
      → Yields Q (m w)
      → ((a : A) (v : World) → Q a v → Yields R (f a v))
      → Yields R ((m >>= f) w)
  unfolding ◌>>=◌
  Yields-bind m f w y next = rw y.returns (next y.value y.world y.holds)

module _ {ℓ κ} {A : Type ℓ} {Q : A → World → Type κ} where
  pub Yields-at : (a : A) (w : World) → Q a w → Yields Q (ok a, w)
  Yields-at a w q = record { value = a; world = w; returns = refl; holds = q }

module _ {ℓ κ} {A : Type ℓ} {Q R : A → World → Type κ} where
  pub Yields-weaken :
      {out : Result A × World} → Yields Q out → ((a : A) (w : World) → Q a w → R a w) → Yields R out
  Yields-weaken y h = record {
    value = y.value;
    world = y.world;
    returns = y.returns;
    holds = h y.value y.world y.holds;
  }

module _ {ℓ κ} {A : Type ℓ} {Q : A → World → Type κ} where
  -- What returns in a `try` block is not caught.
  pub Yields-catch :
      (m : Action A) (h : Error → Action A) (w : World) → Yields Q (m w) → Yields Q (catch m h w)
  unfolding catch
  Yields-catch m h w y = rw y.returns (Yields-at y.value y.world y.holds)
