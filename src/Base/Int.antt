-- ===== src/Base/Int.antt =====
-- Signed integers, for the columns of the program that are compared and never computed with.
use Prim.Native.Nat.{ℕ, compare, Ordering}

-- `negsuc n` is -(n + 1).
pub data ℤ : Type 0 where
  pos : ℕ → ℤ
  negsuc : ℕ → ℤ

abbrev pub compareℤ : ℤ → ℤ → Ordering
compareℤ (pos a) (pos b) = compare a b
compareℤ (pos a) (negsuc b) = Ordering.gt
compareℤ (negsuc a) (pos b) = Ordering.lt
compareℤ (negsuc a) (negsuc b) = compare b a
