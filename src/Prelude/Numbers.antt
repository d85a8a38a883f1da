-- ===== src/Prelude/Numbers.antt =====
-- Python's numbers beside ℕ: integers of either sign, and floats.
use Prim.Native.Nat.{ℕ}
use mathlib.Core.Bool.{Bool}

-- `negsuc n` is -(n + 1).
pub data ℤ : Type 0 where
  pos : ℕ → ℤ
  negsuc : ℕ → ℤ

-- A double, by its bit pattern. What is done with it is a parameter, `FloatOps`.
pub record Float : Type 0 where
  pub bits : ℕ

-- The operations of Python's float that the program uses. `ceil` is `math.ceil` and
-- `truncate` is `int`, both of a float that `is_finite`: of an infinity or a NaN they raise.
-- `literal n d` is the float nearest to n / d.
pub record FloatOps : Type 0 where
  pub of_ℤ : ℤ → Float
  pub literal : ℕ → ℕ → Float
  pub add : Float → Float → Float
  pub mul : Float → Float → Float
  pub div : Float → Float → Float
  pub lt : Float → Float → Bool
  pub le : Float → Float → Bool
  pub eq : Float → Float → Bool
  pub is_finite : Float → Bool
  pub ceil : Float → ℕ
  pub truncate : Float → ℤ
