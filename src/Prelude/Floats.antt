-- ===== src/Prelude/Floats.antt =====
-- The operations of float64 that the program uses. They are a parameter of what computes with
-- floats: the program relies on the type and its operations, and nothing here fixes rounding.
use mathlib.Core.Bool.{Bool}
use dropline.Prelude.Int.{ℤ}

pub record Floats (F : Type 0) : Type 0 where
  -- float64(n)
  pub of_int : ℤ → F
  pub add : F → F → F
  pub sub : F → F → F
  pub mul : F → F → F
  pub div : F → F → F
  -- x < y
  pub lt : F → F → Bool
  -- math.Sqrt
  pub sqrt : F → F
  -- int(math.Floor(x))
  pub floor : F → ℤ
  -- int(math.Ceil(x))
  pub ceil : F → ℤ
