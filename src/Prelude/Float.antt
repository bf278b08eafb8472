-- ===== src/Prelude/Float.antt =====
-- Go's float64, which the library does not have: a type with the operations that the program uses, as
-- a parameter of what computes with it.
use mathlib.Core.Bool.{Bool}
use torana_enterprise.Prelude.Int.{ℤ}

pub record Float64 : Type 1 where
  pub F : Type 0
  pub of_int : ℤ → F
  pub to_int : F → ℤ
  pub add : F → F → F
  pub sub : F → F → F
  pub mul : F → F → F
  pub div : F → F → F
  pub min : F → F → F
  pub ceil : F → F
  pub leb : F → F → Bool
  pub ltb : F → F → Bool
  -- Duration.Seconds, of a duration in nanoseconds
  pub seconds : ℤ → F
