-- ===== src/Double.antt =====
-- What the code does with `double` and `float`: the operations of the machine and of libm, which
-- are parameters of the model. No law is assumed here; a theorem that needs one names it.
pub mod Whole
use rtmb.Base.{Bool}
use rtmb.Base.Int.{ℤ}

pub record Double (F : Type 0) : Type 0 where
  -- The conversion of an integer, and the cast back, which cuts towards zero.
  pub of_int : ℤ → F
  pub to_int : F → ℤ
  -- The rounding of a `double` to a `float`.
  pub to_float : F → F
  pub add : F → F → F
  pub sub : F → F → F
  pub mul : F → F → F
  pub div : F → F → F
  pub lt : F → F → Bool
  pub neg : F → F
  pub eq : F → F → Bool
  pub sqrt : F → F
  pub pow : F → F → F
