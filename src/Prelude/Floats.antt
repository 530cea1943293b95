-- ===== src/Prelude/Floats.antt =====
-- Python's `float` as a parameter: the operations that the program uses, on a type that is not
-- looked into. No law is assumed here; a theorem that needs one names it.
use Prim.Native.Nat.{ℕ, suc}
use Prim.Native.String.{String}
use mathlib.Core.Bool.{Bool}
use mathlib.Core.Option.{Option}
use screen2xyz_civil_plan_di.Prelude.Int.{ℤ, pos, negsuc}

pub record Floats : Type 1 where
  pub F : Type 0
  pub of_nat : ℕ → F
  -- `float(text)` and `int(text)`, with `none` for ValueError
  pub parse : String → Option F
  pub parse_int : String → Option ℤ
  -- `int(x)`, with `none` for what it raises on infinities and NaN
  pub truncate : F → Option ℤ
  -- a literal such as 0.05, by its text
  pub literal : String → F
  pub add : F → F → F
  pub sub : F → F → F
  pub mul : F → F → F
  pub div : F → F → F
  pub abs : F → F
  pub neg : F → F
  -- `x ** 2` and `x ** 0.5`
  pub square : F → F
  pub root : F → F
  -- `math.hypot`
  pub hypot : F → F → F
  pub lt : F → F → Bool
  pub le : F → F → Bool
  pub eq : F → F → Bool
  -- `math.isfinite`
  pub is_finite : F → Bool

module _ (fl : Floats) where
  open fl use {F, of_nat, neg}

  -- `float(n)`
  abbrev pub of_int : ℤ → F
  of_int (pos n) = of_nat n
  of_int (negsuc n) = neg (of_nat (suc n))
