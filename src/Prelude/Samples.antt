-- ===== src/Prelude/Samples.antt =====
-- Numbers in the place of floats, for runs on concrete input.
use Prim.Native.Nat.{ℕ, ◌+◌, ◌-◌, ◌*◌}
use mathlib.Core.Bool.{true}
use mathlib.Core.Option.{none, some}
use screen2xyz_civil_plan_di.Prelude.Int.{pos}
use screen2xyz_civil_plan_di.Prelude.Tests.{ltb, leb, ◌==◌}
use screen2xyz_civil_plan_di.Prelude.Floats.{Floats}

abbrev pub whole_numbers : Floats
whole_numbers = record {
  F = ℕ;
  of_nat = λ n. n;
  parse = λ s. none;
  parse_int = λ s. none;
  truncate = λ n. some (pos n);
  literal = λ s. 0;
  add = λ m n. m + n;
  sub = λ m n. m - n;
  mul = λ m n. m * n;
  div = λ m n. m;
  abs = λ n. n;
  neg = λ n. 0;
  square = λ n. n * n;
  root = λ n. n;
  hypot = λ m n. m + n;
  lt = λ m n. ltb m n;
  le = λ m n. leb m n;
  eq = λ m n. m == n;
  is_finite = λ n. true;
}
