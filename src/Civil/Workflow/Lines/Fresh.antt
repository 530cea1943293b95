-- ===== src/Civil/Workflow/Lines/Fresh.antt =====
-- workflow.py: the ids of the lines that `add_elevation_line` makes.
use Prim.Native.Char.{code}
use Prim.Native.String.{◌∷◌ as cons_char, count}
use Prim.Native.Nat.{◌/◌, ◌%◌}
use native.Mathlib.Nat.{le_trans}
use screen2xyz_civil_plan_di.Prelude.{
  ℕ, zero, suc, ◌+◌, ◌-◌, ◌≤◌, ◌<◌, ◌≡◌, refl, ap, ◌∙◌, String, Option, none, some, false, List, [],
  ◌∷◌, ltb, ◌==◌, str_eq, eq_iff, arith, Bool-cases, inl, inr,
}
use screen2xyz_civil_plan_di.Civil.Model.{CivilElevationLine}
use screen2xyz_civil_plan_di.Civil.Ids.{
  digit, digit_reads, read_digits, read_from, decimal, zeros, read_from-decimal, read_from-zeros,
  read_digits_of,
}
use screen2xyz_civil_plan_di.Civil.Workflow.Geometry.{find_line}
use screen2xyz_civil_plan_di.Civil.Workflow.Lines.{last_part, greater, largest_line, next_line_id}

no_dash : (d : ℕ) → d < 10 → (code (digit d) == 45) ≡ false
no_dash d h = ground (arith, digit_reads d h)

last_part-zeros :
    (part : String) (k : ℕ) (s : String) → last_part part (zeros k s) ≡ last_part part s
unfolding last_part zeros
last_part-zeros part zero s = refl
last_part-zeros part (suc k) s = last_part-zeros part k s

last_part-digit :
    (part : String) (d : ℕ) (rest : String)
    → d < 10
    → last_part part (cons_char (digit d) rest) ≡ last_part part rest
unfolding last_part
last_part-digit part d rest h = rw (no_dash d h) refl

last_part-decimal :
    (part : String) (f n : ℕ) (rest : String)
    → n < f
    → last_part part (decimal f n rest) ≡ last_part part rest
unfolding decimal
last_part-decimal part zero n rest h = absurd (omega arith)
last_part-decimal part (suc f) n rest h = elim (Bool-cases (ltb n 10)) [
  | inl small ↦ rw small (last_part-digit part n rest (ground arith))
  | inr big ↦ rw big (
      last_part-decimal part f (n / 10) (cons_char (digit (n % 10)) rest) (ground arith)
      ∙ last_part-digit part (n % 10) rest (omega arith))
]

-- The number that an id ends with.
abbrev line_number : String → Option ℕ
line_number id = read_digits (last_part id id)

module _ {F : Type 0} where
  le-largest_line : (ls : List (CivilElevationLine F)) (n : ℕ) → n ≤ largest_line ls n
  unfolding largest_line
  le-largest_line [] n = omega arith
  le-largest_line (l ∷ ls) n =
      le_trans (le-greater (line_number l.id)) (le-largest_line ls (greater n (line_number l.id)))
    where
      le-greater : (o : Option ℕ) → n ≤ greater n o
      le-greater none = omega arith
      le-greater (some k) = omega arith

  find_line_above :
      (i : String) (m : ℕ) (ls : List (CivilElevationLine F)) (n : ℕ)
      → line_number i ≡ some (suc m)
      → largest_line ls n ≤ m
      → find_line i ls ≡ none
  unfolding largest_line find_line
  find_line_above i m [] n e h = refl
  find_line_above i m (l ∷ ls) n e h = elim (Bool-cases (str_eq l.id i)) [
    | inl same ↦
        let number = ap line_number ((eq_iff l.id i).0 same) ∙ e in
        absurd (
          omega
            (arith, h, le-largest_line ls (greater n (line_number l.id)), ap (greater n) number))
    | inr other ↦ rw other (find_line_above i m ls (greater n (line_number l.id)) e h)
  ]

  next_line_id-number :
      (ls : List (CivilElevationLine F))
      → line_number (next_line_id ls) ≡ some (suc (largest_line ls 0))
  unfolding next_line_id last_part read_from
  next_line_id-number ls =
      let n = largest_line ls 0 + 1 in
      let s = decimal (suc n) n "" in
      let z = zeros (6 - count s) s in
      ap read_digits
        (last_part-zeros z (6 - count s) s ∙ last_part-decimal z (suc n) n "" (omega arith))
      ∙ read_digits_of n z (omega arith)
          (read_from-zeros (6 - count s) s ∙ read_from-decimal (suc n) n "" (omega arith))
      ∙ ap some (omega arith)

  -- The id that `add_elevation_line` makes is the id of no line of the project.
  pub next_line_id_fresh :
      (ls : List (CivilElevationLine F)) → find_line (next_line_id ls) ls ≡ none
  next_line_id_fresh ls =
      find_line_above (next_line_id ls) (largest_line ls 0) ls 0 (next_line_id-number ls)
        (omega arith)
