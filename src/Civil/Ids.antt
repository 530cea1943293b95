-- ===== src/Civil/Ids.antt =====
-- src/screen2xyz_civil/workflow.py, `_next_point_id`: ids such as PT-0042. `\d` is read as the ASCII
-- digits, which are the digits that the program writes.
use Prim.Native.Char.{Char, code}
use Prim.Native.String.{◌∷◌ as cons_char, [] as empty_text, count}
use Prim.Native.Nat.{◌/◌, ◌%◌, max}
use screen2xyz_civil_plan_di.Prelude.{
  ℕ, zero, suc, ◌+◌, ◌-◌, ◌*◌, ◌≤◌, ◌<◌, ◌≡◌, refl, String, Option, none, some, Bool, true, false,
  ◌&&◌, List, [], ◌∷◌, ltb, leb, str_eq, eq_iff, if◌then◌else◌, arith, ap, ◌∙◌, ◌==◌, Bool-cases,
  inl, inr,
}
use native.Mathlib.Nat.{le_trans}
use screen2xyz_civil_plan_di.Civil.Model.{CivilPoint, mem_id}

abbrev pub digit : ℕ → Char
digit zero = "0"
digit (suc zero) = "1"
digit (suc (suc zero)) = "2"
digit (suc (suc (suc zero))) = "3"
digit (suc (suc (suc (suc zero)))) = "4"
digit (suc (suc (suc (suc (suc zero))))) = "5"
digit (suc (suc (suc (suc (suc (suc zero)))))) = "6"
digit (suc (suc (suc (suc (suc (suc (suc zero))))))) = "7"
digit (suc (suc (suc (suc (suc (suc (suc (suc zero)))))))) = "8"
digit _ = "9"

abbrev pub is_digit : Char → Bool
is_digit c = leb 48 (code c) && leb (code c) 57

-- `int(digits)` of a text of digits, after the number `n` read so far
unfoldable pub read_from : ℕ → String → Option ℕ
read_from n empty_text = some n
read_from n (cons_char c rest) =
    let next = read_from (n * 10 + (code c - 48)) rest in if is_digit c then next else none

abbrev pub read_digits : String → Option ℕ
read_digits empty_text = none
read_digits s = read_from 0 s

-- `re.fullmatch(r"PT-(\d+)", id)`, and the number of its group
unfoldable pub id_number : String → Option ℕ
unfolding read_from
id_number (cons_char p (cons_char t (cons_char dash rest))) =
    if code p == 80 && (code t == 84 && code dash == 45) then read_digits rest else none
id_number _ = none

-- The decimal digits of `n` before `rest`; the fuel is above `n`.
unfoldable pub decimal : ℕ → ℕ → String → String
decimal zero n rest = rest
decimal (suc f) n rest =
    let more = decimal f (n / 10) (cons_char (digit (n % 10)) rest) in
    if ltb n 10 then cons_char (digit n) rest else more

unfoldable pub zeros : ℕ → String → String
zeros zero s = s
zeros (suc k) s = cons_char "0" (zeros k s)

-- `f"{n:04d}"`
unfoldable pub padded : ℕ → String
unfolding decimal zeros
padded n = let s = decimal (suc n) n "" in zeros (4 - count s) s

-- `largest = max(largest, int(match.group(1)))` where the id matches
abbrev bump : ℕ → Option ℕ → ℕ
bump n none = n
bump n (some k) = max n k

module _ {F : Type 0} where
  -- The loop of `_next_point_id`.
  unfoldable pub largest : List (CivilPoint F) → ℕ → ℕ
  unfolding id_number
  largest [] n = n
  largest (p ∷ ps) n = largest ps (bump n (id_number p.id))

  unfoldable pub next_point_id : List (CivilPoint F) → String
  unfolding padded largest
  next_point_id ps = cons_char "P" (cons_char "T" (cons_char "-" (padded (largest ps 0 + 1))))

pub digit_reads : (d : ℕ) → d < 10 → (is_digit (digit d) ≡ true) × (code (digit d) ≡ 48 + d)
digit_reads zero h = ground arith
digit_reads (suc zero) h = ground arith
digit_reads (suc (suc zero)) h = ground arith
digit_reads (suc (suc (suc zero))) h = ground arith
digit_reads (suc (suc (suc (suc zero)))) h = ground arith
digit_reads (suc (suc (suc (suc (suc zero))))) h = ground arith
digit_reads (suc (suc (suc (suc (suc (suc zero)))))) h = ground arith
digit_reads (suc (suc (suc (suc (suc (suc (suc zero))))))) h = ground arith
digit_reads (suc (suc (suc (suc (suc (suc (suc (suc zero)))))))) h = ground arith
digit_reads (suc (suc (suc (suc (suc (suc (suc (suc (suc zero))))))))) h = ground arith
digit_reads (suc (suc (suc (suc (suc (suc (suc (suc (suc (suc d)))))))))) h = absurd (omega arith)

read_from-digit :
    (n d : ℕ) (rest : String)
    → d < 10
    → read_from n (cons_char (digit d) rest) ≡ read_from (n * 10 + d) rest
unfolding read_from
read_from-digit n d rest h =
    let (ok, value) = digit_reads d h in rw ok (ap (λ k. read_from k rest) (omega arith))

pub read_from-decimal :
    (f n : ℕ) (rest : String) → n < f → read_from 0 (decimal f n rest) ≡ read_from n rest
unfolding decimal
read_from-decimal zero n rest h = absurd (omega arith)
read_from-decimal (suc f) n rest h = elim (Bool-cases (ltb n 10)) [
  | inl small ↦
      rw small (read_from-digit 0 n rest (ground arith) ∙ ap (λ k. read_from k rest) (omega arith))
  | inr big ↦ rw big (
      read_from-decimal f (n / 10) (cons_char (digit (n % 10)) rest) (ground arith)
      ∙ (read_from-digit (n / 10) (n % 10) rest (omega arith)
          ∙ ap (λ k. read_from k rest) (omega arith)))
]

pub read_from-zeros : (k : ℕ) (s : String) → read_from 0 (zeros k s) ≡ read_from 0 s
unfolding zeros read_from
read_from-zeros zero s = refl
read_from-zeros (suc k) s = read_from-zeros k s

pub read_digits_of : (n : ℕ) (s : String) → 0 < n → read_from 0 s ≡ some n → read_digits s ≡ some n
read_digits_of n empty_text h e = unfold read_from in ground arith
read_digits_of n (cons_char c s) h e = e

id_number-padded :
    (n : ℕ) → 0 < n → id_number (cons_char "P" (cons_char "T" (cons_char "-" (padded n)))) ≡ some n
unfolding id_number padded
id_number-padded n h =
    let s = decimal (suc n) n "" in
    read_digits_of n (zeros (4 - count s) s) h
      (read_from-zeros (4 - count s) s ∙ read_from-decimal (suc n) n "" (omega arith))

module _ {F : Type 0} where
  le-largest : (ps : List (CivilPoint F)) (n : ℕ) → n ≤ largest ps n
  unfolding largest
  le-largest [] n = omega arith
  le-largest (p ∷ ps) n =
      le_trans (le-bump (id_number p.id)) (le-largest ps (bump n (id_number p.id)))
    where
      le-bump : (o : Option ℕ) → n ≤ bump n o
      le-bump none = omega arith
      le-bump (some k) = omega arith

  not_mem_above :
      (i : String) (m : ℕ) (ps : List (CivilPoint F)) (n : ℕ)
      → id_number i ≡ some (suc m)
      → largest ps n ≤ m
      → mem_id i ps ≡ false
  unfolding largest
  not_mem_above i m [] n e h = refl
  not_mem_above i m (p ∷ ps) n e h = elim (Bool-cases (str_eq p.id i)) [
    | inl same ↦
        let number = ap id_number ((eq_iff p.id i).0 same) ∙ e in
        absurd (omega (arith, h, le-largest ps (bump n (id_number p.id)), ap (bump n) number))
    | inr other ↦ rw other (not_mem_above i m ps (bump n (id_number p.id)) e h)
  ]

  -- The id that `_next_point_id` makes is the id of no point.
  pub next_point_id_fresh : (ps : List (CivilPoint F)) → mem_id (next_point_id ps) ps ≡ false
  unfolding next_point_id
  next_point_id_fresh ps =
      not_mem_above (next_point_id ps) (largest ps 0) ps 0
        (id_number-padded (largest ps 0 + 1) (omega arith) ∙ ap some (omega arith)) (omega arith)
