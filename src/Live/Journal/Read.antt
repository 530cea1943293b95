-- ===== src/Live/Journal/Read.antt =====
-- journal.py: `read_journal`.
use screen2xyz_civil_plan_di.Prelude.{
  ℕ, suc, ◌+◌, String, Option, none, some, Bool, false, not, ◌&&◌, List, [], ◌∷◌, ◌++◌,
  if◌then◌else◌, ◌==◌, length, is_empty,
}
use screen2xyz_civil_plan_di.Prelude.Int.{pos}
use screen2xyz_civil_plan_di.Prelude.Floats.{Floats}
use screen2xyz_civil_plan_di.Civil.Json.{
  Value, Fields, null, bool, int, float, obj, lookup, or_value,
}
use screen2xyz_civil_plan_di.Live.Stability.{Bytes}
use screen2xyz_civil_plan_di.Live.Journal.{Codec}

-- The events and warnings, or what is raised at a line: the two reasons of `StorageFailure`, and the
-- AttributeError of a line that is no dictionary.
pub data Reading (F : Type 0) : Type 0 where
  journal : List (Fields F) → List String → Reading F
  malformed_journal_line : ℕ → Reading F
  journal_sequence_break : ℕ → Reading F
  no_dictionary : Reading F

-- What the loop does at a line.
pub data Verdict (F : Type 0) : Type 0 where
  skip : Verdict F
  torn : Verdict F
  malformed : Verdict F
  sequence_break : Verdict F
  odd : Verdict F
  keep : Fields F → Verdict F

unfoldable pub push : ℕ → List Bytes → List Bytes
push b [] = (b ∷ []) ∷ []
push b (l ∷ ls) = (b ∷ l) ∷ ls

-- `raw.split(b"\n")`
unfoldable pub split : Bytes → List Bytes
unfolding push
split [] = [] ∷ []
split (b ∷ bs) = let rest = split bs in if b == 10 then [] ∷ rest else push b rest

-- `raw.endswith(b"\n")`
unfoldable pub ends_complete : Bytes → Bool
ends_complete [] = false
ends_complete (b ∷ []) = b == 10
ends_complete (b ∷ bs) = ends_complete bs

-- The largest index of a line that is not empty, the first line having index `i`.
unfoldable pub last_nonempty : ℕ → List Bytes → Option ℕ → Option ℕ
last_nonempty i [] found = found
last_nonempty i (l ∷ ls) found = last_nonempty (suc i) ls (if is_empty l then found else some i)

unfoldable pub is_at : ℕ → Option ℕ → Bool
is_at i none = false
is_at i (some k) = i == k

module _ (fl : Floats) (c : Codec fl.F) where
  open fl use {F, of_nat, eq}

  -- `value == n`
  unfoldable pub equals : Value F → ℕ → Bool
  equals (int (pos k)) n = k == n
  equals (bool b) n = (if b then 1 else 0) == n
  equals (float x) n = eq x (of_nat n)
  equals _ n = false

  -- The test of a decoded line
  unfoldable pub examine : Bool → ℕ → Option (Value F) → Verdict F
  unfolding equals lookup or_value
  examine is_last expected none = if is_last then torn else malformed
  examine is_last expected (some (obj fs)) =
      if equals (or_value (lookup "event_seq" fs) null) expected then keep fs else sequence_break
  examine is_last expected (some _) = odd

  unfoldable pub verdict : Bool → ℕ → Bytes → Verdict F
  unfolding examine
  verdict is_last expected line =
      if is_empty line then skip else examine is_last expected (c.loads line)

  -- The loop, with the index of the next line and the events so far
  unfoldable pub read_lines : Option ℕ → Bool → ℕ → List Bytes → List (Fields F) → Reading F
  unfolding verdict is_at
  read_lines last complete index [] events = journal events []
  read_lines last complete index (line ∷ rest) events =
      elim (verdict (is_at index last && not complete) (length events + 1) line) [
        | skip ↦ read_lines last complete (suc index) rest events
        | torn ↦ journal events ("PARTIAL_FINAL_LINE" ∷ [])
        | malformed ↦ malformed_journal_line (suc index)
        | sequence_break ↦ journal_sequence_break (suc index)
        | odd ↦ no_dictionary
        | keep e ↦ read_lines last complete (suc index) rest (events ++ (e ∷ []))
      ]

  -- `read_journal` of events.jsonl, `none` where there is no such file
  unfoldable pub read_journal : Option Bytes → Reading F
  unfolding read_lines split last_nonempty ends_complete
  read_journal none = journal [] ("JOURNAL_MISSING" ∷ [])
  read_journal (some raw) =
      read_lines (last_nonempty 0 (split raw) none) (ends_complete raw) 0 (split raw) []
