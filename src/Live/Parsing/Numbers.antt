-- ===== src/Live/Parsing/Numbers.antt =====
-- parsing.py: `_interpret` and `parse_number`.
use screen2xyz_civil_plan_di.Prelude.{
  ℕ, zero, suc, Option, none, some, Bool, true, false, not, ◌&&◌, ◌||◌, List, [], ◌∷◌, ◌++◌,
  if◌then◌else◌, ltb, ◌==◌, length, is_empty, is_none,
}
use screen2xyz_civil_plan_di.Prelude.Floats.{Floats}
use screen2xyz_civil_plan_di.Prelude.Texts.{is_space}
use screen2xyz_civil_plan_di.Live.Status.{ParseStatus}
use screen2xyz_civil_plan_di.Live.Parsing.{
  Text, Characters, SeparatorMode, point, comma, auto, ParseOutcome, Match, Scan, idle, within,
  strip, is_sign, is_separator, is_minus_variant, strip_separators, remove, replace, after_point,
  holds, head, last,
}

-- The matches that `parse_number` took as candidates, and whether one was malformed.
pub record Found : Type 0 where
  pub candidates : List Text
  pub malformed : Bool

-- The text with its signs normalized, whether one was, and the first that was.
pub record Signs : Type 0 where
  pub working : Text
  pub changed : Bool
  pub original : Option ℕ

-- `value[1:]` where it starts with a plus
unfoldable pub drop_plus : Text → Text
drop_plus [] = []
drop_plus (c ∷ rest) = if c == 43 then rest else c ∷ rest

unfoldable pub same_text : Text → Text → Bool
same_text [] [] = true
same_text (c ∷ s) (d ∷ t) = c == d && same_text s t
same_text _ _ = false

-- `[+-]?`
unfoldable pub unsigned : Text → Text
unfolding is_sign
unsigned [] = []
unsigned (c ∷ rest) = if is_sign c then rest else c ∷ rest

unfoldable pub canonical_comma : Text → Text
unfolding remove replace
canonical_comma value = replace 44 46 (remove 46 value)

unfoldable pub agreed : Option Text → Option Text → Option Text
unfolding same_text
agreed (some p) (some q) = if same_text p q then some p else none
agreed (some p) none = some p
agreed none o = o

unfoldable pub note : Option Text → Found → Found
note none f = record f { malformed = true }
note (some t) f = record f { candidates = f.candidates ++ (t ∷ []) }

module _ {F : Type 0} (ch : Characters F) where
  open ch use {is_decimal, is_digit, is_alpha, is_dash, names_sign}

  -- `\s*\d` at the start
  unfoldable pub space_digit : Text → Bool
  unfolding is_space
  space_digit [] = false
  space_digit (c ∷ rest) = is_decimal c || (is_space c && space_digit rest)

  -- `\s+\d` at the start
  unfoldable pub spaces_digit : Text → Bool
  unfolding is_space space_digit
  spaces_digit [] = false
  spaces_digit (c ∷ rest) = is_space c && space_digit rest

  -- `_is_disallowed_sign`
  unfoldable pub is_disallowed_sign : ℕ → Bool
  unfolding is_sign is_minus_variant
  is_disallowed_sign c =
      if is_sign c || is_minus_variant c then false else (if is_dash c then true else names_sign c)

  -- `_sign_glyph_violation`
  unfoldable pub sign_glyph_violation : Text → Bool
  unfolding is_disallowed_sign space_digit spaces_digit is_sign is_minus_variant
  sign_glyph_violation [] = false
  sign_glyph_violation (c ∷ rest) =
      (is_disallowed_sign c && space_digit rest)
      || (((is_sign c || is_minus_variant c) && spaces_digit rest) || sign_glyph_violation rest)

  -- `_normalize_signs`, after the characters seen
  unfoldable pub normalize_from : Signs → Text → Signs
  unfolding is_minus_variant holds head
  normalize_from s [] = s
  normalize_from s (c ∷ rest) =
      normalize_from
        (if is_minus_variant c && holds is_digit (head rest)
          then record {
            working = s.working ++ (45 ∷ []);
            changed = true;
            original = if is_none s.original then some c else s.original;
          }
          else record s { working = s.working ++ (c ∷ []) })
        rest

  unfoldable pub normalize_signs : Text → Signs
  unfolding normalize_from
  normalize_signs text =
      normalize_from (record { working = []; changed = false; original = none }) text

  -- `[+-]?\d` at a character and what follows
  unfoldable pub starts : ℕ → Text → Bool
  unfolding is_sign holds head
  starts c rest = is_decimal c || (is_sign c && holds is_decimal (head rest))

  -- `[\d.,]`
  unfoldable pub is_body : ℕ → Bool
  unfolding is_separator
  is_body c = is_decimal c || is_separator c

  unfoldable pub begin : Option ℕ → ℕ → Text → Scan
  unfolding starts
  begin before c rest = if starts c rest then within before (c ∷ []) else idle (some c)

  -- `_TOKEN_RE.finditer`
  unfoldable pub matches : Scan → Text → List Match
  unfolding begin is_body last
  matches (idle before) [] = []
  matches (idle before) (c ∷ rest) = matches (begin before c rest) rest
  matches (within before token) [] = record { before = before; token = token; after = none } ∷ []
  matches (within before token) (c ∷ rest) = elim (is_body c) [
    | true ↦ matches (within before (token ++ (c ∷ []))) rest
    | false ↦
        record { before = before; token = token; after = some c }
        ∷ matches (begin (last token) c rest) rest
  ]

  -- `\d*$` and `\d+$`
  unfoldable pub digits_to_end : Text → Bool
  digits_to_end [] = true
  digits_to_end (c ∷ rest) = is_decimal c && digits_to_end rest

  unfoldable pub some_digits_to_end : Text → Bool
  unfolding digits_to_end
  some_digits_to_end [] = false
  some_digits_to_end (c ∷ rest) = is_decimal c && digits_to_end rest

  -- `\d*(?:\.\d+)?$`, with `mark` in the place of the point
  unfoldable pub whole_part : ℕ → Text → Bool
  unfolding some_digits_to_end
  whole_part mark [] = true
  whole_part mark (c ∷ rest) =
      if c == mark then some_digits_to_end rest else is_decimal c && whole_part mark rest

  -- `\d+(?:\.\d+)?$`
  unfoldable pub plain : ℕ → Text → Bool
  unfolding whole_part
  plain mark [] = false
  plain mark (c ∷ rest) = is_decimal c && whole_part mark rest

  -- `(?:,\d{3})*(?:\.\d+)?$`
  unfoldable pub groups : ℕ → ℕ → Text → Bool
  unfolding some_digits_to_end
  groups sep mark [] = true
  groups sep mark (c ∷ x ∷ y ∷ z ∷ rest) =
      if c == sep
      then is_decimal x && (is_decimal y && (is_decimal z && groups sep mark rest))
      else c == mark && some_digits_to_end (x ∷ y ∷ z ∷ rest)
  groups sep mark (c ∷ rest) = c == mark && some_digits_to_end rest

  -- `(?:,\d{3})+(?:\.\d+)?$`
  unfoldable pub some_groups : ℕ → ℕ → Text → Bool
  unfolding groups
  some_groups sep mark [] = false
  some_groups sep mark (c ∷ rest) = c == sep && groups sep mark (c ∷ rest)

  -- `\d{1,3}(?:,\d{3})+(?:\.\d+)?$`
  unfoldable pub grouped : ℕ → ℕ → ℕ → Text → Bool
  unfolding some_groups
  grouped zero sep mark text = false
  grouped (suc n) sep mark [] = false
  grouped (suc n) sep mark (c ∷ rest) =
      is_decimal c && (some_groups sep mark rest || grouped n sep mark rest)

  unfoldable pub interpret_point : Text → Option Text
  unfolding plain grouped unsigned remove
  interpret_point token =
      if plain 46 (unsigned token)
      then some token
      else if grouped 3 44 46 (unsigned token)
      then some (remove 44 token)
      else none

  unfoldable pub interpret_comma : Text → Option Text
  unfolding plain grouped unsigned canonical_comma
  interpret_comma token =
      if plain 44 (unsigned token)
      then some (canonical_comma token)
      else if grouped 3 46 44 (unsigned token)
      then some (canonical_comma token)
      else none

  -- `_interpret`
  unfoldable pub interpret : SeparatorMode → Text → Option Text
  unfolding interpret_point interpret_comma agreed
  interpret point token = interpret_point token
  interpret comma token = interpret_comma token
  interpret auto token = agreed (interpret_point token) (interpret_comma token)

  -- The canonical text of a match, `none` where the loop sets `malformed`.
  unfoldable pub candidate : SeparatorMode → Match → Option Text
  unfolding interpret is_separator strip_separators holds
  candidate mode m =
      if holds is_separator m.before
      then none
      else if holds is_alpha m.before || holds is_alpha m.after
      then none
      else interpret mode (strip_separators m.token)

  -- The loop over the matches
  unfoldable pub collect : SeparatorMode → List Match → Found → Found
  unfolding candidate note
  collect mode [] f = f
  collect mode (m ∷ ms) f = collect mode ms (note (candidate mode m) f)

unfoldable pub outcome : ParseStatus → Option Text → Signs → ParseOutcome
outcome status value s = record {
  parse_status = status;
  normalized_value = value;
  value_kind = "number";
  sign_normalized = s.changed;
  original_sign_code_point = s.original;
  warning_codes = [];
}

-- No sign was normalized, or the result does not tell.
unfoldable pub unsigned_outcome : ParseStatus → ParseOutcome
unfolding outcome
unsigned_outcome status =
    outcome status none (record { working = []; changed = false; original = none })

unfoldable pub too_precise : Option ℕ → Text → Bool
unfolding after_point
too_precise none value = false
too_precise (some p) value = ltb p (length (after_point value))

module _ (fl : Floats) (ch : Characters fl.F) where
  open fl use {F, le}

  unfoldable pub out_of_range : Option (F × F) → Text → Bool
  out_of_range none value = false
  out_of_range (some (low, high)) value =
      not (le low (ch.to_float value) && le (ch.to_float value) high)

  -- What follows the loop
  unfoldable pub conclude : Option (F × F) → Option ℕ → Signs → Bool → List Text → ParseOutcome
  unfolding out_of_range too_precise drop_plus outcome unsigned_outcome
  conclude range precision s malformed (c ∷ d ∷ rest) =
      outcome ParseStatus.ambiguous_multiple_numbers none s
  conclude range precision s malformed [] =
      if malformed
      then outcome ParseStatus.malformed_number none s
      else unsigned_outcome ParseStatus.no_number
  conclude range precision s malformed (c ∷ []) =
      let value = drop_plus c in
      if malformed
      then outcome ParseStatus.malformed_number none s
      else if too_precise precision value
      then outcome ParseStatus.malformed_number none s
      else if out_of_range range value
      then outcome ParseStatus.out_of_range none s
      else outcome ParseStatus.ok (some value) s

  -- `parse_number` of a stripped text that is not empty and has no sign violation
  unfoldable pub parse_signed : SeparatorMode → Option (F × F) → Option ℕ → Signs → ParseOutcome
  unfolding conclude collect matches
  parse_signed mode range precision s =
      let f =
        collect ch mode (matches ch (idle none) s.working)
          (record { candidates = []; malformed = false }) in
      conclude range precision s f.malformed f.candidates

  unfoldable pub parse_stripped : SeparatorMode → Option (F × F) → Option ℕ → Text → ParseOutcome
  unfolding parse_signed sign_glyph_violation normalize_signs unsigned_outcome
  parse_stripped mode range precision text =
      if is_empty text
      then unsigned_outcome ParseStatus.no_number
      else if sign_glyph_violation ch text
      then unsigned_outcome ParseStatus.malformed_number
      else parse_signed mode range precision (normalize_signs ch text)

  -- `parse_number`
  unfoldable pub parse_number : SeparatorMode → Option (F × F) → Option ℕ → Text → ParseOutcome
  unfolding parse_stripped strip
  parse_number mode range precision text = parse_stripped mode range precision (strip text)
