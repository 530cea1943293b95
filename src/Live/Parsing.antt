-- ===== src/Live/Parsing.antt =====
-- src/screen2xyz_m2/parsing.py: `parse_number`, `parse_text` and what they call. A text is its code
-- points. What Python's `re`, `str` and `unicodedata` know of a character, beyond white space, is a
-- parameter (`Characters`), and so is `float`. Each regular expression is a function by clauses.
pub mod Numbers
pub mod Canonical
pub mod Unique
pub mod Bounds
mod Tests
use screen2xyz_civil_plan_di.Prelude.{
  ℕ, zero, suc, ◌≡◌, String, Option, none, some, Bool, true, false, not, ◌&&◌, ◌||◌, List, [], ◌∷◌,
  ◌++◌, if◌then◌else◌, leb, ltb, ◌==◌, length, is_empty, any,
}
use screen2xyz_civil_plan_di.Prelude.Floats.{Floats}
use screen2xyz_civil_plan_di.Prelude.Texts.{is_space}
use screen2xyz_civil_plan_di.Live.Status.{ParseStatus}

abbrev pub Text : Type 0
Text = List ℕ

-- `\d`, `str.isdigit`, `str.isalpha`, the category `Pd`, a name with MINUS or PLUS in it, and
-- `float(text)` of a canonical number.
pub record Characters (F : Type 0) : Type 0 where
  pub is_decimal : ℕ → Bool
  pub is_digit : ℕ → Bool
  pub is_alpha : ℕ → Bool
  pub is_dash : ℕ → Bool
  pub names_sign : ℕ → Bool
  pub to_float : Text → F

-- The three settings of the separators; any other text means `auto`.
pub data SeparatorMode : Type 0 where
  point : SeparatorMode
  comma : SeparatorMode
  auto : SeparatorMode

-- `original_sign_code_point` is the number whose text is `U+` and its hexadecimal digits.
pub record ParseOutcome : Type 0 where
  pub parse_status : ParseStatus
  pub normalized_value : Option Text
  pub value_kind : String
  pub sign_normalized : Bool
  pub original_sign_code_point : Option ℕ
  pub warning_codes : List String

-- A match of `_TOKEN_RE` with the characters before and after it.
pub record Match : Type 0 where
  pub before : Option ℕ
  pub token : Text
  pub after : Option ℕ

-- Where `finditer` stands: between matches, after the given character, or in a match.
pub data Scan : Type 0 where
  idle : Option ℕ → Scan
  within : Option ℕ → Text → Scan

-- `str.strip`
unfoldable pub strip_left : Text → Text
unfolding is_space
strip_left [] = []
strip_left (c ∷ rest) = if is_space c then strip_left rest else c ∷ rest

unfoldable pub strip_right : Text → Text
unfolding is_space
strip_right [] = []
strip_right (c ∷ rest) =
    let kept = strip_right rest in if is_empty kept && is_space c then [] else c ∷ kept

unfoldable pub strip : Text → Text
unfolding strip_left strip_right
strip s = strip_right (strip_left s)

-- `character in "+-"`
unfoldable pub is_sign : ℕ → Bool
is_sign c = c == 43 || c == 45

-- `character in ".,"`
unfoldable pub is_separator : ℕ → Bool
is_separator c = c == 46 || c == 44

-- `ACCEPTED_MINUS_VARIANTS`
unfoldable pub is_minus_variant : ℕ → Bool
is_minus_variant c = c == 8722 || ((leb 8208 c && leb c 8212) || (c == 65123 || c == 65293))

-- `rstrip(".,")`
unfoldable pub strip_separators : Text → Text
unfolding is_separator
strip_separators [] = []
strip_separators (c ∷ rest) =
    let kept = strip_separators rest in if is_empty kept && is_separator c then [] else c ∷ kept

-- `value.replace(",", "")` and the like
unfoldable pub remove : ℕ → Text → Text
remove k [] = []
remove k (c ∷ rest) = let kept = remove k rest in if c == k then kept else c ∷ kept

unfoldable pub replace : ℕ → ℕ → Text → Text
replace k j [] = []
replace k j (c ∷ rest) = (if c == k then j else c) ∷ replace k j rest

-- `value.partition(".")[2]`
unfoldable pub after_point : Text → Text
after_point [] = []
after_point (c ∷ rest) = if c == 46 then rest else after_point rest

unfoldable pub holds : (ℕ → Bool) → Option ℕ → Bool
holds p none = false
holds p (some c) = p c

unfoldable pub head : Text → Option ℕ
head [] = none
head (c ∷ rest) = some c

unfoldable pub last : Text → Option ℕ
last [] = none
last (c ∷ []) = some c
last (c ∷ rest) = last rest

-- `_CONTROL_RE.sub(" ", text)`
unfoldable pub blank_controls : Text → Text
blank_controls [] = []
blank_controls (c ∷ rest) =
    (if leb c 31 || (leb 127 c && leb c 159) then 32 else c) ∷ blank_controls rest

-- `_WS_RE.sub(" ", text)`; the test tells whether a run of white space is open.
unfoldable pub join_spaces : Bool → Text → Text
unfolding is_space
join_spaces open_run [] = []
join_spaces open_run (c ∷ rest) = elim (is_space c) [
  | false ↦ c ∷ join_spaces false rest
  | true ↦ if open_run then join_spaces true rest else 32 ∷ join_spaces true rest
]

-- `parse_text`
unfoldable pub parse_text : Text → ParseOutcome
unfolding blank_controls join_spaces strip
parse_text text = record {
  parse_status = ParseStatus.ok;
  normalized_value = some (strip (join_spaces false (blank_controls text)));
  value_kind = "text";
  sign_normalized = false;
  original_sign_code_point = none;
  warning_codes = [];
}
