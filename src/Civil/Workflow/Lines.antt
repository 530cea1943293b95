-- ===== src/Civil/Workflow/Lines.antt =====
-- workflow.py: `add_elevation_line`. `isdigit` is read as the ASCII digits.
pub mod Numbers
pub mod Fresh
use Prim.Native.Char.{code}
use Prim.Native.String.{◌∷◌ as cons_char, [] as empty_text, count}
use Prim.Native.Nat.{max}
use screen2xyz_civil_plan_di.Prelude.{
  ℕ, suc, ◌+◌, ◌-◌, String, Option, none, some, Bool, true, not, ◌&&◌, List, [], ◌∷◌, ◌++◌, ◌==◌,
  ltb, length, str_eq, if◌then◌else◌,
}
use screen2xyz_civil_plan_di.Prelude.Int.{pos}
use screen2xyz_civil_plan_di.Prelude.Texts.{strip}
use screen2xyz_civil_plan_di.Civil.Vocabulary.{ReviewStatus, SourceMethod, method_parse}
use screen2xyz_civil_plan_di.Civil.Json.{Value, int, float, str}
use screen2xyz_civil_plan_di.Civil.Model.{
  PixelPoint, CropRegion, CivilElevationLine, CivilProject, ensure, line_valid,
}
use screen2xyz_civil_plan_di.Civil.Ids.{read_digits, decimal, zeros}
use screen2xyz_civil_plan_di.Civil.Workflow.{
  workflow_error, model_error, Runtime, Action, pure, gets, or_raise, require, modify, ◌>>=◌, ◌>>◌,
  clock, audit, in_crop, validate_elevation,
}
use screen2xyz_civil_plan_di.Civil.Workflow.Capture.{manifest_or}

-- `id.split("-")[-1]`: the text after the last dash, `part` being the last part so far.
unfoldable pub last_part : String → String → String
last_part part empty_text = part
last_part part (cons_char c rest) = last_part (if code c == 45 then rest else part) rest

abbrev pub greater : ℕ → Option ℕ → ℕ
greater n none = n
greater n (some k) = max n k

module _ {F : Type 0} where
  -- `max(…, default=0)` over the lines whose last part is digits
  unfoldable pub largest_line : List (CivilElevationLine F) → ℕ → ℕ
  unfolding last_part
  largest_line [] n = n
  largest_line (l ∷ ls) n = largest_line ls (greater n (read_digits (last_part l.id l.id)))

  -- `f"CL-{next_number:06d}"`
  unfoldable pub next_line_id : List (CivilElevationLine F) → String
  unfolding largest_line decimal zeros
  next_line_id ls =
      let n = largest_line ls 0 + 1 in
      let s = decimal (suc n) n "" in
      cons_char "C" (cons_char "L" (cons_char "-" (zeros (6 - count s) s)))

module _ (rt : Runtime) where
  open rt use {fl}
  open fl use {F}

  abbrev pub all_in_crop : Option (CropRegion F) → List (PixelPoint F) → Bool
  all_in_crop crop [] = true
  all_in_crop crop (p ∷ ps) = in_crop rt crop p && all_in_crop crop ps

  -- `description.strip() or "CONTOUR"`
  abbrev pub line_description : String → String
  line_description description = let s = strip description in if str_eq s "" then "CONTOUR" else s

  abbrev pub new_line :
      List (PixelPoint F)
      → F
      → SourceMethod
      → String
      → CivilProject F
      → String
      → CivilElevationLine F
  new_line vertices elevation method description project t = record {
    id = next_line_id project.elevation_lines;
    elevation = elevation;
    vertices = vertices;
    source_method = method;
    review_status = ReviewStatus.unreviewed;
    created_at = t;
    updated_at = t;
    description = line_description description;
    sheet = manifest_or rt "sheet_id" "" project;
    revision_label = manifest_or rt "revision" "" project;
    notes = "";
  }

  unfoldable pub append_line : CivilElevationLine F → CivilProject F → CivilProject F
  append_line l p = record p {
    elevation_lines = p.elevation_lines ++ (l ∷ []);
    exports_stale = true;
  }

  unfoldable pub add_elevation_line :
      List (PixelPoint F) → F → String → String → Action F (CivilElevationLine F)
  unfolding append_line
  add_elevation_line vertices elevation source_method description = do
    validate_elevation rt elevation
    require (not (ltb (length vertices) 2)) workflow_error
    method ← or_raise workflow_error (method_parse source_method)
    crop ← gets (λ p. p.crop)
    require (all_in_crop crop vertices) workflow_error
    t ← clock rt
    project ← gets (λ p. p)
    let l = new_line vertices elevation method description project t
    line ← or_raise model_error (ensure (line_valid fl l) l)
    modify (append_line line)
    audit rt "ELEVATION_LINE_ADDED"
        "Reviewer supplied explicit contour-line geometry and elevation."
        (("line_id", str line.id)
          ∷ ("vertex_count", int (pos (length vertices)))
          ∷ ("elevation", float elevation)
          ∷ [])
    pure line
