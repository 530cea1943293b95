-- ===== src/Civil/Workflow/Lines/Numbers.antt =====
-- workflow.py: what `add_elevation_line` leaves alone.
use screen2xyz_civil_plan_di.Prelude.{String, List, [], ◌∷◌, not, ltb, length}
use screen2xyz_civil_plan_di.Prelude.Int.{pos}
use screen2xyz_civil_plan_di.Civil.Vocabulary.{method_parse}
use screen2xyz_civil_plan_di.Civil.Json.{int, float, str}
use screen2xyz_civil_plan_di.Civil.Model.{PixelPoint, line_valid}
use screen2xyz_civil_plan_di.Civil.Workflow.{
  workflow_error, model_error, Runtime, pure, modify, audit, ◌>>◌,
}
use screen2xyz_civil_plan_di.Civil.Workflow.Triple.{
  OnPoints, Triple, ◌⟫◌, Triple-pure, Triple-gets, Triple-modify, Triple-require, Triple-or_raise,
  Triple-clock, Triple-audit, Triple-validate_elevation,
}
use screen2xyz_civil_plan_di.Civil.Workflow.Gate.Project.{Triple-ensure}
use screen2xyz_civil_plan_di.Civil.Workflow.Lines.{
  all_in_crop, new_line, append_line, add_elevation_line,
}

module _ (rt : Runtime) where
  open rt use {fl}
  open fl use {F}

  -- It writes no point.
  pub Triple-add_elevation_line :
      {K : OnPoints F} (vertices : List (PixelPoint F)) (elevation : F)
      (method description : String)
      → Triple K K (add_elevation_line rt vertices elevation method description)
  unfolding add_elevation_line append_line
  Triple-add_elevation_line vertices elevation method description =
      Triple-validate_elevation rt elevation ⟫ λ _.
      Triple-require (not (ltb (length vertices) 2)) workflow_error (λ enough.
        Triple-or_raise workflow_error (method_parse method) ⟫ λ m.
        Triple-gets (λ p. p.crop) ⟫ λ crop.
        Triple-require (all_in_crop rt crop vertices) workflow_error (λ inside.
          Triple-clock rt ⟫ λ t. Triple-gets (λ p. p) ⟫ λ project.
          let l = new_line rt vertices elevation m description project t in
          Triple-ensure (line_valid fl l) model_error l
            (λ x.
              modify (append_line rt x)
              >> (audit rt "ELEVATION_LINE_ADDED"
                    "Reviewer supplied explicit contour-line geometry and elevation."
                    (("line_id", str x.id)
                      ∷ ("vertex_count", int (pos (length vertices)))
                      ∷ ("elevation", float elevation)
                      ∷ [])
                  >> pure x))
            (Triple-modify (append_line rt l) (λ p k. k) ⟫ λ _.
              Triple-audit rt "ELEVATION_LINE_ADDED"
                "Reviewer supplied explicit contour-line geometry and elevation."
                (("line_id", str l.id)
                  ∷ ("vertex_count", int (pos (length vertices)))
                  ∷ ("elevation", float elevation)
                  ∷ [])
              ⟫ λ _. Triple-pure l)))
