-- ===== src/Civil/Workflow/Gate/Drawing.antt =====
-- workflow.py: the methods on geometry and elevation lines, and the approved points.
use screen2xyz_civil_plan_di.Prelude.{ℕ, String, List, [], ◌∷◌, ◌++◌, is_some, true}
use screen2xyz_civil_plan_di.Civil.Vocabulary.{ReviewStatus}
use screen2xyz_civil_plan_di.Civil.Json.{str}
use screen2xyz_civil_plan_di.Civil.Model.{PixelPoint, CivilProject}
use screen2xyz_civil_plan_di.Civil.Workflow.{Runtime, workflow_error, modify, audit, ◌>>◌}
use screen2xyz_civil_plan_di.Civil.Workflow.Triple.{
  OnPoints, Triple, ◌⟫◌, Triple-gets, Triple-or_raise, Triple-modify, Triple-require, Triple-touch,
  Triple-audit,
}
use screen2xyz_civil_plan_di.Civil.Workflow.Geometry.{
  find_line, update_line, is_triangle_id, geometry_ok, validate_geometry, counted, added_triangle,
  set_boundary, add_exclusion_polygon, add_breakline, add_no_cross_line, disable_triangle,
  approve_elevation_line,
}
use screen2xyz_civil_plan_di.Civil.Workflow.Gate.Writes.{Triple-mark_stale}

module _ (rt : Runtime) where
  open rt use {fl}
  open fl use {F}

  -- None of the methods touches the points.
  module _ {K : OnPoints F} where
    Triple-drawing :
        (n : ℕ) (points : List (PixelPoint F)) (f : CivilProject F → CivilProject F)
        (action detail : String)
        → ((p : CivilProject F) → K p.points → K (f p).points)
        → Triple K K (validate_geometry rt n points >> (modify f >> audit rt action detail []))
    Triple-drawing n points f action detail h = record {
      at = λ d k.
          (Triple-require (geometry_ok rt d.project n points) workflow_error
              (λ drawn. Triple-modify f h ⟫ λ _. Triple-audit rt action detail [])).at
            d k;
    }

    pub Triple-set_boundary : (points : List (PixelPoint F)) → Triple K K (set_boundary rt points)
    unfolding set_boundary
    Triple-set_boundary points =
        Triple-drawing 3 points (λ p. record p { boundaries = points ∷ []; exports_stale = true })
          "BOUNDARY_SET" (counted rt "Reviewed boundary set with {} vertices." points) (λ p k. k)

    pub Triple-add_exclusion_polygon :
        (points : List (PixelPoint F)) → Triple K K (add_exclusion_polygon rt points)
    unfolding add_exclusion_polygon
    Triple-add_exclusion_polygon points =
        Triple-drawing 3 points
          (λ p. record p {
            exclusion_polygons = p.exclusion_polygons ++ points ∷ [];
            exports_stale = true;
          })
          "EXCLUSION_ADDED" (counted rt "Reviewed exclusion polygon added with {} vertices." points)
          (λ p k. k)

    pub Triple-add_breakline : (points : List (PixelPoint F)) → Triple K K (add_breakline rt points)
    unfolding add_breakline
    Triple-add_breakline points =
        Triple-drawing 2 points
          (λ p. record p { breaklines = p.breaklines ++ points ∷ []; exports_stale = true })
          "BREAKLINE_ADDED"
          (counted rt "User-reviewed preliminary breakline added with {} vertices." points)
          (λ p k. k)

    pub Triple-add_no_cross_line :
        (points : List (PixelPoint F)) → Triple K K (add_no_cross_line rt points)
    unfolding add_no_cross_line
    Triple-add_no_cross_line points =
        Triple-drawing 2 points
          (λ p. record p { no_cross_lines = p.no_cross_lines ++ points ∷ []; exports_stale = true })
          "NO_CROSS_ADDED" (counted rt "User-reviewed no-cross line added with {} vertices." points)
          (λ p k. k)

    pub Triple-disable_triangle : (id : String) → Triple K K (disable_triangle rt id)
    unfolding disable_triangle
    Triple-disable_triangle id = Triple-require (is_triangle_id id) workflow_error (λ valid.
        Triple-modify
          (λ p. record p {
            disabled_triangles = added_triangle rt id p.disabled_triangles;
            exports_stale = true;
          })
          (λ p k. k)
        ⟫ λ _.
            Triple-audit rt "TRIANGLE_DISABLED" "Reviewer disabled a preliminary surface triangle."
              (("triangle_id", str id) ∷ []))

    pub Triple-approve_elevation_line : (id : String) → Triple K K (approve_elevation_line rt id)
    unfolding approve_elevation_line
    Triple-approve_elevation_line id = Triple-gets (λ p. p) ⟫ λ p.
        Triple-require (is_some p.calibration) workflow_error (λ calibrated.
          Triple-or_raise workflow_error (find_line id p.elevation_lines) ⟫ λ line.
          Triple-modify
            (λ r. record r {
              elevation_lines =
                  update_line id (λ l. record l { review_status = ReviewStatus.approved })
                    r.elevation_lines;
            })
            (λ r k. k)
          ⟫ λ _. Triple-touch rt ⟫ λ t.
              Triple-modify
                (λ r. record r {
                  elevation_lines =
                      update_line id (λ l. record l { updated_at = t }) r.elevation_lines;
                })
                (λ r k. k)
              ⟫ λ _. Triple-mark_stale ⟫ λ _.
                  Triple-audit rt "ELEVATION_LINE_APPROVED"
                    "Reviewer explicitly approved contour-line geometry."
                    (("line_id", str line.id) ∷ [])
                  ⟫ λ _. Triple-gets (λ r. r) ⟫ λ q.
                      Triple-or_raise workflow_error (find_line id q.elevation_lines))
