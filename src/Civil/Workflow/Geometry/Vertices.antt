-- ===== src/Civil/Workflow/Geometry/Vertices.antt =====
-- workflow.py: the vertices of the reviewed geometry.
use screen2xyz_civil_plan_di.Prelude.{
  ℕ, ◌≡◌, ◌≤◌, refl, String, Bool, true, false, List, [], ◌∷◌, ◌++◌, arith, All, All-append,
}
use screen2xyz_civil_plan_di.Civil.Model.{PixelPoint, CivilProject}
use screen2xyz_civil_plan_di.Civil.Workflow.{
  Runtime, Desk, require, workflow_error, modify, audit, ◌>>◌,
}
use screen2xyz_civil_plan_di.Civil.Workflow.Geometry.{
  distinct_vertices, geometry_ok, set_boundary, add_exclusion_polygon, add_breakline,
  add_no_cross_line,
}

module _ (rt : Runtime) where
  open rt use {fl}
  open fl use {F}

  abbrev pub HasVertices : ℕ → List (PixelPoint F) → Type 0
  HasVertices n points = n ≤ distinct_vertices rt points

  -- Polygons have three distinct vertices and lines two.
  pub record IsDrawn (p : CivilProject F) : Type 0 where
    pub boundaries : All (HasVertices 3) p.boundaries
    pub exclusions : All (HasVertices 3) p.exclusion_polygons
    pub breaklines : All (HasVertices 2) p.breaklines
    pub no_cross : All (HasVertices 2) p.no_cross_lines

  geometry_ok-HasVertices :
      (p : CivilProject F) (n : ℕ) (points : List (PixelPoint F))
      → geometry_ok rt p n points ≡ true
      → HasVertices n points
  unfolding geometry_ok
  geometry_ok-HasVertices p n points h = ground arith

  -- A test, a write and an audit entry.
  written-IsDrawn :
      (b : Bool) (f : CivilProject F → CivilProject F) (action detail : String) (d : Desk F)
      → IsDrawn d.project
      → (b ≡ true → IsDrawn (f d.project))
      → IsDrawn ((require b workflow_error >> (modify f >> audit rt action detail [])) d).1.project
  written-IsDrawn false f action detail d h g = h
  written-IsDrawn true f action detail d h g =
      let after = g refl in
      record {
        boundaries = after.boundaries;
        exclusions = after.exclusions;
        breaklines = after.breaklines;
        no_cross = after.no_cross;
      }

  one_more :
      (n : ℕ) (points : List (PixelPoint F)) (lines : List (List (PixelPoint F)))
      → All (HasVertices n) lines
      → HasVertices n points
      → All (HasVertices n) (lines ++ points ∷ [])
  one_more n points lines h v = All-append (HasVertices n) lines (points ∷ []) h (v, tt)

  -- Each of the four methods that draw geometry, whether it succeeds or raises, leaves polygons of
  -- at least three distinct vertices and lines of at least two, where the project had such.
  pub drawing-IsDrawn :
      (points : List (PixelPoint F)) (d : Desk F)
      → IsDrawn d.project
      → IsDrawn (set_boundary rt points d).1.project
        × IsDrawn (add_exclusion_polygon rt points d).1.project
        × IsDrawn (add_breakline rt points d).1.project
        × IsDrawn (add_no_cross_line rt points d).1.project
  unfolding set_boundary add_exclusion_polygon add_breakline add_no_cross_line
  drawing-IsDrawn points d h = (
    written-IsDrawn (geometry_ok rt d.project 3 points)
        (λ p. record p { boundaries = points ∷ []; exports_stale = true }) "BOUNDARY_SET" _ d h
        (λ e. record {
          boundaries = (geometry_ok-HasVertices d.project 3 points e, tt);
          exclusions = h.exclusions;
          breaklines = h.breaklines;
          no_cross = h.no_cross;
        }),
    written-IsDrawn (geometry_ok rt d.project 3 points)
        (λ p. record p {
          exclusion_polygons = p.exclusion_polygons ++ points ∷ [];
          exports_stale = true;
        })
        "EXCLUSION_ADDED" _ d h
        (λ e. record {
          boundaries = h.boundaries;
          exclusions =
              one_more 3 points _ h.exclusions (geometry_ok-HasVertices d.project 3 points e);
          breaklines = h.breaklines;
          no_cross = h.no_cross;
        }),
    written-IsDrawn (geometry_ok rt d.project 2 points)
        (λ p. record p { breaklines = p.breaklines ++ points ∷ []; exports_stale = true })
        "BREAKLINE_ADDED" _ d h
        (λ e. record {
          boundaries = h.boundaries;
          exclusions = h.exclusions;
          breaklines =
              one_more 2 points _ h.breaklines (geometry_ok-HasVertices d.project 2 points e);
          no_cross = h.no_cross;
        }),
    written-IsDrawn (geometry_ok rt d.project 2 points)
        (λ p. record p { no_cross_lines = p.no_cross_lines ++ points ∷ []; exports_stale = true })
        "NO_CROSS_ADDED" _ d h
        (λ e. record {
          boundaries = h.boundaries;
          exclusions = h.exclusions;
          breaklines = h.breaklines;
          no_cross = one_more 2 points _ h.no_cross (geometry_ok-HasVertices d.project 2 points e);
        }),
  )
