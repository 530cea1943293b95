-- ===== src/Civil/Workflow/Geometry.antt =====
-- workflow.py: the reviewed geometry of the surface, and the approval of elevation lines. A triangle
-- id is a text; `\d` is read as the ASCII digits. The set of vertices is counted by `==` of their
-- coordinates.
pub mod Vertices
use Prim.Native.Char.{Char, code}
use Prim.Native.String.{◌∷◌ as cons_char, [] as empty_text}
use screen2xyz_civil_plan_di.Prelude.{
  ℕ, zero, suc, String, Option, none, some, Bool, true, false, not, ◌&&◌, List, [], ◌∷◌, ◌++◌, any,
  length, str_eq, leb, ltb, ◌==◌, if◌then◌else◌, is_some,
}
use screen2xyz_civil_plan_di.Prelude.Int.{pos}
use screen2xyz_civil_plan_di.Civil.Vocabulary.{ReviewStatus}
use screen2xyz_civil_plan_di.Civil.Json.{Value, int, str}
use screen2xyz_civil_plan_di.Civil.Model.{PixelPoint, CivilElevationLine, CivilProject}
use screen2xyz_civil_plan_di.Civil.Workflow.{
  Fault, workflow_error, Runtime, Action, pure, gets, or_raise, require, modify, mark_stale, ◌>>=◌,
  ◌>>◌, touch, audit, in_crop,
}

abbrev is_digit : Char → Bool
is_digit c = leb 48 (code c) && leb (code c) 57

abbrev all_digits : String → Bool
all_digits empty_text = true
all_digits (cons_char c rest) = is_digit c && all_digits rest

abbrev has_four : String → Bool
has_four (cons_char a (cons_char b (cons_char c (cons_char d rest)))) = true
has_four _ = false

-- `re.fullmatch(r"T-\d{4,}", triangle_id)`
unfoldable pub is_triangle_id : String → Bool
is_triangle_id (cons_char t (cons_char dash rest)) =
    (code t == 84 && code dash == 45) && (has_four rest && all_digits rest)
is_triangle_id _ = false

module _ {F : Type 0} where
  abbrev is_text : String → Value F → Bool
  is_text t (str s) = str_eq s t
  is_text t _ = false

  unfoldable pub find_line : String → List (CivilElevationLine F) → Option (CivilElevationLine F)
  find_line i [] = none
  find_line i (l ∷ ls) = if str_eq l.id i then some l else find_line i ls

  unfoldable pub update_line :
      String
      → (CivilElevationLine F → CivilElevationLine F)
      → List (CivilElevationLine F)
      → List (CivilElevationLine F)
  update_line i f [] = []
  update_line i f (l ∷ ls) = if str_eq l.id i then f l ∷ ls else l ∷ update_line i f ls

module _ (rt : Runtime) where
  open rt use {fl, format}
  open fl use {F, eq}

  abbrev pub same_place : PixelPoint F → PixelPoint F → Bool
  same_place p q = eq p.x q.x && eq p.y q.y

  -- `len({(point.x, point.y) for point in points})`
  unfoldable pub distinct_vertices : List (PixelPoint F) → ℕ
  distinct_vertices [] = 0
  distinct_vertices (p ∷ ps) =
      let rest = distinct_vertices ps in if any (same_place p) ps then rest else suc rest

  -- `_validate_geometry`
  unfoldable pub geometry_ok : CivilProject F → ℕ → List (PixelPoint F) → Bool
  geometry_ok p minimum points =
      not (ltb (length points) minimum)
      && (not (ltb (distinct_vertices points) minimum)
          && not (any (λ q. not (in_crop rt p.crop q)) points))

  abbrev pub validate_geometry : ℕ → List (PixelPoint F) → Action F (Unit {0})
  validate_geometry minimum points = do
    p ← gets (λ p. p)
    require (geometry_ok p minimum points) workflow_error

  abbrev pub counted : String → List (PixelPoint F) → String
  counted text points = format text (int (pos (length points)) ∷ [])

  unfoldable pub set_boundary : List (PixelPoint F) → Action F (Unit {0})
  set_boundary points = do
    validate_geometry 3 points
    modify (λ p. record p { boundaries = points ∷ []; exports_stale = true })
    audit rt "BOUNDARY_SET" (counted "Reviewed boundary set with {} vertices." points) []

  unfoldable pub add_exclusion_polygon : List (PixelPoint F) → Action F (Unit {0})
  add_exclusion_polygon points = do
    validate_geometry 3 points
    modify (λ p. record p {
      exclusion_polygons = p.exclusion_polygons ++ points ∷ [];
      exports_stale = true;
    })
    audit rt "EXCLUSION_ADDED" (counted "Reviewed exclusion polygon added with {} vertices." points)
        []

  unfoldable pub add_breakline : List (PixelPoint F) → Action F (Unit {0})
  add_breakline points = do
    validate_geometry 2 points
    modify (λ p. record p { breaklines = p.breaklines ++ points ∷ []; exports_stale = true })
    audit rt "BREAKLINE_ADDED"
        (counted "User-reviewed preliminary breakline added with {} vertices." points) []

  unfoldable pub add_no_cross_line : List (PixelPoint F) → Action F (Unit {0})
  add_no_cross_line points = do
    validate_geometry 2 points
    modify
        (λ p. record p { no_cross_lines = p.no_cross_lines ++ points ∷ []; exports_stale = true })
    audit rt "NO_CROSS_ADDED" (counted "User-reviewed no-cross line added with {} vertices." points)
        []

  abbrev pub added_triangle : String → List (Value F) → List (Value F)
  added_triangle id ids = if any (is_text id) ids then ids else ids ++ str id ∷ []

  unfoldable pub disable_triangle : String → Action F (Unit {0})
  disable_triangle id = do
    require (is_triangle_id id) workflow_error
    modify (λ p. record p {
      disabled_triangles = added_triangle id p.disabled_triangles;
      exports_stale = true;
    })
    audit rt "TRIANGLE_DISABLED" "Reviewer disabled a preliminary surface triangle."
        (("triangle_id", str id) ∷ [])

  unfoldable pub approve_elevation_line : String → Action F (CivilElevationLine F)
  approve_elevation_line id = do
    p ← gets (λ p. p)
    require (is_some p.calibration) workflow_error
    line ← or_raise workflow_error (find_line id p.elevation_lines)
    modify (λ r. record r {
      elevation_lines =
          update_line id (λ l. record l { review_status = ReviewStatus.approved })
            r.elevation_lines;
    })
    t ← touch rt
    modify (λ r. record r {
      elevation_lines = update_line id (λ l. record l { updated_at = t }) r.elevation_lines;
    })
    mark_stale
    audit rt "ELEVATION_LINE_APPROVED" "Reviewer explicitly approved contour-line geometry."
        (("line_id", str line.id) ∷ [])
    q ← gets (λ r. r)
    or_raise workflow_error (find_line id q.elevation_lines)
