-- ===== src/Civil/Workflow/Points.antt =====
-- workflow.py: adding, editing and deleting points.
use screen2xyz_civil_plan_di.Prelude.{
  String, Option, none, some, true, not, ◌&&◌, List, [], ◌∷◌, ◌++◌, any, str_eq, if◌then◌else◌,
}
use screen2xyz_civil_plan_di.Prelude.Int.{ℤ}
use screen2xyz_civil_plan_di.Prelude.Texts.{strip}
use screen2xyz_civil_plan_di.Civil.Vocabulary.{
  PointType, ReviewStatus, SourceMethod, SymbolType, type_name, type_parse, status_name, is_terrain,
  is_manual, description_by_type,
}
use screen2xyz_civil_plan_di.Civil.Json.{Value, float, str, null, dict, end}
use screen2xyz_civil_plan_di.Civil.Model.{
  PixelPoint, Calibration, CivilPoint, CivilProject, approved, mem_id, ensure, point_valid,
}
use screen2xyz_civil_plan_di.Civil.Ids.{next_point_id}
use screen2xyz_civil_plan_di.Civil.Transform.{to_local}
use screen2xyz_civil_plan_di.Civil.Workflow.{
  workflow_error, model_error, Runtime, Action, pure, gets, or_raise, require, given, modify,
  mark_stale, ◌>>=◌, ◌>>◌, clock, touch, log, audit, in_crop, validate_elevation, manifest_text,
  get_point, write_point, remove_point,
}

abbrev manual_description : PointType → String
manual_description PointType.existing_ground = "MANUAL_EX"
manual_description PointType.design_grade = "MANUAL_DES"
manual_description t = description_by_type t ""

-- The keyword arguments of `edit_point`.
pub record Edit (F : Type 0) : Type 0 where
  pub elevation : Option F
  pub point_type : Option String
  pub pixel : Option (PixelPoint F)
  pub point_number : Option String
  pub description : Option String
  pub sheet : Option String
  pub revision_label : Option String
  pub notes : Option String

module _ (rt : Runtime) where
  open rt use {fl}
  open fl use {F}

  -- `to_local(pixel, calibration)` and the revision, where the project is calibrated
  abbrev pub located : Option (Calibration F) → PixelPoint F → CivilPoint F → CivilPoint F
  located none pixel p = p
  located (some c) pixel p =
      let (east, north) = to_local fl pixel c in
      record p {
        local_east = some east;
        local_north = some north;
        calibration_revision = some c.revision;
      }

  abbrev pub manual_point :
      CivilProject F
      → String
      → String
      → String
      → PixelPoint F
      → F
      → PointType
      → ℤ
      → String
      → String
      → CivilPoint F
  manual_point project id file sha pixel elevation type page_index page_label t =
      located project.calibration pixel (record {
        id = id;
        page_index = page_index;
        page_label = page_label;
        source_file = file;
        source_sha256 = sha;
        pixel_x = pixel.x;
        pixel_y = pixel.y;
        elevation = elevation;
        point_type = type;
        symbol_type = SymbolType.manual_point;
        source_method = SourceMethod.manual;
        review_status = ReviewStatus.unreviewed;
        created_at = t;
        updated_at = t;
        local_east = none;
        local_north = none;
        pdf_x = none;
        pdf_y = none;
        detected_text = "";
        normalized_text = "";
        text_confidence = none;
        symbol_confidence = none;
        association_confidence = none;
        classification_confidence = none;
        classification_reason = str "manually entered by reviewer" ∷ [];
        description = manual_description type;
        crop_reference = "";
        text_bbox = null;
        alternative_associations = [];
        user_edits = [];
        calibration_revision = none;
        point_number = id;
        sheet = "";
        revision_label = "";
        notes = "";
        capture_candidate_id = "";
        capture_mode = "";
        capture_confidence = none;
        capture_audit = end;
      })

  unfoldable pub append_point : CivilPoint F → CivilProject F → CivilProject F
  append_point q p = record p { points = p.points ++ q ∷ []; exports_stale = true }

  unfoldable pub add_manual_point :
      PixelPoint F → F → PointType → ℤ → String → Action F (CivilPoint F)
  unfolding append_point
  add_manual_point pixel elevation type page_index page_label = do
    require (is_terrain type) workflow_error
    validate_elevation rt elevation
    crop ← gets (λ p. p.crop)
    require (in_crop rt crop pixel) workflow_error
    id ← gets (λ p. next_point_id p.points)
    t ← clock rt
    file ← gets (manifest_text rt "display_name")
    sha ← gets (manifest_text rt "sha256")
    project ← gets (λ p. p)
    let q = manual_point project id file sha pixel elevation type page_index page_label t
    point ← or_raise model_error (ensure (point_valid fl q) q)
    modify (append_point point)
    audit rt "POINT_ADDED" "Manual point added; explicit review is still required."
        (("point_id", str id) ∷ [])
    pure point

  abbrev pub numbered : CivilPoint F → CivilPoint F
  numbered p = if str_eq p.point_number "" then record p { point_number = p.id } else p

  unfoldable pub add_candidate : CivilPoint F → Action F (CivilPoint F)
  unfolding append_point
  add_candidate point = do
    points ← gets (λ p. p.points)
    require (not (mem_id point.id points)) workflow_error
    require (not (approved point)) workflow_error
    crop ← gets (λ p. p.crop)
    let pixel : PixelPoint F = record { x = point.pixel_x; y = point.pixel_y }
    require (in_crop rt crop pixel) workflow_error
    calibration ← gets (λ p. p.calibration)
    let q = numbered (located calibration pixel point)
    modify (append_point q)
    audit rt "CANDIDATE_ADDED" "Extracted candidate added for review." (("point_id", str q.id) ∷ [])
    pure q

  -- The dictionaries `before` (with the status) and `after` of an edit.
  abbrev edit_values : CivilPoint F → List (String × Value F)
  edit_values p =
      ("point_number", str p.point_number)
      ∷ ("description", str p.description)
      ∷ ("sheet", str p.sheet)
      ∷ ("revision_label", str p.revision_label)
      ∷ ("notes", str p.notes)
      ∷ []

  abbrev place_values : CivilPoint F → List (String × Value F) → List (String × Value F)
  place_values p rest =
      ("elevation", float p.elevation)
      ∷ ("point_type", str (type_name p.point_type))
      ∷ ("pixel_x", float p.pixel_x)
      ∷ ("pixel_y", float p.pixel_y)
      ∷ rest

  unfoldable pub edit_entry : String → CivilPoint F → CivilPoint F → Value F
  edit_entry t before after = dict (
      ("at", str t)
      ∷ (
        "before",
        dict (
            place_values before
              (("review_status", str (status_name before.review_status)) ∷ edit_values before)),
      )
      ∷ ("after", dict (place_values after (edit_values after)))
      ∷ [])

  unfoldable pub edit_elevation : String → F → Action F (Unit {0})
  edit_elevation id e = do validate_elevation rt e; write_point id (λ p. record p { elevation = e })

  unfoldable pub edit_type : String → String → Action F (Unit {0})
  edit_type id text = do
    type ← or_raise workflow_error (type_parse text)
    write_point id
        (λ p. record p { point_type = type; description = description_by_type type p.description })

  unfoldable pub edit_pixel : String → PixelPoint F → Action F (Unit {0})
  edit_pixel id pixel = do
    crop ← gets (λ p. p.crop)
    require (in_crop rt crop pixel) workflow_error
    calibration ← gets (λ p. p.calibration)
    write_point id
        (λ p. located calibration pixel (record p { pixel_x = pixel.x; pixel_y = pixel.y }))

  unfoldable pub edit_number : String → String → Action F (Unit {0})
  edit_number id text = do
    let cleaned = strip text
    require (not (str_eq cleaned "")) workflow_error
    points ← gets (λ p. p.points)
    require (not (any (λ q. not (str_eq q.id id) && str_eq q.point_number cleaned) points))
        workflow_error
    write_point id (λ p. record p { point_number = cleaned })

  unfoldable pub edit_point : String → Edit F → Action F (CivilPoint F)
  edit_point id edit = do
    before ← get_point id
    given edit.elevation (edit_elevation id)
    given edit.point_type (edit_type id)
    given edit.pixel (edit_pixel id)
    given edit.point_number (edit_number id)
    given edit.description (λ s. write_point id (λ p. record p { description = strip s }))
    given edit.sheet (λ s. write_point id (λ p. record p { sheet = strip s }))
    given edit.revision_label (λ s. write_point id (λ p. record p { revision_label = strip s }))
    given edit.notes (λ s. write_point id (λ p. record p { notes = strip s }))
    write_point id (λ p. record p { review_status = ReviewStatus.review_required })
    t ← touch rt
    write_point id
        (λ p. record p { updated_at = t; user_edits = p.user_edits ++ edit_entry t before p ∷ [] })
    mark_stale
    log rt (
        dict (
          ("at", str t)
          ∷ ("action", str "POINT_EDITED")
          ∷ ("detail", str "Point edited and returned to review.")
          ∷ ("point_id", str id)
          ∷ []))
    get_point id

  unfoldable pub delete_manual_point : String → Action F (Unit {0})
  delete_manual_point id = do
    point ← get_point id
    require (is_manual point.source_method) workflow_error
    modify (λ p. record p { points = remove_point id p.points; exports_stale = true })
    audit rt "MANUAL_POINT_DELETED" "Reviewer deleted a manual point after confirmation."
        (("point_id", str id) ∷ [])

  unfoldable pub delete_cart_point : String → Action F (Unit {0})
  delete_cart_point id = do
    point ← get_point id
    modify (λ p. record p { points = remove_point id p.points; exports_stale = true })
    audit rt "CART_POINT_DELETED" "Reviewer deleted a Point Cart row after confirmation." (
        ("point_id", str id)
        ∷ ("point_number", str (if str_eq point.point_number "" then id else point.point_number))
        ∷ ("prior_status", str (status_name point.review_status))
        ∷ [])
