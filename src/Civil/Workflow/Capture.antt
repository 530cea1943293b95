-- ===== src/Civil/Workflow/Capture.antt =====
-- workflow.py: `capture_assisted_point`, with the `CandidateEvidence` of assisted_capture.py. The types
-- of the symbol and the source are those of the vocabulary, which `CivilPoint` checks.
pub mod Once
use screen2xyz_civil_plan_di.Prelude.{
  ℕ, String, Option, none, some, Bool, true, false, not, ◌&&◌, ◌||◌, List, [], ◌∷◌, ◌++◌, any,
  str_eq, map, length, if◌then◌else◌, is_some,
}
use screen2xyz_civil_plan_di.Prelude.Int.{ℤ}
use screen2xyz_civil_plan_di.Civil.Vocabulary.{
  PointType, ReviewStatus, SourceMethod, SymbolType, type_name, is_terrain,
}
use screen2xyz_civil_plan_di.Civil.Json.{
  Value, Fields, float, str, obj, null, record_of, lookup, or_value, truthy, as_str,
}
use screen2xyz_civil_plan_di.Civil.Model.{PixelPoint, CivilPoint, CivilProject, ensure, point_valid}
use screen2xyz_civil_plan_di.Civil.Model.Encode.{pixel_to_dict}
use screen2xyz_civil_plan_di.Civil.Ids.{next_point_id}
use screen2xyz_civil_plan_di.Civil.Workflow.{
  workflow_error, model_error, Runtime, Action, pure, gets, or_raise, require, modify, ◌>>=◌, ◌>>◌,
  clock, audit, in_crop, validate_elevation, manifest_text,
}
use screen2xyz_civil_plan_di.Civil.Workflow.Points.{located, append_point}

pub record CandidateEvidence (F : Type 0) : Type 0 where
  pub candidate_id : String
  pub page_index : ℤ
  pub page_label : String
  pub pixel : PixelPoint F
  pub elevation : Option F
  pub likely_type : String
  pub source_method : SourceMethod
  pub detected_text : String
  pub normalized_text : String
  pub text_confidence : Option F
  pub symbol_type : SymbolType
  pub symbol_confidence : Option F
  pub association_confidence : Option F
  pub classification_confidence : F
  pub reasons : List String
  pub text_bbox : Fields F
  pub alternative_associations : List (Fields F)
  pub rejected : Bool
  pub rejection_category : String

-- The keyword arguments, the mode as a type of points.
pub record Capture (F : Type 0) : Type 0 where
  pub capture_mode : PointType
  pub click_pixel : PixelPoint F
  pub snap_distance_px : F
  pub capture_method : String

abbrev pub capture_description : PointType → String
capture_description PointType.existing_ground = "ASSISTED_EX"
capture_description PointType.design_grade = "ASSISTED_DES"
capture_description _ = "CONTOUR"

module _ {F : Type 0} where
  -- `CandidateEvidence.capturable`
  abbrev pub capturable : CandidateEvidence F → Bool
  capturable e = is_some e.elevation && not e.rejected

  abbrev pub same_capture : String → String → CivilPoint F → Bool
  same_capture candidate mode p =
      str_eq p.capture_candidate_id candidate && str_eq p.capture_mode mode

  -- The test for a point of the same candidate and mode
  unfoldable pub is_captured : String → String → List (CivilPoint F) → Bool
  is_captured candidate mode ps = any (same_capture candidate mode) ps

  -- `[value for value in … if value is not None]`
  abbrev pub known_values : List (Option F) → List F
  known_values [] = []
  known_values (none ∷ os) = known_values os
  known_values (some x ∷ os) = x ∷ known_values os

module _ (rt : Runtime) where
  open rt use {fl, repr, format}
  open fl use {F, of_nat, add, div}

  -- `sum(values)`
  abbrev pub sum_of : F → List F → F
  sum_of total [] = total
  sum_of total (x ∷ xs) = sum_of (add total x) xs

  -- `sum(values) / len(values) if values else None`
  abbrev pub mean : List F → Option F
  mean [] = none
  mean (x ∷ xs) = some (div (sum_of (of_nat 0) (x ∷ xs)) (of_nat (length (x ∷ xs))))

  abbrev pub capture_confidence : CandidateEvidence F → Option F
  capture_confidence e = mean (
      known_values
        (e.text_confidence ∷ e.association_confidence ∷ some e.classification_confidence ∷ []))

  abbrev pub capture_reasons : CandidateEvidence F → Capture F → List (Value F)
  capture_reasons e a =
      str (
        format "estimator accepted assisted {} capture using {}"
          (str (type_name a.capture_mode) ∷ str a.capture_method ∷ []))
      ∷ (map str e.reasons
          ++ (if str_eq e.likely_type (type_name a.capture_mode)
              then []
              else str (format "capture mode overrode likely class {}" (str e.likely_type ∷ []))
                ∷ []))

  -- `str(manifest.get(key) or default)`
  abbrev pub manifest_or : String → String → CivilProject F → String
  manifest_or key default p =
      let v = or_value (lookup key p.source_manifest) null in
      if truthy fl v then as_str repr v else default

  abbrev pub capture_audit : CandidateEvidence F → Capture F → String → Fields F
  capture_audit e a t = record_of (
      ("method", str a.capture_method)
      ∷ ("candidate_id", str e.candidate_id)
      ∷ ("likely_type", str e.likely_type)
      ∷ ("click_pixel", pixel_to_dict a.click_pixel)
      ∷ ("snap_pixel", pixel_to_dict e.pixel)
      ∷ ("snap_distance_px", float a.snap_distance_px)
      ∷ ("classification_confidence", float e.classification_confidence)
      ∷ ("captured_at", str t)
      ∷ [])

  -- The `CivilPoint` of a capture
  abbrev pub captured_point :
      CandidateEvidence F → Capture F → F → CivilProject F → String → String → CivilPoint F
  captured_point e a elevation project id t = located rt project.calibration e.pixel (record {
    id = id;
    page_index = e.page_index;
    page_label = e.page_label;
    source_file = manifest_text rt "display_name" project;
    source_sha256 = manifest_text rt "sha256" project;
    pixel_x = e.pixel.x;
    pixel_y = e.pixel.y;
    elevation = elevation;
    point_type = a.capture_mode;
    symbol_type = e.symbol_type;
    source_method = e.source_method;
    review_status = ReviewStatus.unreviewed;
    created_at = t;
    updated_at = t;
    local_east = none;
    local_north = none;
    pdf_x = none;
    pdf_y = none;
    detected_text = e.detected_text;
    normalized_text = e.normalized_text;
    text_confidence = e.text_confidence;
    symbol_confidence = e.symbol_confidence;
    association_confidence = e.association_confidence;
    classification_confidence = some e.classification_confidence;
    classification_reason = capture_reasons e a;
    description = capture_description a.capture_mode;
    crop_reference = "";
    text_bbox = obj e.text_bbox;
    alternative_associations = map obj e.alternative_associations;
    user_edits = [];
    calibration_revision = none;
    point_number = id;
    sheet = manifest_or "sheet_id" e.page_label project;
    revision_label = manifest_or "revision" "" project;
    notes = "";
    capture_candidate_id = e.candidate_id;
    capture_mode = type_name a.capture_mode;
    capture_confidence = capture_confidence e;
    capture_audit = capture_audit e a t;
  })

  abbrev pub capture_extra : CandidateEvidence F → Capture F → String → List (String × Value F)
  capture_extra e a id =
      ("point_id", str id)
      ∷ ("candidate_id", str e.candidate_id)
      ∷ ("capture_mode", str (type_name a.capture_mode))
      ∷ ("capture_method", str a.capture_method)
      ∷ ("snap_distance_px", float a.snap_distance_px)
      ∷ []

  unfoldable pub capture_assisted_point : CandidateEvidence F → Capture F → Action F (CivilPoint F)
  unfolding append_point is_captured
  capture_assisted_point e a = do
    require (is_terrain a.capture_mode) workflow_error
    require (capturable e) workflow_error
    elevation ← or_raise workflow_error e.elevation
    taken ← gets (λ p. is_captured e.candidate_id (type_name a.capture_mode) p.points)
    require (not taken) workflow_error
    validate_elevation rt elevation
    crop ← gets (λ p. p.crop)
    require (in_crop rt crop e.pixel) workflow_error
    id ← gets (λ p. next_point_id p.points)
    t ← clock rt
    project ← gets (λ p. p)
    let q = captured_point e a elevation project id t
    point ← or_raise model_error (ensure (point_valid fl q) q)
    modify (append_point rt point)
    audit rt "ASSISTED_POINT_CAPTURED"
        "Indexed suggestion promoted into the Point Cart for explicit review."
        (capture_extra e a id)
    pure point
