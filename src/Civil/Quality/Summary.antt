-- ===== src/Civil/Quality/Summary.antt =====
-- qa.py: the summary of the findings, and the test that blocks the exports.
use screen2xyz_civil_plan_di.Prelude.{
  String, Option, none, some, Bool, true, false, not, ◌&&◌, List, [], ◌∷◌, map, length,
}
use screen2xyz_civil_plan_di.Prelude.Int.{pos}
use screen2xyz_civil_plan_di.Civil.Vocabulary.{PointType, SourceMethod, SymbolType, is_manual}
use screen2xyz_civil_plan_di.Civil.Json.{
  Value, Fields, obj, lookup, or_value, truthy, null, int, float, str, list, dict, record_of,
}
use screen2xyz_civil_plan_di.Civil.Model.{CivilPoint, CivilProject, approved}
use screen2xyz_civil_plan_di.Civil.Workflow.{Runtime}
use screen2xyz_civil_plan_di.Civil.Quality.{
  Severity, critical, error, warning, info, Code, calibration_missing, scale_check_mismatch,
  elevation_out_of_range, approved_point_invalid, point_not_reviewed, low_association_confidence,
  conflicting_duplicate, duplicate_candidate, Issue, Extents, count_if, same_type, is_unreviewed,
  is_rejected_status, is_critical, is_error, is_warning, is_info, in_range, located, extents_of,
  default_pairs, issues, severity_count,
}

module _ (rt : Runtime) where
  open rt use {fl}
  open fl use {F, lt, literal}

  abbrev test_count : (CivilPoint F → Bool) → CivilProject F → Value F
  test_count test project = int (pos (count_if test project.points))

  -- `_count`, over all points of a type and over the approved ones
  abbrev type_count : PointType → CivilProject F → Value F
  type_count t = test_count (λ p. same_type p.point_type t)

  abbrev approved_count : PointType → CivilProject F → Value F
  approved_count t = test_count (λ p. same_type p.point_type t && approved p)

  abbrev is_local_ocr : SourceMethod → Bool
  is_local_ocr SourceMethod.local_ocr = true
  is_local_ocr _ = false

  abbrev is_unassociated : SymbolType → Bool
  is_unassociated SymbolType.no_symbol = true
  is_unassociated SymbolType.unknown_symbol = true
  is_unassociated _ = false

  abbrev is_unsure : Option F → Bool
  is_unsure none = true
  is_unsure (some c) = lt c (literal "0.75")

  abbrev extents_value : Option (Extents F) → Value F
  extents_value none = null
  extents_value (some e) = dict (
      ("min_east", float e.min_east)
      ∷ ("max_east", float e.max_east)
      ∷ ("min_north", float e.min_north)
      ∷ ("max_north", float e.max_north)
      ∷ ("min_elevation", float e.min_elevation)
      ∷ ("max_elevation", float e.max_elevation)
      ∷ [])

  abbrev severity_name : Severity → String
  severity_name critical = "CRITICAL"
  severity_name error = "ERROR"
  severity_name warning = "WARNING"
  severity_name info = "INFO"

  abbrev code_name : Code → String
  code_name calibration_missing = "CALIBRATION_MISSING"
  code_name scale_check_mismatch = "SCALE_CHECK_MISMATCH"
  code_name elevation_out_of_range = "ELEVATION_OUT_OF_RANGE"
  code_name approved_point_invalid = "APPROVED_POINT_INVALID"
  code_name point_not_reviewed = "POINT_NOT_REVIEWED"
  code_name low_association_confidence = "LOW_ASSOCIATION_CONFIDENCE"
  code_name conflicting_duplicate = "CONFLICTING_DUPLICATE"
  code_name duplicate_candidate = "DUPLICATE_CANDIDATE"

  -- The two calibration findings name no points.
  abbrev ids_entry : List String → List (String × Value F)
  ids_entry [] = []
  ids_entry (i ∷ ids) = ("point_ids", list (str i ∷ map str ids)) ∷ []

  abbrev issue_value : Issue → Value F
  issue_value i = dict (
      ("severity", str (severity_name i.severity))
      ∷ ("code", str (code_name i.code))
      ∷ ("detail", str i.detail)
      ∷ ids_entry i.point_ids)

  abbrev counts_value : List Issue → Value F
  counts_value found = dict (
      ("CRITICAL", int (pos (severity_count rt is_critical found)))
      ∷ ("ERROR", int (pos (severity_count rt is_error found)))
      ∷ ("WARNING", int (pos (severity_count rt is_warning found)))
      ∷ ("INFO", int (pos (severity_count rt is_info found)))
      ∷ [])

  -- The dictionary of `qa_summary`.
  unfoldable pub summary : CivilProject F → Fields F
  summary project = record_of (
      ("existing_candidates", type_count PointType.existing_ground project)
      ∷ ("existing_approved", approved_count PointType.existing_ground project)
      ∷ ("design_candidates", type_count PointType.design_grade project)
      ∷ ("design_approved", approved_count PointType.design_grade project)
      ∷ ("contour_candidates", type_count PointType.contour_elevation project)
      ∷ ("contour_approved", approved_count PointType.contour_elevation project)
      ∷ ("review_required", test_count (λ p. is_unreviewed p.review_status) project)
      ∷ ("rejected", test_count (λ p. is_rejected_status p.review_status) project)
      ∷ ("duplicate_candidates", int (pos (length (default_pairs rt project))))
      ∷ (
        "conflicting_elevations",
        int (pos (count_if (λ p. p.conflicting) (default_pairs rt project))),
      )
      ∷ ("out_of_range_values", test_count (λ p. not (in_range fl project p)) project)
      ∷ (
        "low_confidence_ocr",
        test_count (λ p. is_local_ocr p.source_method && is_unsure p.text_confidence) project,
      )
      ∷ (
        "unassociated_labels",
        test_count (λ p. not (is_manual p.source_method) && is_unassociated p.symbol_type) project,
      )
      ∷ ("unused_symbols", int (pos 0))
      ∷ ("coordinate_extents", extents_value (extents_of fl (located project.points)))
      ∷ ("issue_counts", counts_value (issues rt project))
      ∷ ("issues", list (map issue_value (issues rt project)))
      ∷ [])

  -- `qa_summary`: the summary, and the project that keeps it.
  unfoldable pub qa_summary : CivilProject F → Fields F × CivilProject F
  qa_summary project = (summary project, record project { qa_results = summary project })

  -- `bool(counts.get("CRITICAL", 0))`, where `counts` is a dictionary
  abbrev critical_of : Value F → Bool
  critical_of (obj counts) = truthy fl (or_value (lookup "CRITICAL" counts) (int (pos 0)))
  critical_of _ = false

  unfoldable pub has_critical_export_errors : Fields F → Bool
  has_critical_export_errors s = critical_of (or_value (lookup "issue_counts" s) (dict []))
