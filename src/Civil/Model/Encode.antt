-- ===== src/Civil/Model/Encode.antt =====
-- civil/models.py: the `to_dict` methods. `float(x)` and `list(xs)` of a value of that type are it.
use screen2xyz_civil_plan_di.Prelude.{Bool, List, [], ◌∷◌, map, if◌then◌else◌}
use screen2xyz_civil_plan_di.Prelude.Floats.{Floats}
use screen2xyz_civil_plan_di.Civil.Vocabulary.{
  type_name, status_name, method_name, symbol_name, is_rejected, is_manual,
}
use screen2xyz_civil_plan_di.Civil.Json.{Value, bool, int, float, str, obj, list, dict, or_null}
use screen2xyz_civil_plan_di.Civil.Model.{
  PixelPoint, CropRegion, ScaleCheck, Calibration, CivilPoint, CivilElevationLine, CivilProject,
  approved, passed,
}

module _ {F : Type 0} where
  unfoldable pub pixel_to_dict : PixelPoint F → Value F
  pixel_to_dict p = dict (("x", float p.x) ∷ ("y", float p.y) ∷ [])

  unfoldable pub crop_to_dict : CropRegion F → Value F
  crop_to_dict c = dict (
      ("x", float c.x)
      ∷ ("y", float c.y)
      ∷ ("width", float c.width)
      ∷ ("height", float c.height)
      ∷ [])

  -- `_polygon_to_dict`
  unfoldable pub polygon_to_dict : List (PixelPoint F) → Value F
  polygon_to_dict ps = list (map pixel_to_dict ps)

  unfoldable pub point_to_dict : CivilPoint F → Value F
  unfolding or_null
  point_to_dict p = dict (
      ("id", str p.id)
      ∷ ("page_index", int p.page_index)
      ∷ ("page_label", str p.page_label)
      ∷ ("source_file", str p.source_file)
      ∷ ("source_sha256", str p.source_sha256)
      ∷ ("pixel_x", float p.pixel_x)
      ∷ ("pixel_y", float p.pixel_y)
      ∷ ("pdf_x", or_null float p.pdf_x)
      ∷ ("pdf_y", or_null float p.pdf_y)
      ∷ ("local_east", or_null float p.local_east)
      ∷ ("local_north", or_null float p.local_north)
      ∷ ("elevation", float p.elevation)
      ∷ ("point_type", str (type_name p.point_type))
      ∷ ("symbol_type", str (symbol_name p.symbol_type))
      ∷ ("source_method", str (method_name p.source_method))
      ∷ ("detected_text", str p.detected_text)
      ∷ ("normalized_text", str p.normalized_text)
      ∷ ("text_confidence", or_null float p.text_confidence)
      ∷ ("symbol_confidence", or_null float p.symbol_confidence)
      ∷ ("association_confidence", or_null float p.association_confidence)
      ∷ ("classification_confidence", or_null float p.classification_confidence)
      ∷ ("review_status", str (status_name p.review_status))
      ∷ ("classification_reason", list p.classification_reason)
      ∷ ("description", str p.description)
      ∷ ("crop_reference", str p.crop_reference)
      ∷ ("text_bbox", p.text_bbox)
      ∷ ("alternative_associations", list p.alternative_associations)
      ∷ ("created_at", str p.created_at)
      ∷ ("updated_at", str p.updated_at)
      ∷ ("user_edits", list p.user_edits)
      ∷ ("calibration_revision", or_null int p.calibration_revision)
      ∷ ("point_number", str p.point_number)
      ∷ ("sheet", str p.sheet)
      ∷ ("revision_label", str p.revision_label)
      ∷ ("notes", str p.notes)
      ∷ ("capture_candidate_id", str p.capture_candidate_id)
      ∷ ("capture_mode", str p.capture_mode)
      ∷ ("capture_confidence", or_null float p.capture_confidence)
      ∷ ("capture_audit", obj p.capture_audit)
      ∷ [])

  unfoldable pub line_to_dict : CivilElevationLine F → Value F
  line_to_dict l = dict (
      ("id", str l.id)
      ∷ ("elevation", float l.elevation)
      ∷ ("vertices", list (map pixel_to_dict l.vertices))
      ∷ ("source_method", str (method_name l.source_method))
      ∷ ("review_status", str (status_name l.review_status))
      ∷ ("created_at", str l.created_at)
      ∷ ("updated_at", str l.updated_at)
      ∷ ("description", str l.description)
      ∷ ("sheet", str l.sheet)
      ∷ ("revision_label", str l.revision_label)
      ∷ ("notes", str l.notes)
      ∷ [])

  -- `[point.id for point in self.points if test(point)]`
  unfoldable pub ids_where : (CivilPoint F → Bool) → List (CivilPoint F) → List (Value F)
  ids_where test [] = []
  ids_where test (p ∷ ps) = if test p then str p.id ∷ ids_where test ps else ids_where test ps

module _ (fl : Floats) where
  open fl use {F, neg}

  unfoldable pub check_to_dict : ScaleCheck F → Value F
  check_to_dict c = dict (
      ("point_1", pixel_to_dict c.point_1)
      ∷ ("point_2", pixel_to_dict c.point_2)
      ∷ ("known_distance_m", float c.known_distance_m)
      ∷ ("measured_distance_m", float c.measured_distance_m)
      ∷ ("error_percent", float c.error_percent)
      ∷ ("warning_threshold_percent", float c.warning_threshold_percent)
      ∷ ("passed", bool (passed fl c))
      ∷ [])

  -- `north_unit_x` and `north_unit_y` are (-east_unit_y, east_unit_x).
  unfoldable pub calibration_to_dict : Calibration F → Value F
  calibration_to_dict c = dict (
      ("revision", int c.revision)
      ∷ ("created_at", str c.created_at)
      ∷ ("scale_point_1", pixel_to_dict c.scale_point_1)
      ∷ ("scale_point_2", pixel_to_dict c.scale_point_2)
      ∷ ("known_distance_m", float c.known_distance_m)
      ∷ ("metres_per_pixel", float c.metres_per_pixel)
      ∷ ("origin_pixel", pixel_to_dict c.origin_pixel)
      ∷ ("east_unit", dict (("x", float c.east_unit_x) ∷ ("y", float c.east_unit_y) ∷ []))
      ∷ ("north_unit", dict (("x", float (neg c.east_unit_y)) ∷ ("y", float c.east_unit_x) ∷ []))
      ∷ ("origin_east_m", float c.origin_east_m)
      ∷ ("origin_north_m", float c.origin_north_m)
      ∷ ("source_units", str c.source_units)
      ∷ ("scale_check", or_null check_to_dict c.scale_check)
      ∷ [])

  unfoldable pub project_to_dict : CivilProject F → Value F
  unfolding ids_where
  project_to_dict p = dict (
      ("schema_version", str p.schema_version)
      ∷ ("project_id", str p.project_id)
      ∷ ("name", str p.name)
      ∷ ("created_at", str p.created_at)
      ∷ ("updated_at", str p.updated_at)
      ∷ ("source_manifest", obj p.source_manifest)
      ∷ ("pages", list p.pages)
      ∷ ("crop", or_null crop_to_dict p.crop)
      ∷ ("calibration", or_null calibration_to_dict p.calibration)
      ∷ ("calibration_history", list (map calibration_to_dict p.calibration_history))
      ∷ (
        "plausible_elevation_range",
        dict (
            ("min", float p.plausible_elevation_min)
            ∷ ("max", float p.plausible_elevation_max)
            ∷ []),
      )
      ∷ ("point_candidates", list (map point_to_dict p.points))
      ∷ ("approved_points", list (ids_where approved p.points))
      ∷ ("rejected_points", list (ids_where (λ q. is_rejected q.review_status) p.points))
      ∷ ("manual_points", list (ids_where (λ q. is_manual q.source_method) p.points))
      ∷ ("elevation_lines", list (map line_to_dict p.elevation_lines))
      ∷ ("boundaries", list (map polygon_to_dict p.boundaries))
      ∷ ("exclusion_polygons", list (map polygon_to_dict p.exclusion_polygons))
      ∷ ("breaklines", list (map polygon_to_dict p.breaklines))
      ∷ ("no_cross_lines", list (map polygon_to_dict p.no_cross_lines))
      ∷ ("disabled_triangles", list p.disabled_triangles)
      ∷ ("qa_results", obj p.qa_results)
      ∷ ("export_history", list p.export_history)
      ∷ ("decision_log", list p.decision_log)
      ∷ ("exports_stale", bool p.exports_stale)
      ∷ ("feature_flags", obj p.feature_flags)
      ∷ [])
