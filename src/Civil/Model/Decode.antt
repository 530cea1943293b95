-- ===== src/Civil/Model/Decode.antt =====
-- civil/models.py: the `from_dict` class methods, `none` where one raises. `repr` is what `str()`
-- makes of a value that is no text.
use screen2xyz_civil_plan_di.Prelude.{
  String, Option, some, true, false, List, [], ◌∷◌, if◌then◌else◌,
}
use screen2xyz_civil_plan_di.Prelude.Int.{pos}
use screen2xyz_civil_plan_di.Prelude.Floats.{Floats}
use screen2xyz_civil_plan_di.Civil.Vocabulary.{type_parse, status_parse, method_parse, symbol_parse}
use screen2xyz_civil_plan_di.Civil.Json.{
  Value, null, bool, int, float, str, list, dict, list_of, item, get, optional, each, as_list,
  as_dict, as_str, as_float, as_int, truthy, ◌>>=◌,
}
use screen2xyz_civil_plan_di.Civil.Model.{
  PixelPoint, CropRegion, ScaleCheck, Calibration, CivilPoint, CivilElevationLine, CivilProject,
  ensure, crop_valid, calibration_valid, point_valid, line_valid, project_valid,
}

module _ (fl : Floats) (repr : Value fl.F → String) where
  open fl use {F, of_nat, literal, neg}

  unfoldable pub pixel_from_dict : Value F → Option (PixelPoint F)
  pixel_from_dict value = do
    x ← item "x" value >>= as_float fl
    y ← item "y" value >>= as_float fl
    some (record { x = x; y = y })

  unfoldable pub crop_from_dict : Value F → Option (CropRegion F)
  crop_from_dict value = do
    x ← item "x" value >>= as_float fl
    y ← item "y" value >>= as_float fl
    width ← item "width" value >>= as_float fl
    height ← item "height" value >>= as_float fl
    let c : CropRegion F = record { x = x; y = y; width = width; height = height }
    ensure (crop_valid fl c) c

  unfoldable pub check_from_dict : Value F → Option (ScaleCheck F)
  unfolding pixel_from_dict
  check_from_dict value = do
    point_1 ← item "point_1" value >>= pixel_from_dict
    point_2 ← item "point_2" value >>= pixel_from_dict
    known_distance_m ← item "known_distance_m" value >>= as_float fl
    measured_distance_m ← item "measured_distance_m" value >>= as_float fl
    error_percent ← item "error_percent" value >>= as_float fl
    warning ← get "warning_threshold_percent" (float (literal "1.0")) value >>= as_float fl
    some (record {
      point_1 = point_1;
      point_2 = point_2;
      known_distance_m = known_distance_m;
      measured_distance_m = measured_distance_m;
      error_percent = error_percent;
      warning_threshold_percent = warning;
    })

  unfoldable pub calibration_from_dict : Value F → Option (Calibration F)
  unfolding pixel_from_dict
  calibration_from_dict value = do
    east_unit ← item "east_unit" value
    scale_check ← get "scale_check" null value >>= optional check_from_dict
    revision ← item "revision" value >>= as_int fl
    created_at ← item "created_at" value
    scale_point_1 ← item "scale_point_1" value >>= pixel_from_dict
    scale_point_2 ← item "scale_point_2" value >>= pixel_from_dict
    known_distance_m ← item "known_distance_m" value >>= as_float fl
    metres_per_pixel ← item "metres_per_pixel" value >>= as_float fl
    origin_pixel ← item "origin_pixel" value >>= pixel_from_dict
    east_unit_x ← item "x" east_unit >>= as_float fl
    east_unit_y ← item "y" east_unit >>= as_float fl
    origin_east_m ← get "origin_east_m" (float (of_nat 0)) value >>= as_float fl
    origin_north_m ← get "origin_north_m" (float (of_nat 0)) value >>= as_float fl
    source_units ← get "source_units" (str "metres") value
    let c : Calibration F = record {
      revision = revision;
      created_at = as_str repr created_at;
      scale_point_1 = scale_point_1;
      scale_point_2 = scale_point_2;
      known_distance_m = known_distance_m;
      metres_per_pixel = metres_per_pixel;
      origin_pixel = origin_pixel;
      east_unit_x = east_unit_x;
      east_unit_y = east_unit_y;
      origin_east_m = origin_east_m;
      origin_north_m = origin_north_m;
      source_units = as_str repr source_units;
      scale_check = scale_check;
    }
    ensure (calibration_valid fl c) c

  unfoldable pub point_from_dict : Value F → Option (CivilPoint F)
  point_from_dict value = do
    id ← item "id" value
    page_index ← get "page_index" (int (pos 0)) value >>= as_int fl
    page_label ← get "page_label" (str "1") value
    source_file ← get "source_file" (str "") value
    source_sha256 ← get "source_sha256" (str "") value
    pixel_x ← item "pixel_x" value >>= as_float fl
    pixel_y ← item "pixel_y" value >>= as_float fl
    pdf_x ← get "pdf_x" null value >>= optional (as_float fl)
    pdf_y ← get "pdf_y" null value >>= optional (as_float fl)
    local_east ← get "local_east" null value >>= optional (as_float fl)
    local_north ← get "local_north" null value >>= optional (as_float fl)
    elevation ← item "elevation" value >>= as_float fl
    point_type ← item "point_type" value >>= λ v. type_parse (as_str repr v)
    symbol_type ← get "symbol_type" (str "NONE") value >>= λ v. symbol_parse (as_str repr v)
    source_method ← get "source_method" (str "MANUAL") value >>= λ v. method_parse (as_str repr v)
    detected_text ← get "detected_text" (str "") value
    normalized_text ← get "normalized_text" (str "") value
    text_confidence ← get "text_confidence" null value >>= optional (as_float fl)
    symbol_confidence ← get "symbol_confidence" null value >>= optional (as_float fl)
    association_confidence ← get "association_confidence" null value >>= optional (as_float fl)
    classification_confidence ←
        get "classification_confidence" null value >>= optional (as_float fl)
    review_status ←
        get "review_status" (str "UNREVIEWED") value >>= λ v. status_parse (as_str repr v)
    classification_reason ← get "classification_reason" (list []) value >>= as_list
    description ← get "description" (str "") value
    crop_reference ← get "crop_reference" (str "") value
    text_bbox ← get "text_bbox" null value
    alternative_associations ← get "alternative_associations" (list []) value >>= as_list
    created_at ← get "created_at" (str "") value
    updated_at ← get "updated_at" (str "") value
    user_edits ← get "user_edits" (list []) value >>= as_list
    calibration_revision ← get "calibration_revision" null value >>= optional (as_int fl)
    point_number ← get "point_number" (str "") value
    sheet ← get "sheet" (str "") value
    revision_label ← get "revision_label" (str "") value
    notes ← get "notes" (str "") value
    capture_candidate_id ← get "capture_candidate_id" (str "") value
    capture_mode ← get "capture_mode" (str "") value
    capture_confidence ← get "capture_confidence" null value >>= optional (as_float fl)
    capture_audit ← get "capture_audit" (dict []) value >>= as_dict
    let p : CivilPoint F = record {
      id = as_str repr id;
      page_index = page_index;
      page_label = as_str repr page_label;
      source_file = as_str repr source_file;
      source_sha256 = as_str repr source_sha256;
      pixel_x = pixel_x;
      pixel_y = pixel_y;
      pdf_x = pdf_x;
      pdf_y = pdf_y;
      local_east = local_east;
      local_north = local_north;
      elevation = elevation;
      point_type = point_type;
      symbol_type = symbol_type;
      source_method = source_method;
      detected_text = as_str repr detected_text;
      normalized_text = as_str repr normalized_text;
      text_confidence = text_confidence;
      symbol_confidence = symbol_confidence;
      association_confidence = association_confidence;
      classification_confidence = classification_confidence;
      review_status = review_status;
      classification_reason = list_of classification_reason;
      description = as_str repr description;
      crop_reference = as_str repr crop_reference;
      text_bbox = text_bbox;
      alternative_associations = list_of alternative_associations;
      created_at = as_str repr created_at;
      updated_at = as_str repr updated_at;
      user_edits = list_of user_edits;
      calibration_revision = calibration_revision;
      point_number = as_str repr point_number;
      sheet = as_str repr sheet;
      revision_label = as_str repr revision_label;
      notes = as_str repr notes;
      capture_candidate_id = as_str repr capture_candidate_id;
      capture_mode = as_str repr capture_mode;
      capture_confidence = capture_confidence;
      capture_audit = capture_audit;
    }
    ensure (point_valid fl p) p

  unfoldable pub line_from_dict : Value F → Option (CivilElevationLine F)
  line_from_dict value = do
    id ← item "id" value
    elevation ← item "elevation" value >>= as_float fl
    vertices ← get "vertices" (list []) value >>= as_list >>= each pixel_from_dict
    source_method ← get "source_method" (str "MANUAL") value >>= λ v. method_parse (as_str repr v)
    review_status ←
        get "review_status" (str "UNREVIEWED") value >>= λ v. status_parse (as_str repr v)
    created_at ← get "created_at" (str "") value
    updated_at ← get "updated_at" (str "") value
    description ← get "description" (str "CONTOUR") value
    sheet ← get "sheet" (str "") value
    revision_label ← get "revision_label" (str "") value
    notes ← get "notes" (str "") value
    let l : CivilElevationLine F = record {
      id = as_str repr id;
      elevation = elevation;
      vertices = vertices;
      source_method = source_method;
      review_status = review_status;
      created_at = as_str repr created_at;
      updated_at = as_str repr updated_at;
      description = as_str repr description;
      sheet = as_str repr sheet;
      revision_label = as_str repr revision_label;
      notes = as_str repr notes;
    }
    ensure (line_valid fl l) l

  -- `_polygon_from_dict`
  unfoldable pub polygon_from_dict : Value F → Option (List (PixelPoint F))
  polygon_from_dict value = as_list value >>= each pixel_from_dict

  -- `value.get(k) or {}`
  unfoldable pub or_empty : Value F → Value F
  or_empty v = if truthy fl v then v else dict []

  unfoldable pub project_from_dict : Value F → Option (CivilProject F)
  project_from_dict value = do
    elevation_range ← get "plausible_elevation_range" null value
    crop ← get "crop" null value >>= optional crop_from_dict
    calibration ← get "calibration" null value >>= optional calibration_from_dict
    schema_version ← get "schema_version" (str "1.0") value
    project_id ← item "project_id" value
    name ← item "name" value
    created_at ← item "created_at" value
    updated_at ← item "updated_at" value
    source_manifest ← get "source_manifest" (dict []) value >>= as_dict
    pages ← get "pages" (list []) value >>= as_list
    history ← get "calibration_history" (list []) value >>= as_list >>= each calibration_from_dict
    low ← get "min" (float (literal "-1000.0")) (or_empty elevation_range) >>= as_float fl
    high ← get "max" (float (literal "10000.0")) (or_empty elevation_range) >>= as_float fl
    old_points ← get "points" (list []) value
    points ← get "point_candidates" old_points value >>= as_list >>= each point_from_dict
    lines ← get "elevation_lines" (list []) value >>= as_list >>= each line_from_dict
    boundaries ← get "boundaries" (list []) value >>= as_list >>= each polygon_from_dict
    exclusions ← get "exclusion_polygons" (list []) value >>= as_list >>= each polygon_from_dict
    breaklines ← get "breaklines" (list []) value >>= as_list >>= each polygon_from_dict
    no_cross_lines ← get "no_cross_lines" (list []) value >>= as_list >>= each polygon_from_dict
    disabled_triangles ← get "disabled_triangles" (list []) value >>= as_list
    qa_results ← get "qa_results" (dict []) value >>= as_dict
    export_history ← get "export_history" (list []) value >>= as_list
    decision_log ← get "decision_log" (list []) value >>= as_list
    exports_stale ← get "exports_stale" (bool true) value
    feature_flags ←
        get "feature_flags"
          (dict (("preliminary_surface", bool false) ∷ ("landxml", bool false) ∷ [])) value
        >>= as_dict
    let p : CivilProject F = record {
      project_id = as_str repr project_id;
      name = as_str repr name;
      created_at = as_str repr created_at;
      updated_at = as_str repr updated_at;
      source_manifest = source_manifest;
      schema_version = as_str repr schema_version;
      pages = list_of pages;
      crop = crop;
      calibration = calibration;
      calibration_history = history;
      plausible_elevation_min = low;
      plausible_elevation_max = high;
      points = points;
      elevation_lines = lines;
      boundaries = boundaries;
      exclusion_polygons = exclusions;
      breaklines = breaklines;
      no_cross_lines = no_cross_lines;
      disabled_triangles = list_of disabled_triangles;
      qa_results = qa_results;
      export_history = list_of export_history;
      decision_log = list_of decision_log;
      exports_stale = truthy fl exports_stale;
      feature_flags = feature_flags;
    }
    ensure (project_valid fl p) p
