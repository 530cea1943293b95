-- ===== src/Civil/Samples.antt =====
-- src/screen2xyz_civil: a small project, for runs.
use screen2xyz_civil_plan_di.Prelude.{ℕ, none, some, false, [], ◌∷◌}
use screen2xyz_civil_plan_di.Prelude.Int.{pos}
use screen2xyz_civil_plan_di.Prelude.Samples.{whole_numbers}
use screen2xyz_civil_plan_di.Civil.Vocabulary.{PointType, ReviewStatus, SourceMethod, SymbolType}
use screen2xyz_civil_plan_di.Civil.Json.{null, end}
use screen2xyz_civil_plan_di.Civil.Model.{PixelPoint, Calibration, CivilPoint, CivilProject}
use screen2xyz_civil_plan_di.Civil.Workflow.{Runtime, Outcome, Desk}
use screen2xyz_civil_plan_di.Civil.Workflow.Points.{add_manual_point}
use screen2xyz_civil_plan_di.Civil.Workflow.History.{Workflow, desk}

abbrev pub origin : PixelPoint ℕ
origin = record { x = 0; y = 0 }

abbrev pub unit_scale : Calibration ℕ
unit_scale = record {
  revision = pos 1;
  created_at = "t0";
  scale_point_1 = origin;
  scale_point_2 = record { x = 5; y = 0 };
  known_distance_m = 10;
  metres_per_pixel = 10;
  origin_pixel = origin;
  east_unit_x = 1;
  east_unit_y = 0;
  origin_east_m = 0;
  origin_north_m = 0;
  source_units = "metres";
  scale_check = none;
}

abbrev pub spot : CivilPoint ℕ
spot = record {
  id = "PT-0001";
  page_index = pos 0;
  page_label = "1";
  source_file = "plan.png";
  source_sha256 = "00";
  pixel_x = 3;
  pixel_y = 0;
  elevation = 50;
  point_type = PointType.existing_ground;
  symbol_type = SymbolType.manual_point;
  source_method = SourceMethod.manual;
  review_status = ReviewStatus.approved;
  created_at = "t0";
  updated_at = "t0";
  local_east = some 30;
  local_north = some 0;
  pdf_x = none;
  pdf_y = none;
  detected_text = "";
  normalized_text = "";
  text_confidence = none;
  symbol_confidence = none;
  association_confidence = none;
  classification_confidence = none;
  classification_reason = [];
  description = "MANUAL_EX";
  crop_reference = "";
  text_bbox = null;
  alternative_associations = [];
  user_edits = [];
  calibration_revision = some (pos 1);
  point_number = "PT-0001";
  sheet = "";
  revision_label = "";
  notes = "";
  capture_candidate_id = "";
  capture_mode = "";
  capture_confidence = none;
  capture_audit = end;
}

abbrev pub site : CivilProject ℕ
site = record {
  project_id = "CPD-1";
  name = "site";
  created_at = "t0";
  updated_at = "t0";
  source_manifest = end;
  schema_version = "1";
  pages = [];
  crop = some (record { x = 0; y = 0; width = 20; height = 20 });
  calibration = some unit_scale;
  calibration_history = [];
  plausible_elevation_min = 10;
  plausible_elevation_max = 90;
  points = spot ∷ [];
  elevation_lines = [];
  boundaries = [];
  exclusion_polygons = [];
  breaklines = [];
  no_cross_lines = [];
  disabled_triangles = [];
  qa_results = end;
  export_history = [];
  decision_log = [];
  exports_stale = false;
  feature_flags = end;
}

abbrev pub simple_runtime : Runtime
simple_runtime = record { fl = whole_numbers; repr = λ v. ""; now = λ n. "t1"; format = λ s vs. s }

abbrev pub opened : Workflow ℕ
opened = record { project = site; ticks = 0; undo_stack = []; redo_stack = [] }

abbrev pub second_spot : Outcome (CivilPoint ℕ) × Desk ℕ
second_spot =
    add_manual_point simple_runtime (record { x = 4; y = 4 }) 50 PointType.design_grade (pos 0) "1"
      (desk simple_runtime opened)
