-- ===== src/Civil/Tests.antt =====
-- src/screen2xyz_civil: runs of the review workflow on concrete input.
use screen2xyz_civil_plan_di.Civil.Samples.{
  second_spot, origin, unit_scale, spot, site, simple_runtime, opened,
}
use screen2xyz_civil_plan_di.Civil.Workflow.Additions.{HasUniqueIds, manual_ids_stay_unique}
use screen2xyz_civil_plan_di.Civil.Workflow.Triple.{Post}
use screen2xyz_civil_plan_di.Civil.Workflow.Points.{add_manual_point}
use screen2xyz_civil_plan_di.Civil.Model.{CivilPoint, unique_ids, contains}
use screen2xyz_civil_plan_di.Civil.Workflow.Geometry.{
  set_boundary, add_exclusion_polygon, add_breakline, add_no_cross_line,
}
use screen2xyz_civil_plan_di.Civil.Workflow.Geometry.Vertices.{IsDrawn, drawing-IsDrawn}
use screen2xyz_civil_plan_di.Civil.Quality.{Pair, duplicate_pairs, is_invalid_approved}
use screen2xyz_civil_plan_di.Civil.Quality.Summary.{qa_summary, has_critical_export_errors}
use screen2xyz_civil_plan_di.Civil.Quality.Critical.{
  has_critical_export_errors_lem, workflow_exports_open,
}
use screen2xyz_civil_plan_di.Civil.Quality.Spots.{Has, Before}
use screen2xyz_civil_plan_di.Civil.Quality.Duplicates.{IsDuplicate, duplicate_pairs_exact}
use screen2xyz_civil_plan_di.Prelude.{
  List, ℕ, suc, ◌≡◌, refl, none, some, true, false, [], ◌∷◌, inr, All, is_none, any, ◌||◌, ◌↔◌,
}
use screen2xyz_civil_plan_di.Prelude.Int.{pos}
use screen2xyz_civil_plan_di.Prelude.Samples.{whole_numbers}
use screen2xyz_civil_plan_di.Prelude.Texts.{strip}
use screen2xyz_civil_plan_di.Civil.Vocabulary.{type_name, is_terrain, PointType, ReviewStatus}
use screen2xyz_civil_plan_di.Civil.Model.{
  PixelPoint, Calibration, IsLoadable, mem_id, project_valid, crop_valid, calibration_valid,
  point_valid,
}
use screen2xyz_civil_plan_di.Civil.Model.Encode.{project_to_dict}
use screen2xyz_civil_plan_di.Civil.Model.Decode.{project_from_dict}
use screen2xyz_civil_plan_di.Civil.Model.RoundTrip.{project_round}
use screen2xyz_civil_plan_di.Civil.Ids.{next_point_id, next_point_id_fresh}
use screen2xyz_civil_plan_di.Civil.Transform.{
  to_local, Survey, build_calibration, metres_per_pixel, east_basis, second_check, pixel_distance,
}
use screen2xyz_civil_plan_di.Civil.Workflow.{
  workflow_error, ok, err, find_point, update_point, remove_point, elevation_ok,
}
use screen2xyz_civil_plan_di.Civil.Workflow.Setup.{apply_calibration}
use screen2xyz_civil_plan_di.Civil.Workflow.Points.{
  Edit, edit_elevation, edit_number, edit_point, delete_cart_point,
}
use screen2xyz_civil_plan_di.Civil.Workflow.Review.{approve_point}
use screen2xyz_civil_plan_di.Civil.Workflow.Gate.{AllReady}
use screen2xyz_civil_plan_di.Civil.Workflow.Gate.Commands.{approve_call}
use screen2xyz_civil_plan_di.Civil.Workflow.Gate.Calls.{
  method, call, IsReadyWorkflow, approved_stay_exportable,
}
use screen2xyz_civil_plan_di.Civil.Workflow.Approval.{
  succeeds, is_approvable, approve_point-succeeds,
}
use screen2xyz_civil_plan_di.Civil.Workflow.Recalibration.{
  IsPlaced, pixels, statuses, apply_calibration-keeps_reviews,
}
use screen2xyz_civil_plan_di.Civil.Workflow.History.{Workflow, undoable, undo, redo, desk}
use screen2xyz_civil_plan_di.Civil.Workflow.History.Restore.{
  audited, undoable_atomic, undo-undoable, redo-undo,
}

site-IsLoadable : IsLoadable whole_numbers site
site-IsLoadable = record {
  project = unfold project_valid in refl;
  crop = unfold crop_valid in refl;
  calibration = unfold calibration_valid in refl;
  history = tt;
  points = (unfold point_valid in refl, tt);
  lines = tt;
}

-- A new elevation that is refused with the point number that comes with it.
abbrev half_done : Edit ℕ
half_done = record {
  elevation = some 60;
  point_type = none;
  pixel = none;
  point_number = some "";
  description = none;
  sheet = none;
  revision_label = none;
  notes = none;
}

half_done-raises :
    (edit_point simple_runtime "PT-0001" half_done (desk simple_runtime opened)).0
    ≡ err workflow_error
unfolding edit_point edit_elevation edit_number elevation_ok find_point update_point strip
half_done-raises = refl

deletion-succeeds :
    (delete_cart_point simple_runtime "PT-0001" (desk simple_runtime opened)).0 ≡ ok tt
unfolding delete_cart_point find_point remove_point
deletion-succeeds = refl

project_round_example :
    project_from_dict whole_numbers (λ v. "") (project_to_dict whole_numbers site) ≡ some site
project_round_example = project_round whole_numbers (λ v. "") site site-IsLoadable

next_point_id_fresh_example : mem_id (next_point_id (spot ∷ [])) (spot ∷ []) ≡ false
next_point_id_fresh_example = next_point_id_fresh (spot ∷ [])

undoable_atomic_example :
    undoable simple_runtime (edit_point simple_runtime "PT-0001" half_done) opened ≡ (
      err workflow_error,
      record opened {
        ticks =
            (edit_point simple_runtime "PT-0001" half_done (desk simple_runtime opened)).1.ticks;
        redo_stack = [];
      },
    )
undoable_atomic_example =
    undoable_atomic simple_runtime (edit_point simple_runtime "PT-0001" half_done) opened
      workflow_error site-IsLoadable half_done-raises

undo-undoable_example :
    let after = (delete_cart_point simple_runtime "PT-0001" (desk simple_runtime opened)).1 in
    undo simple_runtime
      (undoable simple_runtime (delete_cart_point simple_runtime "PT-0001") opened).1
    ≡ (
      ok tt,
      record {
        project = audited simple_runtime "t1" "UNDO" "Reverted the previous estimator action." site;
        ticks = suc after.ticks;
        undo_stack = [];
        redo_stack = project_to_dict whole_numbers after.project ∷ [];
      },
    )
undo-undoable_example =
    undo-undoable simple_runtime (delete_cart_point simple_runtime "PT-0001") opened tt
      site-IsLoadable deletion-succeeds

abbrev one_back : Workflow ℕ
one_back = record opened { undo_stack = project_to_dict whole_numbers site ∷ [] }

one_back-undone : (undo simple_runtime one_back).0 ≡ ok tt
unfolding undo
one_back-undone = rw (project_round whole_numbers (λ v. "") site site-IsLoadable) refl

redo-undo_example :
    ((redo simple_runtime (undo simple_runtime one_back).1).0 ≡ ok tt)
    × ((redo simple_runtime (undo simple_runtime one_back).1).1.project
        ≡ audited simple_runtime "t1" "REDO" "Reapplied the previously undone estimator action."
            site)
    × ((redo simple_runtime (undo simple_runtime one_back).1).1.redo_stack ≡ [])
redo-undo_example = redo-undo simple_runtime one_back site-IsLoadable one_back-undone

site-AllReady : AllReady site.points
site-AllReady = (inr (unfold is_terrain in refl, refl, refl), tt)

approved_stay_exportable_example :
    IsReadyWorkflow simple_runtime (call simple_runtime (method (approve_call "PT-0001")) opened).1
approved_stay_exportable_example =
    approved_stay_exportable simple_runtime (method (approve_call "PT-0001")) opened site-IsLoadable
      (site-AllReady, tt, tt)

approve_point-succeeds_example :
    succeeds (approve_point simple_runtime "PT-0001" (desk simple_runtime opened)).0
    ≡ is_approvable simple_runtime site (find_point "PT-0001" site.points)
approve_point-succeeds_example =
    approve_point-succeeds simple_runtime "PT-0001" (desk simple_runtime opened)

abbrev two_points : Survey whole_numbers
two_points = record {
  scale_point_1 = origin;
  scale_point_2 = record { x = 5; y = 0 };
  known_distance_m = 10;
  origin_pixel = origin;
  east_reference = record { x = 1; y = 0 };
  origin_east_m = 0;
  origin_north_m = 0;
  check_point_1 = none;
  check_point_2 = none;
  check_known_distance_m = none;
}

abbrev second_revision : Calibration ℕ
second_revision = record unit_scale { revision = pos 2; created_at = "t1" }

calibrated_again :
    (apply_calibration simple_runtime two_points (desk simple_runtime opened)).0
    ≡ ok second_revision
unfolding apply_calibration build_calibration metres_per_pixel east_basis second_check
    calibration_valid pixel_distance
calibrated_again = refl

apply_calibration-keeps_reviews_example :
    let p = (apply_calibration simple_runtime two_points (desk simple_runtime opened)).1.project in
    (p.calibration ≡ some second_revision)
    × (p.calibration_history ≡ unit_scale ∷ [])
    × (p.exports_stale ≡ true)
    × All (IsPlaced simple_runtime second_revision) p.points
    × (pixels p.points ≡ (3, 0) ∷ [])
    × (statuses p.points ≡ ReviewStatus.approved ∷ [])
apply_calibration-keeps_reviews_example =
    apply_calibration-keeps_reviews simple_runtime two_points (desk simple_runtime opened)
      second_revision calibrated_again

site-IsDrawn : IsDrawn simple_runtime site
site-IsDrawn = record { boundaries = tt; exclusions = tt; breaklines = tt; no_cross = tt }

abbrev corners : List (PixelPoint ℕ)
corners = origin ∷ record { x = 5; y = 0 } ∷ record { x = 5; y = 5 } ∷ []

drawing-IsDrawn_example :
    IsDrawn simple_runtime
      (set_boundary simple_runtime corners (desk simple_runtime opened)).1.project
    × IsDrawn simple_runtime
        (add_exclusion_polygon simple_runtime corners (desk simple_runtime opened)).1.project
    × IsDrawn simple_runtime
        (add_breakline simple_runtime corners (desk simple_runtime opened)).1.project
    × IsDrawn simple_runtime
        (add_no_cross_line simple_runtime corners (desk simple_runtime opened)).1.project
drawing-IsDrawn_example =
    drawing-IsDrawn simple_runtime corners (desk simple_runtime opened) site-IsDrawn

site-unique_ids : unique_ids site.points ≡ true
unfolding unique_ids
site-unique_ids = refl

second_spot-succeeds : succeeds second_spot.0 ≡ true
unfolding add_manual_point is_terrain elevation_ok contains point_valid next_point_id
second_spot-succeeds = refl

manual_ids_stay_unique_example : Post HasUniqueIds second_spot
manual_ids_stay_unique_example =
    manual_ids_stay_unique simple_runtime (record { x = 4; y = 4 }) 50 PointType.design_grade
      (pos 0) "1" (desk simple_runtime opened) site-unique_ids

has_critical_export_errors_lem_example :
    has_critical_export_errors simple_runtime (qa_summary simple_runtime site).0
    ≡ is_none site.calibration || any (is_invalid_approved simple_runtime) site.points
has_critical_export_errors_lem_example = has_critical_export_errors_lem simple_runtime site

workflow_exports_open_example :
    has_critical_export_errors simple_runtime
      (qa_summary simple_runtime
        (call simple_runtime (method (approve_call "PT-0001")) opened).1.project).0
    ≡ is_none (call simple_runtime (method (approve_call "PT-0001")) opened).1.project.calibration
workflow_exports_open_example =
    workflow_exports_open simple_runtime (method (approve_call "PT-0001")) opened site-IsLoadable
      (site-AllReady, tt, tt)

abbrev twin : Pair ℕ
twin = record {
  left = "PT-0001";
  right = "PT-0002";
  distance_m = 0;
  elevation_delta_m = 0;
  conflicting = true;
}

twin-listed : duplicate_pairs whole_numbers second_spot.1.project 1 1 ≡ twin ∷ []
unfolding duplicate_pairs is_terrain elevation_ok contains point_valid next_point_id
    add_manual_point to_local type_name
twin-listed = refl

duplicate_pairs_exact_example :
    Has twin (duplicate_pairs whole_numbers second_spot.1.project 1 1) ↔ (
      (p q : CivilPoint ℕ) × Before p q second_spot.1.project.points
      × IsDuplicate whole_numbers 1 1 twin p q)
duplicate_pairs_exact_example = duplicate_pairs_exact whole_numbers 1 1 second_spot.1.project twin
