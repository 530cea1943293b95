-- ===== src/Civil/Workflow/Tests.antt =====
-- workflow.py: runs of capture, elevation lines and sorting on concrete input.
use screen2xyz_civil_plan_di.Civil.Samples.{second_spot, origin, simple_runtime, opened}
use screen2xyz_civil_plan_di.Civil.Workflow.Triple.{Post}
use screen2xyz_civil_plan_di.Civil.Model.{contains}
use screen2xyz_civil_plan_di.Civil.Workflow.Capture.{
  CandidateEvidence, Capture, capture_assisted_point, is_captured,
}
use screen2xyz_civil_plan_di.Civil.Workflow.Capture.Once.{captures, captured_at_most_once}
use screen2xyz_civil_plan_di.Civil.Workflow.Geometry.{find_line}
use screen2xyz_civil_plan_di.Civil.Workflow.Lines.{next_line_id}
use screen2xyz_civil_plan_di.Civil.Workflow.Sorting.{sort_points}
use screen2xyz_civil_plan_di.Civil.Workflow.Lines.Fresh.{next_line_id_fresh}
use screen2xyz_civil_plan_di.Civil.Vocabulary.{SourceMethod, SymbolType}
use screen2xyz_civil_plan_di.Civil.Model.{CivilElevationLine}
use screen2xyz_civil_plan_di.Civil.Json.{end}
use screen2xyz_civil_plan_di.Civil.Workflow.Renumber.{renumber_points}
use screen2xyz_civil_plan_di.Civil.Workflow.Renumber.Apart.{HasUniqueNumbers, numbers_stay_unique}
use screen2xyz_civil_plan_di.Civil.Model.{unique_ids}
use screen2xyz_civil_plan_di.Civil.Workflow.Triple.{Post}
use screen2xyz_civil_plan_di.Civil.Workflow.{find_point, update_point, elevation_ok}
use screen2xyz_civil_plan_di.Civil.Vocabulary.{is_terrain}
use screen2xyz_civil_plan_di.Civil.Workflow.Points.{add_manual_point}
use screen2xyz_civil_plan_di.Prelude.{eq_iff}
use screen2xyz_civil_plan_di.Civil.Model.{contains, point_valid}
use screen2xyz_civil_plan_di.Prelude.{map, if◌then◌else◌, str_eq, ◌⊎◌}
use screen2xyz_civil_plan_di.Civil.Vocabulary.{type_name, status_name}
use screen2xyz_civil_plan_di.Civil.Workflow.Sorting.Keys.{
  IsLess, IsSmaller, IsBelow, IsBefore, Arranges, sort_points-IsInOrder,
}
use screen2xyz_civil_plan_di.Civil.Ids.{next_point_id}
use screen2xyz_civil_plan_di.Prelude.{
  arith, ◌≤◌, ltb, ◌==◌, ℕ, ◌≡◌, refl, none, some, true, false, [], ◌∷◌,
}
use screen2xyz_civil_plan_di.Prelude.Int.{pos}
use screen2xyz_civil_plan_di.Civil.Vocabulary.{is_terrain, PointType, ReviewStatus}
use screen2xyz_civil_plan_di.Civil.Model.{point_valid}
use screen2xyz_civil_plan_di.Civil.Ids.{read_from, next_point_id}
use screen2xyz_civil_plan_di.Civil.Workflow.{elevation_ok}
use screen2xyz_civil_plan_di.Civil.Workflow.Approval.{succeeds}
use screen2xyz_civil_plan_di.Civil.Workflow.History.{desk}

abbrev suggestion : CandidateEvidence ℕ
suggestion = record {
  candidate_id = "K1";
  page_index = pos 0;
  page_label = "1";
  pixel = record { x = 4; y = 4 };
  elevation = some 50;
  likely_type = "EXISTING_GROUND";
  source_method = SourceMethod.pdf_text;
  detected_text = "50";
  normalized_text = "50";
  text_confidence = none;
  symbol_type = SymbolType.plus_sign;
  symbol_confidence = none;
  association_confidence = none;
  classification_confidence = 1;
  reasons = [];
  text_bbox = end;
  alternative_associations = [];
  rejected = false;
  rejection_category = "";
}

abbrev by_click : Capture ℕ
by_click = record {
  capture_mode = PointType.existing_ground;
  click_pixel = record { x = 4; y = 5 };
  snap_distance_px = 1;
  capture_method = "CLICK";
}

capture_of_suggestion-succeeds :
    succeeds
      (capture_assisted_point simple_runtime suggestion by_click (desk simple_runtime opened)).0
    ≡ true
unfolding capture_assisted_point is_captured is_terrain elevation_ok contains point_valid
    next_point_id
capture_of_suggestion-succeeds = refl

captured_at_most_once_example :
    Post
      (λ ps. captures "K1" "EXISTING_GROUND" ps ≤ 1)
      (capture_assisted_point simple_runtime suggestion by_click (desk simple_runtime opened))
captured_at_most_once_example =
    captured_at_most_once simple_runtime "K1" "EXISTING_GROUND" suggestion by_click
      (desk simple_runtime opened) (omega arith)

abbrev contour : CivilElevationLine ℕ
contour = record {
  id = "CL-000041";
  elevation = 50;
  vertices = origin ∷ record { x = 4; y = 4 } ∷ [];
  source_method = SourceMethod.manual;
  review_status = ReviewStatus.unreviewed;
  created_at = "t0";
  updated_at = "t0";
  description = "CONTOUR";
  sheet = "";
  revision_label = "";
  notes = "";
}

line_after_contour : next_line_id (contour ∷ []) ≡ "CL-000042"
unfolding next_line_id read_from
line_after_contour = refl

next_line_id_fresh_example : find_line (next_line_id (contour ∷ [])) (contour ∷ []) ≡ none
next_line_id_fresh_example = next_line_id_fresh (contour ∷ [])

ltb-asymmetric : (m n : ℕ) → ltb m n ≡ true → ltb n m ≡ false
ltb-asymmetric m n h = ground arith

equal_comm : (m n : ℕ) → (m == n) ≡ (n == m)
equal_comm m n = ground arith

points_by_height :
    map (λ p. p.id) (sort_points simple_runtime "elevation" true second_spot.1).1.project.points
    ≡ "PT-0002" ∷ "PT-0001" ∷ []
unfolding sort_points is_terrain elevation_ok contains point_valid next_point_id add_manual_point
points_by_height = refl

sort_points-IsInOrder_example :
    let d = second_spot.1 in
    Arranges simple_runtime "point_number" true d (λ p q.
      IsLess
        (if str_eq p.point_number "" then p.id else p.point_number)
        (if str_eq q.point_number "" then q.id else q.point_number))
    × Arranges simple_runtime "page" true d (λ p q.
      IsSmaller p.page_index q.page_index ⊎ (p.page_index ≡ q.page_index) × IsLess p.id q.id)
    × Arranges simple_runtime "elevation" true d (IsBelow simple_runtime)
    × Arranges simple_runtime "class" true d
        (λ p q. IsBefore simple_runtime (type_name p.point_type) (type_name q.point_type) p q)
    × Arranges simple_runtime "status" true d (λ p q.
      IsBefore simple_runtime (status_name p.review_status) (status_name q.review_status) p q)
    × Arranges simple_runtime "created" true d
        (λ p q. IsBefore simple_runtime p.created_at q.created_at p q)
sort_points-IsInOrder_example =
    sort_points-IsInOrder simple_runtime ltb-asymmetric equal_comm true second_spot.1

two_spots-unique_ids : unique_ids second_spot.1.project.points ≡ true
unfolding unique_ids add_manual_point is_terrain elevation_ok contains point_valid next_point_id
two_spots-unique_ids = refl

two_spots-HasUniqueNumbers : HasUniqueNumbers second_spot.1.project.points
unfolding add_manual_point is_terrain elevation_ok contains point_valid next_point_id
two_spots-HasUniqueNumbers =
    ((λ same. ground (arith, (eq_iff "PT-0001" "PT-0002").1 same), tt), (tt, tt))

renumbering-succeeds :
    succeeds (renumber_points simple_runtime none "P" (pos 7) (pos 4) second_spot.1).0 ≡ true
unfolding renumber_points find_point update_point add_manual_point is_terrain elevation_ok contains
    point_valid next_point_id
renumbering-succeeds = refl

numbers_stay_unique_example :
    Post HasUniqueNumbers (renumber_points simple_runtime none "P" (pos 7) (pos 4) second_spot.1)
numbers_stay_unique_example =
    numbers_stay_unique simple_runtime none "P" (pos 7) (pos 4) second_spot.1 two_spots-unique_ids
      two_spots-HasUniqueNumbers
