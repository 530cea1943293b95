-- ===== src/Civil/Workflow/Gate/Commands.antt =====
-- workflow.py: the public methods as one type of commands, and the approved points.
use screen2xyz_civil_plan_di.Civil.Workflow.Geometry.{
  set_boundary, add_exclusion_polygon, add_breakline, add_no_cross_line, disable_triangle,
  approve_elevation_line,
}
use screen2xyz_civil_plan_di.Civil.Workflow.Gate.Drawing.{
  Triple-set_boundary, Triple-add_exclusion_polygon, Triple-add_breakline, Triple-add_no_cross_line,
  Triple-disable_triangle, Triple-approve_elevation_line,
}
use screen2xyz_civil_plan_di.Civil.Workflow.Capture.{
  CandidateEvidence, Capture, capture_assisted_point,
}
use screen2xyz_civil_plan_di.Civil.Workflow.Capture.Once.{capture-AllReady}
use screen2xyz_civil_plan_di.Civil.Workflow.Lines.{add_elevation_line}
use screen2xyz_civil_plan_di.Civil.Workflow.Renumber.{renumber_points}
use screen2xyz_civil_plan_di.Civil.Workflow.Renumber.Writes.{renumber_points-AllReady}
use screen2xyz_civil_plan_di.Civil.Workflow.Sorting.{sort_points}
use screen2xyz_civil_plan_di.Civil.Workflow.Sorting.Order.{sort_points-AllReady}
use screen2xyz_civil_plan_di.Civil.Workflow.Lines.Numbers.{Triple-add_elevation_line}
use screen2xyz_civil_plan_di.Prelude.{Bool, Option}
use screen2xyz_civil_plan_di.Civil.Json.{str, int, float, list}
use screen2xyz_civil_plan_di.Prelude.{String, List, [], ◌∷◌, str_eq, not, is_empty, map, length}
use screen2xyz_civil_plan_di.Prelude.Floats.{Floats}
use screen2xyz_civil_plan_di.Prelude.Int.{ℤ, pos}
use screen2xyz_civil_plan_di.Civil.Vocabulary.{PointType}
use screen2xyz_civil_plan_di.Civil.Model.{CivilPoint, PixelPoint, CropRegion}
use screen2xyz_civil_plan_di.Civil.Transform.{Survey}
use screen2xyz_civil_plan_di.Civil.Workflow.{workflow_error, Runtime, Action, ◌>>=◌, pure}
use screen2xyz_civil_plan_di.Civil.Workflow.Triple.{
  Triple, ◌⟫◌, Triple-pure, Triple-or_raise, Triple-require, Triple-audit,
}
use screen2xyz_civil_plan_di.Civil.Workflow.Setup.{
  set_crop, set_plausible_elevation_range, apply_calibration, verify_current_scale,
}
use screen2xyz_civil_plan_di.Civil.Workflow.Points.{
  Edit, edit_point, add_manual_point, add_candidate, delete_manual_point, delete_cart_point,
}
use screen2xyz_civil_plan_di.Civil.Workflow.Review.{
  approve_point, reject_point, mark_review_required, merge_duplicate, separation, for_each,
  bulk_approve, bulk_change_description, describe,
}
use screen2xyz_civil_plan_di.Civil.Workflow.Gate.{AllReady}
use screen2xyz_civil_plan_di.Civil.Workflow.Gate.Project.{
  add_manual_point-AllReady, add_candidate-AllReady, set_crop-AllReady, set_range-AllReady,
  apply_calibration-AllReady, verify_current_scale-AllReady,
}
use screen2xyz_civil_plan_di.Civil.Workflow.Gate.Writes.{Triple-reads}
use screen2xyz_civil_plan_di.Civil.Workflow.Gate.Edits.{edit_point-AllReady}
use screen2xyz_civil_plan_di.Civil.Workflow.Gate.Points.{
  approve_point-AllReady, reject_point-AllReady, mark_review_required-AllReady,
  delete_manual_point-AllReady, delete_cart_point-AllReady,
}

-- A call of a public method.
pub data Command (fl : Floats) : Type 0 where
  set_crop_call : CropRegion fl.F → Command fl
  set_range_call : fl.F → fl.F → Command fl
  calibrate_call : Survey fl → Command fl
  verify_call : PixelPoint fl.F → PixelPoint fl.F → fl.F → Command fl
  add_manual_call : PixelPoint fl.F → fl.F → PointType → ℤ → String → Command fl
  add_candidate_call : CivilPoint fl.F → Command fl
  edit_call : String → Edit fl.F → Command fl
  delete_manual_call : String → Command fl
  delete_cart_call : String → Command fl
  approve_call : String → Command fl
  reject_call : String → String → Command fl
  review_call : String → String → Command fl
  merge_call : String → String → Command fl
  bulk_approve_call : List String → Command fl
  bulk_describe_call : List String → String → Command fl
  boundary_call : List (PixelPoint fl.F) → Command fl
  exclusion_call : List (PixelPoint fl.F) → Command fl
  breakline_call : List (PixelPoint fl.F) → Command fl
  no_cross_call : List (PixelPoint fl.F) → Command fl
  disable_triangle_call : String → Command fl
  approve_line_call : String → Command fl
  capture_call : CandidateEvidence fl.F → Capture fl.F → Command fl
  add_line_call : List (PixelPoint fl.F) → fl.F → String → String → Command fl
  sort_call : String → Bool → Command fl
  renumber_call : Option (List String) → String → ℤ → ℤ → Command fl

module _ (rt : Runtime) where
  open rt use {fl, format, repr}
  open fl use {F, literal, lt}

  abbrev discard : {A : Type 0} → Action F A → Action F (Unit {0})
  discard m = m >>= λ _. pure tt

  -- The method's body.
  unfoldable pub execute : Command fl → Action F (Unit {0})
  execute (set_crop_call crop) = set_crop rt crop
  execute (set_range_call low high) = set_plausible_elevation_range rt low high
  execute (calibrate_call s) = discard (apply_calibration rt s)
  execute (verify_call p q known) = discard (verify_current_scale rt p q known)
  execute (add_manual_call pixel e type page label) =
      discard (add_manual_point rt pixel e type page label)
  execute (add_candidate_call p) = discard (add_candidate rt p)
  execute (edit_call id edit) = discard (edit_point rt id edit)
  execute (delete_manual_call id) = delete_manual_point rt id
  execute (delete_cart_call id) = delete_cart_point rt id
  execute (approve_call id) = discard (approve_point rt id)
  execute (reject_call id reason) = discard (reject_point rt id reason)
  execute (review_call id reason) = discard (mark_review_required rt id reason)
  execute (merge_call keep_id reject_id) = discard (merge_duplicate rt keep_id reject_id)
  execute (bulk_approve_call ids) = discard (bulk_approve rt ids)
  execute (bulk_describe_call ids text) = discard (bulk_change_description rt ids text)
  execute (boundary_call points) = set_boundary rt points
  execute (exclusion_call points) = add_exclusion_polygon rt points
  execute (breakline_call points) = add_breakline rt points
  execute (no_cross_call points) = add_no_cross_line rt points
  execute (disable_triangle_call id) = disable_triangle rt id
  execute (approve_line_call id) = discard (approve_elevation_line rt id)
  execute (capture_call e a) = discard (capture_assisted_point rt e a)
  execute (add_line_call vertices e method description) =
      discard (add_elevation_line rt vertices e method description)
  execute (sort_call key reverse) = sort_points rt key reverse
  execute (renumber_call ids prefix start padding) =
      discard (renumber_points rt ids prefix start padding)

  merge_duplicate-AllReady :
      (keep_id reject_id : String) → Triple AllReady AllReady (merge_duplicate rt keep_id reject_id)
  unfolding merge_duplicate
  merge_duplicate-AllReady keep_id reject_id =
      Triple-require (not (str_eq keep_id reject_id)) workflow_error (λ apart.
        Triple-reads keep_id ⟫ λ kept. Triple-reads reject_id ⟫ λ rejected.
        Triple-or_raise workflow_error (separation rt kept rejected) ⟫ λ distance.
        Triple-require (not (lt (literal "0.05") distance)) workflow_error (λ near.
          reject_point-AllReady rt reject_id (
            format "Merged as duplicate of {}; separation {:.6f} m."
              (str keep_id ∷ float distance ∷ []))))

  Triple-for_each :
      (action : String → Action F (CivilPoint F))
      → ((id : String) → Triple AllReady AllReady (action id))
      → (ids : List String) → Triple AllReady AllReady (for_each rt action ids)
  unfolding for_each
  Triple-for_each action h [] = Triple-pure []
  Triple-for_each action h (id ∷ ids) =
      h id ⟫ λ p. Triple-for_each action h ids ⟫ λ ps. Triple-pure (p ∷ ps)

  bulk_approve-AllReady : (ids : List String) → Triple AllReady AllReady (bulk_approve rt ids)
  unfolding bulk_approve
  bulk_approve-AllReady ids = Triple-require (not (is_empty ids)) workflow_error (λ chosen.
      Triple-for_each (approve_point rt) (approve_point-AllReady rt) ids ⟫ λ ps.
      Triple-audit rt "POINTS_BULK_APPROVED"
        (format "Reviewer explicitly approved {} selected cart rows." (int (pos (length ps)) ∷ []))
        (("point_ids", list (map str ids)) ∷ [])
      ⟫ λ _. Triple-pure ps)

  bulk_describe-AllReady :
      (ids : List String) (text : String)
      → Triple AllReady AllReady (bulk_change_description rt ids text)
  unfolding bulk_change_description
  bulk_describe-AllReady ids text = Triple-require (not (is_empty ids)) workflow_error (λ chosen.
      Triple-for_each (λ id. edit_point rt id (describe rt text))
        (λ id. edit_point-AllReady rt id (describe rt text)) ids
      ⟫ λ ps.
          Triple-audit rt "POINTS_BULK_DESCRIPTION_CHANGED"
            (format "Changed description on {} selected cart rows." (int (pos (length ps)) ∷ []))
            (("point_ids", list (map str ids)) ∷ [])
          ⟫ λ _. Triple-pure ps)

  pub execute-AllReady : (c : Command fl) → Triple AllReady AllReady (execute c)
  unfolding execute
  execute-AllReady (set_crop_call crop) = set_crop-AllReady rt crop
  execute-AllReady (set_range_call low high) = set_range-AllReady rt low high
  execute-AllReady (calibrate_call s) = apply_calibration-AllReady rt s ⟫ λ _. Triple-pure tt
  execute-AllReady (verify_call p q known) =
      verify_current_scale-AllReady rt p q known ⟫ λ _. Triple-pure tt
  execute-AllReady (add_manual_call pixel e type page label) =
      add_manual_point-AllReady rt pixel e type page label ⟫ λ _. Triple-pure tt
  execute-AllReady (add_candidate_call p) = add_candidate-AllReady rt p ⟫ λ _. Triple-pure tt
  execute-AllReady (edit_call id edit) = edit_point-AllReady rt id edit ⟫ λ _. Triple-pure tt
  execute-AllReady (delete_manual_call id) = delete_manual_point-AllReady rt id
  execute-AllReady (delete_cart_call id) = delete_cart_point-AllReady rt id
  execute-AllReady (approve_call id) = approve_point-AllReady rt id ⟫ λ _. Triple-pure tt
  execute-AllReady (reject_call id reason) =
      reject_point-AllReady rt id reason ⟫ λ _. Triple-pure tt
  execute-AllReady (review_call id reason) =
      mark_review_required-AllReady rt id reason ⟫ λ _. Triple-pure tt
  execute-AllReady (merge_call keep_id reject_id) =
      merge_duplicate-AllReady keep_id reject_id ⟫ λ _. Triple-pure tt
  execute-AllReady (bulk_approve_call ids) = bulk_approve-AllReady ids ⟫ λ _. Triple-pure tt
  execute-AllReady (bulk_describe_call ids text) =
      bulk_describe-AllReady ids text ⟫ λ _. Triple-pure tt
  execute-AllReady (boundary_call points) = Triple-set_boundary rt points
  execute-AllReady (exclusion_call points) = Triple-add_exclusion_polygon rt points
  execute-AllReady (breakline_call points) = Triple-add_breakline rt points
  execute-AllReady (no_cross_call points) = Triple-add_no_cross_line rt points
  execute-AllReady (disable_triangle_call id) = Triple-disable_triangle rt id
  execute-AllReady (approve_line_call id) =
      Triple-approve_elevation_line rt id ⟫ λ _. Triple-pure tt
  execute-AllReady (capture_call e a) = capture-AllReady rt e a ⟫ λ _. Triple-pure tt
  execute-AllReady (add_line_call vertices e method description) =
      Triple-add_elevation_line rt vertices e method description ⟫ λ _. Triple-pure tt
  execute-AllReady (sort_call key reverse) = sort_points-AllReady rt key reverse
  execute-AllReady (renumber_call ids prefix start padding) =
      renumber_points-AllReady rt ids prefix start padding ⟫ λ _. Triple-pure tt
