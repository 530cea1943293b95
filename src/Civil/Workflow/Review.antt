-- ===== src/Civil/Workflow/Review.antt =====
-- workflow.py: approval, rejection and merging of points.
use screen2xyz_civil_plan_di.Prelude.{
  String, Option, none, some, not, ◌&&◌, List, [], ◌∷◌, ◌++◌, map, str_eq, is_empty, is_some,
  length, if◌then◌else◌,
}
use screen2xyz_civil_plan_di.Prelude.Int.{pos}
use screen2xyz_civil_plan_di.Civil.Vocabulary.{ReviewStatus}
use screen2xyz_civil_plan_di.Civil.Json.{Value, int, float, str, dict, list}
use screen2xyz_civil_plan_di.Civil.Model.{CivilPoint, terrain_relevant}
use screen2xyz_civil_plan_di.Civil.Workflow.{
  workflow_error, Runtime, Action, pure, gets, or_raise, require, mark_stale, ◌>>=◌, ◌>>◌, touch,
  log, audit, validate_elevation, get_point, write_point,
}
use screen2xyz_civil_plan_di.Civil.Workflow.Points.{Edit, edit_point}

module _ (rt : Runtime) where
  open rt use {fl, format}
  open fl use {F, literal, sub, hypot, lt}

  abbrev pub approved_status : CivilPoint F → ReviewStatus
  approved_status p =
      if is_empty p.user_edits then ReviewStatus.approved else ReviewStatus.edited_and_approved

  abbrev pub entry : String → String → String → String → Value F
  entry t action detail id =
      dict (
        ("at", str t) ∷ ("action", str action) ∷ ("detail", str detail) ∷ ("point_id", str id) ∷ [])

  unfoldable pub approve_point : String → Action F (CivilPoint F)
  approve_point id = do
    point ← get_point id
    calibration ← gets (λ p. p.calibration)
    c ← or_raise workflow_error calibration
    require (terrain_relevant point) workflow_error
    validate_elevation rt point.elevation
    require (is_some point.local_east && is_some point.local_north) workflow_error
    write_point id (λ p. record p { review_status = approved_status p })
    t ← touch rt
    write_point id (λ p. record p { updated_at = t; calibration_revision = some c.revision })
    mark_stale
    log rt (entry t "POINT_APPROVED" "Reviewer explicitly approved point." id)
    get_point id

  unfoldable pub reject_point : String → String → Action F (CivilPoint F)
  reject_point id reason = do
    _ ← get_point id
    write_point id (λ p. record p { review_status = ReviewStatus.rejected })
    t ← touch rt
    write_point id (λ p. record p {
      updated_at = t;
      classification_reason = p.classification_reason ++ str reason ∷ [];
    })
    mark_stale
    log rt (entry t "POINT_REJECTED" reason id)
    get_point id

  unfoldable pub mark_review_required : String → String → Action F (CivilPoint F)
  mark_review_required id reason = do
    _ ← get_point id
    write_point id (λ p. record p { review_status = ReviewStatus.review_required })
    t ← touch rt
    write_point id (λ p. record p {
      updated_at = t;
      classification_reason = p.classification_reason ++ str reason ∷ [];
    })
    mark_stale
    get_point id

  -- `math.hypot` of two located points, `none` where a coordinate is None
  unfoldable pub separation : CivilPoint F → CivilPoint F → Option F
  separation p q = elim p.local_east [
    | none ↦ none
    | some pe ↦ elim p.local_north [
      | none ↦ none
      | some pn ↦ elim q.local_east [
        | none ↦ none
        | some qe ↦ elim q.local_north [
          | none ↦ none
          | some qn ↦ some (hypot (sub pe qe) (sub pn qn))
        ]
      ]
    ]
  ]

  unfoldable pub merge_duplicate : String → String → Action F (CivilPoint F)
  merge_duplicate keep_id reject_id = do
    require (not (str_eq keep_id reject_id)) workflow_error
    kept ← get_point keep_id
    rejected ← get_point reject_id
    distance ← or_raise workflow_error (separation kept rejected)
    require (not (lt (literal "0.05") distance)) workflow_error
    reject_point reject_id (
        format "Merged as duplicate of {}; separation {:.6f} m."
          (str keep_id ∷ float distance ∷ []))

  -- `[action(point_id) for point_id in point_ids]`
  unfoldable pub for_each :
      (String → Action F (CivilPoint F)) → List String → Action F (List (CivilPoint F))
  for_each action [] = pure []
  for_each action (id ∷ ids) = do p ← action id; ps ← for_each action ids; pure (p ∷ ps)

  unfoldable pub bulk_approve : List String → Action F (List (CivilPoint F))
  bulk_approve ids = do
    require (not (is_empty ids)) workflow_error
    approved ← for_each approve_point ids
    audit rt "POINTS_BULK_APPROVED"
        (format "Reviewer explicitly approved {} selected cart rows."
          (int (pos (length approved)) ∷ []))
        (("point_ids", list (map str ids)) ∷ [])
    pure approved

  abbrev pub describe : String → Edit F
  describe text = record {
    elevation = none;
    point_type = none;
    pixel = none;
    point_number = none;
    description = some text;
    sheet = none;
    revision_label = none;
    notes = none;
  }

  unfoldable pub bulk_change_description : List String → String → Action F (List (CivilPoint F))
  bulk_change_description ids text = do
    require (not (is_empty ids)) workflow_error
    changed ← for_each (λ id. edit_point rt id (describe text)) ids
    audit rt "POINTS_BULK_DESCRIPTION_CHANGED"
        (format "Changed description on {} selected cart rows." (int (pos (length changed)) ∷ []))
        (("point_ids", list (map str ids)) ∷ [])
    pure changed
