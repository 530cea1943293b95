-- ===== src/Civil/Workflow/Gate/Points.antt =====
-- workflow.py: approval, rejection and deletion of points, and the approved points.
use screen2xyz_civil_plan_di.Prelude.{
  ◌≡◌, some, true, String, [], ◌∷◌, ◌++◌, is_some, str_eq, if◌then◌else◌, inl, inr, ◌&&◌,
}
use screen2xyz_civil_plan_di.Civil.Vocabulary.{ReviewStatus, is_manual, status_name}
use screen2xyz_civil_plan_di.Civil.Json.{str}
use screen2xyz_civil_plan_di.Civil.Model.{terrain_relevant}
use screen2xyz_civil_plan_di.Civil.Workflow.{
  workflow_error, Runtime, find_point, remove_point, modify,
}
use screen2xyz_civil_plan_di.Civil.Workflow.Triple.{
  Triple, ◌⟫◌, Triple-gets, Triple-or_raise, Triple-modify, Triple-require, Triple-get_point,
  Triple-touch, Triple-log, Triple-audit, Triple-validate_elevation,
}
use screen2xyz_civil_plan_di.Civil.Workflow.Points.{delete_manual_point, delete_cart_point}
use screen2xyz_civil_plan_di.Civil.Workflow.Review.{
  approve_point, approved_status, entry, reject_point, mark_review_required,
}
use screen2xyz_civil_plan_di.Civil.Workflow.Gate.{
  AllReady, AllReady-ReadyBut, AllReady-update_found, AllReady-remove_point,
}
use screen2xyz_civil_plan_di.Civil.Workflow.Gate.Writes.{
  Triple-from, Triple-reads, Triple-write, Triple-notes, Triple-drops, Triple-mark_stale,
  located_parts, rejected-not_approved, review_required-not_approved,
}

module _ (rt : Runtime) where
  open rt use {fl}
  open fl use {F}

  pub approve_point-AllReady : (id : String) → Triple AllReady AllReady (approve_point rt id)
  unfolding approve_point
  approve_point-AllReady id = Triple-get_point id (λ q. Triple-gets (λ p. p.calibration) ⟫ λ c.
      Triple-or_raise workflow_error c ⟫ λ c'.
      Triple-require (terrain_relevant q) workflow_error (λ terrain.
        Triple-validate_elevation rt q.elevation ⟫ λ _.
        Triple-require (is_some q.local_east && is_some q.local_north) workflow_error (λ both.
          Triple-write {K = λ ps. AllReady ps × (find_point id ps ≡ some q)} id
            (λ p. record p { review_status = approved_status rt p })
            (λ ps h.
              AllReady-update_found id (λ p. record p { review_status = approved_status rt p }) q
                (inr (
                  located_parts (terrain_relevant q) (is_some q.local_east) (is_some q.local_north)
                    terrain both))
                ps h.0 h.1)
          ⟫ λ _. Triple-touch rt ⟫ λ t.
              Triple-notes id
                (λ p. record p { updated_at = t; calibration_revision = some c'.revision })
                (λ p h. h)
              ⟫ λ _. Triple-mark_stale ⟫ λ _.
                  Triple-log rt
                    (entry rt t "POINT_APPROVED" "Reviewer explicitly approved point." id)
                  ⟫ λ _. Triple-reads id)))

  pub reject_point-AllReady :
      (id reason : String) → Triple AllReady AllReady (reject_point rt id reason)
  unfolding reject_point
  reject_point-AllReady id reason = Triple-reads id ⟫ λ _.
      Triple-from (AllReady-ReadyBut id) (
        Triple-drops id (λ p. record p { review_status = ReviewStatus.rejected })
          (λ p. inl rejected-not_approved))
      ⟫ λ _. Triple-touch rt ⟫ λ t.
          Triple-notes id
            (λ p. record p {
              updated_at = t;
              classification_reason = p.classification_reason ++ str reason ∷ [];
            })
            (λ p h. h)
          ⟫ λ _. Triple-mark_stale ⟫ λ _.
              Triple-log rt (entry rt t "POINT_REJECTED" reason id) ⟫ λ _. Triple-reads id

  pub mark_review_required-AllReady :
      (id reason : String) → Triple AllReady AllReady (mark_review_required rt id reason)
  unfolding mark_review_required
  mark_review_required-AllReady id reason = Triple-reads id ⟫ λ _.
      Triple-from (AllReady-ReadyBut id) (
        Triple-drops id (λ p. record p { review_status = ReviewStatus.review_required })
          (λ p. inl review_required-not_approved))
      ⟫ λ _. Triple-touch rt ⟫ λ t.
          Triple-notes id
            (λ p. record p {
              updated_at = t;
              classification_reason = p.classification_reason ++ str reason ∷ [];
            })
            (λ p h. h)
          ⟫ λ _. Triple-mark_stale ⟫ λ _. Triple-reads id

  Triple-remove :
      (id : String)
      → Triple {F = F} AllReady AllReady
          (modify (λ p. record p { points = remove_point id p.points; exports_stale = true }))
  Triple-remove id =
      Triple-modify (λ p. record p { points = remove_point id p.points; exports_stale = true })
        (λ p. AllReady-remove_point id p.points)

  pub delete_manual_point-AllReady :
      (id : String) → Triple AllReady AllReady (delete_manual_point rt id)
  unfolding delete_manual_point
  delete_manual_point-AllReady id = Triple-reads id ⟫ λ point.
      Triple-require (is_manual point.source_method) workflow_error (λ manual.
        Triple-remove id ⟫ λ _.
        Triple-audit rt "MANUAL_POINT_DELETED" "Reviewer deleted a manual point after confirmation."
          (("point_id", str id) ∷ []))

  pub delete_cart_point-AllReady :
      (id : String) → Triple AllReady AllReady (delete_cart_point rt id)
  unfolding delete_cart_point
  delete_cart_point-AllReady id = Triple-reads id ⟫ λ point. Triple-remove id ⟫ λ _.
      Triple-audit rt "CART_POINT_DELETED" "Reviewer deleted a Point Cart row after confirmation." (
        ("point_id", str id)
        ∷ ("point_number", str (if str_eq point.point_number "" then id else point.point_number))
        ∷ ("prior_status", str (status_name point.review_status))
        ∷ [])
