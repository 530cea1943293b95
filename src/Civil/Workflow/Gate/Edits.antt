-- ===== src/Civil/Workflow/Gate/Edits.antt =====
-- workflow.py: `edit_point`, and the approved points.
use screen2xyz_civil_plan_di.Prelude.{
  ◌≡◌, refl, Option, none, some, String, [], ◌∷◌, ◌++◌, str_eq, inl, ◌&&◌, not, any,
}
use screen2xyz_civil_plan_di.Civil.Vocabulary.{ReviewStatus, type_parse, description_by_type}
use screen2xyz_civil_plan_di.Prelude.Texts.{strip}
use screen2xyz_civil_plan_di.Civil.Json.{str, dict}
use screen2xyz_civil_plan_di.Civil.Model.{CivilPoint, PixelPoint, Calibration}
use screen2xyz_civil_plan_di.Civil.Workflow.{in_crop, workflow_error, Runtime, write_point}
use screen2xyz_civil_plan_di.Civil.Workflow.Triple.{
  Triple, ◌⟫◌, Triple-gets, Triple-or_raise, Triple-given, Triple-require, Triple-touch, Triple-log,
  Triple-validate_elevation,
}
use screen2xyz_civil_plan_di.Civil.Workflow.Points.{
  Edit, edit_elevation, edit_type, edit_pixel, edit_number, edit_point, edit_entry, located,
}
use screen2xyz_civil_plan_di.Civil.Workflow.Gate.{AllReady, ReadyBut, AllReady-ReadyBut}
use screen2xyz_civil_plan_di.Civil.Workflow.Gate.Writes.{
  Triple-from, Triple-reads, Triple-notes, Triple-drops, Triple-edits, Triple-mark_stale,
  review_required-not_approved,
}

module _ (rt : Runtime) where
  open rt use {fl}
  open fl use {F}

  edit_elevation-ReadyBut :
      (id : String) (e : F) → Triple (ReadyBut id) (ReadyBut id) (edit_elevation rt id e)
  unfolding edit_elevation
  edit_elevation-ReadyBut id e = Triple-validate_elevation rt e ⟫ λ _.
      Triple-edits id (λ p. record p { elevation = e }) (λ p. refl)

  edit_type-ReadyBut :
      (id text : String) → Triple (ReadyBut id) (ReadyBut id) (edit_type rt id text)
  unfolding edit_type
  edit_type-ReadyBut id text = Triple-or_raise workflow_error (type_parse text) ⟫ λ type.
      Triple-edits id
        (λ p. record p { point_type = type; description = description_by_type type p.description })
        (λ p. refl)

  located-id :
      (c : Option (Calibration F)) (pixel : PixelPoint F) (p : CivilPoint F)
      → (located rt c pixel p).id ≡ p.id
  located-id none pixel p = refl
  located-id (some c) pixel p = refl

  edit_pixel-ReadyBut :
      (id : String) (pixel : PixelPoint F)
      → Triple (ReadyBut id) (ReadyBut id) (edit_pixel rt id pixel)
  unfolding edit_pixel
  edit_pixel-ReadyBut id pixel = Triple-gets (λ p. p.crop) ⟫ λ crop.
      Triple-require (in_crop rt crop pixel) workflow_error (λ inside.
        Triple-gets (λ p. p.calibration) ⟫ λ c.
        Triple-edits id
          (λ p. located rt c pixel (record p { pixel_x = pixel.x; pixel_y = pixel.y }))
          (λ p. located-id c pixel (record p { pixel_x = pixel.x; pixel_y = pixel.y })))

  edit_number-ReadyBut :
      (id text : String) → Triple (ReadyBut id) (ReadyBut id) (edit_number rt id text)
  unfolding edit_number
  edit_number-ReadyBut id text =
      Triple-require (not (str_eq (strip text) "")) workflow_error (λ nonempty.
        Triple-gets (λ p. p.points) ⟫ λ ps.
        Triple-require
          (not (any (λ q. not (str_eq q.id id) && str_eq q.point_number (strip text)) ps))
          workflow_error
          (λ unused. Triple-edits id (λ p. record p { point_number = strip text }) (λ p. refl)))

  pub edit_point-AllReady :
      (id : String) (edit : Edit F) → Triple AllReady AllReady (edit_point rt id edit)
  unfolding edit_point
  edit_point-AllReady id edit = Triple-reads id ⟫ λ before.
      Triple-from (AllReady-ReadyBut id)
        (Triple-given edit.elevation (edit_elevation rt id) (edit_elevation-ReadyBut id))
      ⟫ λ _. Triple-given edit.point_type (edit_type rt id) (edit_type-ReadyBut id) ⟫ λ _.
          Triple-given edit.pixel (edit_pixel rt id) (edit_pixel-ReadyBut id) ⟫ λ _.
          Triple-given edit.point_number (edit_number rt id) (edit_number-ReadyBut id) ⟫ λ _.
          Triple-given edit.description
            (λ s. write_point id (λ p. record p { description = strip s }))
            (λ s. Triple-edits id (λ p. record p { description = strip s }) (λ p. refl))
          ⟫ λ _.
              Triple-given edit.sheet (λ s. write_point id (λ p. record p { sheet = strip s }))
                (λ s. Triple-edits id (λ p. record p { sheet = strip s }) (λ p. refl))
              ⟫ λ _.
                  Triple-given edit.revision_label
                    (λ s. write_point id (λ p. record p { revision_label = strip s }))
                    (λ s. Triple-edits id (λ p. record p { revision_label = strip s }) (λ p. refl))
                  ⟫ λ _.
                      Triple-given edit.notes
                        (λ s. write_point id (λ p. record p { notes = strip s }))
                        (λ s. Triple-edits id (λ p. record p { notes = strip s }) (λ p. refl))
                      ⟫ λ _.
                          Triple-drops id
                            (λ p. record p { review_status = ReviewStatus.review_required })
                            (λ p. inl review_required-not_approved)
                          ⟫ λ _. Triple-touch rt ⟫ λ t.
                              Triple-notes id
                                (λ p. record p {
                                  updated_at = t;
                                  user_edits = p.user_edits ++ edit_entry rt t before p ∷ [];
                                })
                                (λ p h. h)
                              ⟫ λ _. Triple-mark_stale ⟫ λ _.
                                  Triple-log rt (
                                    dict (
                                      ("at", str t)
                                      ∷ ("action", str "POINT_EDITED")
                                      ∷ ("detail", str "Point edited and returned to review.")
                                      ∷ ("point_id", str id)
                                      ∷ []))
                                  ⟫ λ _. Triple-reads id
