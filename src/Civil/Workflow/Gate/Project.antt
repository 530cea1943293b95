-- ===== src/Civil/Workflow/Gate/Project.antt =====
-- workflow.py: the crop, range, calibration, new points, and the approved points.
use screen2xyz_civil_plan_di.Prelude.{
  ◌≡◌, ◌∙◌, refl, Option, none, some, Bool, true, false, String, List, [], ◌∷◌, All-append, str_eq,
  Bool-cases, inl, inr, ◌&&◌, not, map, arith,
}
use screen2xyz_civil_plan_di.Prelude.Int.{ℤ}
use screen2xyz_civil_plan_di.Civil.Vocabulary.{ReviewStatus, PointType, is_approved, is_terrain}
use screen2xyz_civil_plan_di.Civil.Json.{str, int, float, bool}
use screen2xyz_civil_plan_di.Civil.Model.{
  CivilPoint, PixelPoint, CropRegion, Calibration, approved, ensure, point_valid, calibration_valid,
  mem_id, passed,
}
use screen2xyz_civil_plan_di.Civil.Model.Encode.{crop_to_dict}
use screen2xyz_civil_plan_di.Civil.Ids.{next_point_id}
use screen2xyz_civil_plan_di.Civil.Transform.{Survey, build_calibration, verify_scale}
use screen2xyz_civil_plan_di.Civil.Workflow.{
  audit, pure, ◌>>◌, in_crop, manifest_text, Fault, workflow_error, model_error, value_error,
  Runtime, Action, ◌>>=◌, modify, or_raise,
}
use screen2xyz_civil_plan_di.Civil.Workflow.Triple.{
  OnPoints, Triple, ◌⟫◌, Triple-pure, Triple-gets, Triple-or_raise, Triple-modify, Triple-require,
  Triple-clock, Triple-audit, Triple-validate_elevation,
}
use screen2xyz_civil_plan_di.Civil.Workflow.Setup.{
  set_crop, set_plausible_elevation_range, relocate, apply_calibration, verify_current_scale,
  manifest_size, fits, next_revision, kept_history, check_values,
}
use screen2xyz_civil_plan_di.Civil.Workflow.Points.{
  located, manual_point, append_point, add_manual_point, numbered, add_candidate,
}
use screen2xyz_civil_plan_di.Civil.Workflow.Gate.{IsReady, AllReady}

module _ {F A B : Type 0} {K L : OnPoints F} where
  -- The rest of the block may use what was checked.
  pub Triple-ensure :
      (b : Bool) (e : Fault) (a : A) (f : A → Action F B)
      → Triple K L (f a)
      → Triple K L (or_raise e (ensure b a) >>= f)
  Triple-ensure true e a f t = record { at = λ d k. t.at d k }
  Triple-ensure false e a f t = record { at = λ d k. tt }

not-true : (b : Bool) → not b ≡ true → b ≡ false
not-true b h = ground arith

pub unreviewed-not_approved : is_approved ReviewStatus.unreviewed ≡ false
unfolding is_approved
unreviewed-not_approved = refl

module _ (rt : Runtime) where
  open rt use {fl, format}
  open fl use {F, literal, le, is_finite, lt}

  pub approved-located :
      (c : Option (Calibration F)) (pixel : PixelPoint F) (p : CivilPoint F)
      → approved (located rt c pixel p) ≡ approved p
  approved-located none pixel p = refl
  approved-located (some c) pixel p = refl

  approved-numbered : (p : CivilPoint F) → approved (numbered rt p) ≡ approved p
  approved-numbered p = elim (Bool-cases (str_eq p.point_number "")) [
    | inl e ↦ rw e refl
    | inr e ↦ rw e refl
  ]

  append_point-AllReady :
      (q : CivilPoint F)
      → approved q ≡ false
      → Triple AllReady AllReady (modify (append_point rt q))
  unfolding append_point
  append_point-AllReady q h =
      Triple-modify (append_point rt q)
        (λ p ps. All-append IsReady p.points (q ∷ []) ps (inl h, tt))

  pub add_manual_point-AllReady :
      (pixel : PixelPoint F) (elevation : F) (type : PointType) (page_index : ℤ) (label : String)
      → Triple AllReady AllReady (add_manual_point rt pixel elevation type page_index label)
  unfolding add_manual_point
  add_manual_point-AllReady pixel elevation type page_index label =
      Triple-require (is_terrain type) workflow_error (λ terrain.
        Triple-validate_elevation rt elevation ⟫ λ _. Triple-gets (λ p. p.crop) ⟫ λ crop.
        Triple-require (in_crop rt crop pixel) workflow_error (λ inside.
          Triple-gets (λ p. next_point_id p.points) ⟫ λ id. Triple-clock rt ⟫ λ t.
          Triple-gets (manifest_text rt "display_name") ⟫ λ file.
          Triple-gets (manifest_text rt "sha256") ⟫ λ sha. Triple-gets (λ p. p) ⟫ λ project.
          let q = manual_point rt project id file sha pixel elevation type page_index label t in
          Triple-ensure (point_valid fl q) model_error q
            (λ x.
              modify (append_point rt x)
              >> (audit rt "POINT_ADDED" "Manual point added; explicit review is still required."
                    (("point_id", str id) ∷ [])
                  >> pure x))
            (append_point-AllReady q (
                approved-located project.calibration pixel (
                  manual_point rt (record project { calibration = none }) id file sha pixel
                    elevation type page_index label t)
                ∙ unreviewed-not_approved)
              ⟫ λ _.
                  Triple-audit rt "POINT_ADDED"
                    "Manual point added; explicit review is still required."
                    (("point_id", str id) ∷ [])
                  ⟫ λ _. Triple-pure q)))

  pub add_candidate-AllReady :
      (point : CivilPoint F) → Triple AllReady AllReady (add_candidate rt point)
  unfolding add_candidate
  add_candidate-AllReady point = Triple-gets (λ p. p.points) ⟫ λ ps.
      Triple-require (not (mem_id point.id ps)) workflow_error (λ new.
        Triple-require (not (approved point)) workflow_error (λ open_point.
          Triple-gets (λ p. p.crop) ⟫ λ crop.
          let pixel : PixelPoint F = record { x = point.pixel_x; y = point.pixel_y } in
          Triple-require (in_crop rt crop pixel) workflow_error (λ inside.
            Triple-gets (λ p. p.calibration) ⟫ λ c.
            let q = numbered rt (located rt c pixel point) in
            append_point-AllReady q (
              approved-numbered (located rt c pixel point)
              ∙ approved-located c pixel point
              ∙ not-true (approved point) open_point)
            ⟫ λ _.
                Triple-audit rt "CANDIDATE_ADDED" "Extracted candidate added for review."
                  (("point_id", str q.id) ∷ [])
                ⟫ λ _. Triple-pure q)))

  pub set_crop-AllReady : (crop : CropRegion F) → Triple AllReady AllReady (set_crop rt crop)
  unfolding set_crop
  set_crop-AllReady crop = Triple-gets (manifest_size rt "width_px") ⟫ λ width.
      Triple-or_raise value_error width ⟫ λ w.
      Triple-gets (manifest_size rt "height_px") ⟫ λ height.
      Triple-or_raise value_error height ⟫ λ h.
      Triple-require (fits rt w crop.x crop.width) workflow_error (λ wide.
        Triple-require (fits rt h crop.y crop.height) workflow_error (λ high.
          Triple-modify (λ p. record p { crop = some crop; exports_stale = true }) (λ p ps. ps)
          ⟫ λ _.
              Triple-audit rt "CROP_SET" "Working crop selected."
                (("crop", crop_to_dict crop) ∷ [])))

  pub set_range-AllReady :
      (low high : F) → Triple AllReady AllReady (set_plausible_elevation_range rt low high)
  unfolding set_plausible_elevation_range
  set_range-AllReady low high =
      Triple-require (is_finite low && is_finite high) workflow_error (λ finite.
        Triple-require (not (le high low)) workflow_error (λ ordered.
          Triple-modify
            (λ p. record p {
              plausible_elevation_min = low;
              plausible_elevation_max = high;
              exports_stale = true;
            })
            (λ p ps. ps)
          ⟫ λ _.
              Triple-audit rt "PLAUSIBLE_ELEVATION_RANGE_SET"
                (format "Project elevation screening range set to {:g} through {:g} metres."
                  (float low ∷ float high ∷ []))
                (("minimum", float low) ∷ ("maximum", float high) ∷ [])))

  IsReady-relocate :
      (c : Calibration F) (t : String) (p : CivilPoint F) → IsReady p → IsReady (relocate rt c t p)
  unfolding relocate
  IsReady-relocate c t p (inl h) = inl h
  IsReady-relocate c t p (inr h) = inr (h.0, refl, refl)

  All-relocate :
      (c : Calibration F) (t : String) (ps : List (CivilPoint F))
      → AllReady ps
      → AllReady (map (relocate rt c t) ps)
  All-relocate c t [] h = tt
  All-relocate c t (p ∷ ps) h = (IsReady-relocate c t p h.0, All-relocate c t ps h.1)

  pub apply_calibration-AllReady :
      (s : Survey fl) → Triple AllReady AllReady (apply_calibration rt s)
  unfolding apply_calibration
  apply_calibration-AllReady s = Triple-clock rt ⟫ λ t. Triple-gets (λ p. p.calibration) ⟫ λ old.
      Triple-or_raise model_error (build_calibration fl (next_revision rt old) t s (literal "1.0"))
      ⟫ λ c.
          Triple-modify (λ p. record p { calibration_history = kept_history rt p }) (λ p ps. ps)
          ⟫ λ _.
              Triple-modify
                (λ p. record p {
                  calibration = some c;
                  points = map (relocate rt c t) p.points;
                  exports_stale = true;
                })
                (λ p. All-relocate c t p.points)
              ⟫ λ _.
                  Triple-audit rt "CALIBRATION_APPLIED"
                    (format "Calibration revision {} applied; derived coordinates recomputed."
                      (int c.revision ∷ check_values rt c.scale_check))
                    (("revision", int c.revision) ∷ ("exports_stale", bool true) ∷ [])
                  ⟫ λ _. Triple-pure c

  pub verify_current_scale-AllReady :
      (p q : PixelPoint F) (known : F)
      → Triple AllReady AllReady (verify_current_scale rt p q known)
  unfolding verify_current_scale
  verify_current_scale-AllReady p q known = Triple-gets (λ r. r.calibration) ⟫ λ old.
      Triple-or_raise workflow_error old ⟫ λ c.
      Triple-or_raise model_error (verify_scale fl p q known c.metres_per_pixel (literal "1.0"))
      ⟫ λ check.
          let c' : Calibration F = record c { scale_check = some check } in
          Triple-or_raise model_error (ensure (calibration_valid fl c') c') ⟫ λ new.
          Triple-modify (λ r. record r { calibration = some new; exports_stale = true })
            (λ r ps. ps)
          ⟫ λ _.
              Triple-audit rt "SCALE_CHECK_RECORDED"
                (format "Second-distance verification {} at {:.3f}% error."
                  (bool (passed fl check) ∷ float check.error_percent ∷ []))
                (("error_percent", float check.error_percent)
                  ∷ ("passed", bool (passed fl check))
                  ∷ [])
              ⟫ λ _. Triple-pure check
