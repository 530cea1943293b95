-- ===== src/Civil/Workflow/Setup.antt =====
-- workflow.py: crop, plausible range, calibration and its second distance.
use screen2xyz_civil_plan_di.Prelude.{
  String, Option, none, some, Bool, true, not, ◌&&◌, ◌||◌, List, [], ◌∷◌, ◌++◌, map, if◌then◌else◌,
}
use screen2xyz_civil_plan_di.Prelude.Int.{ℤ, pos, suc_ℤ}
use screen2xyz_civil_plan_di.Civil.Json.{Value, bool, int, float, lookup, or_value, as_float}
use screen2xyz_civil_plan_di.Civil.Model.{
  PixelPoint, CropRegion, ScaleCheck, Calibration, CivilPoint, CivilProject, passed, ensure,
  calibration_valid,
}
use screen2xyz_civil_plan_di.Civil.Model.Encode.{crop_to_dict}
use screen2xyz_civil_plan_di.Civil.Transform.{Survey, build_calibration, verify_scale, to_local}
use screen2xyz_civil_plan_di.Civil.Workflow.{
  workflow_error, model_error, value_error, Runtime, Action, pure, gets, or_raise, require, modify,
  ◌>>=◌, ◌>>◌, clock, audit,
}

module _ (rt : Runtime) where
  open rt use {fl, format}
  open fl use {F, of_nat, literal, add, lt, le, eq, is_finite}

  -- `float(self.project.source_manifest.get(key, 0))`
  unfoldable pub manifest_size : String → CivilProject F → Option F
  manifest_size key p = as_float fl (or_value (lookup key p.source_manifest) (int (pos 0)))

  -- `size and start + extent > size`, negated
  abbrev pub fits : F → F → F → Bool
  fits size start extent = eq size (of_nat 0) || not (lt size (add start extent))

  unfoldable pub set_crop : CropRegion F → Action F (Unit {0})
  set_crop crop = do
    width ← gets (manifest_size "width_px")
    w ← or_raise value_error width
    height ← gets (manifest_size "height_px")
    h ← or_raise value_error height
    require (fits w crop.x crop.width) workflow_error
    require (fits h crop.y crop.height) workflow_error
    modify (λ p. record p { crop = some crop; exports_stale = true })
    audit rt "CROP_SET" "Working crop selected." (("crop", crop_to_dict crop) ∷ [])

  unfoldable pub set_plausible_elevation_range : F → F → Action F (Unit {0})
  set_plausible_elevation_range low high = do
    require (is_finite low && is_finite high) workflow_error
    require (not (le high low)) workflow_error
    modify (λ p. record p {
      plausible_elevation_min = low;
      plausible_elevation_max = high;
      exports_stale = true;
    })
    audit rt "PLAUSIBLE_ELEVATION_RANGE_SET"
        (format "Project elevation screening range set to {:g} through {:g} metres."
          (float low ∷ float high ∷ []))
        (("minimum", float low) ∷ ("maximum", float high) ∷ [])

  abbrev pub next_revision : Option (Calibration F) → ℤ
  next_revision none = pos 1
  next_revision (some c) = suc_ℤ c.revision

  abbrev pub kept_history : CivilProject F → List (Calibration F)
  kept_history p = elim p.calibration [
    | none ↦ p.calibration_history
    | some c ↦ p.calibration_history ++ c ∷ []
  ]

  -- The loop over the points.
  unfoldable pub relocate : Calibration F → String → CivilPoint F → CivilPoint F
  relocate c t p =
      let (east, north) = to_local fl (record { x = p.pixel_x; y = p.pixel_y }) c in
      record p {
        local_east = some east;
        local_north = some north;
        calibration_revision = some c.revision;
        updated_at = t;
      }

  -- The second sentence of the detail, where the second distance does not pass.
  abbrev pub check_values : Option (ScaleCheck F) → List (Value F)
  check_values none = []
  check_values (some c) = if passed fl c then [] else float c.error_percent ∷ []

  unfoldable pub apply_calibration : Survey fl → Action F (Calibration F)
  unfolding relocate
  apply_calibration s = do
    t ← clock rt
    old ← gets (λ p. p.calibration)
    c ← or_raise model_error (build_calibration fl (next_revision old) t s (literal "1.0"))
    modify (λ p. record p { calibration_history = kept_history p })
    modify (λ p. record p {
      calibration = some c;
      points = map (relocate c t) p.points;
      exports_stale = true;
    })
    audit rt "CALIBRATION_APPLIED"
        (format "Calibration revision {} applied; derived coordinates recomputed."
          (int c.revision ∷ check_values c.scale_check))
        (("revision", int c.revision) ∷ ("exports_stale", bool true) ∷ [])
    pure c

  unfoldable pub verify_current_scale : PixelPoint F → PixelPoint F → F → Action F (ScaleCheck F)
  verify_current_scale p q known = do
    old ← gets (λ r. r.calibration)
    c ← or_raise workflow_error old
    check ← or_raise model_error (verify_scale fl p q known c.metres_per_pixel (literal "1.0"))
    let c' : Calibration F = record c { scale_check = some check }
    new ← or_raise model_error (ensure (calibration_valid fl c') c')
    modify (λ r. record r { calibration = some new; exports_stale = true })
    audit rt "SCALE_CHECK_RECORDED"
        (format "Second-distance verification {} at {:.3f}% error."
          (bool (passed fl check) ∷ float check.error_percent ∷ []))
        (("error_percent", float check.error_percent) ∷ ("passed", bool (passed fl check)) ∷ [])
    pure check
