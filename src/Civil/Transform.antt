-- ===== src/Civil/Transform.antt =====
-- src/screen2xyz_civil/transform.py: pixels to local East and North. `none` is the raise of
-- `CivilModelError`.
use screen2xyz_civil_plan_di.Prelude.{String, Option, none, some, not, ◌||◌, if◌then◌else◌}
use screen2xyz_civil_plan_di.Prelude.Int.{ℤ}
use screen2xyz_civil_plan_di.Prelude.Floats.{Floats}
use screen2xyz_civil_plan_di.Civil.Json.{◌>>=◌}
use screen2xyz_civil_plan_di.Civil.Model.{
  PixelPoint, ScaleCheck, Calibration, ensure, calibration_valid,
}

module _ (fl : Floats) where
  open fl use {F, of_nat, literal, add, sub, mul, div, abs, neg, hypot, lt, le, is_finite}

  unfoldable pub pixel_distance : PixelPoint F → PixelPoint F → F
  pixel_distance p q = hypot (sub q.x p.x) (sub q.y p.y)

  unfoldable pub metres_per_pixel : PixelPoint F → PixelPoint F → F → Option F
  unfolding pixel_distance
  metres_per_pixel p q known =
      if le known (of_nat 0) || not (is_finite known)
      then none
      else if le (pixel_distance p q) (of_nat 0)
      then none
      else some (div known (pixel_distance p q))

  unfoldable pub east_basis : PixelPoint F → PixelPoint F → Option (F × F)
  east_basis origin east =
      let dx = sub east.x origin.x in
      let dy = sub origin.y east.y in
      let length = hypot dx dy in
      if le length (of_nat 0) then none else some (div dx length, div dy length)

  unfoldable pub verify_scale : PixelPoint F → PixelPoint F → F → F → F → Option (ScaleCheck F)
  unfolding pixel_distance
  verify_scale p q known scale threshold =
      let measured = mul (pixel_distance p q) scale in
      if le known (of_nat 0)
      then none
      else if lt threshold (of_nat 0)
      then none
      else some (record {
        point_1 = p;
        point_2 = q;
        known_distance_m = known;
        measured_distance_m = measured;
        error_percent = mul (div (abs (sub measured known)) known) (of_nat 100);
        warning_threshold_percent = threshold;
      })

  -- The second distance of `build_calibration`: all three values are given, or none is.
  unfoldable pub second_check :
      Option (PixelPoint F)
      → Option (PixelPoint F)
      → Option F
      → F
      → F
      → Option (Option (ScaleCheck F))
  unfolding verify_scale
  second_check none none none scale threshold = some none
  second_check (some p) (some q) (some known) scale threshold = do
    check ← verify_scale p q known scale threshold
    some (some check)
  second_check _ _ _ scale threshold = none

  -- The arguments of `build_calibration` and of the workflow's `apply_calibration`.
  pub record Survey : Type 0 where
    pub scale_point_1 : PixelPoint F
    pub scale_point_2 : PixelPoint F
    pub known_distance_m : F
    pub origin_pixel : PixelPoint F
    pub east_reference : PixelPoint F
    pub origin_east_m : F
    pub origin_north_m : F
    pub check_point_1 : Option (PixelPoint F)
    pub check_point_2 : Option (PixelPoint F)
    pub check_known_distance_m : Option F

  -- `Calibration(…)` ends in `__post_init__`.
  unfoldable pub build_calibration : ℤ → String → Survey → F → Option (Calibration F)
  build_calibration revision created_at s threshold = do
    scale ← metres_per_pixel s.scale_point_1 s.scale_point_2 s.known_distance_m
    (east_x, east_y) ← east_basis s.origin_pixel s.east_reference
    check ← second_check s.check_point_1 s.check_point_2 s.check_known_distance_m scale threshold
    let c : Calibration F = record {
      revision = revision;
      created_at = created_at;
      scale_point_1 = s.scale_point_1;
      scale_point_2 = s.scale_point_2;
      known_distance_m = s.known_distance_m;
      metres_per_pixel = scale;
      origin_pixel = s.origin_pixel;
      east_unit_x = east_x;
      east_unit_y = east_y;
      origin_east_m = s.origin_east_m;
      origin_north_m = s.origin_north_m;
      source_units = "metres";
      scale_check = check;
    }
    ensure (calibration_valid fl c) c

  -- `north_unit_x` and `north_unit_y` of a calibration
  abbrev pub north_unit_x : Calibration F → F
  north_unit_x c = neg c.east_unit_y

  abbrev pub north_unit_y : Calibration F → F
  north_unit_y c = c.east_unit_x

  unfoldable pub to_local : PixelPoint F → Calibration F → F × F
  to_local p c =
      let dx = sub p.x c.origin_pixel.x in
      let dy = sub c.origin_pixel.y p.y in
      let east = add (mul dx c.east_unit_x) (mul dy c.east_unit_y) in
      let north = add (mul dx (north_unit_x c)) (mul dy (north_unit_y c)) in
      (
        add c.origin_east_m (mul east c.metres_per_pixel),
        add c.origin_north_m (mul north c.metres_per_pixel),
      )

  unfoldable pub to_pixel : F → F → Calibration F → PixelPoint F
  to_pixel east_m north_m c =
      let east = div (sub east_m c.origin_east_m) c.metres_per_pixel in
      let north = div (sub north_m c.origin_north_m) c.metres_per_pixel in
      let dx = add (mul east c.east_unit_x) (mul north (north_unit_x c)) in
      let dy = add (mul east c.east_unit_y) (mul north (north_unit_y c)) in
      record { x = add c.origin_pixel.x dx; y = sub c.origin_pixel.y dy }
