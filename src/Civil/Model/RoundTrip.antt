-- ===== src/Civil/Model/RoundTrip.antt =====
-- civil/models.py: `from_dict` after `to_dict`.
use screen2xyz_civil_plan_di.Prelude.{
  String, ◌≡◌, refl, ap, Option, none, some, List, [], ◌∷◌, map, true, All, All-map,
}
use screen2xyz_civil_plan_di.Prelude.Floats.{Floats}
use screen2xyz_civil_plan_di.Civil.Vocabulary.{
  type_parse-type_name, status_parse-status_name, method_parse-method_name,
  symbol_parse-symbol_name,
}
use screen2xyz_civil_plan_di.Civil.Json.{
  Value, item, get, optional, or_null, as_list, as_dict, as_str, as_float, as_int, each, items,
  truthy,
}
use screen2xyz_civil_plan_di.Civil.Json.Laws.{
  list_of-items, each-items, optional-float, optional-int,
}
use screen2xyz_civil_plan_di.Civil.Model.{
  PixelPoint, CropRegion, ScaleCheck, Calibration, CivilPoint, CivilElevationLine, CivilProject,
  OnSome, IsLoadable, ensure, crop_valid, calibration_valid, point_valid, line_valid,
}
use screen2xyz_civil_plan_di.Civil.Model.Encode.{
  pixel_to_dict, crop_to_dict, polygon_to_dict, point_to_dict, line_to_dict, check_to_dict,
  calibration_to_dict, project_to_dict,
}
use screen2xyz_civil_plan_di.Civil.Model.Decode.{
  pixel_from_dict, crop_from_dict, polygon_from_dict, point_from_dict, line_from_dict,
  check_from_dict, calibration_from_dict, project_from_dict, or_empty,
}

ruleset vocabulary_laws = (
  type_parse-type_name, status_parse-status_name, method_parse-method_name,
  symbol_parse-symbol_name,
)

module _ (fl : Floats) (repr : Value fl.F → String) where
  open fl use {F}

  pixel_round : (p : PixelPoint F) → pixel_from_dict fl repr (pixel_to_dict p) ≡ some p
  unfolding pixel_from_dict pixel_to_dict item as_float
  pixel_round p = refl

  pixels_round :
      (ps : List (PixelPoint F))
      → each (pixel_from_dict fl repr) (items (map pixel_to_dict ps)) ≡ some ps
  unfolding each
  pixels_round [] = refl
  pixels_round (p ∷ ps) = simp (pixel_round p, pixels_round ps)

  polygon_round :
      (ps : List (PixelPoint F)) → polygon_from_dict fl repr (polygon_to_dict ps) ≡ some ps
  unfolding polygon_from_dict polygon_to_dict as_list
  polygon_round ps = pixels_round ps

  polygons_round :
      (ps : List (List (PixelPoint F)))
      → each (polygon_from_dict fl repr) (items (map polygon_to_dict ps)) ≡ some ps
  unfolding each
  polygons_round [] = refl
  polygons_round (p ∷ ps) = simp (polygon_round p, polygons_round ps)

  crop_round :
      (c : CropRegion F) → crop_valid fl c ≡ true → crop_from_dict fl repr (crop_to_dict c) ≡ some c
  unfolding crop_from_dict crop_to_dict item as_float
  crop_round c h = ap (λ b. ensure b c) h

  check_round : (c : ScaleCheck F) → check_from_dict fl repr (check_to_dict fl c) ≡ some c
  unfolding check_from_dict check_to_dict pixel_to_dict item get as_float
  check_round c = refl

  optional_check_round :
      (o : Option (ScaleCheck F))
      → optional (check_from_dict fl repr) (or_null (check_to_dict fl) o) ≡ some o
  unfolding optional or_null check_from_dict check_to_dict pixel_to_dict item get as_float
  optional_check_round none = refl
  optional_check_round (some c) = refl

  calibration_round :
      (c : Calibration F)
      → calibration_valid fl c ≡ true
      → calibration_from_dict fl repr (calibration_to_dict fl c) ≡ some c
  unfolding calibration_from_dict calibration_to_dict pixel_to_dict item get as_float as_int as_str
  calibration_round c h = simp optional_check_round (ap (λ b. ensure b c) h)

  point_round :
      (p : CivilPoint F)
      → point_valid fl p ≡ true
      → point_from_dict fl repr (point_to_dict p) ≡ some p
  unfolding point_from_dict point_to_dict item get as_float as_int as_str as_list as_dict
  point_round p h =
      simp (vocabulary_laws, optional-float, optional-int, list_of-items) (ap (λ b. ensure b p) h)

  line_round :
      (l : CivilElevationLine F)
      → line_valid fl l ≡ true
      → line_from_dict fl repr (line_to_dict l) ≡ some l
  unfolding line_from_dict line_to_dict item get as_float as_str as_list
  line_round l h = simp (vocabulary_laws, pixels_round) (ap (λ b. ensure b l) h)

  optional_crop_round :
      (o : Option (CropRegion F))
      → OnSome (λ c. crop_valid fl c ≡ true) o
      → optional (crop_from_dict fl repr) (or_null crop_to_dict o) ≡ some o
  unfolding optional or_null crop_to_dict
  optional_crop_round none h = refl
  optional_crop_round (some c) h = rw (crop_round c h)

  optional_calibration_round :
      (o : Option (Calibration F))
      → OnSome (λ c. calibration_valid fl c ≡ true) o
      → optional (calibration_from_dict fl repr) (or_null (calibration_to_dict fl) o) ≡ some o
  unfolding optional or_null calibration_to_dict
  optional_calibration_round none h = refl
  optional_calibration_round (some c) h = rw (calibration_round c h)

  points_round :
      (ps : List (CivilPoint F))
      → All (λ q. point_valid fl q ≡ true) ps
      → each (point_from_dict fl repr) (items (map point_to_dict ps)) ≡ some ps
  points_round ps h =
      each-items (point_from_dict fl repr) point_to_dict ps (All-map point_round ps h)

  lines_round :
      (ls : List (CivilElevationLine F))
      → All (λ l. line_valid fl l ≡ true) ls
      → each (line_from_dict fl repr) (items (map line_to_dict ls)) ≡ some ls
  lines_round ls h = each-items (line_from_dict fl repr) line_to_dict ls (All-map line_round ls h)

  histories_round :
      (cs : List (Calibration F))
      → All (λ c. calibration_valid fl c ≡ true) cs
      → each (calibration_from_dict fl repr) (items (map (calibration_to_dict fl) cs)) ≡ some cs
  histories_round cs h =
      each-items (calibration_from_dict fl repr) (calibration_to_dict fl) cs
        (All-map calibration_round cs h)

  -- A project that passes `__post_init__` with all its parts is read back by `from_dict` from its
  -- `to_dict` exactly as it was, decision log, calibration history and reviewed geometry included.
  pub project_round :
      (p : CivilProject F)
      → IsLoadable fl p
      → project_from_dict fl repr (project_to_dict fl p) ≡ some p
  unfolding project_from_dict project_to_dict item get as_float as_str as_list as_dict truthy
      or_empty
  project_round p h =
      simp
        (
          optional_crop_round p.crop h.crop,
          optional_calibration_round p.calibration h.calibration,
          histories_round p.calibration_history h.history,
          points_round p.points h.points,
          lines_round p.elevation_lines h.lines,
          polygons_round,
          list_of-items,
        )
        (ap (λ b. ensure b p) h.project)
