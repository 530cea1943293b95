-- ===== src/Civil/Model.antt =====
-- src/screen2xyz_civil/models.py: the records of a project, each with its `__post_init__` as a test,
-- `none` for the raise of `CivilModelError`. A dictionary of any values is its items, `Any | None`
-- is a value, and texts that `__post_init__` holds to a closed vocabulary are its members.
pub mod Encode
pub mod Decode
pub mod RoundTrip
use screen2xyz_civil_plan_di.Prelude.{
  String, Option, none, some, Bool, true, false, not, ◌&&◌, ◌||◌, List, [], ◌∷◌, str_eq, ltb,
  length, any, All, ◌≡◌,
}
use text.Mathlib.Text.{starts_with}
use screen2xyz_civil_plan_di.Prelude.Int.{ℤ, is_negative, is_positive}
use screen2xyz_civil_plan_di.Prelude.Texts.{strip}
use screen2xyz_civil_plan_di.Prelude.Floats.{Floats}
use screen2xyz_civil_plan_di.Civil.Vocabulary.{
  PointType, ReviewStatus, SourceMethod, SymbolType, is_terrain, is_approved,
}
use screen2xyz_civil_plan_di.Civil.Json.{Value, Fields}

pub record PixelPoint (F : Type 0) : Type 0 where
  pub x : F
  pub y : F

pub record CropRegion (F : Type 0) : Type 0 where
  pub x : F
  pub y : F
  pub width : F
  pub height : F

pub record ScaleCheck (F : Type 0) : Type 0 where
  pub point_1 : PixelPoint F
  pub point_2 : PixelPoint F
  pub known_distance_m : F
  pub measured_distance_m : F
  pub error_percent : F
  pub warning_threshold_percent : F

pub record Calibration (F : Type 0) : Type 0 where
  pub revision : ℤ
  pub created_at : String
  pub scale_point_1 : PixelPoint F
  pub scale_point_2 : PixelPoint F
  pub known_distance_m : F
  pub metres_per_pixel : F
  pub origin_pixel : PixelPoint F
  pub east_unit_x : F
  pub east_unit_y : F
  pub origin_east_m : F
  pub origin_north_m : F
  pub source_units : String
  pub scale_check : Option (ScaleCheck F)

pub record CivilPoint (F : Type 0) : Type 0 where
  pub id : String
  pub page_index : ℤ
  pub page_label : String
  pub source_file : String
  pub source_sha256 : String
  pub pixel_x : F
  pub pixel_y : F
  pub elevation : F
  pub point_type : PointType
  pub symbol_type : SymbolType
  pub source_method : SourceMethod
  pub review_status : ReviewStatus
  pub created_at : String
  pub updated_at : String
  pub local_east : Option F
  pub local_north : Option F
  pub pdf_x : Option F
  pub pdf_y : Option F
  pub detected_text : String
  pub normalized_text : String
  pub text_confidence : Option F
  pub symbol_confidence : Option F
  pub association_confidence : Option F
  pub classification_confidence : Option F
  pub classification_reason : List (Value F)
  pub description : String
  pub crop_reference : String
  pub text_bbox : Value F
  pub alternative_associations : List (Value F)
  pub user_edits : List (Value F)
  pub calibration_revision : Option ℤ
  pub point_number : String
  pub sheet : String
  pub revision_label : String
  pub notes : String
  pub capture_candidate_id : String
  pub capture_mode : String
  pub capture_confidence : Option F
  pub capture_audit : Fields F

pub record CivilElevationLine (F : Type 0) : Type 0 where
  pub id : String
  pub elevation : F
  pub vertices : List (PixelPoint F)
  pub source_method : SourceMethod
  pub review_status : ReviewStatus
  pub created_at : String
  pub updated_at : String
  pub description : String
  pub sheet : String
  pub revision_label : String
  pub notes : String

pub record CivilProject (F : Type 0) : Type 0 where
  pub project_id : String
  pub name : String
  pub created_at : String
  pub updated_at : String
  pub source_manifest : Fields F
  pub schema_version : String
  pub pages : List (Value F)
  pub crop : Option (CropRegion F)
  pub calibration : Option (Calibration F)
  pub calibration_history : List (Calibration F)
  pub plausible_elevation_min : F
  pub plausible_elevation_max : F
  pub points : List (CivilPoint F)
  pub elevation_lines : List (CivilElevationLine F)
  pub boundaries : List (List (PixelPoint F))
  pub exclusion_polygons : List (List (PixelPoint F))
  pub breaklines : List (List (PixelPoint F))
  pub no_cross_lines : List (List (PixelPoint F))
  pub disabled_triangles : List (Value F)
  pub qa_results : Fields F
  pub export_history : List (Value F)
  pub decision_log : List (Value F)
  pub exports_stale : Bool
  pub feature_flags : Fields F

-- `raise` where the test fails
abbrev pub ensure {ℓ} : {A : Type ℓ} → Bool → A → Option A
ensure true a = some a
ensure false a = none

module _ {F : Type 0} where
  -- `approved` and `terrain_relevant`
  abbrev pub approved : CivilPoint F → Bool
  approved p = is_approved p.review_status

  abbrev pub terrain_relevant : CivilPoint F → Bool
  terrain_relevant p = is_terrain p.point_type

  abbrev pub mem_id : String → List (CivilPoint F) → Bool
  mem_id i = any (λ p. str_eq p.id i)

  -- `len(ids) == len(set(ids))`
  unfoldable pub unique_ids : List (CivilPoint F) → Bool
  unique_ids [] = true
  unique_ids (p ∷ ps) = not (mem_id p.id ps) && unique_ids ps

abbrev pub OnSome : {A : Type 0} → (A → Type 0) → Option A → Type 0
OnSome P none = Unit
OnSome P (some a) = P a

module _ (fl : Floats) where
  open fl use {F, of_nat, literal, add, sub, abs, square, root, lt, le}

  -- `CropRegion.contains`
  unfoldable pub contains : CropRegion F → PixelPoint F → Bool
  contains c p =
      (le c.x p.x && le p.x (add c.x c.width)) && (le c.y p.y && le p.y (add c.y c.height))

  -- `ScaleCheck.passed`
  unfoldable pub passed : ScaleCheck F → Bool
  passed c = le c.error_percent c.warning_threshold_percent

  unfoldable pub crop_valid : CropRegion F → Bool
  crop_valid c =
      not (lt c.x (of_nat 0) || lt c.y (of_nat 0))
      && not (le c.width (of_nat 0) || le c.height (of_nat 0))

  unfoldable pub calibration_valid : Calibration F → Bool
  calibration_valid c =
      is_positive c.revision
      && (not (le c.metres_per_pixel (of_nat 0))
          && (not (
                lt (literal "1e-9")
                  (abs (sub (root (add (square c.east_unit_x) (square c.east_unit_y))) (of_nat 1))))
              && str_eq c.source_units "metres"))

  unfoldable pub confidence_valid : Option F → Bool
  confidence_valid none = true
  confidence_valid (some c) = le (of_nat 0) c && le c (of_nat 1)

  unfoldable pub point_valid : CivilPoint F → Bool
  unfolding confidence_valid
  point_valid p =
      (not (str_eq p.id "") && starts_with p.id "PT-")
      && (not (is_negative p.page_index)
          && (not (lt p.pixel_x (of_nat 0) || lt p.pixel_y (of_nat 0))
              && (confidence_valid p.text_confidence
                  && (confidence_valid p.symbol_confidence
                      && (confidence_valid p.association_confidence
                          && (confidence_valid p.classification_confidence
                              && confidence_valid p.capture_confidence))))))

  unfoldable pub line_valid : CivilElevationLine F → Bool
  line_valid l = starts_with l.id "CL-" && not (ltb (length l.vertices) 2)

  unfoldable pub project_valid : CivilProject F → Bool
  unfolding unique_ids strip
  project_valid p =
      (not (str_eq p.project_id "") && starts_with p.project_id "CPD-")
      && (not (str_eq (strip p.name) "")
          && (not (le p.plausible_elevation_max p.plausible_elevation_min) && unique_ids p.points))

  -- What `__post_init__` asks of a project and of every part of it.
  pub record IsLoadable (p : CivilProject F) : Type 0 where
    pub project : project_valid p ≡ true
    pub crop : OnSome (λ c. crop_valid c ≡ true) p.crop
    pub calibration : OnSome (λ c. calibration_valid c ≡ true) p.calibration
    pub history : All (λ c. calibration_valid c ≡ true) p.calibration_history
    pub points : All (λ q. point_valid q ≡ true) p.points
    pub lines : All (λ l. line_valid l ≡ true) p.elevation_lines
