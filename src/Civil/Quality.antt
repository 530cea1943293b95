-- ===== src/Civil/Quality.antt =====
-- src/screen2xyz_civil/qa.py: the findings on a project and their summary. A finding is a record; the
-- dictionary that `qa_summary` stores in `qa_results` is made of it at the end. The floats that go
-- into a detail are formatted by `format`.
pub mod Summary
pub mod Critical
pub mod Spots
pub mod Duplicates
use screen2xyz_civil_plan_di.Prelude.{
  ℕ, suc, ◌+◌, String, Option, none, some, Bool, true, false, not, ◌&&◌, ◌||◌, List, [], ◌∷◌, ◌++◌,
  map, is_none, length, ◌==◌, str_eq, if◌then◌else◌,
}
use screen2xyz_civil_plan_di.Prelude.Int.{pos}
use screen2xyz_civil_plan_di.Prelude.Floats.{Floats}
use screen2xyz_civil_plan_di.Civil.Vocabulary.{
  PointType, ReviewStatus, SourceMethod, SymbolType, is_terrain, is_approved, is_manual, type_name,
}
use screen2xyz_civil_plan_di.Civil.Json.{
  Value, Fields, obj, lookup, or_value, truthy, null, int, float, str, list, dict, record_of,
}
use screen2xyz_civil_plan_di.Civil.Model.{CivilPoint, CivilProject, approved, passed}
use screen2xyz_civil_plan_di.Civil.Workflow.{Runtime}

pub data Severity : Type 0 where
  critical error warning info : Severity

-- The codes of the findings.
pub data Code : Type 0 where
  calibration_missing scale_check_mismatch elevation_out_of_range approved_point_invalid : Code
  point_not_reviewed low_association_confidence conflicting_duplicate duplicate_candidate : Code

pub record Issue : Type 0 where
  pub severity : Severity
  pub code : Code
  pub detail : String
  pub point_ids : List String

-- An entry of `duplicate_pairs`.
pub record Pair (F : Type 0) : Type 0 where
  pub left : String
  pub right : String
  pub distance_m : F
  pub elevation_delta_m : F
  pub conflicting : Bool

-- A point with both local coordinates.
pub record Spot (F : Type 0) : Type 0 where
  pub point : CivilPoint F
  pub east : F
  pub north : F

pub record Extents (F : Type 0) : Type 0 where
  pub min_east : F
  pub max_east : F
  pub min_north : F
  pub max_north : F
  pub min_elevation : F
  pub max_elevation : F

abbrev pub count_if {ℓ} : {A : Type ℓ} → (A → Bool) → List A → ℕ
count_if p [] = 0
count_if p (x ∷ xs) = (if p x then 1 else 0) + count_if p xs

-- `==` of two point types, which are texts
abbrev pub same_type : PointType → PointType → Bool
same_type t u = str_eq (type_name t) (type_name u)

-- `review_status in {UNREVIEWED, REVIEW_REQUIRED, AUTO_HIGH_CONFIDENCE}`
unfoldable pub is_unreviewed : ReviewStatus → Bool
is_unreviewed ReviewStatus.unreviewed = true
is_unreviewed ReviewStatus.review_required = true
is_unreviewed ReviewStatus.auto_high_confidence = true
is_unreviewed _ = false

unfoldable pub is_rejected_status : ReviewStatus → Bool
is_rejected_status ReviewStatus.rejected = true
is_rejected_status _ = false

abbrev pub is_critical : Severity → Bool
is_critical critical = true
is_critical _ = false

abbrev pub is_error : Severity → Bool
is_error error = true
is_error _ = false

abbrev pub is_warning : Severity → Bool
is_warning warning = true
is_warning _ = false

abbrev pub is_info : Severity → Bool
is_info info = true
is_info _ = false

module _ {F : Type 0} where
  abbrev pub spot_of : CivilPoint F → Option F → Option F → List (Spot F)
  spot_of p (some e) (some n) = record { point = p; east = e; north = n } ∷ []
  spot_of p none n = []
  spot_of p (some e) none = []

  -- The points with both local coordinates.
  unfoldable pub located : List (CivilPoint F) → List (Spot F)
  located [] = []
  located (p ∷ ps) = spot_of p p.local_east p.local_north ++ located ps

  -- `candidates` of `duplicate_pairs`
  unfoldable pub open_spots : List (Spot F) → List (Spot F)
  unfolding is_rejected_status
  open_spots [] = []
  open_spots (s ∷ ss) =
      if is_rejected_status s.point.review_status then open_spots ss else s ∷ open_spots ss

module _ (fl : Floats) where
  open fl use {F, sub, abs, hypot, lt, le, literal}

  abbrev pub apart : Spot F → Spot F → F
  apart p q = hypot (sub p.east q.east) (sub p.north q.north)

  abbrev pub pair_of : F → Spot F → Spot F → Pair F
  pair_of conflict p q =
      let delta = abs (sub p.point.elevation q.point.elevation) in
      record {
        left = p.point.id;
        right = q.point.id;
        distance_m = apart p q;
        elevation_delta_m = delta;
        conflicting = lt conflict delta || not (same_type p.point.point_type q.point.point_type);
      }

  -- The inner loop: the pairs of one point with the later ones.
  unfoldable pub pairs_with : F → F → Spot F → List (Spot F) → List (Pair F)
  pairs_with tolerance conflict p [] = []
  pairs_with tolerance conflict p (q ∷ qs) =
      if le (apart p q) tolerance
      then pair_of conflict p q ∷ pairs_with tolerance conflict p qs
      else pairs_with tolerance conflict p qs

  unfoldable pub pairs_among : F → F → List (Spot F) → List (Pair F)
  unfolding pairs_with
  pairs_among tolerance conflict [] = []
  pairs_among tolerance conflict (p ∷ ps) =
      pairs_with tolerance conflict p ps ++ pairs_among tolerance conflict ps

  unfoldable pub duplicate_pairs : CivilProject F → F → F → List (Pair F)
  unfolding located open_spots pairs_among
  duplicate_pairs project tolerance conflict =
      pairs_among tolerance conflict (open_spots (located project.points))

  -- The elevation is in the configured range.
  abbrev pub in_range : CivilProject F → CivilPoint F → Bool
  in_range project p =
      le project.plausible_elevation_min p.elevation
      && le p.elevation project.plausible_elevation_max

  -- `min` and `max` of a list that is not empty: the first one wins among equals.
  abbrev least : F → List F → F
  least x [] = x
  least x (y ∷ ys) = least (if lt y x then y else x) ys

  abbrev greatest : F → List F → F
  greatest x [] = x
  greatest x (y ∷ ys) = greatest (if lt x y then y else x) ys

  unfoldable pub extents_of : List (Spot F) → Option (Extents F)
  extents_of [] = none
  extents_of (s ∷ ss) = some (record {
    min_east = least s.east (map (λ t. t.east) ss);
    max_east = greatest s.east (map (λ t. t.east) ss);
    min_north = least s.north (map (λ t. t.north) ss);
    max_north = greatest s.north (map (λ t. t.north) ss);
    min_elevation = least s.point.elevation (map (λ t. t.point.elevation) ss);
    max_elevation = greatest s.point.elevation (map (λ t. t.point.elevation) ss);
  })

-- What is found wrong, with its detail.
abbrev when : Bool → Issue → List Issue
when true i = i ∷ []
when false i = []

module _ (rt : Runtime) where
  open rt use {fl, format}
  open fl use {F, lt, le, literal}

  abbrev about_point : Severity → Code → String → CivilPoint F → Issue
  about_point severity code detail p = record {
    severity = severity;
    code = code;
    detail = format detail (str p.id ∷ []);
    point_ids = p.id ∷ [];
  }

  abbrev pub is_low : Option F → Bool
  is_low none = false
  is_low (some c) = lt c (literal "0.6")

  -- Approved, and not what the exports can take.
  abbrev pub is_invalid_approved : CivilPoint F → Bool
  is_invalid_approved p =
      approved p
      && (is_none p.local_east || (is_none p.local_north || not (is_terrain p.point_type)))

  -- `_append_point_issues`
  unfoldable pub point_issues : CivilProject F → CivilPoint F → List Issue
  unfolding is_unreviewed
  point_issues project p =
      when (not (in_range fl project p))
        (about_point error elevation_out_of_range "{} elevation is outside the configured range." p)
      ++ (when (is_invalid_approved p)
            (about_point critical approved_point_invalid "{} is approved but not exportable." p)
          ++ (when (is_unreviewed p.review_status)
                (about_point info point_not_reviewed "{} is excluded from default export." p)
              ++ when (is_low p.association_confidence) (
                  about_point warning low_association_confidence
                    "{} has a low-confidence label association." p)))

  unfoldable pub all_point_issues : CivilProject F → List (CivilPoint F) → List Issue
  unfolding point_issues
  all_point_issues project [] = []
  all_point_issues project (p ∷ ps) = point_issues project p ++ all_point_issues project ps

  unfoldable pub pair_issue : Pair F → Issue
  pair_issue p = record {
    severity = if p.conflicting then error else warning;
    code = if p.conflicting then conflicting_duplicate else duplicate_candidate;
    detail =
        format "{} and {} are {:.4f} m apart." (str p.left ∷ str p.right ∷ float p.distance_m ∷ []);
    point_ids = p.left ∷ p.right ∷ [];
  }

  unfoldable pub calibration_issues : CivilProject F → List Issue
  calibration_issues project = elim project.calibration [
    | none ↦
        record {
          severity = critical;
          code = calibration_missing;
          detail = "Scale, origin, and orientation are required.";
          point_ids = [];
        }
        ∷ []
    | some c ↦ elim c.scale_check [
      | none ↦ []
      | some check ↦
          if passed fl check
          then []
          else record {
            severity = warning;
            code = scale_check_mismatch;
            detail = format "Second-distance error is {:.3f}%." (float check.error_percent ∷ []);
            point_ids = [];
          }
            ∷ []
    ]
  ]

  -- `duplicate_pairs(project)`, with the default tolerances
  abbrev pub default_pairs : CivilProject F → List (Pair F)
  default_pairs project = duplicate_pairs fl project (literal "0.05") (literal "0.02")

  -- The list `issues` at the end of `qa_summary`.
  unfoldable pub issues : CivilProject F → List Issue
  unfolding calibration_issues all_point_issues pair_issue
  issues project =
      calibration_issues project
      ++ (all_point_issues project project.points ++ map pair_issue (default_pairs project))

  abbrev pub severity_count : (Severity → Bool) → List Issue → ℕ
  severity_count test = count_if (λ i. test i.severity)
