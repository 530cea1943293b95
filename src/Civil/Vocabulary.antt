-- ===== src/Civil/Vocabulary.antt =====
-- src/screen2xyz_civil/contracts.py: the closed vocabularies. A member of a frozenset of texts is a
-- constructor; `name` gives its text, and `parse` is the membership test on a text, `none` for a
-- text outside the set.
use screen2xyz_civil_plan_di.Prelude.{
  ◌≡◌, refl, String, Option, Bool, true, false, none, some, str_eq, if◌then◌else◌,
}

pub data PointType : Type 0 where
  existing_ground design_grade contour_elevation slope_annotation utility_rim : PointType
  utility_invert slab_elevation dimension material_thickness drawing_metadata : PointType
  unknown_numeric review_required rejected : PointType

unfoldable pub type_name : PointType → String
type_name PointType.existing_ground = "EXISTING_GROUND"
type_name PointType.design_grade = "DESIGN_GRADE"
type_name PointType.contour_elevation = "CONTOUR_ELEVATION"
type_name PointType.slope_annotation = "SLOPE_ANNOTATION"
type_name PointType.utility_rim = "UTILITY_RIM"
type_name PointType.utility_invert = "UTILITY_INVERT"
type_name PointType.slab_elevation = "SLAB_ELEVATION"
type_name PointType.dimension = "DIMENSION"
type_name PointType.material_thickness = "MATERIAL_THICKNESS"
type_name PointType.drawing_metadata = "DRAWING_METADATA"
type_name PointType.unknown_numeric = "UNKNOWN_NUMERIC"
type_name PointType.review_required = "REVIEW_REQUIRED"
type_name PointType.rejected = "REJECTED"

unfoldable pub type_parse : String → Option PointType
type_parse s =
    if str_eq s "EXISTING_GROUND"
    then some PointType.existing_ground
    else if str_eq s "DESIGN_GRADE"
    then some PointType.design_grade
    else if str_eq s "CONTOUR_ELEVATION"
    then some PointType.contour_elevation
    else if str_eq s "SLOPE_ANNOTATION"
    then some PointType.slope_annotation
    else if str_eq s "UTILITY_RIM"
    then some PointType.utility_rim
    else if str_eq s "UTILITY_INVERT"
    then some PointType.utility_invert
    else if str_eq s "SLAB_ELEVATION"
    then some PointType.slab_elevation
    else if str_eq s "DIMENSION"
    then some PointType.dimension
    else if str_eq s "MATERIAL_THICKNESS"
    then some PointType.material_thickness
    else if str_eq s "DRAWING_METADATA"
    then some PointType.drawing_metadata
    else if str_eq s "UNKNOWN_NUMERIC"
    then some PointType.unknown_numeric
    else if str_eq s "REVIEW_REQUIRED"
    then some PointType.review_required
    else if str_eq s "REJECTED"
    then some PointType.rejected
    else none

pub type_parse-type_name : (t : PointType) → type_parse (type_name t) ≡ some t
unfolding type_name type_parse
type_parse-type_name PointType.existing_ground = refl
type_parse-type_name PointType.design_grade = refl
type_parse-type_name PointType.contour_elevation = refl
type_parse-type_name PointType.slope_annotation = refl
type_parse-type_name PointType.utility_rim = refl
type_parse-type_name PointType.utility_invert = refl
type_parse-type_name PointType.slab_elevation = refl
type_parse-type_name PointType.dimension = refl
type_parse-type_name PointType.material_thickness = refl
type_parse-type_name PointType.drawing_metadata = refl
type_parse-type_name PointType.unknown_numeric = refl
type_parse-type_name PointType.review_required = refl
type_parse-type_name PointType.rejected = refl

pub data ReviewStatus : Type 0 where
  unreviewed auto_high_confidence approved edited_and_approved rejected review_required :
      ReviewStatus

unfoldable pub status_name : ReviewStatus → String
status_name ReviewStatus.unreviewed = "UNREVIEWED"
status_name ReviewStatus.auto_high_confidence = "AUTO_HIGH_CONFIDENCE"
status_name ReviewStatus.approved = "APPROVED"
status_name ReviewStatus.edited_and_approved = "EDITED_AND_APPROVED"
status_name ReviewStatus.rejected = "REJECTED"
status_name ReviewStatus.review_required = "REVIEW_REQUIRED"

unfoldable pub status_parse : String → Option ReviewStatus
status_parse s =
    if str_eq s "UNREVIEWED"
    then some ReviewStatus.unreviewed
    else if str_eq s "AUTO_HIGH_CONFIDENCE"
    then some ReviewStatus.auto_high_confidence
    else if str_eq s "APPROVED"
    then some ReviewStatus.approved
    else if str_eq s "EDITED_AND_APPROVED"
    then some ReviewStatus.edited_and_approved
    else if str_eq s "REJECTED"
    then some ReviewStatus.rejected
    else if str_eq s "REVIEW_REQUIRED"
    then some ReviewStatus.review_required
    else none

pub status_parse-status_name : (t : ReviewStatus) → status_parse (status_name t) ≡ some t
unfolding status_name status_parse
status_parse-status_name ReviewStatus.unreviewed = refl
status_parse-status_name ReviewStatus.auto_high_confidence = refl
status_parse-status_name ReviewStatus.approved = refl
status_parse-status_name ReviewStatus.edited_and_approved = refl
status_parse-status_name ReviewStatus.rejected = refl
status_parse-status_name ReviewStatus.review_required = refl

pub data SourceMethod : Type 0 where
  manual pdf_text pdf_vector local_ocr mock_ocr : SourceMethod

unfoldable pub method_name : SourceMethod → String
method_name SourceMethod.manual = "MANUAL"
method_name SourceMethod.pdf_text = "PDF_TEXT"
method_name SourceMethod.pdf_vector = "PDF_VECTOR"
method_name SourceMethod.local_ocr = "LOCAL_OCR"
method_name SourceMethod.mock_ocr = "MOCK_OCR"

unfoldable pub method_parse : String → Option SourceMethod
method_parse s =
    if str_eq s "MANUAL"
    then some SourceMethod.manual
    else if str_eq s "PDF_TEXT"
    then some SourceMethod.pdf_text
    else if str_eq s "PDF_VECTOR"
    then some SourceMethod.pdf_vector
    else if str_eq s "LOCAL_OCR"
    then some SourceMethod.local_ocr
    else if str_eq s "MOCK_OCR"
    then some SourceMethod.mock_ocr
    else none

pub method_parse-method_name : (t : SourceMethod) → method_parse (method_name t) ≡ some t
unfolding method_name method_parse
method_parse-method_name SourceMethod.manual = refl
method_parse-method_name SourceMethod.pdf_text = refl
method_parse-method_name SourceMethod.pdf_vector = refl
method_parse-method_name SourceMethod.local_ocr = refl
method_parse-method_name SourceMethod.mock_ocr = refl

pub data SymbolType : Type 0 where
  existing_cross plus_sign survey_marker design_oval point_dot leader_endpoint : SymbolType
  unknown_symbol manual_point no_symbol : SymbolType

unfoldable pub symbol_name : SymbolType → String
symbol_name SymbolType.existing_cross = "EXISTING_CROSS"
symbol_name SymbolType.plus_sign = "PLUS_SIGN"
symbol_name SymbolType.survey_marker = "SURVEY_MARKER"
symbol_name SymbolType.design_oval = "DESIGN_OVAL"
symbol_name SymbolType.point_dot = "POINT_DOT"
symbol_name SymbolType.leader_endpoint = "LEADER_ENDPOINT"
symbol_name SymbolType.unknown_symbol = "UNKNOWN_SYMBOL"
symbol_name SymbolType.manual_point = "MANUAL_POINT"
symbol_name SymbolType.no_symbol = "NONE"

unfoldable pub symbol_parse : String → Option SymbolType
symbol_parse s =
    if str_eq s "EXISTING_CROSS"
    then some SymbolType.existing_cross
    else if str_eq s "PLUS_SIGN"
    then some SymbolType.plus_sign
    else if str_eq s "SURVEY_MARKER"
    then some SymbolType.survey_marker
    else if str_eq s "DESIGN_OVAL"
    then some SymbolType.design_oval
    else if str_eq s "POINT_DOT"
    then some SymbolType.point_dot
    else if str_eq s "LEADER_ENDPOINT"
    then some SymbolType.leader_endpoint
    else if str_eq s "UNKNOWN_SYMBOL"
    then some SymbolType.unknown_symbol
    else if str_eq s "MANUAL_POINT"
    then some SymbolType.manual_point
    else if str_eq s "NONE"
    then some SymbolType.no_symbol
    else none

pub symbol_parse-symbol_name : (t : SymbolType) → symbol_parse (symbol_name t) ≡ some t
unfolding symbol_name symbol_parse
symbol_parse-symbol_name SymbolType.existing_cross = refl
symbol_parse-symbol_name SymbolType.plus_sign = refl
symbol_parse-symbol_name SymbolType.survey_marker = refl
symbol_parse-symbol_name SymbolType.design_oval = refl
symbol_parse-symbol_name SymbolType.point_dot = refl
symbol_parse-symbol_name SymbolType.leader_endpoint = refl
symbol_parse-symbol_name SymbolType.unknown_symbol = refl
symbol_parse-symbol_name SymbolType.manual_point = refl
symbol_parse-symbol_name SymbolType.no_symbol = refl

-- `TERRAIN_POINT_TYPES`
unfoldable pub is_terrain : PointType → Bool
is_terrain PointType.existing_ground = true
is_terrain PointType.design_grade = true
is_terrain PointType.contour_elevation = true
is_terrain _ = false

-- `APPROVED_STATUSES`
unfoldable pub is_approved : ReviewStatus → Bool
is_approved ReviewStatus.approved = true
is_approved ReviewStatus.edited_and_approved = true
is_approved _ = false

abbrev pub is_rejected : ReviewStatus → Bool
is_rejected ReviewStatus.rejected = true
is_rejected _ = false

abbrev pub is_manual : SourceMethod → Bool
is_manual SourceMethod.manual = true
is_manual _ = false

-- `DESCRIPTION_BY_TYPE.get(t, default)`
unfoldable pub description_by_type : PointType → String → String
description_by_type PointType.existing_ground d = "EX_GROUND"
description_by_type PointType.design_grade d = "DESIGN_GRADE"
description_by_type PointType.contour_elevation d = "CONTOUR"
description_by_type _ d = d
