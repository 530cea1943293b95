-- ===== src/Civil/Workflow/Sorting.antt =====
-- workflow.py: `sort_points`. Python's `list.sort`
-- is documented to be stable, and is written here as an insertion sort; tuples are compared by their
-- first entries, and by the second where those are equal.
pub mod Order
pub mod Keys
use Prim.Native.Char.{code}
use Prim.Native.String.{◌∷◌ as cons_char, [] as empty_text}
use screen2xyz_civil_plan_di.Prelude.{
  String, Option, none, some, Bool, true, false, List, [], ◌∷◌, ◌==◌, ltb, str_eq, if◌then◌else◌,
}
use screen2xyz_civil_plan_di.Prelude.Int.{ℤ, pos, negsuc}
use screen2xyz_civil_plan_di.Civil.Vocabulary.{type_name, status_name}
use screen2xyz_civil_plan_di.Civil.Json.{Value, str, bool}
use screen2xyz_civil_plan_di.Civil.Model.{CivilPoint, CivilProject}
use screen2xyz_civil_plan_di.Civil.Workflow.{
  workflow_error, Runtime, Action, or_raise, modify, ◌>>=◌, ◌>>◌, audit,
}

-- The keys of the table of sort keys
pub data Key : Type 0 where
  by_number by_page by_elevation by_class by_status by_created : Key

unfoldable pub key_parse : String → Option Key
key_parse key =
    if str_eq key "point_number"
    then some by_number
    else if str_eq key "page"
    then some by_page
    else if str_eq key "elevation"
    then some by_elevation
    else if str_eq key "class"
    then some by_class
    else if str_eq key "status"
    then some by_status
    else if str_eq key "created"
    then some by_created
    else none

-- `<` of texts
unfoldable pub text_before : String → String → Bool
text_before s empty_text = false
text_before empty_text (cons_char d t) = true
text_before (cons_char c s) (cons_char d t) =
    let rest = text_before s t in
    if ltb (code c) (code d) then true else if ltb (code d) (code c) then false else rest

unfoldable pub whole_before : ℤ → ℤ → Bool
whole_before (pos m) (pos n) = ltb m n
whole_before (pos m) (negsuc n) = false
whole_before (negsuc m) (pos n) = true
whole_before (negsuc m) (negsuc n) = ltb n m

unfoldable pub whole_same : ℤ → ℤ → Bool
whole_same (pos m) (pos n) = m == n
whole_same (pos m) (negsuc n) = false
whole_same (negsuc m) (pos n) = false
whole_same (negsuc m) (negsuc n) = m == n

-- `(a, i) < (b, j)`, from `a == b` and `a < b`
unfoldable pub pair_before : Bool → Bool → String → String → Bool
pair_before same less i j = if same then text_before i j else less

-- `point.point_number or point.id`
abbrev pub number_or_id : {F : Type 0} → CivilPoint F → String
number_or_id p = if str_eq p.point_number "" then p.id else p.point_number

module _ {A : Type 0} where
  unfoldable pub insert_by : (A → A → Bool) → A → List A → List A
  insert_by before x [] = x ∷ []
  insert_by before x (y ∷ ys) =
      let rest = insert_by before x ys in if before y x then y ∷ rest else x ∷ y ∷ ys

  unfoldable pub sort_by : (A → A → Bool) → List A → List A
  unfolding insert_by
  sort_by before [] = []
  sort_by before (x ∷ xs) = insert_by before x (sort_by before xs)

module _ (rt : Runtime) where
  open rt use {fl, format}
  open fl use {F, lt, eq}

  unfoldable pub key_before : Key → CivilPoint F → CivilPoint F → Bool
  unfolding pair_before text_before whole_before whole_same
  key_before by_number p q = text_before (number_or_id p) (number_or_id q)
  key_before by_page p q =
      pair_before (whole_same p.page_index q.page_index) (whole_before p.page_index q.page_index)
        p.id q.id
  key_before by_elevation p q =
      pair_before (eq p.elevation q.elevation) (lt p.elevation q.elevation) p.id q.id
  key_before by_class p q =
      let s = type_name p.point_type in
      let t = type_name q.point_type in pair_before (str_eq s t) (text_before s t) p.id q.id
  key_before by_status p q =
      let s = status_name p.review_status in
      let t = status_name q.review_status in pair_before (str_eq s t) (text_before s t) p.id q.id
  key_before by_created p q =
      pair_before (str_eq p.created_at q.created_at) (text_before p.created_at q.created_at) p.id
        q.id

  -- With `reverse` the greater point comes first; equal points keep their order.
  unfoldable pub directed : Bool → Key → CivilPoint F → CivilPoint F → Bool
  unfolding key_before
  directed reverse key p q = if reverse then key_before key q p else key_before key p q

  unfoldable pub sorted_points : Bool → Key → CivilProject F → CivilProject F
  unfolding sort_by directed
  sorted_points reverse key p = record p { points = sort_by (directed reverse key) p.points }

  unfoldable pub sort_points : String → Bool → Action F (Unit {0})
  unfolding key_parse sorted_points
  sort_points key reverse = do
    k ← or_raise workflow_error (key_parse key)
    modify (sorted_points reverse k)
    audit rt "POINT_CART_SORTED" (format "Point Cart sorted by {}." (str key ∷ []))
        (("key", str key) ∷ ("reverse", bool reverse) ∷ [])
