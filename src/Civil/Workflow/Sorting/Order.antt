-- ===== src/Civil/Workflow/Sorting/Order.antt =====
-- workflow.py: what `sort_points` makes of the points.
use Prim.Native.String.{◌∷◌ as cons_char, [] as empty_text}
use mathlib.Core.List.{Perm}
use mathlib.Core.List.Perm
use screen2xyz_civil_plan_di.Prelude.{
  String, some, Bool, true, false, List, [], ◌∷◌, str_eq, eq_iff, ◌≡◌, refl, sym, ◌∙◌, All, arith,
  Bool-cases, inl, inr,
}
use screen2xyz_civil_plan_di.Prelude.Int.{ℤ, pos, negsuc}
use screen2xyz_civil_plan_di.Civil.Vocabulary.{type_name, status_name}
use screen2xyz_civil_plan_di.Civil.Json.{str, bool}
use screen2xyz_civil_plan_di.Civil.Workflow.{workflow_error, Runtime, Desk}
use screen2xyz_civil_plan_di.Civil.Workflow.Triple.{
  Triple, ◌⟫◌, Triple-or_raise, Triple-modify, Triple-audit,
}
use screen2xyz_civil_plan_di.Civil.Workflow.Gate.{IsReady, AllReady}
use screen2xyz_civil_plan_di.Civil.Workflow.Approval.{succeeds}
use screen2xyz_civil_plan_di.Civil.Workflow.Sorting.{
  Key, key_parse, text_before, whole_before, whole_same, pair_before, insert_by, sort_by,
  key_before, directed, sorted_points, sort_points, number_or_id,
}

abbrev pub IsAsymmetric : {A : Type 0} → (A → A → Bool) → Type 0
IsAsymmetric {A = A} before = (x y : A) → before x y ≡ true → before y x ≡ false

text_before-IsAsymmetric : (s t : String) → text_before s t ≡ true → text_before t s ≡ false
unfolding text_before
text_before-IsAsymmetric s empty_text h = ground arith
text_before-IsAsymmetric empty_text (cons_char d t) h = refl
text_before-IsAsymmetric (cons_char c s) (cons_char d t) h =
    ground (arith, text_before-IsAsymmetric s t)

whole_before-IsAsymmetric : (m n : ℤ) → whole_before m n ≡ true → whole_before n m ≡ false
unfolding whole_before
whole_before-IsAsymmetric (pos m) (pos n) h = ground arith
whole_before-IsAsymmetric (pos m) (negsuc n) h = ground arith
whole_before-IsAsymmetric (negsuc m) (pos n) h = refl
whole_before-IsAsymmetric (negsuc m) (negsuc n) h = ground arith

whole_same_comm : (m n : ℤ) → whole_same m n ≡ whole_same n m
unfolding whole_same
whole_same_comm (pos m) (pos n) = ground arith
whole_same_comm (pos m) (negsuc n) = refl
whole_same_comm (negsuc m) (pos n) = refl
whole_same_comm (negsuc m) (negsuc n) = ground arith

str_eq_comm : (s t : String) → str_eq s t ≡ str_eq t s
str_eq_comm s t = elim (Bool-cases (str_eq s t)) [
  | inl a ↦ rw a (sym ((eq_iff t s).1 (sym ((eq_iff s t).0 a))))
  | inr a ↦ elim (Bool-cases (str_eq t s)) [
    | inl b ↦ (eq_iff s t).1 (sym ((eq_iff t s).0 b)) ∙ sym b
    | inr b ↦ rw (a, b) refl
  ]
]

pair_before-IsAsymmetric :
    (same same2 less less2 : Bool) (i j : String)
    → same2 ≡ same
    → (less ≡ true → less2 ≡ false)
    → pair_before same less i j ≡ true
    → pair_before same2 less2 j i ≡ false
unfolding pair_before
pair_before-IsAsymmetric true same2 less less2 i j e f h = rw e (text_before-IsAsymmetric i j h)
pair_before-IsAsymmetric false same2 less less2 i j e f h = rw e (f h)

module _ {A : Type 0} where
  -- No entry comes before the one that it follows.
  abbrev pub IsSorted : (A → A → Bool) → List A → Type 0
  IsSorted before [] = Unit
  IsSorted before (x ∷ []) = Unit
  IsSorted before (x ∷ y ∷ ys) = (before y x ≡ false) × IsSorted before (y ∷ ys)

  insert_by-IsSorted :
      (before : A → A → Bool)
      → IsAsymmetric before
      → (x : A) (ys : List A) → IsSorted before ys
      → IsSorted before (insert_by before x ys)
  unfolding insert_by
  insert_by-IsSorted before asym x [] h = tt
  insert_by-IsSorted before asym x (y ∷ []) h = elim (Bool-cases (before y x)) [
    | inl e ↦ rw e (asym y x e, tt)
    | inr e ↦ rw e (e, tt)
  ]
  insert_by-IsSorted before asym x (y ∷ z ∷ zs) h = elim (Bool-cases (before y x)) [
    | inl e ↦ elim (Bool-cases (before z x)) [
      | inl f ↦
          let t = insert_by-IsSorted before asym x (z ∷ zs) h.1 in rw (e, f) (h.0, (rw f at t))
      | inr f ↦ rw (e, f) (asym y x e, (f, h.1))
    ]
    | inr e ↦ rw e (e, h)
  ]

  sort_by-IsSorted :
      (before : A → A → Bool)
      → IsAsymmetric before
      → (xs : List A) → IsSorted before (sort_by before xs)
  unfolding sort_by
  sort_by-IsSorted before asym [] = tt
  sort_by-IsSorted before asym (x ∷ xs) =
      insert_by-IsSorted before asym x (sort_by before xs) (sort_by-IsSorted before asym xs)

  insert_by-perm :
      (before : A → A → Bool) (x : A) (ys : List A) → Perm (insert_by before x ys) (x ∷ ys)
  unfolding insert_by
  insert_by-perm before x [] = Perm.rfl
  insert_by-perm before x (y ∷ ys) = elim (Bool-cases (before y x)) [
    | inl e ↦ rw e (Perm.trans (Perm.cons y (insert_by-perm before x ys)) (Perm.swap x y ys))
    | inr e ↦ rw e Perm.rfl
  ]

  sort_by-perm : (before : A → A → Bool) (xs : List A) → Perm (sort_by before xs) xs
  unfolding sort_by
  sort_by-perm before [] = Perm.rfl
  sort_by-perm before (x ∷ xs) =
      Perm.trans (insert_by-perm before x (sort_by before xs))
        (Perm.cons x (sort_by-perm before xs))

  insert_by-All :
      (P : A → Type 0) (before : A → A → Bool) (x : A) (ys : List A)
      → P x
      → All P ys
      → All P (insert_by before x ys)
  unfolding insert_by
  insert_by-All P before x [] px h = (px, tt)
  insert_by-All P before x (y ∷ ys) px h = elim (Bool-cases (before y x)) [
    | inl e ↦ rw e (h.0, insert_by-All P before x ys px h.1)
    | inr e ↦ rw e (px, h)
  ]

  sort_by-All :
      (P : A → Type 0) (before : A → A → Bool) (xs : List A) → All P xs → All P (sort_by before xs)
  unfolding sort_by
  sort_by-All P before [] h = tt
  sort_by-All P before (x ∷ xs) h =
      insert_by-All P before x (sort_by before xs) h.0 (sort_by-All P before xs h.1)

module _ (rt : Runtime) where
  open rt use {fl, format}
  open fl use {F, lt, eq}

  pub sort_points-AllReady :
      (text : String) (reverse : Bool) → Triple AllReady AllReady (sort_points rt text reverse)
  unfolding sort_points sorted_points
  sort_points-AllReady text reverse = Triple-or_raise workflow_error (key_parse text) ⟫ λ key.
      Triple-modify (sorted_points rt reverse key)
        (λ p h. sort_by-All IsReady (directed rt reverse key) p.points h)
      ⟫ λ _.
          Triple-audit rt "POINT_CART_SORTED" (format "Point Cart sorted by {}." (str text ∷ []))
            (("key", str text) ∷ ("reverse", bool reverse) ∷ [])

  module _ (lt-asym : IsAsymmetric lt) (eq-comm : (x y : F) → eq x y ≡ eq y x) where
    key_before-IsAsymmetric : (key : Key) → IsAsymmetric (key_before rt key)
    unfolding key_before
    key_before-IsAsymmetric Key.by_number p q h =
        text_before-IsAsymmetric (number_or_id p) (number_or_id q) h
    key_before-IsAsymmetric Key.by_page p q h =
        pair_before-IsAsymmetric _ _ _ _ p.id q.id (whole_same_comm q.page_index p.page_index)
          (whole_before-IsAsymmetric p.page_index q.page_index) h
    key_before-IsAsymmetric Key.by_elevation p q h =
        pair_before-IsAsymmetric _ _ _ _ p.id q.id (eq-comm q.elevation p.elevation)
          (lt-asym p.elevation q.elevation) h
    key_before-IsAsymmetric Key.by_class p q h =
        pair_before-IsAsymmetric _ _ _ _ p.id q.id
          (str_eq_comm (type_name q.point_type) (type_name p.point_type))
          (text_before-IsAsymmetric (type_name p.point_type) (type_name q.point_type)) h
    key_before-IsAsymmetric Key.by_status p q h =
        pair_before-IsAsymmetric _ _ _ _ p.id q.id
          (str_eq_comm (status_name q.review_status) (status_name p.review_status))
          (text_before-IsAsymmetric (status_name p.review_status) (status_name q.review_status)) h
    key_before-IsAsymmetric Key.by_created p q h =
        pair_before-IsAsymmetric _ _ _ _ p.id q.id (str_eq_comm q.created_at p.created_at)
          (text_before-IsAsymmetric p.created_at q.created_at) h

    directed-IsAsymmetric : (reverse : Bool) (key : Key) → IsAsymmetric (directed rt reverse key)
    unfolding directed
    directed-IsAsymmetric true key p q h = key_before-IsAsymmetric key q p h
    directed-IsAsymmetric false key p q h = key_before-IsAsymmetric key p q h

    pub sort_points-IsSorted :
        (text : String) (key : Key) (reverse : Bool) (d : Desk F)
        → key_parse text ≡ some key
        → let r = sort_points rt text reverse d in
          (succeeds r.0 ≡ true)
          × IsSorted (directed rt reverse key) r.1.project.points
          × Perm r.1.project.points d.project.points
    unfolding sort_points sorted_points
    sort_points-IsSorted text key reverse d e = rw e (
      refl,
      sort_by-IsSorted (directed rt reverse key) (directed-IsAsymmetric reverse key)
          d.project.points,
      sort_by-perm (directed rt reverse key) d.project.points,
    )
