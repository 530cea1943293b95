-- ===== src/Civil/Workflow/Sorting/Keys.antt =====
-- workflow.py: the order in which each key of `sort_points` puts the points.
use Prim.Native.Char.{code}
use Prim.Native.String.{◌∷◌ as cons_char, [] as empty_text}
use mathlib.Core.List.{Perm}
use screen2xyz_civil_plan_di.Prelude.{
  String, some, Bool, true, false, List, [], ◌∷◌, str_eq, eq_iff, ◌≡◌, ◌<◌, ◌⊎◌, Bool-cases, subst,
  refl, sym, arith, inl, inr, if◌then◌else◌,
}
use screen2xyz_civil_plan_di.Prelude.Int.{ℤ, pos, negsuc}
use screen2xyz_civil_plan_di.Civil.Vocabulary.{type_name, status_name}
use screen2xyz_civil_plan_di.Civil.Model.{CivilPoint}
use screen2xyz_civil_plan_di.Civil.Workflow.{Runtime, Desk}
use screen2xyz_civil_plan_di.Civil.Workflow.Approval.{succeeds}
use screen2xyz_civil_plan_di.Civil.Workflow.Sorting.{
  Key, key_parse, text_before, whole_before, whole_same, pair_before, key_before, directed,
  sort_points,
}
use screen2xyz_civil_plan_di.Civil.Workflow.Sorting.Order.{
  IsAsymmetric, IsSorted, sort_points-IsSorted,
}

-- Texts in the order of their first different characters
abbrev pub IsLess : String → String → Type 0
IsLess s empty_text = ⊥
IsLess empty_text (cons_char d t) = Unit
IsLess (cons_char c s) (cons_char d t) = (code c < code d) ⊎ (code c ≡ code d) × IsLess s t

abbrev pub IsSmaller : ℤ → ℤ → Type 0
IsSmaller (pos m) (pos n) = m < n
IsSmaller (pos m) (negsuc n) = ⊥
IsSmaller (negsuc m) (pos n) = Unit
IsSmaller (negsuc m) (negsuc n) = n < m

IsLess-text_before : (s t : String) → IsLess s t → text_before s t ≡ true
unfolding text_before
IsLess-text_before empty_text empty_text h = elim h [ ]
IsLess-text_before (cons_char c s) empty_text h = elim h [ ]
IsLess-text_before empty_text (cons_char d t) h = refl
IsLess-text_before (cons_char c s) (cons_char d t) (inl h) = ground (arith, h)
IsLess-text_before (cons_char c s) (cons_char d t) (inr (e, h)) =
    ground (arith, e, IsLess-text_before s t h)

IsSmaller-whole_before : (m n : ℤ) → IsSmaller m n → whole_before m n ≡ true
unfolding whole_before
IsSmaller-whole_before (pos m) (pos n) h = ground (arith, h)
IsSmaller-whole_before (pos m) (negsuc n) h = elim h [ ]
IsSmaller-whole_before (negsuc m) (pos n) h = refl
IsSmaller-whole_before (negsuc m) (negsuc n) h = ground (arith, h)

whole_same_self : (m : ℤ) → whole_same m m ≡ true
unfolding whole_same
whole_same_self (pos m) = ground arith
whole_same_self (negsuc m) = ground arith

IsSmaller-whole_same : (m n : ℤ) → IsSmaller m n → whole_same m n ≡ false
unfolding whole_same
IsSmaller-whole_same (pos m) (pos n) h = ground (arith, h)
IsSmaller-whole_same (pos m) (negsuc n) h = elim h [ ]
IsSmaller-whole_same (negsuc m) (pos n) h = refl
IsSmaller-whole_same (negsuc m) (negsuc n) h = ground (arith, h)

IsLess-irreflexive : (s : String) → ¬ IsLess s s
IsLess-irreflexive empty_text h = elim h [ ]
IsLess-irreflexive (cons_char c s) (inl h) = absurd (omega (arith, h))
IsLess-irreflexive (cons_char c s) (inr (e, h)) = IsLess-irreflexive s h

IsLess-different : (s t : String) → IsLess s t → str_eq s t ≡ false
IsLess-different s t h = elim (Bool-cases (str_eq s t)) [
  | inl e ↦ absurd (IsLess-irreflexive s (subst (λ u. IsLess s u) (sym ((eq_iff s t).0 e)) h))
  | inr e ↦ e
]

first_before :
    (same less : Bool) (i j : String)
    → same ≡ false
    → less ≡ true
    → pair_before same less i j ≡ true
unfolding pair_before
first_before same less i j e h = rw e h

second_before :
    (same less : Bool) (i j : String) → same ≡ true → IsLess i j → pair_before same less i j ≡ true
unfolding pair_before
second_before same less i j e h = rw e (IsLess-text_before i j h)

module _ {A : Type 0} where
  -- No entry comes before the one that it follows, from the end on if `reverse`.
  abbrev pub IsInOrder : Bool → (A → A → Type 0) → List A → Type 0
  IsInOrder reverse R [] = Unit
  IsInOrder reverse R (x ∷ []) = Unit
  IsInOrder reverse R (x ∷ y ∷ ys) =
      (¬ (if reverse then R x y else R y x)) × IsInOrder reverse R (y ∷ ys)

module _ (rt : Runtime) where
  open rt use {fl}
  open fl use {F, lt, eq}

  -- `(a, p.id) < (b, q.id)` for texts `a` and `b`
  abbrev pub IsBefore : String → String → CivilPoint F → CivilPoint F → Type 0
  IsBefore a b p q = IsLess a b ⊎ (a ≡ b) × IsLess p.id q.id

  abbrev pub IsBelow : CivilPoint F → CivilPoint F → Type 0
  IsBelow p q =
      ((eq p.elevation q.elevation ≡ false) × (lt p.elevation q.elevation ≡ true))
      ⊎ (eq p.elevation q.elevation ≡ true) × IsLess p.id q.id

  -- `sort_points` succeeds with the same points, in the order.
  abbrev pub Arranges : String → Bool → Desk F → (CivilPoint F → CivilPoint F → Type 0) → Type 0
  Arranges text reverse d R =
      let r = sort_points rt text reverse d in
      (succeeds r.0 ≡ true)
      × IsInOrder reverse R r.1.project.points
      × Perm r.1.project.points d.project.points

  IsBefore-pair_before :
      (a b : String) (p q : CivilPoint F)
      → IsBefore a b p q
      → pair_before (str_eq a b) (text_before a b) p.id q.id ≡ true
  IsBefore-pair_before a b p q (inl h) =
      first_before (str_eq a b) (text_before a b) p.id q.id (IsLess-different a b h)
        (IsLess-text_before a b h)
  IsBefore-pair_before a b p q (inr (e, h)) =
      second_before (str_eq a b) (text_before a b) p.id q.id ((eq_iff a b).1 e) h

  page :
      (p q : CivilPoint F)
      → IsSmaller p.page_index q.page_index ⊎ (p.page_index ≡ q.page_index) × IsLess p.id q.id
      → key_before rt Key.by_page p q ≡ true
  unfolding key_before
  page p q (inl h) =
      first_before _ _ p.id q.id (IsSmaller-whole_same p.page_index q.page_index h)
        (IsSmaller-whole_before p.page_index q.page_index h)
  page p q (inr (e, h)) =
      second_before _ (whole_before p.page_index q.page_index) p.id q.id
        (subst (λ n. whole_same p.page_index n ≡ true) e (whole_same_self p.page_index)) h

  elevation : (p q : CivilPoint F) → IsBelow p q → key_before rt Key.by_elevation p q ≡ true
  unfolding key_before
  elevation p q (inl (e, h)) = first_before _ _ p.id q.id e h
  elevation p q (inr (e, h)) = second_before _ (lt p.elevation q.elevation) p.id q.id e h

  module _ (key : Key) (R : CivilPoint F → CivilPoint F → Type 0)
      (known : (p q : CivilPoint F) → R p q → key_before rt key p q ≡ true) where
    IsSorted-IsInOrder :
        (reverse : Bool) (ps : List (CivilPoint F))
        → IsSorted (directed rt reverse key) ps
        → IsInOrder reverse R ps
    unfolding directed
    IsSorted-IsInOrder reverse [] h = tt
    IsSorted-IsInOrder reverse (x ∷ []) h = tt
    IsSorted-IsInOrder true (x ∷ y ∷ ys) h =
        ((λ r. let t = known x y r in let f = h.0 in cc), IsSorted-IsInOrder true (y ∷ ys) h.1)
    IsSorted-IsInOrder false (x ∷ y ∷ ys) h =
        ((λ r. let t = known y x r in let f = h.0 in cc), IsSorted-IsInOrder false (y ∷ ys) h.1)

  module _ (lt-asym : IsAsymmetric lt) (eq-comm : (x y : F) → eq x y ≡ eq y x) where
    arranged :
        (text : String) (key : Key) (reverse : Bool) (d : Desk F)
        (R : CivilPoint F → CivilPoint F → Type 0)
        → key_parse text ≡ some key
        → ((p q : CivilPoint F) → R p q → key_before rt key p q ≡ true)
        → Arranges text reverse d R
    arranged text key reverse d R e known =
        let s = sort_points-IsSorted rt lt-asym eq-comm text key reverse d e in
        (
          s.0,
          IsSorted-IsInOrder key R known reverse (sort_points rt text reverse d).1.project.points
              s.1,
          s.2,
        )

    -- Where `<` of floats is asymmetric and `==` symmetric, `sort_points` succeeds with each key of its table
    -- and leaves the same points, none of which comes before the one that it follows (after it, if
    -- `reverse`): by "point_number" in the order of the number, or of the id where there is none; by "page",
    -- "elevation", "class", "status" and "created" in that of the page index, the elevation, the text of
    -- the point type, the text of the review status and the text of the time of creation, and of the ids
    -- where these are the same.
    pub sort_points-IsInOrder :
        (reverse : Bool) (d : Desk F)
        → Arranges "point_number" reverse d (λ p q.
          IsLess
            (if str_eq p.point_number "" then p.id else p.point_number)
            (if str_eq q.point_number "" then q.id else q.point_number))
          × Arranges "page" reverse d (λ p q.
            IsSmaller p.page_index q.page_index ⊎ (p.page_index ≡ q.page_index) × IsLess p.id q.id)
          × Arranges "elevation" reverse d IsBelow
          × Arranges "class" reverse d
              (λ p q. IsBefore (type_name p.point_type) (type_name q.point_type) p q)
          × Arranges "status" reverse d
              (λ p q. IsBefore (status_name p.review_status) (status_name q.review_status) p q)
          × Arranges "created" reverse d (λ p q. IsBefore p.created_at q.created_at p q)
    unfolding key_before key_parse
    sort_points-IsInOrder reverse d = (
      arranged "point_number" Key.by_number reverse d _ refl (λ p q h. IsLess-text_before _ _ h),
      arranged "page" Key.by_page reverse d _ refl page,
      arranged "elevation" Key.by_elevation reverse d _ refl elevation,
      arranged "class" Key.by_class reverse d _ refl
          (λ p q h. IsBefore-pair_before (type_name p.point_type) (type_name q.point_type) p q h),
      arranged "status" Key.by_status reverse d _ refl (λ p q h.
          IsBefore-pair_before (status_name p.review_status) (status_name q.review_status) p q h),
      arranged "created" Key.by_created reverse d _ refl
          (λ p q h. IsBefore-pair_before p.created_at q.created_at p q h),
    )
