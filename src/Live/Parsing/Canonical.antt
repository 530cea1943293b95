-- ===== src/Live/Parsing/Canonical.antt =====
-- parsing.py: the form of what `_interpret` returns.
use screen2xyz_civil_plan_di.Prelude.{
  ℕ, zero, suc, ◌≡◌, refl, ◌∙◌, ap, subst, ◌⊎◌, Option, none, some, Bool, true, false, ◌&&◌, [],
  ◌∷◌, ◌==◌, ==_iff, Bool-cases, inl, inr, arith,
}
use screen2xyz_civil_plan_di.Live.Parsing.{
  Text, Characters, SeparatorMode, point, comma, auto, is_sign, remove, replace,
}
use screen2xyz_civil_plan_di.Live.Parsing.Numbers.{
  same_text, plain, whole_part, digits_to_end, some_digits_to_end, groups, some_groups, grouped,
  unsigned, interpret_point, interpret_comma, agreed, interpret, canonical_comma, drop_plus,
}

and_left : (a b : Bool) → (a && b) ≡ true → a ≡ true
and_left a b h = ground arith

and_right : (a b : Bool) → (a && b) ≡ true → b ≡ true
and_right a b h = ground arith

some_injective : {x y : Text} → some x ≡ some y → x ≡ y
some_injective h = cc

replace_same : (k : ℕ) (t : Text) → replace k k t ≡ t
unfolding replace
replace_same k [] = refl
replace_same k (c ∷ t) = ground (arith, replace_same k t)

module _ {F : Type 0} (ch : Characters F) where
  unsigned-plain :
      (t : Text)
      → ((c : ℕ) → ch.is_decimal c ≡ true → is_sign c ≡ false)
      → plain ch 46 t ≡ true
      → unsigned t ≡ t
  unfolding unsigned plain
  unsigned-plain [] no_sign h = refl
  unsigned-plain (c ∷ t) no_sign h = rw (no_sign c (and_left _ _ h)) refl

-- A separator of groups and a decimal mark that are no digits.
module _ {F : Type 0} (ch : Characters F) (sep mark : ℕ) (apart : (mark == sep) ≡ false)
    (no_sep : (c : ℕ) → ch.is_decimal c ≡ true → (c == sep) ≡ false)
    (no_mark : (c : ℕ) → ch.is_decimal c ≡ true → (c == mark) ≡ false)
    (no_point : (c : ℕ) → ch.is_decimal c ≡ true → (c == 46) ≡ false) where
  abbrev canon : Text → Text
  canon t = replace mark 46 (remove sep t)

  canon-digit : (c : ℕ) (t : Text) → ch.is_decimal c ≡ true → canon (c ∷ t) ≡ c ∷ canon t
  unfolding remove replace
  canon-digit c t h = rw (no_sep c h) (rw (replace, no_mark c h) refl)

  canon-mark : (c : ℕ) (t : Text) → (c == mark) ≡ true → canon (c ∷ t) ≡ 46 ∷ canon t
  unfolding remove replace
  canon-mark c t h = ground (arith, apart)

  canon-sep : (c : ℕ) (t : Text) → (c == sep) ≡ true → canon (c ∷ t) ≡ canon t
  unfolding remove
  canon-sep c t h = rw h refl

  canon-digits : (t : Text) → digits_to_end ch t ≡ true → canon t ≡ t
  unfolding digits_to_end remove replace
  canon-digits [] h = refl
  canon-digits (c ∷ t) h =
      canon-digit c t (and_left _ _ h) ∙ ap (λ l. c ∷ l) (canon-digits t (and_right _ _ h))

  -- A fraction stays a fraction.
  canon-fraction :
      (t : Text) → some_digits_to_end ch t ≡ true → some_digits_to_end ch (canon t) ≡ true
  unfolding some_digits_to_end
  canon-fraction [] h = cc
  canon-fraction (c ∷ t) h = rw (canon-digits (c ∷ t) h) h

  whole_part-digit :
      (c : ℕ) (t : Text)
      → ch.is_decimal c ≡ true
      → whole_part ch 46 t ≡ true
      → whole_part ch 46 (c ∷ t) ≡ true
  unfolding whole_part
  whole_part-digit c t h w = rw (no_point c h, h) w

  whole_part-mark :
      (c : ℕ) (t : Text)
      → (c == mark) ≡ true
      → some_digits_to_end ch t ≡ true
      → whole_part ch 46 (canon (c ∷ t)) ≡ true
  unfolding whole_part
  whole_part-mark c t h w = rw (canon-mark c t h) (canon-fraction t w)

  whole_part-canon : (t : Text) → whole_part ch mark t ≡ true → whole_part ch 46 (canon t) ≡ true
  unfolding whole_part remove replace
  whole_part-canon [] h = refl
  whole_part-canon (c ∷ t) h = elim (Bool-cases (c == mark)) [
    | inl e ↦ whole_part-mark c t e (rw e at h)
    | inr e ↦
        let d = and_left _ _ (rw e at h) in
        rw (canon-digit c t d) (
          whole_part-digit c (canon t) d
            (whole_part-canon t (and_right (ch.is_decimal c) _ (rw e at h))))
  ]

  group-canon :
      (x y z : ℕ) (t : Text)
      → ch.is_decimal x ≡ true
      → ch.is_decimal y ≡ true
      → ch.is_decimal z ≡ true
      → whole_part ch 46 (canon t) ≡ true
      → whole_part ch 46 (canon (x ∷ y ∷ z ∷ t)) ≡ true
  group-canon x y z t hx hy hz h = rw (canon-digit x (y ∷ z ∷ t) hx) (
      whole_part-digit x _ hx (
        rw (canon-digit y (z ∷ t) hy)
          (whole_part-digit y _ hy (rw (canon-digit z t hz) (whole_part-digit z _ hz h)))))

  groups-canon : (t : Text) → groups ch sep mark t ≡ true → whole_part ch 46 (canon t) ≡ true
  unfolding groups whole_part remove replace
  groups-canon [] h = refl
  groups-canon (c ∷ x ∷ y ∷ z ∷ t) h = elim (Bool-cases (c == sep)) [
    | inl e ↦
        let w = rw e at h in
        rw (canon-sep c (x ∷ y ∷ z ∷ t) e) (
          group-canon x y z t (and_left _ _ w) (and_left _ _ (and_right (ch.is_decimal x) _ w))
            (and_left _ _ (and_right (ch.is_decimal y) _ (and_right (ch.is_decimal x) _ w)))
            (groups-canon t (
              and_right (ch.is_decimal z) _
                (and_right (ch.is_decimal y) _ (and_right (ch.is_decimal x) _ w)))))
    | inr e ↦
        let w = rw e at h in whole_part-mark c (x ∷ y ∷ z ∷ t) (and_left _ _ w) (and_right _ _ w)
  ]
  groups-canon (c ∷ []) h = whole_part-mark c [] (and_left _ _ h) (and_right _ _ h)
  groups-canon (c ∷ x ∷ []) h = whole_part-mark c (x ∷ []) (and_left _ _ h) (and_right _ _ h)
  groups-canon (c ∷ x ∷ y ∷ []) h =
      whole_part-mark c (x ∷ y ∷ []) (and_left _ _ h) (and_right _ _ h)

  plain-canon : (t : Text) → plain ch mark t ≡ true → plain ch 46 (canon t) ≡ true
  unfolding plain
  plain-canon [] h = cc
  plain-canon (c ∷ t) h =
      let d = and_left _ _ h in
      rw (canon-digit c t d) (rw d (whole_part-canon t (and_right (ch.is_decimal c) _ h)))

  plain-whole_part : (t : Text) → plain ch 46 t ≡ true → whole_part ch 46 t ≡ true
  unfolding plain
  plain-whole_part [] h = cc
  plain-whole_part (c ∷ t) h = whole_part-digit c t (and_left _ _ h) (and_right _ _ h)

  some_groups-canon :
      (t : Text) → some_groups ch sep mark t ≡ true → whole_part ch 46 (canon t) ≡ true
  unfolding some_groups
  some_groups-canon [] h = cc
  some_groups-canon (c ∷ t) h = groups-canon (c ∷ t) (and_right (c == sep) _ h)

  grouped-canon : (n : ℕ) (t : Text) → grouped ch n sep mark t ≡ true → plain ch 46 (canon t) ≡ true
  unfolding grouped plain
  grouped-canon zero t h = cc
  grouped-canon (suc n) [] h = cc
  grouped-canon (suc n) (c ∷ t) h =
      let d = and_left _ _ h in
      rw (canon-digit c t d) (
        rw d (elim (Bool-cases (some_groups ch sep mark t)) [
          | inl e ↦ some_groups-canon t e
          | inr e ↦
              plain-whole_part (canon t)
                (grouped-canon n t (rw e at (and_right (ch.is_decimal c) _ h)))
        ]))

  -- The sign in front is kept.
  unsigned-canon :
      (t : Text)
      → ((c : ℕ) → ch.is_decimal c ≡ true → is_sign c ≡ false)
      → ((c : ℕ) → is_sign c ≡ true → ((c == sep) ≡ false) × ((c == mark) ≡ false))
      → plain ch 46 (canon (unsigned t)) ≡ true
      → plain ch 46 (unsigned (canon t)) ≡ true
  unfolding unsigned remove replace
  unsigned-canon [] no_sign kept h = h
  unsigned-canon (c ∷ t) no_sign kept h = elim (Bool-cases (is_sign c)) [
    | inl e ↦ rw ((kept c e).0) (rw ((kept c e).1, e) (rw e at h))
    | inr e ↦ let w = rw e at h in rw (unsigned-plain ch (canon (c ∷ t)) no_sign w) w
  ]

-- The separators and the signs are no digits.
pub record IsDigits {F : Type 0} (ch : Characters F) : Type 0 where
  pub comma : ch.is_decimal 44 ≡ false
  pub point : ch.is_decimal 46 ≡ false
  pub plus : ch.is_decimal 43 ≡ false
  pub minus : ch.is_decimal 45 ≡ false

module _ {F : Type 0} (ch : Characters F) (d : IsDigits ch) where
  no_match : (k c : ℕ) → ch.is_decimal k ≡ false → ch.is_decimal c ≡ true → (c == k) ≡ false
  no_match k c h g = elim (Bool-cases (c == k)) [
    | inl e ↦ let same = ap ch.is_decimal ((==_iff c k).0 e) in cc
    | inr e ↦ e
  ]

  point_free : (c : ℕ) → ch.is_decimal c ≡ true → (c == 46) ≡ false
  point_free c h = no_match 46 c d.point h

  not-sign : (c : ℕ) → ch.is_decimal c ≡ true → is_sign c ≡ false
  unfolding is_sign
  not-sign c h = rw (no_match 43 c d.plus h, no_match 45 c d.minus h) refl

  sign-apart : (c : ℕ) → is_sign c ≡ true → ((c == 44) ≡ false) × ((c == 46) ≡ false)
  unfolding is_sign
  sign-apart c h = (ground arith, ground arith)

  -- A number in canonical form: a sign or none, digits, and a point with digits or none.
  abbrev pub IsCanonical : Text → Type 0
  IsCanonical v = plain ch 46 (unsigned v) ≡ true

  interpret_point-IsCanonical : (t v : Text) → interpret_point ch t ≡ some v → IsCanonical v
  unfolding interpret_point
  interpret_point-IsCanonical t v h = elim (Bool-cases (plain ch 46 (unsigned t))) [
    | inl e ↦ let same : t ≡ v = some_injective (rw e at h) in subst IsCanonical same e
    | inr e ↦ elim (Bool-cases (grouped ch 3 44 46 (unsigned t))) [
      | inl g ↦
          let same : remove 44 t ≡ v = some_injective (rw g at (rw e at h)) in
          subst IsCanonical (replace_same 46 (remove 44 t) ∙ same) (
            unsigned-canon ch 44 46 refl (λ c. no_match 44 c d.comma) point_free point_free t
              not-sign sign-apart
              (grouped-canon ch 44 46 refl (λ c. no_match 44 c d.comma) point_free point_free 3
                (unsigned t) g))
      | inr g ↦ let no_value : none ≡ some v = rw g at (rw e at h) in cc
    ]
  ]

  interpret_comma-IsCanonical : (t v : Text) → interpret_comma ch t ≡ some v → IsCanonical v
  unfolding interpret_comma canonical_comma
  interpret_comma-IsCanonical t v h =
      let canonical =
        unsigned-canon ch 46 44 refl point_free (λ c. no_match 44 c d.comma) point_free t not-sign
          (λ (c : ℕ) (q : is_sign c ≡ true). ((sign-apart c q).1, (sign-apart c q).0)) in
      elim (Bool-cases (plain ch 44 (unsigned t))) [
        | inl e ↦ subst IsCanonical (some_injective (rw e at h)) (
            canonical (
              plain-canon ch 46 44 refl point_free (λ c. no_match 44 c d.comma) point_free
                (unsigned t) e))
        | inr e ↦ elim (Bool-cases (grouped ch 3 46 44 (unsigned t))) [
          | inl g ↦ subst IsCanonical (some_injective (rw g at (rw e at h))) (
              canonical (
                grouped-canon ch 46 44 refl point_free (λ c. no_match 44 c d.comma) point_free 3
                  (unsigned t) g))
          | inr g ↦ let no_value : none ≡ some v = rw g at (rw e at h) in cc
        ]
      ]

  agreed-either : (o q : Option Text) (v : Text) → agreed o q ≡ some v → (o ≡ some v) ⊎ (q ≡ some v)
  unfolding agreed
  agreed-either none q v h = inr h
  agreed-either (some a) none v h = inl h
  agreed-either (some a) (some b) v h = elim (Bool-cases (same_text a b)) [
    | inl e ↦ inl (rw e at h)
    | inr e ↦ let no_value : none ≡ some v = rw e at h in cc
  ]

  pub interpret-IsCanonical :
      (mode : SeparatorMode) (t v : Text) → interpret ch mode t ≡ some v → IsCanonical v
  unfolding interpret
  interpret-IsCanonical point t v h = interpret_point-IsCanonical t v h
  interpret-IsCanonical comma t v h = interpret_comma-IsCanonical t v h
  interpret-IsCanonical auto t v h =
      elim (agreed-either (interpret_point ch t) (interpret_comma ch t) v h) [
        | inl e ↦ interpret_point-IsCanonical t v e
        | inr e ↦ interpret_comma-IsCanonical t v e
      ]

  -- Without its plus a canonical number is canonical.
  pub drop_plus-IsCanonical : (v : Text) → IsCanonical v → IsCanonical (drop_plus v)
  unfolding drop_plus unsigned is_sign
  drop_plus-IsCanonical [] h = h
  drop_plus-IsCanonical (c ∷ t) h = elim (Bool-cases (c == 43)) [
    | inl e ↦ let w = rw e at h in rw e (rw (unsigned-plain ch t not-sign w) w)
    | inr e ↦ rw e h
  ]
