-- ===== src/Civil/Quality/Spots.antt =====
-- qa.py: the points that `duplicate_pairs` compares, as points of the project.
use screen2xyz_civil_plan_di.Prelude.{
  ◌≡◌, ◌≢◌, refl, sym, ◌∙◌, ap, arith, some, Bool, false, Option-cases, ◌⊎◌, inl, inr, ◌↔◌, true,
  List, [], ◌∷◌, ◌++◌, Bool-cases, subst,
}
use screen2xyz_civil_plan_di.Civil.Model.{CivilPoint}
use screen2xyz_civil_plan_di.Civil.Vocabulary.{
  ReviewStatus, PointType, type_name, type_parse, type_parse-type_name,
}
use screen2xyz_civil_plan_di.Civil.Quality.{is_rejected_status, Spot, located, open_spots, spot_of}

module _ {A : Type 0} where
  -- `x` is an item of the list.
  abbrev pub Has : A → List A → Type 0
  Has x [] = ⊥
  Has x (y ∷ ys) = (x ≡ y) ⊎ Has x ys

  -- `x` stands before `y` in the list.
  abbrev pub Before : A → A → List A → Type 0
  Before x y [] = ⊥
  Before x y (z ∷ zs) = (x ≡ z) × Has y zs ⊎ Before x y zs

  pub Has-append : (x : A) (xs ys : List A) → Has x (xs ++ ys) → Has x xs ⊎ Has x ys
  Has-append x [] ys h = inr h
  Has-append x (y ∷ xs) ys (inl e) = inl (inl e)
  Has-append x (y ∷ xs) ys (inr h) = elim (Has-append x xs ys h) [
    | inl a ↦ inl (inr a)
    | inr b ↦ inr b
  ]

  pub Has-append_left : (x : A) (xs ys : List A) → Has x xs → Has x (xs ++ ys)
  Has-append_left x [] ys h = elim h [ ]
  Has-append_left x (y ∷ xs) ys (inl e) = inl e
  Has-append_left x (y ∷ xs) ys (inr h) = inr (Has-append_left x xs ys h)

  pub Has-append_right : (x : A) (xs ys : List A) → Has x ys → Has x (xs ++ ys)
  Has-append_right x [] ys h = h
  Has-append_right x (y ∷ xs) ys h = inr (Has-append_right x xs ys h)

pub same_bool : (b c : Bool) → (b ≡ true) ↔ (c ≡ true) → b ≡ c
same_bool true c h = sym (h.0 refl)
same_bool false true h = h.1 refl
same_bool false false h = refl

some-injective : {A : Type 0} (a b : A) → some a ≡ some b → a ≡ b
some-injective a b h = cc

is_rejected_status-false :
    (r : ReviewStatus) → is_rejected_status r ≡ false → r ≢ ReviewStatus.rejected
unfolding is_rejected_status
is_rejected_status-false r h =
    λ e. let t : is_rejected_status r ≡ true = ap is_rejected_status e in cc

is_rejected_status-true :
    (r : ReviewStatus) → is_rejected_status r ≡ true → r ≡ ReviewStatus.rejected
unfolding is_rejected_status
is_rejected_status-true r h = ground arith

pub PointType-path : (t u : PointType) → type_name t ≡ type_name u → t ≡ u
PointType-path t u h =
    some-injective t u (sym (type_parse-type_name t) ∙ ap type_parse h ∙ type_parse-type_name u)

module _ {F : Type 0} where
  -- The point has the local coordinates `e` and `n` and is not rejected.
  abbrev pub IsOpen : CivilPoint F → F → F → Type 0
  IsOpen p e n =
      (p.local_east ≡ some e) × (p.local_north ≡ some n) × (p.review_status ≢ ReviewStatus.rejected)

  abbrev pub IsOpenSpot : Spot F → Type 0
  IsOpenSpot s = IsOpen s.point s.east s.north

  abbrev pub spot : CivilPoint F → F → F → Spot F
  spot p e n = record { point = p; east = e; north = n }

  abbrev pub spots : List (CivilPoint F) → List (Spot F)
  spots ps = open_spots (located ps)

  open_spots-rejected :
      (s : Spot F) (ss : List (Spot F))
      → is_rejected_status s.point.review_status ≡ true
      → open_spots (s ∷ ss) ≡ open_spots ss
  unfolding open_spots
  open_spots-rejected s ss h = rw h refl

  open_spots-kept :
      (s : Spot F) (ss : List (Spot F))
      → is_rejected_status s.point.review_status ≡ false
      → open_spots (s ∷ ss) ≡ s ∷ open_spots ss
  unfolding open_spots
  open_spots-kept s ss h = rw h refl

  -- The head of the list is a spot, or no coordinates make it one.
  spots-cons :
      (p : CivilPoint F) (ps : List (CivilPoint F))
      → ((e n : F) × IsOpen p e n × (spots (p ∷ ps) ≡ spot p e n ∷ spots ps))
        ⊎ ((e n : F) → ¬ IsOpen p e n) × (spots (p ∷ ps) ≡ spots ps)
  unfolding open_spots located
  spots-cons p ps = elim (Option-cases p.local_east) [
    | inl e ↦
        inr ((λ e' n' h. cc), ap (λ o. open_spots (spot_of p o p.local_north ++ located ps)) e)
    | inr (e, pe) ↦ elim (Option-cases p.local_north) [
      | inl n ↦ inr (
        (λ e' n' h. cc),
        ap (λ o. open_spots (spot_of p o p.local_north ++ located ps)) pe
            ∙ ap (λ o. open_spots (spot_of p (some e) o ++ located ps)) n,
      )
      | inr (n, pn) ↦ elim (Bool-cases (is_rejected_status p.review_status)) [
        | inl r ↦ inr (
          (λ e' n' h. absurd (h.2 (is_rejected_status-true p.review_status r))),
          ap (λ o. open_spots (spot_of p o p.local_north ++ located ps)) pe
              ∙ ap (λ o. open_spots (spot_of p (some e) o ++ located ps)) pn
              ∙ open_spots-rejected (spot p e n) (located ps) r,
        )
        | inr r ↦ inl (
          e,
          n,
          (pe, pn, is_rejected_status-false p.review_status r),
          ap (λ o. open_spots (spot_of p o p.local_north ++ located ps)) pe
              ∙ ap (λ o. open_spots (spot_of p (some e) o ++ located ps)) pn
              ∙ open_spots-kept (spot p e n) (located ps) r,
        )
      ]
    ]
  ]

  spot_of_point :
      (p q : CivilPoint F) (e n e' n' : F)
      → p ≡ q
      → IsOpen p e n
      → IsOpen q e' n'
      → spot p e n ≡ spot q e' n'
  spot_of_point p q e n e' n' same h k =
      let east : e ≡ e' = some-injective e e' (sym h.0 ∙ ap (λ x. x.local_east) same ∙ k.0) in
      let north : n ≡ n' = some-injective n n' (sym h.1 ∙ ap (λ x. x.local_north) same ∙ k.1) in
      λ i. spot (same i) (east i) (north i)

  spots-nil : spots [] ≡ []
  unfolding open_spots located
  spots-nil = refl

  spots-Has :
      (s : Spot F) (ps : List (CivilPoint F)) → Has s (spots ps) → Has s.point ps × IsOpenSpot s
  spots-Has s [] h = elim (subst (Has s) spots-nil h) [ ]
  spots-Has s (p ∷ ps) h = elim (spots-cons p ps) [
    | inl (e, n, o, path) ↦ elim (subst (Has s) path h) [
      | inl same ↦ (inl (ap (λ x. x.point) same), subst IsOpenSpot (sym same) o)
      | inr later ↦ let (has, o') = spots-Has s ps later in (inr has, o')
    ]
    | inr (closed, path) ↦ let (has, o') = spots-Has s ps (subst (Has s) path h) in (inr has, o')
  ]

  Has-spots :
      (p : CivilPoint F) (e n : F) (ps : List (CivilPoint F))
      → Has p ps
      → IsOpen p e n
      → Has (spot p e n) (spots ps)
  Has-spots p e n [] h o = elim h [ ]
  Has-spots p e n (q ∷ qs) h o = elim (spots-cons q qs) [
    | inl (e', n', o', path) ↦ subst (Has (spot p e n)) (sym path) (elim h [
      | inl same ↦ inl (spot_of_point p q e n e' n' same o o')
      | inr later ↦ inr (Has-spots p e n qs later o)
    ])
    | inr (closed, path) ↦ subst (Has (spot p e n)) (sym path) (elim h [
      | inl same ↦ absurd (closed e n (subst (λ x. IsOpen x e n) same o))
      | inr later ↦ Has-spots p e n qs later o
    ])
  ]

  pub spots-Before :
      (s t : Spot F) (ps : List (CivilPoint F))
      → Before s t (spots ps)
      → Before s.point t.point ps × IsOpenSpot s × IsOpenSpot t
  spots-Before s t [] h = elim (subst (Before s t) spots-nil h) [ ]
  spots-Before s t (p ∷ ps) h = elim (spots-cons p ps) [
    | inl (e, n, o, path) ↦ elim (subst (Before s t) path h) [
      | inl (same, has) ↦
          let (later, o') = spots-Has t ps has in
          (inl (ap (λ x. x.point) same, later), subst IsOpenSpot (sym same) o, o')
      | inr rest ↦ let (b, o1, o2) = spots-Before s t ps rest in (inr b, o1, o2)
    ]
    | inr (closed, path) ↦
        let (b, o1, o2) = spots-Before s t ps (subst (Before s t) path h) in (inr b, o1, o2)
  ]

  pub Before-spots :
      (p : CivilPoint F) (e n : F) (q : CivilPoint F) (e' n' : F) (ps : List (CivilPoint F))
      → Before p q ps
      → IsOpen p e n
      → IsOpen q e' n'
      → Before (spot p e n) (spot q e' n') (spots ps)
  Before-spots p e n q e' n' [] h o o' = elim h [ ]
  Before-spots p e n q e' n' (r ∷ rs) h o o' = elim (spots-cons r rs) [
    | inl (f, m, k, path) ↦ subst (Before (spot p e n) (spot q e' n')) (sym path) (elim h [
      | inl (same, has) ↦ inl (spot_of_point p r e n f m same o k, Has-spots q e' n' rs has o')
      | inr rest ↦ inr (Before-spots p e n q e' n' rs rest o o')
    ])
    | inr (closed, path) ↦ subst (Before (spot p e n) (spot q e' n')) (sym path) (elim h [
      | inl (same, has) ↦ absurd (closed e n (subst (λ x. IsOpen x e n) same o))
      | inr rest ↦ Before-spots p e n q e' n' rs rest o o'
    ])
  ]
