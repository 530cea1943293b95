-- ===== src/Civil/Quality/Duplicates.antt =====
-- qa.py: which pairs of points `duplicate_pairs` lists.
use screen2xyz_civil_plan_di.Prelude.{
  ◌≡◌, ◌≢◌, refl, sym, ap, arith, eq_iff, ◌⊎◌, inl, inr, ◌↔◌, true, List, [], ◌∷◌, Bool-cases,
  subst,
}
use screen2xyz_civil_plan_di.Prelude.Floats.{Floats}
use screen2xyz_civil_plan_di.Civil.Model.{CivilPoint, CivilProject}
use screen2xyz_civil_plan_di.Civil.Vocabulary.{type_name}
use screen2xyz_civil_plan_di.Civil.Quality.{
  same_type, Pair, Spot, apart, pair_of, pairs_with, pairs_among, duplicate_pairs,
}
use screen2xyz_civil_plan_di.Civil.Quality.Spots.{
  Has, Before, Has-append, Has-append_left, Has-append_right, same_bool, PointType-path, IsOpen,
  IsOpenSpot, spot, spots, spots-Before, Before-spots,
}

module _ (fl : Floats) (tolerance conflict : fl.F) where
  open fl use {F, le, lt, sub, abs, hypot}

  -- The pair `r` is that of the spots `p` and `q`, which are within the tolerance.
  abbrev IsClose : Pair F → Spot F → Spot F → Type 0
  IsClose r p q = (le (apart fl p q) tolerance ≡ true) × (r ≡ pair_of fl conflict p q)

  pairs_with-Has :
      (r : Pair F) (p : Spot F) (qs : List (Spot F))
      → Has r (pairs_with fl tolerance conflict p qs)
      → (q : Spot F) × Has q qs × IsClose r p q
  unfolding pairs_with
  pairs_with-Has r p [] h = elim h [ ]
  pairs_with-Has r p (q ∷ qs) h = elim (Bool-cases (le (apart fl p q) tolerance)) [
    | inl near ↦ elim (rw near at h) [
      | inl e ↦ (q, inl refl, (near, e))
      | inr later ↦ let (q', has, close) = pairs_with-Has r p qs later in (q', inr has, close)
    ]
    | inr far ↦ let (q', has, close) = pairs_with-Has r p qs (rw far at h) in (q', inr has, close)
  ]

  Has-pairs_with :
      (r : Pair F) (p q : Spot F) (qs : List (Spot F))
      → Has q qs
      → IsClose r p q
      → Has r (pairs_with fl tolerance conflict p qs)
  unfolding pairs_with
  Has-pairs_with r p q [] h close = elim h [ ]
  Has-pairs_with r p q (s ∷ qs) (inl e) (near, same) =
      rw (subst (λ x. le (apart fl p x) tolerance ≡ true) e near)
        (inl (subst (λ x. r ≡ pair_of fl conflict p x) e same))
  Has-pairs_with r p q (s ∷ qs) (inr has) close =
      let later = Has-pairs_with r p q qs has close in
      elim (Bool-cases (le (apart fl p s) tolerance)) [
        | inl near ↦ rw near (inr later)
        | inr far ↦ rw far later
      ]

  pairs_among-Has :
      (r : Pair F) (ss : List (Spot F))
      → Has r (pairs_among fl tolerance conflict ss)
      → (p q : Spot F) × Before p q ss × IsClose r p q
  unfolding pairs_among
  pairs_among-Has r [] h = elim h [ ]
  pairs_among-Has r (p ∷ ss) h =
      elim (Has-append r (pairs_with fl tolerance conflict p ss)
        (pairs_among fl tolerance conflict ss) h) [
          | inl first ↦
              let (q, has, close) = pairs_with-Has r p ss first in (p, q, inl (refl, has), close)
          | inr later ↦
              let (p', q, before, close) = pairs_among-Has r ss later in (p', q, inr before, close)
        ]

  Has-pairs_among :
      (r : Pair F) (p q : Spot F) (ss : List (Spot F))
      → Before p q ss
      → IsClose r p q
      → Has r (pairs_among fl tolerance conflict ss)
  unfolding pairs_among
  Has-pairs_among r p q [] h close = elim h [ ]
  Has-pairs_among r p q (s ∷ ss) (inl (e, has)) close =
      Has-append_left r (pairs_with fl tolerance conflict s ss)
        (pairs_among fl tolerance conflict ss)
        (Has-pairs_with r s q ss has (subst (λ x. IsClose r x q) e close))
  Has-pairs_among r p q (s ∷ ss) (inr before) close =
      Has-append_right r (pairs_with fl tolerance conflict s ss)
        (pairs_among fl tolerance conflict ss) (Has-pairs_among r p q ss before close)

  -- The pair `r` is that of the points `p` and `q`: both have local coordinates and are not rejected, they
  -- are at most the tolerance apart, and `r` has their ids, their distance and the difference of their
  -- elevations, and conflicts exactly when that is above the limit or their types differ.
  abbrev pub IsDuplicate : Pair F → CivilPoint F → CivilPoint F → Type 0
  IsDuplicate r p q =
      (pe pn qe qn : F) × IsOpen p pe pn
      × IsOpen q qe qn
      × (le (hypot (sub pe qe) (sub pn qn)) tolerance ≡ true)
      × (r.left ≡ p.id)
      × (r.right ≡ q.id)
      × (r.distance_m ≡ hypot (sub pe qe) (sub pn qn))
      × (r.elevation_delta_m ≡ abs (sub p.elevation q.elevation))
      × ((r.conflicting ≡ true)
          ↔ (lt conflict (abs (sub p.elevation q.elevation)) ≡ true)
            ⊎ (p.point_type ≢ q.point_type))

  conflicts :
      (s t : Spot F)
      → ((pair_of fl conflict s t).conflicting ≡ true)
        ↔ (lt conflict (abs (sub s.point.elevation t.point.elevation)) ≡ true)
          ⊎ (s.point.point_type ≢ t.point.point_type)
  conflicts s t = elim (Bool-cases (lt conflict (abs (sub s.point.elevation t.point.elevation)))) [
    | inl e ↦ (λ h. inl e, λ h. ground (arith, e))
    | inr e ↦ (
      λ h.
          inr (λ same. let path = (eq_iff _ _).1 (ap type_name same) in ground (arith, e, h, path)),
      λ h. elim h [
        | inl f ↦ cc
        | inr other ↦ elim (Bool-cases (same_type s.point.point_type t.point.point_type)) [
          | inl same ↦
              absurd
                (other (PointType-path s.point.point_type t.point.point_type ((eq_iff _ _).0 same)))
          | inr differ ↦ ground (arith, e, differ)
        ]
      ],
    )
  ]

  IsClose-IsDuplicate :
      (r : Pair F) (s t : Spot F)
      → IsOpenSpot s
      → IsOpenSpot t
      → IsClose r s t
      → IsDuplicate r s.point t.point
  IsClose-IsDuplicate r s t o k (near, same) = (
    s.east,
    s.north,
    t.east,
    t.north,
    o,
    k,
    near,
    ap (λ x. x.left) same,
    ap (λ x. x.right) same,
    ap (λ x. x.distance_m) same,
    ap (λ x. x.elevation_delta_m) same,
    subst
        (λ b.
          (b ≡ true)
          ↔ (lt conflict (abs (sub s.point.elevation t.point.elevation)) ≡ true)
            ⊎ (s.point.point_type ≢ t.point.point_type))
        (sym (ap (λ x. x.conflicting) same)) (conflicts s t),
  )

  -- `duplicate_pairs` lists exactly the pairs of two points, the one before the other in the project,
  -- that have local coordinates, are not rejected, and are at most the tolerance apart, each with its ids,
  -- distance and difference of elevations, and as conflicting exactly when the difference is above the
  -- limit or the types differ.
  pub duplicate_pairs_exact :
      (project : CivilProject F) (r : Pair F)
      → Has r (duplicate_pairs fl project tolerance conflict)
        ↔ ((p q : CivilPoint F) × Before p q project.points × IsDuplicate r p q)
  unfolding duplicate_pairs
  duplicate_pairs_exact project r = (
    λ h.
        let (s, t, before, close) = pairs_among-Has r (spots project.points) h in
        let (b, o, k) = spots-Before s t project.points before in
        (s.point, t.point, b, IsClose-IsDuplicate r s t o k close),
    λ (p, q, before, (pe, pn, qe, qn, o, k, near, left, right, distance, delta, conflicting)).
        let s = spot p pe pn in
        let t = spot q qe qn in
        let c = conflicts s t in
        let same =
          same_bool r.conflicting (pair_of fl conflict s t).conflicting
            (λ h. c.1 (conflicting.0 h), λ h. conflicting.1 (c.0 h)) in
        Has-pairs_among r s t (spots project.points)
          (Before-spots p pe pn q qe qn project.points before o k)
          (
            near,
            λ i. record {
              left = left i;
              right = right i;
              distance_m = distance i;
              elevation_delta_m = delta i;
              conflicting = same i;
            },
          ),
  )
