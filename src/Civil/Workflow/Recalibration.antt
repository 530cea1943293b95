-- ===== src/Civil/Workflow/Recalibration.antt =====
-- workflow.py: what a calibration makes of the project.
use screen2xyz_civil_plan_di.Prelude.{
  ◌≡◌, refl, ap, String, some, List, [], ◌∷◌, All, map, true, arith, Option-cases, inl, inr, subst,
}
use screen2xyz_civil_plan_di.Civil.Vocabulary.{ReviewStatus}
use screen2xyz_civil_plan_di.Civil.Model.{CivilPoint, Calibration}
use screen2xyz_civil_plan_di.Civil.Transform.{Survey, build_calibration, to_local}
use screen2xyz_civil_plan_di.Civil.Workflow.{Runtime, Desk, ok}
use screen2xyz_civil_plan_di.Civil.Workflow.Setup.{
  apply_calibration, relocate, next_revision, kept_history,
}

abbrev pub pixels : {F : Type 0} → List (CivilPoint F) → List (F × F)
pixels ps = map (λ p. (p.pixel_x, p.pixel_y)) ps

abbrev pub statuses : {F : Type 0} → List (CivilPoint F) → List ReviewStatus
statuses ps = map (λ p. p.review_status) ps

ok-injective : {A : Type 0} (a b : A) → ok a ≡ ok b → a ≡ b
ok-injective a b h = cc

module _ (rt : Runtime) where
  open rt use {fl}
  open fl use {F, literal, add, sub, mul, neg}

  -- The local coordinates of the point are those that the calibration `c` gives its pixel.
  abbrev pub IsPlaced : Calibration F → CivilPoint F → Type 0
  IsPlaced c p =
      let dx = sub p.pixel_x c.origin_pixel.x in
      let dy = sub c.origin_pixel.y p.pixel_y in
      let east = add (mul dx c.east_unit_x) (mul dy c.east_unit_y) in
      let north = add (mul dx (neg c.east_unit_y)) (mul dy c.east_unit_x) in
      (p.calibration_revision ≡ some c.revision)
      × (p.local_east ≡ some (add c.origin_east_m (mul east c.metres_per_pixel)))
      × (p.local_north ≡ some (add c.origin_north_m (mul north c.metres_per_pixel)))

  statuses-relocate :
      (c : Calibration F) (t : String) (ps : List (CivilPoint F))
      → statuses (map (relocate rt c t) ps) ≡ statuses ps
  unfolding relocate
  statuses-relocate c t [] = refl
  statuses-relocate c t (p ∷ ps) = ap (λ l. p.review_status ∷ l) (statuses-relocate c t ps)

  pixels-relocate :
      (c : Calibration F) (t : String) (ps : List (CivilPoint F))
      → pixels (map (relocate rt c t) ps) ≡ pixels ps
  unfolding relocate
  pixels-relocate c t [] = refl
  pixels-relocate c t (p ∷ ps) = ap (λ l. (p.pixel_x, p.pixel_y) ∷ l) (pixels-relocate c t ps)

  IsPlaced-relocate :
      (c : Calibration F) (t : String) (ps : List (CivilPoint F))
      → All (IsPlaced c) (map (relocate rt c t) ps)
  unfolding relocate to_local
  IsPlaced-relocate c t [] = tt
  IsPlaced-relocate c t (p ∷ ps) = ((refl, refl, refl), IsPlaced-relocate c t ps)

  -- A calibration that succeeds gives every point the revision and the local coordinates that it
  -- computes from the pixel of the point (the offset from the origin's pixel, turned into the basis and
  -- scaled, from the origin's metres), appends the old calibration to the history, marks the exports
  -- stale, and leaves the pixel and the review status of every point as they were: an approved point
  -- stays approved at its new coordinates.
  pub apply_calibration-keeps_reviews :
      (s : Survey fl) (d : Desk F) (c : Calibration F)
      → (apply_calibration rt s d).0 ≡ ok c
      → let p = (apply_calibration rt s d).1.project in
        (p.calibration ≡ some c)
        × (p.calibration_history ≡ kept_history rt d.project)
        × (p.exports_stale ≡ true)
        × All (IsPlaced c) p.points
        × (pixels p.points ≡ pixels d.project.points)
        × (statuses p.points ≡ statuses d.project.points)
  unfolding apply_calibration
  apply_calibration-keeps_reviews s d c e =
      elim (Option-cases (
        build_calibration fl (next_revision rt d.project.calibration) (rt.now d.ticks) s
          (literal "1.0"))) [
            | inl n ↦ ground (arith, n, e)
            | inr (c', b) ↦
                let same = ok-injective c' c (rw b at e) in
                rw b (
                  ap some same,
                  refl,
                  refl,
                  subst
                      (λ x.
                        All (IsPlaced x) (map (relocate rt c' (rt.now d.ticks)) d.project.points))
                      same (IsPlaced-relocate c' (rt.now d.ticks) d.project.points),
                  pixels-relocate c' (rt.now d.ticks) d.project.points,
                  statuses-relocate c' (rt.now d.ticks) d.project.points,
                )
          ]
