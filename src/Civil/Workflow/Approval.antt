-- ===== src/Civil/Workflow/Approval.antt =====
-- workflow.py: when `approve_point` succeeds.
use screen2xyz_civil_plan_di.Prelude.{
  ◌≡◌, refl, String, Option, none, some, Bool, true, false, List, [], ◌∷◌, arith, is_some, str_eq,
  Bool-cases, inl, inr, Option-cases, ap, ◌&&◌,
}
use screen2xyz_civil_plan_di.Prelude.Int.{ℤ}
use screen2xyz_civil_plan_di.Civil.Model.{Calibration, CivilPoint, CivilProject, terrain_relevant}
use screen2xyz_civil_plan_di.Civil.Workflow.{
  validate_elevation, write_point, touch, mark_stale, log, get_point, ◌>>=◌, workflow_error,
  model_error, Action, require, ◌>>◌, Fault, or_raise, Outcome, ok, err, Runtime, Desk, find_point,
  update_point, elevation_ok,
}
use screen2xyz_civil_plan_di.Civil.Workflow.Review.{entry, approve_point, approved_status}

abbrev pub succeeds : {A : Type 0} → Outcome A → Bool
succeeds (ok a) = true
succeeds (err e) = false

module _ {F : Type 0} where
  find_point-update_point :
      (i : String) (f : CivilPoint F → CivilPoint F) (q : CivilPoint F)
      → ((p : CivilPoint F) → (f p).id ≡ p.id)
      → (ps : List (CivilPoint F)) → find_point i ps ≡ some q
      → find_point i (update_point i f ps) ≡ some (f q)
  unfolding find_point update_point
  find_point-update_point i f q same [] h = cc
  find_point-update_point i f q same (p ∷ ps) h = elim (Bool-cases (str_eq p.id i)) [
    | inl e ↦ ground (arith, same p, e)
    | inr e ↦ ground (arith, e, find_point-update_point i f q same ps)
  ]

module _ (rt : Runtime) where
  open rt use {fl, now}
  open fl use {F}

  -- What the reviewer may approve: a point of the project, once calibrated, of a terrain class, at
  -- an elevation in the plausible range, with both local coordinates.
  abbrev pub is_approvable : CivilProject F → Option (CivilPoint F) → Bool
  is_approvable p none = false
  is_approvable p (some q) =
      is_some p.calibration
      && (terrain_relevant q
          && (elevation_ok rt p q.elevation && (is_some q.local_east && is_some q.local_north)))

  -- The last step of the method finds the point that it wrote twice.
  found_again :
      (id t : String) (r : Option ℤ) (q : CivilPoint F) (ps : List (CivilPoint F))
      → find_point id ps ≡ some q
      → is_some (
          find_point id (
            update_point id
              (λ p. record p { updated_at = t; calibration_revision = r })
              (update_point id (λ p. record p { review_status = approved_status rt p }) ps)))
        ≡ true
  found_again id t r q ps h = ap is_some (
      find_point-update_point id (λ p. record p { updated_at = t; calibration_revision = r })
        (record q { review_status = approved_status rt q }) (λ p. refl)
        (update_point id (λ p. record p { review_status = approved_status rt p }) ps)
        (find_point-update_point id (λ p. record p { review_status = approved_status rt p }) q
          (λ p. refl) ps h))

  succeeds-or_raise :
      (o : Option (CivilPoint F)) (e : Fault) (d : Desk F)
      → is_some o ≡ true
      → succeeds (or_raise e o d).0 ≡ true
  succeeds-or_raise none e d h = h
  succeeds-or_raise (some q) e d h = refl

  -- Two tests and the rest.
  tests_pass :
      {A : Type 0} (b c : Bool) (e : Fault) (m : Action F A) (d : Desk F)
      → succeeds (m d).0 ≡ true
      → succeeds ((require b e >> (require c e >> m)) d).0 ≡ b && c
  tests_pass b c e m d h = ground arith

  elevation_passes :
      {A : Type 0} (a c : Bool) (x : F) (m : Action F A) (d : Desk F)
      → succeeds (m d).0 ≡ true
      → succeeds
          ((require a workflow_error
              >> (validate_elevation rt x >> (require c workflow_error >> m)))
            d).0
        ≡ a && (elevation_ok rt d.project x && c)
  elevation_passes true c x m d h = tests_pass (elevation_ok rt d.project x) c workflow_error m d h
  elevation_passes false c x m d h = refl

  abbrev approved_write : String → Calibration F → Action F (CivilPoint F)
  approved_write id c = do
    write_point id (λ p. record p { review_status = approved_status rt p })
    t ← touch rt
    write_point id (λ p. record p { updated_at = t; calibration_revision = some c.revision })
    mark_stale
    log rt (entry rt t "POINT_APPROVED" "Reviewer explicitly approved point." id)
    get_point id

  calibrated :
      (id : String) (d : Desk F) (q : CivilPoint F)
      → find_point id d.project.points ≡ some q
      → (o : Option (Calibration F))
      → succeeds
          ((or_raise workflow_error o >>= λ c.
              require (terrain_relevant q) workflow_error
              >> (validate_elevation rt q.elevation
                  >> (require (is_some q.local_east && is_some q.local_north) workflow_error
                      >> approved_write id c)))
            d).0
        ≡ is_some o
          && (terrain_relevant q
              && (elevation_ok rt d.project q.elevation
                  && (is_some q.local_east && is_some q.local_north)))
  calibrated id d q found none = refl
  calibrated id d q found (some c) =
      elevation_passes (terrain_relevant q) (is_some q.local_east && is_some q.local_north)
        q.elevation (approved_write id c) d
        (succeeds-or_raise _ model_error _
          (found_again id (now d.ticks) (some c.revision) q d.project.points found))

  -- `approve_point` succeeds exactly for the approvable points; every other call raises.
  pub approve_point-succeeds :
      (id : String) (d : Desk F)
      → succeeds (approve_point rt id d).0
        ≡ is_approvable d.project (find_point id d.project.points)
  unfolding approve_point
  approve_point-succeeds id d = elim (Option-cases (find_point id d.project.points)) [
    | inl n ↦ rw n refl
    | inr (q, found) ↦ rw found (calibrated id d q found d.project.calibration)
  ]
