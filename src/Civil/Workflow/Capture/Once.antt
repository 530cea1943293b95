-- ===== src/Civil/Workflow/Capture/Once.antt =====
-- workflow.py: how often a candidate is in the cart, and the approved points, after a capture.
use screen2xyz_civil_plan_di.Prelude.{
  ℕ, ◌+◌, ◌≤◌, ◌≡◌, refl, ap, ◌∙◌, sym, String, Option, none, some, true, false, not, List, [], ◌∷◌,
  ◌++◌, arith, eq_iff, if◌then◌else◌, All-append, Bool-cases, inl, inr,
}
use screen2xyz_civil_plan_di.Civil.Vocabulary.{type_name, is_terrain}
use screen2xyz_civil_plan_di.Civil.Model.{
  PixelPoint, Calibration, CivilPoint, CivilProject, point_valid,
}
use screen2xyz_civil_plan_di.Civil.Ids.{next_point_id}
use screen2xyz_civil_plan_di.Civil.Workflow.{
  Fault, Runtime, Desk, Action, workflow_error, model_error, gets, require, modify, audit, pure,
  in_crop, ◌>>=◌, ◌>>◌,
}
use screen2xyz_civil_plan_di.Civil.Workflow.Triple.{
  OnPoints, Post, Triple, ◌⟫◌, Triple-pure, Triple-gets, Triple-modify, Triple-require,
  Triple-or_raise, Triple-clock, Triple-audit, Triple-validate_elevation,
}
use screen2xyz_civil_plan_di.Civil.Workflow.Points.{located, append_point}
use screen2xyz_civil_plan_di.Civil.Workflow.Gate.Project.{
  Triple-ensure, approved-located, unreviewed-not_approved,
}
use screen2xyz_civil_plan_di.Civil.Workflow.Gate.{IsReady, AllReady}
use screen2xyz_civil_plan_di.Civil.Workflow.Capture.{
  CandidateEvidence, Capture, capturable, same_capture, is_captured, captured_point, capture_extra,
  capture_assisted_point,
}

module _ {F : Type 0} where
  -- How many points come from a candidate in a mode.
  abbrev pub captures : String → String → List (CivilPoint F) → ℕ
  captures candidate mode [] = 0
  captures candidate mode (p ∷ ps) =
      (if same_capture candidate mode p then 1 else 0) + captures candidate mode ps

  captures-append :
      (candidate mode : String) (ps : List (CivilPoint F)) (q : CivilPoint F)
      → captures candidate mode (ps ++ (q ∷ []))
        ≡ captures candidate mode ps + (if same_capture candidate mode q then 1 else 0)
  captures-append candidate mode [] q = omega arith
  captures-append candidate mode (p ∷ ps) q = omega (arith, captures-append candidate mode ps q)

  captures-is_captured :
      (candidate mode : String) (ps : List (CivilPoint F))
      → is_captured candidate mode ps ≡ false
      → captures candidate mode ps ≡ 0
  unfolding is_captured
  captures-is_captured candidate mode [] h = refl
  captures-is_captured candidate mode (p ∷ ps) h =
      ground (arith, captures-is_captured candidate mode ps)

  same-is_captured :
      (candidate mode : String) (q : CivilPoint F) (ps : List (CivilPoint F))
      → same_capture candidate mode q ≡ true
      → is_captured q.capture_candidate_id q.capture_mode ps ≡ false
      → is_captured candidate mode ps ≡ false
  same-is_captured candidate mode q ps e n =
      let one : q.capture_candidate_id ≡ candidate =
        ground (arith, eq_iff q.capture_candidate_id candidate) in
      let two : q.capture_mode ≡ mode = ground (arith, eq_iff q.capture_mode mode) in
      ap (λ c. is_captured c mode ps) (sym one)
      ∙ ap (λ m. is_captured q.capture_candidate_id m ps) (sym two)
      ∙ n

  -- A point of a candidate and mode that no point has yet
  captures-new :
      (candidate mode : String) (ps : List (CivilPoint F)) (q : CivilPoint F)
      → captures candidate mode ps ≤ 1
      → is_captured q.capture_candidate_id q.capture_mode ps ≡ false
      → captures candidate mode (ps ++ (q ∷ [])) ≤ 1
  captures-new candidate mode ps q h n = elim (Bool-cases (same_capture candidate mode q)) [
    | inl e ↦
        let none_yet =
          captures-is_captured candidate mode ps (same-is_captured candidate mode q ps e n) in
        let more = captures-append candidate mode ps q in rw (more) (rw e (omega (arith, none_yet)))
    | inr e ↦ let more = captures-append candidate mode ps q in rw (more) (rw e (omega (arith, h)))
  ]

  Triple-not_taken :
      {A : Type 0} {K L : OnPoints F} (candidate mode : String) (e : Fault) (m : Action F A)
      → Triple (λ ps. K ps × (is_captured candidate mode ps ≡ false)) L m
      → Triple K L
          (gets (λ p. is_captured candidate mode p.points) >>= λ taken. require (not taken) e >> m)
  Triple-not_taken candidate mode e m h = record {
    at = λ d k. elim (Bool-cases (is_captured candidate mode d.project.points)) [
      | inl taken ↦ rw taken tt
      | inr new ↦ rw new (h.at d (k, new))
    ];
  }

module _ (rt : Runtime) where
  open rt use {fl}
  open fl use {F}

  located-capture :
      (c : Option (Calibration F)) (pixel : PixelPoint F) (p : CivilPoint F)
      → ((located rt c pixel p).capture_candidate_id ≡ p.capture_candidate_id)
        × ((located rt c pixel p).capture_mode ≡ p.capture_mode)
  located-capture none pixel p = (refl, refl)
  located-capture (some c) pixel p = (refl, refl)

  append_captured :
      (candidate mode : String) (from taken_mode : String) (q : CivilPoint F)
      → (q.capture_candidate_id ≡ from) × (q.capture_mode ≡ taken_mode)
      → Triple
          (λ ps. (captures candidate mode ps ≤ 1) × (is_captured from taken_mode ps ≡ false))
          (λ ps. captures candidate mode ps ≤ 1)
          (modify (append_point rt q))
  unfolding append_point
  append_captured candidate mode from taken_mode q (same_id, same_mode) =
      Triple-modify (append_point rt q) (λ p k. captures-new candidate mode p.points q k.0 (
        ap (λ c. is_captured c q.capture_mode p.points) same_id
        ∙ ap (λ m. is_captured from m p.points) same_mode
        ∙ k.1))

  -- A capture keeps what its new point keeps: the point comes of a candidate and mode that none has.
  Triple-capture :
      {K L : OnPoints F} (e : CandidateEvidence F) (a : Capture F)
      → ((elevation : F) (project : CivilProject F) (id t : String)
          → Triple
              (λ ps. K ps × (is_captured e.candidate_id (type_name a.capture_mode) ps ≡ false))
              L
              (modify (append_point rt (captured_point rt e a elevation project id t))))
      → Triple K L (capture_assisted_point rt e a)
  unfolding capture_assisted_point
  Triple-capture e a h = Triple-require (is_terrain a.capture_mode) workflow_error (λ terrain.
      Triple-require (capturable e) workflow_error (λ open_evidence.
        Triple-or_raise workflow_error e.elevation ⟫ λ elevation.
        Triple-not_taken e.candidate_id (type_name a.capture_mode) workflow_error _ (
          Triple-validate_elevation rt elevation ⟫ λ _. Triple-gets (λ p. p.crop) ⟫ λ crop.
          Triple-require (in_crop rt crop e.pixel) workflow_error (λ inside.
            Triple-gets (λ p. next_point_id p.points) ⟫ λ id. Triple-clock rt ⟫ λ t.
            Triple-gets (λ p. p) ⟫ λ project.
            let q = captured_point rt e a elevation project id t in
            Triple-ensure (point_valid fl q) model_error q
              (λ x.
                modify (append_point rt x)
                >> (audit rt "ASSISTED_POINT_CAPTURED"
                      "Indexed suggestion promoted into the Point Cart for explicit review."
                      (capture_extra rt e a id)
                    >> pure x))
              (h elevation project id t ⟫ λ _.
                Triple-audit rt "ASSISTED_POINT_CAPTURED"
                  "Indexed suggestion promoted into the Point Cart for explicit review."
                  (capture_extra rt e a id)
                ⟫ λ _. Triple-pure q)))))

  pub capture-AllReady :
      (e : CandidateEvidence F) (a : Capture F)
      → Triple AllReady AllReady (capture_assisted_point rt e a)
  unfolding append_point
  capture-AllReady e a = Triple-capture e a (λ elevation project id t.
      let q = captured_point rt e a elevation project id t in
      Triple-modify (append_point rt q) (λ p k.
        All-append IsReady p.points (q ∷ []) k.0
          (inl (approved-located rt project.calibration e.pixel _ ∙ unreviewed-not_approved), tt)))

  -- Where at most one point comes from a candidate in a mode and `capture_assisted_point` succeeds, with
  -- that candidate and mode or others, at most one point comes from the candidate in the mode after it.
  pub captured_at_most_once :
      (candidate mode : String) (e : CandidateEvidence F) (a : Capture F) (d : Desk F)
      → captures candidate mode d.project.points ≤ 1
      → Post (λ ps. captures candidate mode ps ≤ 1) (capture_assisted_point rt e a d)
  captured_at_most_once candidate mode e a d h =
      (Triple-capture e a (λ elevation project id t.
          append_captured candidate mode e.candidate_id (type_name a.capture_mode)
            (captured_point rt e a elevation project id t)
            (located-capture project.calibration e.pixel _))).at
        d h
