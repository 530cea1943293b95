-- ===== src/Civil/Workflow/Additions.antt =====
-- workflow.py: the ids of the points that `add_manual_point` makes.
use screen2xyz_civil_plan_di.Prelude.{
  ◌≡◌, refl, String, Option, none, some, true, false, ◌||◌, List, [], ◌∷◌, ◌++◌, arith, str_eq,
  eq_iff, ap, ◌∙◌,
}
use screen2xyz_civil_plan_di.Prelude.Int.{ℤ}
use screen2xyz_civil_plan_di.Civil.Vocabulary.{PointType, is_terrain}
use screen2xyz_civil_plan_di.Civil.Json.{str}
use screen2xyz_civil_plan_di.Civil.Model.{
  PixelPoint, Calibration, CivilPoint, mem_id, unique_ids, point_valid,
}
use screen2xyz_civil_plan_di.Civil.Ids.{next_point_id, next_point_id_fresh}
use screen2xyz_civil_plan_di.Civil.Workflow.{
  Runtime, Desk, Action, workflow_error, model_error, gets, modify, audit, pure, in_crop,
  manifest_text, ◌>>=◌, ◌>>◌,
}
use screen2xyz_civil_plan_di.Civil.Workflow.Triple.{
  OnPoints, Post, Triple, ◌⟫◌, Triple-pure, Triple-gets, Triple-modify, Triple-require,
  Triple-clock, Triple-audit, Triple-validate_elevation,
}
use screen2xyz_civil_plan_di.Civil.Workflow.Points.{
  located, manual_point, append_point, add_manual_point,
}
use screen2xyz_civil_plan_di.Civil.Workflow.Gate.Project.{Triple-ensure}

module _ {F : Type 0} where
  abbrev pub HasUniqueIds : OnPoints F
  HasUniqueIds ps = unique_ids ps ≡ true

  -- The ids are unique and `id` is new.
  abbrev IsNew : String → OnPoints F
  IsNew id ps = (unique_ids ps ≡ true) × (mem_id id ps ≡ false)

  mem_id-append :
      (i : String) (q : CivilPoint F) (ps : List (CivilPoint F))
      → mem_id i (ps ++ q ∷ []) ≡ mem_id i ps || str_eq q.id i
  mem_id-append i q [] = ground arith
  mem_id-append i q (p ∷ ps) = ground (arith, mem_id-append i q ps)

  unique_ids-append :
      (q : CivilPoint F) (ps : List (CivilPoint F))
      → unique_ids ps ≡ true
      → mem_id q.id ps ≡ false
      → unique_ids (ps ++ q ∷ []) ≡ true
  unfolding unique_ids
  unique_ids-append q [] h n = refl
  unique_ids-append q (p ∷ ps) h n =
      ground
        (arith, unique_ids-append q ps, mem_id-append p.id q ps, eq_iff p.id q.id, eq_iff q.id p.id)

  Triple-next_point_id :
      {A : Type 0} {L : OnPoints F} (f : String → Action F A)
      → ((id : String) → Triple (IsNew id) L (f id))
      → Triple HasUniqueIds L (gets (λ p. next_point_id p.points) >>= f)
  Triple-next_point_id f h = record {
    at = λ d k. (h (next_point_id d.project.points)).at d (k, next_point_id_fresh d.project.points);
  }

module _ (rt : Runtime) where
  open rt use {fl}
  open fl use {F}

  manual_point-id :
      (c : Option (Calibration F)) (pixel : PixelPoint F) (p : CivilPoint F)
      → (located rt c pixel p).id ≡ p.id
  manual_point-id none pixel p = refl
  manual_point-id (some c) pixel p = refl

  append_point-HasUniqueIds :
      (id : String) (q : CivilPoint F)
      → q.id ≡ id
      → Triple (IsNew id) HasUniqueIds (modify (append_point rt q))
  unfolding append_point
  append_point-HasUniqueIds id q e =
      Triple-modify (append_point rt q)
        (λ p k. unique_ids-append q p.points k.0 (ap (λ i. mem_id i p.points) e ∙ k.1))

  add_manual_point-HasUniqueIds :
      (pixel : PixelPoint F) (elevation : F) (type : PointType) (page_index : ℤ) (label : String)
      → Triple HasUniqueIds HasUniqueIds (add_manual_point rt pixel elevation type page_index label)
  unfolding add_manual_point
  add_manual_point-HasUniqueIds pixel elevation type page_index label =
      Triple-require (is_terrain type) workflow_error (λ terrain.
        Triple-validate_elevation rt elevation ⟫ λ _. Triple-gets (λ p. p.crop) ⟫ λ crop.
        Triple-require (in_crop rt crop pixel) workflow_error (λ inside.
          Triple-next_point_id _ (λ id. Triple-clock rt ⟫ λ t.
          Triple-gets (manifest_text rt "display_name") ⟫ λ file.
          Triple-gets (manifest_text rt "sha256") ⟫ λ sha. Triple-gets (λ p. p) ⟫ λ project.
          let q = manual_point rt project id file sha pixel elevation type page_index label t in
          Triple-ensure (point_valid fl q) model_error q
            (λ x.
              modify (append_point rt x)
              >> (audit rt "POINT_ADDED" "Manual point added; explicit review is still required."
                    (("point_id", str id) ∷ [])
                  >> pure x))
            (append_point-HasUniqueIds id q (manual_point-id project.calibration pixel _) ⟫ λ _.
              Triple-audit rt "POINT_ADDED" "Manual point added; explicit review is still required."
                (("point_id", str id) ∷ [])
              ⟫ λ _. Triple-pure q))))

  -- Where the ids of the points are unique and `add_manual_point` succeeds, they are unique after it.
  pub manual_ids_stay_unique :
      (pixel : PixelPoint F) (elevation : F) (type : PointType) (page_index : ℤ) (label : String)
      (d : Desk F)
      → unique_ids d.project.points ≡ true
      → Post HasUniqueIds (add_manual_point rt pixel elevation type page_index label d)
  manual_ids_stay_unique pixel elevation type page_index label d h =
      (add_manual_point-HasUniqueIds pixel elevation type page_index label).at d h
