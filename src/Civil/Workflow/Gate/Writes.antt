-- ===== src/Civil/Workflow/Gate/Writes.antt =====
-- workflow.py: writes to one point, and the approved points.
use screen2xyz_civil_plan_di.Prelude.{◌≡◌, refl, Bool, true, false, String, List, arith, ◌&&◌}
use screen2xyz_civil_plan_di.Civil.Vocabulary.{ReviewStatus, is_approved}
use screen2xyz_civil_plan_di.Civil.Model.{CivilPoint}
use screen2xyz_civil_plan_di.Civil.Workflow.{
  model_error, Action, get_point, write_point, find_point, update_point, mark_stale,
}
use screen2xyz_civil_plan_di.Civil.Workflow.Triple.{
  OnPoints, Triple, ◌⟫◌, Triple-gets, Triple-or_raise, Triple-modify,
}
use screen2xyz_civil_plan_di.Civil.Workflow.Gate.{
  IsReady, AllReady, ReadyBut, ReadyBut-update_point, AllReady-update_point, AllReady-update_keeps,
}

module _ {F A : Type 0} {K K' L : OnPoints F} where
  pub Triple-from :
      {m : Action F A} → ((ps : List (CivilPoint F)) → K ps → K' ps) → Triple K' L m → Triple K L m
  Triple-from h t = record { at = λ d k. t.at d (h d.project.points k) }

pub located_parts : (t a b : Bool) → t ≡ true → a && b ≡ true → (t ≡ true) × (a ≡ true) × (b ≡ true)
located_parts t a b e h = ground arith

pub rejected-not_approved : is_approved ReviewStatus.rejected ≡ false
unfolding is_approved
rejected-not_approved = refl

pub review_required-not_approved : is_approved ReviewStatus.review_required ≡ false
unfolding is_approved
review_required-not_approved = refl

module _ {F : Type 0} where
  pub Triple-reads : {K : OnPoints F} (id : String) → Triple K K (get_point {F = F} id)
  Triple-reads id =
      Triple-gets (λ p. p.points) ⟫ λ ps. Triple-or_raise model_error (find_point id ps)

  pub Triple-write :
      {K L : OnPoints F} (id : String) (f : CivilPoint F → CivilPoint F)
      → ((ps : List (CivilPoint F)) → K ps → L (update_point id f ps))
      → Triple K L (write_point id f)
  Triple-write id f h =
      Triple-modify (λ p. record p { points = update_point id f p.points }) (λ p. h p.points)

  -- A write that touches neither the status, the class nor the coordinates.
  pub Triple-notes :
      (id : String) (f : CivilPoint F → CivilPoint F)
      → ((p : CivilPoint F) → IsReady p → IsReady (f p))
      → Triple AllReady AllReady (write_point id f)
  Triple-notes id f keeps = Triple-write id f (AllReady-update_keeps id f keeps)

  pub Triple-drops :
      (id : String) (f : CivilPoint F → CivilPoint F)
      → ((p : CivilPoint F) → IsReady (f p))
      → Triple (ReadyBut id) AllReady (write_point id f)
  Triple-drops id f ready = Triple-write id f (AllReady-update_point id f ready)

  pub Triple-edits :
      (id : String) (f : CivilPoint F → CivilPoint F)
      → ((p : CivilPoint F) → (f p).id ≡ p.id)
      → Triple (ReadyBut id) (ReadyBut id) (write_point id f)
  Triple-edits id f same = Triple-write id f (ReadyBut-update_point id f same)

  pub Triple-mark_stale : {K : OnPoints F} → Triple K K (mark_stale {F = F})
  Triple-mark_stale = record { at = λ d h. h }
