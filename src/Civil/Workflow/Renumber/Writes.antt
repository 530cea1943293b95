-- ===== src/Civil/Workflow/Renumber/Writes.antt =====
-- workflow.py: `renumber_points`, and the approved points.
use screen2xyz_civil_plan_di.Prelude.{
  String, Option, none, some, not, ◌||◌, List, [], ◌∷◌, map, length, is_empty,
}
use screen2xyz_civil_plan_di.Prelude.Int.{ℤ, pos}
use screen2xyz_civil_plan_di.Civil.Json.{int, str, list}
use screen2xyz_civil_plan_di.Civil.Workflow.{workflow_error, Runtime}
use screen2xyz_civil_plan_di.Civil.Workflow.Triple.{
  OnPoints, Triple, ◌⟫◌, Triple-pure, Triple-gets, Triple-or_raise, Triple-require, Triple-clock,
  Triple-audit,
}
use screen2xyz_civil_plan_di.Civil.Workflow.Gate.{AllReady}
use screen2xyz_civil_plan_di.Civil.Workflow.Gate.Writes.{
  Triple-reads, Triple-notes, Triple-mark_stale,
}
use screen2xyz_civil_plan_di.Civil.Workflow.Renumber.{
  settings, has_repeats, numbers_from, is_taken, selected, chosen, assign, renumber_points,
}

module _ {F : Type 0} where
  pub Triple-selected : {K : OnPoints F} (ids : List String) → Triple K K (selected {F = F} ids)
  unfolding selected
  Triple-selected [] = Triple-pure []
  Triple-selected (id ∷ ids) =
      Triple-reads id ⟫ λ p. Triple-selected ids ⟫ λ ps. Triple-pure (p ∷ ps)

  pub Triple-chosen :
      {K : OnPoints F} (ids : Option (List String)) → Triple K K (chosen {F = F} ids)
  unfolding chosen
  Triple-chosen none = Triple-gets (λ p. p.points)
  Triple-chosen (some ids) = Triple-selected ids

  assign-AllReady :
      (t : String) (ids numbers : List String)
      → Triple AllReady AllReady (assign {F = F} t ids numbers)
  unfolding assign
  assign-AllReady t (id ∷ ids) (number ∷ numbers) =
      Triple-notes id (λ p. record p { point_number = number; updated_at = t }) (λ p h. h) ⟫ λ _.
      assign-AllReady t ids numbers
  assign-AllReady t [] numbers = Triple-pure tt
  assign-AllReady t (id ∷ ids) [] = Triple-pure tt

module _ (rt : Runtime) where
  open rt use {fl, format}

  pub renumber_points-AllReady :
      (point_ids : Option (List String)) (prefix : String) (start padding : ℤ)
      → Triple AllReady AllReady (renumber_points rt point_ids prefix start padding)
  unfolding renumber_points
  renumber_points-AllReady point_ids prefix start padding =
      Triple-or_raise workflow_error (settings start padding) ⟫ λ set.
      Triple-chosen point_ids ⟫ λ points.
      Triple-require (not (is_empty points)) workflow_error (λ some_points.
        let ids = map (λ p. p.id) points in
        let numbers = numbers_from prefix set.1 set.0 ids in
        Triple-gets (λ p. is_taken ids numbers p.points) ⟫ λ taken.
        Triple-require (not (has_repeats numbers || taken)) workflow_error (λ free.
          Triple-clock rt ⟫ λ t. assign-AllReady t ids numbers ⟫ λ _. Triple-mark_stale ⟫ λ _.
          Triple-audit rt "POINTS_RENUMBERED"
            (format "Renumbered {} Point Cart rows." (int (pos (length points)) ∷ []))
            (("point_ids", list (map str ids))
              ∷ ("prefix", str prefix)
              ∷ ("start", int start)
              ∷ ("padding", int padding)
              ∷ [])
          ⟫ λ _. Triple-selected ids))
