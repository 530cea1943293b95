-- ===== src/Civil/Workflow/Renumber.antt =====
-- workflow.py: `renumber_points`. Points are told apart by their ids, which `CivilProject` keeps unique.
pub mod Writes
pub mod Apart
use Prim.Native.String.{◌++◌ as append_text, count}
use screen2xyz_civil_plan_di.Prelude.{
  ℕ, zero, suc, ◌+◌, ◌-◌, String, Option, none, some, Bool, true, false, not, ◌&&◌, ◌||◌, List, [],
  ◌∷◌, any, map, length, is_empty, leb, str_eq, if◌then◌else◌,
}
use screen2xyz_civil_plan_di.Prelude.Int.{ℤ, pos, negsuc}
use screen2xyz_civil_plan_di.Civil.Json.{Value, int, str, list}
use screen2xyz_civil_plan_di.Civil.Model.{CivilPoint}
use screen2xyz_civil_plan_di.Civil.Ids.{decimal, zeros}
use screen2xyz_civil_plan_di.Civil.Workflow.{
  workflow_error, Runtime, Action, pure, gets, or_raise, require, mark_stale, ◌>>=◌, ◌>>◌, clock,
  audit, get_point, write_point,
}

-- The `start` and the `padding`, where the test of the settings passes
unfoldable pub settings : ℤ → ℤ → Option (ℕ × ℕ)
settings (pos start) (pos padding) =
    if leb 1 padding && leb padding 12 then some (start, padding) else none
settings _ _ = none

abbrev pub is_among : String → List String → Bool
is_among s = any (str_eq s)

-- `len(set(texts)) != len(texts)`
unfoldable pub has_repeats : List String → Bool
has_repeats [] = false
has_repeats (s ∷ texts) = is_among s texts || has_repeats texts

-- `f"{prefix}{number:0{padding}d}"`
abbrev pub number_text : String → ℕ → ℕ → String
number_text prefix padding number =
    let s = decimal (suc number) number "" in append_text prefix (zeros (padding - count s) s)

-- One text for each of the selected points, from `start` on
unfoldable pub numbers_from : String → ℕ → ℕ → List String → List String
unfolding decimal zeros
numbers_from prefix padding start [] = []
numbers_from prefix padding start (id ∷ ids) =
    number_text prefix padding start ∷ numbers_from prefix padding (suc start) ids

module _ {F : Type 0} where
  -- Whether a point that is not selected has one of the numbers
  unfoldable pub is_taken : List String → List String → List (CivilPoint F) → Bool
  is_taken ids numbers points =
      any
        (λ p.
          not (is_among p.id ids)
          && not (str_eq p.point_number "")
          && is_among p.point_number numbers)
        points

  -- `[self.project.point(point_id) for point_id in point_ids]`
  unfoldable pub selected : List String → Action F (List (CivilPoint F))
  selected [] = pure []
  selected (id ∷ ids) = do p ← get_point id; ps ← selected ids; pure (p ∷ ps)

  unfoldable pub chosen : Option (List String) → Action F (List (CivilPoint F))
  unfolding selected
  chosen none = gets (λ p. p.points)
  chosen (some ids) = selected ids

  -- The loop over `zip(selected, new_numbers)`
  unfoldable pub assign : String → List String → List String → Action F (Unit {0})
  assign t (id ∷ ids) (number ∷ numbers) = do
    write_point id (λ p. record p { point_number = number; updated_at = t })
    assign t ids numbers
  assign t _ _ = pure tt

module _ (rt : Runtime) where
  open rt use {fl, format}
  open fl use {F}

  unfoldable pub renumber_points :
      Option (List String) → String → ℤ → ℤ → Action F (List (CivilPoint F))
  unfolding settings has_repeats numbers_from is_taken chosen assign
  renumber_points point_ids prefix start padding = do
    set ← or_raise workflow_error (settings start padding)
    points ← chosen point_ids
    require (not (is_empty points)) workflow_error
    let ids = map (λ p. p.id) points
    let numbers = numbers_from prefix set.1 set.0 ids
    taken ← gets (λ p. is_taken ids numbers p.points)
    require (not (has_repeats numbers || taken)) workflow_error
    t ← clock rt
    assign t ids numbers
    mark_stale
    audit rt "POINTS_RENUMBERED"
        (format "Renumbered {} Point Cart rows." (int (pos (length points)) ∷ []))
        (("point_ids", list (map str ids))
          ∷ ("prefix", str prefix)
          ∷ ("start", int start)
          ∷ ("padding", int padding)
          ∷ [])
    selected ids
