-- ===== src/Civil/Workflow.antt =====
-- src/screen2xyz_civil/workflow.py: actions on the project. An action is a method's body: it may
-- raise, and what it wrote before it raised stays written until the wrapper `undoable` restores the
-- snapshot. The texts of the raises are left out. A point that a method holds is the first one of
-- its id in the project, and is written there.
pub mod Triple
pub mod Setup
pub mod Points
pub mod Review
pub mod Gate
pub mod Approval
pub mod Additions
pub mod Recalibration
pub mod Geometry
pub mod Capture
pub mod Lines
pub mod Sorting
pub mod Renumber
pub mod History
mod Tests
use screen2xyz_civil_plan_di.Prelude.{
  ℕ, suc, String, Option, none, some, Bool, true, false, not, ◌&&◌, List, [], ◌∷◌, ◌++◌, str_eq,
  if◌then◌else◌,
}
use screen2xyz_civil_plan_di.Prelude.Floats.{Floats}
use screen2xyz_civil_plan_di.Civil.Json.{Value, Fields, str, dict, lookup, or_value, as_str}
use screen2xyz_civil_plan_di.Civil.Model.{
  PixelPoint, CropRegion, CivilPoint, CivilProject, contains,
}

-- `WorkflowError`, `CivilModelError`, and the errors of built-in conversions.
pub data Fault : Type 0 where
  workflow_error model_error value_error : Fault

pub data Outcome {ℓ} (A : Type ℓ) : Type ℓ where
  ok : A → Outcome A
  err : Fault → Outcome A

-- The `ticks`-th call of the clock is the next one.
pub record Desk (F : Type 0) : Type 0 where
  pub project : CivilProject F
  pub ticks : ℕ

-- What the workflow is given: floats, `str()` of a value that is no text, the clock `now`, and
-- `format`, which fills the holes of an f-string.
pub record Runtime : Type 1 where
  pub fl : Floats
  pub repr : Value fl.F → String
  pub now : ℕ → String
  pub format : String → List (Value fl.F) → String

abbrev pub Action : Type 0 → Type 0 → Type 0
Action F A = Desk F → Outcome A × Desk F

module _ {F : Type 0} where
  abbrev pub pure : {A : Type 0} → A → Action F A
  pure a d = (ok a, d)

  abbrev pub raise : {A : Type 0} → Fault → Action F A
  raise e d = (err e, d)

  abbrev pub gets : {A : Type 0} → (CivilProject F → A) → Action F A
  gets f d = (ok (f d.project), d)

  abbrev pub or_raise : {A : Type 0} → Fault → Option A → Action F A
  or_raise e none = raise e
  or_raise e (some a) = pure a

  infixl 5 ◌>>=◌ ◌>>◌
  abbrev pub continue : {A B : Type 0} → (A → Action F B) → Outcome A × Desk F → Outcome B × Desk F
  continue f (ok a, d) = f a d
  continue f (err e, d) = (err e, d)

  abbrev pub ◌>>=◌ : {A B : Type 0} → Action F A → (A → Action F B) → Action F B
  ◌>>=◌ m f d = continue f (m d)

  abbrev pub ◌>>◌ : {B : Type 0} → Action F (Unit {0}) → Action F B → Action F B
  m >> n = m >>= λ _. n

  -- `if not test: raise`
  abbrev pub require : Bool → Fault → Action F (Unit {0})
  require true e d = (ok tt, d)
  require false e d = (err e, d)

  -- `if value is not None: …`
  abbrev pub given : {A : Type 0} → Option A → (A → Action F (Unit {0})) → Action F (Unit {0})
  given none f = pure tt
  given (some a) f = f a

  abbrev pub modify : (CivilProject F → CivilProject F) → Action F (Unit {0})
  modify f d = (ok tt, record d { project = f d.project })

  -- `self.project.exports_stale = True`
  abbrev pub mark_stale : Action F (Unit {0})
  mark_stale = modify (λ p. record p { exports_stale = true })

  -- `project.point`
  unfoldable pub find_point : String → List (CivilPoint F) → Option (CivilPoint F)
  find_point i [] = none
  find_point i (p ∷ ps) = if str_eq p.id i then some p else find_point i ps

  -- Writes to the point of an id.
  unfoldable pub update_point :
      String → (CivilPoint F → CivilPoint F) → List (CivilPoint F) → List (CivilPoint F)
  update_point i f [] = []
  update_point i f (p ∷ ps) = if str_eq p.id i then f p ∷ ps else p ∷ update_point i f ps

  -- `self.project.points.remove(point)`
  unfoldable pub remove_point : String → List (CivilPoint F) → List (CivilPoint F)
  remove_point i [] = []
  remove_point i (p ∷ ps) = if str_eq p.id i then ps else p ∷ remove_point i ps

  abbrev pub get_point : String → Action F (CivilPoint F)
  get_point i = do points ← gets (λ p. p.points); or_raise model_error (find_point i points)

  abbrev pub write_point : String → (CivilPoint F → CivilPoint F) → Action F (Unit {0})
  write_point i f = modify (λ p. record p { points = update_point i f p.points })

module _ (rt : Runtime) where
  open rt use {fl, now, repr}
  open fl use {F, is_finite, le}

  -- `self._now()`
  abbrev pub clock : Action F String
  clock d = (ok (now d.ticks), record d { ticks = suc d.ticks })

  -- `_touch`
  abbrev pub touch : Action F String
  touch = do t ← clock; modify (λ p. record p { updated_at = t }); pure t

  abbrev pub log : Value F → Action F (Unit {0})
  log event = modify (λ p. record p { decision_log = p.decision_log ++ event ∷ [] })

  -- `_audit`
  abbrev pub audit : String → String → List (String × Value F) → Action F (Unit {0})
  audit action detail extra = do
    t ← touch
    log (dict (("at", str t) ∷ ("action", str action) ∷ ("detail", str detail) ∷ extra))

  -- `self.project.crop is not None and not self.project.crop.contains(pixel)`, negated
  abbrev pub in_crop : Option (CropRegion F) → PixelPoint F → Bool
  in_crop none p = true
  in_crop (some c) p = contains fl c p

  -- `_validate_elevation`
  unfoldable pub elevation_ok : CivilProject F → F → Bool
  elevation_ok p e =
      is_finite e && (le p.plausible_elevation_min e && le e p.plausible_elevation_max)

  abbrev pub validate_elevation : F → Action F (Unit {0})
  validate_elevation e = do p ← gets (λ p. p); require (elevation_ok p e) workflow_error

  -- `str(self.project.source_manifest.get(key, ""))`
  unfoldable pub manifest_text : String → CivilProject F → String
  manifest_text key p = as_str repr (or_value (lookup key p.source_manifest) (str ""))
