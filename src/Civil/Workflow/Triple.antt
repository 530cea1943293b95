-- ===== src/Civil/Workflow/Triple.antt =====
-- workflow.py: what an action makes of the points when it succeeds, one rule for each way to build it.
use screen2xyz_civil_plan_di.Prelude.{
  ◌≡◌, refl, Option, none, some, Bool, true, false, String, List,
}
use screen2xyz_civil_plan_di.Civil.Json.{Value}
use screen2xyz_civil_plan_di.Civil.Model.{CivilPoint, CivilProject}
use screen2xyz_civil_plan_di.Civil.Workflow.{
  Fault, Outcome, ok, err, Desk, Runtime, Action, pure, raise, gets, or_raise, continue, ◌>>=◌,
  ◌>>◌, require, given, modify, clock, touch, log, audit, find_point, get_point, validate_elevation,
  elevation_ok,
}

-- A statement on the points of a project.
abbrev pub OnPoints : Type 0 → Type 1
OnPoints F = List (CivilPoint F) → Type 0

abbrev pub Post : {F A : Type 0} → OnPoints F → Outcome A × Desk F → Type 0
Post L (ok a, d) = L d.project.points
Post L (err e, d) = Unit

-- From points with `K`, where `m` succeeds, the points have `L`.
pub record Triple {F A : Type 0} (K L : OnPoints F) (m : Action F A) : Type 0 where
  pub at : (d : Desk F) → K d.project.points → Post L (m d)

module _ {F A : Type 0} {K L : OnPoints F} where
  pub Triple-raise : (e : Fault) → Triple K L (raise {A = A} e)
  Triple-raise e = record { at = λ d h. tt }

module _ {F A : Type 0} {K : OnPoints F} where
  pub Triple-pure : (a : A) → Triple K K (pure a)
  Triple-pure a = record { at = λ d h. h }

  pub Triple-gets : (f : CivilProject F → A) → Triple K K (gets f)
  Triple-gets f = record { at = λ d h. h }

  pub Triple-or_raise : (e : Fault) (o : Option A) → Triple K K (or_raise e o)
  Triple-or_raise e none = Triple-raise e
  Triple-or_raise e (some a) = Triple-pure a

  pub Triple-given :
      (o : Option A) (f : A → Action F (Unit {0}))
      → ((a : A) → Triple K K (f a))
      → Triple K K (given o f)
  Triple-given none f h = record { at = λ d h. h }
  Triple-given (some a) f h = h a

module _ {F A B : Type 0} {L M : OnPoints F} where
  Post-continue :
      (f : A → Action F B) (r : Outcome A × Desk F)
      → Post L r
      → ((a : A) → Triple L M (f a))
      → Post M (continue f r)
  Post-continue f (ok a, d) h t = (t a).at d h
  Post-continue f (err e, d) h t = tt

module _ {F A B : Type 0} {K L M : OnPoints F} where
  infixl 5 ◌⟫◌
  pub ◌⟫◌ :
      {m : Action F A} {f : A → Action F B}
      → Triple K L m
      → ((a : A) → Triple L M (f a))
      → Triple K M (m >>= f)
  ◌⟫◌ {m} {f} s t = record { at = λ d h. Post-continue f (m d) (s.at d h) t }

module _ {F : Type 0} {K L : OnPoints F} where
  pub Triple-modify :
      (f : CivilProject F → CivilProject F)
      → ((p : CivilProject F) → K p.points → L (f p).points)
      → Triple K L (modify f)
  Triple-modify f h = record { at = λ d k. h d.project k }

module _ {F A : Type 0} {K L : OnPoints F} where
  -- The rest of the block may use that the test passed.
  pub Triple-require :
      (b : Bool) (e : Fault) {m : Action F A}
      → (b ≡ true → Triple K L m)
      → Triple K L (require b e >> m)
  Triple-require true e h = h refl
  Triple-require false e h = record { at = λ d k. tt }

  -- The rest of the block may use that the point was found.
  pub Triple-get_point :
      (id : String) {f : CivilPoint F → Action F A}
      → ((q : CivilPoint F) → Triple (λ ps. K ps × (find_point id ps ≡ some q)) L (f q))
      → Triple K L (get_point id >>= f)
  Triple-get_point id {f} h = record { at = λ d k. found d k (find_point id d.project.points) refl }
    where
      found :
          (d : Desk F)
          → K d.project.points
          → (o : Option (CivilPoint F)) → find_point id d.project.points ≡ o
          → Post L (continue f (or_raise Fault.model_error o d))
      found d k none e = tt
      found d k (some q) e = (h q).at d (k, e)

module _ (rt : Runtime) {K : OnPoints rt.fl.F} where
  pub Triple-clock : Triple K K (clock rt)
  Triple-clock = record { at = λ d h. h }

  pub Triple-touch : Triple K K (touch rt)
  Triple-touch = record { at = λ d h. h }

  pub Triple-log : (v : Value rt.fl.F) → Triple K K (log rt v)
  Triple-log v = record { at = λ d h. h }

  pub Triple-audit :
      (action detail : String) (extra : List (String × Value rt.fl.F))
      → Triple K K (audit rt action detail extra)
  Triple-audit action detail extra = record { at = λ d h. h }

  pub Triple-validate_elevation : (e : rt.fl.F) → Triple K K (validate_elevation rt e)
  Triple-validate_elevation e = record { at = λ d h. checked d h (elevation_ok rt d.project e) }
    where
      checked :
          (d : Desk rt.fl.F)
          → K d.project.points
          → (b : Bool) → Post K (require b Fault.workflow_error d)
      checked d h true = h
      checked d h false = tt
