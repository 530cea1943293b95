-- ===== src/Civil/Workflow/History.antt =====
-- workflow.py: the wrapper `undoable`, `undo` and `redo`. `_mutation_depth` is not in the state: an
-- inner call of a method is the call of its body, and only the outer call is wrapped.
pub mod Restore
use screen2xyz_civil_plan_di.Prelude.{
  ℕ, String, Option, none, some, Bool, true, false, List, [], ◌∷◌, ◌++◌, is_empty, not,
}
use screen2xyz_civil_plan_di.Civil.Json.{Value, str}
use screen2xyz_civil_plan_di.Civil.Model.{CivilProject}
use screen2xyz_civil_plan_di.Civil.Model.Encode.{project_to_dict}
use screen2xyz_civil_plan_di.Civil.Model.Decode.{project_from_dict}
use screen2xyz_civil_plan_di.Civil.Workflow.{
  Fault, workflow_error, model_error, Outcome, ok, err, Desk, Runtime, Action, audit,
}

-- `CivilWorkflow`; the top of a stack is its head.
pub record Workflow (F : Type 0) : Type 0 where
  pub project : CivilProject F
  pub ticks : ℕ
  pub undo_stack : List (Value F)
  pub redo_stack : List (Value F)

module _ (rt : Runtime) where
  open rt use {fl, repr}
  open fl use {F}

  abbrev pub desk : Workflow F → Desk F
  desk w = record { project = w.project; ticks = w.ticks }

  -- The `except` arm: the snapshot is restored and popped. Where the restore itself raises, that
  -- exception leaves, with the project as the body left it and the snapshot still on the stack.
  abbrev pub after_raise :
      {A : Type 0}
      → Workflow F
      → Value F
      → Fault
      → Desk F
      → Option (CivilProject F)
      → Outcome A × Workflow F
  after_raise w snapshot e d none = (
    err model_error,
    record {
      project = d.project;
      ticks = d.ticks;
      undo_stack = snapshot ∷ w.undo_stack;
      redo_stack = [];
    },
  )
  after_raise w snapshot e d (some p) =
      (err e, record { project = p; ticks = d.ticks; undo_stack = w.undo_stack; redo_stack = [] })

  abbrev pub finish :
      {A : Type 0} → Workflow F → Value F → Outcome A × Desk F → Outcome A × Workflow F
  finish w snapshot (ok a, d) = (
    ok a,
    record {
      project = d.project;
      ticks = d.ticks;
      undo_stack = snapshot ∷ w.undo_stack;
      redo_stack = [];
    },
  )
  finish w snapshot (err e, d) = after_raise w snapshot e d (project_from_dict fl repr snapshot)

  unfoldable pub undoable : {A : Type 0} → Action F A → Workflow F → Outcome A × Workflow F
  undoable m w = finish w (project_to_dict fl w.project) (m (desk w))

  -- The end of `undo` and `redo`: `_restore_snapshot`, then `_audit`.
  abbrev pub restored :
      String → String → Workflow F → Option (CivilProject F) → Outcome (Unit {0}) × Workflow F
  restored action detail w none = (err model_error, w)
  restored action detail w (some p) =
      let (r, d) = audit rt action detail [] (record { project = p; ticks = w.ticks }) in
      (r, record w { project = d.project; ticks = d.ticks })

  abbrev pub undo_from : Workflow F → List (Value F) → Outcome (Unit {0}) × Workflow F
  undo_from w [] = (err workflow_error, w)
  undo_from w (snapshot ∷ rest) =
      restored "UNDO" "Reverted the previous estimator action."
        (record w { undo_stack = rest; redo_stack = project_to_dict fl w.project ∷ w.redo_stack })
        (project_from_dict fl repr snapshot)

  unfoldable pub undo : Workflow F → Outcome (Unit {0}) × Workflow F
  undo w = undo_from w w.undo_stack

  abbrev pub redo_from : Workflow F → List (Value F) → Outcome (Unit {0}) × Workflow F
  redo_from w [] = (err workflow_error, w)
  redo_from w (snapshot ∷ rest) =
      restored "REDO" "Reapplied the previously undone estimator action."
        (record w { redo_stack = rest; undo_stack = project_to_dict fl w.project ∷ w.undo_stack })
        (project_from_dict fl repr snapshot)

  unfoldable pub redo : Workflow F → Outcome (Unit {0}) × Workflow F
  redo w = redo_from w w.redo_stack
