-- ===== src/Civil/Workflow/Gate/Calls.antt =====
-- workflow.py: the calls of a workflow, `undo` and `redo` included, and the approved points.
use screen2xyz_civil_plan_di.Prelude.{
  ◌≡◌, ◌∙◌, sym, subst, String, Option, none, some, List, [], ◌∷◌, All, Option-cases, inl, inr,
}
use screen2xyz_civil_plan_di.Prelude.Floats.{Floats}
use screen2xyz_civil_plan_di.Civil.Json.{Value}
use screen2xyz_civil_plan_di.Civil.Model.{CivilPoint, CivilProject, IsLoadable}
use screen2xyz_civil_plan_di.Civil.Model.Encode.{project_to_dict}
use screen2xyz_civil_plan_di.Civil.Model.Decode.{project_from_dict}
use screen2xyz_civil_plan_di.Civil.Model.RoundTrip.{project_round}
use screen2xyz_civil_plan_di.Civil.Workflow.{Runtime, Outcome, ok, err, Desk}
use screen2xyz_civil_plan_di.Civil.Workflow.Triple.{Post}
use screen2xyz_civil_plan_di.Civil.Workflow.History.{
  Workflow, desk, finish, restored, undoable, undo, undo_from, redo, redo_from,
}
use screen2xyz_civil_plan_di.Civil.Workflow.Gate.{AllReady}
use screen2xyz_civil_plan_di.Civil.Workflow.Gate.Commands.{Command, execute, execute-AllReady}

pub data Call (fl : Floats) : Type 0 where
  method : Command fl → Call fl
  undo_call : Call fl
  redo_call : Call fl

abbrev points_or :
    {F : Type 0} → List (CivilPoint F) → Option (CivilProject F) → List (CivilPoint F)
points_or ps none = ps
points_or ps (some p) = p.points

module _ (rt : Runtime) where
  open rt use {fl, repr}
  open fl use {F}

  -- A call from outside: a method runs under `undoable`.
  unfoldable pub call : Call fl → Workflow F → Outcome (Unit {0}) × Workflow F
  call (method c) w = undoable rt (execute rt c) w
  call undo_call w = undo rt w
  call redo_call w = redo rt w

  -- What a snapshot restores is ready.
  abbrev pub IsReadySnapshot : Value F → Type 0
  IsReadySnapshot v =
      (p : CivilProject F) → project_from_dict fl repr v ≡ some p → AllReady p.points

  -- The approved points are of a terrain class and located, in the project and in every project that the
  -- stacks can restore.
  abbrev pub IsReadyWorkflow : Workflow F → Type 0
  IsReadyWorkflow w =
      AllReady w.project.points
      × All IsReadySnapshot w.undo_stack
      × All IsReadySnapshot w.redo_stack

  IsReadySnapshot-project_to_dict :
      (p : CivilProject F)
      → IsLoadable fl p
      → AllReady p.points
      → IsReadySnapshot (project_to_dict fl p)
  IsReadySnapshot-project_to_dict p l h q e =
      let same : some p ≡ some q = sym (project_round fl repr p l) ∙ e in
      subst (λ o. AllReady (points_or p.points o)) same h

  finish-IsReadyWorkflow :
      (w : Workflow F) (snapshot : Value F) (r : Outcome (Unit {0}) × Desk F)
      → project_from_dict fl repr snapshot ≡ some w.project
      → IsReadySnapshot snapshot
      → IsReadyWorkflow w
      → Post AllReady r
      → IsReadyWorkflow (finish rt w snapshot r).1
  finish-IsReadyWorkflow w snapshot (ok a, d) back s h p = (p, (s, h.1), tt)
  finish-IsReadyWorkflow w snapshot (err e, d) back s h p = rw back (h.0, h.1, tt)

  restored-IsReadyWorkflow :
      (action detail : String) (w : Workflow F) (snapshot : Value F)
      → IsReadySnapshot snapshot
      → IsReadyWorkflow w
      → IsReadyWorkflow (restored rt action detail w (project_from_dict fl repr snapshot)).1
  restored-IsReadyWorkflow action detail w snapshot s h =
      elim (Option-cases (project_from_dict fl repr snapshot)) [
        | inl e ↦ rw e h
        | inr (p, e) ↦ rw e (s p e, h.1, h.2)
      ]

  undo_from-IsReadyWorkflow :
      (w : Workflow F) (stack : List (Value F))
      → IsLoadable fl w.project
      → IsReadyWorkflow w
      → All IsReadySnapshot stack
      → IsReadyWorkflow (undo_from rt w stack).1
  undo_from-IsReadyWorkflow w [] l h s = h
  undo_from-IsReadyWorkflow w (snapshot ∷ rest) l h s =
      restored-IsReadyWorkflow "UNDO" "Reverted the previous estimator action."
        (record w { undo_stack = rest; redo_stack = project_to_dict fl w.project ∷ w.redo_stack })
        snapshot s.0 (h.0, s.1, (IsReadySnapshot-project_to_dict w.project l h.0, h.2))

  redo_from-IsReadyWorkflow :
      (w : Workflow F) (stack : List (Value F))
      → IsLoadable fl w.project
      → IsReadyWorkflow w
      → All IsReadySnapshot stack
      → IsReadyWorkflow (redo_from rt w stack).1
  redo_from-IsReadyWorkflow w [] l h s = h
  redo_from-IsReadyWorkflow w (snapshot ∷ rest) l h s =
      restored-IsReadyWorkflow "REDO" "Reapplied the previously undone estimator action."
        (record w { redo_stack = rest; undo_stack = project_to_dict fl w.project ∷ w.undo_stack })
        snapshot s.0 (h.0, (IsReadySnapshot-project_to_dict w.project l h.0, h.1), s.1)

  -- Take a workflow whose project passes `__post_init__` with all its parts, and in which every approved point of the project, and of every
  -- project that a snapshot on the stacks restores, is of a terrain class and has both local
  -- coordinates. Then this is so after any call of `undo`, of `redo` or of a method of `Command`,
  -- whether it succeeds or raises.
  pub approved_stay_exportable :
      (c : Call fl) (w : Workflow F)
      → IsLoadable fl w.project
      → IsReadyWorkflow w
      → IsReadyWorkflow (call c w).1
  unfolding call undoable undo redo
  approved_stay_exportable (method c) w l h =
      finish-IsReadyWorkflow w (project_to_dict fl w.project) (execute rt c (desk rt w))
        (project_round fl repr w.project l) (IsReadySnapshot-project_to_dict w.project l h.0) h
        ((execute-AllReady rt c).at (desk rt w) h.0)
  approved_stay_exportable undo_call w l h = undo_from-IsReadyWorkflow w w.undo_stack l h h.1
  approved_stay_exportable redo_call w l h = redo_from-IsReadyWorkflow w w.redo_stack l h h.2
