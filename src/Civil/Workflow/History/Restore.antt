-- ===== src/Civil/Workflow/History/Restore.antt =====
-- workflow.py: what a refused action leaves, and what undo and redo bring back.
use screen2xyz_civil_plan_di.Prelude.{
  ◌≡◌, refl, String, none, some, none, Option, List, [], ◌∷◌, ◌++◌, arith, suc,
}
use screen2xyz_civil_plan_di.Civil.Json.{Value, str, dict}
use screen2xyz_civil_plan_di.Civil.Model.{CivilProject, IsLoadable}
use screen2xyz_civil_plan_di.Civil.Model.RoundTrip.{project_round}
use screen2xyz_civil_plan_di.Civil.Model.Decode.{project_from_dict}
use screen2xyz_civil_plan_di.Civil.Model.Encode.{project_to_dict}
use screen2xyz_civil_plan_di.Civil.Workflow.{Fault, Outcome, ok, err, Desk, Runtime, Action}
use screen2xyz_civil_plan_di.Civil.Workflow.History.{
  Workflow, desk, finish, restored, undo_from, undoable, undo, redo,
}

module _ (rt : Runtime) where
  open rt use {fl, repr, now}
  open fl use {F}

  -- The project with one more audit entry, stamped by the clock's call `k`.
  abbrev pub audited : String → String → String → CivilProject F → CivilProject F
  audited t action detail p = record p {
    updated_at = t;
    decision_log =
        p.decision_log
        ++ dict (("at", str t) ∷ ("action", str action) ∷ ("detail", str detail) ∷ []) ∷ [];
  }

  finish_err :
      {A : Type 0} (w : Workflow F) (snapshot : Value F) (p : CivilProject F) (e : Fault)
      (r : Outcome A × Desk F)
      → r.0 ≡ err e
      → project_from_dict fl repr snapshot ≡ some p
      → finish rt w snapshot r ≡ (
        err e,
        record { project = p; ticks = r.1.ticks; undo_stack = w.undo_stack; redo_stack = [] },
      )
  finish_err w snapshot p e (ok a, d) f back = cc
  finish_err w snapshot p e (err e', d) f back = rw back (ground (arith, f))

  undo-finish :
      {A : Type 0} (w : Workflow F) (a : A) (r : Outcome A × Desk F)
      → r.0 ≡ ok a
      → project_from_dict fl repr (project_to_dict fl w.project) ≡ some w.project
      → undo rt (finish rt w (project_to_dict fl w.project) r).1 ≡ (
        ok tt,
        record {
          project =
              audited (now r.1.ticks) "UNDO" "Reverted the previous estimator action." w.project;
          ticks = suc r.1.ticks;
          undo_stack = w.undo_stack;
          redo_stack = project_to_dict fl r.1.project ∷ [];
        },
      )
  unfolding undo
  undo-finish w a (ok b, d) f back = rw back refl
  undo-finish w a (err e, d) f back = cc

  redo-restored :
      (w : Workflow F) (snapshots : List (Value F)) (o : Option (CivilProject F))
      → project_from_dict fl repr (project_to_dict fl w.project) ≡ some w.project
      → let u =
          restored rt "UNDO" "Reverted the previous estimator action."
            (record w {
              undo_stack = snapshots;
              redo_stack = project_to_dict fl w.project ∷ w.redo_stack;
            })
            o in
        u.0 ≡ ok tt
        → ((redo rt u.1).0 ≡ ok tt)
          × ((redo rt u.1).1.project
              ≡ audited
                  (now (suc w.ticks))
                  "REDO"
                  "Reapplied the previously undone estimator action."
                  w.project)
          × ((redo rt u.1).1.redo_stack ≡ w.redo_stack)
  unfolding redo
  redo-restored w snapshots none back f = cc
  redo-restored w snapshots (some p) back f = (rw back refl, rw back refl, rw back refl)

  redo_after :
      (w : Workflow F) (stack : List (Value F))
      → project_from_dict fl repr (project_to_dict fl w.project) ≡ some w.project
      → (undo_from rt w stack).0 ≡ ok tt
      → ((redo rt (undo_from rt w stack).1).0 ≡ ok tt)
        × ((redo rt (undo_from rt w stack).1).1.project
            ≡ audited
                (now (suc w.ticks))
                "REDO"
                "Reapplied the previously undone estimator action."
                w.project)
        × ((redo rt (undo_from rt w stack).1).1.redo_stack ≡ w.redo_stack)
  redo_after w [] back f = cc
  redo_after w (snapshot ∷ rest) back f =
      redo-restored w rest (project_from_dict fl repr snapshot) back f

  -- Where the project and all its parts pass `__post_init__` before it, an action that raises leaves
  -- the project and the undo stack exactly as they were, however much its body wrote before the raise,
  -- and hands on its own fault. It empties the redo stack.
  pub undoable_atomic :
      {A : Type 0} (m : Action F A) (w : Workflow F) (e : Fault)
      → IsLoadable fl w.project
      → (m (desk rt w)).0 ≡ err e
      → undoable rt m w ≡ (err e, record w { ticks = (m (desk rt w)).1.ticks; redo_stack = [] })
  unfolding undoable
  undoable_atomic m w e h f =
      finish_err w (project_to_dict fl w.project) w.project e (m (desk rt w)) f
        (project_round fl repr w.project h)

  -- Where the project and all its parts pass `__post_init__` before an action that succeeds, undo after
  -- it succeeds and brings that project back, with one audit entry more and a new time of update, and
  -- the undo stack of before the action. The redo stack then holds the project that the action left,
  -- alone.
  pub undo-undoable :
      {A : Type 0} (m : Action F A) (w : Workflow F) (a : A)
      → IsLoadable fl w.project
      → (m (desk rt w)).0 ≡ ok a
      → let after = (m (desk rt w)).1 in
        undo rt (undoable rt m w).1 ≡ (
          ok tt,
          record {
            project =
                audited
                  (now after.ticks)
                  "UNDO"
                  "Reverted the previous estimator action."
                  w.project;
            ticks = suc after.ticks;
            undo_stack = w.undo_stack;
            redo_stack = project_to_dict fl after.project ∷ [];
          },
        )
  unfolding undoable undo
  undo-undoable m w a h f = undo-finish w a (m (desk rt w)) f (project_round fl repr w.project h)

  -- Where the project and all its parts pass `__post_init__` before an undo that succeeds, redo after it
  -- succeeds and brings that project back, with one audit entry more and a new time of update, and
  -- leaves the redo stack as it was before the undo.
  pub redo-undo :
      (w : Workflow F)
      → IsLoadable fl w.project
      → (undo rt w).0 ≡ ok tt
      → ((redo rt (undo rt w).1).0 ≡ ok tt)
        × ((redo rt (undo rt w).1).1.project
            ≡ audited
                (now (suc w.ticks))
                "REDO"
                "Reapplied the previously undone estimator action."
                w.project)
        × ((redo rt (undo rt w).1).1.redo_stack ≡ w.redo_stack)
  unfolding undo
  redo-undo w h f = redo_after w w.undo_stack (project_round fl repr w.project h) f
