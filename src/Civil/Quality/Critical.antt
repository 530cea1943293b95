-- ===== src/Civil/Quality/Critical.antt =====
-- qa.py: when the exports are blocked.
use screen2xyz_civil_plan_di.Civil.Quality.Summary.{summary, qa_summary, has_critical_export_errors}
use screen2xyz_civil_plan_di.Civil.Json.{truthy, int, lookup, or_value}
use screen2xyz_civil_plan_di.Prelude.Floats.{Floats}
use screen2xyz_civil_plan_di.Prelude.Int.{pos}
use screen2xyz_civil_plan_di.Prelude.{
  ℕ, ◌+◌, ◌≡◌, refl, Bool, false, not, ◌||◌, List, [], ◌∷◌, ◌++◌, map, any, arith, is_none, ◌==◌,
  if◌then◌else◌, ◌∙◌,
}
use screen2xyz_civil_plan_di.Civil.Model.{CivilPoint, CivilProject, IsLoadable}
use screen2xyz_civil_plan_di.Civil.Workflow.{Runtime}
use screen2xyz_civil_plan_di.Civil.Workflow.History.{Workflow}
use screen2xyz_civil_plan_di.Civil.Workflow.Gate.{IsReady, AllReady}
use screen2xyz_civil_plan_di.Civil.Workflow.Gate.Calls.{
  Call, call, IsReadyWorkflow, approved_stay_exportable,
}
use screen2xyz_civil_plan_di.Civil.Quality.{
  Issue, Pair, is_critical, count_if, severity_count, is_invalid_approved, point_issues,
  all_point_issues, pair_issue, calibration_issues, default_pairs, issues,
}

count_if-append {ℓ} :
    {A : Type ℓ} (p : A → Bool) (xs ys : List A)
    → count_if p (xs ++ ys) ≡ count_if p xs + count_if p ys
count_if-append p [] ys = omega arith
count_if-append p (x ∷ xs) ys = omega (arith, count_if-append p xs ys)

module _ (rt : Runtime) where
  open rt use {fl}
  open fl use {F}

  abbrev criticals : List Issue → ℕ
  criticals = severity_count rt is_critical

  criticals-point_issues :
      (project : CivilProject F) (p : CivilPoint F)
      → criticals (point_issues rt project p) ≡ (if is_invalid_approved rt p then 1 else 0)
  unfolding point_issues
  criticals-point_issues project p = ground arith

  criticals-all_point_issues :
      (project : CivilProject F) (ps : List (CivilPoint F))
      → criticals (all_point_issues rt project ps) == 0 ≡ not (any (is_invalid_approved rt) ps)
  unfolding all_point_issues
  criticals-all_point_issues project [] = refl
  criticals-all_point_issues project (p ∷ ps) = ground (
    arith,
    count_if-append (λ i. is_critical i.severity) (point_issues rt project p)
        (all_point_issues rt project ps),
    criticals-point_issues project p,
    criticals-all_point_issues project ps,
  )

  criticals-pair_issue : (pairs : List (Pair F)) → criticals (map (pair_issue rt) pairs) ≡ 0
  unfolding pair_issue
  criticals-pair_issue [] = refl
  criticals-pair_issue (p ∷ ps) = ground (arith, criticals-pair_issue ps)

  criticals-calibration_issues :
      (project : CivilProject F)
      → criticals (calibration_issues rt project) ≡ (if is_none project.calibration then 1 else 0)
  unfolding calibration_issues
  criticals-calibration_issues project = ground arith

  truthy_count : (fl' : Floats) (n : ℕ) → truthy fl' (int (pos n)) ≡ not (n == 0)
  unfolding truthy
  truthy_count fl' n = ground arith

  -- The summary's errors are those that are counted.
  summary-critical :
      (project : CivilProject F)
      → has_critical_export_errors rt (qa_summary rt project).0
        ≡ not (criticals (issues rt project) == 0)
  unfolding has_critical_export_errors qa_summary summary lookup or_value
  summary-critical project = truthy_count fl (criticals (issues rt project))

  -- The summary of a project has critical errors exactly when it has no calibration or a point is approved that is
  -- of no terrain class or lacks a local coordinate.
  pub has_critical_export_errors_lem :
      (project : CivilProject F)
      → has_critical_export_errors rt (qa_summary rt project).0
        ≡ is_none project.calibration || any (is_invalid_approved rt) project.points
  unfolding issues
  has_critical_export_errors_lem project = ground (
    arith,
    summary-critical project,
    count_if-append (λ i. is_critical i.severity) (calibration_issues rt project)
        (all_point_issues rt project project.points
          ++ map (pair_issue rt) (default_pairs rt project)),
    count_if-append (λ i. is_critical i.severity) (all_point_issues rt project project.points)
        (map (pair_issue rt) (default_pairs rt project)),
    criticals-calibration_issues project,
    criticals-all_point_issues project project.points,
    criticals-pair_issue (default_pairs rt project),
  )

  ready_valid : (p : CivilPoint F) → IsReady p → is_invalid_approved rt p ≡ false
  ready_valid p h = ground arith

  all_ready_valid :
      (ps : List (CivilPoint F)) → AllReady ps → any (is_invalid_approved rt) ps ≡ false
  all_ready_valid [] h = refl
  all_ready_valid (p ∷ ps) h = ground (arith, ready_valid p h.0, all_ready_valid ps h.1)

  -- Take a workflow whose project passes `__post_init__` with all its parts, and in which every approved point of the project, and of every
  -- project that a snapshot on the stacks restores, is of a terrain class and has both local
  -- coordinates. After any call of `undo`, of `redo` or of a method of `Command`, whether it succeeds
  -- or raises, the project has critical errors exactly when it has no calibration.
  pub workflow_exports_open :
      (c : Call fl) (w : Workflow F)
      → IsLoadable fl w.project
      → IsReadyWorkflow rt w
      → has_critical_export_errors rt (qa_summary rt (call rt c w).1.project).0
        ≡ is_none (call rt c w).1.project.calibration
  workflow_exports_open c w l h =
      let p = (call rt c w).1.project in
      has_critical_export_errors_lem p
      ∙ ground (arith, all_ready_valid p.points (approved_stay_exportable rt c w l h).0)
