-- ===== src/Live/Scheduler/Tests.antt =====
-- scheduler.py: runs on concrete input.
use screen2xyz_civil_plan_di.Prelude.{◌+◌, ◌*◌, ◌≡◌, refl, true, List, [], ◌∷◌, is_some, arith}
use screen2xyz_civil_plan_di.Live.Scheduler.{
  Step, poll, dispatch, complete, acquire, release, catch_up, started, step, run, tick, tick_done,
  skip,
}
use screen2xyz_civil_plan_di.Live.Scheduler.Deadlines.{ticks, dones, answers, active, no_overlap}
use screen2xyz_civil_plan_di.Live.Scheduler.Answers.{pending, deadlines_answered, catch_up_ends}

-- Three deadlines are missed at once, and one more while the tick runs, with a
-- `drain` before and after the end of the tick.
abbrev steps : List Step
steps =
    poll 35 (35 ∷ 35 ∷ 35 ∷ 35 ∷ [])
    ∷ dispatch
    ∷ poll 41 (41 ∷ 41 ∷ [])
    ∷ acquire
    ∷ dispatch
    ∷ complete
    ∷ acquire
    ∷ release
    ∷ []

calls : (run steps (started 10 0)).1 ≡ tick ∷ skip ∷ skip ∷ skip ∷ tick_done ∷ []
unfolding run started step
calls = refl

no_overlap_example :
    ticks (run steps (started 10 0)).1
    ≡ dones (run steps (started 10 0)).1 + active (run steps (started 10 0)).0
no_overlap_example = no_overlap 10 0 steps

deadlines_answered_example :
    (run steps (started 10 0)).0.deadline
    ≡ 0
      + 10
      + (answers (run steps (started 10 0)).1 + pending (run steps (started 10 0)).0.missed) * 10
deadlines_answered_example =
    deadlines_answered 10 0 steps (refl, (refl, (refl, (refl, (refl, (refl, (refl, (refl, tt))))))))

catch_up_ends_example : is_some (catch_up 10 10 0 (12 ∷ 12 ∷ 12 ∷ 12 ∷ [])) ≡ true
catch_up_ends_example =
    catch_up_ends 10 10 0 12 (12 ∷ 12 ∷ 12 ∷ 12 ∷ []) (omega arith) (omega arith) (omega arith)
