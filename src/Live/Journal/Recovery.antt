-- ===== src/Live/Journal/Recovery.antt =====
-- src/screen2xyz_m2/recovery.py: the checkpoint against the journal.
use screen2xyz_civil_plan_di.Prelude.{
  ◌≤◌, ◌≡◌, refl, ap, String, Option, none, some, true, List, [], ◌∷◌, length, ltb, if◌then◌else◌,
  All, arith,
}
use screen2xyz_civil_plan_di.Prelude.Floats.{Floats}
use screen2xyz_civil_plan_di.Civil.Json.{Fields}
use screen2xyz_civil_plan_di.Live.Status.{RetentionMode}
use screen2xyz_civil_plan_di.Live.Journal.{Codec, Checkpoint, new_journal}
use screen2xyz_civil_plan_di.Live.Journal.Contents.{is_whole, last_seq}
use screen2xyz_civil_plan_di.Live.Journal.Faithful.{new_journal-IsFaithful}
use screen2xyz_civil_plan_di.Live.Journal.Reading.{
  Request, run, accepted, run-IsFaithful, live_events-run,
}

-- The warning of `recover_run` about a checkpoint that can be read (`none` where there is no file)
unfoldable pub checkpoint_warnings :
    {F : Type 0} → Option (Checkpoint F) → List (Fields F) → List String
checkpoint_warnings none events = []
checkpoint_warnings (some p) events =
    if ltb (length events) p.last_event_seq then "CHECKPOINT_DIVERGENCE" ∷ [] else []

module _ {F : Type 0} where
  within-checkpoint_warnings :
      (p : Option (Checkpoint F)) (events : List (Fields F))
      → last_seq p ≤ length events
      → checkpoint_warnings p events ≡ []
  unfolding checkpoint_warnings
  within-checkpoint_warnings none events h = refl
  within-checkpoint_warnings (some p) events h = ground arith

-- After any appends to a new journal, each of which failed without leaving a part of its line or is
-- durable, the checkpoint on the disk is not ahead of the events that the appends handed back:
-- recovery has no warning CHECKPOINT_DIVERGENCE.
pub no_checkpoint_divergence :
    (fl : Floats) (c : Codec fl.F) (mode : RetentionMode) (rs : List (Request fl.F)) (start : fl.F)
    → All (λ (r : Request fl.F). is_whole r.io.line ≡ true) rs
    → checkpoint_warnings
        (run fl c mode rs (new_journal start)).disk.checkpoint
        (accepted fl c mode rs (new_journal start))
      ≡ []
unfolding new_journal
no_checkpoint_divergence fl c mode rs start w =
    let h = run-IsFaithful fl c mode rs (new_journal start) w (new_journal-IsFaithful fl c start) in
    within-checkpoint_warnings _ _ (
      omega
        (arith, h.reached, h.counted, ap length (live_events-run fl c mode rs (new_journal start))))
