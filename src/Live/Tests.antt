-- ===== src/Live/Tests.antt =====
-- src/screen2xyz_m2: runs of the live session on concrete input.
use screen2xyz_civil_plan_di.Prelude.{
  ◌≡◌, ◌≢◌, refl, none, some, true, false, [], ◌∷◌, if◌then◌else◌, All, inr,
}
use screen2xyz_civil_plan_di.Live.Session.{
  Machine, new, perform, is_legal, start_recording, target_selected, regions_configured, recording,
  armed, selecting, configuring, confirming, starting, worker_restored,
}
use screen2xyz_civil_plan_di.Live.Session.Revision.{
  IsSound, new-IsSound, perform-IsSound, starting-is_legal, is_live,
}
use screen2xyz_civil_plan_di.Live.Session.Traces.{
  run, accepted, confirmed_since, way, live_needs_confirm, blocked_stays_down, way-recording,
}
use screen2xyz_civil_plan_di.Live.Status.{
  WorkerStatus, CaptureStatus, OcrStatus, ParseStatus, StabilityStatus, retainable_error,
  derive_value_status,
}
use screen2xyz_civil_plan_di.Live.Status.Causes.{
  is_ok, derive_value_status-ok, derive_value_status-retainable,
}

abbrev selected : Machine
selected = record {
  state = target_selected;
  setup_worker_blocked = false;
  preview_confirmed_revision = none;
  configuration_revision = 1;
}

abbrev armed_machine : Machine
armed_machine = record {
  state = armed;
  setup_worker_blocked = false;
  preview_confirmed_revision = some 2;
  configuration_revision = 2;
}

abbrev blocked : Machine
blocked = record {
  state = regions_configured;
  setup_worker_blocked = true;
  preview_confirmed_revision = none;
  configuration_revision = 2;
}

selecting-new : perform selecting new ≡ some selected
unfolding perform new
selecting-new = refl

armed_machine-IsSound : IsSound armed_machine
armed_machine-IsSound = record { current = inr refl; confirmed = inr refl }

perform-IsSound_example : IsSound selected
perform-IsSound_example = perform-IsSound selecting new new-IsSound selecting-new

starting-is_legal_example : perform starting armed_machine ≡ (
    if is_legal armed_machine start_recording
    then some (record armed_machine { state = recording })
    else none)
starting-is_legal_example = starting-is_legal armed_machine armed_machine-IsSound

to_recording : is_live (run new (selecting ∷ configuring ∷ confirming ∷ starting ∷ [])).state ≡ true
unfolding run perform new
to_recording = refl

live_needs_confirm_example :
    confirmed_since false (accepted new (selecting ∷ configuring ∷ confirming ∷ starting ∷ []))
    ≡ true
live_needs_confirm_example =
    live_needs_confirm (selecting ∷ configuring ∷ confirming ∷ starting ∷ []) to_recording

no_restore : All (λ c. c ≢ worker_restored) (confirming ∷ starting ∷ [])
no_restore = (λ e. cc, (λ e. cc, tt))

blocked_stays_down_example : is_live (run blocked (confirming ∷ starting ∷ [])).state ≡ false
blocked_stays_down_example =
    blocked_stays_down blocked (confirming ∷ starting ∷ []) no_restore refl refl

new-unblocked : new.setup_worker_blocked ≡ false
unfolding new
new-unblocked = refl

way-recording_example : (run new (way new.state)).state ≡ recording
way-recording_example = way-recording new new-IsSound new-unblocked

derive_value_status-ok_example :
    is_ok (
      derive_value_status CaptureStatus.ok OcrStatus.ok ParseStatus.ok StabilityStatus.rejected
        WorkerStatus.ok)
    ≡ false
derive_value_status-ok_example =
    derive_value_status-ok CaptureStatus.ok OcrStatus.ok ParseStatus.ok StabilityStatus.rejected
      WorkerStatus.ok

derive_value_status-retainable_example :
    retainable_error (
      derive_value_status CaptureStatus.ok OcrStatus.ok ParseStatus.no_number
        StabilityStatus.rejected WorkerStatus.ok)
    ≡ true
derive_value_status-retainable_example =
    derive_value_status-retainable CaptureStatus.ok OcrStatus.ok ParseStatus.no_number
      StabilityStatus.rejected WorkerStatus.ok
