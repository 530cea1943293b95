-- ===== src/Live/Session.antt =====
-- src/screen2xyz_m2/statemachine.py: the session state machine. `_LEGAL` is a function of the
-- action and the state, a method is a function into `Option Machine`, and `none` is the raise of
-- `IllegalAction`: each raise comes before the first assignment, so the machine is then as it was.
-- `worker_blocked` and `worker_restored` are the controller's assignments to
-- `setup_worker_blocked` (controller.py, `_setup_request` and `retry_worker`).
pub mod Revision
pub mod Traces
use screen2xyz_civil_plan_di.Prelude.{
  ℕ, ◌+◌, Option, none, some, Bool, true, false, not, ◌&&◌, ◌==◌, if◌then◌else◌,
}

pub data State : Type 0 where
  idle target_selected regions_configured armed recording paused stopping finalized : State

-- The keys of `_LEGAL`; `other_action` is any string that is no key.
pub data Action : Type 0 where
  select_target edit_sources region_snapshot save_profile load_profile preview : Action
  confirm_preview start_recording pause resume reconfigure stop emergency_stop export : Action
  retry_worker close other_action : Action

-- `_LEGAL`: in which states an action is legal.
unfoldable pub legal : Action → State → Bool
legal select_target regions_configured = true
legal select_target recording = false
legal select_target stopping = false
legal select_target _ = true
legal edit_sources target_selected = true
legal edit_sources regions_configured = true
legal edit_sources armed = true
legal region_snapshot target_selected = true
legal region_snapshot regions_configured = true
legal save_profile idle = true
legal save_profile target_selected = true
legal save_profile regions_configured = true
legal save_profile armed = true
legal save_profile finalized = true
legal load_profile idle = true
legal load_profile target_selected = true
legal load_profile regions_configured = true
legal load_profile armed = true
legal load_profile finalized = true
legal preview regions_configured = true
legal confirm_preview regions_configured = true
legal start_recording armed = true
legal pause recording = true
legal resume paused = true
legal reconfigure armed = true
legal reconfigure paused = true
legal stop armed = true
legal stop recording = true
legal stop paused = true
legal emergency_stop armed = true
legal emergency_stop recording = true
legal emergency_stop paused = true
legal export finalized = true
legal retry_worker target_selected = true
legal retry_worker regions_configured = true
legal retry_worker armed = true
legal close _ = true
legal _ _ = false

-- `_WORKER_DEPENDENT`
unfoldable pub worker_dependent : Action → Bool
worker_dependent region_snapshot = true
worker_dependent preview = true
worker_dependent confirm_preview = true
worker_dependent start_recording = true
worker_dependent _ = false

abbrev pub is_retry : Action → Bool
is_retry retry_worker = true
is_retry _ = false

pub record Machine : Type 0 where
  pub state : State
  pub setup_worker_blocked : Bool
  pub preview_confirmed_revision : Option ℕ
  pub configuration_revision : ℕ

-- `__init__`
unfoldable pub new : Machine
new = record {
  state = idle;
  setup_worker_blocked = false;
  preview_confirmed_revision = none;
  configuration_revision = 0;
}

unfoldable pub is_legal : Machine → Action → Bool
unfolding legal worker_dependent
is_legal m action =
    if not (legal action m.state)
    then false
    else if m.setup_worker_blocked && worker_dependent action
    then false
    else if is_retry action && not m.setup_worker_blocked
    then false
    else true

-- `require`: the method goes on only if the action is legal.
unfoldable pub require : Machine → Action → Option Machine → Option Machine
unfolding is_legal
require m action rest = if is_legal m action then rest else none

unfoldable pub bump_revision : Machine → Machine
bump_revision m = record m {
  configuration_revision = m.configuration_revision + 1;
  preview_confirmed_revision = none;
}

-- The two `if` arms of `select_target`; in the other states the state stays.
unfoldable pub after_select : State → State
after_select armed = target_selected
after_select paused = target_selected
after_select idle = target_selected
after_select finalized = target_selected
after_select s = s

unfoldable pub select_target_call : Machine → Option Machine
unfolding require bump_revision after_select
select_target_call m =
    require m select_target (some (bump_revision (record m { state = after_select m.state })))

unfoldable pub after_configure : State → State
after_configure armed = regions_configured
after_configure target_selected = regions_configured
after_configure s = s

unfoldable pub sources_configured : Machine → Option Machine
unfolding require bump_revision after_configure
sources_configured m =
    require m edit_sources (some (bump_revision (record m { state = after_configure m.state })))

unfoldable pub confirm_preview_call : Machine → Option Machine
unfolding require
confirm_preview_call m =
    require m confirm_preview (
      some (record m { preview_confirmed_revision = some m.configuration_revision; state = armed }))

-- `self.preview_confirmed_revision != self.configuration_revision`, negated
unfoldable pub is_confirmed : Option ℕ → ℕ → Bool
is_confirmed none r = false
is_confirmed (some c) r = c == r

unfoldable pub start_recording_call : Machine → Option Machine
unfolding require is_confirmed
start_recording_call m = require m start_recording (
    if is_confirmed m.preview_confirmed_revision m.configuration_revision
    then some (record m { state = recording })
    else none)

unfoldable pub pause_call : Machine → Option Machine
unfolding require
pause_call m = require m pause (some (record m { state = paused }))

unfoldable pub resume_call : Machine → Option Machine
unfolding require
resume_call m = require m resume (some (record m { state = recording }))

unfoldable pub reconfigure_call : Machine → Option Machine
unfolding require bump_revision
reconfigure_call m =
    require m reconfigure (some (bump_revision (record m { state = regions_configured })))

unfoldable pub after_stop : State → State
after_stop recording = stopping
after_stop paused = stopping
after_stop _ = regions_configured

unfoldable pub stop_call : Machine → Option Machine
unfolding require after_stop
stop_call m = require m stop (some (record m { state = after_stop m.state }))

abbrev pub is_stopping : State → Bool
is_stopping stopping = true
is_stopping _ = false

unfoldable pub finalized_call : Machine → Option Machine
finalized_call m = if is_stopping m.state then some (record m { state = finalized }) else none

-- The methods, and the controller's assignments to `setup_worker_blocked`.
pub data Call : Type 0 where
  selecting configuring confirming starting pausing resuming reconfiguring : Call
  halting finalizing worker_blocked worker_restored : Call

unfoldable pub perform : Call → Machine → Option Machine
unfolding select_target_call sources_configured confirm_preview_call start_recording_call pause_call
    resume_call reconfigure_call stop_call finalized_call
perform selecting m = select_target_call m
perform configuring m = sources_configured m
perform confirming m = confirm_preview_call m
perform starting m = start_recording_call m
perform pausing m = pause_call m
perform resuming m = resume_call m
perform reconfiguring m = reconfigure_call m
perform halting m = stop_call m
perform finalizing m = finalized_call m
perform worker_blocked m = some (record m { setup_worker_blocked = true })
perform worker_restored m = some (record m { setup_worker_blocked = false })
