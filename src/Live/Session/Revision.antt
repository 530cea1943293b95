-- ===== src/Live/Session/Revision.antt =====
-- statemachine.py: the confirmed preview belongs to the current configuration.
use screen2xyz_civil_plan_di.Prelude.{◌≡◌, ◌⊎◌, none, some, Bool, true, false, arith, if◌then◌else◌}
use screen2xyz_civil_plan_di.Live.Session.{
  State, armed, recording, paused, stopping, Machine, Call, start_recording, starting, new,
  is_legal, perform,
}

abbrev pub is_live : State → Bool
is_live armed = true
is_live recording = true
is_live paused = true
is_live stopping = true
is_live _ = false

-- What holds between two calls.
pub record IsSound (m : Machine) : Type 0 where
  -- a confirmation is dropped by every change of the configuration
  pub current :
      (m.preview_confirmed_revision ≡ none)
      ⊎ (m.preview_confirmed_revision ≡ some m.configuration_revision)
  -- a session that is armed or beyond has its configuration confirmed
  pub confirmed :
      (is_live m.state ≡ false) ⊎ (m.preview_confirmed_revision ≡ some m.configuration_revision)

pub new-IsSound : IsSound new
unfolding new
new-IsSound = ground arith

-- Every call that does not raise, the controller's assignments among them, keeps the confirmed
-- revision at the current one, and keeps an armed, recording, paused or stopping session confirmed.
pub perform-IsSound :
    (c : Call) (m : Machine) {n : Machine} → IsSound m → perform c m ≡ some n → IsSound n
unfolding perform
perform-IsSound c m h p = ground arith

-- In a sound machine `start_recording` raises exactly when `is_legal` refuses it: the guard
-- against a stale preview never fires by itself. When legal it enters RECORDING and changes
-- nothing else.
pub starting-is_legal :
    (m : Machine)
    → IsSound m
    → perform starting m
      ≡ (if is_legal m start_recording then some (record m { state = recording }) else none)
unfolding perform
starting-is_legal m h = ground arith
