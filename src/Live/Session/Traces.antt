-- ===== src/Live/Session/Traces.antt =====
-- statemachine.py: what holds over every sequence of calls. A call that raises leaves the machine.
use screen2xyz_civil_plan_di.Prelude.{
  ◌≡◌, ◌≢◌, refl, sym, ◌∙◌, Option, none, some, Bool, true, false, List, [], ◌∷◌, arith, is_some,
  Option-cases, inl, inr, All,
}
use screen2xyz_civil_plan_di.Live.Session.{
  State, idle, target_selected, regions_configured, armed, recording, paused, stopping, finalized,
  Machine, Call, selecting, configuring, confirming, starting, resuming, reconfiguring, finalizing,
  worker_restored, new, perform,
}
use screen2xyz_civil_plan_di.Live.Session.Revision.{is_live, IsSound, new-IsSound, perform-IsSound}

abbrev pub or_same : Machine → Option Machine → Machine
or_same m none = m
or_same m (some n) = n

unfoldable pub run : Machine → List Call → Machine
run m [] = m
run m (c ∷ cs) = run (or_same m (perform c m)) cs

-- The calls of a sequence that do not raise.
unfoldable pub accepted : Machine → List Call → List Call
accepted m [] = []
accepted m (c ∷ cs) = elim (perform c m) [ none ↦ accepted m cs | some n ↦ c ∷ accepted n cs ]

-- Whether a preview was confirmed after the last change of target, sources or layout.
unfoldable pub confirmed_since : Bool → List Call → Bool
confirmed_since b [] = b
confirmed_since b (confirming ∷ cs) = confirmed_since true cs
confirmed_since b (selecting ∷ cs) = confirmed_since false cs
confirmed_since b (configuring ∷ cs) = confirmed_since false cs
confirmed_since b (reconfiguring ∷ cs) = confirmed_since false cs
confirmed_since b (_ ∷ cs) = confirmed_since b cs

or_same-IsSound : (c : Call) (m : Machine) → IsSound m → IsSound (or_same m (perform c m))
or_same-IsSound c m h = elim (Option-cases (perform c m)) [
  | inl e ↦ rw e h
  | inr (n, e) ↦ rw e (perform-IsSound c m h e)
]

pub run-IsSound : (m : Machine) (cs : List Call) → IsSound m → IsSound (run m cs)
unfolding run
run-IsSound m [] h = h
run-IsSound m (c ∷ cs) h = run-IsSound (or_same m (perform c m)) cs (or_same-IsSound c m h)

-- One accepted call moves the ghost flag as it moves the confirmed revision.
confirmed_since-step :
    (c : Call) (m n : Machine) (cs : List Call)
    → perform c m ≡ some n
    → confirmed_since (is_some m.preview_confirmed_revision) (c ∷ cs)
      ≡ confirmed_since (is_some n.preview_confirmed_revision) cs
unfolding confirmed_since perform
confirmed_since-step c m n cs p = ground arith

confirmed_since-run :
    (m : Machine) (cs : List Call)
    → is_some (run m cs).preview_confirmed_revision
      ≡ confirmed_since (is_some m.preview_confirmed_revision) (accepted m cs)
unfolding run accepted
confirmed_since-run m [] = unfold confirmed_since in refl
confirmed_since-run m (c ∷ cs) = elim (Option-cases (perform c m)) [
  | inl e ↦ rw (e, accepted, run) (confirmed_since-run m cs)
  | inr (n, e) ↦
      rw (e, accepted, run)
        (rw (confirmed_since-step c m n (accepted n cs) e) (confirmed_since-run n cs))
]

live_confirmed :
    (m : Machine) → IsSound m → is_live m.state ≡ true → is_some m.preview_confirmed_revision ≡ true
live_confirmed m h l = ground arith

-- Whatever calls are made from a new machine: while the session is armed, recording, paused or
-- stopping, a preview was confirmed after the last accepted change of target or sources.
pub live_needs_confirm :
    (cs : List Call)
    → is_live (run new cs).state ≡ true
    → confirmed_since false (accepted new cs) ≡ true
unfolding new
live_needs_confirm cs l =
    sym (confirmed_since-run new cs)
    ∙ live_confirmed (run new cs) (run-IsSound new cs new-IsSound) l

blocked_step :
    (c : Call) (m : Machine)
    → c ≢ worker_restored
    → m.setup_worker_blocked ≡ true
    → is_live m.state ≡ false
    → ((or_same m (perform c m)).setup_worker_blocked ≡ true)
      × (is_live (or_same m (perform c m)).state ≡ false)
unfolding perform
blocked_step c m h b l = ground arith

-- While the capture worker is blocked no sequence of calls arms or starts a session that was not
-- live, until the worker is restored.
pub blocked_stays_down :
    (m : Machine) (cs : List Call)
    → All (λ c. c ≢ worker_restored) cs
    → m.setup_worker_blocked ≡ true
    → is_live m.state ≡ false
    → is_live (run m cs).state ≡ false
unfolding run
blocked_stays_down m [] h b l = l
blocked_stays_down m (c ∷ cs) h b l =
    let (b', l') = blocked_step c m h.0 b l in
    blocked_stays_down (or_same m (perform c m)) cs h.1 b' l'

-- The way from each state to a recording.
unfoldable pub way : State → List Call
way idle = selecting ∷ configuring ∷ confirming ∷ starting ∷ []
way target_selected = configuring ∷ confirming ∷ starting ∷ []
way regions_configured = confirming ∷ starting ∷ []
way armed = starting ∷ []
way recording = []
way paused = resuming ∷ []
way stopping = finalizing ∷ selecting ∷ configuring ∷ confirming ∷ starting ∷ []
way finalized = selecting ∷ configuring ∷ confirming ∷ starting ∷ []

-- No state is a dead end: from every sound machine whose worker is not blocked the calls of `way`
-- reach RECORDING.
pub way-recording :
    (m : Machine)
    → IsSound m
    → m.setup_worker_blocked ≡ false
    → (run m (way m.state)).state ≡ recording
unfolding run way perform
way-recording m h b = ground arith
