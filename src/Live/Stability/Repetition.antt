-- ===== src/Live/Stability/Repetition.antt =====
-- stability.py: a reading that comes often enough becomes the stable value.
use screen2xyz_civil_plan_di.Prelude.{ℕ, ◌≡◌, none, some, true, false, not, List, [], ◌∷◌, ◌&&◌}
use screen2xyz_civil_plan_di.Prelude.Floats.{Floats}
use screen2xyz_civil_plan_di.Live.Status.{ValueStatus}
use screen2xyz_civil_plan_di.Live.Stability.{Observation, Candidate, SourceState}
use screen2xyz_civil_plan_di.Live.Stability.Parts.{
  Work, Context, ok_value, same_as_stable, candidate_matches, Pass,
}
use screen2xyz_civil_plan_di.Live.Stability.Observe.{below_threshold, observe}

module _ {F : Type 0} where
  -- The last of the times, `t` being the first.
  abbrev pub last_time : F → List F → F
  last_time t [] = t
  last_time t (u ∷ ts) = last_time u ts

  abbrev pub at_time : Context F → F → Context F
  at_time cx t = record cx { now = t; crop = none }

  -- The reading waits, seen `n` times since `t0`.
  record IsPending (s : SourceState F) (obs : Observation) (n : ℕ) (t0 : F) : Type 0 where
    c : Candidate F
    candidate : s.candidate ≡ some c
    same : candidate_matches (some c) obs ≡ true
    count : c.count ≡ n
    since : c.first_seen_ms ≡ t0

-- The state after the passes at the times, each with the same observation and no crop.
module _ (fl : Floats) where
  open fl use {F, of_nat, sub, le}

  abbrev pub repeated : Context F → List F → Work → SourceState F → Observation → SourceState F
  repeated cx [] w s obs = s
  repeated cx (t ∷ ts) w s obs =
      let p = observe fl (at_time cx t) w s obs in repeated cx ts p.work p.state obs

  module _ (cx : Context F) (obs : Observation) (has : ok_value obs.value_status ≡ true) where
    -- What stays until the reading is confirmed.
    record IsAwaiting (s : SourceState F) : Type 0 where
      other : same_as_stable s obs && not s.retained_error_active ≡ false
      far : below_threshold fl cx.threshold s.stable_value obs.normalized_value ≡ false

    -- The pass leaves the stable part of the state and a candidate that waits.
    record Waits (s : SourceState F) (p : Pass F) (n : ℕ) (t0 : F) : Type 0 where
      seeded : p.state.seeded ≡ s.seeded
      value : p.state.stable_value ≡ s.stable_value
      kind : p.state.stable_kind ≡ s.stable_kind
      status : p.state.stable_status ≡ s.stable_status
      active : p.state.retained_error_active ≡ s.retained_error_active
      c : Candidate F
      candidate : p.state.candidate ≡ some c
      same : candidate_matches (some c) obs ≡ true
      count : c.count ≡ n
      since : c.first_seen_ms ≡ t0

    -- The candidate of a first reading.
    abbrev new_candidate : Context F → Observation → Candidate F
    new_candidate x first = record {
      value = obs.normalized_value;
      kind = obs.value_kind;
      first_frame_id = x.frame_id;
      first_observation = first;
      first_crop_png = none;
      first_seen_ms = x.now;
      count = 1;
    }

    -- The reading is the stable one.
    pub record IsStable (s : SourceState F) : Type 0 where
      pub seeded : s.seeded ≡ true
      pub value : s.stable_value ≡ obs.normalized_value
      pub kind : s.stable_kind ≡ obs.value_kind
      pub status : s.stable_status ≡ some ValueStatus.ok
      pub candidate : s.candidate ≡ none
      pub active : s.retained_error_active ≡ false
