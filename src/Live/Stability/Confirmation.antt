-- ===== src/Live/Stability/Confirmation.antt =====
-- stability.py: when a reading becomes the stable value of its source.
use screen2xyz_civil_plan_di.Prelude.{
  ℕ, suc, ◌≤◌, ◌≡◌, ◌⊎◌, String, Option, none, some, Bool, true, false, arith, ◌&&◌, Bool-cases,
  if◌then◌else◌, inl, inr, refl, eq_iff, is_some, ltb, ◌-◌,
}
use screen2xyz_civil_plan_di.Prelude.Floats.{Floats}
use screen2xyz_civil_plan_di.Live.Stability.{Bytes, Observation, Candidate, SourceState}
use screen2xyz_civil_plan_di.Live.Stability.Parts.{
  Work, Context, ok_value, same_text, candidate_matches, own_crop, held,
}
use screen2xyz_civil_plan_di.Live.Stability.Observe.{
  commit, settle, start_candidate, with_crop, replace_candidate, confirm_stable, pursue, observe_ok,
  observe,
}
use screen2xyz_civil_plan_di.Live.Stability.Readings.{SameStable}

pub eq-same_text : (a b : Option String) → same_text a b ≡ true → a ≡ b
eq-same_text none none h = refl
eq-same_text none (some b) h = cc
eq-same_text (some a) none h = cc
eq-same_text (some a) (some b) h = ground (arith, eq_iff a b)

module _ {F : Type 0} where
  -- How often the reading was seen in a row with this observation, and since when.
  abbrev pub seen : Option (Candidate F) → Observation → ℕ
  seen none obs = 1
  seen (some c) obs = if candidate_matches (some c) obs then suc c.count else 1

  abbrev pub seen_since : F → Option (Candidate F) → Observation → F
  seen_since now none obs = now
  seen_since now (some c) obs = if candidate_matches (some c) obs then c.first_seen_ms else now

  pub match_reading :
      (c : Candidate F) (obs : Observation)
      → candidate_matches (some c) obs ≡ true
      → (c.value ≡ obs.normalized_value) × (c.kind ≡ obs.value_kind)
  unfolding candidate_matches
  match_reading c obs h =
      ground (arith, eq-same_text c.value obs.normalized_value, eq_iff c.kind obs.value_kind)

module _ (fl : Floats) (cx : Context fl.F) where
  open fl use {F, of_nat, sub, le}

  -- The stable value in `t` is the given reading, seen `n` times since `t0`, often and long enough.
  pub record Moved (t : SourceState F) (v : Option String) (k : String) (n : ℕ) (t0 : F)
      : Type 0 where
    pub seeded : t.seeded ≡ true
    pub value : t.stable_value ≡ v
    pub kind : t.stable_kind ≡ k
    pub often : cx.confirmations ≤ n
    pub long : le (of_nat cx.debounce) (sub cx.now t0) ≡ true

  module _ (w : Work) (s : SourceState F) (obs : Observation) where
    settle-Moved :
        (fresh : Bool) (c : Candidate F)
        → SameStable s (settle fl cx fresh c w s obs).state
          ⊎ Moved (settle fl cx fresh c w s obs).state c.value c.kind c.count c.first_seen_ms
    unfolding settle commit
    settle-Moved fresh c = ground arith

  module _ (s : SourceState F) (obs : Observation) where
    start_candidate-Moved :
        (w : Work) (replaced : Bool) (png : Option Bytes) (total : ℕ)
        → SameStable s (start_candidate fl cx replaced (png, total) w s obs).state
          ⊎ Moved
              (start_candidate fl cx replaced (png, total) w s obs).state
              obs.normalized_value
              obs.value_kind
              1
              cx.now
    unfolding start_candidate
    start_candidate-Moved w true png total = ground arith
    start_candidate-Moved w false png total =
        let c : Candidate F = record {
          value = obs.normalized_value;
          kind = obs.value_kind;
          first_frame_id = cx.frame_id;
          first_observation = obs;
          first_crop_png = png;
          first_seen_ms = cx.now;
          count = 1;
        } in
        settle-Moved (record w { evidence_bytes = total }) s obs true c

    with_crop-Moved :
        (w : Work) (replaced : Bool) (t : ℕ) (own : Option (Option Bytes × ℕ))
        → SameStable s (with_crop fl cx replaced t own w s obs).state
          ⊎ Moved
              (with_crop fl cx replaced t own w s obs).state
              obs.normalized_value
              obs.value_kind
              1
              cx.now
    unfolding with_crop
    with_crop-Moved w replaced t none = ground arith
    with_crop-Moved w replaced t (some (png, total)) = start_candidate-Moved w replaced png total

  module _ (w : Work) (s : SourceState F) (obs : Observation) where
    replace_candidate-Moved :
        SameStable s (replace_candidate fl cx w s obs).state
        ⊎ Moved (replace_candidate fl cx w s obs).state obs.normalized_value obs.value_kind 1 cx.now
    unfolding replace_candidate
    replace_candidate-Moved =
        let t = w.evidence_bytes - held s.candidate in
        ground (
          arith,
          with_crop-Moved (record s { candidate = none }) obs w
              (is_some s.candidate && ltb 1 cx.confirmations) t (own_crop t cx.crop),
        )

    pursue-Moved :
        (c : Option (Candidate F))
        → SameStable s (pursue fl cx c w s obs).state
          ⊎ Moved
              (pursue fl cx c w s obs).state
              obs.normalized_value
              obs.value_kind
              (seen c obs)
              (seen_since cx.now c obs)
    unfolding pursue
    pursue-Moved none = replace_candidate-Moved
    pursue-Moved (some c) = elim (Bool-cases (candidate_matches (some c) obs)) [
      | inl e ↦ rw e (
          ground (
            arith,
            settle-Moved w s obs false (record c { count = suc c.count }),
            match_reading c obs e,
          ))
      | inr e ↦ rw e replace_candidate-Moved
    ]

    -- With status OK the stable value either stays, or becomes the observed reading; and it becomes
    -- that only when the reading was seen as often in a row as the source asks for, this time
    -- included, and for the debounce time.
    pub observe_ok-Moved :
        ok_value obs.value_status ≡ true
        → SameStable s (observe fl cx w s obs).state
          ⊎ Moved
              (observe fl cx w s obs).state
              obs.normalized_value
              obs.value_kind
              (seen s.candidate obs)
              (seen_since cx.now s.candidate obs)
    unfolding observe observe_ok confirm_stable
    observe_ok-Moved h = ground (arith, pursue-Moved s.candidate)
