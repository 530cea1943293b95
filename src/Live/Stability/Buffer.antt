-- ===== src/Live/Stability/Buffer.antt =====
-- stability.py: what one pass of the loop takes from the evidence buffer and gives back.
use screen2xyz_civil_plan_di.Prelude.{
  ℕ, ◌+◌, ◌-◌, ◌≤◌, ◌≡◌, Option, none, some, Bool, true, false, arith, length, if◌then◌else◌, suc,
  is_some, ltb, ◌&&◌, refl,
}
use screen2xyz_civil_plan_di.Prelude.Floats.{Floats}
use screen2xyz_civil_plan_di.Live.Stability.{Bytes, Observation, Candidate, SourceState}
use screen2xyz_civil_plan_di.Live.Stability.Parts.{
  Work, Context, Pass, aggregate_crop_max_bytes, held, own_crop,
}
use screen2xyz_civil_plan_di.Live.Stability.Observe.{
  commit, settle, start_candidate, with_crop, replace_candidate, confirm_stable, pursue, observe_ok,
  observe_error, observe,
}

-- A pass from total `t` and candidate `c`: what it takes and gives back balances, within the limit.
pub record Balanced {F : Type 0} (t : ℕ) (c : Option (Candidate F)) (p : Pass F) : Type 0 where
  pub exact : p.work.evidence_bytes + held c ≡ t + held p.state.candidate
  pub within : t ≤ aggregate_crop_max_bytes → p.work.evidence_bytes ≤ aggregate_crop_max_bytes

Balanced-if :
    {F : Type 0} {t : ℕ} {c : Option (Candidate F)} (b : Bool) (p q : Pass F)
    → Balanced t c p
    → Balanced t c q
    → Balanced t c (if b then p else q)
Balanced-if true p q hp hq = hp
Balanced-if false p q hp hq = hq

module _ (fl : Floats) (cx : Context fl.F) (w : Work) (s : SourceState fl.F)
    (obs : Observation) where
  commit-Balanced :
      (c : Candidate fl.F)
      → held (some c) ≤ w.evidence_bytes
      → Balanced w.evidence_bytes (some c) (commit fl cx c w s obs)
  unfolding commit held
  commit-Balanced c h = ground arith

  settle-Balanced :
      (fresh : Bool) (c : Candidate fl.F)
      → held (some c) ≤ w.evidence_bytes
      → Balanced w.evidence_bytes (some c) (settle fl cx fresh c w s obs)
  unfolding settle held
  settle-Balanced fresh c h = ground (arith, commit-Balanced c)

  confirm_stable-Balanced :
      held s.candidate ≤ w.evidence_bytes
      → Balanced w.evidence_bytes s.candidate (confirm_stable fl w s obs)
  unfolding confirm_stable held
  confirm_stable-Balanced h = ground arith

  observe_error-Balanced :
      held s.candidate ≤ w.evidence_bytes
      → Balanced w.evidence_bytes s.candidate (observe_error fl cx w s obs)
  unfolding observe_error held
  observe_error-Balanced h = ground arith

abbrev size : Option Bytes → ℕ
size none = 0
size (some png) = length png

own_crop_bounds :
    (t : ℕ) (crop png : Option Bytes) (total : ℕ)
    → own_crop t crop ≡ some (png, total)
    → (total ≡ t + size png) × (t ≤ aggregate_crop_max_bytes → total ≤ aggregate_crop_max_bytes)
unfolding own_crop
own_crop_bounds t crop png total h = ground arith

module _ (fl : Floats) (cx : Context fl.F) (w : Work) (s : SourceState fl.F)
    (obs : Observation) where
  start_candidate-Balanced :
      (replaced : Bool) (t : ℕ) (png : Option Bytes) (total : ℕ)
      → (total ≡ t + size png) × (t ≤ aggregate_crop_max_bytes → total ≤ aggregate_crop_max_bytes)
      → Balanced t none (start_candidate fl cx replaced (png, total) w s obs)
  unfolding start_candidate held
  start_candidate-Balanced true t png total h = ground arith
  start_candidate-Balanced false t png total h =
      let c : Candidate fl.F = record {
        value = obs.normalized_value;
        kind = obs.value_kind;
        first_frame_id = cx.frame_id;
        first_observation = obs;
        first_crop_png = png;
        first_seen_ms = cx.now;
        count = 1;
      } in
      ground (arith, settle-Balanced fl cx (record w { evidence_bytes = total }) s obs true c)

  with_crop-Balanced :
      (replaced : Bool) (t : ℕ) (own : Option (Option Bytes × ℕ))
      → own_crop t cx.crop ≡ own
      → s.candidate ≡ none
      → Balanced t none (with_crop fl cx replaced t own w s obs)
  unfolding with_crop held
  with_crop-Balanced replaced t none e n = ground arith
  with_crop-Balanced replaced t (some (png, total)) e n =
      start_candidate-Balanced replaced t png total (own_crop_bounds t cx.crop png total e)

module _ (fl : Floats) (cx : Context fl.F) (w : Work) (s : SourceState fl.F)
    (obs : Observation) where
  replace_candidate-Balanced :
      held s.candidate ≤ w.evidence_bytes
      → Balanced w.evidence_bytes s.candidate (replace_candidate fl cx w s obs)
  unfolding replace_candidate held
  replace_candidate-Balanced h =
      let t = w.evidence_bytes - held s.candidate in
      ground (
        arith,
        with_crop-Balanced fl cx w (record s { candidate = none }) obs
            (is_some s.candidate && ltb 1 cx.confirmations) t (own_crop t cx.crop) refl refl,
      )

  pursue-Balanced :
      (c : Option (Candidate fl.F))
      → s.candidate ≡ c
      → held s.candidate ≤ w.evidence_bytes
      → Balanced w.evidence_bytes s.candidate (pursue fl cx c w s obs)
  unfolding pursue held
  pursue-Balanced none e h = replace_candidate-Balanced h
  pursue-Balanced (some c) e h = ground (
    arith,
    replace_candidate-Balanced h,
    settle-Balanced fl cx w s obs false (record c { count = suc c.count }),
  )

  observe_ok-Balanced :
      held s.candidate ≤ w.evidence_bytes
      → Balanced w.evidence_bytes s.candidate (observe_ok fl cx w s obs)
  unfolding observe_ok
  observe_ok-Balanced h = Balanced-if _ _ _ (confirm_stable-Balanced fl cx w s obs h) (
      Balanced-if _ _ _ (confirm_stable-Balanced fl cx w s obs h)
        (pursue-Balanced s.candidate refl h))

  pub observe-Balanced :
      held s.candidate ≤ w.evidence_bytes
      → Balanced w.evidence_bytes s.candidate (observe fl cx w s obs)
  unfolding observe
  observe-Balanced h =
      Balanced-if _ _ _ (observe_ok-Balanced h) (observe_error-Balanced fl cx w s obs h)
