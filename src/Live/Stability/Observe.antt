-- ===== src/Live/Stability/Observe.antt =====
-- stability.py: one pass of the loop of `process_tick`. The observation and the source's state are
-- mutated objects: both come back, also where `_own_crop` raises `BufferError` (`raised`). A
-- candidate's `first_observation` is the observation object itself, so what is written to the
-- observation later in the same tick is written to it too.
use screen2xyz_civil_plan_di.Prelude.{
  ℕ, suc, String, Option, none, some, Bool, true, false, not, [], ◌∷◌, ◌++◌, ◌&&◌, ◌||◌, ltb, leb,
  ◌==◌, str_eq, is_some, if◌then◌else◌,
}
use screen2xyz_civil_plan_di.Prelude.Floats.{Floats}
use screen2xyz_civil_plan_di.Live.Status.{
  ValueStatus, immediate, pending_confirmation, confirmed, rejected, retainable_error,
  derive_value_status, WorkerStatus,
}
use screen2xyz_civil_plan_di.Live.Stability.{Bytes, Observation, Candidate, SourceState}
use screen2xyz_civil_plan_di.Live.Stability.Parts.{
  Work, Context, Pass, put, same_text, ok_value, live_only, is_last_error, code_set, own_crop,
  release_candidate, evidence_record, stash_crop, same_as_stable, candidate_matches,
}

module _ (fl : Floats) where
  open fl use {F, of_nat, parse, sub, abs, lt, le}

  -- `abs(float(new) - float(old)) < threshold`, false where `float` raises ValueError
  unfoldable pub close_values : F → Option F → Option F → Bool
  close_values t (some n) (some o) = lt (abs (sub n o)) t
  close_values t _ _ = false

  -- `_below_threshold`
  unfoldable pub below_threshold : Option F → Option String → Option String → Bool
  unfolding close_values
  below_threshold (some t) (some old) (some new) = close_values t (parse new) (parse old)
  below_threshold _ _ _ = false

  -- The end of the OK branch: the candidate is confirmed and becomes the stable value.
  unfoldable pub commit : Context F → Candidate F → Work → SourceState F → Observation → Pass F
  unfolding release_candidate evidence_record stash_crop put
  commit cx c w s obs =
      let moved =
        not (same_text c.value s.pre_error_value) || not (str_eq c.kind s.pre_error_kind) in
      let differs = not (same_text s.stable_value c.value) || not (str_eq s.stable_kind c.kind) in
      let record_it = record w {
        evidence = put cx.source_id (evidence_record c) w.evidence;
        crops = stash_crop cx.source_id c w.crops;
      } in
      let w' =
        if s.retained_error_active
        then record record_it {
          recoveries = w.recoveries ++ cx.source_id ∷ [];
          recovery_changed = put cx.source_id moved w.recovery_changed;
        }
        else if s.seeded && differs
        then record record_it { changed = w.changed ++ cx.source_id ∷ [] }
        else w in
      let s' = record s {
        seeded = true;
        stable_value = c.value;
        stable_kind = c.kind;
        stable_status = some ValueStatus.ok;
        retained_error_active = false;
        last_retained_error = if s.retained_error_active then none else s.last_retained_error;
        candidate = some c;
      } in
      let (s'', total) = release_candidate w.evidence_bytes s' in
      record {
        raised = false;
        work = record w' { evidence_bytes = total };
        state = s'';
        obs = record obs {
          stability_status = if cx.confirmations == 1 then immediate else confirmed;
        };
      }

  -- From `needed = …` on: `c` is the candidate, new in this tick if `fresh`.
  unfoldable pub settle :
      Context F → Bool → Candidate F → Work → SourceState F → Observation → Pass F
  settle cx fresh c w s obs =
      let pending = record obs { stability_status = pending_confirmation } in
      if leb cx.confirmations c.count && le (of_nat cx.debounce) (sub cx.now c.first_seen_ms)
      then commit cx c w s obs
      else record {
        raised = false;
        work = w;
        state = record s {
          candidate = some (if fresh then record c { first_observation = pending } else c);
        };
        obs = pending;
      }

  -- A new candidate, which surfaces as unstable if it replaces a pending one.
  unfoldable pub start_candidate :
      Context F → Bool → Option Bytes × ℕ → Work → SourceState F → Observation → Pass F
  start_candidate cx replaced (png, total) w s obs =
      let c : Candidate F = record {
        value = obs.normalized_value;
        kind = obs.value_kind;
        first_frame_id = cx.frame_id;
        first_observation = obs;
        first_crop_png = png;
        first_seen_ms = cx.now;
        count = 1;
      } in
      let w' = record w { evidence_bytes = total } in
      let unstable = record obs {
        stability_status = rejected;
        value_status =
            derive_value_status obs.capture_status obs.ocr_status obs.parse_status rejected
              WorkerStatus.ok;
        warning_codes = code_set obs.warning_codes "CANDIDATE_REPLACED";
      } in
      if replaced
      then record {
        raised = false;
        work = w';
        state = record s { candidate = some (record c { first_observation = unstable }) };
        obs = unstable;
      }
      else settle cx true c w' s obs

  -- `_own_crop` returned, or raised with the old candidate released.
  unfoldable pub with_crop :
      Context F → Bool → ℕ → Option (Option Bytes × ℕ) → Work → SourceState F → Observation → Pass F
  with_crop cx replaced total none w s obs = record {
    raised = true;
    work = record w { evidence_bytes = total };
    state = s;
    obs = obs;
  }
  with_crop cx replaced total (some owned) w s obs = start_candidate cx replaced owned w s obs

  unfoldable pub replace_candidate : Context F → Work → SourceState F → Observation → Pass F
  unfolding release_candidate
  replace_candidate cx w s obs =
      let (s', total) = release_candidate w.evidence_bytes s in
      with_crop cx (is_some s.candidate && ltb 1 cx.confirmations) total (own_crop total cx.crop) w
        s' obs

  -- The two early `continue`s: the candidate is released and the reading is confirmed.
  unfoldable pub confirm_stable : Work → SourceState F → Observation → Pass F
  unfolding release_candidate
  confirm_stable w s obs =
      let (s', total) = release_candidate w.evidence_bytes s in
      record {
        raised = false;
        work = record w { evidence_bytes = total };
        state = s';
        obs = record obs { stability_status = confirmed };
      }

  -- The candidate path, with `state.candidate.count += 1` where the reading repeats it.
  unfoldable pub pursue :
      Context F → Option (Candidate F) → Work → SourceState F → Observation → Pass F
  pursue cx none w s obs = replace_candidate cx w s obs
  pursue cx (some c) w s obs =
      if candidate_matches (some c) obs
      then settle cx false (record c { count = suc c.count }) w s obs
      else replace_candidate cx w s obs

  -- `status == "OK"`
  unfoldable pub observe_ok : Context F → Work → SourceState F → Observation → Pass F
  observe_ok cx w s obs =
      if same_as_stable s obs && not s.retained_error_active
      then confirm_stable w s obs
      else if below_threshold cx.threshold s.stable_value obs.normalized_value
          && (s.seeded && not s.retained_error_active)
      then confirm_stable w s obs
      else pursue cx s.candidate w s obs

  -- The record of a retained error transition, with the crop of this tick.
  unfoldable pub retain_error : Context F → Work → Observation → Work
  unfolding put
  retain_error cx w obs = record w {
    error_transitions = w.error_transitions ++ cx.source_id ∷ [];
    evidence =
        put cx.source_id
          (record {
            evidence_frame_id = cx.frame_id;
            raw_text = obs.raw_text;
            raw_truncated = obs.raw_truncated;
            raw_original_utf8_bytes = obs.raw_original_utf8_bytes;
            warning_codes = obs.warning_codes;
            parse_status = obs.parse_status;
            normalized_value = none;
            value_kind = obs.value_kind;
            pixel_sha256 = obs.pixel_sha256;
          })
          w.evidence;
    crops = elim cx.crop [ none ↦ w.crops | some png ↦ put cx.source_id png w.crops ];
  }

  -- The value before the first error of a run is remembered.
  unfoldable pub remember : SourceState F → SourceState F
  remember s =
      if s.retained_error_active
      then s
      else record s { pre_error_value = s.stable_value; pre_error_kind = s.stable_kind }

  -- The branch of a status other than OK.
  unfoldable pub observe_error : Context F → Work → SourceState F → Observation → Pass F
  unfolding release_candidate retain_error remember is_last_error retainable_error
  observe_error cx w s obs =
      let (s', total) = release_candidate w.evidence_bytes s in
      let w' = record w { evidence_bytes = total } in
      let kept : Pass F = record { raised = false; work = w'; state = s'; obs = obs } in
      let r = remember s' in
      if live_only obs.value_status || not (retainable_error obs.value_status)
      then kept
      else if is_last_error r.last_retained_error obs.value_status
      then record kept { state = r }
      else record {
        raised = false;
        work = retain_error cx w' obs;
        state = record r {
          stable_status = some obs.value_status;
          retained_error_active = true;
          last_retained_error = some obs.value_status;
        };
        obs = obs;
      }

  -- One pass of the loop.
  unfoldable pub observe : Context F → Work → SourceState F → Observation → Pass F
  observe cx w s obs =
      if ok_value obs.value_status then observe_ok cx w s obs else observe_error cx w s obs
