-- ===== src/Live/Stability/Tests.antt =====
-- stability.py: runs of the engine on concrete input.
use screen2xyz_civil_plan_di.Prelude.{
  ℕ, ◌≡◌, ◌≤◌, ◌⊎◌, ◌≢◌, refl, none, some, true, false, not, [], ◌∷◌, is_some, is_empty,
}
use screen2xyz_civil_plan_di.Prelude.Samples.{whole_numbers}
use screen2xyz_civil_plan_di.Live.Status.{
  CaptureStatus, OcrStatus, ParseStatus, StabilityStatus, ValueStatus, changed_and_errors,
  retained_error, retained_diagnostic,
}
use screen2xyz_civil_plan_di.Live.Stability.{
  Observation, Candidate, SourceState, Defaults, Source, Engine, new_engine,
}
use screen2xyz_civil_plan_di.Live.Stability.Parts.{Work, Context, aggregate_crop_max_bytes}
use screen2xyz_civil_plan_di.Live.Stability.Observe.{observe}
use screen2xyz_civil_plan_di.Live.Stability.Tick.{decide, process_tick}
use screen2xyz_civil_plan_di.Live.Stability.Accounting.{here, tick, total_held, evidence_accounted}
use screen2xyz_civil_plan_di.Live.Stability.Readings.{SameStable}
use screen2xyz_civil_plan_di.Live.Stability.Confirmation.{Moved, seen, seen_since, observe_ok-Moved}
use screen2xyz_civil_plan_di.Live.Stability.Reports.{
  mem, decide_keeps_changes, decide_keeps_errors, decide_quiet,
}

abbrev reading : Observation
reading = record {
  capture_status = CaptureStatus.ok;
  ocr_status = OcrStatus.ok;
  parse_status = ParseStatus.ok;
  stability_status = StabilityStatus.not_evaluated;
  value_status = ValueStatus.ok;
  raw_text = "7";
  raw_truncated = false;
  raw_original_utf8_bytes = none;
  warning_codes = [];
  normalized_value = some "7";
  value_kind = "number";
  pixel_sha256 = none;
}

abbrev failed_reading : Observation
failed_reading = record reading { value_status = ValueStatus.ocr_failure }

abbrev seven : Candidate ℕ
seven = record {
  value = some "7";
  kind = "number";
  first_frame_id = "f1";
  first_observation = reading;
  first_crop_png = none;
  first_seen_ms = 1;
  count = 1;
}

abbrev at_five : SourceState ℕ
at_five = record {
  seeded = true;
  stable_value = some "5";
  stable_kind = "number";
  stable_status = some ValueStatus.ok;
  retained_error_active = false;
  last_retained_error = none;
  pre_error_value = none;
  pre_error_kind = "number";
  candidate = some seven;
}

abbrev second_frame : Context ℕ
second_frame = record {
  source_id = "a";
  confirmations = 2;
  debounce = 3;
  threshold = none;
  frame_id = "f2";
  now = 5;
  crop = none;
}

abbrev nothing_yet : Work
nothing_yet = record {
  evidence_bytes = 0;
  changed = [];
  error_transitions = [];
  recoveries = [];
  recovery_changed = [];
  evidence = [];
  crops = [];
}

abbrev one_changed : Work
one_changed = record nothing_yet { changed = "a" ∷ [] }

abbrev one_failed : Work
one_failed = record nothing_yet { error_transitions = "a" ∷ [] }

abbrev plain_defaults : Defaults ℕ
plain_defaults = record { confirmations = 2; debounce_ms = 0; min_change_threshold = none }

abbrev source_a : Source ℕ
source_a = record {
  source_id = "a";
  enabled = true;
  config = record { confirmations = none; debounce_ms = none; min_change_threshold = none };
}

abbrev first_tick : Engine ℕ
first_tick =
    (process_tick whole_numbers (new_engine (source_a ∷ []) plain_defaults changed_and_errors)
      (("a", reading) ∷ []) "f1" 1 (("a", 1 ∷ 2 ∷ []) ∷ [])).0

evidence_accounted_example :
    (first_tick.evidence_bytes ≡ total_held first_tick.slots)
    × (first_tick.evidence_bytes ≤ aggregate_crop_max_bytes)
evidence_accounted_example =
    evidence_accounted whole_numbers (source_a ∷ []) plain_defaults changed_and_errors
      (tick here (("a", reading) ∷ []) "f1" 1 (("a", 1 ∷ 2 ∷ []) ∷ []))

observe_ok-Moved_example :
    SameStable at_five (observe whole_numbers second_frame nothing_yet at_five reading).state
    ⊎ Moved whole_numbers second_frame
        (observe whole_numbers second_frame nothing_yet at_five reading).state
        (some "7")
        "number"
        (seen (some seven) reading)
        (seen_since 5 (some seven) reading)
observe_ok-Moved_example =
    observe_ok-Moved whole_numbers second_frame nothing_yet at_five reading refl

abbrev five_alone : SourceState ℕ
five_alone = record at_five { candidate = none }

decide_keeps_changes_example :
    ((decide changed_and_errors [] one_changed).event_status ≢ none)
    × ((decide changed_and_errors [] one_changed).event_status ≢ some retained_diagnostic)
    × (mem "a" (decide changed_and_errors [] one_changed).changed_source_ids ≡ true)
decide_keeps_changes_example = decide_keeps_changes changed_and_errors [] one_changed "a" refl

decide_keeps_errors_example :
    ((decide changed_and_errors [] one_failed).event_status ≡ some retained_error)
    × (mem "a" (decide changed_and_errors [] one_failed).changed_source_ids ≡ true)
decide_keeps_errors_example = decide_keeps_errors changed_and_errors [] one_failed "a" refl refl

decide_quiet_example :
    (is_some (decide changed_and_errors [] one_failed).event_status
      ≡ not (is_empty (decide changed_and_errors [] one_failed).retention_reason_codes))
    × ((is_some (decide changed_and_errors [] one_failed).event_status ≡ true)
        ⊎ ((decide changed_and_errors [] one_failed).evidence ≡ [])
          × ((decide changed_and_errors [] one_failed).crops_to_save ≡ [])
          × ((decide changed_and_errors [] one_failed).changed_source_ids ≡ []))
decide_quiet_example = decide_quiet changed_and_errors [] one_failed
