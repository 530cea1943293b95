-- ===== src/Live/Stability/Readings.antt =====
-- stability.py: what one observation does to the stable state of its source.
use screen2xyz_civil_plan_di.Prelude.{ℕ, ◌≡◌, ◌==◌, if◌then◌else◌}
use screen2xyz_civil_plan_di.Prelude.Floats.{Floats}
use screen2xyz_civil_plan_di.Live.Status.{ValueStatus}
use screen2xyz_civil_plan_di.Live.Stability.{SourceState}

-- The stable part of a source's state is the same.
pub record SameStable {F : Type 0} (s t : SourceState F) : Type 0 where
  pub seeded : t.seeded ≡ s.seeded
  pub value : t.stable_value ≡ s.stable_value
  pub kind : t.stable_kind ≡ s.stable_kind

abbrev status_at : ℕ → ValueStatus
status_at n =
    if n == 0
    then ValueStatus.ok
    else if n == 1
    then ValueStatus.missing_source_value
    else if n == 2
    then ValueStatus.ocr_failure
    else if n == 3
    then ValueStatus.no_number
    else if n == 4
    then ValueStatus.ambiguous_multiple_numbers
    else if n == 5
    then ValueStatus.malformed_number
    else if n == 6
    then ValueStatus.out_of_range
    else if n == 7
    then ValueStatus.input_truncated
    else if n == 8
    then ValueStatus.unstable_reading
    else if n == 9
    then ValueStatus.source_not_visible
    else if n == 10
    then ValueStatus.target_unavailable
    else if n == 11
    then ValueStatus.capture_failure
    else ValueStatus.suspect_glyph_confusion
