-- ===== src/Live/Stability/Parts.antt =====
-- stability.py: the locals of `process_tick` and the helpers that its loop calls.
use screen2xyz_civil_plan_di.Prelude.{
  ℕ, ◌+◌, ◌-◌, String, Option, none, some, Bool, true, false, List, [], ◌∷◌, ◌&&◌, ltb, ◌==◌,
  str_eq, length, if◌then◌else◌,
}
use screen2xyz_civil_plan_di.Live.Status.{ValueStatus}
use screen2xyz_civil_plan_di.Live.Stability.{
  Bytes, Observation, EvidenceRecord, Candidate, SourceState,
}

-- contracts.py
abbrev pub crop_png_max_bytes : ℕ
crop_png_max_bytes = 8388608

abbrev pub aggregate_crop_max_bytes : ℕ
aggregate_crop_max_bytes = 67108864

-- The locals of `process_tick`, and `_evidence_bytes`.
pub record Work : Type 0 where
  pub evidence_bytes : ℕ
  pub changed : List String
  pub error_transitions : List String
  pub recoveries : List String
  pub recovery_changed : List (String × Bool)
  pub evidence : List (String × EvidenceRecord)
  pub crops : List (String × Bytes)

-- What one pass of the loop reads beside the source's state and the observation: the settings that
-- `_confirmations`, `_debounce` and `_threshold` resolve, the frame, the time, and the crop.
pub record Context (F : Type 0) : Type 0 where
  pub source_id : String
  pub confirmations : ℕ
  pub debounce : ℕ
  pub threshold : Option F
  pub frame_id : String
  pub now : F
  pub crop : Option Bytes

pub record Pass (F : Type 0) : Type 0 where
  pub raised : Bool
  pub work : Work
  pub state : SourceState F
  pub obs : Observation

module _ {ℓ} {A : Type ℓ} where
  -- `d[k] = v`
  unfoldable pub put : String → A → List (String × A) → List (String × A)
  put k v [] = (k, v) ∷ []
  put k v ((j, w) ∷ d) = if str_eq j k then (k, v) ∷ d else (j, w) ∷ put k v d

  -- `d.get(k)`
  unfoldable pub get : String → List (String × A) → Option A
  get k [] = none
  get k ((j, w) ∷ d) = if str_eq j k then some w else get k d

abbrev pub or_default {ℓ} : {A : Type ℓ} → Option A → A → A
or_default none d = d
or_default (some a) d = a

abbrev pub or_else {ℓ} : {A : Type ℓ} → Option A → Option A → Option A
or_else none d = d
or_else (some a) d = some a

-- `==` of two `str | None`
abbrev pub same_text : Option String → Option String → Bool
same_text none none = true
same_text (some a) (some b) = str_eq a b
same_text none (some _) = false
same_text (some _) none = false

abbrev pub is_status_ok : Option ValueStatus → Bool
is_status_ok (some ValueStatus.ok) = true
is_status_ok _ = false

abbrev pub ok_value : ValueStatus → Bool
ok_value ValueStatus.ok = true
ok_value _ = false

abbrev pub live_only : ValueStatus → Bool
live_only ValueStatus.missing_source_value = true
live_only ValueStatus.unstable_reading = true
live_only _ = false

-- `a == b` of two statuses: the place of a status in `VALUE_STATUSES` tells them apart.
abbrev pub status_index : ValueStatus → ℕ
status_index ValueStatus.ok = 0
status_index ValueStatus.missing_source_value = 1
status_index ValueStatus.ocr_failure = 2
status_index ValueStatus.no_number = 3
status_index ValueStatus.ambiguous_multiple_numbers = 4
status_index ValueStatus.malformed_number = 5
status_index ValueStatus.out_of_range = 6
status_index ValueStatus.input_truncated = 7
status_index ValueStatus.unstable_reading = 8
status_index ValueStatus.source_not_visible = 9
status_index ValueStatus.target_unavailable = 10
status_index ValueStatus.capture_failure = 11
status_index ValueStatus.suspect_glyph_confusion = 12

unfoldable pub is_last_error : Option ValueStatus → ValueStatus → Bool
is_last_error none s = false
is_last_error (some e) s = status_index e == status_index s

-- `set(codes) | {code}`, in one of the orders that a set may be listed in
abbrev pub add_code : String → List String → List String
add_code c [] = c ∷ []
add_code c (d ∷ ds) = if str_eq d c then d ∷ ds else d ∷ add_code c ds

abbrev pub code_set : List String → String → List String
code_set [] c = c ∷ []
code_set (d ∷ ds) c = add_code d (code_set ds c)

-- `_own_crop`: the bytes kept and the new total, `none` for `BufferError`.
unfoldable pub own_crop : ℕ → Option Bytes → Option (Option Bytes × ℕ)
own_crop total none = some (none, total)
own_crop total (some png) =
    if ltb crop_png_max_bytes (length png)
    then none
    else if ltb aggregate_crop_max_bytes (total + length png)
    then none
    else some (some png, total + length png)

module _ {F : Type 0} where
  -- The bytes that a candidate holds of the evidence buffer.
  unfoldable pub held : Option (Candidate F) → ℕ
  held none = 0
  held (some c) = elim c.first_crop_png [ none ↦ 0 | some png ↦ length png ]

  -- `_release_candidate`, which every caller calls with `keep=False`: the state and the new total.
  -- The difference stops at 0, where that of the source would go below.
  unfoldable pub release_candidate : ℕ → SourceState F → SourceState F × ℕ
  unfolding held
  release_candidate total state = (record state { candidate = none }, total - held state.candidate)

  -- `_evidence_record`
  unfoldable pub evidence_record : Candidate F → EvidenceRecord
  evidence_record c = record {
    evidence_frame_id = c.first_frame_id;
    raw_text = c.first_observation.raw_text;
    raw_truncated = c.first_observation.raw_truncated;
    raw_original_utf8_bytes = c.first_observation.raw_original_utf8_bytes;
    warning_codes = c.first_observation.warning_codes;
    parse_status = c.first_observation.parse_status;
    normalized_value = c.value;
    value_kind = c.kind;
    pixel_sha256 = c.first_observation.pixel_sha256;
  }

  -- `_stash_crop`
  unfoldable pub stash_crop : String → Candidate F → List (String × Bytes) → List (String × Bytes)
  stash_crop sid c crops = elim c.first_crop_png [ none ↦ crops | some png ↦ put sid png crops ]

  -- `same_as_stable`
  unfoldable pub same_as_stable : SourceState F → Observation → Bool
  same_as_stable s obs =
      s.seeded
      && (same_text s.stable_value obs.normalized_value
          && (str_eq s.stable_kind obs.value_kind && is_status_ok s.stable_status))

  unfoldable pub candidate_matches : Option (Candidate F) → Observation → Bool
  candidate_matches none obs = false
  candidate_matches (some c) obs =
      same_text c.value obs.normalized_value && str_eq c.kind obs.value_kind
