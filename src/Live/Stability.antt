-- ===== src/Live/Stability.antt =====
-- src/screen2xyz_m2/stability.py: the state of `StabilityEngine`.
-- A `Slot` is the entry of `_config` and the entry of `_state` under one source id: both
-- dictionaries are built from the same sources and no method adds or drops a key. Of an
-- observation the fields are kept that the engine reads or writes. A crop is its bytes.
pub mod Sorting
pub mod Parts
pub mod Observe
pub mod Tick
pub mod Buffer
pub mod Accounting
pub mod Readings
pub mod Reports
pub mod Confirmation
pub mod Repetition
mod Tests
use screen2xyz_civil_plan_di.Prelude.{
  ℕ, String, Option, none, Bool, true, false, List, [], ◌∷◌, str_eq, if◌then◌else◌,
}
use screen2xyz_civil_plan_di.Live.Status.{
  CaptureStatus, OcrStatus, ParseStatus, StabilityStatus, ValueStatus, RetentionMode, EventStatus,
}

abbrev pub Bytes : Type 0
Bytes = List ℕ

pub record Observation : Type 0 where
  pub capture_status : CaptureStatus
  pub ocr_status : OcrStatus
  pub parse_status : ParseStatus
  pub stability_status : StabilityStatus
  pub value_status : ValueStatus
  pub raw_text : String
  pub raw_truncated : Bool
  pub raw_original_utf8_bytes : Option ℕ
  pub warning_codes : List String
  pub normalized_value : Option String
  pub value_kind : String
  pub pixel_sha256 : Option String

pub record EvidenceRecord : Type 0 where
  pub evidence_frame_id : String
  pub raw_text : String
  pub raw_truncated : Bool
  pub raw_original_utf8_bytes : Option ℕ
  pub warning_codes : List String
  pub parse_status : ParseStatus
  pub normalized_value : Option String
  pub value_kind : String
  pub pixel_sha256 : Option String

-- `_Candidate`; its `value_status` is "OK" at the one place that builds it, and is never read.
pub record Candidate (F : Type 0) : Type 0 where
  pub value : Option String
  pub kind : String
  pub first_frame_id : String
  pub first_observation : Observation
  pub first_crop_png : Option Bytes
  pub first_seen_ms : F
  pub count : ℕ

pub record SourceState (F : Type 0) : Type 0 where
  pub seeded : Bool
  pub stable_value : Option String
  pub stable_kind : String
  pub stable_status : Option ValueStatus
  pub retained_error_active : Bool
  pub last_retained_error : Option ValueStatus
  pub pre_error_value : Option String
  pub pre_error_kind : String
  pub candidate : Option (Candidate F)

-- The three per-source overrides of `SourceConfig`.
pub record Overrides (F : Type 0) : Type 0 where
  pub confirmations : Option ℕ
  pub debounce_ms : Option ℕ
  pub min_change_threshold : Option F

-- `_defaults`
pub record Defaults (F : Type 0) : Type 0 where
  pub confirmations : ℕ
  pub debounce_ms : ℕ
  pub min_change_threshold : Option F

pub record Slot (F : Type 0) : Type 0 where
  pub source_id : String
  pub config : Overrides F
  pub state : SourceState F

pub record Engine (F : Type 0) : Type 0 where
  pub retention_mode : RetentionMode
  pub defaults : Defaults F
  pub slots : List (Slot F)
  pub evidence_bytes : ℕ

-- What `__init__` reads of a `SourceConfig`.
pub record Source (F : Type 0) : Type 0 where
  pub source_id : String
  pub enabled : Bool
  pub config : Overrides F

pub record TickDecision : Type 0 where
  pub event_status : Option EventStatus
  pub changed_source_ids : List String
  pub retention_reason_codes : List String
  pub stable_signature : List (String × String × Option String)
  pub evidence : List (String × EvidenceRecord)
  pub crops_to_save : List (String × Bytes)

module _ {F : Type 0} where
  -- `_SourceState()`
  unfoldable pub fresh_state : SourceState F
  fresh_state = record {
    seeded = false;
    stable_value = none;
    stable_kind = "number";
    stable_status = none;
    retained_error_active = false;
    last_retained_error = none;
    pre_error_value = none;
    pre_error_kind = "number";
    candidate = none;
  }

  -- The slot of a source id, and the table with a slot written: a key that is there keeps its place.
  unfoldable pub find_slot : String → List (Slot F) → Option (Slot F)
  find_slot sid [] = none
  find_slot sid (s ∷ rest) = if str_eq s.source_id sid then Option.some s else find_slot sid rest

  unfoldable pub put_slot : Slot F → List (Slot F) → List (Slot F)
  put_slot t [] = t ∷ []
  put_slot t (s ∷ rest) = if str_eq s.source_id t.source_id then t ∷ rest else s ∷ put_slot t rest

  -- The two comprehensions of `__init__` over the enabled sources: a later source with an id that
  -- was seen replaces the value under it.
  unfoldable pub slots_of : List (Slot F) → List (Source F) → List (Slot F)
  unfolding put_slot fresh_state
  slots_of acc [] = acc
  slots_of acc (s ∷ rest) =
      slots_of
        (if s.enabled
          then put_slot (record { source_id = s.source_id; config = s.config; state = fresh_state })
              acc
          else acc)
        rest

  -- `__init__`
  unfoldable pub new_engine : List (Source F) → Defaults F → RetentionMode → Engine F
  unfolding slots_of
  new_engine sources defaults mode = record {
    retention_mode = mode;
    defaults = defaults;
    slots = slots_of [] sources;
    evidence_bytes = 0;
  }
