-- ===== src/Live/Status.antt =====
-- src/screen2xyz_m2/contracts.py: the closed status vocabularies and `derive_value_status`.
pub mod Causes
use screen2xyz_civil_plan_di.Prelude.{Bool, true, false}

pub data WorkerStatus : Type 0 where
  ok protocol_error request_timeout process_exited restarting unavailable : WorkerStatus

pub data CaptureStatus : Type 0 where
  ok target_unavailable target_minimized region_out_of_bounds backend_failure : CaptureStatus
  payload_too_large display_invalidated : CaptureStatus

pub data OcrStatus : Type 0 where
  ok empty_text engine_failure not_run_unchanged not_run_capture_failed : OcrStatus

pub data ParseStatus : Type 0 where
  ok not_applicable not_run no_number ambiguous_multiple_numbers malformed_number : ParseStatus
  out_of_range input_truncated suspect_glyph_confusion : ParseStatus

pub data StabilityStatus : Type 0 where
  immediate pending_confirmation confirmed rejected not_evaluated : StabilityStatus

pub data ValueStatus : Type 0 where
  ok missing_source_value ocr_failure no_number ambiguous_multiple_numbers : ValueStatus
  malformed_number out_of_range input_truncated unstable_reading source_not_visible : ValueStatus
  target_unavailable capture_failure suspect_glyph_confusion : ValueStatus

pub data RetentionMode : Type 0 where
  changed_and_errors changed_only every_tick values_only : RetentionMode

pub data EventStatus : Type 0 where
  retained_change retained_error retained_diagnostic : EventStatus

pub ValueStatus-discrete : Discrete ValueStatus
ValueStatus-discrete = hlevel

-- `RETAINABLE_ERROR_VALUE_STATUSES`
unfoldable pub retainable_error : ValueStatus → Bool
retainable_error ok = false
retainable_error missing_source_value = false
retainable_error unstable_reading = false
retainable_error _ = true

-- The last two tests of `derive_value_status`.
unfoldable pub of_parse : ParseStatus → StabilityStatus → ValueStatus
of_parse input_truncated s = ValueStatus.input_truncated
of_parse no_number s = ValueStatus.no_number
of_parse ambiguous_multiple_numbers s = ValueStatus.ambiguous_multiple_numbers
of_parse malformed_number s = ValueStatus.malformed_number
of_parse out_of_range s = ValueStatus.out_of_range
of_parse suspect_glyph_confusion s = ValueStatus.suspect_glyph_confusion
of_parse p rejected = ValueStatus.unstable_reading
of_parse p s = ValueStatus.ok

-- The three tests on the OCR status before them.
unfoldable pub of_ocr : OcrStatus → ParseStatus → StabilityStatus → ValueStatus
unfolding of_parse
of_ocr engine_failure p s = ValueStatus.ocr_failure
of_ocr empty_text p s = ValueStatus.missing_source_value
of_ocr not_run_capture_failed p s = ValueStatus.capture_failure
of_ocr o p s = of_parse p s

-- The tests on the capture status before them.
unfoldable pub of_capture : CaptureStatus → OcrStatus → ParseStatus → StabilityStatus → ValueStatus
unfolding of_ocr
of_capture backend_failure o p s = ValueStatus.capture_failure
of_capture target_unavailable o p s = ValueStatus.target_unavailable
of_capture target_minimized o p s = ValueStatus.target_unavailable
of_capture region_out_of_bounds o p s = ValueStatus.source_not_visible
of_capture payload_too_large o p s = ValueStatus.capture_failure
of_capture display_invalidated o p s = ValueStatus.capture_failure
of_capture c o p s = of_ocr o p s

unfoldable pub derive_value_status :
    CaptureStatus → OcrStatus → ParseStatus → StabilityStatus → WorkerStatus → ValueStatus
unfolding of_capture
derive_value_status c o p s ok = of_capture c o p s
derive_value_status c o p s _ = ValueStatus.capture_failure
