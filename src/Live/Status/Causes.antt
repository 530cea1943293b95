-- ===== src/Live/Status/Causes.antt =====
-- contracts.py: what each derived value status says of its causes.
use screen2xyz_civil_plan_di.Prelude.{◌≡◌, Bool, true, false, not, ◌&&◌, ◌||◌, arith}
use screen2xyz_civil_plan_di.Live.Status.{
  WorkerStatus, CaptureStatus, OcrStatus, ParseStatus, StabilityStatus, ValueStatus,
  retainable_error, of_parse, of_ocr, of_capture, derive_value_status,
}

abbrev pub worker_fine : WorkerStatus → Bool
worker_fine WorkerStatus.ok = true
worker_fine _ = false

abbrev pub capture_fine : CaptureStatus → Bool
capture_fine CaptureStatus.ok = true
capture_fine _ = false

-- OCR ran, or was skipped since the pixels are unchanged.
abbrev pub ocr_fine : OcrStatus → Bool
ocr_fine OcrStatus.ok = true
ocr_fine OcrStatus.not_run_unchanged = true
ocr_fine _ = false

abbrev pub parse_fine : ParseStatus → Bool
parse_fine ParseStatus.ok = true
parse_fine ParseStatus.not_applicable = true
parse_fine ParseStatus.not_run = true
parse_fine _ = false

abbrev pub is_rejected : StabilityStatus → Bool
is_rejected StabilityStatus.rejected = true
is_rejected _ = false

abbrev pub is_ok : ValueStatus → Bool
is_ok ValueStatus.ok = true
is_ok _ = false

abbrev pub is_empty_text : OcrStatus → Bool
is_empty_text OcrStatus.empty_text = true
is_empty_text _ = false

is_ok-of_parse :
    (p : ParseStatus) (s : StabilityStatus)
    → is_ok (of_parse p s) ≡ parse_fine p && not (is_rejected s)
unfolding of_parse
is_ok-of_parse p s = ground arith

is_ok-of_ocr :
    (o : OcrStatus) (p : ParseStatus) (s : StabilityStatus)
    → is_ok (of_ocr o p s) ≡ ocr_fine o && (parse_fine p && not (is_rejected s))
unfolding of_ocr
is_ok-of_ocr o p s = ground (arith, is_ok-of_parse p s)

is_ok-of_capture :
    (c : CaptureStatus) (o : OcrStatus) (p : ParseStatus) (s : StabilityStatus)
    → is_ok (of_capture c o p s)
      ≡ capture_fine c && (ocr_fine o && (parse_fine p && not (is_rejected s)))
unfolding of_capture
is_ok-of_capture c o p s = ground (arith, is_ok-of_ocr o p s)

-- A value status is OK exactly when the worker and the capture are OK, OCR ran or its pixels are
-- unchanged, the parse is OK or does not apply or was not run, and the reading was not rejected as
-- unstable: every failing stage shows.
pub derive_value_status-ok :
    (c : CaptureStatus) (o : OcrStatus) (p : ParseStatus) (s : StabilityStatus) (w : WorkerStatus)
    → is_ok (derive_value_status c o p s w)
      ≡ worker_fine w && (capture_fine c && (ocr_fine o && (parse_fine p && not (is_rejected s))))
unfolding derive_value_status
derive_value_status-ok c o p s w = ground (arith, is_ok-of_capture c o p s)

retainable-of_parse :
    (p : ParseStatus) (s : StabilityStatus) → retainable_error (of_parse p s) ≡ not (parse_fine p)
unfolding of_parse retainable_error
retainable-of_parse p s = ground arith

retainable-of_ocr :
    (o : OcrStatus) (p : ParseStatus) (s : StabilityStatus)
    → retainable_error (of_ocr o p s) ≡ not (is_empty_text o) && not (ocr_fine o && parse_fine p)
unfolding of_ocr retainable_error
retainable-of_ocr o p s = ground (arith, retainable-of_parse p s)

-- A derived status is one that the journal retains exactly when the worker or the capture failed,
-- or, with both OK, the text is not empty and OCR or the parse failed. A rejected reading alone is
-- never retained as an error.
pub derive_value_status-retainable :
    (c : CaptureStatus) (o : OcrStatus) (p : ParseStatus) (s : StabilityStatus) (w : WorkerStatus)
    → retainable_error (derive_value_status c o p s w)
      ≡ not (worker_fine w && capture_fine c)
        || (not (is_empty_text o) && not (ocr_fine o && parse_fine p))
unfolding derive_value_status of_capture retainable_error
derive_value_status-retainable c o p s w = ground (arith, retainable-of_ocr o p s)
