-- ===== src/Lib.antt =====
-- Two programs of the repository over plan and screen data.
--
-- 1. The live watcher, src/screen2xyz_m2: it reads numbers from regions of a window, tick by tick,
--    and keeps the readings that changed. A session goes through the states of a state machine; on
--    every tick each source has an observation with the status of each stage; a stability engine
--    decides which reading is the stable value of its source and whether the tick is an event.
-- 2. The civil plan digitizer, src/screen2xyz_civil: a project of points on a plan, which a reviewer
--    calibrates, edits, approves or rejects through the methods of a workflow with undo and redo,
--    and which is stored as a dictionary.
--
-- Prelude         names shared by all parts, list helpers, integers, `str.strip` (Texts). Python's
--                 `float` is a record of operations (Floats), a parameter of every definition that
--                 computes with one, on which no law is assumed. Samples fills it with natural
--                 numbers, for runs.
-- Live.Session    src/screen2xyz_m2/statemachine.py: `_LEGAL` is `legal`, `SessionStateMachine` is
--                 `Machine`, each method a function into `Option Machine`, and `perform` a call of
--                 any of them or of the controller's writes to `setup_worker_blocked`
--                 (controller.py). Revision and Traces are about one call and sequences of calls.
-- Live.Status     src/screen2xyz_m2/contracts.py: the statuses and `derive_value_status`. Causes is
--                 about what a status says of its causes.
-- Live.Stability  src/screen2xyz_m2/stability.py: `StabilityEngine` is `Engine`. Parts has the locals of
--                 `process_tick` (`Work`) and its helpers, Observe one pass of its loop, Tick the
--                 loop, the closing decision and the other methods, Sorting `sorted(set(...))`. A
--                 pass returns whether it raised, so that what it wrote before stays visible.
--                 Buffer and Accounting are about the crop bytes, Readings and Confirmation about
--                 the stable value, Repetition a reading that comes again, Reports the decision.
-- Civil.Vocabulary  src/screen2xyz_civil/contracts.py: the closed vocabularies, each with its text.
-- Civil.Json      the values of `dict[str, Any]` and the conversions that `from_dict` applies.
-- Civil.Model     src/screen2xyz_civil/models.py: the records and each `__post_init__` as a test.
--                 Encode is `to_dict`, Decode `from_dict`, RoundTrip the two together.
-- Civil.Transform src/screen2xyz_civil/transform.py: scale, basis, calibration, coordinates.
-- Civil.Ids       src/screen2xyz_civil/workflow.py, `_next_point_id`.
-- Civil.Workflow  src/screen2xyz_civil/workflow.py: a method's body is an action on a `Desk`, the project
--                 with a count of the clock's calls, and keeps what it wrote before a raise. Setup,
--                 Points, Capture (`capture_assisted_point`), Lines (`add_elevation_line`), Sorting
--                 (`sort_points`), Renumber (`renumber_points`), Review and Geometry have the methods,
--                 History the wrapper `undoable`, `undo` and `redo`. Triple has the rules for what an
--                 action makes of the points, Gate applies them to the methods (Commands) and to
--                 `undo` and `redo` (Calls), Approval, Additions and Recalibration are about one method
--                 each.
-- Civil.Quality   src/screen2xyz_civil/qa.py: `duplicate_pairs` and the issues. Summary is `qa_summary` and
--                 `has_critical_export_errors`, Critical is about it, Spots and Duplicates about the pairs.
-- Live.Journal    src/screen2xyz_m2/journal.py: `RunJournal` is `Journal`, with the files of its run
--                 directory (`Disk`). Write is `append_event`, whose calls take the answers of the
--                 file system (`Io`), Read is `read_journal`; `json` is a parameter (`Codec`). Contents, Faithful
--                 and Lines lead to Reading (runs of appends), Torn (an append cut short) and Retry;
--                 Recovery is the check of the checkpoint in src/screen2xyz_m2/recovery.py.
-- Live.Parsing    src/screen2xyz_m2/parsing.py: `parse_text`, Numbers has `parse_number` with its regular
--                 expressions as functions, Canonical and Unique are about its results, Bounds is
--                 `bound_raw`. What Python knows of characters is a parameter (`Characters`, `Utf8`).
-- Live.Scheduler  src/screen2xyz_m2/scheduler.py: `TickScheduler` as a state and the steps of its
--                 threads. Deadlines and Answers are about runs of the steps and the inner loop.
-- The modules named Tests are runs on concrete input, those of the digitizer on Civil.Samples.
--
-- Bounds. Every loop is structural recursion over a list of the project or of the tick. The printing
-- of an id (`decimal`) runs on fuel one above the number, of which each step takes a tenth. The crop
-- limits are the constants of contracts.py. The scheduler's inner loop runs over the clock's readings.
-- Python's integers and the byte counts are unbounded. `_evidence_bytes` is a natural number, so that the
-- subtraction of `release_candidate` stops at 0, where that of `_release_candidate` would go below. A
-- snapshot of the engine is a value, while `restore_state` takes the object itself: the model is that of
-- a snapshot that is restored once, as in controller.py.
--
-- Not modelled. Windows and widgets (`ui`), command lines, the readers of PDF files and the calls of
-- OCR engines, and the writers of files do input and output. The parsers of coordinates and of the
-- type `auto`, the live CSV rows and the check of the crops, the controller's tick and the worker
-- client, and in the digitizer detection, the index of assisted capture, ingestion of texts, surfaces,
-- exports, and of the workflow alternative associations are left out so far. The texts of raised
-- errors are left out; a raise is its class. The scheduler's times are whole numbers, and how long
-- `drain` and `stop` wait for the lock is not modelled.
mod Prelude
pub mod Live
pub mod Civil
