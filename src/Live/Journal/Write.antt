-- ===== src/Live/Journal/Write.antt =====
-- journal.py: `_write_crop`, `append_event` and `maybe_checkpoint`.
use Prim.Native.String.{◌++◌ as text_append}
use screen2xyz_civil_plan_di.Prelude.{
  ℕ, suc, ◌+◌, String, Option, none, some, Bool, true, false, not, ◌&&◌, List, [], ◌∷◌, ◌++◌,
  if◌then◌else◌, leb, length,
}
use screen2xyz_civil_plan_di.Prelude.Int.{pos}
use screen2xyz_civil_plan_di.Prelude.Floats.{Floats}
use screen2xyz_civil_plan_di.Civil.Json.{Value, Fields, null, bool, int, str, obj, end, dict}
use screen2xyz_civil_plan_di.Live.Status.{RetentionMode}
use screen2xyz_civil_plan_di.Live.Stability.{Bytes}
use screen2xyz_civil_plan_di.Live.Journal.{
  Codec, Journal, Append, unopened, partial, durable, Save, no_folder, no_file, saved, Io, Failure,
  crop_write_failure, disk_limit, os_error, Reply, written, failed, disk_stop_bytes, is_source_id,
  characters_of, take, store, put, is_text, entry, pixel_hash_of, hash_key, known, remember,
}

-- The crops of an event: all kept, with the value of `crops_saved`, or the first failure.
pub data Kept (F : Type 0) : Type 0 where
  kept : Journal F → Fields F → Kept F
  stopped : Journal F → Failure → Kept F

-- One crop: its path and hash, or the failure.
pub data Crop (F : Type 0) : Type 0 where
  placed : Journal F → String → String → Crop F
  refused : Failure → Crop F

-- The caller's part of a request.
pub record Draft (F : Type 0) : Type 0 where
  pub event : Fields F
  pub crops : List (String × Bytes)

unfoldable pub mode_text : RetentionMode → String
mode_text RetentionMode.changed_and_errors = "changed_and_errors"
mode_text RetentionMode.changed_only = "changed_only"
mode_text RetentionMode.every_tick = "every_tick_diagnostic"
mode_text RetentionMode.values_only = "values_only"

unfoldable pub writes_pngs : RetentionMode → Bool
writes_pngs RetentionMode.values_only = false
writes_pngs _ = true

unfoldable pub content : Option Bytes → Bytes
content none = []
content (some bs) = bs

-- events.jsonl after an append of `line` that comes out as told
unfoldable pub appended : Append → Bytes → Option Bytes → Option Bytes
unfolding content take
appended unopened line file = file
appended (partial n) line file = some (content file ++ take n line)
appended durable line file = some (content file ++ line)

unfoldable pub is_durable : Append → Bool
is_durable durable = true
is_durable _ = false

module _ {F : Type 0} (c : Codec F) where
  -- `CROP_PATH_TEMPLATE.format(event_seq=..., source_id=...)`
  unfoldable pub crop_path : ℕ → String → String
  crop_path seq sid =
      text_append "crops/" (text_append (c.digits seq) (text_append "/" (text_append sid ".png")))

  unfoldable pub write_crop : Save → Journal F → ℕ → String → Bytes → Crop F
  unfolding crop_path is_source_id store
  write_crop io j seq sid png =
      if not (is_source_id sid)
      then refused crop_write_failure
      else if not (c.inside (crop_path seq sid))
      then refused crop_write_failure
      else elim io [
        | no_folder ↦ refused os_error
        | no_file ↦ refused crop_write_failure
        | saved ↦
            placed
              (record j {
                disk = record j.disk { crops = store (crop_path seq sid) png j.disk.crops };
                disk_bytes = j.disk_bytes + length png;
              })
              (crop_path seq sid) (c.sha256 png)
      ]

  -- An entry of `crops_saved`
  unfoldable pub saved_crop : String → Value F → Value F → Bool → Value F
  saved_crop path pixel_hash artifact reference = dict (
      ("path", str path)
      ∷ ("pixel_sha256", pixel_hash)
      ∷ ("crop_artifact_sha256", artifact)
      ∷ ("reference", bool reference)
      ∷ [])

  -- The path of an earlier crop with the same pixels, where a diagnostic event refers to it.
  unfoldable pub prior_crop : Journal F → Fields F → Value F → Option String
  unfolding known hash_key is_text entry
  prior_crop j event pixel_hash =
      if is_text "RETAINED_DIAGNOSTIC" (entry "event_status" null (obj event))
      then known (hash_key pixel_hash) j.hash_to_artifact
      else none

  -- The body of the loop over the crops where PNG files are written.
  unfoldable pub keep_crop : Io F → ℕ → Fields F → String → Bytes → Journal F → Fields F → Kept F
  unfolding prior_crop write_crop saved_crop remember put pixel_hash_of hash_key
  keep_crop io seq event sid png j acc =
      let pixel_hash = pixel_hash_of event sid in
      elim (prior_crop j event pixel_hash) [
        | some prior ↦ kept j (put sid (saved_crop prior pixel_hash null true) acc)
        | none ↦ elim (write_crop (io.crop sid) j seq sid png) [
          | refused f ↦ stopped j f
          | placed j' path artifact ↦
              kept
                (record j' {
                  hash_to_artifact = remember (hash_key pixel_hash) path j'.hash_to_artifact;
                })
                (put sid (saved_crop path pixel_hash (str artifact) false) acc)
        ]
      ]

  -- The loop over the crops
  unfoldable pub keep_crops :
      Io F → Bool → ℕ → Fields F → List (String × Bytes) → Journal F → Fields F → Kept F
  unfolding keep_crop put
  keep_crops io write_pngs seq event [] j acc = kept j acc
  keep_crops io write_pngs seq event ((sid, png) ∷ rest) j acc =
      elim (if write_pngs
        then keep_crop io seq event sid png j acc
        else kept j (put sid null acc)) [
          | stopped j' f ↦ stopped j' f
          | kept j' acc' ↦ keep_crops io write_pngs seq event rest j' acc'
        ]

  -- The event as it is written
  unfoldable pub document : RetentionMode → ℕ → Fields F → Fields F → Fields F
  unfolding put mode_text entry
  document mode seq event crops_saved = put "retention_mode" (str (mode_text mode)) (
      put "crops_saved" (obj crops_saved) (
        put "event_id"
          (str (
            text_append (c.format (entry "session_id" (str "run") (obj event)))
              (text_append "-e" (c.digits seq))))
          (put "event_seq" (int (pos seq)) (put "schema_version" (str "m2.1") event))))

  -- The bytes of a line, without and with its line feed.
  unfoldable pub line_bytes : Fields F → Bytes
  line_bytes e = c.utf8 (c.dumps e) ++ c.before_newline

  unfoldable pub full_line : Fields F → Bytes
  unfolding line_bytes
  full_line e = line_bytes e ++ (10 ∷ [])

module _ (fl : Floats) where
  open fl use {F, of_nat, sub, mul, lt}

  -- `maybe_checkpoint`
  unfoldable pub maybe_checkpoint : Io F → Value F → Bool → Journal F → Journal F
  maybe_checkpoint io signature force j =
      if not force && lt (mul (sub io.now j.last_checkpoint) (of_nat 1000)) (of_nat 15000)
      then j
      else if io.checkpoint
      then record j {
        last_checkpoint = io.now;
        disk = record j.disk {
          checkpoint = some (record {
            last_event_seq = j.event_seq;
            last_frame_seq = j.frame_seq;
            stable_signature = signature;
            counters = j.counters;
            disk_bytes = j.disk_bytes;
          });
        };
      }
      else record j { last_checkpoint = io.now }

module _ (fl : Floats) (c : Codec fl.F) where
  open fl use {F}

  -- What follows a durable line
  unfoldable pub commit : Io F → ℕ → Fields F → Journal F → Journal F
  unfolding maybe_checkpoint characters_of entry
  commit io seq e j =
      maybe_checkpoint fl io (entry "stable_signature" (obj end) (obj e)) false (record j {
        event_seq = seq;
        disk_bytes = j.disk_bytes + (characters_of (c.dumps e) + 1);
        counters = record j.counters { events = j.counters.events + 1 };
        live_events = j.live_events ++ (e ∷ []);
      })

  -- The append of the line and what follows
  unfoldable pub write_line : Append → Io F → ℕ → Fields F → Journal F → Journal F × Reply F
  unfolding commit appended full_line is_durable
  write_line o io seq e j =
      let j' = record j {
        disk = record j.disk { events = appended o (full_line c e) j.disk.events };
      } in
      if is_durable o then (commit io seq e j', written e) else (j', failed crop_write_failure)

  -- `append_event`
  unfoldable pub append_event : RetentionMode → Io F → Draft F → Journal F → Journal F × Reply F
  unfolding write_line keep_crops document disk_stop_bytes writes_pngs
  append_event mode io d j =
      if leb disk_stop_bytes j.disk_bytes
      then (j, failed (disk_limit j.disk_bytes))
      else elim (keep_crops c io (writes_pngs mode) (suc j.event_seq) d.event d.crops j end) [
        | stopped j' f ↦ (j', failed f)
        | kept j' crops_saved ↦
            write_line io.line io (suc j.event_seq)
              (document c mode (suc j.event_seq) d.event crops_saved) j'
      ]
