-- ===== src/Live/Journal.antt =====
-- src/screen2xyz_m2/journal.py: the state of `RunJournal`, the files of its run directory, and
-- `append_event` with what it calls. Each request comes with what the file system answers (`Io`).
-- `json`, `hashlib` and the text encoding are parameters (`Codec`). An event is the dictionary that
-- the caller passes; what no dictionary can be is left out (an observation that is no dictionary, a
-- text that has no UTF-8 form), and so is the live preview of the CSV files.
pub mod Write
pub mod Read
pub mod Contents
pub mod Faithful
pub mod Lines
pub mod Reading
pub mod Torn
pub mod Retry
pub mod Recovery
mod Tests
use Prim.Native.Char.{code}
use Prim.Native.String.{[] as empty_text, ◌∷◌ as cons_char}
use screen2xyz_civil_plan_di.Prelude.{
  ℕ, zero, suc, ◌+◌, String, Option, none, some, Bool, true, false, not, ◌&&◌, ◌||◌, List, [], ◌∷◌,
  ◌++◌, str_eq, if◌then◌else◌, leb, ◌==◌, length,
}
use screen2xyz_civil_plan_di.Prelude.Int.{pos}
use screen2xyz_civil_plan_di.Prelude.Floats.{Floats}
use screen2xyz_civil_plan_di.Civil.Json.{
  Value, Items, Fields, null, bool, int, str, arr, obj, nil, cons, end, field, lookup, or_value,
  dict,
}
use screen2xyz_civil_plan_di.Live.Status.{RetentionMode}
use screen2xyz_civil_plan_di.Live.Stability.{Bytes}

-- `json.dumps(event, sort_keys=True, ensure_ascii=False)`, UTF-8, what a text file puts before the
-- line feed on this system (nothing, or a carriage return), `json.loads` of decoded bytes with `none`
-- for JSONDecodeError and UnicodeDecodeError, `hashlib.sha256(...).hexdigest()`, `str(n)`, the text
-- that an f-string makes of a value, and the test that a path stays inside the run directory.
pub record Codec (F : Type 0) : Type 0 where
  pub dumps : Fields F → String
  pub utf8 : String → Bytes
  pub before_newline : Bytes
  pub loads : Bytes → Option (Value F)
  pub sha256 : Bytes → String
  pub digits : ℕ → String
  pub format : Value F → String
  pub inside : String → Bool

pub record Counters : Type 0 where
  pub ticks : ℕ
  pub skipped : ℕ
  pub ocr_errors : ℕ
  pub events : ℕ

pub record Checkpoint (F : Type 0) : Type 0 where
  pub last_event_seq : ℕ
  pub last_frame_seq : ℕ
  pub stable_signature : Value F
  pub counters : Counters
  pub disk_bytes : ℕ

-- The run directory: events.jsonl (`none` where there is no such file), the crops by their relative
-- path, and state_checkpoint.json.
pub record Disk (F : Type 0) : Type 0 where
  pub events : Option Bytes
  pub crops : List (String × Bytes)
  pub checkpoint : Option (Checkpoint F)

pub record Journal (F : Type 0) : Type 0 where
  pub disk : Disk F
  pub event_seq : ℕ
  pub frame_seq : ℕ
  pub disk_bytes : ℕ
  pub counters : Counters
  pub hash_to_artifact : List (String × String)
  pub last_checkpoint : F
  pub live_events : List (Fields F)

-- What comes out of appending a line: the file was not opened, an error after the first `n` bytes had
-- reached the file (all of them where only the flush to the disk fails), or the line is durable.
pub data Append : Type 0 where
  unopened : Append
  partial : ℕ → Append
  durable : Append

-- What comes out of writing a crop: an error of `mkdir`, which is raised as it is, an error of the
-- file, or the crop is in place.
pub data Save : Type 0 where
  no_folder : Save
  no_file : Save
  saved : Save

pub record Io (F : Type 0) : Type 0 where
  pub crop : String → Save
  pub line : Append
  pub checkpoint : Bool
  pub now : F

-- `StorageFailure` by its reason, `DiskLimit`, and an OSError that nothing wraps.
pub data Failure : Type 0 where
  crop_write_failure : Failure
  disk_limit : ℕ → Failure
  os_error : Failure

pub data Reply (F : Type 0) : Type 0 where
  written : Fields F → Reply F
  failed : Failure → Reply F

-- `DISK_WARN_BYTES` and `DISK_STOP_BYTES`
unfoldable pub disk_warn_bytes : ℕ
disk_warn_bytes = 209715200

unfoldable pub disk_stop_bytes : ℕ
disk_stop_bytes = 524288000

-- `[a-z0-9-]`
unfoldable pub id_char : ℕ → Bool
id_char c = (leb 97 c && leb c 122) || ((leb 48 c && leb c 57) || c == 45)

-- `[a-z0-9-]*$`, where `$` also stands before a line feed that ends the text
unfoldable pub id_rest : String → Bool
unfolding id_char
id_rest empty_text = true
id_rest (cons_char c empty_text) = id_char (code c) || code c == 10
id_rest (cons_char c rest) = id_char (code c) && id_rest rest

-- `[a-z0-9-]+$`
unfoldable pub id_tail : String → Bool
unfolding id_char id_rest
id_tail empty_text = false
id_tail (cons_char c rest) = id_char (code c) && id_rest rest

-- `_SOURCE_ID_RE.match`
unfoldable pub is_source_id : String → Bool
unfolding id_tail
is_source_id (cons_char s (cons_char r (cons_char c (cons_char d rest)))) =
    (code s == 115 && (code r == 114 && (code c == 99 && code d == 45))) && id_tail rest
is_source_id _ = false

-- `len(text)`
unfoldable pub characters_of : String → ℕ
characters_of empty_text = 0
characters_of (cons_char c rest) = suc (characters_of rest)

unfoldable pub take : ℕ → Bytes → Bytes
take zero bs = []
take (suc n) [] = []
take (suc n) (b ∷ bs) = b ∷ take n bs

module _ {A : Type 0} where
  -- A dictionary with keys that are texts, as its items in order: `d.get(key)` and `d[key] = value`.
  unfoldable pub find : String → List (String × A) → Option A
  find k [] = none
  find k ((j, a) ∷ rest) = if str_eq j k then some a else find k rest

  unfoldable pub store : String → A → List (String × A) → List (String × A)
  store k a [] = (k, a) ∷ []
  store k a ((j, b) ∷ rest) = if str_eq j k then (k, a) ∷ rest else (j, b) ∷ store k a rest

unfoldable pub known : Option String → List (String × String) → Option String
unfolding find
known none hashes = none
known (some h) hashes = find h hashes

unfoldable pub remember : Option String → String → List (String × String) → List (String × String)
unfolding store
remember none path hashes = hashes
remember (some h) path hashes = store h path hashes

module _ {F : Type 0} where
  -- `d[key] = value`
  unfoldable pub put : String → Value F → Fields F → Fields F
  put k v end = field k v end
  put k v (field j w rest) = if str_eq j k then field k v rest else field j w (put k v rest)

  unfoldable pub is_text : String → Value F → Bool
  is_text s (str t) = str_eq t s
  is_text s _ = false

  -- `v.get(key, default)` of a value that is a dictionary; the default of any other
  unfoldable pub entry : String → Value F → Value F → Value F
  unfolding lookup or_value
  entry k d (obj fs) = or_value (lookup k fs) d
  entry k d _ = d

  -- The loop over the observations: the last one with the source id has its hash taken.
  unfoldable pub hash_among : String → Items F → Value F → Value F
  unfolding is_text entry
  hash_among sid nil found = found
  hash_among sid (cons obs rest) found =
      hash_among sid rest
        (if is_text sid (entry "source_id" null obs) then entry "pixel_sha256" null obs else found)

  unfoldable pub items_in : Value F → Items F
  items_in (arr xs) = xs
  items_in _ = nil

  -- `pixel_hash`
  unfoldable pub pixel_hash_of : Fields F → String → Value F
  unfolding hash_among items_in entry
  pixel_hash_of event sid =
      hash_among sid (items_in (entry "observations" (arr nil) (obj event))) null

  -- A hash that `if pixel_hash` lets through, as the key of `_hash_to_artifact`. A hash is a text or
  -- None.
  unfoldable pub hash_key : Value F → Option String
  hash_key (str empty_text) = none
  hash_key (str s) = some s
  hash_key _ = none

  -- `RunJournal(run_dir)`; the clock of the checkpoints starts at `start`.
  unfoldable pub new_journal : F → Journal F
  new_journal start = record {
    disk = record { events = none; crops = []; checkpoint = none };
    event_seq = 0;
    frame_seq = 0;
    disk_bytes = 0;
    counters = record { ticks = 0; skipped = 0; ocr_errors = 0; events = 0 };
    hash_to_artifact = [];
    last_checkpoint = start;
    live_events = [];
  }

  -- `disk_status`
  unfoldable pub disk_status : Journal F → ℕ × Bool × Bool
  unfolding disk_warn_bytes disk_stop_bytes
  disk_status j = (j.disk_bytes, leb disk_warn_bytes j.disk_bytes, leb disk_stop_bytes j.disk_bytes)
