-- ===== src/Live/Journal/Tests.antt =====
-- journal.py: runs on concrete input. The codec writes the number of an event in strokes and reads
-- it back.
use Prim.Native.Char.{code}
use Prim.Native.String.{[] as empty_text, ◌∷◌ as cons_char}
use mathlib.Core.List.{append-nil}
use screen2xyz_civil_plan_di.Prelude.{
  ℕ, zero, suc, ◌+◌, ◌≤◌, ◌<◌, ◌≡◌, refl, ◌∙◌, ap, String, Option, none, some, true, false, List,
  [], ◌∷◌, ◌++◌, map, ◌==◌, length, All, arith, if◌then◌else◌, ltb,
}
use screen2xyz_civil_plan_di.Prelude.Int.{pos}
use screen2xyz_civil_plan_di.Prelude.Samples.{whole_numbers}
use screen2xyz_civil_plan_di.Civil.Json.{Value, Fields, int, obj, field, end, lookup}
use screen2xyz_civil_plan_di.Live.Status.{RetentionMode}
use screen2xyz_civil_plan_di.Live.Stability.{Bytes}
use screen2xyz_civil_plan_di.Live.Journal.{
  Codec, Append, Journal, durable, partial, Io, saved, written, take, new_journal, disk_stop_bytes,
}
use screen2xyz_civil_plan_di.Live.Journal.Write.{
  line_bytes, full_line, write_line, append_event, document, keep_crops,
}
use screen2xyz_civil_plan_di.Live.Journal.Read.{read_journal, journal, journal_sequence_break}
use screen2xyz_civil_plan_di.Live.Journal.Faithful.{new_journal-IsFaithful}
use screen2xyz_civil_plan_di.Live.Journal.Lines.{IsCodec, take-all}
use screen2xyz_civil_plan_di.Live.Journal.Reading.{
  Request, warnings_of, run, accepted, journal_reads_back,
}
use screen2xyz_civil_plan_di.Live.Journal.Torn.{cut_line_reads}
use screen2xyz_civil_plan_di.Live.Journal.Retry.{retry_breaks_journal}
use screen2xyz_civil_plan_di.Live.Journal.Recovery.{checkpoint_warnings, no_checkpoint_divergence}

-- The number of an event, 0 where it has none.
abbrev number_in : Option (Value ℕ) → ℕ
number_in (some (int (pos n))) = n
number_in _ = 0

abbrev strokes : ℕ → String
strokes zero = "2"
strokes (suc n) = cons_char "1" (strokes n)

abbrev codes : String → Bytes
codes empty_text = []
codes (cons_char c rest) = code c ∷ codes rest

abbrev numbered : ℕ → Fields ℕ
numbered n = field "event_seq" (int (pos n)) end

-- The strokes counted so far, then what is left.
abbrev count_strokes : ℕ → Bytes → Option (Value ℕ)
count_strokes n [] = none
count_strokes n (b ∷ bs) = elim (b == 49) [
  | true ↦ count_strokes (suc n) bs
  | false ↦ if b == 50 then some (obj (numbered n)) else none
]

abbrev codec : Codec ℕ
codec = record {
  dumps = λ e. strokes (number_in (lookup "event_seq" e));
  utf8 = codes;
  before_newline = [];
  loads = count_strokes 0;
  sha256 = λ bs. "";
  digits = strokes;
  format = λ v. "run";
  inside = λ s. true;
}

abbrev kept_number : Option (Value ℕ) → Fields ℕ
kept_number none = end
kept_number (some v) = field "event_seq" v end

lookup-kept_number : (o : Option (Value ℕ)) → lookup "event_seq" (kept_number o) ≡ o
unfolding lookup
lookup-kept_number none = refl
lookup-kept_number (some v) = refl

strokes-no_feed : (n : ℕ) → All (λ b. (b == 10) ≡ false) (codes (strokes n) ++ [])
strokes-no_feed zero = (refl, tt)
strokes-no_feed (suc n) = (refl, strokes-no_feed n)

count_strokes-strokes :
    (m n : ℕ) → count_strokes m (codes (strokes n) ++ []) ≡ some (obj (numbered (m + n)))
count_strokes-strokes m zero = ap (λ k. some (obj (numbered k))) (omega arith)
count_strokes-strokes m (suc n) =
    count_strokes-strokes (suc m) n ∙ ap (λ k. some (obj (numbered k))) (omega arith)

length-strokes : (n : ℕ) → length (codes (strokes n)) ≡ suc n
length-strokes zero = refl
length-strokes (suc n) = ap suc (length-strokes n)

count_strokes-take :
    (k n m : ℕ) → m < suc n → count_strokes k (take m (codes (strokes n) ++ [])) ≡ none
unfolding take
count_strokes-take k n zero h = refl
count_strokes-take k zero (suc m) h = absurd (omega arith)
count_strokes-take k (suc n) (suc m) h = count_strokes-take (suc k) n m (omega arith)

module _ (o : Option (Value ℕ)) (n m : ℕ) (h : o ≡ some (int (pos n))) where
  whole_line :
      length (codes (strokes (number_in o))) ≤ m
      → count_strokes 0 (take m (codes (strokes (number_in o)) ++ [])) ≡ some (obj (kept_number o))
  whole_line long =
      ap (count_strokes 0) (
        take-all m (codes (strokes (number_in o)) ++ [])
          (rw (append-nil (codes (strokes (number_in o)))) long))
      ∙ count_strokes-strokes 0 (number_in o)
      ∙ rw h (ap (λ k. some (obj (numbered k))) (omega arith))

  cut_line :
      m < length (codes (strokes (number_in o)))
      → count_strokes 0 (take m (codes (strokes (number_in o)) ++ [])) ≡ none
  cut_line short =
      count_strokes-take 0 (number_in o) m (omega (arith, length-strokes (number_in o)))

codec-IsCodec : IsCodec codec
unfolding line_bytes
codec-IsCodec = record {
  reread = λ e. kept_number (lookup "event_seq" e);
  number_kept = λ e. lookup-kept_number (lookup "event_seq" e);
  one_line = λ e. strokes-no_feed (number_in (lookup "event_seq" e));
  not_blank = λ e. omega (arith, length-strokes (number_in (lookup "event_seq" e)));
  whole = λ e n m h long. whole_line (lookup "event_seq" e) n m h long;
  cut = λ e n m h some_bytes short. cut_line (lookup "event_seq" e) n m h short;
}

abbrev io : Append → Io ℕ
io o = record { crop = λ sid. saved; line = o; checkpoint = true; now = 20 }

abbrev request : Append → Request ℕ
request o = record { draft = record { event = end; crops = [] }; io = io o }

abbrev requests : List (Request ℕ)
requests = request durable ∷ request (partial 0) ∷ request durable ∷ []

abbrev mode : RetentionMode
mode = RetentionMode.values_only

journal_reads_back_example :
    read_journal whole_numbers codec
      (run whole_numbers codec mode requests (new_journal 0)).disk.events
    ≡ journal
        (map codec-IsCodec.reread (accepted whole_numbers codec mode requests (new_journal 0)))
        (warnings_of (run whole_numbers codec mode requests (new_journal 0)).disk.events)
journal_reads_back_example =
    journal_reads_back whole_numbers codec codec-IsCodec mode requests 0 (refl, (refl, (refl, tt)))

no_checkpoint_divergence_example :
    checkpoint_warnings
      (run whole_numbers codec mode requests (new_journal 0)).disk.checkpoint
      (accepted whole_numbers codec mode requests (new_journal 0))
    ≡ []
no_checkpoint_divergence_example =
    no_checkpoint_divergence whole_numbers codec mode requests 0 (refl, (refl, (refl, tt)))

abbrev start : Journal ℕ
start = new_journal 0

start-number : lookup "event_seq" (numbered 1) ≡ some (int (pos (suc start.event_seq)))
unfolding lookup new_journal
start-number = refl

cut_line_reads_example :
    read_journal whole_numbers codec
      (write_line whole_numbers codec
        (partial 1)
        (io durable)
        (suc start.event_seq)
        (numbered 1)
        start).0.disk.events
    ≡ (if ltb 1 (length (codec.utf8 (codec.dumps (numbered 1))))
        then journal (map codec-IsCodec.reread start.live_events) ("PARTIAL_FINAL_LINE" ∷ [])
        else journal (map codec-IsCodec.reread (start.live_events ++ (numbered 1 ∷ []))) [])
cut_line_reads_example =
    cut_line_reads whole_numbers codec codec-IsCodec start (io durable) (numbered 1) 1
      (new_journal-IsFaithful whole_numbers codec 0) start-number (omega arith)

abbrev after_flush_error : Journal ℕ
after_flush_error =
    (write_line whole_numbers codec (partial 3) (io durable) (suc start.event_seq) (numbered 1)
      start).0

abbrev second : Fields ℕ
second = document codec mode 1 end end

second-written :
    (append_event whole_numbers codec mode
      (io durable)
      (record { event = end; crops = [] })
      after_flush_error).1
    ≡ written second
unfolding append_event write_line new_journal keep_crops disk_stop_bytes
second-written = refl

full_line-short : length (full_line codec (numbered 1)) ≤ 3
unfolding full_line lookup
full_line-short = omega arith

retry_breaks_journal_example :
    read_journal whole_numbers codec
      (append_event whole_numbers codec mode
        (io durable)
        (record { event = end; crops = [] })
        after_flush_error).0.disk.events
    ≡ journal_sequence_break (length start.live_events + 2)
retry_breaks_journal_example =
    retry_breaks_journal whole_numbers codec codec-IsCodec mode start (io durable) (io durable)
      (numbered 1) second (record { event = end; crops = [] }) 3
      (new_journal-IsFaithful whole_numbers codec 0) start-number full_line-short second-written
