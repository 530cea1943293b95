-- ===== src/Live/Journal/Retry.antt =====
-- journal.py: an append that fails after its whole line has reached the file, and the next append.
use mathlib.Core.List.{append_assoc, append-nil}
use native.Mathlib.Nat.{zero-add}
use screen2xyz_civil_plan_di.Prelude.{
  ℕ, suc, ◌+◌, ◌≤◌, ◌≡◌, refl, sym, ◌∙◌, ap, Option, some, Bool, false, not, ◌&&◌, List, [], ◌∷◌,
  ◌++◌, map, ◌==◌, length, arith, inl, inr,
}
use screen2xyz_civil_plan_di.Prelude.Int.{pos}
use screen2xyz_civil_plan_di.Prelude.Floats.{Floats}
use screen2xyz_civil_plan_di.Civil.Json.{Fields, int, lookup, or_value}
use screen2xyz_civil_plan_di.Live.Status.{RetentionMode}
use screen2xyz_civil_plan_di.Live.Journal.{
  Codec, Journal, Append, unopened, partial, durable, Io, written, failed, take,
}
use screen2xyz_civil_plan_di.Live.Journal.Write.{
  Draft, commit, maybe_checkpoint, line_bytes, full_line, content, write_line, append_event,
  document,
}
use screen2xyz_civil_plan_di.Live.Journal.Read.{
  journal_sequence_break, split, read_lines, read_journal, is_at, verdict, examine, equals,
  sequence_break,
}
use screen2xyz_civil_plan_di.Live.Journal.Contents.{
  length-append_one, Numbered, Numbered-append, lines_of, lines_of-append, lookup-document,
  append_event-Course,
}
use screen2xyz_civil_plan_di.Live.Journal.Faithful.{IsFaithful}
use screen2xyz_civil_plan_di.Live.Journal.Lines.{
  IsCodec, take-all, split-lines_of, read_lines-map, length-append, is_empty-take, 0-lt-line_bytes,
}
use screen2xyz_civil_plan_di.Live.Journal.Torn.{length-map, map-append_one}

wrong_number : (n : ℕ) → (suc n == suc n + 1) ≡ false
wrong_number n = ground arith

module _ (fl : Floats) (c : Codec fl.F) (k : IsCodec c) where
  open fl use {F}

  text-le-line_bytes : (e : Fields F) → length (c.utf8 (c.dumps e)) ≤ length (line_bytes c e)
  unfolding line_bytes
  text-le-line_bytes e = omega (arith, length-append (c.utf8 (c.dumps e)) c.before_newline)

  -- The line of an event with the number before the expected one
  verdict-repeated :
      (is_last : Bool) (n : ℕ) (e : Fields F)
      → lookup "event_seq" e ≡ some (int (pos (suc n)))
      → verdict fl c is_last (suc n + 1) (line_bytes c e) ≡ sequence_break
  unfolding verdict examine equals or_value
  verdict-repeated is_last n e h =
      let m = length (line_bytes c e) in
      let long : length (c.utf8 (c.dumps e)) ≤ m = text-le-line_bytes e in
      ap (verdict fl c is_last (suc n + 1)) (sym (take-all m (line_bytes c e) (omega arith)))
      ∙ rw
          (
            is_empty-take m (line_bytes c e) (0-lt-line_bytes fl c k e) (0-lt-line_bytes fl c k e),
            k.whole e (suc n) m h long,
            k.number_kept e,
            h,
            wrong_number n,
          )
          refl

  split-two :
      (ds : List (Fields F)) (e : Fields F)
      → split (lines_of c ds ++ full_line c e) ≡ map (line_bytes c) ds ++ (line_bytes c e ∷ [] ∷ [])
  split-two ds e =
      ap split (sym (append-nil (lines_of c (ds ++ (e ∷ []))) ∙ lines_of-append c ds e))
      ∙ split-lines_of fl c k (ds ++ (e ∷ [])) [] tt
      ∙ ap (λ l. l ++ ([] ∷ [])) (map-append_one (line_bytes c) ds e)
      ∙ append_assoc (map (line_bytes c) ds) (line_bytes c e ∷ []) ([] ∷ [])

  at_repeated :
      (last : Option ℕ) (complete : Bool) (i n : ℕ) (events : List (Fields F)) (e : Fields F)
      → length events ≡ suc n
      → lookup "event_seq" e ≡ some (int (pos (suc n)))
      → read_lines fl c last complete i (line_bytes c e ∷ [] ∷ []) events
        ≡ journal_sequence_break (suc i)
  unfolding read_lines
  at_repeated last complete i n events e long h =
      rw (read_lines, long, verdict-repeated (is_at i last && not complete) n e h) refl

  -- Whole lines with two events of the same number at the end
  read_twice :
      (es : List (Fields F)) (d e : Fields F)
      → Numbered 0 es
      → lookup "event_seq" d ≡ some (int (pos (suc (length es))))
      → lookup "event_seq" e ≡ some (int (pos (suc (length es))))
      → read_journal fl c (some (lines_of c (es ++ (d ∷ [])) ++ full_line c e))
        ≡ journal_sequence_break (length es + 2)
  unfolding read_journal
  read_twice es d e h nd ne =
      let ds = es ++ (d ∷ []) in
      let raw = lines_of c ds ++ full_line c e in
      let numbered =
        Numbered-append 0 es d h
          (nd ∙ ap (λ m. some (int (pos (suc m)))) (sym (zero-add (length es)))) in
      rw (split-two ds e) (
        read_lines-map fl c k _ _ 0 ds (line_bytes c e ∷ [] ∷ []) [] numbered
        ∙ at_repeated _ _ (0 + length ds) (length es) (map k.reread ds) e
            (length-map k.reread ds ∙ length-append_one es d) (ne)
        ∙ ap (λ m. journal_sequence_break m) (omega (arith, length-append_one es d)))

  -- A durable append writes one line and hands its event back.
  written_line :
      (o : Append) (io : Io F) (seq : ℕ) (d e : Fields F) (j : Journal F)
      → (write_line fl c o io seq d j).1 ≡ written e
      → (e ≡ d)
        × ((write_line fl c o io seq d j).0.disk.events
            ≡ some (content j.disk.events ++ full_line c e))
  unfolding write_line commit maybe_checkpoint
  written_line unopened io seq d e j w = cc
  written_line (partial n) io seq d e j w = cc
  written_line durable io seq d e j w = let same : d ≡ e = cc in (sym same, ground (arith, same))

  -- Where the flush of a line fails after all of the line has reached the file, and a later append
  -- succeeds, the later event has the number of the first once more, and `read_journal` raises
  -- JOURNAL_SEQUENCE_BREAK at its line.
  pub retry_breaks_journal :
      (mode : RetentionMode) (j : Journal F) (io1 io2 : Io F) (e1 e2 : Fields F) (d : Draft F)
      (n : ℕ)
      → IsFaithful c j
      → lookup "event_seq" e1 ≡ some (int (pos (suc j.event_seq)))
      → length (full_line c e1) ≤ n
      → (append_event fl c mode io2 d (write_line fl c (partial n) io1 (suc j.event_seq) e1 j).0).1
        ≡ written e2
      → read_journal fl c
          (append_event fl c mode io2 d
            (write_line fl c (partial n) io1 (suc j.event_seq) e1 j).0).0.disk.events
        ≡ journal_sequence_break (length j.live_events + 2)
  unfolding content write_line
  retry_breaks_journal mode j io1 io2 e1 e2 d n h number all w =
      let j1 = (write_line fl c (partial n) io1 (suc j.event_seq) e1 j).0 in
      elim (append_event-Course fl c mode io2 d j1) [
        | inl (j', f, s, e) ↦ let bad : failed f ≡ written e2 = sym (ap (λ r. r.1) e) ∙ w in cc
        | inr (j', crops_saved, s, e) ↦
            let doc = document c mode (suc j1.event_seq) d.event crops_saved in
            let (same, events) =
              written_line io2.line io2 (suc j1.event_seq) doc e2 j' (sym (ap (λ r. r.1) e) ∙ w) in
            let held : content j'.disk.events ≡ lines_of c (j.live_events ++ (e1 ∷ [])) =
              ap content s.events
              ∙ ap (λ l. l ++ take n (full_line c e1)) h.held
              ∙ ap (λ l. lines_of c j.live_events ++ l) (take-all n (full_line c e1) all)
              ∙ sym (lines_of-append c j.live_events e1) in
            let count =
              λ (x : Fields F) (q : lookup "event_seq" x ≡ some (int (pos (suc j.event_seq)))).
                q ∙ ap (λ m. some (int (pos (suc m)))) h.counted in
            ap (λ r. read_journal fl c r.0.disk.events) e
            ∙ ap (read_journal fl c) events
            ∙ ap (λ l. read_journal fl c (some (l ++ full_line c e2))) held
            ∙ read_twice j.live_events e1 e2 h.numbered (count e1 number) (
                count e2 (
                  ap (lookup "event_seq") same
                  ∙ lookup-document c mode (suc j.event_seq) d.event crops_saved))
      ]
