-- ===== src/Live/Journal/Reading.antt =====
-- journal.py: `read_journal` after runs of `append_event`, and after an append that was cut short.
use mathlib.Core.List.{append_assoc, append-nil}
use screen2xyz_civil_plan_di.Prelude.{
  ◌+◌, ◌≡◌, refl, sym, ◌∙◌, ap, String, Option, none, some, true, List, [], ◌∷◌, ◌++◌, map, length,
  All, arith,
}
use screen2xyz_civil_plan_di.Prelude.Floats.{Floats}
use screen2xyz_civil_plan_di.Civil.Json.{Fields}
use screen2xyz_civil_plan_di.Live.Status.{RetentionMode}
use screen2xyz_civil_plan_di.Live.Stability.{Bytes}
use screen2xyz_civil_plan_di.Live.Journal.{Codec, Journal, Io, new_journal}
use screen2xyz_civil_plan_di.Live.Journal.Write.{
  Draft, line_bytes, full_line, content, append_event,
}
use screen2xyz_civil_plan_di.Live.Journal.Read.{
  journal, ends_complete, last_nonempty, read_lines, read_journal, verdict,
}
use screen2xyz_civil_plan_di.Live.Journal.Contents.{is_whole, Numbered, lines_of}
use screen2xyz_civil_plan_di.Live.Journal.Faithful.{
  IsFaithful, replied, append_event-IsFaithful, live_events-append_event, new_journal-IsFaithful,
}
use screen2xyz_civil_plan_di.Live.Journal.Lines.{
  IsCodec, NoFeed, split-lines_of, read_lines-map, length-append,
}

-- A call of `append_event` with what the file system answers.
pub record Request (F : Type 0) : Type 0 where
  pub draft : Draft F
  pub io : Io F

-- The warnings of a journal whose file is whole.
abbrev pub warnings_of : Option Bytes → List String
warnings_of none = "JOURNAL_MISSING" ∷ []
warnings_of (some raw) = []

module _ (fl : Floats) (c : Codec fl.F) where
  open fl use {F}

  -- The journal after the requests, and the events that the replies handed back.
  unfoldable pub run : RetentionMode → List (Request F) → Journal F → Journal F
  run mode [] j = j
  run mode (r ∷ rs) j = run mode rs (append_event fl c mode r.io r.draft j).0

  unfoldable pub accepted : RetentionMode → List (Request F) → Journal F → List (Fields F)
  accepted mode [] j = []
  accepted mode (r ∷ rs) j =
      let a = append_event fl c mode r.io r.draft j in replied a.1 ++ accepted mode rs a.0

  pub run-IsFaithful :
      (mode : RetentionMode) (rs : List (Request F)) (j : Journal F)
      → All (λ (r : Request F). is_whole r.io.line ≡ true) rs
      → IsFaithful c j
      → IsFaithful c (run mode rs j)
  unfolding run
  run-IsFaithful mode [] j w h = h
  run-IsFaithful mode (r ∷ rs) j w h =
      run-IsFaithful mode rs _ w.1 (append_event-IsFaithful fl c mode r.io r.draft j w.0 h)

  pub live_events-run :
      (mode : RetentionMode) (rs : List (Request F)) (j : Journal F)
      → (run mode rs j).live_events ≡ j.live_events ++ accepted mode rs j
  unfolding run accepted
  live_events-run mode [] j = sym (append-nil j.live_events)
  live_events-run mode (r ∷ rs) j =
      let a = append_event fl c mode r.io r.draft j in
      live_events-run mode rs a.0
      ∙ ap (λ l. l ++ accepted mode rs a.0) (live_events-append_event fl c mode r.io r.draft j)
      ∙ append_assoc j.live_events (replied a.1) (accepted mode rs a.0)

  module _ (k : IsCodec c) where
    -- The loop at what follows the lines of events numbered from one.
    pub read_journal-lines_of :
        (es : List (Fields F)) (t : Bytes)
        → Numbered 0 es
        → NoFeed t
        → let raw = lines_of c es ++ t in
          read_journal fl c (some raw)
          ≡ read_lines fl c
              (last_nonempty 0 (map (line_bytes c) es ++ (t ∷ [])) none)
              (ends_complete raw)
              (0 + length es)
              (t ∷ [])
              (map k.reread es)
    unfolding read_journal
    read_journal-lines_of es t h clean =
        rw (split-lines_of fl c k es t clean) (read_lines-map fl c k _ _ 0 es (t ∷ []) [] h)

    pub read_journal-content :
        (file : Option Bytes) (es : List (Fields F))
        → content file ≡ lines_of c es
        → Numbered 0 es
        → read_journal fl c file ≡ journal (map k.reread es) (warnings_of file)
    unfolding content read_journal full_line read_lines verdict
    read_journal-content none [] same h = refl
    read_journal-content none (e ∷ es) same h = absurd (
        omega (
          arith,
          ap length same,
          length-append (full_line c e) (lines_of c es),
          length-append (line_bytes c e) (10 ∷ []),
        ))
    read_journal-content (some raw) es same h =
        ap (λ l. read_journal fl c (some l)) (same ∙ sym (append-nil (lines_of c es)))
        ∙ read_journal-lines_of es [] h tt
        ∙ refl

    -- A faithful journal reads back.
    pub read_journal-IsFaithful :
        (j : Journal F)
        → IsFaithful c j
        → read_journal fl c j.disk.events
          ≡ journal (map k.reread j.live_events) (warnings_of j.disk.events)
    read_journal-IsFaithful j h = read_journal-content j.disk.events j.live_events h.held h.numbered

    -- After any appends to a new journal, each of which failed without leaving a part of its line or
    -- is durable, `read_journal` returns the events that the appends handed back, in their order, each
    -- as `json` reads it back, with no warning but the one that there is no file.
    pub journal_reads_back :
        (mode : RetentionMode) (rs : List (Request F)) (start : F)
        → All (λ (r : Request F). is_whole r.io.line ≡ true) rs
        → let j = run mode rs (new_journal start) in
          read_journal fl c j.disk.events
          ≡ journal
              (map k.reread (accepted mode rs (new_journal start)))
              (warnings_of j.disk.events)
    unfolding new_journal
    journal_reads_back mode rs start w =
        read_journal-IsFaithful (run mode rs (new_journal start))
          (run-IsFaithful mode rs (new_journal start) w (new_journal-IsFaithful fl c start))
        ∙ ap
            (λ es.
              journal (map k.reread es) (warnings_of (run mode rs (new_journal start)).disk.events))
            (live_events-run mode rs (new_journal start))
