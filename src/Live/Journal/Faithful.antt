-- ===== src/Live/Journal/Faithful.antt =====
-- journal.py: the file holds the lines of the journaled events, over appends that leave no part of a
-- line.
use screen2xyz_civil_plan_di.Prelude.{
  ℕ, zero, suc, ◌≤◌, ◌≡◌, refl, sym, ◌∙◌, ap, some, Bool, true, false, not, ◌&&◌, List, [], ◌∷◌,
  ◌++◌, length, arith, Bool-cases, inl, inr,
}
use mathlib.Core.List.{append-nil}
use screen2xyz_civil_plan_di.Prelude.Int.{pos}
use screen2xyz_civil_plan_di.Prelude.Floats.{Floats}
use screen2xyz_civil_plan_di.Civil.Json.{Value, Fields, int, lookup}
use screen2xyz_civil_plan_di.Live.Status.{RetentionMode}
use screen2xyz_civil_plan_di.Live.Journal.{
  Codec, Journal, Append, unopened, partial, durable, Io, Reply, written, failed, take, new_journal,
}
use screen2xyz_civil_plan_di.Live.Journal.Write.{
  Draft, full_line, content, maybe_checkpoint, commit, write_line, append_event,
}
use screen2xyz_civil_plan_di.Live.Journal.Contents.{
  is_whole, Numbered, Numbered-append, last_seq, length-append_one, Same, lines_of, lines_of-append,
  lookup-document, append_event-Course,
}

module _ {F : Type 0} where
  abbrev pub replied : Reply F → List (Fields F)
  replied (written e) = e ∷ []
  replied (failed f) = []

-- The file holds the lines of the events that were journaled, which are numbered from one, and the
-- checkpoint is not ahead of them.
pub record IsFaithful {F : Type 0} (c : Codec F) (j : Journal F) : Type 0 where
  pub held : content j.disk.events ≡ lines_of c j.live_events
  pub numbered : Numbered 0 j.live_events
  pub counted : j.event_seq ≡ length j.live_events
  pub reached : last_seq j.disk.checkpoint ≤ j.event_seq

module _ (fl : Floats) (c : Codec fl.F) where
  open fl use {F, lt, mul, sub, of_nat}

  Same-IsFaithful : (j j' : Journal F) → Same j j' → IsFaithful c j → IsFaithful c j'
  Same-IsFaithful j j' s h = record {
    held = ap content s.events ∙ h.held ∙ ap (lines_of c) (sym s.live_events);
    numbered = rw s.live_events h.numbered;
    counted = s.event_seq ∙ h.counted ∙ ap length (sym s.live_events);
    reached = rw (s.checkpoint, s.event_seq) h.reached;
  }

  -- `maybe_checkpoint` writes the number that the journal has.
  maybe_checkpoint-IsFaithful :
      (io : Io F) (signature : Value F) (force : Bool) (j : Journal F)
      → IsFaithful c j
      → IsFaithful c (maybe_checkpoint fl io signature force j)
  unfolding maybe_checkpoint
  maybe_checkpoint-IsFaithful io signature force j h =
      elim (Bool-cases
        (not force && lt (mul (sub io.now j.last_checkpoint) (of_nat 1000)) (of_nat 15000))) [
          | inl e ↦ rw e h
          | inr e ↦ elim (Bool-cases io.checkpoint) [
            | inl w ↦
                rw (e, w)
                  (record {
                    held = h.held;
                    numbered = h.numbered;
                    counted = h.counted;
                    reached = omega arith;
                  })
            | inr w ↦
                rw (e, w)
                  (record {
                    held = h.held;
                    numbered = h.numbered;
                    counted = h.counted;
                    reached = h.reached;
                  })
          ]
        ]

  commit-IsFaithful :
      (io : Io F) (e : Fields F) (j : Journal F)
      → IsFaithful c j
      → lookup "event_seq" e ≡ some (int (pos (suc j.event_seq)))
      → IsFaithful c (
          commit fl c io (suc j.event_seq) e (record j {
            disk = record j.disk { events = some (content j.disk.events ++ full_line c e) };
          }))
  unfolding commit content
  commit-IsFaithful io e j h number = maybe_checkpoint-IsFaithful io _ false _ (record {
    held = ap (λ l. l ++ full_line c e) h.held ∙ sym (lines_of-append c j.live_events e);
    numbered =
        Numbered-append 0 j.live_events e h.numbered
          (number ∙ ap (λ k. some (int (pos (suc k)))) (omega (arith, h.counted)));
    counted = ap suc h.counted ∙ sym (length-append_one j.live_events e);
    reached = omega (arith, h.reached);
  })

  -- The journal's own part of an append, for each answer about the line.
  write_line-IsFaithful :
      (o : Append) (io : Io F) (e : Fields F) (j : Journal F)
      → is_whole o ≡ true
      → lookup "event_seq" e ≡ some (int (pos (suc j.event_seq)))
      → IsFaithful c j
      → IsFaithful c (write_line fl c o io (suc j.event_seq) e j).0
  unfolding write_line content take
  write_line-IsFaithful unopened io e j whole number h = h
  write_line-IsFaithful (partial zero) io e j whole number h = record {
    held = append-nil (content j.disk.events) ∙ h.held;
    numbered = h.numbered;
    counted = h.counted;
    reached = h.reached;
  }
  write_line-IsFaithful (partial (suc n)) io e j whole number h = cc
  write_line-IsFaithful durable io e j whole number h = commit-IsFaithful io e j h number

  pub live_events-write_line :
      (o : Append) (io : Io F) (seq : ℕ) (e : Fields F) (j : Journal F)
      → let r = write_line fl c o io seq e j in r.0.live_events ≡ j.live_events ++ replied r.1
  unfolding write_line commit maybe_checkpoint
  live_events-write_line unopened io seq e j = sym (append-nil j.live_events)
  live_events-write_line (partial n) io seq e j = sym (append-nil j.live_events)
  live_events-write_line durable io seq e j = ground arith

  -- An append that leaves no part of a line keeps the file faithful.
  pub append_event-IsFaithful :
      (mode : RetentionMode) (io : Io F) (d : Draft F) (j : Journal F)
      → is_whole io.line ≡ true
      → IsFaithful c j
      → IsFaithful c (append_event fl c mode io d j).0
  append_event-IsFaithful mode io d j whole h = elim (append_event-Course fl c mode io d j) [
    | inl (j', f, s, e) ↦ rw e (Same-IsFaithful j j' s h)
    | inr (j', crops_saved, s, e) ↦
        rw (e, sym s.event_seq)
          (write_line-IsFaithful io.line io _ j' whole
            (lookup-document c mode (suc j'.event_seq) d.event crops_saved)
            (Same-IsFaithful j j' s h))
  ]

  -- The events journaled grow by the one that the reply hands back.
  pub live_events-append_event :
      (mode : RetentionMode) (io : Io F) (d : Draft F) (j : Journal F)
      → let r = append_event fl c mode io d j in r.0.live_events ≡ j.live_events ++ replied r.1
  live_events-append_event mode io d j = elim (append_event-Course fl c mode io d j) [
    | inl (j', f, s, e) ↦ rw e (s.live_events ∙ sym (append-nil j.live_events))
    | inr (j', crops_saved, s, e) ↦
        rw (e, sym s.live_events) (live_events-write_line io.line io (suc j.event_seq) _ j')
  ]

  pub new_journal-IsFaithful : (start : F) → IsFaithful c (new_journal start)
  unfolding new_journal content
  new_journal-IsFaithful start = record {
    held = refl;
    numbered = tt;
    counted = refl;
    reached = omega arith;
  }
