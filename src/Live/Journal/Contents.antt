-- ===== src/Live/Journal/Contents.antt =====
-- journal.py: what events.jsonl holds, as lines, after `append_event` with each answer of the file
-- system.
use screen2xyz_civil_plan_di.Prelude.{
  ℕ, zero, suc, ◌+◌, ◌≡◌, refl, sym, ◌∙◌, ap, String, Option, none, some, Bool, true, false, List,
  [], ◌∷◌, ◌++◌, str_eq, eq_iff, if◌then◌else◌, length, arith, Bool-cases, ◌⊎◌, leb, inl, inr,
}
use mathlib.Core.List.{append_assoc, append-nil}
use screen2xyz_civil_plan_di.Prelude.Int.{pos}
use screen2xyz_civil_plan_di.Prelude.Floats.{Floats}
use screen2xyz_civil_plan_di.Civil.Json.{Value, Fields, null, int, end, field, lookup}
use screen2xyz_civil_plan_di.Live.Status.{RetentionMode}
use screen2xyz_civil_plan_di.Live.Stability.{Bytes}
use screen2xyz_civil_plan_di.Live.Journal.{
  Codec, Checkpoint, Journal, Append, unopened, partial, durable, Io, Failure, disk_limit,
  disk_stop_bytes, Reply, failed, put,
}
use screen2xyz_civil_plan_di.Live.Journal.Write.{
  Draft, Kept, kept, stopped, write_crop, keep_crop, keep_crops, document, full_line, write_line,
  append_event, writes_pngs,
}

-- No part of a line is left by a failed append.
abbrev pub is_whole : Append → Bool
is_whole unopened = true
is_whole (partial zero) = true
is_whole (partial (suc n)) = false
is_whole durable = true

module _ {F : Type 0} where
  -- The events carry the numbers n + 1, n + 2 and so on.
  abbrev pub Numbered : ℕ → List (Fields F) → Type 0
  Numbered n [] = Unit
  Numbered n (e ∷ es) = (lookup "event_seq" e ≡ some (int (pos (suc n)))) × Numbered (suc n) es

  pub Numbered-append :
      (n : ℕ) (es : List (Fields F)) (e : Fields F)
      → Numbered n es
      → lookup "event_seq" e ≡ some (int (pos (suc (n + length es))))
      → Numbered n (es ++ (e ∷ []))
  Numbered-append n [] e h last = (last ∙ ap (λ k. some (int (pos (suc k)))) (omega arith), tt)
  Numbered-append n (d ∷ es) e h last = (
    h.0,
    Numbered-append (suc n) es e h.1 (last ∙ ap (λ k. some (int (pos (suc k)))) (omega arith)),
  )

  abbrev pub last_seq : Option (Checkpoint F) → ℕ
  last_seq none = 0
  last_seq (some p) = p.last_event_seq

  pub length-append_one :
      (es : List (Fields F)) (e : Fields F) → length (es ++ (e ∷ [])) ≡ suc (length es)
  length-append_one [] e = refl
  length-append_one (d ∷ es) e = ap suc (length-append_one es e)

  lookup-put :
      (k j : String) (v : Value F) (fs : Fields F)
      → lookup k (put j v fs) ≡ (if str_eq j k then some v else lookup k fs)
  unfolding put lookup
  lookup-put k j v end = ground arith
  lookup-put k j v (field i w rest) =
      ground (arith, lookup-put k j v rest, eq_iff i j, eq_iff j k, eq_iff i k)

-- What the crops of an event leave alone.
pub record Same {F : Type 0} (j j' : Journal F) : Type 0 where
  pub events : j'.disk.events ≡ j.disk.events
  pub event_seq : j'.event_seq ≡ j.event_seq
  pub live_events : j'.live_events ≡ j.live_events
  pub checkpoint : j'.disk.checkpoint ≡ j.disk.checkpoint

module _ {F : Type 0} where
  abbrev pub journal_of : Kept F → Journal F
  journal_of (kept j acc) = j
  journal_of (stopped j f) = j

  Same-refl : (j : Journal F) → Same j j
  Same-refl j = record { events = refl; event_seq = refl; live_events = refl; checkpoint = refl }

  Same-trans : (i j k : Journal F) → Same i j → Same j k → Same i k
  Same-trans i j k p q = record {
    events = q.events ∙ p.events;
    event_seq = q.event_seq ∙ p.event_seq;
    live_events = q.live_events ∙ p.live_events;
    checkpoint = q.checkpoint ∙ p.checkpoint;
  }

module _ {F : Type 0} (c : Codec F) where
  keep_crop-Same :
      (io : Io F) (seq : ℕ) (event : Fields F) (sid : String) (png : Bytes) (j : Journal F)
      (acc : Fields F)
      → Same j (journal_of (keep_crop c io seq event sid png j acc))
  unfolding keep_crop write_crop
  keep_crop-Same io seq event sid png j acc = record {
    events = ground arith;
    event_seq = ground arith;
    live_events = ground arith;
    checkpoint = ground arith;
  }

  keep_crops-Same :
      (io : Io F) (write_pngs : Bool) (seq : ℕ) (event : Fields F) (crops : List (String × Bytes))
      (j : Journal F) (acc : Fields F)
      → Same j (journal_of (keep_crops c io write_pngs seq event crops j acc))
  unfolding keep_crops
  keep_crops-Same io write_pngs seq event [] j acc = Same-refl j
  keep_crops-Same io false seq event ((sid, png) ∷ rest) j acc =
      keep_crops-Same io false seq event rest j (put sid null acc)
  keep_crops-Same io true seq event ((sid, png) ∷ rest) j acc =
      elim (keep_crop c io seq event sid png j acc)
          as (λ k.
            Same j (journal_of k)
            → Same j (
                journal_of (elim k [
                  | stopped j' f ↦ stopped j' f
                  | kept j' acc' ↦ keep_crops c io true seq event rest j' acc'
                ]))) [
                  | stopped j' f ↦ λ h. h
                  | kept j' acc' ↦
                      λ h. Same-trans j j' _ h (keep_crops-Same io true seq event rest j' acc')
                ]
        (keep_crop-Same io seq event sid png j acc)

  -- The concatenation of the lines of events
  abbrev pub lines_of : List (Fields F) → Bytes
  lines_of [] = []
  lines_of (e ∷ es) = full_line c e ++ lines_of es

  pub lines_of-append :
      (es : List (Fields F)) (e : Fields F)
      → lines_of (es ++ (e ∷ [])) ≡ lines_of es ++ full_line c e
  lines_of-append [] e = append-nil (full_line c e)
  lines_of-append (d ∷ es) e =
      ap (λ l. full_line c d ++ l) (lines_of-append es e)
      ∙ sym (append_assoc (full_line c d) (lines_of es) (full_line c e))

  pub lookup-document :
      (mode : RetentionMode) (seq : ℕ) (event crops_saved : Fields F)
      → lookup "event_seq" (document c mode seq event crops_saved) ≡ some (int (pos seq))
  unfolding document
  lookup-document mode seq event crops_saved = simp lookup-put refl

module _ (fl : Floats) (c : Codec fl.F) where
  open fl use {F}

  module _ (mode : RetentionMode) (io : Io F) (d : Draft F) (j : Journal F) where
    -- An append stops before the line, the journal as `Same` tells, or goes on to write its line.
    abbrev pub Course : Journal F × Reply F → Type 0
    Course r =
        ((j' : Journal F) × (f : Failure) × Same j j' × (r ≡ (j', failed f)))
        ⊎ ((j' : Journal F) × (crops_saved : Fields F) × Same j j'
            × (r
                ≡ write_line fl c io.line io (suc j.event_seq)
                    (document c mode (suc j.event_seq) d.event crops_saved) j'))

    pub append_event-Course : Course (append_event fl c mode io d j)
    unfolding append_event
    append_event-Course = elim (Bool-cases (leb disk_stop_bytes j.disk_bytes)) [
      | inl full ↦ inl (j, disk_limit j.disk_bytes, Same-refl j, rw full refl)
      | inr room ↦ rw room (
          elim (keep_crops c io (writes_pngs mode) (suc j.event_seq) d.event d.crops j end)
              as (λ k.
                Same j (journal_of k)
                → Course (elim k [
                  | stopped j' f ↦ (j', failed f)
                  | kept j' crops_saved ↦
                      write_line fl c io.line io (suc j.event_seq)
                        (document c mode (suc j.event_seq) d.event crops_saved) j'
                ])) [
                  | stopped j' f ↦ λ s. inl (j', f, s, refl)
                  | kept j' crops_saved ↦ λ s. inr (j', crops_saved, s, refl)
                ]
            (keep_crops-Same c io (writes_pngs mode) (suc j.event_seq) d.event d.crops j end))
    ]
