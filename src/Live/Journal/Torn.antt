-- ===== src/Live/Journal/Torn.antt =====
-- journal.py: `read_journal` after an append that left a part of its line, or all of it.
use native.Mathlib.Nat.{zero-add}
use screen2xyz_civil_plan_di.Prelude.{
  ℕ, zero, suc, ◌≤◌, ◌<◌, ◌≡◌, refl, sym, ◌∙◌, ap, none, some, true, false, not, ◌&&◌, List, [],
  ◌∷◌, ◌++◌, map, ◌==◌, length, arith, if◌then◌else◌, inl, inr, ltb, Bool-cases,
}
use native.Mathlib.Decide.{dec_le}
use screen2xyz_civil_plan_di.Prelude.Int.{pos}
use screen2xyz_civil_plan_di.Prelude.Floats.{Floats}
use screen2xyz_civil_plan_di.Civil.Json.{Fields, int, lookup}
use screen2xyz_civil_plan_di.Live.Stability.{Bytes}
use screen2xyz_civil_plan_di.Live.Journal.{Codec, Journal, partial, Io, take}
use screen2xyz_civil_plan_di.Live.Journal.Write.{line_bytes, full_line, content, write_line}
use screen2xyz_civil_plan_di.Live.Journal.Read.{
  journal, read_lines, read_journal, is_at, verdict, examine,
}
use screen2xyz_civil_plan_di.Live.Journal.Contents.{
  Numbered, Numbered-append, lines_of, lines_of-append,
}
use screen2xyz_civil_plan_di.Live.Journal.Faithful.{IsFaithful}
use screen2xyz_civil_plan_di.Live.Journal.Lines.{
  IsCodec, NoFeed, take-all, verdict-take, ends_complete-append, ends_complete-NoFeed,
  last_nonempty-append, length-append, is_empty-take, 0-lt-line_bytes,
}
use screen2xyz_civil_plan_di.Live.Journal.Reading.{read_journal-lines_of, read_journal-content}

pub length-map : {A B : Type 0} (f : A → B) (xs : List A) → length (map f xs) ≡ length xs
length-map f [] = refl
length-map f (x ∷ xs) = ap suc (length-map f xs)

pub map-append_one :
    {A B : Type 0} (f : A → B) (xs : List A) (x : A)
    → map f (xs ++ (x ∷ [])) ≡ map f xs ++ (f x ∷ [])
map-append_one f [] x = refl
map-append_one f (y ∷ xs) x = ap (λ l. f y ∷ l) (map-append_one f xs x)

same_number : (n : ℕ) → (n == n) ≡ true
same_number n = ground arith

module _ (fl : Floats) (c : Codec fl.F) (k : IsCodec c) where
  open fl use {F}

  -- The first bytes of a line have no line feed.
  NoFeed-take : (n : ℕ) (bs : Bytes) → NoFeed bs → NoFeed (take n bs)
  unfolding take
  NoFeed-take zero bs h = tt
  NoFeed-take (suc n) [] h = tt
  NoFeed-take (suc n) (b ∷ bs) h = (h.0, NoFeed-take n bs h.1)

  length-take : (n : ℕ) (bs : Bytes) → 0 < n → 0 < length bs → 0 < length (take n bs)
  unfolding take
  length-take zero bs h long = absurd (omega arith)
  length-take (suc n) [] h long = absurd (omega arith)
  length-take (suc n) (b ∷ bs) h long = omega arith

  take-append : (n : ℕ) (xs ys : Bytes) → n ≤ length xs → take n (xs ++ ys) ≡ take n xs
  unfolding take
  take-append zero xs ys h = refl
  take-append (suc n) [] ys h = absurd (omega arith)
  take-append (suc n) (x ∷ xs) ys h = ap (λ l. x ∷ l) (take-append n xs ys (omega arith))

  -- The reading of whole lines and then the first bytes of one more.
  read_journal-take :
      (es : List (Fields F)) (e : Fields F) (n : ℕ)
      → Numbered 0 es
      → 0 < n
      → read_journal fl c (some (lines_of c es ++ take n (line_bytes c e)))
        ≡ read_lines fl c
            (some (length es))
            false
            (length es)
            (take n (line_bytes c e) ∷ [])
            (map k.reread es)
  read_journal-take es e n h pos_n =
      let t = take n (line_bytes c e) in
      let clean = NoFeed-take n (line_bytes c e) (k.one_line e) in
      let long = length-take n (line_bytes c e) pos_n (0-lt-line_bytes fl c k e) in
      read_journal-lines_of fl c k es t h clean
      ∙ rw
          (
            last_nonempty-append 0 (map (line_bytes c) es) t none
                (is_empty-take n (line_bytes c e) pos_n (0-lt-line_bytes fl c k e)),
            ends_complete-append (lines_of c es) t long,
            ends_complete-NoFeed t clean,
            length-map (line_bytes c) es,
            zero-add (length es),
          )
          refl

  torn_line :
      (es : List (Fields F)) (e : Fields F) (n : ℕ)
      → Numbered 0 es
      → lookup "event_seq" e ≡ some (int (pos (suc (length es))))
      → 0 < n
      → n < length (c.utf8 (c.dumps e))
      → read_journal fl c (some (lines_of c es ++ take n (line_bytes c e)))
        ≡ journal (map k.reread es) ("PARTIAL_FINAL_LINE" ∷ [])
  unfolding verdict is_at examine read_lines
  torn_line es e n h number pos_n short =
      read_journal-take es e n h pos_n
      ∙ rw
          (
            read_lines,
            is_empty-take n (line_bytes c e) pos_n (0-lt-line_bytes fl c k e),
            k.cut e (suc (length es)) n number pos_n short,
            same_number (length es),
          )
          refl

  kept_line :
      (es : List (Fields F)) (e : Fields F) (n : ℕ)
      → Numbered 0 es
      → lookup "event_seq" e ≡ some (int (pos (suc (length es))))
      → length (c.utf8 (c.dumps e)) ≤ n
      → read_journal fl c (some (lines_of c es ++ take n (line_bytes c e)))
        ≡ journal (map k.reread (es ++ (e ∷ []))) []
  unfolding read_lines
  kept_line es e n h number long =
      let is_last = is_at (length es) (some (length es)) && not false in
      read_journal-take es e n h (omega (arith, k.not_blank e))
      ∙ rw
          (
            read_lines,
            length-map k.reread es,
            verdict-take fl c k is_last (length es) n e number long,
          )
          (ap (λ l. journal l []) (sym (map-append_one k.reread es e)))

  -- The first bytes of a line with its line feed: no part of the feed, or all of the line.
  kept_full :
      (es : List (Fields F)) (e : Fields F) (n : ℕ)
      → Numbered 0 es
      → lookup "event_seq" e ≡ some (int (pos (suc (length es))))
      → length (line_bytes c e) < n
      → read_journal fl c (some (lines_of c es ++ take n (full_line c e)))
        ≡ journal (map k.reread (es ++ (e ∷ []))) []
  unfolding content full_line
  kept_full es e n h number all =
      read_journal-content fl c k (some (lines_of c es ++ take n (full_line c e))) (es ++ (e ∷ []))
        (ap (λ l. lines_of c es ++ l)
            (take-all n (full_line c e) (omega (arith, length-append (line_bytes c e) (10 ∷ []))))
          ∙ sym (lines_of-append c es e))
        (Numbered-append 0 es e h
          (number ∙ ap (λ m. some (int (pos (suc m)))) (sym (zero-add (length es)))))

  -- The reading of a file that holds whole lines and the first `n` bytes of one more.
  read_cut :
      (es : List (Fields F)) (e : Fields F) (n : ℕ)
      → Numbered 0 es
      → lookup "event_seq" e ≡ some (int (pos (suc (length es))))
      → 0 < n
      → read_journal fl c (some (lines_of c es ++ take n (full_line c e))) ≡ (
          if ltb n (length (c.utf8 (c.dumps e)))
          then journal (map k.reread es) ("PARTIAL_FINAL_LINE" ∷ [])
          else journal (map k.reread (es ++ (e ∷ []))) [])
  unfolding full_line
  read_cut es e n h number pos_n =
      let text = c.utf8 (c.dumps e) in
      elim (dec_le n (length (line_bytes c e))) [
        | no over ↦
            kept_full es e n h number (omega (arith, over))
            ∙ ground (arith, length-append text c.before_newline, over)
        | yes within ↦
            ap (λ l. read_journal fl c (some (lines_of c es ++ l)))
              (take-append n (line_bytes c e) (10 ∷ []) within)
            ∙ elim (Bool-cases (ltb n (length text))) [
              | inl short ↦ rw short (torn_line es e n h number pos_n (ground arith))
              | inr long ↦ rw long (kept_line es e n h number (ground arith))
            ]
      ]

  -- A journal whose file is faithful and whose next line is cut after `n` bytes, `n` at least one, by a
  -- failure or the end of the process, reads back without an exception: where the text of the line
  -- is not complete, as the earlier events with the warning PARTIAL_FINAL_LINE, and otherwise as the
  -- earlier events and this one, with no warning.
  pub cut_line_reads :
      (j : Journal F) (io : Io F) (e : Fields F) (n : ℕ)
      → IsFaithful c j
      → lookup "event_seq" e ≡ some (int (pos (suc j.event_seq)))
      → 0 < n
      → read_journal fl c (write_line fl c (partial n) io (suc j.event_seq) e j).0.disk.events ≡ (
          if ltb n (length (c.utf8 (c.dumps e)))
          then journal (map k.reread j.live_events) ("PARTIAL_FINAL_LINE" ∷ [])
          else journal (map k.reread (j.live_events ++ (e ∷ []))) [])
  unfolding write_line
  cut_line_reads j io e n h number pos_n =
      ap (λ l. read_journal fl c (some (l ++ take n (full_line c e)))) h.held
      ∙ read_cut j.live_events e n h.numbered
          (number ∙ ap (λ m. some (int (pos (suc m)))) h.counted) pos_n
