-- ===== src/Live/Journal/Lines.antt =====
-- journal.py: `read_journal` over the lines that `append_event` writes.
use native.Mathlib.Nat.{add-zero}
use mathlib.Core.List.{append_assoc, append-nil}
use screen2xyz_civil_plan_di.Prelude.{
  ℕ, zero, suc, ◌+◌, ◌≤◌, ◌<◌, ◌≡◌, refl, sym, ◌∙◌, ap, subst, Option, none, some, Bool, true,
  false, not, ◌&&◌, List, [], ◌∷◌, ◌++◌, map, ◌==◌, length, is_empty, All, arith,
}
use screen2xyz_civil_plan_di.Prelude.Int.{pos}
use screen2xyz_civil_plan_di.Prelude.Floats.{Floats}
use screen2xyz_civil_plan_di.Civil.Json.{Fields, int, obj, lookup, or_value}
use screen2xyz_civil_plan_di.Live.Stability.{Bytes}
use screen2xyz_civil_plan_di.Live.Journal.{Codec, take}
use screen2xyz_civil_plan_di.Live.Journal.Write.{line_bytes, full_line}
use screen2xyz_civil_plan_di.Live.Journal.Read.{
  keep, push, split, ends_complete, last_nonempty, is_at, equals, examine, verdict, read_lines,
}
use screen2xyz_civil_plan_di.Live.Journal.Contents.{Numbered, lines_of}

-- What is relied on of `json` and the encoding, for an event that carries a number: the line has no
-- line feed and is not empty; once its text is complete, also without what precedes the line feed, it
-- reads back as a dictionary with the same number (`reread`); a shorter part of it is not JSON.
pub record IsCodec {F : Type 0} (c : Codec F) : Type 0 where
  pub reread : Fields F → Fields F
  pub number_kept : (e : Fields F) → lookup "event_seq" (reread e) ≡ lookup "event_seq" e
  pub one_line : (e : Fields F) → All (λ b. (b == 10) ≡ false) (line_bytes c e)
  pub not_blank : (e : Fields F) → 0 < length (c.utf8 (c.dumps e))
  pub whole :
      (e : Fields F) (n m : ℕ)
      → lookup "event_seq" e ≡ some (int (pos n))
      → length (c.utf8 (c.dumps e)) ≤ m
      → c.loads (take m (line_bytes c e)) ≡ some (obj (reread e))
  pub cut :
      (e : Fields F) (n m : ℕ)
      → lookup "event_seq" e ≡ some (int (pos n))
      → 0 < m
      → m < length (c.utf8 (c.dumps e))
      → c.loads (take m (line_bytes c e)) ≡ none

pub length-append : {A : Type 0} (xs ys : List A) → length (xs ++ ys) ≡ length xs + length ys
length-append [] ys = omega arith
length-append (x ∷ xs) ys = omega (arith, length-append xs ys)

pub take-all : (m : ℕ) (bs : Bytes) → length bs ≤ m → take m bs ≡ bs
unfolding take
take-all zero [] h = refl
take-all zero (b ∷ bs) h = absurd (omega arith)
take-all (suc m) [] h = refl
take-all (suc m) (b ∷ bs) h = ap (λ l. b ∷ l) (take-all m bs (omega arith))

pub is_empty-take : (m : ℕ) (bs : Bytes) → 0 < m → 0 < length bs → is_empty (take m bs) ≡ false
unfolding take
is_empty-take zero bs h long = absurd (omega arith)
is_empty-take (suc m) [] h long = absurd (omega arith)
is_empty-take (suc m) (b ∷ bs) h long = refl

equal : (n : ℕ) → (suc n == n + 1) ≡ true
equal n = ground arith

grows : {A : Type 0} (xs : List A) (x : A) → suc (length xs) ≡ length (xs ++ (x ∷ []))
grows xs x = omega (arith, length-append xs (x ∷ []))

abbrev pub NoFeed : Bytes → Type 0
NoFeed bs = All (λ b. (b == 10) ≡ false) bs

pub split-NoFeed : (l : Bytes) → NoFeed l → split l ≡ l ∷ []
unfolding split push
split-NoFeed [] h = refl
split-NoFeed (b ∷ l) h = rw (h.0, split-NoFeed l h.1) refl

split-feed : (l rest : Bytes) → NoFeed l → split (l ++ (10 ∷ rest)) ≡ l ∷ split rest
unfolding split push
split-feed [] rest h = refl
split-feed (b ∷ l) rest h = rw (h.0, split-feed l rest h.1) refl

pub ends_complete-append : (xs t : Bytes) → 0 < length t → ends_complete (xs ++ t) ≡ ends_complete t
unfolding ends_complete
ends_complete-append [] t h = refl
ends_complete-append (x ∷ []) [] h = absurd (omega arith)
ends_complete-append (x ∷ []) (b ∷ t) h = refl
ends_complete-append (x ∷ y ∷ xs) t h = ends_complete-append (y ∷ xs) t h

pub ends_complete-NoFeed : (t : Bytes) → NoFeed t → ends_complete t ≡ false
unfolding ends_complete
ends_complete-NoFeed [] h = refl
ends_complete-NoFeed (b ∷ []) h = h.0
ends_complete-NoFeed (b ∷ c ∷ t) h = ends_complete-NoFeed (c ∷ t) h.1

pub last_nonempty-append :
    (i : ℕ) (ls : List Bytes) (t : Bytes) (found : Option ℕ)
    → is_empty t ≡ false
    → last_nonempty i (ls ++ (t ∷ [])) found ≡ some (i + length ls)
unfolding last_nonempty
last_nonempty-append i [] t found h = rw h (ap some (omega arith))
last_nonempty-append i (l ∷ ls) t found h =
    last_nonempty-append (suc i) ls t _ h ∙ ap some (omega arith)

module _ (fl : Floats) (c : Codec fl.F) (k : IsCodec c) where
  open fl use {F}

  -- The lines of the events, then what follows the last line feed.
  pub split-lines_of :
      (es : List (Fields F)) (t : Bytes)
      → NoFeed t
      → split (lines_of c es ++ t) ≡ map (line_bytes c) es ++ (t ∷ [])
  unfolding full_line
  split-lines_of [] t h = split-NoFeed t h
  split-lines_of (e ∷ es) t h =
      ap split (
        append_assoc (full_line c e) (lines_of c es) t
        ∙ append_assoc (line_bytes c e) (10 ∷ []) (lines_of c es ++ t))
      ∙ split-feed (line_bytes c e) (lines_of c es ++ t) (k.one_line e)
      ∙ ap (λ l. line_bytes c e ∷ l) (split-lines_of es t h)

  pub 0-lt-line_bytes : (e : Fields F) → 0 < length (line_bytes c e)
  unfolding line_bytes
  0-lt-line_bytes e =
      omega (arith, length-append (c.utf8 (c.dumps e)) c.before_newline, k.not_blank e)

  -- A line whose text is complete is kept where its number is the expected one.
  pub verdict-take :
      (is_last : Bool) (n m : ℕ) (e : Fields F)
      → lookup "event_seq" e ≡ some (int (pos (suc n)))
      → length (c.utf8 (c.dumps e)) ≤ m
      → verdict fl c is_last (n + 1) (take m (line_bytes c e)) ≡ keep (k.reread e)
  unfolding verdict examine equals or_value
  verdict-take is_last n m e h long =
      rw
        (
          is_empty-take m (line_bytes c e) (omega (arith, k.not_blank e)) (0-lt-line_bytes e),
          k.whole e (suc n) m h long,
          k.number_kept e,
          h,
          equal n,
        )
        refl

  verdict-line_bytes :
      (is_last : Bool) (n : ℕ) (e : Fields F)
      → lookup "event_seq" e ≡ some (int (pos (suc n)))
      → verdict fl c is_last (n + 1) (line_bytes c e) ≡ keep (k.reread e)
  unfolding line_bytes
  verdict-line_bytes is_last n e h =
      ap (verdict fl c is_last (n + 1))
        (sym (take-all (length (line_bytes c e)) (line_bytes c e) (omega arith)))
      ∙ verdict-take is_last n (length (line_bytes c e)) e h
          (omega (arith, length-append (c.utf8 (c.dumps e)) c.before_newline))

  -- The loop over the lines of events numbered on from those read.
  pub read_lines-map :
      (last : Option ℕ) (complete : Bool) (i : ℕ) (es : List (Fields F)) (rest : List Bytes)
      (events : List (Fields F))
      → Numbered (length events) es
      → read_lines fl c last complete i (map (line_bytes c) es ++ rest) events
        ≡ read_lines fl c last complete (i + length es) rest (events ++ map k.reread es)
  unfolding read_lines
  read_lines-map last complete i [] rest events h = rw (append-nil events, add-zero i) refl
  read_lines-map last complete i (e ∷ es) rest events h =
      let later =
        read_lines-map last complete (suc i) es rest (events ++ (k.reread e ∷ []))
          (subst (λ n. Numbered n es) (grows events (k.reread e)) h.1) in
      rw (verdict-line_bytes (is_at i last && not complete) (length events) e h.0, read_lines)
        (later
          ∙ ap
              (λ n.
                read_lines fl c last complete n rest
                  ((events ++ (k.reread e ∷ [])) ++ map k.reread es))
              (omega arith)
          ∙ ap (λ l. read_lines fl c last complete (i + suc (length es)) rest l)
              (append_assoc events (k.reread e ∷ []) (map k.reread es)))
