-- ===== src/Live/Parsing/Bounds.antt =====
-- parsing.py: `bound_raw`. The encoding is a parameter; what is relied on is that a character is one
-- byte that does not continue another, and bytes that do.
use Prim.Native.Nat.{◌/◌, ◌%◌}
use native.Mathlib.Nat.{zero-add}
use native.Mathlib.Decide.{dec_lt}
use mathlib.Core.List.{append_assoc, append-nil}
use screen2xyz_civil_plan_di.Prelude.{
  ℕ, zero, suc, ◌+◌, ◌-◌, ◌≤◌, ◌<◌, ◌≡◌, refl, sym, ◌∙◌, ap, Option, some, Bool, true, false, not,
  ◌⊎◌, inl, inr, [], ◌∷◌, ◌++◌, if◌then◌else◌, leb, ◌==◌, length, is_empty, All, arith, Bool-cases,
  leb→le,
}
use screen2xyz_civil_plan_di.Live.Stability.{Bytes}
use screen2xyz_civil_plan_di.Live.Parsing.{Text}

-- `text.encode("utf-8")` by character, and `prefix.decode("utf-8")`
pub record Utf8 : Type 0 where
  pub encode : ℕ → Bytes
  pub decode : Bytes → Text

pub record RawBound : Type 0 where
  pub raw_text : Text
  pub raw_truncated : Bool
  pub raw_original_utf8_bytes : Option ℕ

-- `(byte & 0xC0) == 0x80`
unfoldable pub is_continuation : ℕ → Bool
is_continuation b = b / 64 % 4 == 2

-- `data[i]`, which is read inside the data only
unfoldable pub byte : Bytes → ℕ → ℕ
byte [] i = 0
byte (b ∷ bs) zero = b
byte (b ∷ bs) (suc i) = byte bs i

unfoldable pub prefix : ℕ → Bytes → Bytes
prefix zero bs = []
prefix (suc n) [] = []
prefix (suc n) (b ∷ bs) = b ∷ prefix n bs

-- The loop that walks back over the bytes that continue a character
unfoldable pub walk_back : Bytes → ℕ → ℕ
unfolding byte is_continuation
walk_back bs zero = zero
walk_back bs (suc cut) =
    let back = walk_back bs cut in if is_continuation (byte bs cut) then back else suc cut

-- `cut`
unfoldable pub cut_of : Bytes → ℕ → ℕ
unfolding walk_back
cut_of bs bound = if is_continuation (byte bs bound) then walk_back bs bound - 1 else bound

-- `RAW_OCR_MAX_BYTES`
unfoldable pub raw_ocr_max_bytes : ℕ
raw_ocr_max_bytes = 4096

module _ (u : Utf8) where
  unfoldable pub encode_all : Text → Bytes
  encode_all [] = []
  encode_all (c ∷ rest) = u.encode c ++ encode_all rest

  unfoldable pub bound_raw_at : ℕ → Text → RawBound
  unfolding encode_all cut_of prefix
  bound_raw_at bound text =
      let bs = encode_all text in
      if leb (length bs) bound
      then record {
        raw_text = text;
        raw_truncated = false;
        raw_original_utf8_bytes = some (length bs);
      }
      else record {
        raw_text = u.decode (prefix (cut_of bs bound) bs);
        raw_truncated = true;
        raw_original_utf8_bytes = some (length bs);
      }

  -- `bound_raw`
  unfoldable pub bound_raw : Text → RawBound
  unfolding bound_raw_at raw_ocr_max_bytes
  bound_raw text = bound_raw_at raw_ocr_max_bytes text

-- What is relied on of UTF-8.
pub record IsUtf8 (u : Utf8) : Type 0 where
  pub lead : ℕ → ℕ
  pub rest : ℕ → Bytes
  pub parts : (c : ℕ) → u.encode c ≡ lead c ∷ rest c
  pub leads : (c : ℕ) → is_continuation (lead c) ≡ false
  pub continues : (c : ℕ) → All (λ b. is_continuation b ≡ true) (rest c)
  pub decodes : (text : Text) → u.decode (encode_all u text) ≡ text

byte-append : (xs ys : Bytes) (i : ℕ) → byte (xs ++ ys) (length xs + i) ≡ byte ys i
unfolding byte
byte-append [] ys i = ap (byte ys) (zero-add i)
byte-append (x ∷ xs) ys i =
    let e : suc (length xs) + i ≡ suc (length xs + i) = omega arith in
    ap (byte (x ∷ (xs ++ ys))) e ∙ byte-append xs ys i

byte-left :
    (xs ys : Bytes) (i : ℕ)
    → All (λ b. is_continuation b ≡ true) xs
    → i < length xs
    → is_continuation (byte (xs ++ ys) i) ≡ true
unfolding byte
byte-left [] ys i h l = absurd (omega arith)
byte-left (x ∷ xs) ys zero h l = h.0
byte-left (x ∷ xs) ys (suc i) h l = byte-left xs ys i h.1 (omega arith)

prefix-append : (xs ys : Bytes) → prefix (length xs) (xs ++ ys) ≡ xs
unfolding prefix
prefix-append [] ys = refl
prefix-append (x ∷ xs) ys = ap (λ l. x ∷ l) (prefix-append xs ys)

length-append : (xs ys : Bytes) → length (xs ++ ys) ≡ length xs + length ys
length-append [] ys = omega arith
length-append (x ∷ xs) ys = omega (arith, length-append xs ys)

walk_back-stop :
    (bs : Bytes) (i : ℕ) → is_continuation (byte bs i) ≡ false → walk_back bs (suc i) ≡ suc i
unfolding walk_back
walk_back-stop bs i h = rw h refl

walk_back-go :
    (bs : Bytes) (i : ℕ)
    → is_continuation (byte bs i) ≡ true
    → walk_back bs (suc i) ≡ walk_back bs i
unfolding walk_back
walk_back-go bs i h = rw h refl

cut_of-lead : (bs : Bytes) (i : ℕ) → is_continuation (byte bs i) ≡ false → cut_of bs i ≡ i
unfolding cut_of
cut_of-lead bs i h = rw h refl

cut_of-inner :
    (bs : Bytes) (i : ℕ) → is_continuation (byte bs i) ≡ true → cut_of bs i ≡ walk_back bs i - 1
unfolding cut_of
cut_of-inner bs i h = rw h refl

-- One character in the middle of the bytes.
module _ (xs ys conts : Bytes) (first : ℕ) (leads : is_continuation first ≡ false)
    (continues : All (λ b. is_continuation b ≡ true) conts) where
  abbrev around : Bytes
  around = xs ++ (first ∷ (conts ++ ys))

  byte-first : is_continuation (byte around (length xs)) ≡ false
  unfolding byte
  byte-first =
      let e : length xs ≡ length xs + 0 = omega arith in
      ap is_continuation (ap (byte around) e ∙ byte-append xs (first ∷ (conts ++ ys)) 0) ∙ leads

  byte-conts :
      (i : ℕ) → i < length conts → is_continuation (byte around (suc (length xs + i))) ≡ true
  unfolding byte
  byte-conts i h =
      let e : suc (length xs + i) ≡ length xs + suc i = omega arith in
      ap is_continuation (ap (byte around) e ∙ byte-append xs (first ∷ (conts ++ ys)) (suc i))
      ∙ byte-left conts ys i continues h

  walk_back-inside :
      (i : ℕ) → i ≤ length conts → walk_back around (suc (length xs + i)) ≡ suc (length xs)
  walk_back-inside zero h =
      let e : length xs + 0 ≡ length xs = omega arith in
      ap (λ n. walk_back around (suc n)) e ∙ walk_back-stop around (length xs) byte-first
  walk_back-inside (suc i) h =
      let e : length xs + suc i ≡ suc (length xs + i) = omega arith in
      ap (λ n. walk_back around (suc n)) e
      ∙ walk_back-go around (suc (length xs + i)) (byte-conts i (omega arith))
      ∙ walk_back-inside i (omega arith)

  cut_of-inside : (i : ℕ) → i ≤ length conts → cut_of around (length xs + i) ≡ length xs
  cut_of-inside zero h =
      let e : length xs + 0 ≡ length xs = omega arith in
      ap (cut_of around) e ∙ cut_of-lead around (length xs) byte-first
  cut_of-inside (suc i) h =
      let e : length xs + suc i ≡ suc (length xs + i) = omega arith in
      ap (cut_of around) e
      ∙ cut_of-inner around (suc (length xs + i)) (byte-conts i (omega arith))
      ∙ ap (λ n. n - 1) (walk_back-inside i (omega arith))
      ∙ omega arith

module _ (u : Utf8) (k : IsUtf8 u) where
  -- The characters that fit within the bound, and the first that does not.
  record Split (bound : ℕ) (text : Text) : Type 0 where
    kept : Text
    next : ℕ
    left : Text
    whole : text ≡ kept ++ (next ∷ left)
    fits : length (encode_all u kept) ≤ bound
    full : bound < length (encode_all u kept) + length (u.encode next)

  Split-text : (bound : ℕ) (text : Text) → bound < length (encode_all u text) → Split bound text
  unfolding encode_all
  Split-text bound [] h = absurd (omega arith)
  Split-text bound (c ∷ text) h = elim (dec_lt bound (length (u.encode c))) [
    | yes over ↦ record {
      kept = [];
      next = c;
      left = text;
      whole = refl;
      fits = omega arith;
      full = omega (arith, over);
    }
    | no under ↦
        let n = length (u.encode c) in
        let s =
          Split-text (bound - n) text
            (omega (arith, h, length-append (u.encode c) (encode_all u text), under)) in
        let long = length-append (u.encode c) (encode_all u s.kept) in
        record {
          kept = c ∷ s.kept;
          next = s.next;
          left = s.left;
          whole = ap (λ l. c ∷ l) s.whole;
          fits = omega (arith, s.fits, long, under);
          full = omega (arith, s.full, long, under);
        }
  ]

  encode_all-append : (s t : Text) → encode_all u (s ++ t) ≡ encode_all u s ++ encode_all u t
  unfolding encode_all
  encode_all-append [] t = refl
  encode_all-append (c ∷ s) t =
      ap (λ l. u.encode c ++ l) (encode_all-append s t)
      ∙ sym (append_assoc (u.encode c) (encode_all u s) (encode_all u t))

  -- `raw` is the longest part of the text, from its start and of whole characters, within the bound.
  pub record IsLongest (bound : ℕ) (text : Text) (r : RawBound) : Type 0 where
    pub left : Text
    pub whole : text ≡ r.raw_text ++ left
    pub fits : length (encode_all u r.raw_text) ≤ bound
    pub truncated : r.raw_truncated ≡ not (is_empty left)
    pub full :
        (left ≡ [])
        ⊎ ((next : ℕ) × (more : Text) × (left ≡ next ∷ more)
            × (bound < length (encode_all u r.raw_text) + length (u.encode next)))
    pub original : r.raw_original_utf8_bytes ≡ some (length (encode_all u text))

  cut_of-Split :
      (bound : ℕ) (text : Text) (s : Split bound text)
      → u.decode (prefix (cut_of (encode_all u text) bound) (encode_all u text)) ≡ s.kept
  unfolding encode_all
  cut_of-Split bound text s =
      let xs = encode_all u s.kept in
      let ys = encode_all u s.left in
      let bs : Bytes = xs ++ (k.lead s.next ∷ (k.rest s.next ++ ys)) in
      let same : encode_all u text ≡ bs =
        ap (encode_all u) s.whole
        ∙ encode_all-append s.kept (s.next ∷ s.left)
        ∙ ap (λ l. xs ++ (l ++ ys)) (k.parts s.next) in
      let i = bound - length xs in
      let at : length xs + i ≡ bound = omega (arith, s.fits) in
      let cut : cut_of bs bound ≡ length xs =
        ap (cut_of bs) (sym at)
        ∙ cut_of-inside xs ys (k.rest s.next) (k.lead s.next) (k.leads s.next) (k.continues s.next)
            i (omega (arith, s.fits, s.full, ap length (k.parts s.next))) in
      ap (λ l. u.decode (prefix (cut_of l bound) l)) same
      ∙ ap (λ n. u.decode (prefix n bs)) cut
      ∙ ap u.decode (prefix-append xs (k.lead s.next ∷ (k.rest s.next ++ ys)))
      ∙ k.decodes s.kept

  bound_raw_at-IsLongest :
      (bound : ℕ) (text : Text) → IsLongest bound text (bound_raw_at u bound text)
  unfolding bound_raw_at
  bound_raw_at-IsLongest bound text = elim (Bool-cases (leb (length (encode_all u text)) bound)) [
    | inl e ↦ rw e (record {
      left = [];
      whole = sym (append-nil text);
      fits = leb→le (length (encode_all u text)) bound e;
      truncated = refl;
      full = inl refl;
      original = refl;
    })
    | inr e ↦
        let s = Split-text bound text (ground (arith, e)) in
        let same = cut_of-Split bound text s in
        rw e (record {
          left = s.next ∷ s.left;
          whole = s.whole ∙ ap (λ l. l ++ (s.next ∷ s.left)) (sym same);
          fits = rw same s.fits;
          truncated = refl;
          full = inr (s.next, s.left, refl, rw same s.full);
          original = refl;
        })
  ]

  -- `bound_raw` keeps the longest part of the text, from its start and of whole characters, whose
  -- encoding has at most 4096 bytes; it says that it truncated exactly when it left something out, and
  -- reports the bytes of the whole text.
  pub bound_raw-IsLongest : (text : Text) → IsLongest 4096 text (bound_raw u text)
  unfolding bound_raw raw_ocr_max_bytes
  bound_raw-IsLongest text = bound_raw_at-IsLongest 4096 text
