-- ===== src/Live/Parsing/Unique.antt =====
-- parsing.py: what `parse_number` accepts.
use screen2xyz_civil_plan_di.Prelude.{
  ℕ, suc, ◌+◌, ◌≡◌, refl, ap, Option, none, some, Bool, true, false, ◌||◌, List, [], ◌∷◌, ◌++◌,
  length, is_empty, Bool-cases, inl, inr, arith,
}
use screen2xyz_civil_plan_di.Prelude.Floats.{Floats}
use screen2xyz_civil_plan_di.Live.Status.{ParseStatus}
use screen2xyz_civil_plan_di.Live.Parsing.{
  Text, Characters, SeparatorMode, Match, idle, strip, holds, strip_separators, is_separator,
}
use screen2xyz_civil_plan_di.Live.Parsing.Numbers.{
  Found, Signs, sign_glyph_violation, normalize_signs, matches, candidate, note, collect, drop_plus,
  outcome, unsigned_outcome, too_precise, out_of_range, conclude, parse_signed, parse_stripped,
  parse_number,
}
use screen2xyz_civil_plan_di.Live.Parsing.Canonical.{
  IsDigits, IsCanonical, interpret-IsCanonical, drop_plus-IsCanonical,
}

length-one : (ts : List Text) (t : Text) → length (ts ++ (t ∷ [])) ≡ suc (length ts)
length-one [] t = refl
length-one (s ∷ ts) t = ap suc (length-one ts t)

note-one :
    (o : Option Text) (t : Text)
    → (note o (record { candidates = []; malformed = false })).malformed ≡ false
    → (note o (record { candidates = []; malformed = false })).candidates ≡ t ∷ []
    → o ≡ some t
unfolding note
note-one none t h e = cc
note-one (some u) t h e = cc

module _ {F : Type 0} (ch : Characters F) (mode : SeparatorMode) where
  note-length :
      (o : Option Text) (f : Found)
      → (note o f).malformed ≡ false
      → (f.malformed ≡ false) × (length (note o f).candidates ≡ suc (length f.candidates))
  unfolding note
  note-length none f h = cc
  note-length (some t) f h = (h, length-one f.candidates t)

  -- No match is dropped where none is malformed.
  collect-length :
      (ms : List Match) (f : Found)
      → (collect ch mode ms f).malformed ≡ false
      → (f.malformed ≡ false)
        × (length (collect ch mode ms f).candidates ≡ length f.candidates + length ms)
  unfolding collect
  collect-length [] f h = (h, omega arith)
  collect-length (m ∷ ms) f h =
      let (clean, count) = collect-length ms (note (candidate ch mode m) f) h in
      let (before, one) = note-length (candidate ch mode m) f clean in
      (before, omega (arith, count, one))

  abbrev nothing : Found
  nothing = record { candidates = []; malformed = false }

  -- One candidate and nothing malformed come from one match.
  collect-one :
      (ms : List Match) (t : Text)
      → (collect ch mode ms nothing).malformed ≡ false
      → (collect ch mode ms nothing).candidates ≡ t ∷ []
      → (m : Match) × (ms ≡ m ∷ []) × (candidate ch mode m ≡ some t)
  unfolding collect note
  collect-one [] t h e = absurd (omega (arith, ap length e))
  collect-one (m ∷ n ∷ ms) t h e =
      absurd (omega (arith, ap length e, (collect-length (m ∷ n ∷ ms) nothing h).1))
  collect-one (m ∷ []) t h e = (m, refl, note-one (candidate ch mode m) t h e)

module _ {F : Type 0} (ch : Characters F) (d : IsDigits ch) where
  candidate-IsCanonical :
      (mode : SeparatorMode) (m : Match) (t : Text)
      → candidate ch mode m ≡ some t
      → IsCanonical ch d t
  unfolding candidate
  candidate-IsCanonical mode m t h = elim (Bool-cases (holds is_separator m.before)) [
    | inl e ↦ let no_value : none ≡ some t = rw e at h in cc
    | inr e ↦ elim (Bool-cases (holds ch.is_alpha m.before || holds ch.is_alpha m.after)) [
      | inl g ↦ let no_value : none ≡ some t = rw g at (rw e at h) in cc
      | inr g ↦ interpret-IsCanonical ch d mode (strip_separators m.token) t (rw g at (rw e at h))
    ]
  ]

-- Why `v` is the value of a stripped text: the one number in it, in full, with no sign glyph refused.
pub record Accepted (fl : Floats) (ch : Characters fl.F) (d : IsDigits ch) (mode : SeparatorMode)
    (range : Option (fl.F × fl.F)) (precision : Option ℕ) (stripped v : Text) : Type 0 where
  pub match : Match
  pub canonical : Text
  pub allowed : sign_glyph_violation ch stripped ≡ false
  pub only : matches ch (idle none) (normalize_signs ch stripped).working ≡ match ∷ []
  pub read : candidate ch mode match ≡ some canonical
  pub value : v ≡ drop_plus canonical
  pub form : IsCanonical ch d v
  pub within_range : out_of_range fl ch range v ≡ false
  pub within_precision : too_precise precision v ≡ false

module _ (fl : Floats) (ch : Characters fl.F) (range : Option (fl.F × fl.F))
    (precision : Option ℕ) where
  conclude-ok :
      (s : Signs) (malformed : Bool) (cs : List Text)
      → (conclude fl ch range precision s malformed cs).parse_status ≡ ParseStatus.ok
      → (c : Text) × (cs ≡ c ∷ [])
        × (malformed ≡ false)
        × ((conclude fl ch range precision s malformed cs).normalized_value ≡ some (drop_plus c))
        × (out_of_range fl ch range (drop_plus c) ≡ false)
        × (too_precise precision (drop_plus c) ≡ false)
  unfolding conclude outcome unsigned_outcome
  conclude-ok s malformed (c ∷ d ∷ cs) h = cc
  conclude-ok s true [] h = cc
  conclude-ok s false [] h = cc
  conclude-ok s true (c ∷ []) h = cc
  conclude-ok s false (c ∷ []) h = elim (Bool-cases (too_precise precision (drop_plus c))) [
    | inl e ↦ let wrong : ParseStatus.malformed_number ≡ ParseStatus.ok = rw e at h in cc
    | inr e ↦ elim (Bool-cases (out_of_range fl ch range (drop_plus c))) [
      | inl g ↦ let wrong : ParseStatus.out_of_range ≡ ParseStatus.ok = rw g at (rw e at h) in cc
      | inr g ↦ (c, refl, refl, rw (e, g) refl, g, e)
    ]
  ]

module _ (fl : Floats) (ch : Characters fl.F) (d : IsDigits ch) where
  parse_stripped_unique :
      (mode : SeparatorMode) (range : Option (fl.F × fl.F)) (precision : Option ℕ) (text : Text)
      → (parse_stripped fl ch mode range precision text).parse_status ≡ ParseStatus.ok
      → (v : Text) × ((parse_stripped fl ch mode range precision text).normalized_value ≡ some v)
        × Accepted fl ch d mode range precision text v
  unfolding parse_stripped parse_signed outcome unsigned_outcome
  parse_stripped_unique mode range precision text h = elim (Bool-cases (is_empty text)) [
    | inl e ↦ let wrong : ParseStatus.no_number ≡ ParseStatus.ok = rw e at h in cc
    | inr e ↦ elim (Bool-cases (sign_glyph_violation ch text)) [
      | inl g ↦
          let wrong : ParseStatus.malformed_number ≡ ParseStatus.ok = rw g at (rw e at h) in cc
      | inr g ↦
          let s = normalize_signs ch text in
          let f =
            collect ch mode (matches ch (idle none) s.working)
              (record { candidates = []; malformed = false }) in
          let (c, one, clean, val, range_ok, precision_ok) =
            conclude-ok fl ch range precision s f.malformed f.candidates (rw g at (rw e at h)) in
          let (m, only, read) =
            collect-one ch mode (matches ch (idle none) s.working) c clean one in
          (
            drop_plus c,
            rw (e, g) val,
            record {
              match = m;
              canonical = c;
              allowed = g;
              only = only;
              read = read;
              value = refl;
              form = drop_plus-IsCanonical ch d c (candidate-IsCanonical ch d mode m c read);
              within_range = range_ok;
              within_precision = precision_ok;
            },
          )
    ]
  ]

  -- Where `parse_number` answers OK, the text has no refused sign glyph, the regular expression
  -- matches once in it, the value is the canonical form of that match without its plus (digits, with a
  -- minus or not, with a point and digits or not), and it is in the range and the precision asked for.
  pub parse_number_unique :
      (mode : SeparatorMode) (range : Option (fl.F × fl.F)) (precision : Option ℕ) (text : Text)
      → (parse_number fl ch mode range precision text).parse_status ≡ ParseStatus.ok
      → (v : Text) × ((parse_number fl ch mode range precision text).normalized_value ≡ some v)
        × Accepted fl ch d mode range precision (strip text) v
  unfolding parse_number
  parse_number_unique mode range precision text h =
      parse_stripped_unique mode range precision (strip text) h
