-- ===== src/Live/Parsing/Tests.antt =====
-- parsing.py: runs on concrete input. The characters are those of ASCII; a character is encoded in two
-- bytes.
use Prim.Native.Nat.{◌/◌}
use screen2xyz_civil_plan_di.Prelude.{
  ℕ, ◌*◌, ◌≡◌, refl, ap, ◌∙◌, none, some, true, false, ◌&&◌, ◌||◌, [], ◌∷◌, leb, arith,
}
use screen2xyz_civil_plan_di.Prelude.Samples.{whole_numbers}
use screen2xyz_civil_plan_di.Live.Status.{ParseStatus}
use screen2xyz_civil_plan_di.Live.Stability.{Bytes}
use screen2xyz_civil_plan_di.Live.Parsing.{Text, Characters, point, strip}
use screen2xyz_civil_plan_di.Live.Parsing.Numbers.{parse_number}
use screen2xyz_civil_plan_di.Live.Parsing.Canonical.{IsDigits}
use screen2xyz_civil_plan_di.Live.Parsing.Unique.{Accepted, parse_number_unique}
use screen2xyz_civil_plan_di.Live.Parsing.Bounds.{
  Utf8, IsUtf8, IsLongest, encode_all, is_continuation, bound_raw, bound_raw-IsLongest,
}

abbrev ascii : Characters ℕ
ascii = record {
  is_decimal = λ c. leb 48 c && leb c 57;
  is_digit = λ c. leb 48 c && leb c 57;
  is_alpha = λ c. (leb 65 c && leb c 90) || (leb 97 c && leb c 122);
  is_dash = λ c. false;
  names_sign = λ c. false;
  to_float = λ t. 0;
}

ascii-IsDigits : IsDigits ascii
ascii-IsDigits = record { comma = refl; point = refl; plus = refl; minus = refl }

-- " +1,234.5 m"
abbrev reading : Text
reading = 32 ∷ 43 ∷ 49 ∷ 44 ∷ 50 ∷ 51 ∷ 52 ∷ 46 ∷ 53 ∷ 32 ∷ 109 ∷ []

-- "1234.5"
reading-value :
    (parse_number whole_numbers ascii point none none reading).normalized_value
    ≡ some (49 ∷ 50 ∷ 51 ∷ 52 ∷ 46 ∷ 53 ∷ [])
unfolding parse_number
reading-value = refl

-- "12 13"
ambiguous :
    (parse_number whole_numbers ascii point none none (49 ∷ 50 ∷ 32 ∷ 49 ∷ 51 ∷ [])).parse_status
    ≡ ParseStatus.ambiguous_multiple_numbers
unfolding parse_number
ambiguous = refl

reading-ok :
    (parse_number whole_numbers ascii point none none reading).parse_status ≡ ParseStatus.ok
unfolding parse_number
reading-ok = refl

parse_number_unique_example :
    (v : Text) × ((parse_number whole_numbers ascii point none none reading).normalized_value
      ≡ some v)
    × Accepted whole_numbers ascii ascii-IsDigits point none none (strip reading) v
parse_number_unique_example =
    parse_number_unique whole_numbers ascii ascii-IsDigits point none none reading reading-ok

abbrev decode : Bytes → Text
decode [] = []
decode (b ∷ []) = []
decode (b ∷ c ∷ rest) = b / 256 ∷ decode rest

abbrev two_bytes : Utf8
two_bytes = record { encode = λ c. c * 256 ∷ 128 ∷ []; decode = decode }

decode-encode_all : (text : Text) → decode (encode_all two_bytes text) ≡ text
unfolding encode_all
decode-encode_all [] = refl
decode-encode_all (c ∷ rest) =
    let e : c * 256 / 256 ≡ c = omega arith in
    ap (λ x. x ∷ decode (encode_all two_bytes rest)) e ∙ ap (λ l. c ∷ l) (decode-encode_all rest)

lead-leads : (c : ℕ) → is_continuation (c * 256) ≡ false
unfolding is_continuation
lead-leads c = ground arith

continuation : is_continuation 128 ≡ true
unfolding is_continuation
continuation = refl

two_bytes-IsUtf8 : IsUtf8 two_bytes
two_bytes-IsUtf8 = record {
  lead = λ c. c * 256;
  rest = λ c. 128 ∷ [];
  parts = λ c. refl;
  leads = lead-leads;
  continues = λ c. (continuation, tt);
  decodes = decode-encode_all;
}

bound_raw-IsLongest_example :
    IsLongest two_bytes two_bytes-IsUtf8 4096 reading (bound_raw two_bytes reading)
bound_raw-IsLongest_example = bound_raw-IsLongest two_bytes two_bytes-IsUtf8 reading
