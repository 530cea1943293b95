-- ===== src/Civil/Json.antt =====
-- The values that civil/models.py reads and writes (`dict[str, Any]`), and the built-in conversions
-- `str`, `float`, `int`, `bool`, `list` and `dict` that `from_dict` applies to them. `none` is a
-- raise (KeyError, TypeError or ValueError). A dictionary is its items in order.
pub mod Laws
use Prim.Native.String.{[] as empty_text, ◌∷◌ as cons_char}
use screen2xyz_civil_plan_di.Prelude.{
  ℕ, zero, suc, String, Option, none, some, Bool, true, false, not, List, [], ◌∷◌, str_eq,
  if◌then◌else◌,
}
use screen2xyz_civil_plan_di.Prelude.Int.{ℤ, pos, negsuc}
use screen2xyz_civil_plan_di.Prelude.Floats.{Floats, of_int}

mutual
  pub data Value (F : Type 0) : Type 0 where
    null : Value F
    bool : Bool → Value F
    int : ℤ → Value F
    float : F → Value F
    str : String → Value F
    arr : Items F → Value F
    obj : Fields F → Value F

  pub data Items (F : Type 0) : Type 0 where
    nil : Items F
    cons : Value F → Items F → Items F

  pub data Fields (F : Type 0) : Type 0 where
    end : Fields F
    field : String → Value F → Fields F → Fields F

infixl 5 ◌>>=◌
abbrev pub ◌>>=◌ {ℓ κ} : {A : Type ℓ} {B : Type κ} → Option A → (A → Option B) → Option B
none >>= f = none
some a >>= f = f a

module _ {F : Type 0} where
  abbrev pub items : List (Value F) → Items F
  items [] = nil
  items (x ∷ xs) = cons x (items xs)

  abbrev pub list_of : Items F → List (Value F)
  list_of nil = []
  list_of (cons x xs) = x ∷ list_of xs

  abbrev pub list : List (Value F) → Value F
  list xs = arr (items xs)

  abbrev pub record_of : List (String × Value F) → Fields F
  record_of [] = end
  record_of ((k, v) ∷ rest) = field k v (record_of rest)

  abbrev pub dict : List (String × Value F) → Value F
  dict fs = obj (record_of fs)

  -- `d.get(k)` of a dictionary's items, `none` for a missing key
  unfoldable pub lookup : String → Fields F → Option (Value F)
  lookup k end = none
  lookup k (field j v rest) = if str_eq j k then some v else lookup k rest

  -- `value[k]`, `none` for KeyError or a value that is no dictionary
  unfoldable pub item : String → Value F → Option (Value F)
  unfolding lookup
  item k (obj fs) = lookup k fs
  item k _ = none

  unfoldable pub or_value : Option (Value F) → Value F → Value F
  or_value none d = d
  or_value (some v) d = v

  -- `value.get(k, d)`; `none` where `value` has no method `get`
  unfoldable pub get : String → Value F → Value F → Option (Value F)
  unfolding lookup or_value
  get k d (obj fs) = some (or_value (lookup k fs) d)
  get k d _ = none

  -- `None if v is None else f(v)`
  unfoldable pub optional : {A : Type 0} → (Value F → Option A) → Value F → Option (Option A)
  optional f null = some none
  optional f v = do a ← f v; some (some a)

  -- `[f(v) for v in values]`
  unfoldable pub each {ℓ} : {A : Type ℓ} → (Value F → Option A) → Items F → Option (List A)
  each f nil = some []
  each f (cons v rest) = do a ← f v; bs ← each f rest; some (a ∷ bs)

  -- `None if x is None else x.to_dict()`
  unfoldable pub or_null {ℓ} : {A : Type ℓ} → (A → Value F) → Option A → Value F
  or_null f none = null
  or_null f (some a) = f a

  unfoldable pub keys : Fields F → Items F
  keys end = nil
  keys (field k v rest) = cons (str k) (keys rest)

  unfoldable pub characters : String → Items F
  characters empty_text = nil
  characters (cons_char c rest) = cons (str (cons_char c empty_text)) (characters rest)

  -- `list(value)`, and what `for x in value` goes through
  unfoldable pub as_list : Value F → Option (Items F)
  unfolding keys characters
  as_list (arr xs) = some xs
  as_list (obj fs) = some (keys fs)
  as_list (str s) = some (characters s)
  as_list _ = none

  -- `dict(value)` of a dictionary; a list of pairs is not modelled and raises here
  unfoldable pub as_dict : Value F → Option (Fields F)
  as_dict (obj fs) = some fs
  as_dict _ = none

module _ (fl : Floats) where
  open fl use {F, of_nat, parse, parse_int, truncate, eq}

  unfoldable pub as_float : Value F → Option F
  as_float (float x) = some x
  as_float (int n) = some (of_int fl n)
  as_float (bool b) = some (of_nat (if b then 1 else 0))
  as_float (str s) = parse s
  as_float _ = none

  unfoldable pub as_int : Value F → Option ℤ
  as_int (int n) = some n
  as_int (float x) = truncate x
  as_int (bool b) = some (pos (if b then 1 else 0))
  as_int (str s) = parse_int s
  as_int _ = none

  -- `bool(value)`
  unfoldable pub truthy : Value F → Bool
  truthy null = false
  truthy (bool b) = b
  truthy (int (pos zero)) = false
  truthy (int _) = true
  truthy (float x) = not (eq x (of_nat 0))
  truthy (str s) = not (str_eq s "")
  truthy (arr nil) = false
  truthy (arr (cons _ _)) = true
  truthy (obj end) = false
  truthy (obj (field _ _ _)) = true

-- `str(value)`; `repr` is what it makes of a value that is no text.
unfoldable pub as_str : {F : Type 0} → (Value F → String) → Value F → String
as_str repr (str s) = s
as_str repr v = repr v
