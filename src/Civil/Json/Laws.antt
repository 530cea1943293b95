-- ===== src/Civil/Json/Laws.antt =====
-- civil/models.py: reading back what was written, part by part.
use screen2xyz_civil_plan_di.Prelude.{◌≡◌, refl, Option, none, some, List, [], ◌∷◌, map, All}
use screen2xyz_civil_plan_di.Prelude.Int.{ℤ}
use screen2xyz_civil_plan_di.Prelude.Floats.{Floats}
use screen2xyz_civil_plan_di.Civil.Json.{
  Value, int, float, items, list_of, optional, or_null, each, as_float, as_int,
}

module _ {F : Type 0} where
  pub list_of-items : (xs : List (Value F)) → list_of (items xs) ≡ xs
  list_of-items [] = refl
  list_of-items (x ∷ xs) = rw (list_of-items xs)

module _ {F : Type 0} {A : Type 0} (read : Value F → Option A) (write : A → Value F) where
  -- Each item that reads back alone reads back in a list.
  pub each-items :
      (xs : List A)
      → All (λ a. read (write a) ≡ some a) xs
      → each read (items (map write xs)) ≡ some xs
  unfolding each
  each-items [] h = refl
  each-items (x ∷ xs) h = simp (h.0, each-items xs h.1)

module _ (fl : Floats) where
  pub optional-float : (o : Option fl.F) → optional (as_float fl) (or_null float o) ≡ some o
  unfolding optional or_null as_float
  optional-float none = refl
  optional-float (some x) = refl

  pub optional-int : (o : Option ℤ) → optional (as_int fl) (or_null int o) ≡ some o
  unfolding optional or_null as_int
  optional-int none = refl
  optional-int (some x) = refl
