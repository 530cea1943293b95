-- ===== src/Live/Stability/Sorting.antt =====
-- Python's `sorted(set(names))` over texts.
use Prim.Native.Nat.{Ordering}
use Prim.Native.String.{compare}
use screen2xyz_civil_plan_di.Prelude.{String, List, [], ◌∷◌}

unfoldable pub insert_sorted : String → List String → List String
insert_sorted x [] = x ∷ []
insert_sorted x (y ∷ ys) = elim (compare x y) [
  | Ordering.lt ↦ x ∷ y ∷ ys
  | Ordering.eq ↦ y ∷ ys
  | Ordering.gt ↦ y ∷ insert_sorted x ys
]

unfoldable pub sorted_set : List String → List String
unfolding insert_sorted
sorted_set [] = []
sorted_set (x ∷ xs) = insert_sorted x (sorted_set xs)
