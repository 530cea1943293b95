-- ===== src/Civil/Workflow/Gate.antt =====
-- workflow.py: approved points and what the exports need of them.
pub mod Writes
pub mod Edits
pub mod Points
pub mod Project
pub mod Drawing
pub mod Commands
pub mod Calls
use screen2xyz_civil_plan_di.Prelude.{
  ◌≡◌, ◌⊎◌, refl, Option, none, some, Bool, true, false, String, List, [], ◌∷◌, ◌++◌, arith, All,
  All-append, All-map, is_some, str_eq, eq_iff, if◌then◌else◌, Bool-cases, inl, inr, ◌&&◌, map,
  subst, sym,
}
use screen2xyz_civil_plan_di.Civil.Vocabulary.{ReviewStatus, is_approved}
use screen2xyz_civil_plan_di.Civil.Model.{CivilPoint, approved, terrain_relevant}
use screen2xyz_civil_plan_di.Civil.Workflow.{find_point, update_point, remove_point}
use screen2xyz_civil_plan_di.Civil.Workflow.Triple.{OnPoints}

-- An approved point is of a terrain class and has local coordinates.
abbrev pub IsReady : {F : Type 0} → CivilPoint F → Type 0
IsReady p =
    (approved p ≡ false)
    ⊎ (terrain_relevant p ≡ true) × (is_some p.local_east ≡ true) × (is_some p.local_north ≡ true)

abbrev from_some : {A : Type 0} → A → Option A → A
from_some a none = a
from_some a (some b) = b

abbrev pub AllReady : {F : Type 0} → OnPoints F
AllReady ps = All IsReady ps

-- All points are ready but perhaps the first one of an id, which a method is writing to.
abbrev pub ReadyBut : {F : Type 0} → String → OnPoints F
ReadyBut i [] = Unit
ReadyBut i (p ∷ ps) = if str_eq p.id i then All IsReady ps else IsReady p × ReadyBut i ps

module _ {F : Type 0} where
  pub AllReady-ReadyBut : (i : String) (ps : List (CivilPoint F)) → AllReady ps → ReadyBut i ps
  AllReady-ReadyBut i [] h = tt
  AllReady-ReadyBut i (p ∷ ps) h = elim (Bool-cases (str_eq p.id i)) [
    | inl e ↦ rw e h.1
    | inr e ↦ rw e (h.0, AllReady-ReadyBut i ps h.1)
  ]

  pub ReadyBut-update_point :
      (i : String) (f : CivilPoint F → CivilPoint F)
      → ((p : CivilPoint F) → (f p).id ≡ p.id)
      → (ps : List (CivilPoint F)) → ReadyBut i ps
      → ReadyBut i (update_point i f ps)
  unfolding update_point
  ReadyBut-update_point i f same [] h = tt
  ReadyBut-update_point i f same (p ∷ ps) h = elim (Bool-cases (str_eq p.id i)) [
    | inl e ↦ rw e (rw (same p) (rw e (rw e at h)))
    | inr e ↦
        let (ready, rest) = rw e at h in rw e (rw e (ready, ReadyBut-update_point i f same ps rest))
  ]

  -- Once the written point is ready, all are.
  pub AllReady-update_point :
      (i : String) (f : CivilPoint F → CivilPoint F)
      → ((p : CivilPoint F) → IsReady (f p))
      → (ps : List (CivilPoint F)) → ReadyBut i ps
      → AllReady (update_point i f ps)
  unfolding update_point
  AllReady-update_point i f ready [] h = tt
  AllReady-update_point i f ready (p ∷ ps) h = elim (Bool-cases (str_eq p.id i)) [
    | inl e ↦ rw e (ready p, (rw e at h))
    | inr e ↦ let (first, rest) = rw e at h in rw e (first, AllReady-update_point i f ready ps rest)
  ]

  IsReady-same :
      (f : CivilPoint F → CivilPoint F) (q p : CivilPoint F)
      → some p ≡ some q
      → IsReady (f q)
      → IsReady (f p)
  IsReady-same f q p e h = subst (λ o. IsReady (f (from_some p o))) (sym e) h

  -- The write of a point that was found.
  pub AllReady-update_found :
      (i : String) (f : CivilPoint F → CivilPoint F) (q : CivilPoint F)
      → IsReady (f q)
      → (ps : List (CivilPoint F)) → AllReady ps
      → find_point i ps ≡ some q
      → AllReady (update_point i f ps)
  unfolding update_point find_point
  AllReady-update_found i f q ready [] h e = tt
  AllReady-update_found i f q ready (p ∷ ps) h e = elim (Bool-cases (str_eq p.id i)) [
    | inl t ↦ rw t (IsReady-same f q p (rw t at e) ready, h.1)
    | inr t ↦ rw t (h.0, AllReady-update_found i f q ready ps h.1 (rw t at e))
  ]

  pub AllReady-remove_point :
      (i : String) (ps : List (CivilPoint F)) → AllReady ps → AllReady (remove_point i ps)
  unfolding remove_point
  AllReady-remove_point i [] h = tt
  AllReady-remove_point i (p ∷ ps) h = elim (Bool-cases (str_eq p.id i)) [
    | inl e ↦ rw e h.1
    | inr e ↦ rw e (h.0, AllReady-remove_point i ps h.1)
  ]

  -- A write that keeps every ready point ready.
  pub AllReady-update_keeps :
      (i : String) (f : CivilPoint F → CivilPoint F)
      → ((p : CivilPoint F) → IsReady p → IsReady (f p))
      → (ps : List (CivilPoint F)) → AllReady ps
      → AllReady (update_point i f ps)
  unfolding update_point
  AllReady-update_keeps i f keeps [] h = tt
  AllReady-update_keeps i f keeps (p ∷ ps) h = elim (Bool-cases (str_eq p.id i)) [
    | inl e ↦ rw e (keeps p h.0, h.1)
    | inr e ↦ rw e (h.0, AllReady-update_keeps i f keeps ps h.1)
  ]
