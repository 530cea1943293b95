-- ===== src/Live/Stability/Reports.antt =====
-- stability.py: the closed precedence that turns the reports of a tick into an event.
use screen2xyz_civil_plan_di.Prelude.{
  ◌≡◌, ◌⊎◌, String, Option, none, some, Bool, true, false, not, List, [], ◌∷◌, ◌++◌, arith, ◌&&◌,
  ◌||◌, ◌≢◌, is_some, if◌then◌else◌, refl, str_eq, any, is_empty,
}
use text.Mathlib.TextEquality.{path_by_compare}
use screen2xyz_civil_plan_di.Live.Status.{RetentionMode, retained_error, retained_diagnostic}
use screen2xyz_civil_plan_di.Live.Stability.Parts.{Work}
use screen2xyz_civil_plan_di.Live.Stability.Sorting.{insert_sorted, sorted_set}
use screen2xyz_civil_plan_di.Live.Stability.Tick.{
  decide, change_sources, moved_recoveries, is_changed_only,
}

abbrev pub mem : String → List String → Bool
mem x = any (λ y. str_eq x y)

mem-insert_sorted :
    (x y : String) (ys : List String) → mem x (insert_sorted y ys) ≡ str_eq x y || mem x ys
unfolding insert_sorted
mem-insert_sorted x y [] = refl
mem-insert_sorted x y (z ∷ zs) = ground (arith, mem-insert_sorted x y zs, path_by_compare y z)

mem-sorted_set : (x : String) (xs : List String) → mem x (sorted_set xs) ≡ mem x xs
unfolding sorted_set
mem-sorted_set x [] = refl
mem-sorted_set x (y ∷ ys) =
    ground (arith, mem-insert_sorted x y (sorted_set ys), mem-sorted_set x ys)

mem-append : (x : String) (xs ys : List String) → mem x (xs ++ ys) ≡ mem x xs || mem x ys
mem-append x [] ys = refl
mem-append x (y ∷ xs) ys = ground (arith, mem-append x xs ys)

is_empty-mem : (x : String) (xs : List String) → mem x xs ≡ true → is_empty xs ≡ false
is_empty-mem x [] h = cc
is_empty-mem x (y ∷ ys) h = refl

is_empty-append : (xs ys : List String) → is_empty (xs ++ ys) ≡ is_empty xs && is_empty ys
is_empty-append [] ys = refl
is_empty-append (x ∷ xs) ys = refl

module _ (mode : RetentionMode) (stable : List (String × String × Option String)) (w : Work) where
  -- A confirmed change is never lost: in every retention mode a changed source makes the tick an
  -- event, a retained error or a retained change, that names the source.
  pub decide_keeps_changes :
      (sid : String)
      → mem sid w.changed ≡ true
      → ((decide mode stable w).event_status ≢ none)
        × ((decide mode stable w).event_status ≢ some retained_diagnostic)
        × (mem sid (decide mode stable w).changed_source_ids ≡ true)
  unfolding decide change_sources
  decide_keeps_changes sid h =
      let more =
        if is_changed_only mode
        then moved_recoveries w.recoveries w.recovery_changed
        else w.recoveries in
      ground (
        arith,
        mem-sorted_set sid (w.changed ++ w.error_transitions),
        mem-sorted_set sid (w.changed ++ more),
        mem-append sid w.changed w.error_transitions,
        mem-append sid w.changed more,
        is_empty-append w.changed more,
        is_empty-mem sid w.changed h,
      )

  -- In every mode but `changed_only` an error transition makes the tick a retained error that names
  -- the source, whatever else happened in it.
  pub decide_keeps_errors :
      (sid : String)
      → is_changed_only mode ≡ false
      → mem sid w.error_transitions ≡ true
      → ((decide mode stable w).event_status ≡ some retained_error)
        × (mem sid (decide mode stable w).changed_source_ids ≡ true)
  unfolding decide
  decide_keeps_errors sid m h = ground (
    arith,
    mem-sorted_set sid (w.changed ++ w.error_transitions),
    mem-append sid w.changed w.error_transitions,
    is_empty-mem sid w.error_transitions h,
  )

  -- A tick is an event exactly when it gives a reason, and one that is no event saves no evidence,
  -- no crop and no source.
  pub decide_quiet :
      (is_some (decide mode stable w).event_status
        ≡ not (is_empty (decide mode stable w).retention_reason_codes))
      × ((is_some (decide mode stable w).event_status ≡ true)
          ⊎ ((decide mode stable w).evidence ≡ [])
            × ((decide mode stable w).crops_to_save ≡ [])
            × ((decide mode stable w).changed_source_ids ≡ []))
  unfolding decide
  decide_quiet = ground arith
