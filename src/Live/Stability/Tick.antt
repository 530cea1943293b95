-- ===== src/Live/Stability/Tick.antt =====
-- stability.py: `process_tick` over the observations of one tick, and the methods around it.
use screen2xyz_civil_plan_di.Prelude.{
  ℕ, String, Option, none, some, Bool, true, false, not, List, [], ◌∷◌, ◌++◌, ◌&&◌, is_empty,
  if◌then◌else◌,
}
use screen2xyz_civil_plan_di.Prelude.Floats.{Floats}
use screen2xyz_civil_plan_di.Live.Status.{
  RetentionMode, changed_only, every_tick, retained_change, retained_error, retained_diagnostic,
}
use screen2xyz_civil_plan_di.Live.Stability.{
  Bytes, Observation, Defaults, Slot, Engine, TickDecision, find_slot, put_slot,
}
use screen2xyz_civil_plan_di.Live.Stability.Parts.{
  Work, Context, get, or_default, or_else, release_candidate,
}
use screen2xyz_civil_plan_di.Live.Stability.Observe.{observe}
use screen2xyz_civil_plan_di.Live.Stability.Sorting.{sorted_set}

abbrev pub Observations : Type 0
Observations = List (String × Observation)

-- What the loop has reached, the observations mutated so far with the rest as they were.
pub record Loop (F : Type 0) : Type 0 where
  pub raised : Bool
  pub work : Work
  pub slots : List (Slot F)
  pub observations : Observations

abbrev pub no_work : ℕ → Work
no_work total = record {
  evidence_bytes = total;
  changed = [];
  error_transitions = [];
  recoveries = [];
  recovery_changed = [];
  evidence = [];
  crops = [];
}

module _ {F : Type 0} where
  -- `signature`
  unfoldable pub signature : List (Slot F) → List (String × String × Option String)
  signature [] = []
  signature (s ∷ rest) =
      if s.state.seeded
      then (s.source_id, s.state.stable_kind, s.state.stable_value) ∷ signature rest
      else signature rest

  -- `discard_all_candidates`
  unfoldable pub discard_candidates : ℕ → List (Slot F) → List (Slot F) × ℕ
  unfolding release_candidate
  discard_candidates total [] = ([], total)
  discard_candidates total (s ∷ rest) =
      let (state, left) = release_candidate total s.state in
      let (slots, end) = discard_candidates left rest in (record s { state = state } ∷ slots, end)

  unfoldable pub discard_all_candidates : Engine F → Engine F
  unfolding discard_candidates
  discard_all_candidates e =
      let (slots, total) = discard_candidates e.evidence_bytes e.slots in
      record e { slots = slots; evidence_bytes = total }

  -- `snapshot_state`: a deep copy of `_state`, and `_evidence_bytes`.
  unfoldable pub snapshot_state : Engine F → List (Slot F) × ℕ
  snapshot_state e = (e.slots, e.evidence_bytes)

  -- `restore_state`, of a snapshot that is not restored again: the source takes the object itself
  unfoldable pub restore_state : Engine F → List (Slot F) × ℕ → Engine F
  restore_state e (slots, total) = record e { slots = slots; evidence_bytes = total }

abbrev pub is_changed_only : RetentionMode → Bool
is_changed_only changed_only = true
is_changed_only _ = false

abbrev pub is_every_tick : RetentionMode → Bool
is_every_tick every_tick = true
is_every_tick _ = false

-- `[sid for sid in recoveries if recovery_changed.get(sid)]`
unfoldable pub moved_recoveries : List String → List (String × Bool) → List String
unfolding get
moved_recoveries [] moved = []
moved_recoveries (sid ∷ rest) moved =
    if or_default (get sid moved) false
    then sid ∷ moved_recoveries rest moved
    else moved_recoveries rest moved

-- `change_sources` and `reason_codes` after the block `if recoveries`.
unfoldable pub change_sources : RetentionMode → Work → List String
unfolding moved_recoveries
change_sources mode w =
    w.changed
    ++ (if is_changed_only mode
        then moved_recoveries w.recoveries w.recovery_changed
        else w.recoveries)

unfoldable pub change_reasons : RetentionMode → Work → List String
unfolding moved_recoveries
change_reasons mode w =
    let stable = if is_empty w.changed then [] else "STABLE_CHANGE" ∷ [] in
    if is_empty w.recoveries
    then stable
    else if is_changed_only mode
    then (if not (is_empty (moved_recoveries w.recoveries w.recovery_changed)) && is_empty w.changed
        then "STABLE_CHANGE" ∷ []
        else stable)
    else stable ++ "ERROR_RECOVERED" ∷ []

-- The closed precedence at the end of `process_tick`: error, change, diagnostic, nothing.
unfoldable pub decide : RetentionMode → List (String × String × Option String) → Work → TickDecision
unfolding change_sources change_reasons sorted_set
decide mode stable w =
    let base : TickDecision = record {
      event_status = none;
      changed_source_ids = [];
      retention_reason_codes = [];
      stable_signature = stable;
      evidence = w.evidence;
      crops_to_save = w.crops;
    } in
    if not (is_empty w.error_transitions) && not (is_changed_only mode)
    then record base {
      event_status = some retained_error;
      changed_source_ids = sorted_set (w.changed ++ w.error_transitions);
      retention_reason_codes =
          "ERROR_TRANSITION" ∷ (if is_empty w.changed then [] else "STABLE_CHANGE" ∷ []);
    }
    else if not (is_empty (change_sources mode w))
    then record base {
      event_status = some retained_change;
      changed_source_ids = sorted_set (change_sources mode w);
      retention_reason_codes =
          if is_empty (change_reasons mode w) then "STABLE_CHANGE" ∷ [] else change_reasons mode w;
    }
    else if is_every_tick mode
    then record base {
      event_status = some retained_diagnostic;
      retention_reason_codes = "DIAGNOSTIC_TICK" ∷ [];
    }
    else record base { crops_to_save = []; evidence = [] }

module _ (fl : Floats) where
  open fl use {F}

  -- `_confirmations`, `_debounce` and `_threshold` of a source, with the frame, time and crop.
  unfoldable pub context : Defaults F → String → F → List (String × Bytes) → Slot F → Context F
  unfolding get
  context d frame now crops s = record {
    source_id = s.source_id;
    confirmations = or_default s.config.confirmations d.confirmations;
    debounce = or_default s.config.debounce_ms d.debounce_ms;
    threshold = or_else s.config.min_change_threshold d.min_change_threshold;
    frame_id = frame;
    now = now;
    crop = get s.source_id crops;
  }

  -- The loop; a source id that is not configured is passed over.
  unfoldable pub observe_all :
      Defaults F → String → F → List (String × Bytes) → Observations → Work → List (Slot F) → Loop F
  observe_all d frame now crops [] w slots = record {
    raised = false;
    work = w;
    slots = slots;
    observations = [];
  }
  observe_all d frame now crops ((sid, obs) ∷ rest) w slots = elim (find_slot sid slots) [
    | none ↦
        let next = observe_all d frame now crops rest w slots in
        record next { observations = (sid, obs) ∷ next.observations }
    | some s ↦
        let p = observe fl (context d frame now crops s) w s.state obs in
        let slots' = put_slot (record s { state = p.state }) slots in
        let next = observe_all d frame now crops rest p.work slots' in
        if p.raised
        then record {
          raised = true;
          work = p.work;
          slots = slots';
          observations = (sid, p.obs) ∷ rest;
        }
        else record next { observations = (sid, p.obs) ∷ next.observations }
  ]

  -- `process_tick`: the engine, the mutated observations, and the decision unless it raised.
  unfoldable pub process_tick :
      Engine F
      → Observations
      → String
      → F
      → List (String × Bytes)
      → Engine F × Observations × Option TickDecision
  process_tick e observations frame now crops =
      let l =
        observe_all e.defaults frame now crops observations (no_work e.evidence_bytes) e.slots in
      (
        record e { slots = l.slots; evidence_bytes = l.work.evidence_bytes },
        l.observations,
        if l.raised then none else some (decide e.retention_mode (signature l.slots) l.work),
      )
