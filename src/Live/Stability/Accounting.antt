-- ===== src/Live/Stability/Accounting.antt =====
-- stability.py: the evidence buffer (`_evidence_bytes`) over whole ticks and sequences of calls.
use screen2xyz_civil_plan_di.Prelude.{
  ℕ, ◌+◌, ◌-◌, ◌≤◌, sym, ◌≡◌, String, some, List, [], ◌∷◌, arith, Option-cases, Bool-cases, inl,
  inr, refl, eq_iff,
}
use screen2xyz_civil_plan_di.Prelude.Floats.{Floats}
use screen2xyz_civil_plan_di.Live.Status.{RetentionMode}
use screen2xyz_civil_plan_di.Live.Stability.{
  Bytes, Observation, Defaults, Slot, Source, Engine, find_slot, put_slot, new_engine, slots_of,
  fresh_state,
}
use screen2xyz_civil_plan_di.Live.Stability.Parts.{Work, aggregate_crop_max_bytes, held}
use screen2xyz_civil_plan_di.Live.Stability.Observe.{observe}
use screen2xyz_civil_plan_di.Live.Stability.Buffer.{observe-Balanced}
use screen2xyz_civil_plan_di.Live.Stability.Tick.{
  Observations, no_work, context, observe_all, process_tick, discard_candidates,
  discard_all_candidates, snapshot_state, restore_state,
}

module _ {F : Type 0} where
  -- What the pending candidates of all sources hold.
  abbrev pub total_held : List (Slot F) → ℕ
  total_held [] = 0
  total_held (s ∷ rest) = held s.state.candidate + total_held rest

  pub held-le-total :
      (sid : String) (slots : List (Slot F)) (s : Slot F)
      → find_slot sid slots ≡ some s
      → held s.state.candidate ≤ total_held slots
  unfolding find_slot
  held-le-total sid [] s h = cc
  held-le-total sid (t ∷ rest) s h = ground (arith, held-le-total sid rest s)

  pub source_id-find_slot :
      (sid : String) (slots : List (Slot F)) (s : Slot F)
      → find_slot sid slots ≡ some s
      → s.source_id ≡ sid
  unfolding find_slot
  source_id-find_slot sid [] s h = cc
  source_id-find_slot sid (t ∷ rest) s h =
      ground (arith, source_id-find_slot sid rest s, eq_iff t.source_id sid)

  pub total_held-put_slot :
      (sid : String) (slots : List (Slot F)) (s t : Slot F)
      → find_slot sid slots ≡ some s
      → t.source_id ≡ sid
      → total_held (put_slot t slots) + held s.state.candidate
        ≡ total_held slots + held t.state.candidate
  unfolding find_slot put_slot
  total_held-put_slot sid [] s t h e = cc
  total_held-put_slot sid (r ∷ rest) s t h e = ground (
    arith,
    total_held-put_slot sid rest s t,
    eq_iff r.source_id sid,
    eq_iff r.source_id t.source_id,
  )

-- The buffer's total `t` is what the slots hold, and within the limit.
pub record Accounted {F : Type 0} (t : ℕ) (slots : List (Slot F)) : Type 0 where
  pub exact : t ≡ total_held slots
  pub within : t ≤ aggregate_crop_max_bytes

abbrev pub IsAccounted : {F : Type 0} → Engine F → Type 0
IsAccounted e = Accounted e.evidence_bytes e.slots

module _ (fl : Floats) (d : Defaults fl.F) (frame : String) (now : fl.F)
    (crops : List (String × Bytes)) where
  put_slot-Accounted :
      (sid : String) (obs : Observation) (w : Work) (slots : List (Slot fl.F)) (s : Slot fl.F)
      → find_slot sid slots ≡ some s
      → Accounted w.evidence_bytes slots
      → let p = observe fl (context fl d frame now crops s) w s.state obs in
        Accounted p.work.evidence_bytes (put_slot (record s { state = p.state }) slots)
  put_slot-Accounted sid obs w slots s found h =
      let p = observe fl (context fl d frame now crops s) w s.state obs in
      let b =
        observe-Balanced fl (context fl d frame now crops s) w s.state obs
          (omega (arith, held-le-total sid slots s found, h.exact)) in
      record {
        exact = omega (
          arith,
          b.exact,
          h.exact,
          total_held-put_slot sid slots s (record s { state = p.state }) found
              (source_id-find_slot sid slots s found),
        );
        within = b.within h.within;
      }

  observe_all-Accounted :
      (observations : Observations) (w : Work) (slots : List (Slot fl.F))
      → Accounted w.evidence_bytes slots
      → let l = observe_all fl d frame now crops observations w slots in
        Accounted l.work.evidence_bytes l.slots
  unfolding observe_all
  observe_all-Accounted [] w slots h = h
  observe_all-Accounted ((sid, obs) ∷ rest) w slots h = elim (Option-cases (find_slot sid slots)) [
    | inl e ↦ rw (e, observe_all) (observe_all-Accounted rest w slots h)
    | inr (s, e) ↦
        let p = observe fl (context fl d frame now crops s) w s.state obs in
        let slots' = put_slot (record s { state = p.state }) slots in
        let stop = put_slot-Accounted sid obs w slots s e h in
        let go_on = observe_all-Accounted rest p.work slots' stop in
        elim (Bool-cases p.raised) [
          | inl r ↦ rw (e, observe_all) (rw r stop)
          | inr r ↦ rw (e, observe_all) (rw r go_on)
        ]
  ]

process_tick-IsAccounted :
    (fl : Floats) (e : Engine fl.F) (observations : Observations) (frame : String) (now : fl.F)
    (crops : List (String × Bytes))
    → IsAccounted e
    → IsAccounted (process_tick fl e observations frame now crops).0
unfolding process_tick
process_tick-IsAccounted fl e observations frame now crops h =
    observe_all-Accounted fl e.defaults frame now crops observations (no_work e.evidence_bytes)
      e.slots h

module _ {F : Type 0} where
  total_held-discard_candidates :
      (t : ℕ) (slots : List (Slot F))
      → t ≡ total_held slots
      → let r = discard_candidates t slots in (r.1 ≡ 0) × (total_held r.0 ≡ 0)
  unfolding discard_candidates held
  total_held-discard_candidates t [] h = omega arith
  total_held-discard_candidates t (s ∷ rest) h =
      let left = t - held s.state.candidate in
      omega (arith, total_held-discard_candidates left rest (omega arith))

  discard_all_candidates-IsAccounted :
      (e : Engine F) → IsAccounted e → IsAccounted (discard_all_candidates e)
  unfolding discard_all_candidates
  discard_all_candidates-IsAccounted e h =
      omega (arith, total_held-discard_candidates e.evidence_bytes e.slots h.exact)

  total_held-put_slot_zero :
      (t : Slot F) (slots : List (Slot F))
      → held t.state.candidate ≡ 0
      → total_held slots ≡ 0
      → total_held (put_slot t slots) ≡ 0
  unfolding put_slot
  total_held-put_slot_zero t [] h z = omega arith
  total_held-put_slot_zero t (s ∷ rest) h z = ground (arith, total_held-put_slot_zero t rest h)

  total_held-slots_of :
      (acc : List (Slot F)) (sources : List (Source F))
      → total_held acc ≡ 0
      → total_held (slots_of acc sources) ≡ 0
  unfolding slots_of held
  total_held-slots_of acc [] z = z
  total_held-slots_of acc (s ∷ rest) z = elim (Bool-cases s.enabled) [
    | inl e ↦
        let t : Slot F = record {
          source_id = s.source_id;
          config = s.config;
          state = fresh_state;
        } in
        rw e (total_held-slots_of (put_slot t acc) rest (total_held-put_slot_zero t acc refl z))
    | inr e ↦ rw e (total_held-slots_of acc rest z)
  ]

  new_engine-IsAccounted :
      (sources : List (Source F)) (d : Defaults F) (mode : RetentionMode)
      → IsAccounted (new_engine sources d mode)
  unfolding new_engine
  new_engine-IsAccounted sources d mode = record {
    exact = sym (total_held-slots_of [] sources refl);
    within = omega arith;
  }

-- The engines that the methods reach: ticks, discards, and the restore of a snapshot that was taken
-- of any engine reached before.
pub data Reach (fl : Floats) (start : Engine fl.F) : Engine fl.F → Type 0 where
  here : Reach fl start start
  tick :
      {e : Engine fl.F}
      → Reach fl start e
      → (observations : Observations) (frame : String) (now : fl.F) (crops : List (String × Bytes))
      → Reach fl start (process_tick fl e observations frame now crops).0
  discard : {e : Engine fl.F} → Reach fl start e → Reach fl start (discard_all_candidates e)
  restore :
      {e past : Engine fl.F}
      → Reach fl start e
      → Reach fl start past
      → Reach fl start (restore_state e (snapshot_state past))

restore_state-IsAccounted :
    {F : Type 0} (e past : Engine F)
    → IsAccounted past
    → IsAccounted (restore_state e (snapshot_state past))
unfolding restore_state snapshot_state
restore_state-IsAccounted e past h = h

Reach-IsAccounted :
    (fl : Floats) (start : Engine fl.F) {e : Engine fl.F}
    → Reach fl start e
    → IsAccounted start
    → IsAccounted e
Reach-IsAccounted fl start here h = h
Reach-IsAccounted fl start (tick r observations frame now crops) h =
    process_tick-IsAccounted fl _ observations frame now crops (Reach-IsAccounted fl start r h)
Reach-IsAccounted fl start (discard r) h =
    discard_all_candidates-IsAccounted _ (Reach-IsAccounted fl start r h)
Reach-IsAccounted fl start (restore r p) h =
    restore_state-IsAccounted _ _ (Reach-IsAccounted fl start p h)

-- In every engine that ticks (also those that raise), discards and restored snapshots reach from a
-- new engine, `_evidence_bytes` is exactly what the pending candidates hold, and is at most
-- AGGREGATE_CROP_MAX_BYTES.
pub evidence_accounted :
    (fl : Floats) (sources : List (Source fl.F)) (d : Defaults fl.F) (mode : RetentionMode)
    {e : Engine fl.F}
    → Reach fl (new_engine sources d mode) e
    → (e.evidence_bytes ≡ total_held e.slots) × (e.evidence_bytes ≤ aggregate_crop_max_bytes)
evidence_accounted fl sources d mode r =
    let h = Reach-IsAccounted fl _ r (new_engine-IsAccounted sources d mode) in (h.exact, h.within)
