-- ===== src/Live/Scheduler/Answers.antt =====
-- scheduler.py: every missed deadline is a tick or a skip, and the inner loop ends.
use native.Mathlib.Nat.{suc-mul, add-mul, zero-add}
use screen2xyz_civil_plan_di.Prelude.{
  ℕ, zero, suc, ◌+◌, ◌-◌, ◌*◌, ◌≤◌, ◌<◌, ◌≡◌, ◌≢◌, refl, sym, ◌∙◌, ap, subst, Option, none, some,
  Bool, true, false, not, ◌&&◌, List, [], ◌∷◌, leb, ltb, length, All, arith, Bool-cases,
  Option-cases, inl, inr, leb→le, is_some,
}
use screen2xyz_civil_plan_di.Live.Scheduler.{
  Scheduler, Call, tick, tick_done, Step, poll, dispatch, complete, pause, resume, stop, acquire,
  release, catch_up, skips, started, caught, poll_step, dispatch_step, step, run,
}
use screen2xyz_civil_plan_di.Live.Scheduler.Deadlines.{answers, answers-append, skips-counts}

-- The step does not stop or pause the scheduler, and the clock does not go back between the reading of a
-- `poll` and the first of its loop.
abbrev pub goes_on : Step → Bool
goes_on (poll now (t ∷ ts)) = leb now t
goes_on pause = false
goes_on stop = false
goes_on _ = true

abbrev pub pending : Option ℕ → ℕ
pending none = 0
pending (some m) = m

-- The loop ends with a deadline that is as many intervals later as it counted.
catch_up-count :
    (interval deadline m : ℕ) (ts : List ℕ) (d n : ℕ)
    → catch_up interval deadline m ts ≡ some (d, n)
    → (k : ℕ) × (n ≡ m + k) × (d ≡ deadline + k * interval)
unfolding catch_up
catch_up-count interval deadline m [] d n h = cc
catch_up-count interval deadline m (t ∷ ts) d n h = elim (Bool-cases (leb deadline t)) [
  | inl e ↦
      let (k, count, late) =
        catch_up-count interval (deadline + interval) (m + 1) ts d n (rw e at h) in
      (suc k, omega (arith, count), omega (arith, late, suc-mul k interval))
  | inr e ↦
      let same : some (deadline, m) ≡ some (d, n) = rw e at h in
      let pair : ◌≡◌ {A = ℕ × ℕ} (deadline, m) (d, n) = cc in
      (0, omega (arith, ap (λ (p : ℕ × ℕ). p.1) pair), omega (arith, ap (λ (p : ℕ × ℕ). p.0) pair))
]

catch_up-first :
    (interval deadline m t : ℕ) (ts : List ℕ) (d n : ℕ)
    → leb deadline t ≡ true
    → catch_up interval deadline m (t ∷ ts) ≡ some (d, n)
    → m < n
unfolding catch_up
catch_up-first interval deadline m t ts d n e h =
    let (k, count, late) =
      catch_up-count interval (deadline + interval) (m + 1) ts d n (rw e at h) in
    omega (arith, count)

-- What a step adds: `k` deadlines pass, and each is answered or stays to be dispatched.
record Serves (s : Scheduler) (r : Scheduler × List Call) : Type 0 where
  k : ℕ
  running : r.0.running ≡ true
  stopped : r.0.stopped ≡ false
  interval : r.0.interval ≡ s.interval
  deadline : r.0.deadline ≡ s.deadline + k * s.interval
  answered : answers r.1 + pending r.0.missed ≡ pending s.missed + k
  positive : r.0.missed ≢ some 0

-- The loop goes on, and what waits is at least one deadline.
record IsServing (s : Scheduler) : Type 0 where
  running : s.running ≡ true
  stopped : s.stopped ≡ false
  positive : s.missed ≢ some 0

Serves-still : (s : Scheduler) → IsServing s → Serves s (s, [])
Serves-still s h = record {
  k = 0;
  running = h.running;
  stopped = h.stopped;
  interval = refl;
  deadline = omega arith;
  answered = omega arith;
  positive = h.positive;
}

caught-Serves :
    (now : ℕ) (readings : List ℕ) (s : Scheduler) (d n : ℕ)
    → goes_on (poll now readings) ≡ true
    → ltb now s.deadline ≡ false
    → IsServing s
    → s.missed ≡ none
    → catch_up s.interval s.deadline 0 readings ≡ some (d, n)
    → Serves s (record s { deadline = d; missed = some n }, [])
unfolding catch_up
caught-Serves now [] s d n g late h e found = cc
caught-Serves now (t ∷ ts) s d n g late h e found =
    let (k, count, later) = catch_up-count s.interval s.deadline 0 (t ∷ ts) d n found in
    let many : 0 < n =
      catch_up-first s.interval s.deadline 0 t ts d n (ground (arith, late, g)) found in
    record {
      k = k;
      running = h.running;
      stopped = h.stopped;
      interval = refl;
      deadline = later;
      answered = rw e (omega (arith, count));
      positive = λ z. absurd (omega (arith, many, ap pending z));
    }

poll_step-Serves :
    (now : ℕ) (readings : List ℕ) (s : Scheduler)
    → goes_on (poll now readings) ≡ true
    → IsServing s
    → s.missed ≡ none
    → Serves s (poll_step now readings s, [])
unfolding poll_step caught
poll_step-Serves now readings s g h e = elim (Bool-cases (ltb now s.deadline)) [
  | inl early ↦ simp (h.stopped, early) (Serves-still s h)
  | inr late ↦ elim (Option-cases (catch_up s.interval s.deadline 0 readings)) [
    | inl none_yet ↦ simp (h.stopped, late, none_yet) (Serves-still s h)
    | inr ((d, n), found) ↦
        let path : poll_step now readings s ≡ record s { deadline = d; missed = some n } =
          rw (h.stopped, late, found) refl in
        subst (λ r. Serves s (r, [])) (sym path) (caught-Serves now readings s d n g late h e found)
  ]
]

busy_path :
    (m : ℕ) (s : Scheduler)
    → s.running ≡ true
    → s.in_flight ≡ true
    → dispatch_step m s ≡ (record s { missed = none }, skips m)
unfolding dispatch_step
busy_path m s r b = rw (r, b) refl

free_path :
    (m : ℕ) (s : Scheduler)
    → s.running ≡ true
    → s.in_flight ≡ false
    → dispatch_step m s ≡ (record s { missed = none; in_flight = true }, tick ∷ skips (m - 1))
unfolding dispatch_step
free_path m s r b = rw (r, b) refl

poll_path :
    (now : ℕ) (readings : List ℕ) (s : Scheduler)
    → s.missed ≡ none
    → step (poll now readings) s ≡ (poll_step now readings s, [])
unfolding step
poll_path now readings s e =
    subst
      (λ o.
        ◌≡◌ {A = Scheduler × List Call}
          (elim o [ none ↦ (poll_step now readings s, []) | some m ↦ (s, []) ])
          (poll_step now readings s, []))
      (sym e) refl

waiting_path :
    (now : ℕ) (readings : List ℕ) (s : Scheduler) (m : ℕ)
    → s.missed ≡ some m
    → step (poll now readings) s ≡ (s, [])
unfolding step
waiting_path now readings s m e = rw e refl

idle_path : (s : Scheduler) → s.missed ≡ none → step dispatch s ≡ (s, [])
unfolding step
idle_path s e = rw e refl

dispatch_path : (s : Scheduler) (m : ℕ) → s.missed ≡ some m → step dispatch s ≡ dispatch_step m s
unfolding step dispatch_step
dispatch_path s m e = rw e refl

ended_path :
    (s : Scheduler)
    → (s.in_flight && not s.draining) ≡ true
    → step complete s ≡ (record s { in_flight = false }, tick_done ∷ [])
unfolding step
ended_path s e = rw e refl

none_path : (s : Scheduler) → (s.in_flight && not s.draining) ≡ false → step complete s ≡ (s, [])
unfolding step
none_path s e = rw e refl

refused_path : (s : Scheduler) → s.in_flight ≡ true → step acquire s ≡ (s, [])
unfolding step
refused_path s e = rw e refl

acquired_path :
    (s : Scheduler)
    → s.in_flight ≡ false
    → step acquire s ≡ (record s { in_flight = true; draining = true }, [])
unfolding step
acquired_path s e = rw e refl

released_path :
    (s : Scheduler)
    → s.draining ≡ true
    → step release s ≡ (record s { in_flight = false; draining = false }, [])
unfolding step
released_path s e = rw e refl

kept_path : (s : Scheduler) → s.draining ≡ false → step release s ≡ (s, [])
unfolding step
kept_path s e = rw e refl

Serves-lock :
    (lock drain : Bool) (s : Scheduler)
    → IsServing s
    → Serves s (record s { in_flight = lock; draining = drain }, [])
Serves-lock lock drain s h = record {
  k = 0;
  running = h.running;
  stopped = h.stopped;
  interval = refl;
  deadline = omega arith;
  answered = omega arith;
  positive = h.positive;
}

positive-le : (m : ℕ) (s : Scheduler) → IsServing s → s.missed ≡ some m → 1 ≤ m
positive-le zero s h e = absurd (h.positive e)
positive-le (suc m) s h e = omega arith

dispatch_step-Serves :
    (m : ℕ) (s : Scheduler) → IsServing s → s.missed ≡ some m → Serves s (dispatch_step m s)
unfolding dispatch_step
dispatch_step-Serves m s h e =
    let many : 1 ≤ m = positive-le m s h e in
    elim (Bool-cases s.in_flight) [
      | inl busy ↦ subst (Serves s) (sym (busy_path m s h.running busy)) (record {
        k = 0;
        running = h.running;
        stopped = h.stopped;
        interval = refl;
        deadline = omega arith;
        answered = rw e (omega (arith, skips-counts m));
        positive = λ z. cc;
      })
      | inr free ↦ subst (Serves s) (sym (free_path m s h.running free)) (record {
        k = 0;
        running = h.running;
        stopped = h.stopped;
        interval = refl;
        deadline = omega arith;
        answered = rw e (omega (arith, many, skips-counts (m - 1)));
        positive = λ z. cc;
      })
    ]

step-Serves : (a : Step) (s : Scheduler) → goes_on a ≡ true → IsServing s → Serves s (step a s)
unfolding step
step-Serves (poll now readings) s g h = elim (Option-cases s.missed) [
  | inl e ↦
      subst (Serves s) (sym (poll_path now readings s e)) (poll_step-Serves now readings s g h e)
  | inr (m, e) ↦ subst (Serves s) (sym (waiting_path now readings s m e)) (Serves-still s h)
]
step-Serves dispatch s g h = elim (Option-cases s.missed) [
  | inl e ↦ subst (Serves s) (sym (idle_path s e)) (Serves-still s h)
  | inr (m, e) ↦ subst (Serves s) (sym (dispatch_path s m e)) (dispatch_step-Serves m s h e)
]
step-Serves complete s g h = elim (Bool-cases (s.in_flight && not s.draining)) [
  | inl busy ↦ subst (Serves s) (sym (ended_path s busy)) (record {
    k = 0;
    running = h.running;
    stopped = h.stopped;
    interval = refl;
    deadline = omega arith;
    answered = omega arith;
    positive = h.positive;
  })
  | inr free ↦ subst (Serves s) (sym (none_path s free)) (Serves-still s h)
]
step-Serves pause s g h = cc
step-Serves resume s g h = record {
  k = 0;
  running = refl;
  stopped = h.stopped;
  interval = refl;
  deadline = omega arith;
  answered = omega arith;
  positive = h.positive;
}
step-Serves stop s g h = cc
step-Serves acquire s g h = elim (Bool-cases s.in_flight) [
  | inl busy ↦ subst (Serves s) (sym (refused_path s busy)) (Serves-still s h)
  | inr free ↦ subst (Serves s) (sym (acquired_path s free)) (Serves-lock true true s h)
]
step-Serves release s g h = elim (Bool-cases s.draining) [
  | inl e ↦ subst (Serves s) (sym (released_path s e)) (Serves-lock false false s h)
  | inr e ↦ subst (Serves s) (sym (kept_path s e)) (Serves-still s h)
]

run-Serves :
    (acts : List Step) (s : Scheduler)
    → All (λ a. goes_on a ≡ true) acts
    → IsServing s
    → Serves s (run acts s)
unfolding run
run-Serves [] s g h = Serves-still s h
run-Serves (a ∷ rest) s g h =
    let r = step a s in
    let q = run rest r.0 in
    let one = step-Serves a s g.0 h in
    let more =
      run-Serves rest r.0 g.1
        (record { running = one.running; stopped = one.stopped; positive = one.positive }) in
    record {
      k = one.k + more.k;
      running = more.running;
      stopped = more.stopped;
      interval = more.interval ∙ one.interval;
      deadline = omega (
        arith,
        one.deadline,
        more.deadline,
        add-mul one.k more.k s.interval,
        ap (λ n. more.k * n) one.interval,
      );
      answered = omega (arith, one.answered, more.answered, answers-append r.1 q.1);
      positive = more.positive;
    }

-- From the start of the loop, after steps that do not stop or pause it, the deadline is later by as many
-- intervals as there were ticks, skips and missed deadlines that wait to be dispatched: every missed
-- deadline is one tick or one skip.
pub deadlines_answered :
    (interval now : ℕ) (acts : List Step)
    → All (λ a. goes_on a ≡ true) acts
    → let r = run acts (started interval now) in
      r.0.deadline ≡ now + interval + (answers r.1 + pending r.0.missed) * interval
unfolding started
deadlines_answered interval now acts g =
    let s =
      run-Serves acts (started interval now) g
        (record { running = refl; stopped = refl; positive = λ z. cc }) in
    s.deadline ∙ ap (λ k. now + interval + k * interval) (sym (s.answered ∙ zero-add s.k))

-- Where the interval is not zero and the readings are at most `bound`, the inner loop ends within as
-- many readings as there are units from the deadline to just past the bound, and one more.
pub catch_up_ends :
    (interval deadline m bound : ℕ) (ts : List ℕ)
    → 0 < interval
    → All (λ t. t ≤ bound) ts
    → bound + 1 - deadline < length ts
    → is_some (catch_up interval deadline m ts) ≡ true
unfolding catch_up
catch_up_ends interval deadline m bound [] pos_i h long = absurd (omega arith)
catch_up_ends interval deadline m bound (t ∷ ts) pos_i h long = elim (Bool-cases (leb deadline t)) [
  | inl e ↦
      let due = leb→le deadline t e in
      rw e (
        catch_up_ends interval (deadline + interval) (m + 1) bound ts pos_i h.1
          (omega (arith, due, h.0)))
  | inr e ↦ rw e refl
]
