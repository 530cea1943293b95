-- ===== src/Live/Scheduler.antt =====
-- src/screen2xyz_m2/scheduler.py: `TickScheduler` as a state and the steps of its threads. Times are
-- whole numbers of one unit, so that the rounding of the clock's floats is not modelled. An
-- iteration of `_loop` is two steps, since the flags may change between them: `poll` up to the count of
-- the missed deadlines, and `dispatch` after it. The clock's readings are part of a step. `drain`, and
-- `stop` after its flags, are two steps: `acquire` takes the lock, or times out where it is held, and
-- `release` gives it back.
pub mod Deadlines
pub mod Answers
mod Tests
use screen2xyz_civil_plan_di.Prelude.{
  ℕ, zero, suc, ◌+◌, ◌-◌, Option, none, some, Bool, true, false, not, ◌&&◌, List, [], ◌∷◌, ◌++◌,
  leb, ltb, if◌then◌else◌,
}

-- `missed` holds the count of the missed deadlines between the two steps of an iteration. `in_flight`
-- tells whether the lock is held, and `draining` whether it is `drain` or `stop` that holds it.
pub record Scheduler : Type 0 where
  pub interval : ℕ
  pub deadline : ℕ
  pub running : Bool
  pub stopped : Bool
  pub in_flight : Bool
  pub draining : Bool
  pub missed : Option ℕ

-- The callbacks, `on_tick` by its start and its end.
pub data Call : Type 0 where
  tick : Call
  tick_done : Call
  skip : Call

-- `poll` has the reading before the test and the readings of the inner loop's tests.
pub data Step : Type 0 where
  poll : ℕ → List ℕ → Step
  dispatch : Step
  complete : Step
  pause : Step
  resume : Step
  stop : Step
  acquire : Step
  release : Step

-- `while deadline <= self._monotonic()`: the new deadline and the count, `none` where the readings end
-- before the loop does.
unfoldable pub catch_up : ℕ → ℕ → ℕ → List ℕ → Option (ℕ × ℕ)
catch_up interval deadline missed [] = none
catch_up interval deadline missed (t ∷ ts) =
    let more = catch_up interval (deadline + interval) (missed + 1) ts in
    if leb deadline t then more else some (deadline, missed)

unfoldable pub skips : ℕ → List Call
skips zero = []
skips (suc n) = skip ∷ skips n

-- The state at the start of `_loop`, at time `now`
unfoldable pub started : ℕ → ℕ → Scheduler
started interval now = record {
  interval = interval;
  deadline = now + interval;
  running = true;
  stopped = false;
  in_flight = false;
  draining = false;
  missed = none;
}

unfoldable pub caught : Option (ℕ × ℕ) → Scheduler → Scheduler
caught none s = s
caught (some (deadline, missed)) s = record s { deadline = deadline; missed = some missed }

-- The iteration up to the count; the loop is over once `stopped` is set.
unfoldable pub poll_step : ℕ → List ℕ → Scheduler → Scheduler
unfolding catch_up caught
poll_step now readings s =
    if s.stopped
    then s
    else if ltb now s.deadline
    then s
    else caught (catch_up s.interval s.deadline 0 readings) s

-- The iteration from the test of `running`
unfoldable pub dispatch_step : ℕ → Scheduler → Scheduler × List Call
unfolding skips
dispatch_step missed s =
    let after = record s { missed = none } in
    if not s.running
    then (after, [])
    else if s.in_flight
    then (after, skips missed)
    else (record after { in_flight = true }, tick ∷ skips (missed - 1))

unfoldable pub step : Step → Scheduler → Scheduler × List Call
unfolding poll_step dispatch_step
step (poll now readings) s = elim s.missed [
  | none ↦ (poll_step now readings s, [])
  | some missed ↦ (s, [])
]
step dispatch s = elim s.missed [ none ↦ (s, []) | some missed ↦ dispatch_step missed s ]
step complete s =
    if s.in_flight && not s.draining
    then (record s { in_flight = false }, tick_done ∷ [])
    else (s, [])
step pause s = (record s { running = false }, [])
step resume s = (record s { running = true }, [])
step stop s = (record s { stopped = true; running = false }, [])
step acquire s =
    if s.in_flight then (s, []) else (record s { in_flight = true; draining = true }, [])
step release s =
    if s.draining then (record s { in_flight = false; draining = false }, []) else (s, [])

-- A run: the state after the steps, and the callbacks in their order.
unfoldable pub run : List Step → Scheduler → Scheduler × List Call
run [] s = (s, [])
run (a ∷ rest) s = let r = step a s in let q = run rest r.0 in (q.0, r.1 ++ q.1)
