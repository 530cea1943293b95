-- ===== src/Live/Scheduler/Deadlines.antt =====
-- scheduler.py: ticks do not overlap, every missed deadline is a tick or a skip, and the inner loop
-- ends.
use screen2xyz_civil_plan_di.Prelude.{
  ℕ, zero, suc, ◌+◌, ◌-◌, ◌≡◌, refl, Bool, true, false, not, ◌&&◌, List, [], ◌∷◌, ◌++◌, arith,
  Option-cases, inl, inr,
}
use screen2xyz_civil_plan_di.Live.Scheduler.{
  Scheduler, Call, tick, tick_done, skip, Step, poll, dispatch, complete, pause, resume, stop,
  acquire, release, skips, started, caught, poll_step, dispatch_step, step, run,
}

abbrev pub ticks : List Call → ℕ
ticks [] = 0
ticks (tick ∷ cs) = 1 + ticks cs
ticks (_ ∷ cs) = ticks cs

abbrev pub dones : List Call → ℕ
dones [] = 0
dones (tick_done ∷ cs) = 1 + dones cs
dones (_ ∷ cs) = dones cs

-- Ticks and skips together
abbrev pub answers : List Call → ℕ
answers [] = 0
answers (tick_done ∷ cs) = answers cs
answers (tick ∷ cs) = 1 + answers cs
answers (skip ∷ cs) = 1 + answers cs

ticks-append : (cs ds : List Call) → ticks (cs ++ ds) ≡ ticks cs + ticks ds
ticks-append [] ds = omega arith
ticks-append (tick ∷ cs) ds = omega (arith, ticks-append cs ds)
ticks-append (tick_done ∷ cs) ds = ticks-append cs ds
ticks-append (skip ∷ cs) ds = ticks-append cs ds

dones-append : (cs ds : List Call) → dones (cs ++ ds) ≡ dones cs + dones ds
dones-append [] ds = omega arith
dones-append (tick ∷ cs) ds = dones-append cs ds
dones-append (tick_done ∷ cs) ds = omega (arith, dones-append cs ds)
dones-append (skip ∷ cs) ds = dones-append cs ds

pub answers-append : (cs ds : List Call) → answers (cs ++ ds) ≡ answers cs + answers ds
answers-append [] ds = omega arith
answers-append (tick ∷ cs) ds = omega (arith, answers-append cs ds)
answers-append (tick_done ∷ cs) ds = answers-append cs ds
answers-append (skip ∷ cs) ds = omega (arith, answers-append cs ds)

pub skips-counts : (n : ℕ) → (ticks (skips n) ≡ 0) × (dones (skips n) ≡ 0) × (answers (skips n) ≡ n)
unfolding skips
skips-counts zero = (refl, refl, refl)
skips-counts (suc n) = let (t, d, a) = skips-counts n in (t, d, omega (arith, a))

abbrev pub held : Bool → ℕ
held true = 1
held false = 0

-- How many ticks run, which is how many hold the lock.
abbrev pub active : Scheduler → ℕ
active s = held (s.in_flight && not s.draining)

-- Who drains has the lock.
abbrev IsLocked : Scheduler → Type 0
IsLocked s = s.draining ≡ true → s.in_flight ≡ true

dispatch_step-ticks :
    (m : ℕ) (s : Scheduler)
    → IsLocked s
    → (ticks (dispatch_step m s).1 + active s
        ≡ dones (dispatch_step m s).1 + active (dispatch_step m s).0)
      × IsLocked (dispatch_step m s).0
unfolding dispatch_step
dispatch_step-ticks m s h =
    (ground (arith, skips-counts m, skips-counts (m - 1), h), λ d. ground (arith, h, d))

poll_step-lock :
    (now : ℕ) (readings : List ℕ) (s : Scheduler)
    → ((poll_step now readings s).in_flight ≡ s.in_flight)
      × ((poll_step now readings s).draining ≡ s.draining)
unfolding poll_step caught
poll_step-lock now readings s = (ground arith, ground arith)

step-ticks :
    (a : Step) (s : Scheduler)
    → IsLocked s
    → (ticks (step a s).1 + active s ≡ dones (step a s).1 + active (step a s).0)
      × IsLocked (step a s).0
unfolding step
step-ticks (poll now readings) s h = (
  ground (arith, poll_step-lock now readings s),
  λ d. ground (arith, poll_step-lock now readings s, h, d),
)
step-ticks dispatch s h = elim (Option-cases s.missed) [
  | inl e ↦ rw e (refl, h)
  | inr (m, e) ↦ rw e (dispatch_step-ticks m s h)
]
step-ticks complete s h = (ground arith, λ d. ground (arith, h, d))
step-ticks pause s h = (refl, h)
step-ticks resume s h = (refl, h)
step-ticks stop s h = (refl, h)
step-ticks acquire s h = (ground (arith, h), λ d. ground (arith, h, d))
step-ticks release s h = (ground (arith, h), λ d. ground (arith, h, d))

run-ticks :
    (acts : List Step) (s : Scheduler)
    → IsLocked s
    → ticks (run acts s).1 + active s ≡ dones (run acts s).1 + active (run acts s).0
unfolding run
run-ticks [] s h = refl
run-ticks (a ∷ rest) s h =
    let r = step a s in
    let q = run rest r.0 in
    let one = step-ticks a s h in
    omega (arith, one.0, run-ticks rest r.0 one.1, ticks-append r.1 q.1, dones-append r.1 q.1)

-- From the start of the loop, after any steps of the threads, the ticks that have started are those
-- that have ended and one more exactly while a tick holds the lock: two ticks never run at once, and
-- none runs while `drain` or `stop` holds it.
pub no_overlap :
    (interval now : ℕ) (acts : List Step)
    → let r = run acts (started interval now) in ticks r.1 ≡ dones r.1 + active r.0
unfolding started
no_overlap interval now acts = omega (arith, run-ticks acts (started interval now) (λ d. cc))
