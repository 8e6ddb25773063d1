-- ===== src/Worker/Runner/Paced.antt =====
-- How `run_worker` of backend/apps/common/worker_runner.py goes on.
use soc_one.Base.{
  All-append, ℕ, ◌<◌, ◌≡◌, refl, ◌⊎◌, Bool, true, false, not, some, List, [], ◌∷◌, ◌++◌, ◌==◌,
  if◌then◌else◌, All, arith, Bool-cases, Option-cases, subst, inl, inr,
}
use soc_one.Base.Sort.{count, count-append}
use soc_one.Worker.Runner.{
  SleepPolicy, always, when_idle, Arrival, returned, raised, interrupted, interrupted_pause,
  Options, Event, started, iteration_succeeded, iteration_failed, slept, ran, resolve_interval,
  should_sleep, pause_after, run_iterations, run_once, run_worker,
}

-- What comes up before an interrupt.
abbrev pub until_interrupt : List Arrival → List Arrival
until_interrupt [] = []
until_interrupt (returned processed answer ∷ arrivals) =
    returned processed answer ∷ until_interrupt arrivals
until_interrupt (raised error ∷ arrivals) = raised error ∷ until_interrupt arrivals
until_interrupt (interrupted ∷ arrivals) = []
until_interrupt (interrupted_pause ∷ arrivals) = []

abbrev pub is_pause : Event → Bool
is_pause (slept n) = true
is_pause _ = false

abbrev pub is_report : Event → Bool
is_report (iteration_succeeded processed) = true
is_report _ = false

-- A pause, if it is one, is positive.
abbrev pub IsPositive : Event → Type 0
IsPositive (slept n) = 0 < n
IsPositive _ = Unit

-- An iteration that raised, or behind which the policy lets the worker rest.
abbrev pub rests : SleepPolicy → Arrival → Bool
rests policy (returned processed answer) = elim policy [ always ↦ true | when_idle ↦ not processed ]
rests policy (raised error) = true
rests policy _ = false

abbrev pub is_return : Arrival → Bool
is_return (returned processed answer) = true
is_return _ = false

abbrev pub IsPause : List Event → Type 0
IsPause (slept n ∷ log) = 0 < n
IsPause _ = ⊥

abbrev pub IsFailure : List Event → Type 0
IsFailure (iteration_failed ∷ log) = Unit
IsFailure _ = ⊥

-- What comes right behind an iteration that returned: anything behind one that did some work under a policy
-- that rests only when idle, else a pause or the failure to find one.
abbrev pub IsRested : SleepPolicy → Bool → List Event → Type 0
IsRested when_idle true log = Unit
IsRested when_idle false log = IsPause log ⊎ IsFailure log
IsRested always processed log = IsPause log ⊎ IsFailure log

-- Right behind each failure stands a pause, and each return is rested.
abbrev pub IsInOrder : SleepPolicy → List Event → Type 0
IsInOrder policy [] = Unit
IsInOrder policy (iteration_failed ∷ log) = IsPause log × IsInOrder policy log
IsInOrder policy (iteration_succeeded processed ∷ log) =
    IsRested policy processed log × IsInOrder policy log
IsInOrder policy (_ ∷ log) = IsInOrder policy log

-- The log of what comes up: no pause of no time, one pause for each iteration to rest behind, one report for
-- each that returned, in order.
abbrev pub IsPaced : SleepPolicy → List Arrival → List Event → Type 0
IsPaced policy arrivals log =
    All IsPositive log
    × (count is_pause log ≡ count (rests policy) (until_interrupt arrivals))
    × (count is_report log ≡ count is_return (until_interrupt arrivals))
    × IsInOrder policy log

busy-IsRested :
    (policy : SleepPolicy) (processed : Bool) (log : List Event)
    → should_sleep processed policy ≡ false
    → IsRested policy processed log
unfolding should_sleep
busy-IsRested always processed log h = cc
busy-IsRested when_idle true log h = tt
busy-IsRested when_idle false log h = cc

idle-IsRested :
    (policy : SleepPolicy) (processed : Bool) (log : List Event)
    → IsPause log ⊎ IsFailure log
    → IsRested policy processed log
idle-IsRested always processed log h = h
idle-IsRested when_idle true log h = tt
idle-IsRested when_idle false log h = h

module _ (options : Options) (interval : ℕ) (positive : 0 < interval) where
  pause_after-IsPositive :
      (processed : Bool) (answer : ℕ)
      → let pause = pause_after options interval processed answer in
        All IsPositive pause
        × (count is_pause pause
            ≡ count (rests options.sleep_policy) (returned processed answer ∷ []))
        × (count is_report pause ≡ 0)
  unfolding pause_after
  pause_after-IsPositive processed answer =
      let seconds = if options.has_sleep_seconds then answer else interval in
      elim (Bool-cases (should_sleep processed options.sleep_policy)) [
        | inr e ↦ rw (e) (tt, refl, refl)
        | inl e ↦ elim (Bool-cases (seconds == 0)) [
          | inl f ↦ rw (e, f) ((tt, (positive, tt)), omega arith, omega arith)
          | inr f ↦ rw (e, f) ((ground (arith, f), tt), omega arith, omega arith)
        ]
      ]

  pause_after-IsInOrder :
      (processed : Bool) (answer : ℕ) (rest : List Event)
      → IsInOrder options.sleep_policy rest
      → let log = pause_after options interval processed answer ++ rest in
        IsRested options.sleep_policy processed log × IsInOrder options.sleep_policy log
  unfolding pause_after
  pause_after-IsInOrder processed answer rest good =
      let seconds = if options.has_sleep_seconds then answer else interval in
      let policy = options.sleep_policy in
      elim (Bool-cases (should_sleep processed policy)) [
        | inr e ↦ rw e (busy-IsRested policy processed rest e, good)
        | inl e ↦ elim (Bool-cases (seconds == 0)) [
          | inl f ↦
              let log = iteration_failed ∷ slept interval ∷ rest in
              rw (e, f) (idle-IsRested policy processed log (inr tt), (positive, good))
          | inr f ↦
              let log = slept seconds ∷ rest in
              rw (e, f) (idle-IsRested policy processed log (inl (ground (arith, f))), good)
        ]
      ]

  run_iterations-IsPaced :
      (arrivals : List Arrival)
      → IsPaced options.sleep_policy arrivals (run_iterations options interval arrivals)
  unfolding run_iterations
  run_iterations-IsPaced [] = (tt, refl, refl, tt)
  run_iterations-IsPaced (returned processed answer ∷ arrivals) =
      let (good, pauses, reports, ordered) = run_iterations-IsPaced arrivals in
      let (here, paused, quiet) = pause_after-IsPositive processed answer in
      let pause = pause_after options interval processed answer in
      let rest = run_iterations options interval arrivals in
      (
        (tt, (tt, All-append IsPositive pause rest here good)),
        omega (arith, count-append is_pause pause rest, paused, pauses),
        omega (arith, count-append is_report pause rest, quiet, reports),
        pause_after-IsInOrder processed answer rest ordered,
      )
  run_iterations-IsPaced (raised error ∷ arrivals) =
      let (good, pauses, reports, ordered) = run_iterations-IsPaced arrivals in
      (
        (tt, (tt, (positive, good))),
        omega (arith, pauses),
        omega (arith, reports),
        (positive, ordered),
      )
  run_iterations-IsPaced (interrupted ∷ arrivals) = ((tt, (tt, tt)), refl, refl, tt)
  run_iterations-IsPaced (interrupted_pause ∷ arrivals) = ((tt, tt), refl, refl, tt)

never : (arrivals : List Arrival) (log : List Event) → run_once arrivals ≡ ran log → ⊥
never [] log h = cc
never (returned processed answer ∷ arrivals) log h = cc
never (raised error ∷ arrivals) log h = cc
never (interrupted ∷ arrivals) log h = cc
never (interrupted_pause ∷ arrivals) log h = cc

resolve_interval-positive :
    (options : Options) (interval : ℕ) → resolve_interval options ≡ some interval → 0 < interval
unfolding resolve_interval
resolve_interval-positive options interval h = ground (arith, h)

-- A worker neither dies nor spins. In what it does, every iteration that returns before an interrupt is
-- reported, and there are as many pauses as iterations that raised or that the policy rests behind. Right
-- behind each failure stands a pause, and right behind each return a pause or a failure to find its length,
-- but where the policy rests only when idle and the iteration did some work; every pause is positive.
pub run_worker-IsPaced :
    (options : Options) (arrivals : List Arrival) (log : List Event)
    → run_worker options arrivals ≡ ran log
    → IsPaced options.sleep_policy arrivals log
unfolding run_worker
run_worker-IsPaced options arrivals log h = elim (Option-cases (resolve_interval options)) [
  | inl e ↦ absurd (ground (arith, h, e))
  | inr (interval, e) ↦
      let positive = resolve_interval-positive options interval e in
      let (good, pauses, reports, ordered) =
        run_iterations-IsPaced options interval positive arrivals in
      let opened : run_worker options arrivals ≡ (
          if options.once
          then run_once arrivals
          else ran (started ∷ run_iterations options interval arrivals)) =
        rw (run_worker, e) refl in
      elim (Bool-cases options.once) [
        | inl o ↦ absurd (never arrivals log (ground (arith, opened, o, h)))
        | inr o ↦
            let same : started ∷ run_iterations options interval arrivals ≡ log =
              ground (arith, opened, o, h) in
            subst (λ l. IsPaced options.sleep_policy arrivals l) same
              ((tt, good), omega (arith, pauses), omega (arith, reports), ordered)
      ]
]
