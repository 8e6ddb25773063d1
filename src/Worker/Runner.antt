-- ===== src/Worker/Runner.antt =====
-- `run_worker` of backend/apps/common/worker_runner.py. What comes up, iteration by iteration, is an argument;
-- pauses are milliseconds, and 0 stands for one that is not positive. The texts that are written are left out.
pub mod Paced
use soc_one.Base.{
  ℕ, zero, suc, ◌+◌, ◌≤◌, ◌<◌, ◌≡◌, refl, Bool, true, false, ◌&&◌, ◌||◌, not, Option, none, some,
  List, [], ◌∷◌, ◌++◌, String, ◌==◌, ltb, if◌then◌else◌, All, arith, Bool-cases, Option-cases,
  if-cases, subst, sym, inl, inr, ◌⊎◌,
}

pub data SleepPolicy : Type 0 where
  always when_idle : SleepPolicy

-- An iteration returns, and says whether it processed anything; it raises; or it is interrupted. An interrupt
-- may also come in a pause. With a return comes what `sleep_seconds()` answers then.
pub data Arrival : Type 0 where
  returned : Bool → ℕ → Arrival
  raised : String → Arrival
  interrupted : Arrival
  interrupted_pause : Arrival

pub record Options : Type 0 where
  pub once : Bool
  pub interval : Option ℕ
  pub default_interval : ℕ
  pub sleep_policy : SleepPolicy
  pub has_sleep_seconds : Bool

-- What the worker does: its reports on its health, and its pauses.
pub data Event : Type 0 where
  started iteration_started : Event
  iteration_succeeded : Bool → Event
  iteration_failed : Event
  slept : ℕ → Event
  stopped : Event

pub data Outcome : Type 0 where
  bad_interval : Outcome
  completed_once : Bool → Outcome
  failed_once : String → Outcome
  stopped_once : Outcome
  ran : List Event → Outcome

abbrev or_default : Option ℕ → ℕ → ℕ
or_default none b = b
or_default (some a) b = a

unfoldable pub resolve_interval : Options → Option ℕ
resolve_interval options =
    let interval = or_default options.interval options.default_interval in
    if interval == 0 then none else some interval

unfoldable pub should_sleep : Bool → SleepPolicy → Bool
should_sleep processed always = true
should_sleep processed when_idle = not processed

-- The pause behind an iteration that returned; one that is not positive raises, and is reported as a failure.
unfoldable pub pause_after : Options → ℕ → Bool → ℕ → List Event
unfolding should_sleep
pause_after options interval processed answer =
    let seconds = if options.has_sleep_seconds then answer else interval in
    if not (should_sleep processed options.sleep_policy)
    then []
    else if seconds == 0
    then iteration_failed ∷ slept interval ∷ []
    else slept seconds ∷ []

unfoldable pub run_iterations : Options → ℕ → List Arrival → List Event
unfolding pause_after
run_iterations options interval [] = []
run_iterations options interval (returned processed answer ∷ arrivals) =
    iteration_started
    ∷ iteration_succeeded processed
    ∷ (pause_after options interval processed answer ++ run_iterations options interval arrivals)
run_iterations options interval (raised error ∷ arrivals) =
    iteration_started ∷ iteration_failed ∷ slept interval ∷ run_iterations options interval arrivals
run_iterations options interval (interrupted ∷ arrivals) = iteration_started ∷ stopped ∷ []
run_iterations options interval (interrupted_pause ∷ arrivals) = stopped ∷ []

abbrev run_once : List Arrival → Outcome
run_once (returned processed answer ∷ arrivals) = completed_once processed
run_once (raised error ∷ arrivals) = failed_once error
run_once _ = stopped_once

unfoldable pub run_worker : Options → List Arrival → Outcome
unfolding resolve_interval run_iterations
run_worker options arrivals = elim (resolve_interval options) [
  | none ↦ bad_interval
  | some interval ↦
      if options.once
      then run_once arrivals
      else ran (started ∷ run_iterations options interval arrivals)
]
