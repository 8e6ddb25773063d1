-- ===== src/Worker/Tests.antt =====
-- Workers at small inputs.
use soc_one.Base.{◌≡◌, refl, true, false, none, List, [], ◌∷◌}
use soc_one.Worker.Runner.{
  Arrival, returned, raised, interrupted, Options, when_idle, Event, started, iteration_started,
  iteration_succeeded, iteration_failed, slept, stopped, ran, run_worker, resolve_interval,
  run_iterations, pause_after, should_sleep,
}
use soc_one.Worker.Runner.Paced.{IsPaced, run_worker-IsPaced}
use soc_one.Worker.Health.{begun, nothing, write, display}
use soc_one.Worker.Health.Honest.{unwritten, written, IsAlive, IsTimed, Reach-IsHonest}

abbrev options : Options
options = record {
  once = false;
  interval = none;
  default_interval = 500;
  sleep_policy = when_idle;
  has_sleep_seconds = false;
}

abbrev arrivals : List Arrival
arrivals = returned true 0 ∷ raised "timeout" ∷ returned false 0 ∷ interrupted ∷ []

abbrev log : List Event
log =
    started
    ∷ iteration_started
    ∷ iteration_succeeded true
    ∷ iteration_started
    ∷ iteration_failed
    ∷ slept 500
    ∷ iteration_started
    ∷ iteration_succeeded false
    ∷ slept 500
    ∷ iteration_started
    ∷ stopped
    ∷ []

log_run : run_worker options arrivals ≡ ran log
unfolding run_worker resolve_interval run_iterations pause_after should_sleep
log_run = refl

run_worker-IsPaced_example : IsPaced when_idle arrivals log
run_worker-IsPaced_example = run_worker-IsPaced options arrivals log log_run

Reach-IsHonest_example :
    let h = write begun 100 nothing in
    IsAlive 120 h (display 120 h h.heartbeat_at) × IsTimed 120 h (display 120 h h.heartbeat_at)
Reach-IsHonest_example =
    Reach-IsHonest (write begun 100 nothing) 120 (written begun 100 nothing unwritten)
