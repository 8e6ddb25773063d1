-- ===== src/Worker/Health.antt =====
-- backend/apps/common/worker_health.py: the record that a worker keeps in the shared store, and its display. Times
-- are seconds, texts that do not parse as times aside; the texts of messages and errors are left out.
pub mod Honest
use soc_one.Base.{
  ℕ, zero, suc, ◌+◌, ◌-◌, ◌≤◌, ◌<◌, ◌≡◌, refl, ◌⊎◌, inl, inr, Bool, true, false, ◌&&◌, ◌||◌, not,
  Option, none, some, List, [], ◌∷◌, ◌==◌, ltb, leb, if◌then◌else◌, arith, Bool-cases, Option-cases,
  if-cases, subst, sym,
}

pub data WorkerState : Type 0 where
  starting running idle degraded down : WorkerState

pub data Reason : Type 0 where
  no_reason iteration_failed graceful never_reported heartbeat_expired : Reason

pub record Health : Type 0 where
  pub state : Option WorkerState
  pub reason : Reason
  pub heartbeat_at : Option ℕ
  pub iteration_started_at : Option ℕ
  pub last_iteration_success_at : Option ℕ
  pub last_processed_at : Option ℕ
  pub last_failure_at : Option ℕ

unfoldable pub start : ℕ → Health
start now = record {
  state = some starting;
  reason = no_reason;
  heartbeat_at = some now;
  iteration_started_at = none;
  last_iteration_success_at = none;
  last_processed_at = none;
  last_failure_at = none;
}

unfoldable pub beat : ℕ → Health → Health
beat now h = record h { heartbeat_at = some now }

unfoldable pub begin_iteration : ℕ → Health → Health
begin_iteration now h = record h {
  state = some running;
  reason = no_reason;
  heartbeat_at = some now;
  iteration_started_at = some now;
}

unfoldable pub succeed_iteration : Bool → ℕ → Health → Health
succeed_iteration processed now h = record h {
  state = some idle;
  reason = no_reason;
  heartbeat_at = some now;
  iteration_started_at = none;
  last_iteration_success_at = some now;
  last_processed_at = if processed then some now else h.last_processed_at;
}

unfoldable pub fail_iteration : ℕ → Health → Health
fail_iteration now h = record h {
  state = some degraded;
  reason = iteration_failed;
  heartbeat_at = some now;
  iteration_started_at = none;
  last_failure_at = some now;
}

unfoldable pub stop : ℕ → Health → Health
stop now h = record h {
  state = some down;
  reason = graceful;
  heartbeat_at = some now;
  iteration_started_at = none;
}

-- A key that does not exist; every write sets `heartbeat_at`.
abbrev pub nothing : Health
nothing = record {
  state = none;
  reason = no_reason;
  heartbeat_at = none;
  iteration_started_at = none;
  last_iteration_success_at = none;
  last_processed_at = none;
  last_failure_at = none;
}

-- The writes, each of which the store may lose; the heart beats beside the iterations.
pub data Write : Type 0 where
  started beaten begun failed stopped lost : Write
  succeeded : Bool → Write

unfoldable pub write : Write → ℕ → Health → Health
unfolding start beat begin_iteration succeed_iteration fail_iteration stop
write started now h = start now
write beaten now h = beat now h
write begun now h = begin_iteration now h
write (succeeded processed) now h = succeed_iteration processed now h
write failed now h = fail_iteration now h
write stopped now h = stop now h
write lost now h = h

abbrev state_or : Option WorkerState → WorkerState
state_or none = down
state_or (some state) = state

abbrev is_down : Option WorkerState → Bool
is_down (some down) = true
is_down _ = false

abbrev pub is_running : WorkerState → Bool
is_running running = true
is_running _ = false

abbrev pub heartbeat_stale_seconds : ℕ
heartbeat_stale_seconds = 30

-- The state, the reason, and since how many seconds the iteration has been running.
abbrev pub Display : Type 0
Display = WorkerState × Reason × Option ℕ

abbrev running_for : ℕ → Bool → Option ℕ → Option ℕ
running_for now true (some began) = some (now - began)
running_for now _ _ = none

abbrev shown : ℕ → Health → Display
shown now h =
    let state = state_or h.state in
    (state, h.reason, running_for now (is_running state) h.iteration_started_at)

-- One worker of `get_worker_health_states`.
unfoldable pub display : ℕ → Health → Option ℕ → Display
display now h none = (down, never_reported, none)
display now h (some beat) =
    if not (is_down h.state) && ltb (beat + heartbeat_stale_seconds) now
    then (down, heartbeat_expired, none)
    else shown now h
