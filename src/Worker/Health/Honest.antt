-- ===== src/Worker/Health/Honest.antt =====
-- What the display of backend/apps/common/worker_health.py says of any writes.
use soc_one.Base.{
  ℕ, ◌+◌, ◌-◌, ◌≤◌, ◌≡◌, refl, ◌⊎◌, inl, inr, Bool, true, false, ◌&&◌, not, Option, none, some, ltb,
  arith, Bool-cases, Option-cases, if-cases, subst, sym,
}
use soc_one.Worker.Health.{
  WorkerState, starting, running, idle, degraded, down, heartbeat_expired, Health, start, beat,
  begin_iteration, succeed_iteration, fail_iteration, stop, nothing, Write, started, beaten, begun,
  failed, stopped, lost, succeeded, write, state_or, is_down, is_running, heartbeat_stale_seconds,
  Display, running_for, shown, display,
}

-- The records that any writes lead to.
pub data Reach : Health → Type 0 where
  unwritten : Reach nothing
  written : (w : Write) (now : ℕ) (h : Health) → Reach h → Reach (write w now h)

-- An iteration is on record just while the worker runs.
abbrev IsCoherent : Health → Type 0
IsCoherent h =
    ((is_running (state_or h.state) ≡ true) × ((began : ℕ) × (h.iteration_started_at ≡ some began)))
    ⊎ ((is_running (state_or h.state) ≡ false) × (h.iteration_started_at ≡ none))

write-IsCoherent : (w : Write) (now : ℕ) (h : Health) → IsCoherent h → IsCoherent (write w now h)
unfolding write start beat begin_iteration succeed_iteration fail_iteration stop
write-IsCoherent started now h c = inr (refl, refl)
write-IsCoherent beaten now h c = c
write-IsCoherent begun now h c = inl (refl, (now, refl))
write-IsCoherent (succeeded processed) now h c = inr (refl, refl)
write-IsCoherent failed now h c = inr (refl, refl)
write-IsCoherent stopped now h c = inr (refl, refl)
write-IsCoherent lost now h c = c

Reach-IsCoherent : (h : Health) → Reach h → IsCoherent h
Reach-IsCoherent _ unwritten = inr (refl, refl)
Reach-IsCoherent _ (written w now h r) = write-IsCoherent w now h (Reach-IsCoherent h r)

-- A worker is shown as down, or its heart has beaten within the limit.
abbrev pub IsAlive : ℕ → Health → Display → Type 0
IsAlive now h d =
    (d.0 ≡ down)
    ⊎ ((beat : ℕ) × (h.heartbeat_at ≡ some beat) × (now ≤ beat + heartbeat_stale_seconds))

-- It is shown as running with the time since its iteration began, or as not running with none.
abbrev pub IsTimed : ℕ → Health → Display → Type 0
IsTimed now h d =
    ((is_running d.0 ≡ true)
      × ((began : ℕ) × (h.iteration_started_at ≡ some began) × (d.2 ≡ some (now - began))))
    ⊎ ((is_running d.0 ≡ false) × (d.2 ≡ none))

running_for-some :
    (now began : ℕ) (r : Bool) (o : Option ℕ)
    → r ≡ true
    → o ≡ some began
    → running_for now r o ≡ some (now - began)
running_for-some now began true none h e = cc
running_for-some now began true (some b) h e = ground (arith, e)
running_for-some now began false o h e = cc

running_for-none : (now : ℕ) (r : Bool) (o : Option ℕ) → r ≡ false → running_for now r o ≡ none
running_for-none now true o h = cc
running_for-none now false o h = refl

shown-IsTimed : (now : ℕ) (h : Health) → IsCoherent h → IsTimed now h (shown now h)
shown-IsTimed now h (inl (r, (began, e))) = inl (
  r,
  (began, e, running_for-some now began (is_running (state_or h.state)) h.iteration_started_at r e),
)
shown-IsTimed now h (inr (r, e)) =
    inr (r, running_for-none now (is_running (state_or h.state)) h.iteration_started_at r)

fresh_or_down :
    (now beat : ℕ) (h : Health)
    → (not (is_down h.state) && ltb (beat + heartbeat_stale_seconds) now) ≡ false
    → (state_or h.state ≡ down) ⊎ (now ≤ beat + heartbeat_stale_seconds)
fresh_or_down now beat h e = elim (Bool-cases (is_down h.state)) [
  | inl d ↦ inl (down_state h.state d)
  | inr d ↦ inr (ground (arith, d, e))
]
  where
    down_state : (s : Option WorkerState) → is_down s ≡ true → state_or s ≡ down
    down_state none d = refl
    down_state (some starting) d = cc
    down_state (some running) d = cc
    down_state (some idle) d = cc
    down_state (some degraded) d = cc
    down_state (some down) d = refl

-- The display is honest, whatever was written and whichever writes were lost: a worker that is not shown as down
-- has a heartbeat of the last 30 seconds on record; and it is shown as running only with an iteration on
-- record as begun, and with the time since then; otherwise it is shown with no such time.
pub Reach-IsHonest :
    (h : Health) (now : ℕ)
    → Reach h
    → IsAlive now h (display now h h.heartbeat_at) × IsTimed now h (display now h h.heartbeat_at)
unfolding display
Reach-IsHonest h now r = elim (Option-cases h.heartbeat_at) [
  | inl e ↦
      subst (λ (b : Option ℕ). IsAlive now h (display now h b) × IsTimed now h (display now h b))
        (sym e) (inl refl, inr (refl, refl))
  | inr (beat, e) ↦
      subst (λ (b : Option ℕ). IsAlive now h (display now h b) × IsTimed now h (display now h b))
        (sym e) (go beat e)
]
  where
    go :
        (beat : ℕ)
        → h.heartbeat_at ≡ some beat
        → IsAlive now h (display now h (some beat)) × IsTimed now h (display now h (some beat))
    go beat e =
        let expired : Display = (down, heartbeat_expired, none) in
        let Good : Display → Type 0 = λ d. IsAlive now h d × IsTimed now h d in
        elim (if-cases (not (is_down h.state) && ltb (beat + heartbeat_stale_seconds) now) expired
          (shown now h)) [
            | inl (_, f) ↦ subst Good (sym f) (inl refl, inr (refl, refl))
            | inr (g, f) ↦ subst Good (sym f) (
              elim (fresh_or_down now beat h g) [ inl d ↦ inl d | inr l ↦ inr (beat, e, l) ],
              shown-IsTimed now h (Reach-IsCoherent h r),
            )
          ]
