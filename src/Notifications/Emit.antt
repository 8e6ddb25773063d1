-- ===== src/Notifications/Emit.antt =====
-- Queueing: `emit` and `_emit` of backend/apps/notifications/service.py. `targets` are the enabled
-- destinations, or those that the caller names; `hour` is the local hour and `now` the clock.
pub mod Counting
pub mod Quiet
use soc_one.Base.{
  ℕ, suc, ◌+◌, ◌-◌, Bool, true, false, ◌&&◌, ◌||◌, not, Option, none, some, List, [], ◌∷◌, ◌++◌,
  String, str_eq, ◌==◌, leb, ltb, if◌then◌else◌, first, map,
}
use soc_one.Notifications.Outbox.{
  Event, Payload, Destination, Status, pending, sent, failed, suppressed, Row, Outbox, Config,
  is_critical, build_dedup_key, valid_event,
}
use soc_one.Notifications.Filters.{in_quiet_hours, passes_filters}

unfoldable pub is_failed : Status → Bool
is_failed failed = true
is_failed _ = false

abbrev sent_to : ℕ → Option ℕ → Bool
sent_to d none = false
sent_to d (some e) = e == d

-- A row of the destination with the key, not older than the window and not failed.
unfoldable pub duplicates : ℕ → String → ℕ → Row → Bool
unfolding is_failed
duplicates destination key since r =
    sent_to destination r.destination
    && str_eq r.dedup_key key
    && leb since r.created_at
    && not (is_failed r.status)

-- `duplicate.aggregated_count += 1; duplicate.save(...)`
unfoldable pub bump : ℕ → Row → Row
bump id r = if r.id == id then record r { aggregated_count = suc r.aggregated_count } else r

unfoldable pub count_again : ℕ → List Row → List Row
unfolding bump
count_again id [] = []
count_again id (r ∷ rows) = bump id r ∷ count_again id rows

abbrev pub quiet_row : ℕ → Event → Destination → Payload → String → ℕ → Row
quiet_row id event d p key now = record {
  id = id;
  event = event;
  destination = some d.id;
  payload = p;
  status = suppressed;
  attempts = 0;
  last_error = "Suppressed by quiet hours.";
  aggregated_count = 1;
  dedup_key = key;
  created_at = now;
  scheduled_for = none;
  sent_at = none;
  rendered_text = "";
}

abbrev pub pending_row : ℕ → Event → Destination → Payload → String → ℕ → Row
pending_row id event d p key now = record {
  id = id;
  event = event;
  destination = some d.id;
  payload = p;
  status = pending;
  attempts = 0;
  last_error = "";
  aggregated_count = 1;
  dedup_key = key;
  created_at = now;
  scheduled_for = some now;
  sent_at = none;
  rendered_text = "";
}

unfoldable pub insert : Outbox → Row → Outbox
insert box r = record { rows = r ∷ box.rows; next_id = suc box.next_id }

-- The outbox and the created rows, latest first.
abbrev pub Queue : Type 0
Queue = Outbox × List Row

abbrev add_row : Outbox → List Row → Row → Queue
add_row box created r = (insert box r, r ∷ created)

-- One round of the loop over the destinations.
unfoldable pub emit_to : Event → Payload → String → Bool → ℕ → ℕ → Destination → Queue → Queue
unfolding insert duplicates count_again
emit_to event p key held window now d (box, created) =
    if not (passes_filters d event p)
    then (box, created)
    else if held
    then add_row box created (quiet_row box.next_id event d p key now)
    else elim (first (duplicates d.id key (now - window)) box.rows) [
      | some r ↦ (record box { rows = count_again r.id box.rows }, created)
      | none ↦ add_row box created (pending_row box.next_id event d p key now)
    ]

unfoldable pub emit_all : Event → Payload → String → Bool → ℕ → ℕ → List Destination → Queue → Queue
emit_all event p key held window now [] q = q
emit_all event p key held window now (d ∷ targets) q =
    emit_all event p key held window now targets (emit_to event p key held window now d q)

-- `none` is the `ValueError` for a name that is no registered event.
unfoldable pub emit_checked :
    (String → String) → Config → String → Payload → List Destination → ℕ → ℕ → Outbox → Option Queue
emit_checked digest cfg name p targets hour now box = elim (valid_event name) [
  | none ↦ none
  | some event ↦
      if not cfg.enabled
      then some (box, [])
      else some (
          emit_all event p (build_dedup_key digest event p)
            (in_quiet_hours cfg.quiet_hours_start cfg.quiet_hours_end hour
              && not (is_critical event))
            cfg.aggregation_window_seconds now targets (box, []))
]

-- A failure is logged, never raised, and queues nothing.
unfoldable pub emit :
    (String → String) → Config → String → Payload → List Destination → ℕ → ℕ → Outbox → Queue
unfolding emit_checked
emit digest cfg name p targets hour now box =
    elim (emit_checked digest cfg name p targets hour now box) [ none ↦ (box, []) | some q ↦ q ]
