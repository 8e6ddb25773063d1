-- ===== src/Notifications/Delivery.antt =====
-- Delivery: backend/apps/notifications/delivery.py. What Telegram answers to one message is an argument,
-- a function of the rows that the message carries; so is the text of a message. The marks of one
-- iteration read the clock at `later`.
pub mod Grouping
pub mod Settling
pub mod Attempts
pub mod Members
pub mod Iteration
use soc_one.Base.{
  ℕ, suc, ◌+◌, ◌^◌, Bool, true, false, ◌&&◌, not, Option, none, some, List, [], ◌∷◌, ◌++◌, String,
  str_eq, ◌==◌, leb, min, if◌then◌else◌, keep, take, length, map,
}
use soc_one.Base.Sort.{sort_by}
use soc_one.Notifications.Outbox.{
  Event, triage_completed, triage_needs_human, discovery_created, hunt_finding_confirmed,
  audit_critical_finding, worker_unhealthy, mssp_sync_failed, integration_auth_failed, Status,
  pending, sent, failed, Row, Config,
}

-- What `send_message` comes to: `TelegramRateLimited` carries the pause that Telegram asks for.
pub data Outcome : Type 0 where
  accepted : Outcome
  rate_limited : Option ℕ → String → Outcome
  refused : String → Outcome

unfoldable pub is_due : ℕ → Row → Bool
is_due now r = elim r.status [
  | pending ↦ elim r.scheduled_for [ none ↦ false | some t ↦ leb t now ]
  | _ ↦ false
]

-- `claim_batch`: the due rows, oldest first.
unfoldable pub claim_batch : ℕ → ℕ → List Row → List Row
unfolding is_due sort_by
claim_batch limit now rows =
    take limit (sort_by (λ a b. leb a.created_at b.created_at) (keep (is_due now) rows))

unfoldable pub event_code : Event → ℕ
event_code triage_completed = 0
event_code triage_needs_human = 1
event_code discovery_created = 2
event_code hunt_finding_confirmed = 3
event_code audit_critical_finding = 4
event_code worker_unhealthy = 5
event_code mssp_sync_failed = 6
event_code integration_auth_failed = 7

unfoldable pub same_destination : Option ℕ → Option ℕ → Bool
same_destination none none = true
same_destination none (some b) = false
same_destination (some a) none = false
same_destination (some a) (some b) = a == b

-- One key of the dict: `(destination_id, event_type)`
unfoldable pub same_key : Row → Row → Bool
unfolding same_destination event_code
same_key a b =
    same_destination a.destination b.destination && event_code a.event == event_code b.event

unfoldable pub has_key : Row → List Row → Bool
has_key row [] = false
has_key row (r ∷ bucket) = same_key r row

-- `buckets.setdefault(key, []).append(row)`
unfoldable pub add_to_bucket : Row → List (List Row) → List (List Row)
unfolding has_key
add_to_bucket row [] = (row ∷ []) ∷ []
add_to_bucket row (bucket ∷ buckets) =
    if has_key row bucket
    then (bucket ++ row ∷ []) ∷ buckets
    else bucket ∷ add_to_bucket row buckets

unfoldable pub fill_buckets : List Row → List (List Row) → List (List Row)
fill_buckets [] buckets = buckets
fill_buckets (row ∷ rows) buckets = fill_buckets rows (add_to_bucket row buckets)

-- The single rows and the aggregated buckets.
unfoldable pub split_buckets : ℕ → List (List Row) → List Row × List (List Row)
split_buckets threshold [] = ([], [])
split_buckets threshold (bucket ∷ buckets) =
    let rest = split_buckets threshold buckets in
    if leb threshold (length bucket) then (rest.0, bucket ∷ rest.1) else (bucket ++ rest.0, rest.1)

unfoldable pub group_for_aggregation : List Row → ℕ → List Row × List (List Row)
group_for_aggregation rows threshold = split_buckets threshold (fill_buckets rows [])

-- `row.save(update_fields=...)`: the fields that `copy` names go into the stored row.
unfoldable pub save : (Row → Row → Row) → Row → List Row → List Row
save copy row [] = []
save copy row (r ∷ rows) = (if r.id == row.id then copy row r else r) ∷ save copy row rows

-- A loop over the rows of one message that changes each and saves it.
unfoldable pub mark : (Row → Row → Row) → (Row → Row) → List Row → List Row → List Row
unfolding save
mark copy change [] rows = rows
mark copy change (row ∷ bucket) rows = mark copy change bucket (save copy (change row) rows)

unfoldable pub sent_row : ℕ → String → Row → Row
sent_row later text row = record row {
  status = sent;
  sent_at = some later;
  attempts = suc row.attempts;
  rendered_text = text;
}

abbrev pub copy_sent : Row → Row → Row
copy_sent row r = record r {
  status = row.status;
  sent_at = row.sent_at;
  attempts = row.attempts;
  rendered_text = row.rendered_text;
}

-- `retry_after if retry_after else min(2 ** row.attempts, 300)`
unfoldable pub backoff : Option ℕ → ℕ → ℕ
backoff none attempts = min (2 ^ attempts) 300
backoff (some pause) attempts = if pause == 0 then min (2 ^ attempts) 300 else pause

unfoldable pub failed_row : String → ℕ → Option ℕ → ℕ → Row → Row
unfolding backoff
failed_row error retry_limit retry_after later row =
    let attempts = suc row.attempts in
    if leb retry_limit attempts
    then record row { attempts = attempts; last_error = error; status = failed }
    else record row {
      attempts = attempts;
      last_error = error;
      scheduled_for = some (later + backoff retry_after attempts);
    }

abbrev pub copy_failed : Row → Row → Row
copy_failed row r = record r {
  attempts = row.attempts;
  last_error = row.last_error;
  status = row.status;
  scheduled_for = row.scheduled_for;
}

unfoldable pub mark_sent : ℕ → String → List Row → List Row → List Row
unfolding mark sent_row
mark_sent later text bucket rows = mark copy_sent (sent_row later text) bucket rows

unfoldable pub mark_failure : String → ℕ → Option ℕ → ℕ → List Row → List Row → List Row
unfolding mark failed_row
mark_failure error retry_limit retry_after later bucket rows =
    mark copy_failed (failed_row error retry_limit retry_after later) bucket rows

-- `exc.retry_after or 30`
unfoldable pub pause_of : Option ℕ → Option ℕ
pause_of none = some 30
pause_of (some pause) = if pause == 0 then some 30 else some pause

unfoldable pub answer : ℕ → ℕ → String → Outcome → List Row → List Row → List Row × Bool
unfolding mark_sent mark_failure pause_of
answer retry_limit later text accepted bucket rows = (mark_sent later text bucket rows, true)
answer retry_limit later text (rate_limited pause error) bucket rows =
    (mark_failure error retry_limit (pause_of pause) later bucket rows, false)
answer retry_limit later text (refused error) bucket rows =
    (mark_failure error retry_limit none later bucket rows, false)

-- `_send`: the changed table, and whether the message went out.
unfoldable pub send :
    Config → ℕ → (List Row → String) → (List Row → Outcome) → List Row → List Row → List Row × Bool
unfolding mark_failure
send cfg later text outcome [] rows = (rows, false)
send cfg later text outcome (first ∷ bucket) rows = elim first.destination [
  | none ↦ (mark_failure "Destination was deleted." 1 none later (first ∷ bucket) rows, false)
  | some d ↦
      answer cfg.retry_limit later (text (first ∷ bucket)) (outcome (first ∷ bucket))
        (first ∷ bucket) rows
]

unfoldable pub send_all :
    Config
    → ℕ
    → (List Row → String)
    → (List Row → Outcome)
    → List (List Row)
    → List Row × ℕ
    → List Row × ℕ
send_all cfg later text outcome [] state = state
send_all cfg later text outcome (bucket ∷ work) (rows, count) =
    let (after, done) = send cfg later text outcome bucket rows in
    send_all cfg later text outcome work (after, if done then count + length bucket else count)

abbrev pub singletons : List Row → List (List Row)
singletons [] = []
singletons (r ∷ rows) = (r ∷ []) ∷ singletons rows

-- The messages of one iteration in their order: the aggregates, then the single rows.
unfoldable pub work_of : List Row → ℕ → List (List Row)
unfolding group_for_aggregation
work_of batch threshold =
    let grouped = group_for_aggregation batch threshold in grouped.1 ++ singletons grouped.0

-- `if not batch: return None`, and the messages of the batch.
unfoldable pub deliver_batch :
    Config
    → ℕ
    → (List Row → String)
    → (List Row → Outcome)
    → List Row
    → List Row
    → List Row × ℕ × Bool
deliver_batch cfg later text outcome [] rows = (rows, 0, false)
deliver_batch cfg later text outcome (r ∷ batch) rows =
    let (after, count) =
      send_all cfg later text outcome (work_of (r ∷ batch) cfg.aggregation_threshold) (rows, 0) in
    (after, count, true)

-- `deliver_once`: the table, how many rows went out, and whether there was anything to do.
unfoldable pub deliver_once :
    Config → ℕ → ℕ → ℕ → (List Row → String) → (List Row → Outcome) → List Row → List Row × ℕ × Bool
deliver_once cfg limit now later text outcome rows =
    if not cfg.enabled
    then (rows, 0, false)
    else if str_eq cfg.bot_token ""
    then (rows, 0, false)
    else deliver_batch cfg later text outcome (claim_batch limit now rows) rows
