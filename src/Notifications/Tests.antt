-- ===== src/Notifications/Tests.antt =====
-- Runs of the notifications at small inputs.
use soc_one.Base.{
  ◌≡◌, ◌↔◌, inl, refl, true, false, none, some, List, [], ◌∷◌, String, arith, In, length, ◌+◌, ℕ,
  ◌-◌, ◌<◌, ◌%◌,
}
use soc_one.Base.Texts.{same_codes}
use soc_one.Base.Sort.{count, sort_by, insert_by}
use soc_one.Notifications.Outbox.{
  triage_completed, worker_unhealthy, Payload, hundredths, Destination, Row, Outbox, Config,
  valid_event, find_event, event_name, severity_rank, index_from, title_from, is_critical,
}
use soc_one.Notifications.Filters.{
  in_quiet_hours, in_quiet_hours-elapsed, passes_filters, subscribes_to, confident,
}
use soc_one.Notifications.Emit.{quiet_row, pending_row, emit, emit_to, is_failed}
use soc_one.Notifications.Emit.Counting.{emit-counts, IsNumbered, total, passing}
use soc_one.Notifications.Emit.Quiet.{
  emit_quiet, emit_critical, repeat_not_sent, waiting, StandsFor, recount,
}
use soc_one.Notifications.Delivery.{
  rate_limited, claim_batch, is_due, work_of, deliver_once, Outcome,
}
use soc_one.Notifications.Delivery.Grouping.{flat, count-work_of}
use soc_one.Notifications.Delivery.Settling.{has_id, row_at}
use soc_one.Notifications.Delivery.Attempts.{IsAttempted}
use soc_one.Notifications.Delivery.Iteration.{deliver_once-attempts, deliver_once-other}

abbrev digest : String → String
digest s = s

abbrev cfg : Config
cfg = record {
  enabled = true;
  bot_token = "token";
  retry_limit = 3;
  aggregation_window_seconds = 60;
  aggregation_threshold = 2;
  quiet_hours_start = some 22;
  quiet_hours_end = some 6;
}

abbrev alert : Payload
alert = record {
  severity = "high";
  confidence = hundredths 90;
  verdict = "";
  source = "";
  asset_criticality = "";
  case_id = "case_000001";
  discovery_id = "";
  entity = "";
}

abbrev team : Destination
team = record {
  id = 1;
  event_types = [];
  min_severity = "Medium";
  min_confidence = 50;
  verdict_filter = [];
  source_filter = [];
  min_asset_criticality = "";
}

abbrev empty : Outbox
empty = record { rows = []; next_id = 1 }

severity_run : severity_rank "high" ≡ 4
unfolding severity_rank index_from same_codes title_from
severity_run = refl

passes_run : passes_filters team triage_completed alert ≡ true
unfolding passes_filters subscribes_to confident severity_rank index_from same_codes title_from
passes_run = refl

completed-valid : valid_event "triage.completed" ≡ some triage_completed
unfolding valid_event find_event event_name
completed-valid = refl

unhealthy-valid : valid_event "system.worker_unhealthy" ≡ some worker_unhealthy
unfolding valid_event find_event event_name
unhealthy-valid = refl

at_night : in_quiet_hours (some 22) (some 6) 23 ≡ true
unfolding in_quiet_hours
at_night = refl

in_quiet_hours-elapsed_example :
    (in_quiet_hours (some 22) (some 6) 23 ≡ true)
    ↔ ((elapsed : ℕ) × (elapsed < (6 + 24 - 22) % 24) × (23 ≡ (22 + elapsed) % 24))
in_quiet_hours-elapsed_example =
    in_quiet_hours-elapsed 22 6 23 (omega arith) (omega arith) (omega arith)

emit-counts_example :
    let after = (emit digest cfg "triage.completed" alert (team ∷ []) 12 100 empty).0 in
    IsNumbered after
    × (total after.rows ≡ total [] + length (passing triage_completed alert (team ∷ [])))
emit-counts_example =
    emit-counts digest cfg (team ∷ []) "triage.completed" triage_completed alert 12 100 empty tt
      completed-valid refl

completed-not_critical : is_critical triage_completed ≡ false
unfolding is_critical
completed-not_critical = refl

unhealthy-critical : is_critical worker_unhealthy ≡ true
unfolding is_critical
unhealthy-critical = refl

emit_quiet_example :
    waiting (emit digest cfg "triage.completed" alert (team ∷ []) 23 100 empty).0.rows ≡ waiting []
emit_quiet_example =
    emit_quiet digest cfg "triage.completed" triage_completed alert (team ∷ []) 23 100 empty
      completed-valid completed-not_critical at_night

emit_critical_example :
    emit digest cfg "system.worker_unhealthy" alert (team ∷ []) 23 100 empty
    ≡ emit digest cfg "system.worker_unhealthy" alert (team ∷ []) 12 100 empty
emit_critical_example =
    emit_critical digest cfg "system.worker_unhealthy" worker_unhealthy alert (team ∷ []) 23 12 100
      empty unhealthy-valid unhealthy-critical

abbrev at_six : Row
at_six = quiet_row 1 triage_completed team alert "key" 90

abbrev after_night : Outbox
after_night = record { rows = at_six ∷ []; next_id = 2 }

at_six-StandsFor : StandsFor team "key" 60 100 at_six
unfolding is_failed
at_six-StandsFor = (refl, refl, omega arith, refl)

team_passes : passes_filters team triage_completed alert ≡ true
unfolding passes_filters subscribes_to confident severity_rank event_name
team_passes = refl

repeat_not_sent_example :
    let after = emit_to triage_completed alert "key" false 60 100 team (after_night, []) in
    (after.1 ≡ [])
    × (waiting after.0.rows ≡ waiting (at_six ∷ []))
    × ((q : Row) × In q (at_six ∷ [])
        × StandsFor team "key" 60 100 q
        × (after.0 ≡ record after_night { rows = recount q.id (at_six ∷ []) }))
repeat_not_sent_example =
    repeat_not_sent triage_completed alert "key" 60 100 team after_night at_six (inl refl)
      at_six-StandsFor team_passes

abbrev first_row : Row
first_row = pending_row 1 triage_completed team alert "a" 10

abbrev second_row : Row
second_row = pending_row 2 triage_completed team alert "b" 20

abbrev later_row : Row
later_row = pending_row 3 triage_completed team alert "c" 200

abbrev table : List Row
table = later_row ∷ second_row ∷ first_row ∷ []

count-work_of_example :
    count (has_id 2) (flat (work_of (first_row ∷ second_row ∷ []) 2))
    ≡ count (has_id 2) (first_row ∷ second_row ∷ [])
count-work_of_example = count-work_of (has_id 2) (first_row ∷ second_row ∷ []) 2

claim_run : claim_batch 20 100 table ≡ first_row ∷ second_row ∷ []
unfolding claim_batch is_due sort_by insert_by
claim_run = refl

abbrev busy : List Row → Outcome
busy bucket = rate_limited none "Too Many Requests"

abbrev text : List Row → String
text bucket = "message"

first-In : In first_row (claim_batch 20 100 table)
first-In = rw claim_run (inl refl)

deliver_once-attempts_example :
    (q : Row) × (row_at 1 (deliver_once cfg 20 100 101 text busy table).0 ≡ some q)
    × IsAttempted 3 101 first_row q
deliver_once-attempts_example =
    deliver_once-attempts cfg 20 100 101 text busy table first_row (omega arith) first-In refl refl

later_unclaimed : count (has_id 3) (claim_batch 20 100 table) ≡ 0
later_unclaimed = rw claim_run refl

deliver_once-other_example :
    row_at 3 (deliver_once cfg 20 100 101 text busy table).0 ≡ row_at 3 table
deliver_once-other_example = deliver_once-other cfg 20 100 101 text busy table 3 later_unclaimed
