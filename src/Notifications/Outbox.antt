-- ===== src/Notifications/Outbox.antt =====
-- The tables of backend/apps/notifications/models.py and the events of
-- backend/apps/notifications/events.py. The outbox is the list of its rows, newest first, which is the
-- order of the model. Times are seconds; confidences are hundredths.
use Prim.Native.String.{◌++◌}
use soc_one.Base.Texts.{codes, is_upper, same_codes}
use soc_one.Base.{
  ℕ, suc, ◌+◌, ◌-◌, Bool, true, false, ◌&&◌, ◌||◌, Option, none, some, List, [], ◌∷◌, String,
  str_eq, leb, if◌then◌else◌,
}

pub data Event : Type 0 where
  triage_completed triage_needs_human discovery_created hunt_finding_confirmed : Event
  audit_critical_finding worker_unhealthy mssp_sync_failed integration_auth_failed : Event

unfoldable pub event_name : Event → String
event_name triage_completed = "triage.completed"
event_name triage_needs_human = "triage.needs_human"
event_name discovery_created = "discovery.created"
event_name hunt_finding_confirmed = "hunt.finding_confirmed"
event_name audit_critical_finding = "audit.critical_finding"
event_name worker_unhealthy = "system.worker_unhealthy"
event_name mssp_sync_failed = "mssp.sync_failed"
event_name integration_auth_failed = "integration.auth_failed"

abbrev all_events : List Event
all_events =
    triage_completed ∷ triage_needs_human ∷ discovery_created ∷ hunt_finding_confirmed
    ∷ audit_critical_finding ∷ worker_unhealthy ∷ mssp_sync_failed ∷ integration_auth_failed ∷ []

-- `event_type in VALID_EVENTS`, with the member that the name stands for.
unfoldable pub find_event : String → List Event → Option Event
unfolding event_name
find_event name [] = none
find_event name (e ∷ events) = if str_eq (event_name e) name then some e else find_event name events

unfoldable pub valid_event : String → Option Event
unfolding find_event
valid_event name = find_event name all_events

-- `CRITICAL_EVENTS`
unfoldable pub is_critical : Event → Bool
is_critical audit_critical_finding = true
is_critical worker_unhealthy = true
is_critical integration_auth_failed = true
is_critical _ = false

abbrev is_lower : ℕ → Bool
is_lower c = leb b'a' c && leb c b'z'

-- `str.title()` on ASCII text: a letter behind a letter is small, any other letter is a capital.
unfoldable pub title_from : Bool → List ℕ → List ℕ
title_from behind [] = []
title_from behind (c ∷ cs) =
    let rest = title_from (is_upper c || is_lower c) cs in
    if behind
    then (if is_upper c then c + 32 else c) ∷ rest
    else (if is_lower c then c - 32 else c) ∷ rest

-- One more than the place of a text in `SEVERITY_ORDER`, and 0 for any other (-1 in the source).
unfoldable pub index_from : ℕ → List String → List ℕ → ℕ
unfolding same_codes
index_from place [] text = 0
index_from place (s ∷ order) text =
    if same_codes (codes s) text then place else index_from (suc place) order text

unfoldable pub severity_rank : String → ℕ
unfolding index_from title_from
severity_rank value =
    index_from 1 ("Informational" ∷ "Low" ∷ "Medium" ∷ "High" ∷ "Critical" ∷ [])
      (title_from false (codes value))

-- What `float(payload.get("confidence") or 0.0)` finds.
pub data Confidence : Type 0 where
  missing unreadable : Confidence
  hundredths : ℕ → Confidence

-- The payload's keys that the queueing side reads; an empty text stands for a missing one.
pub record Payload : Type 0 where
  pub severity : String
  pub confidence : Confidence
  pub verdict : String
  pub source : String
  pub asset_criticality : String
  pub case_id : String
  pub discovery_id : String
  pub entity : String

pub record Destination : Type 0 where
  pub id : ℕ
  pub event_types : List String
  pub min_severity : String
  pub min_confidence : ℕ
  pub verdict_filter : List String
  pub source_filter : List String
  pub min_asset_criticality : String

pub data Status : Type 0 where
  pending sent failed suppressed : Status

pub record Row : Type 0 where
  pub id : ℕ
  pub event : Event
  -- `none` once the destination is deleted
  pub destination : Option ℕ
  pub payload : Payload
  pub status : Status
  pub attempts : ℕ
  pub last_error : String
  pub aggregated_count : ℕ
  pub dedup_key : String
  pub created_at : ℕ
  pub scheduled_for : Option ℕ
  pub sent_at : Option ℕ
  pub rendered_text : String

pub record Outbox : Type 0 where
  pub rows : List Row
  pub next_id : ℕ

pub record Config : Type 0 where
  pub enabled : Bool
  pub bot_token : String
  pub retry_limit : ℕ
  pub aggregation_window_seconds : ℕ
  pub aggregation_threshold : ℕ
  pub quiet_hours_start : Option ℕ
  pub quiet_hours_end : Option ℕ

abbrev or_text : String → String → String
or_text a b = if str_eq a "" then b else a

-- `build_dedup_key`; the argument is SHA-256 in hexadecimal, cut to 32 digits.
unfoldable pub build_dedup_key : (String → String) → Event → Payload → String
unfolding event_name
build_dedup_key digest event p =
    let subject = or_text p.case_id (or_text p.discovery_id p.entity) in
    digest (event_name event ++ ("|" ++ (subject ++ ("|" ++ p.verdict))))
