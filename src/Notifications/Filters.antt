-- ===== src/Notifications/Filters.antt =====
-- Quiet hours and destination filters of backend/apps/notifications/service.py.
use soc_one.Base.{
  ℕ, ◌+◌, ◌-◌, ◌%◌, ◌<◌, ◌≡◌, ◌↔◌, Bool, true, false, ◌&&◌, ◌||◌, not, Option, none, some, List, [],
  ◌∷◌, String, str_eq, ◌==◌, leb, ltb, if◌then◌else◌, any, arith,
}
use soc_one.Notifications.Outbox.{
  Event, triage_needs_human, event_name, Payload, Confidence, missing, unreadable, hundredths,
  Destination, severity_rank,
}

unfoldable pub in_quiet_hours : Option ℕ → Option ℕ → ℕ → Bool
in_quiet_hours none end hour = false
in_quiet_hours (some start) none hour = false
in_quiet_hours (some start) (some end) hour =
    if start == end
    then false
    else if ltb start end
    then leb start hour && ltb hour end
    else leb start hour || ltb hour end

unfoldable pub subscribes_to : Destination → Event → Bool
unfolding event_name
subscribes_to d event = elim d.event_types [
  | [] ↦ true
  | name ∷ names ↦ any (λ n. str_eq n (event_name event)) (name ∷ names)
]

abbrev is_needs_human : Event → Bool
is_needs_human triage_needs_human = true
is_needs_human _ = false

unfoldable pub confident : Confidence → ℕ → Bool
confident missing least = leb least 0
confident unreadable least = false
confident (hundredths c) least = leb least c

abbrev listed : List String → String → Bool
listed [] v = true
listed (f ∷ filter) v = any (λ g. str_eq g v) (f ∷ filter)

unfoldable pub passes_filters : Destination → Event → Payload → Bool
unfolding subscribes_to confident severity_rank
passes_filters d event p =
    if not (subscribes_to d event)
    then false
    else if not (str_eq d.min_severity "")
        && ltb (severity_rank p.severity) (severity_rank d.min_severity)
    then false
    else if not (d.min_confidence == 0)
        && not (is_needs_human event)
        && not (confident p.confidence d.min_confidence)
    then false
    else if not (listed d.verdict_filter p.verdict)
    then false
    else if not (listed d.source_filter p.source)
    then false
    else if not (str_eq d.min_asset_criticality "")
        && ltb (severity_rank p.asset_criticality) (severity_rank d.min_asset_criticality)
    then false
    else true

-- With start, end and hour below 24, the quiet hours are those that a clock shows from the start on, itself
-- included, and before it next shows the end: over midnight where the end is the smaller, and none where the
-- two agree.
pub in_quiet_hours-elapsed :
    (start end hour : ℕ)
    → start < 24
    → end < 24
    → hour < 24
    → (in_quiet_hours (some start) (some end) hour ≡ true)
      ↔ ((elapsed : ℕ) × (elapsed < (end + 24 - start) % 24) × (hour ≡ (start + elapsed) % 24))
unfolding in_quiet_hours
in_quiet_hours-elapsed start end hour s e h =
    (λ q. ((hour + 24 - start) % 24, ground arith, omega arith), λ (elapsed, l, t). ground arith)

-- A result that needs a human is never held back by its low confidence.
pub needs_human_unfiltered :
    (d : Destination) (p : Payload) (c : Confidence) (least : ℕ)
    → passes_filters
        (record d { min_confidence = least })
        triage_needs_human
        (record p { confidence = c })
      ≡ passes_filters d triage_needs_human p
unfolding passes_filters
needs_human_unfiltered d p c least = ground arith
