-- ===== src/Hunting/Plan.antt =====
-- Hunt plans: backend/apps/agentic/hunting/service.py. The text of a query is a list of character codes;
-- the other texts of a query and of a hypothesis are only passed on and left out.
pub mod Ceiling
use soc_one.Base.{
  ℕ, zero, suc, ◌+◌, ◌-◌, Bool, true, false, ◌&&◌, ◌||◌, not, Option, none, some, List, [], ◌∷◌,
  ◌++◌, String, str_eq, ◌==◌, leb, ltb, if◌then◌else◌, any, keep, length, map, max,
}
use soc_one.Base.Texts.{codes, lower, strip, same_codes}

abbrev pub Text : Type 0
Text = List ℕ

pub data Mode : Type 0 where
  advisory auto : Mode

pub data Reason : Type 0 where
  no_reason auto_disabled : Reason
  unknown_mode : String → Reason

pub data Target : Type 0 where
  qradar trellix : Target

pub data QueryStatus : Type 0 where
  pending rejected running succeeded failed skipped : QueryStatus

pub record HuntQuery : Type 0 where
  pub id : ℕ
  pub hypothesis : ℕ
  pub target : Target
  pub query_text : Text
  pub position : ℕ
  pub status : QueryStatus
  pub guard_rejection_reason : String
  pub error : String
  pub row_count : Option ℕ

-- What the model proposes.
pub record QueryOutput : Type 0 where
  pub target : Text
  pub query_text : Text

pub record Config : Type 0 where
  pub enabled : Bool
  pub default_mode : String
  pub allow_auto_mode : Bool
  pub max_queries_per_plan : ℕ
  pub max_tokens_per_plan : ℕ
  pub max_iterations : ℕ
  pub max_concurrent_searches : ℕ
  pub max_plans_per_hour : ℕ

abbrev fold_mode : Bool → String → Mode × Reason
fold_mode allowed requested =
    if str_eq requested "auto"
    then (if allowed then (auto, no_reason) else (advisory, auto_disabled))
    else if str_eq requested "advisory"
    then (advisory, no_reason)
    else (advisory, unknown_mode requested)

-- An empty text stands for no requested mode.
unfoldable pub resolve_mode : String → Config → Mode × Reason
resolve_mode requested_mode config =
    fold_mode config.allow_auto_mode
      (if str_eq requested_mode "" then config.default_mode else requested_mode)

-- `(query_out.target or "").strip().lower()`, where it is a target
unfoldable pub target_of : Text → Option Target
unfolding lower strip same_codes
target_of text =
    let name = lower (strip text) in
    if same_codes name (codes "qradar")
    then some qradar
    else if same_codes name (codes "trellix")
    then some trellix
    else none

-- The table of the queries, latest first, and the next id.
pub record Queries : Type 0 where
  pub rows : List HuntQuery
  pub next_id : ℕ

unfoldable pub create_query : ℕ → Target → Text → ℕ → Queries → Queries
create_query hypothesis target text position table = record {
  rows =
      record {
        id = table.next_id;
        hypothesis = hypothesis;
        target = target;
        query_text = text;
        position = position;
        status = pending;
        guard_rejection_reason = "";
        error = "";
        row_count = none;
      }
      ∷ table.rows;
  next_id = suc table.next_id;
}

-- The table with `written_queries` and `dropped`.
pub record Persisted : Type 0 where
  pub table : Queries
  pub written : ℕ
  pub dropped : ℕ

abbrev drop_query : Persisted → Persisted
drop_query state = record state { dropped = suc state.dropped }

-- One round of the inner loop of `_persist_plan`.
unfoldable pub persist_query : ℕ → ℕ → ℕ → QueryOutput → Persisted → Persisted
unfolding create_query target_of strip
persist_query max_queries hypothesis position query state =
    if leb max_queries state.written then drop_query state else elim (target_of query.target) [
      | none ↦ drop_query state
      | some target ↦ record state {
        table = create_query hypothesis target (strip query.query_text) position state.table;
        written = suc state.written;
      }
    ]

unfoldable pub persist_queries : ℕ → ℕ → ℕ → List QueryOutput → Persisted → Persisted
persist_queries max_queries hypothesis position [] state = state
persist_queries max_queries hypothesis position (query ∷ queries) state =
    persist_queries max_queries hypothesis (suc position) queries
      (persist_query max_queries hypothesis position query state)

-- The outer loop, the hypotheses numbered from the first id that is free.
unfoldable pub persist_hypotheses : ℕ → ℕ → List (List QueryOutput) → Persisted → Persisted
persist_hypotheses max_queries hypothesis [] state = state
persist_hypotheses max_queries hypothesis (queries ∷ hypotheses) state =
    persist_hypotheses max_queries (suc hypothesis) hypotheses
      (persist_queries max_queries hypothesis 0 queries state)

unfoldable pub persist_plan : Config → ℕ → List (List QueryOutput) → Queries → Persisted
persist_plan config hypothesis hypotheses table =
    persist_hypotheses config.max_queries_per_plan hypothesis hypotheses
      record { table = table; written = 0; dropped = 0 }

-- The state of the loop of `propose_followup_queries`: the table, the texts seen, the next position, how
-- many queries may still be written, and the created ones.
pub record Proposing : Type 0 where
  pub table : Queries
  pub seen_text : List Text
  pub position : ℕ
  pub remaining : ℕ
  pub created : ℕ

abbrev pub seen : List Text → Text → Bool
seen texts text = any (λ t. same_codes t text) texts

unfoldable pub accept_query : ℕ → Target → Text → Proposing → Proposing
unfolding create_query lower
accept_query hypothesis target text state = record {
  table = create_query hypothesis target text state.position state.table;
  seen_text = lower text ∷ state.seen_text;
  position = suc state.position;
  remaining = state.remaining - 1;
  created = suc state.created;
}

abbrev is_empty : Text → Bool
is_empty [] = true
is_empty (c ∷ cs) = false

unfoldable pub propose_one : ℕ → QueryOutput → Proposing → Proposing
unfolding accept_query target_of strip lower same_codes
propose_one hypothesis query state =
    let text = strip query.query_text in
    elim (target_of query.target) [
      | none ↦ state
      | some target ↦
          if is_empty text
          then state
          else if seen state.seen_text (lower text)
          then state
          else accept_query hypothesis target text state
    ]

unfoldable pub propose_all : ℕ → List QueryOutput → Proposing → Proposing
propose_all hypothesis [] state = state
propose_all hypothesis (query ∷ queries) state =
    let rest = propose_all hypothesis queries (propose_one hypothesis query state) in
    if state.remaining == 0 then state else rest

abbrev pub of_hypothesis : ℕ → HuntQuery → Bool
of_hypothesis hypothesis q = q.hypothesis == hypothesis

-- `max((query.position for query in queries), default=-1) + 1`
unfoldable pub next_position : List HuntQuery → ℕ
next_position [] = 0
next_position (q ∷ queries) = max (suc q.position) (next_position queries)

-- The state before the loop; the table holds one plan's queries.
unfoldable pub start_proposing : Config → ℕ → Queries → Proposing
unfolding next_position lower strip
start_proposing config hypothesis table =
    let queries = keep (of_hypothesis hypothesis) table.rows in
    record {
      table = table;
      seen_text = map (λ q. lower (strip q.query_text)) queries;
      position = next_position queries;
      remaining = config.max_queries_per_plan - length table.rows;
      created = 0;
    }

-- `propose_followup_queries` once the model has answered.
unfoldable pub propose_followup_queries : Config → ℕ → List QueryOutput → Queries → Proposing
unfolding start_proposing propose_all
propose_followup_queries config hypothesis output table =
    propose_all hypothesis output (start_proposing config hypothesis table)
