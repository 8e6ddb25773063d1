-- ===== src/Hunting/Plan/Ceiling.antt =====
-- The ceilings of backend/apps/agentic/hunting/service.py on the queries of a plan, and its mode.
use soc_one.Base.{
  ℕ, suc, ◌+◌, ◌-◌, ◌≤◌, ◌<◌, ◌≡◌, refl, ◌↔◌, true, List, [], ◌∷◌, String, str_eq, ◌==◌, leb,
  if◌then◌else◌, length, arith, Bool-cases, Option-cases, inl, inr,
}
use soc_one.Hunting.Plan.{
  auto, QueryOutput, Config, resolve_mode, target_of, Queries, create_query, Persisted,
  persist_query, persist_queries, persist_hypotheses, persist_plan, Proposing, accept_query,
  propose_one, propose_all, propose_followup_queries, start_proposing,
}

-- A plan runs on its own only where auto mode is allowed and asked for, by the request or, where it names
-- no mode, by the default.
pub resolve_mode-auto :
    (requested : String) (config : Config)
    → ((resolve_mode requested config).0 ≡ auto) ↔ (
        (config.allow_auto_mode ≡ true)
        × (str_eq (if str_eq requested "" then config.default_mode else requested) "auto" ≡ true))
unfolding resolve_mode
resolve_mode-auto requested config = (λ h. ground arith, λ h. ground arith)

-- Of `seen` queries so far each is written or dropped, and the written ones are within the ceiling and
-- stand in the table.
abbrev IsCounted : ℕ → ℕ → ℕ → Persisted → Type 0
IsCounted before ceiling total state =
    (state.written ≤ ceiling)
    × (state.written + state.dropped ≡ total)
    × (length state.table.rows ≡ before + state.written)

module _ (before ceiling hypothesis : ℕ) where
  persist_query-IsCounted :
      (position total : ℕ) (q : QueryOutput) (state : Persisted)
      → IsCounted before ceiling total state
      → IsCounted before ceiling (suc total) (persist_query ceiling hypothesis position q state)
  unfolding persist_query create_query
  persist_query-IsCounted position total q state h = elim (Bool-cases (leb ceiling state.written)) [
    | inl e ↦ rw e (h.0, omega (arith, h.1), h.2)
    | inr e ↦ rw e (elim (Option-cases (target_of q.target)) [
      | inl n ↦ rw n (h.0, omega (arith, h.1), h.2)
      | inr (t, n) ↦ rw n (ground arith, omega (arith, h.1), omega (arith, h.2))
    ])
  ]

  persist_queries-IsCounted :
      (position total : ℕ) (queries : List QueryOutput) (state : Persisted)
      → IsCounted before ceiling total state
      → IsCounted before ceiling
          (total + length queries)
          (persist_queries ceiling hypothesis position queries state)
  unfolding persist_queries
  persist_queries-IsCounted position total [] state h = ground arith
  persist_queries-IsCounted position total (q ∷ queries) state h = ground (
    arith,
    persist_queries-IsCounted (suc position) (suc total) queries
        (persist_query ceiling hypothesis position q state)
        (persist_query-IsCounted position total q state h),
  )

-- All queries that the model generated.
abbrev pub generated : List (List QueryOutput) → ℕ
generated [] = 0
generated (queries ∷ hypotheses) = length queries + generated hypotheses

persist_hypotheses-IsCounted :
    (before ceiling hypothesis total : ℕ) (hypotheses : List (List QueryOutput)) (state : Persisted)
    → IsCounted before ceiling total state
    → IsCounted before ceiling
        (total + generated hypotheses)
        (persist_hypotheses ceiling hypothesis hypotheses state)
unfolding persist_hypotheses
persist_hypotheses-IsCounted before ceiling hypothesis total [] state h = ground arith
persist_hypotheses-IsCounted before ceiling hypothesis total (qs ∷ hypotheses) state h = ground (
  arith,
  persist_hypotheses-IsCounted before ceiling (suc hypothesis) (total + length qs) hypotheses
      (persist_queries ceiling hypothesis 0 qs state)
      (persist_queries-IsCounted before ceiling hypothesis 0 total qs state h),
)

-- A generated plan writes at most as many queries as the ceiling allows, the table grows by just those,
-- and every generated query is either written or counted as dropped.
pub persist_plan-ceiling :
    (config : Config) (hypothesis : ℕ) (hypotheses : List (List QueryOutput)) (table : Queries)
    → let after = persist_plan config hypothesis hypotheses table in
      (after.written ≤ config.max_queries_per_plan)
      × (after.written + after.dropped ≡ generated hypotheses)
      × (length after.table.rows ≡ length table.rows + after.written)
unfolding persist_plan
persist_plan-ceiling config hypothesis hypotheses table =
    let counted =
      persist_hypotheses-IsCounted (length table.rows) config.max_queries_per_plan hypothesis 0
        hypotheses record { table = table; written = 0; dropped = 0 }
        (omega arith, refl, omega arith) in
    (counted.0, omega (arith, counted.1), counted.2)

abbrev IsWithin : ℕ → ℕ → Proposing → Type 0
IsWithin before allowance state =
    (length state.table.rows ≡ before + state.created)
    × (state.created + state.remaining ≡ allowance)

module _ (before allowance hypothesis : ℕ) where
  propose_one-IsWithin :
      (q : QueryOutput) (state : Proposing)
      → 0 < state.remaining
      → IsWithin before allowance state
      → IsWithin before allowance (propose_one hypothesis q state)
  unfolding propose_one accept_query create_query
  propose_one-IsWithin q state r h = ground arith

  propose_all-IsWithin :
      (queries : List QueryOutput) (state : Proposing)
      → IsWithin before allowance state
      → IsWithin before allowance (propose_all hypothesis queries state)
  unfolding propose_all
  propose_all-IsWithin [] state h = h
  propose_all-IsWithin (q ∷ queries) state h = elim (Bool-cases (state.remaining == 0)) [
    | inl e ↦ rw e h
    | inr e ↦ rw e (
        propose_all-IsWithin queries (propose_one hypothesis q state)
          (propose_one-IsWithin q state (ground arith) h))
  ]

-- Refining never takes a plan over its ceiling: the table grows by the created queries, and these are at
-- most what the ceiling leaves.
pub propose_followup_queries-ceiling :
    (config : Config) (hypothesis : ℕ) (output : List QueryOutput) (table : Queries)
    → let after = propose_followup_queries config hypothesis output table in
      (length after.table.rows ≡ length table.rows + after.created)
      × (after.created ≤ config.max_queries_per_plan - length table.rows)
unfolding propose_followup_queries start_proposing
propose_followup_queries-ceiling config hypothesis output table =
    let allowance = config.max_queries_per_plan - length table.rows in
    let within =
      propose_all-IsWithin (length table.rows) allowance hypothesis output
        (start_proposing config hypothesis table) (omega arith, omega arith) in
    (within.0, omega (arith, within.1))
