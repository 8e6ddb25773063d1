-- ===== src/Hunting/Loop/Bounds.antt =====
-- How many queries and searches a run of backend/apps/agentic/hunting/service.py comes to.
use soc_one.Base.{
  ℕ, suc, ◌≤◌, ◌≡◌, inl, inr, false, List, [], ◌∷◌, ◌==◌, leb, length, arith, Bool-cases,
}
use soc_one.Hunting.Plan.{
  Text, Target, QueryOutput, Config, Queries, Proposing, accept_query, propose_one, propose_all,
  start_proposing, propose_followup_queries, Persisted, persist_query, persist_queries,
  persist_hypotheses, persist_plan,
}
use soc_one.Hunting.Plan.Ceiling.{propose_followup_queries-ceiling}
use soc_one.Hunting.Loop.{
  World, Progress, HuntHypothesis, execute_pending, run_hypotheses, with_queries, pending_of,
}
use soc_one.Hunting.Loop.Keeps.{run_hypotheses-Settled}
use soc_one.Hunting.Loop.Searches.{
  IsSound, create_query-IsSound, IsKept, execute_pending-IsKept, pending_of-AreWaiting,
}

module _ (spent hypothesis : ℕ) where
  propose_one-IsSound :
      (q : QueryOutput) (state : Proposing)
      → IsSound spent state.table
      → IsSound spent (propose_one hypothesis q state).table
  unfolding propose_one accept_query
  propose_one-IsSound q state s = ground (
    arith,
    s,
    λ (target : Target) (text : Text).
        create_query-IsSound spent hypothesis target text state.position state.table s,
  )

  propose_all-IsSound :
      (queries : List QueryOutput) (state : Proposing)
      → IsSound spent state.table
      → IsSound spent (propose_all hypothesis queries state).table
  unfolding propose_all
  propose_all-IsSound [] state s = s
  propose_all-IsSound (q ∷ queries) state s = elim (Bool-cases (state.remaining == 0)) [
    | inl e ↦ rw e s
    | inr e ↦ rw e (
        propose_all-IsSound queries (propose_one hypothesis q state)
          (propose_one-IsSound q state s))
  ]

  persist_query-IsSound :
      (ceiling position : ℕ) (q : QueryOutput) (state : Persisted)
      → IsSound spent state.table
      → IsSound spent (persist_query ceiling hypothesis position q state).table
  unfolding persist_query
  persist_query-IsSound ceiling position q state s = ground (
    arith,
    s,
    λ (target : Target) (text : Text).
        create_query-IsSound spent hypothesis target text position state.table s,
  )

  persist_queries-IsSound :
      (ceiling position : ℕ) (queries : List QueryOutput) (state : Persisted)
      → IsSound spent state.table
      → IsSound spent (persist_queries ceiling hypothesis position queries state).table
  unfolding persist_queries
  persist_queries-IsSound ceiling position [] state s = s
  persist_queries-IsSound ceiling position (q ∷ queries) state s =
      persist_queries-IsSound ceiling (suc position) queries
        (persist_query ceiling hypothesis position q state)
        (persist_query-IsSound ceiling position q state s)

persist_hypotheses-IsSound :
    (spent ceiling hypothesis : ℕ) (hypotheses : List (List QueryOutput)) (state : Persisted)
    → IsSound spent state.table
    → IsSound spent (persist_hypotheses ceiling hypothesis hypotheses state).table
unfolding persist_hypotheses
persist_hypotheses-IsSound spent ceiling hypothesis [] state s = s
persist_hypotheses-IsSound spent ceiling hypothesis (queries ∷ hypotheses) state s =
    persist_hypotheses-IsSound spent ceiling (suc hypothesis) hypotheses
      (persist_queries ceiling hypothesis 0 queries state)
      (persist_queries-IsSound spent hypothesis ceiling 0 queries state s)

pub persist_plan-IsSound :
    (spent : ℕ) (config : Config) (hypothesis : ℕ) (hypotheses : List (List QueryOutput))
    (table : Queries)
    → IsSound spent table
    → IsSound spent (persist_plan config hypothesis hypotheses table).table
unfolding persist_plan
persist_plan-IsSound spent config hypothesis hypotheses table s =
    persist_hypotheses-IsSound spent config.max_queries_per_plan hypothesis hypotheses
      record { table = table; written = 0; dropped = 0 } s

propose_followup_queries-IsSound :
    (spent : ℕ) (config : Config) (hypothesis : ℕ) (output : List QueryOutput) (table : Queries)
    → IsSound spent table
    → IsSound spent (propose_followup_queries config hypothesis output table).table
unfolding propose_followup_queries start_proposing
propose_followup_queries-IsSound spent config hypothesis output table s =
    propose_all-IsSound spent hypothesis output (start_proposing config hypothesis table) s

-- Searches are covered by queries, and these stay within the bound.
abbrev pub IsBounded : ℕ → Progress → Type 0
IsBounded bound p = IsKept p × (length p.table.rows ≤ bound)

module _ (config : Config) (world : World) (bound : ℕ)
    (b : config.max_queries_per_plan ≤ bound) where
  executed-IsBounded :
      (h : HuntHypothesis) (p : Progress)
      → IsBounded bound p
      → IsBounded bound (execute_pending config world (pending_of config world h p) p).0
  executed-IsBounded h p (s, w) =
      let (kept, same) =
        execute_pending-IsKept config world (pending_of config world h p) p s
          (pending_of-AreWaiting config world h.id p.table.rows) in
      (kept, omega (arith, same, w))

  proposed-IsBounded :
      (id : ℕ) (output : List QueryOutput) (tokens : ℕ) (p : Progress)
      → leb config.max_tokens_per_plan p.tokens_used ≡ false
      → IsBounded bound p
      → IsBounded bound
          (with_queries config world (propose_followup_queries config id output p.table) tokens p)
  proposed-IsBounded id output tokens p _ (s, w) =
      let ceiling = propose_followup_queries-ceiling config id output p.table in
      (
        propose_followup_queries-IsSound (length p.searches) config id output p.table s,
        omega (arith, ceiling.0, ceiling.1, w, b),
      )

  pub run_hypotheses-IsBounded :
      (hypotheses : List HuntHypothesis) (p : Progress)
      → IsBounded bound p
      → IsBounded bound (run_hypotheses config world hypotheses p).0
  run_hypotheses-IsBounded hypotheses p w =
      (run_hypotheses-Settled config world (IsBounded bound)
        record {
          executed = executed-IsBounded;
          called = λ p k. k;
          found = λ id finding tokens p k. k;
          proposed = proposed-IsBounded;
        }
        hypotheses p w).0
