-- ===== src/Hunting/Loop/Budget.antt =====
-- A plan of backend/apps/agentic/hunting/service.py whose tokens have reached the ceiling.
use soc_one.Base.{ℕ, ◌≡◌, true, false, List, [], ◌∷◌, leb, arith}
use soc_one.Hunting.Plan.{
  Target, Text, HuntQuery, QueryOutput, Queries, Config, propose_followup_queries,
}
use soc_one.Hunting.Conclude.{Finding}
use soc_one.Hunting.Loop.{
  World, Progress, HuntHypothesis, execute_pending, run_hypotheses, with_finding, with_queries,
  pending_of,
}
use soc_one.Hunting.Loop.Keeps.{run_hypotheses-Settled}

module _ (config : Config) (world : World) (searches : List (Target × Text)) (table : Queries) where
  -- The ceiling is reached, and neither the searches nor the queries have changed.
  abbrev pub IsSpent : Progress → Type 0
  IsSpent p =
      (leb config.max_tokens_per_plan p.tokens_used ≡ true)
      × (p.searches ≡ searches)
      × (p.table ≡ table)

  executed-IsSpent :
      (queries : List HuntQuery) (p : Progress)
      → IsSpent p
      → IsSpent (execute_pending config world queries p).0
  unfolding execute_pending
  executed-IsSpent [] p s = s
  executed-IsSpent (q ∷ queries) p s = rw (s.0) s

  found-IsSpent :
      (id : ℕ) (finding : Finding) (tokens : ℕ) (p : Progress)
      → IsSpent p
      → IsSpent (with_finding config world id finding tokens p)
  found-IsSpent id finding tokens p s = (ground (arith, s.0), s.1, s.2)

  proposed-IsSpent :
      (id : ℕ) (output : List QueryOutput) (tokens : ℕ) (p : Progress)
      → leb config.max_tokens_per_plan p.tokens_used ≡ false
      → IsSpent p
      → IsSpent
          (with_queries config world (propose_followup_queries config id output p.table) tokens p)
  proposed-IsSpent id output tokens p b s = absurd (ground (arith, b, s.0))

  pub run_hypotheses-IsSpent :
      (hypotheses : List HuntHypothesis) (p : Progress)
      → IsSpent p
      → IsSpent (run_hypotheses config world hypotheses p).0
  run_hypotheses-IsSpent hypotheses p s =
      (run_hypotheses-Settled config world IsSpent
        record {
          executed = λ h p k. executed-IsSpent (pending_of config world h p) p k;
          called = λ p k. k;
          found = found-IsSpent;
          proposed = proposed-IsSpent;
        }
        hypotheses p s).0
