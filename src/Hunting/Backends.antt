-- ===== src/Hunting/Backends.antt =====
-- `_execute_qradar`, `_execute_trellix` and `_check_plan_rate_limit` of
-- backend/apps/agentic/hunting/service.py. The AQL guard, the clients and the durations are left to
-- arguments or out; `search_historical` refuses by raising `EdrQueryRejected`.
use Prim.Native.String.{◌++◌ as str_append}
use soc_one.Base.{
  ℕ, zero, suc, ◌+◌, ◌-◌, ◌≡◌, Bool, List, ◌∷◌, String, leb, min, if◌then◌else◌, arith,
}
use soc_one.Hunting.Plan.{Text, Target, qradar, trellix, Config}
use soc_one.Hunting.Execute.{SearchAnswer, rows_found, guard_refused, search_failed}

pub data Guarded : Type 0 where
  passed : Text → Guarded
  blocked : String → String → Guarded

pub data ClientAnswer : Type 0 where
  returned : ℕ → ClientAnswer
  rejected : String → String → ClientAnswer
  raised : String → ClientAnswer

-- The audit's records.
pub data Record : Type 0 where
  blocked_query : Target → Text → String → Record
  executed_query : Target → Text → ℕ → Record

abbrev pub Audited : Type 0
Audited = SearchAnswer × List Record

module _ (guard : Text → Guarded) (client : Text → ClientAnswer) where
  abbrev qradar_answer : Text → ClientAnswer → List Record → Audited
  qradar_answer query (returned count) log =
      (rows_found count query, executed_query qradar query count ∷ log)
  qradar_answer query (rejected reason error) log = (search_failed error, log)
  qradar_answer query (raised error) log = (search_failed error, log)

  unfoldable pub execute_qradar : Text → List Record → Audited
  execute_qradar text log = elim (guard text) [
    | blocked reason detail ↦ (
      guard_refused (str_append reason (str_append ": " detail)),
      blocked_query qradar text reason ∷ log,
    )
    | passed query ↦ qradar_answer query (client query) log
  ]

unfoldable pub execute_trellix : (Text → ClientAnswer) → Text → List Record → Audited
execute_trellix client text log = elim (client text) [
  | returned count ↦ (rows_found count text, executed_query trellix text count ∷ log)
  | rejected reason error ↦ (guard_refused error, blocked_query trellix text reason ∷ log)
  | raised error ↦ (search_failed error, log)
]

-- The counter of the hour's plans, and whether this one may go on.
unfoldable pub check_plan_rate_limit : Config → ℕ → ℕ × Bool
check_plan_rate_limit config used = (suc used, leb (suc used) config.max_plans_per_hour)

-- So many requests in one hour, and how many of them go on.
abbrev pub requests : Config → ℕ → ℕ → ℕ
requests config zero used = 0
requests config (suc n) used =
    let (after, allowed) = check_plan_rate_limit config used in
    (if allowed then 1 else 0) + requests config n after

-- Of the requests of an hour just so many go on as the ceiling leaves.
pub requests-check_plan_rate_limit :
    (config : Config) (n used : ℕ)
    → requests config n used ≡ min n (config.max_plans_per_hour - used)
unfolding check_plan_rate_limit
requests-check_plan_rate_limit config zero used = omega arith
requests-check_plan_rate_limit config (suc n) used =
    ground (arith, requests-check_plan_rate_limit config n (suc used))
