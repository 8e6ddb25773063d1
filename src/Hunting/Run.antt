-- ===== src/Hunting/Run.antt =====
-- `run_plan` and `generate_plan` of backend/apps/agentic/hunting/service.py. The model's plan is an argument,
-- the texts of a hypothesis and the times are left out.
pub mod Safety
pub mod Tests
use soc_one.Base.{
  ℕ, zero, suc, ◌+◌, ◌-◌, Bool, true, false, not, Option, none, some, List, [], ◌∷◌, String, ◌==◌,
  if◌then◌else◌, length,
}
use soc_one.Hunting.Plan.{
  Mode, advisory, auto, Reason, QueryOutput, Config, Queries, resolve_mode, persist_plan,
}
use soc_one.Hunting.Backends.{check_plan_rate_limit}
use soc_one.Hunting.Loop.{World, Progress, HuntHypothesis, Stop, run_hypotheses}

pub data PlanStatus : Type 0 where
  pending generating ready running completed failed budget_exhausted : PlanStatus

-- Why a plan is not what was asked for: the mode was folded, queries were dropped at the ceiling, or the run
-- stopped early.
pub data StopReason : Type 0 where
  folded : Reason → StopReason
  dropped : ℕ → ℕ → StopReason
  stopped : Stop → StopReason

-- `llm_tokens` are those of the call that generated it, 0 without one.
pub record HuntPlan : Type 0 where
  pub status : PlanStatus
  pub mode : Mode
  pub stop_reason : StopReason
  pub hypotheses_count : ℕ
  pub llm_tokens : ℕ
  pub error : String

abbrev pub finished : Option Stop → ℕ → HuntPlan → HuntPlan
finished none count plan = record plan { status = completed; hypotheses_count = count }
finished (some stop) count plan = record plan {
  status = budget_exhausted;
  stop_reason = stopped stop;
  hypotheses_count = count;
}

unfoldable pub run_plan : Config → World → HuntPlan → Progress → HuntPlan × Progress
unfolding run_hypotheses
run_plan config world plan p =
    let started = record plan { status = running } in
    let (after, stop) =
      run_hypotheses config world p.hypotheses (record p { tokens_used = plan.llm_tokens }) in
    (finished stop (length after.hypotheses) started, after)

-- What a generation is asked to start from: the hour's counter, the next ids, and the taken slots.
pub record Site : Type 0 where
  pub plans_this_hour : ℕ
  pub next_query : ℕ
  pub next_hypothesis : ℕ
  pub slots : List ℕ

-- The model's plan with its tokens, or why there is none.
pub data PlanAnswer : Type 0 where
  planned : List (List QueryOutput) → ℕ → PlanAnswer
  call_failed : String → PlanAnswer

pub data Outcome : Type 0 where
  disabled : Outcome
  over_ceiling : ℕ → Outcome
  generated : HuntPlan → Progress → Outcome

abbrev pub created_hypotheses : ℕ → ℕ → List (List QueryOutput) → List HuntHypothesis
created_hypotheses id position [] = []
created_hypotheses id position (queries ∷ hypotheses) =
    record { id = id; position = position; status = none }
    ∷ created_hypotheses (suc id) (suc position) hypotheses

abbrev pub new_plan : Mode × Reason → HuntPlan
new_plan (mode, why) = record {
  status = generating;
  mode = mode;
  stop_reason = folded why;
  hypotheses_count = 0;
  llm_tokens = 0;
  error = "";
}

abbrev pub no_progress : Site → Progress
no_progress site = record {
  table = record { rows = []; next_id = site.next_query };
  hypotheses = [];
  findings = [];
  slots = site.slots;
  searches = [];
  tokens_used = 0;
  calls = 0;
}

-- `plan.stop_reason` behind `_persist_plan`.
abbrev pub reason_after : ℕ → ℕ → StopReason → StopReason
reason_after zero ceiling why = why
reason_after (suc n) ceiling why = dropped (suc n) ceiling

-- The plan and its queries, as they are when it is ready.
unfoldable pub ready_plan :
    Config → Mode × Reason → Site → List (List QueryOutput) → ℕ → HuntPlan × Progress
unfolding persist_plan
ready_plan config mode site hypotheses tokens =
    let plan = new_plan mode in
    let start = no_progress site in
    let persisted = persist_plan config site.next_hypothesis hypotheses start.table in
    let rows = created_hypotheses site.next_hypothesis 0 hypotheses in
    (
      record plan {
        status = ready;
        stop_reason = reason_after persisted.dropped config.max_queries_per_plan plan.stop_reason;
        hypotheses_count = length rows;
        llm_tokens = tokens;
      },
      record start { table = persisted.table; hypotheses = rows; calls = 1 },
    )

abbrev pub outcome_of : HuntPlan × Progress → Outcome
outcome_of (plan, p) = generated plan p

-- With the mode that is in effect.
unfoldable pub settle_plan : Config → World → Mode × Reason → Site → PlanAnswer → Outcome
unfolding ready_plan run_plan
settle_plan config world mode site (call_failed error) =
    generated (record (new_plan mode) { status = failed; error = error })
      (record (no_progress site) { calls = 1 })
settle_plan config world (auto, why) site (planned hypotheses tokens) =
    let (plan, p) = ready_plan config (auto, why) site hypotheses tokens in
    outcome_of (run_plan config world plan p)
settle_plan config world (advisory, why) site (planned hypotheses tokens) =
    outcome_of (ready_plan config (advisory, why) site hypotheses tokens)

-- The hour's counter, and what the request comes to.
unfoldable pub generate_plan : Config → World → String → Site → PlanAnswer → ℕ × Outcome
unfolding settle_plan check_plan_rate_limit resolve_mode
generate_plan config world mode site answer =
    let (used, allowed) = check_plan_rate_limit config site.plans_this_hour in
    if not config.enabled
    then (site.plans_this_hour, disabled)
    else if allowed
    then (used, settle_plan config world (resolve_mode mode config) site answer)
    else (used, over_ceiling config.max_plans_per_hour)
