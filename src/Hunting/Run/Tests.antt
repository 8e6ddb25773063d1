-- ===== src/Hunting/Run/Tests.antt =====
-- Whole runs of hunt plans at small inputs.
use soc_one.Base.{ℕ, ◌≡◌, true, none, some, List, [], ◌∷◌, arith}
use soc_one.Base.Texts.{codes}
use soc_one.Hunting.Plan.{Text, Target, QueryOutput, Config, auto}
use soc_one.Hunting.Execute.{rows_found}
use soc_one.Hunting.Conclude.{FindingOutput}
use soc_one.Hunting.Loop.{World, Progress}
use soc_one.Hunting.Run.{
  ready, HuntPlan, folded, run_plan, Site, PlanAnswer, planned, generate_plan,
}
use soc_one.Hunting.Run.Safety.{IsWithin, generate_plan-IsWithin, run_plan-IsSpent}

abbrev config : Config
config = record {
  enabled = true;
  default_mode = "auto";
  allow_auto_mode = true;
  max_queries_per_plan = 3;
  max_tokens_per_plan = 50;
  max_iterations = 2;
  max_concurrent_searches = 1;
  max_plans_per_hour = 4;
}

abbrev unsure : FindingOutput
unsure = record { conclusion = codes "inconclusive"; evidence = [] }

abbrev next : List QueryOutput
next = record { target = codes "qradar"; query_text = codes "b" } ∷ []

abbrev world : World
world = record {
  ask = λ n target text. rows_found 2 text;
  find = λ calls id queries. some (unsure, 20);
  refine = λ calls id finding iteration queries. some (next, 10);
  written = λ id. [];
}

abbrev answer : PlanAnswer
answer = planned ((record { target = codes "qradar"; query_text = codes "a" } ∷ []) ∷ []) 10

abbrev site : Site
site = record { plans_this_hour = 0; next_query = 1; next_hypothesis = 1; slots = [] }

generate_plan-IsWithin_example : IsWithin config (generate_plan config world "auto" site answer).1
generate_plan-IsWithin_example = generate_plan-IsWithin config world "auto" site answer

abbrev started : ℕ → HuntPlan
started tokens = record {
  status = ready;
  mode = auto;
  stop_reason = folded soc_one.Hunting.Plan.no_reason;
  hypotheses_count = 1;
  llm_tokens = tokens;
  error = "";
}

abbrev progress : Progress
progress = record {
  table = record { rows = []; next_id = 1 };
  hypotheses = record { id = 1; position = 0; status = none } ∷ [];
  findings = [];
  slots = [];
  searches = [];
  tokens_used = 0;
  calls = 1;
}

run_plan-IsSpent_example :
    ((run_plan config world (started 50) progress).1.searches ≡ [])
    × ((run_plan config world (started 50) progress).1.table ≡ progress.table)
run_plan-IsSpent_example = run_plan-IsSpent config world (started 50) progress (omega arith)
