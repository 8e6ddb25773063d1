-- ===== src/Hunting/Tests.antt =====
-- Runs of the hunt plans at small inputs.
use soc_one.Base.{◌↔◌, ℕ, ◌+◌, ◌≤◌, ◌≡◌, refl, true, none, List, [], ◌∷◌, In, length}
use soc_one.Base.Texts.{codes, same_codes, lower, strip, strip_left, strip_right}
use soc_one.Hunting.Plan.{
  Text, Target, qradar, succeeded, pending, HuntQuery, QueryOutput, Config, Queries, persist_plan,
}
use soc_one.Hunting.Plan.Ceiling.{generated, persist_plan-ceiling}
use soc_one.Hunting.Execute.{
  Run, SearchAnswer, rows_found, execute_query, execute_query-IsGuarded, IsGuarded, IsSettled,
}
use soc_one.Hunting.EdrGuard.{refused, write_operation, guard_edr_search, Config as EdrConfig}
use soc_one.Hunting.EdrGuard.Writes.{HasVerb, guard_edr_search-iff-HasVerb}
use soc_one.Hunting.Conclude.{
  Evidence, FindingOutput, confirmed, refuted, conclude_hypothesis, conclude_hypothesis-confirmed,
  conclude_hypothesis-refuted, read_conclusion, settle, valid_evidence, is_valid, kept_item,
  is_executed,
}

abbrev cfg : Config
cfg = record {
  enabled = true;
  default_mode = "advisory";
  allow_auto_mode = true;
  max_queries_per_plan = 1;
  max_tokens_per_plan = 100;
  max_iterations = 2;
  max_concurrent_searches = 2;
  max_plans_per_hour = 5;
}

abbrev proposed : List QueryOutput
proposed =
    record { target = codes " QRadar "; query_text = codes "select a" }
    ∷ record { target = codes "splunk"; query_text = codes "search b" }
    ∷ []

abbrev table : Queries
table = record { rows = []; next_id = 1 }

persist_plan-ceiling_example :
    let after = persist_plan cfg 1 (proposed ∷ []) table in
    (after.written ≤ 1)
    × (after.written + after.dropped ≡ generated (proposed ∷ []))
    × (length after.table.rows ≡ 0 + after.written)
persist_plan-ceiling_example = persist_plan-ceiling cfg 1 (proposed ∷ []) table

abbrev query : HuntQuery
query = record {
  id = 7;
  hypothesis = 1;
  target = qradar;
  query_text = codes "select a";
  position = 0;
  status = pending;
  guard_rejection_reason = "";
  error = "";
  row_count = none;
}

abbrev run : Run
run = record { query = query; slots = 0 ∷ []; searches = [] }

abbrev answer : Target → Text → SearchAnswer
answer target text = rows_found 3 text

execute_query-IsGuarded_example :
    let after = execute_query cfg answer run in
    IsGuarded cfg run after × (after.slots ≡ 0 ∷ []) × IsSettled after.query
execute_query-IsGuarded_example = execute_query-IsGuarded cfg answer run

abbrev done : HuntQuery
done = record query { status = succeeded }

abbrev written : ℕ → Text
written n = codes "7"

abbrev evidence : Evidence
evidence = record { kind = codes "hunt_query"; reference = codes " 7"; note = [] }

abbrev confirming : FindingOutput
confirming = record { conclusion = codes "Confirmed"; evidence = evidence ∷ [] }

confirming-confirmed : (conclude_hypothesis written (done ∷ []) confirming).conclusion ≡ confirmed
unfolding conclude_hypothesis read_conclusion settle valid_evidence is_valid kept_item is_executed
    lower strip strip_left strip_right same_codes
confirming-confirmed = refl

conclude_hypothesis-confirmed_example :
    (e : Evidence) × In e (conclude_hypothesis written (done ∷ []) confirming).evidence
    × ((q : HuntQuery) × In q (done ∷ []) × (same_codes (written q.id) e.reference ≡ true))
conclude_hypothesis-confirmed_example =
    conclude_hypothesis-confirmed written (done ∷ []) confirming confirming-confirmed

abbrev refuting : FindingOutput
refuting = record { conclusion = codes "refuted"; evidence = [] }

refuting-refuted : (conclude_hypothesis written (done ∷ []) refuting).conclusion ≡ refuted
unfolding conclude_hypothesis read_conclusion settle valid_evidence is_valid kept_item is_executed
    lower strip strip_left strip_right same_codes
refuting-refuted = refl

conclude_hypothesis-refuted_example : (q : HuntQuery) × In q (done ∷ []) × (q.status ≡ succeeded)
conclude_hypothesis-refuted_example =
    conclude_hypothesis-refuted written (done ∷ []) refuting refuting-refuted

abbrev edr : EdrConfig
edr = record { max_window_hours = 24; max_rows = 100 }

guard_edr_search-iff-HasVerb_example :
    (guard_edr_search (codes "host; DELETE x") none 500 [] edr 200 ≡ refused write_operation)
    ↔ HasVerb (strip (codes "host; DELETE x"))
guard_edr_search-iff-HasVerb_example =
    guard_edr_search-iff-HasVerb (codes "host; DELETE x") none 500 [] edr 200
