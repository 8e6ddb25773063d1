-- ===== src/Hunting/Run/Safety.antt =====
-- What `run_plan` and `generate_plan` of backend/apps/agentic/hunting/service.py stay within.
use soc_one.Base.{
  All, ℕ, ◌+◌, ◌≤◌, ◌≡◌, refl, sym, subst, ◌⊎◌, inl, inr, true, not, Option, none, some, List, [],
  String, if◌then◌else◌, length, arith, if-cases,
}
use soc_one.Hunting.Plan.{Mode, advisory, auto, Reason, QueryOutput, Config, resolve_mode}
use soc_one.Hunting.Plan.Ceiling.{resolve_mode-auto, persist_plan-ceiling}
use soc_one.Hunting.Backends.{check_plan_rate_limit}
use soc_one.Hunting.Loop.{World, Progress, Stop, run_hypotheses}
use soc_one.Hunting.Loop.Searches.{IsSound}
use soc_one.Hunting.Loop.Bounds.{IsBounded, run_hypotheses-IsBounded, persist_plan-IsSound}
use soc_one.Hunting.Loop.Open.{is_open}
use soc_one.Base.Sort.{count}
use soc_one.Hunting.Loop.Budget.{run_hypotheses-IsSpent}
use soc_one.Hunting.Run.{
  completed, budget_exhausted, stopped, HuntPlan, finished, run_plan, Site, PlanAnswer, planned,
  call_failed, Outcome, disabled, over_ceiling, generated, no_progress, ready_plan, settle_plan,
  generate_plan,
}

-- A run whose tokens have already reached the ceiling searches nothing and leaves its queries as they are,
-- whatever the model says.
pub run_plan-IsSpent :
    (config : Config) (world : World) (plan : HuntPlan) (p : Progress)
    → config.max_tokens_per_plan ≤ plan.llm_tokens
    → ((run_plan config world plan p).1.searches ≡ p.searches)
      × ((run_plan config world plan p).1.table ≡ p.table)
unfolding run_plan
run_plan-IsSpent config world plan p h =
    let spent =
      run_hypotheses-IsSpent config world p.searches p.table p.hypotheses
        (record p { tokens_used = plan.llm_tokens }) (ground (arith, h), refl, refl) in
    (spent.1, spent.2)

-- How a plan that ran from one state to another tells its end: completed with its reason unchanged, the model
-- asked for every hypothesis and none of their queries pending; or stopped, with the place as its reason, the ceiling on tokens reached.
abbrev pub IsTold : Config → HuntPlan → HuntPlan → Progress → Progress → Type 0
IsTold config plan after p progress =
    ((after.status ≡ completed)
      × (after.stop_reason ≡ plan.stop_reason)
      × (p.calls + length p.hypotheses ≤ progress.calls)
      × All (λ h. count (is_open h.id) progress.table.rows ≡ 0) p.hypotheses)
    ⊎ ((after.status ≡ budget_exhausted)
        × ((s : Stop) × (after.stop_reason ≡ stopped s))
        × (config.max_tokens_per_plan ≤ progress.tokens_used))

run_plan-IsBounded :
    (config : Config) (world : World) (plan : HuntPlan) (p : Progress)
    → IsBounded config.max_queries_per_plan p
    → IsBounded config.max_queries_per_plan (run_plan config world plan p).1
unfolding run_plan
run_plan-IsBounded config world plan p s =
    run_hypotheses-IsBounded config world config.max_queries_per_plan (omega arith) p.hypotheses
      (record p { tokens_used = plan.llm_tokens }) s

no_progress-IsSound : (site : Site) → IsSound 0 (no_progress site).table
no_progress-IsSound site = record {
  unique = λ i. omega arith;
  below = λ i h. refl;
  covered = omega arith;
}

ready_plan-IsBounded :
    (config : Config) (mode : Mode × Reason) (site : Site) (hypotheses : List (List QueryOutput))
    (tokens : ℕ)
    → IsBounded config.max_queries_per_plan (ready_plan config mode site hypotheses tokens).1
unfolding ready_plan
ready_plan-IsBounded config mode site hypotheses tokens =
    let table = (no_progress site).table in
    let ceiling = persist_plan-ceiling config site.next_hypothesis hypotheses table in
    (
      persist_plan-IsSound 0 config site.next_hypothesis hypotheses table
          (no_progress-IsSound site),
      omega (arith, ceiling.0, ceiling.2),
    )

-- Behind a request there is no plan, or one with searches and queries within its ceiling, and with none but in
-- auto mode, while this is allowed.
abbrev pub IsWithin : Config → Outcome → Type 0
IsWithin config disabled = Unit
IsWithin config (over_ceiling n) = Unit
IsWithin config (generated plan p) =
    (length p.searches ≤ config.max_queries_per_plan)
    × (length p.table.rows ≤ config.max_queries_per_plan)
    × ((p.searches ≡ []) ⊎ ((plan.mode ≡ auto) × (config.allow_auto_mode ≡ true)))

finished-mode :
    (stop : Option Stop) (n : ℕ) (plan : HuntPlan) → (finished stop n plan).mode ≡ plan.mode
finished-mode none n plan = refl
finished-mode (some stop) n plan = refl

run_plan-mode :
    (config : Config) (world : World) (plan : HuntPlan) (p : Progress)
    → (run_plan config world plan p).0.mode ≡ plan.mode
unfolding run_plan
run_plan-mode config world plan p =
    let (after, stop) =
      run_hypotheses config world p.hypotheses (record p { tokens_used = plan.llm_tokens }) in
    finished-mode stop (length after.hypotheses) _

within_bounds :
    (config : Config) (p : Progress)
    → IsBounded config.max_queries_per_plan p
    → (length p.searches ≤ config.max_queries_per_plan)
      × (length p.table.rows ≤ config.max_queries_per_plan)
within_bounds config p (s, w) = (omega (arith, s.covered, w), w)

settle_plan-IsWithin :
    (config : Config) (world : World) (mode : Mode) (why : Reason) (site : Site)
    (answer : PlanAnswer)
    → (mode ≡ auto → config.allow_auto_mode ≡ true)
    → IsWithin config (settle_plan config world (mode, why) site answer)
unfolding settle_plan ready_plan
settle_plan-IsWithin config world mode why site (call_failed error) a =
    (omega arith, omega arith, inl refl)
settle_plan-IsWithin config world advisory why site (planned hypotheses tokens) a =
    let within =
      within_bounds config (ready_plan config (advisory, why) site hypotheses tokens).1
        (ready_plan-IsBounded config (advisory, why) site hypotheses tokens) in
    (within.0, within.1, inl refl)
settle_plan-IsWithin config world auto why site (planned hypotheses tokens) a =
    let (plan, p) = ready_plan config (auto, why) site hypotheses tokens in
    let within = within_bounds config (run_plan config world plan p).1 (
      run_plan-IsBounded config world plan p
        (ready_plan-IsBounded config (auto, why) site hypotheses tokens)) in
    (within.0, within.1, inr (run_plan-mode config world plan p, a refl))

-- Whatever the model proposes and the searches return, a request for a plan leads to no more searches and no
-- more queries than `max_queries_per_plan`, follow-ups included, and to none at all but in a plan in auto
-- mode, while the configuration allows that mode.
pub generate_plan-IsWithin :
    (config : Config) (world : World) (mode : String) (site : Site) (answer : PlanAnswer)
    → IsWithin config (generate_plan config world mode site answer).1
unfolding generate_plan
generate_plan-IsWithin config world mode site answer =
    let (used, allowed) = check_plan_rate_limit config site.plans_this_hour in
    let settled = settle_plan config world (resolve_mode mode config) site answer in
    let off : ℕ × Outcome = (site.plans_this_hour, disabled) in
    let full : ℕ × Outcome = (used, over_ceiling config.max_plans_per_hour) in
    let inside = if allowed then (used, settled) else full in
    let Good : ℕ × Outcome → Type 0 = λ z. IsWithin config z.1 in
    elim (if-cases (not config.enabled) off inside) [
      | inl (_, e) ↦ subst Good (sym e) tt
      | inr (_, e) ↦ subst Good (sym e) (elim (if-cases allowed (used, settled) full) [
        | inl (_, f) ↦ subst Good (sym f) (
            settle_plan-IsWithin config world (resolve_mode mode config).0
              (resolve_mode mode config).1 site answer
              (λ m. ((resolve_mode-auto mode config).0 m).0))
        | inr (_, f) ↦ subst Good (sym f) tt
      ])
    ]
