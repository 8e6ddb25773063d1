-- ===== src/Hunting/Loop.antt =====
-- The loops of `run_plan` in backend/apps/agentic/hunting/service.py. What the searches and the model answer
-- is an argument, which may depend on how many there were before; the configuration is that of one run.
pub mod Searches
pub mod Bounds
pub mod Keeps
pub mod Calls
pub mod Open
pub mod Closed
pub mod Budget
use soc_one.Base.{
  ℕ, zero, suc, ◌+◌, Bool, true, false, Option, none, some, List, [], ◌∷◌, ◌==◌, leb, if◌then◌else◌,
  keep, length, map, max,
}
use soc_one.Base.Sort.{sort_by}
use soc_one.Hunting.Plan.{
  Text, Target, pending, HuntQuery, QueryOutput, Config, Queries, of_hypothesis, Proposing,
  propose_followup_queries,
}
use soc_one.Hunting.Execute.{SearchAnswer, Run, execute_query}
use soc_one.Hunting.Conclude.{
  Conclusion, confirmed, refuted, inconclusive, FindingOutput, Finding, conclude_hypothesis,
}

-- The answers come with the tokens that their call used; `none` is a call that failed.
pub record World : Type 0 where
  pub ask : ℕ → Target → Text → SearchAnswer
  pub find : ℕ → ℕ → List HuntQuery → Option (FindingOutput × ℕ)
  pub refine : ℕ → ℕ → Finding → ℕ → List HuntQuery → Option (List QueryOutput × ℕ)
  pub written : ℕ → Text

-- No status stands for one that is still pending.
pub record HuntHypothesis : Type 0 where
  pub id : ℕ
  pub position : ℕ
  pub status : Option Conclusion

-- The plan's queries and hypotheses, the findings, latest first; the taken slots, the searches made, the
-- tokens used, and how often the model was called.
pub record Progress : Type 0 where
  pub table : Queries
  pub hypotheses : List HuntHypothesis
  pub findings : List (ℕ × Finding)
  pub slots : List ℕ
  pub searches : List (Target × Text)
  pub tokens_used : ℕ
  pub calls : ℕ

-- Why the plan stopped early: the ceiling, with the position of the hypothesis and the iteration.
pub data Stop : Type 0 where
  during : ℕ → ℕ → ℕ → Stop
  before_refining : ℕ → Stop

unfoldable pub is_pending : HuntQuery → Bool
is_pending q = elim q.status [ pending ↦ true | _ ↦ false ]

-- `hypothesis.queries.all()`, ordered by position.
unfoldable pub queries_of : ℕ → List HuntQuery → List HuntQuery
unfolding sort_by
queries_of hypothesis rows =
    sort_by (λ q r. leb q.position r.position) (keep (of_hypothesis hypothesis) rows)

-- `query.save()`
unfoldable pub saved : HuntQuery → List HuntQuery → List HuntQuery
saved q rows = map (λ r. if r.id == q.id then q else r) rows

abbrev concluded_as : ℕ → Conclusion → List HuntHypothesis → List HuntHypothesis
concluded_as id conclusion hypotheses =
    map (λ h. if h.id == id then record h { status = some conclusion } else h) hypotheses

-- What a round of the inner loop comes to.
pub data Round : Type 0 where
  ended : Progress → Option Stop → Round
  again : Progress → Round

module _ (config : Config) (world : World) where
  unfoldable pub execute_one : HuntQuery → Progress → Progress
  unfolding execute_query saved
  execute_one q p =
      let run =
        execute_query config (world.ask (length p.searches))
          record { query = q; slots = p.slots; searches = p.searches } in
      record p {
        table = record p.table { rows = saved run.query p.table.rows };
        slots = run.slots;
        searches = run.searches;
      }

  -- The loop over `pending`, and whether the ceiling stopped it.
  unfoldable pub execute_pending : List HuntQuery → Progress → Progress × Bool
  unfolding execute_one
  execute_pending [] p = (p, false)
  execute_pending (q ∷ queries) p =
      let rest = execute_pending queries (execute_one q p) in
      if leb config.max_tokens_per_plan p.tokens_used then (p, true) else rest

  abbrev pub with_finding : ℕ → Finding → ℕ → Progress → Progress
  with_finding id finding tokens p = record p {
    hypotheses = concluded_as id finding.conclusion p.hypotheses;
    findings = (id, finding) ∷ p.findings;
    tokens_used = p.tokens_used + tokens;
    calls = suc p.calls;
  }

  -- With the queries that the model proposed.
  abbrev pub with_queries : Proposing → ℕ → Progress → Progress
  with_queries proposed tokens p = record p {
    table = proposed.table;
    tokens_used = p.tokens_used + tokens;
    calls = suc p.calls;
  }

  abbrev pub after_proposing : Proposing → ℕ → Progress → Round
  after_proposing proposed tokens p =
      let after = with_queries proposed tokens p in
      if proposed.created == 0 then ended after none else again after

  -- `propose_followup_queries` with the model's answer, and whether it created any query.
  unfoldable pub refine_with : Option (List QueryOutput × ℕ) → HuntHypothesis → Progress → Round
  unfolding propose_followup_queries
  refine_with none h p = ended (record p { calls = suc p.calls }) none
  refine_with (some (output, tokens)) h p =
      after_proposing (propose_followup_queries config h.id output p.table) tokens p

  -- After an inconclusive finding.
  unfoldable pub refine_round : ℕ → HuntHypothesis → Finding → Progress → Round
  unfolding refine_with queries_of
  refine_round iteration h finding p =
      if leb (max 1 config.max_iterations) iteration
      then ended p none
      else if leb config.max_tokens_per_plan p.tokens_used
      then ended p (some (before_refining config.max_tokens_per_plan))
      else refine_with (world.refine p.calls h.id finding iteration (queries_of h.id p.table.rows))
          h p

  unfoldable pub judge_round : Conclusion → ℕ → HuntHypothesis → Finding → Progress → Round
  unfolding refine_round
  judge_round inconclusive iteration h finding p = refine_round iteration h finding p
  judge_round confirmed iteration h finding p = ended p none
  judge_round refuted iteration h finding p = ended p none

  abbrev pub with_verdict : Finding → ℕ → ℕ → HuntHypothesis → Progress → Round
  with_verdict finding tokens iteration h p =
      judge_round finding.conclusion iteration h finding (with_finding h.id finding tokens p)

  -- `conclude_hypothesis` with the model's answer, and what follows it.
  unfoldable pub conclude_with : Option (FindingOutput × ℕ) → ℕ → HuntHypothesis → Progress → Round
  unfolding conclude_hypothesis judge_round queries_of
  conclude_with none iteration h p = ended (record p { calls = suc p.calls }) none
  conclude_with (some (output, tokens)) iteration h p =
      with_verdict (conclude_hypothesis world.written (queries_of h.id p.table.rows) output) tokens
        iteration h p

  abbrev pub pending_of : HuntHypothesis → Progress → List HuntQuery
  pending_of h p = keep is_pending (queries_of h.id p.table.rows)

  -- After the searches.
  unfoldable pub finish_round : Progress × Bool → ℕ → HuntHypothesis → Round
  unfolding conclude_with queries_of
  finish_round (p, true) iteration h =
      ended p (some (during config.max_tokens_per_plan h.position iteration))
  finish_round (p, false) iteration h =
      conclude_with (world.find p.calls h.id (queries_of h.id p.table.rows)) iteration h p

  unfoldable pub run_round : ℕ → HuntHypothesis → Progress → Round
  unfolding finish_round execute_pending queries_of is_pending
  run_round iteration h p = finish_round (execute_pending (pending_of h p) p) iteration h

  abbrev pub next_round : Round → (Progress → Progress × Option Stop) → Progress × Option Stop
  next_round (ended p stop) further = (p, stop)
  next_round (again p) further = further p

  -- The loop over the iterations: how many are left, and which one is next.
  unfoldable pub iterate : ℕ → ℕ → HuntHypothesis → Progress → Progress × Option Stop
  unfolding run_round
  iterate zero iteration h p = (p, none)
  iterate (suc n) iteration h p =
      next_round (run_round iteration h p) (λ after. iterate n (suc iteration) h after)

  abbrev pub unless_stopped :
      Progress × Option Stop → (Progress → Progress × Option Stop) → Progress × Option Stop
  unless_stopped (p, none) further = further p
  unless_stopped (p, some stop) further = (p, some stop)

  unfoldable pub run_hypotheses : List HuntHypothesis → Progress → Progress × Option Stop
  unfolding iterate
  run_hypotheses [] p = (p, none)
  run_hypotheses (h ∷ hypotheses) p =
      unless_stopped (iterate (max 1 config.max_iterations) 1 h p) (run_hypotheses hypotheses)
