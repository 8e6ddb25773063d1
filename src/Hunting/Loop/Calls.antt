-- ===== src/Hunting/Loop/Calls.antt =====
-- How often a run of a plan asks the model, in backend/apps/agentic/hunting/service.py.
use soc_one.Base.{
  ℕ, zero, suc, ◌+◌, ◌≤◌, ◌≡◌, refl, inl, inr, Bool, true, false, Option, none, some, List, [], ◌∷◌,
  ◌==◌, leb, if◌then◌else◌, length, max, arith, Bool-cases, if-cases, subst, sym,
}
use soc_one.Hunting.Plan.{HuntQuery, QueryOutput, Config, propose_followup_queries}
use soc_one.Hunting.Conclude.{
  Conclusion, confirmed, refuted, inconclusive, Finding, FindingOutput, conclude_hypothesis,
}
use soc_one.Hunting.Loop.{
  World, Progress, HuntHypothesis, Stop, before_refining, Round, ended, again, queries_of,
  execute_pending, run_round, conclude_with, refine_round, refine_with, iterate, run_hypotheses,
  with_finding, with_queries, judge_round, finish_round, pending_of, execute_one, next_round,
  unless_stopped,
}

module _ (config : Config) (world : World) where
  -- So many calls behind what was not stopped early.
  abbrev HasCalled : ℕ → Round → Type 0
  HasCalled n (ended p none) = n ≤ p.calls
  HasCalled n (ended p (some stop)) = Unit
  HasCalled n (again p) = n ≤ p.calls

  abbrev pub HasRun : ℕ → Progress × Option Stop → Type 0
  HasRun n (p, none) = n ≤ p.calls
  HasRun n (p, some stop) = Unit

  execute_pending-calls :
      (queries : List HuntQuery) (p : Progress)
      → (execute_pending config world queries p).0.calls ≡ p.calls
  unfolding execute_pending execute_one
  execute_pending-calls [] p = refl
  execute_pending-calls (q ∷ queries) p =
      let next = execute_pending-calls queries (execute_one config world q p) in
      elim (Bool-cases (leb config.max_tokens_per_plan p.tokens_used)) [
        | inl e ↦ rw e refl
        | inr e ↦ rw e next
      ]

  refine_with-HasCalled :
      (n : ℕ) (answer : Option (List QueryOutput × ℕ)) (h : HuntHypothesis) (p : Progress)
      → n ≤ p.calls
      → HasCalled n (refine_with config world answer h p)
  unfolding refine_with
  refine_with-HasCalled n none h p k = omega (arith, k)
  refine_with-HasCalled n (some (output, tokens)) h p k =
      let proposed = propose_followup_queries config h.id output p.table in
      let after = with_queries config world proposed tokens p in
      elim (if-cases (proposed.created == 0) (ended after none) (again after)) [
        | inl (_, e) ↦ subst (HasCalled n) (sym e) (omega (arith, k))
        | inr (_, e) ↦ subst (HasCalled n) (sym e) (omega (arith, k))
      ]

  refine_round-HasCalled :
      (n iteration : ℕ) (h : HuntHypothesis) (finding : Finding) (p : Progress)
      → n ≤ p.calls
      → HasCalled n (refine_round config world iteration h finding p)
  unfolding refine_round
  refine_round-HasCalled n iteration h finding p k =
      let stop = ended p (some (before_refining config.max_tokens_per_plan)) in
      let answer = world.refine p.calls h.id finding iteration (queries_of h.id p.table.rows) in
      let asked = refine_with config world answer h p in
      let ceiling = leb config.max_tokens_per_plan p.tokens_used in
      elim (if-cases (leb (max 1 config.max_iterations) iteration) (ended p none)
        (if ceiling then stop else asked)) [
          | inl (_, e) ↦ subst (HasCalled n) (sym e) k
          | inr (_, e) ↦ subst (HasCalled n) (sym e) (elim (if-cases ceiling stop asked) [
            | inl (b, f) ↦ subst (HasCalled n) (sym f) tt
            | inr (b, f) ↦ subst (HasCalled n) (sym f) (refine_with-HasCalled n answer h p k)
          ])
        ]

  judge_round-HasCalled :
      (n : ℕ) (c : Conclusion) (iteration : ℕ) (h : HuntHypothesis) (finding : Finding)
      (p : Progress)
      → n ≤ p.calls
      → HasCalled n (judge_round config world c iteration h finding p)
  unfolding judge_round
  judge_round-HasCalled n confirmed iteration h finding p k = k
  judge_round-HasCalled n refuted iteration h finding p k = k
  judge_round-HasCalled n inconclusive iteration h finding p k =
      refine_round-HasCalled n iteration h finding p k

  conclude_with-HasCalled :
      (answer : Option (FindingOutput × ℕ)) (iteration : ℕ) (h : HuntHypothesis) (p : Progress)
      → HasCalled (suc p.calls) (conclude_with config world answer iteration h p)
  unfolding conclude_with
  conclude_with-HasCalled none iteration h p = omega arith
  conclude_with-HasCalled (some (output, tokens)) iteration h p =
      let finding = conclude_hypothesis world.written (queries_of h.id p.table.rows) output in
      judge_round-HasCalled (suc p.calls) finding.conclusion iteration h finding
        (with_finding config world h.id finding tokens p) (omega arith)

  finish_round-HasCalled :
      (searched : Progress × Bool) (iteration : ℕ) (h : HuntHypothesis)
      → HasCalled (suc searched.0.calls) (finish_round config world searched iteration h)
  unfolding finish_round
  finish_round-HasCalled (p, true) iteration h = tt
  finish_round-HasCalled (p, false) iteration h =
      conclude_with-HasCalled (world.find p.calls h.id (queries_of h.id p.table.rows)) iteration h p

  run_round-HasCalled :
      (iteration : ℕ) (h : HuntHypothesis) (p : Progress)
      → HasCalled (suc p.calls) (run_round config world iteration h p)
  unfolding run_round
  run_round-HasCalled iteration h p =
      let searched = execute_pending config world (pending_of config world h p) p in
      subst (λ n. HasCalled (suc n) (finish_round config world searched iteration h))
        (execute_pending-calls (pending_of config world h p) p)
        (finish_round-HasCalled searched iteration h)

  next_round-HasRun :
      (n : ℕ) (r : Round) (further : Progress → Progress × Option Stop)
      → HasCalled n r
      → ((p : Progress) → n ≤ p.calls → HasRun n (further p))
      → HasRun n (next_round config world r further)
  next_round-HasRun n (ended p none) further k f = k
  next_round-HasRun n (ended p (some stop)) further k f = tt
  next_round-HasRun n (again p) further k f = f p k

  HasRun-less : (n m : ℕ) (run : Progress × Option Stop) → n ≤ m → HasRun m run → HasRun n run
  HasRun-less n m (p, none) l k = omega (arith, l, k)
  HasRun-less n m (p, some stop) l k = tt

  -- Every iteration that is begun calls the model.
  iterate-HasRun :
      (left iteration : ℕ) (h : HuntHypothesis) (p : Progress)
      → HasRun p.calls (iterate config world left iteration h p)
  unfolding iterate
  iterate-HasRun zero iteration h p = omega arith
  iterate-HasRun (suc left) iteration h p =
      let round = run_round config world iteration h p in
      HasRun-less p.calls (suc p.calls)
        (next_round config world round (λ after. iterate config world left (suc iteration) h after))
        (omega arith)
        (next_round-HasRun (suc p.calls) round
          (λ after. iterate config world left (suc iteration) h after)
          (run_round-HasCalled iteration h p)
          (λ after k.
            HasRun-less (suc p.calls) after.calls
              (iterate config world left (suc iteration) h after) k
              (iterate-HasRun left (suc iteration) h after)))

  iterate-HasRun_once :
      (left iteration : ℕ) (h : HuntHypothesis) (p : Progress)
      → 1 ≤ left
      → HasRun (suc p.calls) (iterate config world left iteration h p)
  unfolding iterate
  iterate-HasRun_once zero iteration h p l = absurd (omega (arith, l))
  iterate-HasRun_once (suc left) iteration h p l =
      next_round-HasRun (suc p.calls) (run_round config world iteration h p)
        (λ after. iterate config world left (suc iteration) h after)
        (run_round-HasCalled iteration h p)
        (λ after k.
          HasRun-less (suc p.calls) after.calls (iterate config world left (suc iteration) h after)
            k (iterate-HasRun left (suc iteration) h after))

  unless_stopped-HasRun :
      (n m : ℕ) (run : Progress × Option Stop) (further : Progress → Progress × Option Stop)
      → HasRun m run
      → ((p : Progress) → m ≤ p.calls → HasRun n (further p))
      → HasRun n (unless_stopped config world run further)
  unless_stopped-HasRun n m (p, none) further k f = f p k
  unless_stopped-HasRun n m (p, some stop) further k f = tt

  pub run_hypotheses-HasRun :
      (hypotheses : List HuntHypothesis) (p : Progress)
      → HasRun (p.calls + length hypotheses) (run_hypotheses config world hypotheses p)
  unfolding run_hypotheses
  run_hypotheses-HasRun [] p = omega arith
  run_hypotheses-HasRun (h ∷ hypotheses) p =
      unless_stopped-HasRun (p.calls + suc (length hypotheses)) (suc p.calls)
        (iterate config world (max 1 config.max_iterations) 1 h p)
        (run_hypotheses config world hypotheses)
        (iterate-HasRun_once (max 1 config.max_iterations) 1 h p (omega arith))
        (λ after k.
          HasRun-less (p.calls + suc (length hypotheses)) (after.calls + length hypotheses)
            (run_hypotheses config world hypotheses after) (omega (arith, k))
            (run_hypotheses-HasRun hypotheses after))
