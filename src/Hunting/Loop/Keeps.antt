-- ===== src/Hunting/Loop/Keeps.antt =====
-- What every step of the loops of `run_plan` keeps, in backend/apps/agentic/hunting/service.py.
use soc_one.Base.{
  ℕ, zero, suc, ◌≡◌, refl, inl, inr, Bool, true, false, Option, none, some, List, [], ◌∷◌, ◌==◌,
  leb, if◌then◌else◌, max, arith, if-cases, subst, sym,
}
use soc_one.Hunting.Plan.{HuntQuery, QueryOutput, Config, propose_followup_queries}
use soc_one.Hunting.Conclude.{
  Conclusion, confirmed, refuted, inconclusive, Finding, FindingOutput, conclude_hypothesis,
}
use soc_one.Hunting.Loop.{
  World, Progress, HuntHypothesis, Stop, before_refining, Round, ended, again, queries_of,
  execute_pending, run_round, conclude_with, refine_round, refine_with, iterate, run_hypotheses,
  with_finding, with_queries, judge_round, finish_round, pending_of, execute_one, next_round,
  unless_stopped,
}

module _ (config : Config) (world : World) where
  -- Where a plan stops early its tokens have reached the ceiling.
  abbrev pub IsReached : Option Stop → Progress → Type 0
  IsReached none p = Unit
  IsReached (some stop) p = leb config.max_tokens_per_plan p.tokens_used ≡ true

  -- A predicate that each of the steps keeps; follow-up queries are asked for below the ceiling only.
  pub record IsStable (P : Progress → Type 0) : Type 0 where
    pub executed :
        (h : HuntHypothesis) (p : Progress)
        → P p
        → P (execute_pending config world (pending_of config world h p) p).0
    pub called : (p : Progress) → P p → P (record p { calls = suc p.calls })
    pub found :
        (id : ℕ) (finding : Finding) (tokens : ℕ) (p : Progress)
        → P p
        → P (with_finding config world id finding tokens p)
    pub proposed :
        (id : ℕ) (output : List QueryOutput) (tokens : ℕ) (p : Progress)
        → leb config.max_tokens_per_plan p.tokens_used ≡ false
        → P p
        → P (with_queries config world (propose_followup_queries config id output p.table) tokens p)

  -- The ceiling stops the loop only where it is reached.
  execute_pending-IsReached :
      (queries : List HuntQuery) (p : Progress)
      → (execute_pending config world queries p).1 ≡ true
      → leb config.max_tokens_per_plan (execute_pending config world queries p).0.tokens_used ≡ true
  unfolding execute_pending
  execute_pending-IsReached [] p h = absurd (ground (arith, h))
  execute_pending-IsReached (q ∷ queries) p h =
      ground (arith, h, execute_pending-IsReached queries (execute_one config world q p))

  module _ (P : Progress → Type 0) (s : IsStable P) where
    -- What holds behind a round, or behind the loops.
    abbrev Holds : Round → Type 0
    Holds (ended p stop) = P p × IsReached stop p
    Holds (again p) = P p

    abbrev pub Settled : Progress × Option Stop → Type 0
    Settled (p, stop) = P p × IsReached stop p

    refine_with-Holds :
        (answer : Option (List QueryOutput × ℕ)) (h : HuntHypothesis) (p : Progress)
        → leb config.max_tokens_per_plan p.tokens_used ≡ false
        → P p
        → Holds (refine_with config world answer h p)
    unfolding refine_with
    refine_with-Holds none h p b k = (s.called p k, tt)
    refine_with-Holds (some (output, tokens)) h p b k =
        let proposed = propose_followup_queries config h.id output p.table in
        let after = with_queries config world proposed tokens p in
        let held : P after = s.proposed h.id output tokens p b k in
        elim (if-cases (proposed.created == 0) (ended after none) (again after)) [
          | inl (_, e) ↦ subst Holds (sym e) (held, tt)
          | inr (_, e) ↦ subst Holds (sym e) held
        ]

    refine_round-Holds :
        (iteration : ℕ) (h : HuntHypothesis) (finding : Finding) (p : Progress)
        → P p
        → Holds (refine_round config world iteration h finding p)
    unfolding refine_round
    refine_round-Holds iteration h finding p k =
        let stop = ended p (some (before_refining config.max_tokens_per_plan)) in
        let answer = world.refine p.calls h.id finding iteration (queries_of h.id p.table.rows) in
        let asked = refine_with config world answer h p in
        let ceiling = leb config.max_tokens_per_plan p.tokens_used in
        elim (if-cases (leb (max 1 config.max_iterations) iteration) (ended p none)
          (if ceiling then stop else asked)) [
            | inl (_, e) ↦ subst Holds (sym e) (k, tt)
            | inr (_, e) ↦ subst Holds (sym e) (elim (if-cases ceiling stop asked) [
              | inl (b, f) ↦ subst Holds (sym f) (k, b)
              | inr (b, f) ↦ subst Holds (sym f) (refine_with-Holds answer h p b k)
            ])
          ]

    judge_round-Holds :
        (c : Conclusion) (iteration : ℕ) (h : HuntHypothesis) (finding : Finding) (p : Progress)
        → P p
        → Holds (judge_round config world c iteration h finding p)
    unfolding judge_round
    judge_round-Holds confirmed iteration h finding p k = (k, tt)
    judge_round-Holds refuted iteration h finding p k = (k, tt)
    judge_round-Holds inconclusive iteration h finding p k =
        refine_round-Holds iteration h finding p k

    conclude_with-Holds :
        (answer : Option (FindingOutput × ℕ)) (iteration : ℕ) (h : HuntHypothesis) (p : Progress)
        → P p
        → Holds (conclude_with config world answer iteration h p)
    unfolding conclude_with
    conclude_with-Holds none iteration h p k = (s.called p k, tt)
    conclude_with-Holds (some (output, tokens)) iteration h p k =
        let finding = conclude_hypothesis world.written (queries_of h.id p.table.rows) output in
        judge_round-Holds finding.conclusion iteration h finding
          (with_finding config world h.id finding tokens p) (s.found h.id finding tokens p k)

    finish_round-Holds :
        (searched : Progress × Bool) (iteration : ℕ) (h : HuntHypothesis)
        → P searched.0
        → (searched.1 ≡ true → leb config.max_tokens_per_plan searched.0.tokens_used ≡ true)
        → Holds (finish_round config world searched iteration h)
    unfolding finish_round
    finish_round-Holds (p, true) iteration h k r = (k, r refl)
    finish_round-Holds (p, false) iteration h k r =
        conclude_with-Holds (world.find p.calls h.id (queries_of h.id p.table.rows)) iteration h p k

    run_round-Holds :
        (iteration : ℕ) (h : HuntHypothesis) (p : Progress)
        → P p
        → Holds (run_round config world iteration h p)
    unfolding run_round
    run_round-Holds iteration h p k =
        finish_round-Holds (execute_pending config world (pending_of config world h p) p) iteration
          h (s.executed h p k) (execute_pending-IsReached (pending_of config world h p) p)

    next_round-Settled :
        (r : Round) (further : Progress → Progress × Option Stop)
        → Holds r
        → ((p : Progress) → P p → Settled (further p))
        → Settled (next_round config world r further)
    next_round-Settled (ended p stop) further k f = k
    next_round-Settled (again p) further k f = f p k

    iterate-Settled :
        (n iteration : ℕ) (h : HuntHypothesis) (p : Progress)
        → P p
        → Settled (iterate config world n iteration h p)
    unfolding iterate
    iterate-Settled zero iteration h p k = (k, tt)
    iterate-Settled (suc n) iteration h p k =
        next_round-Settled (run_round config world iteration h p)
          (λ after. iterate config world n (suc iteration) h after)
          (run_round-Holds iteration h p k) (λ after. iterate-Settled n (suc iteration) h after)

    unless_stopped-Settled :
        (run : Progress × Option Stop) (further : Progress → Progress × Option Stop)
        → Settled run
        → ((p : Progress) → P p → Settled (further p))
        → Settled (unless_stopped config world run further)
    unless_stopped-Settled (p, none) further k f = f p k.0
    unless_stopped-Settled (p, some stop) further k f = k

    pub run_hypotheses-Settled :
        (hypotheses : List HuntHypothesis) (p : Progress)
        → P p
        → Settled (run_hypotheses config world hypotheses p)
    unfolding run_hypotheses
    run_hypotheses-Settled [] p k = (k, tt)
    run_hypotheses-Settled (h ∷ hypotheses) p k =
        unless_stopped-Settled (iterate config world (max 1 config.max_iterations) 1 h p)
          (run_hypotheses config world hypotheses)
          (iterate-Settled (max 1 config.max_iterations) 1 h p k)
          (run_hypotheses-Settled hypotheses)
