-- ===== src/Hunting/Loop/Closed.antt =====
-- That a run of a plan leaves no query of its hypotheses open, in backend/apps/agentic/hunting/service.py.
use soc_one.Base.{
  ℕ, zero, suc, ◌+◌, ◌≤◌, ◌≡◌, refl, sym, subst, ◌∙◌, ◌⊎◌, inl, inr, Bool, true, false, Option,
  none, some, List, [], ◌∷◌, ◌==◌, leb, if◌then◌else◌, max, All, arith, Bool-cases, if-cases,
}
use soc_one.Hunting.Plan.{QueryOutput, Config, propose_followup_queries}
use soc_one.Hunting.Conclude.{
  Conclusion, confirmed, refuted, inconclusive, Finding, FindingOutput, conclude_hypothesis,
}
use soc_one.Hunting.Loop.{
  World, Progress, HuntHypothesis, Stop, before_refining, Round, ended, again, queries_of,
  execute_pending, run_round, conclude_with, refine_round, refine_with, iterate, run_hypotheses,
  with_finding, with_queries, judge_round, finish_round, pending_of, next_round, unless_stopped,
}
use soc_one.Hunting.Loop.Open.{
  IsClosed, execute_pending-open, pending_of-IsClosed, propose_followup_queries-open,
}

module _ (config : Config) (world : World) (t : ℕ) where
  abbrev most : ℕ
  most = max 1 config.max_iterations

  -- Where nothing stopped the loops early, the hypothesis has no open query.
  abbrev pub HasClosed : Progress × Option Stop → Type 0
  HasClosed (p, none) = IsClosed t p
  HasClosed (p, some stop) = Unit

  module _ (h : HuntHypothesis) where
    -- The round's own hypothesis may have open queries at first.
    abbrev MayOpen : Progress → Type 0
    MayOpen p = ((h.id == t) ≡ true) ⊎ IsClosed t p

    abbrev Closes : ℕ → Round → Type 0
    Closes iteration (ended p none) = IsClosed t p
    Closes iteration (ended p (some stop)) = Unit
    Closes iteration (again p) = MayOpen p × (suc iteration ≤ most)

    refine_with-Closes :
        (iteration : ℕ) (answer : Option (List QueryOutput × ℕ)) (p : Progress)
        → suc iteration ≤ most
        → IsClosed t p
        → Closes iteration (refine_with config world answer h p)
    unfolding refine_with
    refine_with-Closes iteration none p l k = k
    refine_with-Closes iteration (some (output, tokens)) p l k =
        let proposed = propose_followup_queries config h.id output p.table in
        let after = with_queries config world proposed tokens p in
        let counted = propose_followup_queries-open config t h.id output p.table in
        elim (if-cases (proposed.created == 0) (ended after none) (again after)) [
          | inl (n, e) ↦ subst (Closes iteration) (sym e) (ground (arith, k, counted.0, n))
          | inr (_, e) ↦ elim (Bool-cases (h.id == t)) [
            | inl s ↦ subst (Closes iteration) (sym e) (inl s, l)
            | inr s ↦ subst (Closes iteration) (sym e) (inr (counted.1 s ∙ k), l)
          ]
        ]

    refine_round-Closes :
        (iteration : ℕ) (finding : Finding) (p : Progress)
        → IsClosed t p
        → Closes iteration (refine_round config world iteration h finding p)
    unfolding refine_round
    refine_round-Closes iteration finding p k =
        let stop = ended p (some (before_refining config.max_tokens_per_plan)) in
        let answer = world.refine p.calls h.id finding iteration (queries_of h.id p.table.rows) in
        let asked = refine_with config world answer h p in
        let ceiling = leb config.max_tokens_per_plan p.tokens_used in
        elim (if-cases (leb most iteration) (ended p none) (if ceiling then stop else asked)) [
          | inl (_, e) ↦ subst (Closes iteration) (sym e) k
          | inr (m, e) ↦ subst (Closes iteration) (sym e) (elim (if-cases ceiling stop asked) [
            | inl (b, f) ↦ subst (Closes iteration) (sym f) tt
            | inr (b, f) ↦
                subst (Closes iteration) (sym f)
                  (refine_with-Closes iteration answer p (ground (arith, m)) k)
          ])
        ]

    judge_round-Closes :
        (c : Conclusion) (iteration : ℕ) (finding : Finding) (p : Progress)
        → IsClosed t p
        → Closes iteration (judge_round config world c iteration h finding p)
    unfolding judge_round
    judge_round-Closes confirmed iteration finding p k = k
    judge_round-Closes refuted iteration finding p k = k
    judge_round-Closes inconclusive iteration finding p k =
        refine_round-Closes iteration finding p k

    conclude_with-Closes :
        (answer : Option (FindingOutput × ℕ)) (iteration : ℕ) (p : Progress)
        → IsClosed t p
        → Closes iteration (conclude_with config world answer iteration h p)
    unfolding conclude_with
    conclude_with-Closes none iteration p k = k
    conclude_with-Closes (some (output, tokens)) iteration p k =
        let finding = conclude_hypothesis world.written (queries_of h.id p.table.rows) output in
        judge_round-Closes finding.conclusion iteration finding
          (with_finding config world h.id finding tokens p) k

    finish_round-Closes :
        (searched : Progress × Bool) (iteration : ℕ)
        → (searched.1 ≡ false → IsClosed t searched.0)
        → Closes iteration (finish_round config world searched iteration h)
    unfolding finish_round
    finish_round-Closes (p, true) iteration k = tt
    finish_round-Closes (p, false) iteration k =
        conclude_with-Closes (world.find p.calls h.id (queries_of h.id p.table.rows)) iteration p
          (k refl)

    run_round-Closes :
        (iteration : ℕ) (p : Progress)
        → MayOpen p
        → Closes iteration (run_round config world iteration h p)
    unfolding run_round
    run_round-Closes iteration p w =
        let queries = pending_of config world h p in
        let searched = execute_pending config world queries p in
        finish_round-Closes searched iteration (λ e. elim w [
          | inl s ↦
              let same : h.id ≡ t = ground (arith, s) in
              subst (λ i. IsClosed i searched.0) same (pending_of-IsClosed config world h p e)
          | inr z ↦ execute_pending-open config world t queries p z
        ])

    next_round-HasClosed :
        (iteration : ℕ) (r : Round) (further : Progress → Progress × Option Stop)
        → Closes iteration r
        → ((p : Progress) → MayOpen p → suc iteration ≤ most → HasClosed (further p))
        → HasClosed (next_round config world r further)
    next_round-HasClosed iteration (ended p none) further k f = k
    next_round-HasClosed iteration (ended p (some stop)) further k f = tt
    next_round-HasClosed iteration (again p) further k f = f p k.0 k.1

    -- The iterations do not run out while a round asks for another.
    iterate-HasClosed :
        (left iteration : ℕ) (p : Progress)
        → left + iteration ≡ suc most
        → iteration ≤ most
        → MayOpen p
        → HasClosed (iterate config world left iteration h p)
    unfolding iterate
    iterate-HasClosed zero iteration p e l w = absurd (omega (arith, e, l))
    iterate-HasClosed (suc left) iteration p e l w =
        next_round-HasClosed iteration (run_round config world iteration h p)
          (λ after. iterate config world left (suc iteration) h after)
          (run_round-Closes iteration p w)
          (λ after v m. iterate-HasClosed left (suc iteration) after (omega (arith, e)) m v)

  unless_stopped-HasClosed :
      (run : Progress × Option Stop) (further : Progress → Progress × Option Stop)
      → HasClosed run
      → ((p : Progress) → IsClosed t p → HasClosed (further p))
      → HasClosed (unless_stopped config world run further)
  unless_stopped-HasClosed (p, none) further k f = f p k
  unless_stopped-HasClosed (p, some stop) further k f = tt

  -- What follows opens nothing again.
  run_hypotheses-HasClosed :
      (hypotheses : List HuntHypothesis) (p : Progress)
      → IsClosed t p
      → HasClosed (run_hypotheses config world hypotheses p)
  unfolding run_hypotheses
  run_hypotheses-HasClosed [] p k = k
  run_hypotheses-HasClosed (h ∷ hypotheses) p k =
      unless_stopped-HasClosed (iterate config world most 1 h p)
        (run_hypotheses config world hypotheses)
        (iterate-HasClosed h most 1 p (omega arith) (omega arith) (inr k))
        (run_hypotheses-HasClosed hypotheses)

module _ (config : Config) (world : World) where
  abbrev pub HasClosedAll : List HuntHypothesis → Progress × Option Stop → Type 0
  HasClosedAll hypotheses (p, none) = All (λ h. IsClosed h.id p) hypotheses
  HasClosedAll hypotheses (p, some stop) = Unit

  both_closed :
      (h : HuntHypothesis) (hypotheses : List HuntHypothesis) (run : Progress × Option Stop)
      → HasClosed config world h.id run
      → HasClosedAll hypotheses run
      → HasClosedAll (h ∷ hypotheses) run
  both_closed h hypotheses (p, none) k l = (k, l)
  both_closed h hypotheses (p, some stop) k l = tt

  unless_stopped-HasClosedAll :
      (h : HuntHypothesis) (hypotheses : List HuntHypothesis) (run : Progress × Option Stop)
      (further : Progress → Progress × Option Stop)
      → HasClosed config world h.id run
      → ((p : Progress) → IsClosed h.id p → HasClosedAll (h ∷ hypotheses) (further p))
      → HasClosedAll (h ∷ hypotheses) (unless_stopped config world run further)
  unless_stopped-HasClosedAll h hypotheses (p, none) further k f = f p k
  unless_stopped-HasClosedAll h hypotheses (p, some stop) further k f = tt

  pub run_hypotheses-HasClosedAll :
      (hypotheses : List HuntHypothesis) (p : Progress)
      → HasClosedAll hypotheses (run_hypotheses config world hypotheses p)
  unfolding run_hypotheses
  run_hypotheses-HasClosedAll [] p = tt
  run_hypotheses-HasClosedAll (h ∷ hypotheses) p =
      let most = max 1 config.max_iterations in
      let same : (h.id == h.id) ≡ true = ground arith in
      unless_stopped-HasClosedAll h hypotheses (iterate config world most 1 h p)
        (run_hypotheses config world hypotheses)
        (iterate-HasClosed config world h.id h most 1 p (omega arith) (omega arith) (inl same))
        (λ after k.
          both_closed h hypotheses (run_hypotheses config world hypotheses after)
            (run_hypotheses-HasClosed config world h.id hypotheses after k)
            (run_hypotheses-HasClosedAll hypotheses after))
