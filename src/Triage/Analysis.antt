-- ===== src/Triage/Analysis.antt =====
-- `CaseAnalysisRunner.run` of backend/apps/agentic/analysis/analysis.py, with `suppressed_assessment` of
-- backend/apps/agentic/triage/assessment.py. The model's answer is an argument; the parts of its input and of
-- the records that are only passed on are left out.
use soc_one.Base.{
  ℕ, suc, ◌<◌, ◌≡◌, ◌⊎◌, Bool, true, false, Option, none, some, List, [], ◌∷◌, ◌++◌, ◌&&◌, ltb, All,
  In,
}
use soc_one.Base.Texts.{codes}
use soc_one.Triage.Suppression.{
  Text, CasePayload, MatchType, rule, entity, subnet, user, TriageSuppression, matches,
  find_matching_suppression,
}
use soc_one.Triage.Assessment.{
  false_positive, suppressed, InvestigationReport, CaseRecord, TriageResult, store_assessment,
}

-- What the analyses leave: the stored results, latest first, the Case's latest analysis record, and how often
-- the model was called.
pub record Desk : Type 0 where
  pub results : List TriageResult
  pub analysis : Option InvestigationReport
  pub model_calls : ℕ

-- The Case as the rules and the model see it, and whether its asset is on record.
pub record CaseAnalysisRequest : Type 0 where
  pub payload : CasePayload
  pub case : CaseRecord
  pub cmdb_matched : Bool

abbrev match_name : MatchType → Text
match_name rule = codes "rule"
match_name entity = codes "entity"
match_name subnet = codes "subnet"
match_name user = codes "user"

abbrev suppressed_digest : TriageSuppression → Text
suppressed_digest s =
    codes "Case bị chặn bởi suppression rule "
    ++ match_name s.match_type
    ++ codes ":"
    ++ s.pattern
    ++ codes ". "
    ++ s.reason

abbrev pub suppressed_report : TriageSuppression → InvestigationReport
suppressed_report s = record {
  verdict = codes "false_positive";
  false_positive_class = codes "suppressed";
  confidence = codes "High";
  confidence_score = 100;
  digest = suppressed_digest s;
  evidence_findings = [];
  attack_chain = [];
  remediations = [];
}

abbrev pub suppressed_result : TriageSuppression → TriageResult
suppressed_result s = record {
  verdict = false_positive;
  false_positive_class = some suppressed;
  confidence = 100;
  needs_human = false;
  mitre_techniques = [];
  kill_chain_phase = [];
  evidence = [];
  recommended_actions = [];
  quality_flags = [];
  error = "";
  suppressed_by = some s.id;
}

module _ (in_network : Text → Text → Bool) (now threshold : ℕ) (rows : List TriageSuppression)
    (request : CaseAnalysisRequest) (answer : Option InvestigationReport) where
  -- `generate_investigation_report` and what follows; a call that fails raises.
  unfoldable pub assess : Option InvestigationReport → Desk → Desk × Option InvestigationReport
  unfolding store_assessment
  assess none desk = (record desk { model_calls = suc desk.model_calls }, none)
  assess (some report) desk = (
    record {
      results = store_assessment threshold request.case request.cmdb_matched report ∷ desk.results;
      analysis = some report;
      model_calls = suc desk.model_calls;
    },
    some report,
  )

  -- With the suppression that was found.
  unfoldable pub screen : Option TriageSuppression → Desk → Desk × Option InvestigationReport
  unfolding assess
  screen none desk = assess answer desk
  screen (some s) desk =
      (record desk { results = suppressed_result s ∷ desk.results }, some (suppressed_report s))

  unfoldable pub run_analysis : Desk → Desk × Option InvestigationReport
  unfolding screen find_matching_suppression
  run_analysis desk = screen (find_matching_suppression in_network now rows request.payload) desk

  -- One more result, which an enabled, unexpired and matching suppression decides without the model.
  abbrev pub IsSuppressed : Desk → Desk × Option InvestigationReport → Type 0
  IsSuppressed before (after, returned) =
      (after.model_calls ≡ before.model_calls)
      × (after.analysis ≡ before.analysis)
      × ((s : TriageSuppression) × In s rows
          × (s.enabled ≡ true)
          × (now < s.expires_at)
          × (matches in_network s request.payload ≡ true)
          × ((row : TriageResult) × (after.results ≡ row ∷ before.results)
              × (row.suppressed_by ≡ some s.id)
              × (row.verdict ≡ false_positive)
              × (row.false_positive_class ≡ some suppressed)
              × (row.needs_human ≡ false)))
      × ((report : InvestigationReport) × (returned ≡ some report)
          × (report.verdict ≡ codes "false_positive"))

  -- What the model's answer leaves: without a report nothing, else its assessment.
  abbrev pub IsStored : Desk → Desk → Type 0
  IsStored before after =
      ((answer ≡ none) × (after.results ≡ before.results) × (after.analysis ≡ before.analysis))
      ⊎ ((report : InvestigationReport) × (answer ≡ some report)
          × (after.results
              ≡ store_assessment threshold request.case request.cmdb_matched report
                ∷ before.results)
          × (after.analysis ≡ some report))

  -- No suppression is enabled, unexpired and matches, and the model is asked once.
  abbrev pub IsAssessed : Desk → Desk × Option InvestigationReport → Type 0
  IsAssessed before (after, returned) =
      (after.model_calls ≡ suc before.model_calls)
      × All
          (λ s.
            (s.enabled && (ltb now s.expires_at && matches in_network s request.payload)) ≡ false)
          rows
      × IsStored before after
      × (returned ≡ answer)
