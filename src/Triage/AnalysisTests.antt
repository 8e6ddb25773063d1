-- ===== src/Triage/AnalysisTests.antt =====
-- The assessment of a Case on concrete inputs.
use soc_one.Base.{List, ◌≤◌, ◌≡◌, ◌⊎◌, ◌↔◌, Bool, true, false, none, some, [], ◌∷◌, In}
use soc_one.Base.Texts.{codes, same_codes}
use soc_one.Triage.Suppression.{Text, rule, TriageSuppression}
use soc_one.Triage.Assessment.{
  asks_for_more, FalsePositiveClass, InvestigationReport, CaseRecord, store_assessment,
}
use soc_one.Triage.Assessment.Sound.{accuses_rule, store_assessment-IsReliable}
use soc_one.Triage.Asset.{CmdbResult, Records}
use soc_one.Ioc.Tests.{world, config, start}
use soc_one.Triage.Completeness.{
  SourceAlert, file_hash, asset_context, required_fields, source_family, is_matched, ensure_context,
}
use soc_one.Triage.Completeness.Missing.{has_field, ensure_context-iff-has_field}
use soc_one.Triage.Analysis.{Desk, CaseAnalysisRequest}

abbrev case : CaseRecord
case = record { case_id = codes "case_1"; alerts = (codes "alert_1", codes "artifact_1" ∷ []) ∷ [] }

abbrev report : InvestigationReport
report = record {
  verdict = codes " False Positive ";
  false_positive_class = codes "none";
  confidence = codes "High";
  confidence_score = 0;
  digest = codes "a production server";
  evidence_findings =
      record { finding_type = codes "log"; subject = codes "alert_1" }
      ∷ record { finding_type = codes "log"; subject = codes "alert_9" }
      ∷ [];
  attack_chain = [];
  remediations = codes "Isolate host" ∷ [];
}

store_assessment-IsReliable_example :
    let result = store_assessment 60 case false report in
    ((result.needs_human ≡ true)
      ⊎ ((60 ≤ result.confidence) × (asks_for_more result.verdict ≡ false)))
    × (result.confidence ≤ 100)
    × ((accuses_rule result.verdict ≡ false)
        ⊎ ((c : FalsePositiveClass) × (result.false_positive_class ≡ some c)))
store_assessment-IsReliable_example = store_assessment-IsReliable 60 case false report

abbrev in_network : Text → Text → Bool
in_network address network = same_codes address network

abbrev scanner : TriageSuppression
scanner = record {
  id = 1;
  match_type = rule;
  pattern = codes "Scan";
  reason = codes "planned";
  expires_at = 50;
  enabled = true;
}

abbrev request : CaseAnalysisRequest
request = record {
  payload = record {
    alerts = record { rule_name = codes "Port scan"; analytic_name = []; artifacts = [] } ∷ [];
    artifacts = [];
  };
  case = case;
  cmdb_matched = false;
}

abbrev desk : Desk
desk = record { results = []; analysis = none; model_calls = 0 }

abbrev mocked : CmdbResult
mocked = record { provider = codes "Mock"; asset = none; business = none }

abbrev records : Records
records = record {
  look_up = λ hostname. mocked ∷ [];
  fetch_computer_object = λ hostname. none;
  search_for = λ pattern name. true;
  naming_rules =
      record {
        pattern = codes "^srv";
        device_type = codes "server";
        environment = codes "production";
        owner = [];
        criticality = [];
      }
      ∷ [];
}

abbrev alerts : List SourceAlert
alerts =
    record {
      product_category = codes "EDR";
      artifacts = record { type = codes "Hostname"; value = codes "srv-1" } ∷ [];
    }
    ∷ []

ensure_context-iff-has_field_example :
    let after = ensure_context world config 7 records alerts start in
    In file_hash after.missing ↔ (
      (In file_hash (required_fields (source_family alerts)) × (has_field alerts file_hash ≡ false))
      ⊎ ((file_hash ≡ asset_context) × (is_matched after.context ≡ false)))
ensure_context-iff-has_field_example =
    ensure_context-iff-has_field world config 7 records alerts start file_hash
