-- ===== src/Triage/Assessment.antt =====
-- backend/apps/agentic/triage/assessment.py, with `detect_unverified_asset_claim` of
-- backend/apps/agentic/triage/asset.py. Confidences are hundredths; of a report, and of the row that is
-- stored, the parts that are only passed on are left out.
pub mod Sound
use soc_one.Base.{
  ℕ, zero, suc, ◌+◌, Bool, true, false, ◌&&◌, ◌||◌, not, Option, none, some, List, [], ◌∷◌, ◌++◌,
  String, ◌==◌, ltb, leb, if◌then◌else◌, any, keep, length, map, min,
}
use soc_one.Base.Sort.{sort_by}
use soc_one.Base.Texts.{codes, lower, strip, same_codes, is_blank, is_part, has_prefix, text_le}
use soc_one.Triage.Suppression.{Text}

pub data TriageVerdict : Type 0 where
  true_positive false_positive benign_true_positive needs_more_info : TriageVerdict

pub data FalsePositiveClass : Type 0 where
  suppressed verified_legitimate rule_misconfiguration other : FalsePositiveClass

-- The first entry of the table whose key is the text.
unfoldable pub look_up_text : {A : Type 0} → List (Text × A) → Text → Option A
unfolding same_codes
look_up_text [] text = none
look_up_text (entry ∷ table) text =
    let rest = look_up_text table text in if same_codes entry.0 text then some entry.1 else rest

-- `VALID_VERDICTS`, each by its value, and `VERDICT_ALIASES`.
abbrev pub verdict_names : List (Text × TriageVerdict)
verdict_names =
    (codes "true_positive", true_positive)
    ∷ (codes "false_positive", false_positive)
    ∷ (codes "benign_true_positive", benign_true_positive)
    ∷ (codes "needs_more_info", needs_more_info)
    ∷ (codes "true positive", true_positive)
    ∷ (codes "suspicious", needs_more_info)
    ∷ (codes "benign", benign_true_positive)
    ∷ (codes "benign true positive", benign_true_positive)
    ∷ (codes "false positive", false_positive)
    ∷ (codes "insufficient data", needs_more_info)
    ∷ []

abbrev pub class_names : List (Text × FalsePositiveClass)
class_names =
    (codes "suppressed", suppressed)
    ∷ (codes "verified_legitimate", verified_legitimate)
    ∷ (codes "rule_misconfiguration", rule_misconfiguration)
    ∷ (codes "other", other)
    ∷ []

abbrev pub confidence_text_to_score : List (Text × ℕ)
confidence_text_to_score =
    (codes "high", 90) ∷ (codes "medium", 60) ∷ (codes "low", 30) ∷ (codes "unknown", 0) ∷ []

abbrev pub or_else : {A : Type 0} → Option A → A → A
or_else none a = a
or_else (some b) a = b

unfoldable pub normalise_verdict : Text → TriageVerdict
unfolding look_up_text lower strip
normalise_verdict raw = or_else (look_up_text verdict_names (lower (strip raw))) needs_more_info

pub record EvidenceFinding : Type 0 where
  pub finding_type : Text
  pub subject : Text

pub record InvestigationReport : Type 0 where
  pub verdict : Text
  pub false_positive_class : Text
  pub confidence : Text
  pub confidence_score : ℕ
  pub digest : Text
  pub evidence_findings : List EvidenceFinding
  pub attack_chain : List Text
  pub remediations : List Text

unfoldable pub confidence_score_of : InvestigationReport → ℕ
unfolding look_up_text lower strip
confidence_score_of report =
    if ltb 0 report.confidence_score
    then min 100 report.confidence_score
    else or_else (look_up_text confidence_text_to_score (lower (strip report.confidence))) 0

-- The readable ids of a Case, of its alerts and of their artifacts.
pub record CaseRecord : Type 0 where
  pub case_id : Text
  pub alerts : List (Text × List Text)

abbrev alert_references : List (Text × List Text) → List Text
alert_references [] = []
alert_references (alert ∷ alerts) = alert.0 ∷ (alert.1 ++ alert_references alerts)

unfoldable pub known_references : CaseRecord → List Text
known_references case = keep (λ r. not (is_blank r)) (case.case_id ∷ alert_references case.alerts)

pub record EvidenceItem : Type 0 where
  pub kind : Text
  pub source : Text
  pub reference : Text

abbrev pub listed_in : List Text → Text → Bool
listed_in texts text = any (λ t. same_codes t text) texts

-- A readable id that the Case does not have.
abbrev pub is_invented : List Text → Text → Bool
is_invented allowed reference =
    not (is_blank reference)
    && not (listed_in allowed reference)
    && (has_prefix (codes "case_") reference
        || has_prefix (codes "alert_") reference
        || has_prefix (codes "artifact_") reference)

abbrev pub item_of : List Text → EvidenceFinding → EvidenceItem
item_of allowed finding =
    let reference = strip finding.subject in
    record {
      kind = finding.finding_type;
      source = finding.subject;
      reference = if listed_in allowed reference then reference else [];
    }

-- What is kept, and what is rejected.
unfoldable pub split_evidence :
    List Text → List EvidenceFinding → List EvidenceItem × List EvidenceFinding
unfolding strip same_codes has_prefix
split_evidence allowed [] = ([], [])
split_evidence allowed (finding ∷ findings) =
    let (kept, rejected) = split_evidence allowed findings in
    if is_invented allowed (strip finding.subject)
    then (kept, finding ∷ rejected)
    else (item_of allowed finding ∷ kept, rejected)

unfoldable pub evidence_from_report :
    InvestigationReport → CaseRecord → List EvidenceItem × List EvidenceFinding
unfolding split_evidence known_references
evidence_from_report report case = split_evidence (known_references case) report.evidence_findings

pub data ActionCategory : Type 0 where
  contain close investigate : ActionCategory

unfoldable pub action_category : Text → ActionCategory
unfolding lower is_part
action_category action_type =
    let text = lower action_type in
    let mentions : List Text → Bool = any (λ token. is_part token text) in
    if mentions (
      codes "contain" ∷ codes "isolate" ∷ codes "block" ∷ codes "quarantine" ∷ codes "disable" ∷ [])
    then contain
    else if mentions (codes "close" ∷ codes "monitor" ∷ codes "no action" ∷ [])
    then close
    else investigate

-- `_techniques`: the stages of the chain, each once.
unfoldable pub techniques : List Text → List Text → List Text
unfolding same_codes
techniques [] values = values
techniques (stage ∷ stages) values =
    let more = techniques stages (values ++ stage ∷ []) in
    let rest = techniques stages values in
    if is_blank stage || listed_in values stage then rest else more

unfoldable pub kill_chain : List Text → Text
kill_chain [] = []
kill_chain (stage ∷ []) = stage
kill_chain (stage ∷ next ∷ stages) = kill_chain (next ∷ stages)

-- `ROLE_CLAIM_TERMS` of ASCII letters; texts here hold no others.
abbrev pub role_claim_terms : List Text
role_claim_terms =
    codes "server"
    ∷ codes "production"
    ∷ codes "prod"
    ∷ codes "workstation"
    ∷ codes "domain controller"
    ∷ codes "database"
    ∷ []

pub data QualityFlag : Type 0 where
  unverified_asset_claim : List Text → QualityFlag
  rejected_evidence : ℕ → QualityFlag

abbrev claim_flags : List Text → List QualityFlag
claim_flags [] = []
claim_flags (hit ∷ hits) = unverified_asset_claim (hit ∷ hits) ∷ []

unfoldable pub detect_unverified_asset_claim : Text → Bool → List QualityFlag
unfolding lower is_part sort_by text_le
detect_unverified_asset_claim text cmdb_matched =
    if cmdb_matched
    then []
    else claim_flags (sort_by text_le (keep (λ term. is_part term (lower text)) role_claim_terms))

abbrev rejection_flags : ℕ → List QualityFlag
rejection_flags zero = []
rejection_flags (suc n) = rejected_evidence (suc n) ∷ []

pub record TriageResult : Type 0 where
  pub verdict : TriageVerdict
  pub false_positive_class : Option FalsePositiveClass
  pub confidence : ℕ
  pub needs_human : Bool
  pub mitre_techniques : List Text
  pub kill_chain_phase : Text
  pub evidence : List EvidenceItem
  pub recommended_actions : List ActionCategory
  pub quality_flags : List QualityFlag
  pub error : String
  pub suppressed_by : Option ℕ

-- The class that is stored, with the error.
unfoldable pub settle_class :
    TriageVerdict → Option FalsePositiveClass → Option FalsePositiveClass × String
settle_class false_positive none =
    (some other, "Report returned false_positive without a valid class; defaulted to other.")
settle_class _ class = (class, "")

abbrev pub asks_for_more : TriageVerdict → Bool
asks_for_more needs_more_info = true
asks_for_more _ = false

unfoldable pub needs_review : ℕ → ℕ → TriageVerdict → Bool
needs_review threshold score verdict = ltb score threshold || asks_for_more verdict

unfoldable pub store_assessment : ℕ → CaseRecord → Bool → InvestigationReport → TriageResult
unfolding normalise_verdict confidence_score_of settle_class evidence_from_report
    detect_unverified_asset_claim needs_review techniques kill_chain action_category look_up_text
    lower strip
store_assessment threshold case cmdb_matched report =
    let verdict = normalise_verdict report.verdict in
    let score = confidence_score_of report in
    let (class, error) =
      settle_class verdict (look_up_text class_names (lower (strip report.false_positive_class))) in
    let (kept, rejected) = evidence_from_report report case in
    record {
      verdict = verdict;
      false_positive_class = class;
      confidence = score;
      needs_human = needs_review threshold score verdict;
      mitre_techniques = techniques report.attack_chain [];
      kill_chain_phase = kill_chain report.attack_chain;
      evidence = kept;
      recommended_actions = map action_category report.remediations;
      quality_flags =
          detect_unverified_asset_claim report.digest cmdb_matched
          ++ rejection_flags (length rejected);
      error = error;
      suppressed_by = none;
    }
