-- ===== src/Triage/Assessment/Sound.antt =====
-- What a stored assessment of backend/apps/agentic/triage/assessment.py promises.
use soc_one.Base.{
  ℕ, ◌≤◌, ◌≡◌, refl, ◌⊎◌, inl, inr, Bool, true, false, Option, none, some, List, [], ◌∷◌, ltb, All,
  arith, Bool-cases,
}
use soc_one.Base.Texts.{strip, lower}
use soc_one.Triage.Suppression.{Text}
use soc_one.Triage.Assessment.{
  TriageVerdict, true_positive, false_positive, benign_true_positive, needs_more_info,
  FalsePositiveClass, other, look_up_text, class_names, confidence_text_to_score, or_else,
  normalise_verdict, EvidenceFinding, InvestigationReport, confidence_score_of, CaseRecord,
  EvidenceItem, listed_in, settle_class, needs_review, store_assessment, asks_for_more,
}

abbrev pub accuses_rule : TriageVerdict → Bool
accuses_rule false_positive = true
accuses_rule _ = false

-- No score of the table is above one.
look_up_score :
    (table : List (Text × ℕ)) (text : Text)
    → All (λ e. e.1 ≤ 100) table
    → or_else (look_up_text table text) 0 ≤ 100
unfolding look_up_text
look_up_score [] text h = omega arith
look_up_score (e ∷ table) text h = ground (arith, h.0, look_up_score table text h.1)

confidence_score-le : (report : InvestigationReport) → confidence_score_of report ≤ 100
unfolding confidence_score_of
confidence_score-le report =
    let told =
      look_up_score confidence_text_to_score (lower (strip report.confidence))
        (omega arith, (omega arith, (omega arith, (omega arith, tt)))) in
    ground (arith, told)

settle_class-named :
    (verdict : TriageVerdict) (class : Option FalsePositiveClass)
    → (accuses_rule verdict ≡ false)
      ⊎ ((c : FalsePositiveClass) × ((settle_class verdict class).0 ≡ some c))
unfolding settle_class
settle_class-named true_positive class = inl refl
settle_class-named benign_true_positive class = inl refl
settle_class-named needs_more_info class = inl refl
settle_class-named false_positive none = inr (other, refl)
settle_class-named false_positive (some c) = inr (c, refl)

needs_review-reliable :
    (threshold score : ℕ) (verdict : TriageVerdict)
    → (needs_review threshold score verdict ≡ true)
      ⊎ ((threshold ≤ score) × (asks_for_more verdict ≡ false))
unfolding needs_review
needs_review-reliable threshold score verdict = elim (Bool-cases (ltb score threshold)) [
  | inl e ↦ inl (ground (arith, e))
  | inr e ↦ elim (Bool-cases (asks_for_more verdict)) [
    | inl f ↦ inl (ground (arith, e, f))
    | inr f ↦ inr (ground (arith, e), f)
  ]
]

-- An assessment that no human is asked to review has a confidence of at least the threshold, which is at most
-- one, and a verdict that does not ask for more; and a false positive always has a class.
pub store_assessment-IsReliable :
    (threshold : ℕ) (case : CaseRecord) (cmdb_matched : Bool) (report : InvestigationReport)
    → let result = store_assessment threshold case cmdb_matched report in
      ((result.needs_human ≡ true)
        ⊎ ((threshold ≤ result.confidence) × (asks_for_more result.verdict ≡ false)))
      × (result.confidence ≤ 100)
      × ((accuses_rule result.verdict ≡ false)
          ⊎ ((c : FalsePositiveClass) × (result.false_positive_class ≡ some c)))
unfolding store_assessment
store_assessment-IsReliable threshold case cmdb_matched report =
    let verdict = normalise_verdict report.verdict in
    (
      needs_review-reliable threshold (confidence_score_of report) verdict,
      confidence_score-le report,
      settle_class-named verdict
          (look_up_text class_names (lower (strip report.false_positive_class))),
    )

-- An evidence item refers to nothing, or to a record of the list.
abbrev pub IsCited : List Text → EvidenceItem → Type 0
IsCited allowed item = (item.reference ≡ []) ⊎ (listed_in allowed item.reference ≡ true)

module _ (allowed : List Text) where
  abbrev Split : Type 0
  Split = List EvidenceItem × List EvidenceFinding
