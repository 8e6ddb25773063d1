-- ===== src/Hunting/Conclude.antt =====
-- `conclude_hypothesis` of backend/apps/agentic/hunting/service.py. How a query's id is written is an
-- argument.
use soc_one.Base.{
  ℕ, ◌≡◌, refl, ap, inl, inr, Bool, true, false, ◌&&◌, List, [], ◌∷◌, if◌then◌else◌, any, keep, map,
  In, In-keep, map-In, arith, Bool-cases,
}
use soc_one.Base.Texts.{codes, lower, strip, same_codes}
use soc_one.Hunting.Plan.{Text, succeeded, HuntQuery}

pub data Conclusion : Type 0 where
  confirmed refuted inconclusive : Conclusion

pub record Evidence : Type 0 where
  pub kind : Text
  pub reference : Text
  pub note : Text

pub record FindingOutput : Type 0 where
  pub conclusion : Text
  pub evidence : List Evidence

pub record Finding : Type 0 where
  pub conclusion : Conclusion
  pub evidence : List Evidence

abbrev pub is_known : (ℕ → Text) → List HuntQuery → Text → Bool
is_known written queries reference = any (λ q. same_codes (written q.id) reference) queries

unfoldable pub is_valid : (ℕ → Text) → List HuntQuery → Evidence → Bool
unfolding strip same_codes
is_valid written queries item =
    same_codes item.kind (codes "hunt_query") && is_known written queries (strip item.reference)

unfoldable pub kept_item : Evidence → Evidence
unfolding strip
kept_item item = record item { reference = strip item.reference }

unfoldable pub valid_evidence : (ℕ → Text) → List HuntQuery → List Evidence → List Evidence
unfolding is_valid kept_item
valid_evidence written queries evidence = map kept_item (keep (is_valid written queries) evidence)

unfoldable pub read_conclusion : Text → Conclusion
unfolding lower strip same_codes
read_conclusion text =
    let name = lower (strip text) in
    if same_codes name (codes "confirmed")
    then confirmed
    else if same_codes name (codes "refuted")
    then refuted
    else inconclusive

unfoldable pub is_executed : HuntQuery → Bool
is_executed q = elim q.status [ succeeded ↦ true | _ ↦ false ]

-- The two downgrades.
unfoldable pub settle : Conclusion → List Evidence → List HuntQuery → Conclusion
settle confirmed [] executed = inconclusive
settle confirmed (e ∷ evidence) executed = confirmed
settle refuted evidence [] = inconclusive
settle refuted evidence (q ∷ executed) = refuted
settle inconclusive evidence executed = inconclusive

unfoldable pub conclude_hypothesis : (ℕ → Text) → List HuntQuery → FindingOutput → Finding
unfolding read_conclusion settle valid_evidence is_executed
conclude_hypothesis written queries output =
    let evidence = valid_evidence written queries output.evidence in
    record {
      conclusion = settle (read_conclusion output.conclusion) evidence (keep is_executed queries);
      evidence = evidence;
    }

settle-confirmed :
    (c : Conclusion) (evidence : List Evidence) (executed : List HuntQuery)
    → settle c evidence executed ≡ confirmed
    → (e : Evidence) × In e evidence
unfolding settle
settle-confirmed confirmed [] executed h = cc
settle-confirmed confirmed (e ∷ evidence) executed h = (e, inl refl)
settle-confirmed refuted evidence [] h = cc
settle-confirmed refuted evidence (q ∷ executed) h = cc
settle-confirmed inconclusive evidence executed h = cc

settle-refuted :
    (c : Conclusion) (evidence : List Evidence) (executed : List HuntQuery)
    → settle c evidence executed ≡ refuted
    → (q : HuntQuery) × In q executed
unfolding settle
settle-refuted confirmed [] executed h = cc
settle-refuted confirmed (e ∷ evidence) executed h = cc
settle-refuted refuted evidence [] h = cc
settle-refuted refuted evidence (q ∷ executed) h = (q, inl refl)
settle-refuted inconclusive evidence executed h = cc

known-In :
    (written : ℕ → Text) (queries : List HuntQuery) (reference : Text)
    → is_known written queries reference ≡ true
    → (q : HuntQuery) × In q queries × (same_codes (written q.id) reference ≡ true)
known-In written [] reference h = cc
known-In written (q ∷ queries) reference h =
    elim (Bool-cases (same_codes (written q.id) reference)) [
      | inl e ↦ (q, inl refl, e)
      | inr e ↦ let (r, i, t) = known-In written queries reference (ground arith) in (r, inr i, t)
    ]

valid_evidence-known :
    (written : ℕ → Text) (queries : List HuntQuery) (evidence : List Evidence) (e : Evidence)
    → In e (valid_evidence written queries evidence)
    → is_known written queries e.reference ≡ true
unfolding valid_evidence is_valid kept_item
valid_evidence-known written queries evidence e i =
    let (x, j, same) = map-In kept_item e (keep (is_valid written queries) evidence) i in
    let (_, v) = (In-keep (is_valid written queries) x evidence).0 j in
    let reference : e.reference ≡ strip x.reference = ap (λ (z : Evidence). z.reference) same in
    rw reference (ground (arith, v))

is_executed-succeeded : (q : HuntQuery) → is_executed q ≡ true → q.status ≡ succeeded
unfolding is_executed
is_executed-succeeded q h = ground arith

module _ (written : ℕ → Text) (queries : List HuntQuery) (output : FindingOutput) where
  -- A confirmed hypothesis rests on evidence that points at one of its own queries: the model's word
  -- alone does not confirm it.
  pub conclude_hypothesis-confirmed :
      (conclude_hypothesis written queries output).conclusion ≡ confirmed
      → (e : Evidence) × In e (conclude_hypothesis written queries output).evidence
        × ((q : HuntQuery) × In q queries × (same_codes (written q.id) e.reference ≡ true))
  unfolding conclude_hypothesis
  conclude_hypothesis-confirmed h =
      let evidence = valid_evidence written queries output.evidence in
      let (e, i) =
        settle-confirmed (read_conclusion output.conclusion) evidence (keep is_executed queries)
          h in
      (
        e,
        i,
        known-In written queries e.reference
            (valid_evidence-known written queries output.evidence e i),
      )

  -- A refuted hypothesis has a query that has run and succeeded: where nothing ran nothing is disproved.
  pub conclude_hypothesis-refuted :
      (conclude_hypothesis written queries output).conclusion ≡ refuted
      → (q : HuntQuery) × In q queries × (q.status ≡ succeeded)
  unfolding conclude_hypothesis
  conclude_hypothesis-refuted h =
      let evidence = valid_evidence written queries output.evidence in
      let (q, i) =
        settle-refuted (read_conclusion output.conclusion) evidence (keep is_executed queries) h in
      let (j, t) = (In-keep is_executed q queries).0 i in (q, j, is_executed-succeeded q t)
