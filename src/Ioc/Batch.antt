-- ===== src/Ioc/Batch.antt =====
-- `verify_bulk` and `verify_for_case` of backend/apps/agentic/ioc/service.py.
use soc_one.Base.{
  ℕ, suc, ◌≤◌, ◌≡◌, Bool, false, ◌||◌, List, [], ◌∷◌, ◌++◌, ◌==◌, leb, if◌then◌else◌, length,
  length-append, max, arith, Bool-cases, ◌<◌, inl, inr,
}
use soc_one.Base.Texts.{strip, is_blank}
use soc_one.Ioc.Normalize.{Text, classify}
use soc_one.Ioc.References.{listed}
use soc_one.Ioc.Sources.{IocVerification, Config, Services, State}
use soc_one.Ioc.Verify.{type_code, verify_indicator}

-- The answers so far, the values seen, and the state.
pub record Batch : Type 0 where
  pub records : List IocVerification
  pub seen : List Text
  pub state : State

below_limit : (limit n : ℕ) → leb limit n ≡ false → n < max 1 limit
below_limit limit n h = ground arith

module _ (services : Services) (config : Config) (now : ℕ) where
  unfoldable pub verify_bulk : List Text → Bool → State → List IocVerification × State
  unfolding verify_indicator
  verify_bulk [] force state = ([], state)
  verify_bulk (value ∷ values) force state =
      let (row, after) = verify_indicator services config now value force state in
      let (rows, last) = verify_bulk values force after in (row ∷ rows, last)

  -- The look-up of one artifact's value, not seen before.
  unfoldable pub verify_artifact : Text → Batch → Batch
  unfolding verify_indicator
  verify_artifact value batch =
      let (row, after) =
        verify_indicator services config now (classify services.book value).1 false batch.state in
      record { records = batch.records ++ row ∷ []; seen = value ∷ batch.seen; state = after }

  abbrev is_skipped : Text → List Text → Bool
  is_skipped value seen =
      is_blank value || listed seen value || type_code (classify services.book value).0 == 7

  -- The loop over the values of all artifacts of the Case's alerts.
  unfoldable pub verify_artifacts : ℕ → List Text → Batch → Batch
  unfolding verify_artifact strip type_code classify
  verify_artifacts limit [] batch = batch
  verify_artifacts limit (raw ∷ values) batch =
      let more = verify_artifact (strip raw) batch in
      let next =
        if leb limit (length more.records) then more else verify_artifacts limit values more in
      let rest = verify_artifacts limit values batch in
      if is_skipped (strip raw) batch.seen then rest else next

  unfoldable pub verify_for_case : ℕ → List Text → State → List IocVerification × State
  unfolding verify_artifacts
  verify_for_case limit values state =
      let batch = verify_artifacts limit values record { records = []; seen = []; state = state } in
      (batch.records, batch.state)

  verify_artifact-length :
      (value : Text) (batch : Batch)
      → length (verify_artifact value batch).records ≡ suc (length batch.records)
  unfolding verify_artifact
  verify_artifact-length value batch = rw (length-append batch.records) (omega arith)

  verify_artifacts-length :
      (limit : ℕ) (values : List Text) (batch : Batch)
      → (length batch.records < max 1 limit)
      → length (verify_artifacts limit values batch).records ≤ max 1 limit
  unfolding verify_artifacts
  verify_artifacts-length limit [] batch h = omega (arith, h)
  verify_artifacts-length limit (raw ∷ values) batch h =
      let more = verify_artifact (strip raw) batch in
      let one = verify_artifact-length (strip raw) batch in
      elim (Bool-cases (is_skipped (strip raw) batch.seen)) [
        | inl e ↦ rw e (verify_artifacts-length limit values batch h)
        | inr e ↦ rw e (elim (Bool-cases (leb limit (length more.records))) [
          | inl f ↦ rw f (omega (arith, one, h))
          | inr f ↦ rw f (
              verify_artifacts-length limit values more (below_limit limit (length more.records) f))
        ])
      ]

  -- A Case has at most as many of its indicators verified as the limit says, and one where that is 0.
  pub verify_for_case-length :
      (limit : ℕ) (values : List Text) (state : State)
      → length (verify_for_case limit values state).0 ≤ max 1 limit
  unfolding verify_for_case
  verify_for_case-length limit values state =
      verify_artifacts-length limit values record { records = []; seen = []; state = state }
        (ground arith)
