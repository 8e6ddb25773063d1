-- ===== src/Triage/Completeness.antt =====
-- `ensure_context` of backend/apps/agentic/triage/completeness.py, on top of the verification of indicators and
-- the resolution of assets. What was tried for a missing field and the question about it are texts of the
-- field and are left out.
pub mod Missing
use soc_one.Base.{
  ℕ, zero, suc, ◌+◌, ◌≡◌, refl, sym, subst, ap, ◌∙◌, ◌⊎◌, inl, inr, ◌↔◌, Bool, true, false, ◌&&◌,
  ◌||◌, not, Option, none, some, List, [], ◌∷◌, ◌++◌, if◌then◌else◌, any, keep, take, In, In-keep,
  arith, Bool-cases, if-cases, Option-cases,
}
use soc_one.Base.Texts.{codes, lower, strip, same_codes, is_blank, is_part}
use soc_one.Ioc.Normalize.{classify}
use soc_one.Ioc.Sources.{Verdict, Config, Services, State, IocVerification}
use soc_one.Ioc.Verify.{get_cached, verify_indicator}
use soc_one.Triage.Suppression.{Text, Artifact}
use soc_one.Triage.Asset.{AssetContext, Source, Records, resolve_asset_context}

pub record SourceAlert : Type 0 where
  pub product_category : Text
  pub artifacts : List Artifact

pub data Family : Type 0 where
  edr siem default : Family

pub data Field : Type 0 where
  hostname file_hash process command_line parent_process username hostname_or_ip asset_context :
      Field

-- `REQUIRED_FIELDS`
unfoldable pub required_fields : Family → List Field
required_fields edr = hostname ∷ file_hash ∷ process ∷ []
required_fields siem = hostname_or_ip ∷ []
required_fields default = hostname_or_ip ∷ []

-- The types of artifacts that hold a field.
unfoldable pub checks : Field → List Text
checks hostname = codes "hostname" ∷ []
checks file_hash = codes "hash" ∷ []
checks process = codes "process name" ∷ []
checks command_line = codes "command line" ∷ []
checks parent_process = codes "parent process name" ∷ []
checks username = codes "user name" ∷ codes "username" ∷ []
checks hostname_or_ip = codes "hostname" ∷ codes "ip address" ∷ []
checks asset_context = []

abbrev pub key_of : Artifact → Text
key_of a = lower (strip a.type)

-- The keys and the values, in the order of the artifacts; the values of a key are its group.
abbrev pub grouped : List Artifact → List (Text × Text)
grouped [] = []
grouped (a ∷ artifacts) =
    let rest = grouped artifacts in
    if not (is_blank (key_of a)) && not (is_blank (strip a.value))
    then (key_of a, strip a.value) ∷ rest
    else rest

unfoldable pub artifacts_by_type : List SourceAlert → List (Text × Text)
unfolding lower strip
artifacts_by_type [] = []
artifacts_by_type (alert ∷ alerts) = grouped alert.artifacts ++ artifacts_by_type alerts

unfoldable pub values_at : Text → List (Text × Text) → List Text
unfolding same_codes
values_at key [] = []
values_at key (entry ∷ entries) =
    let rest = values_at key entries in if same_codes entry.0 key then entry.1 ∷ rest else rest

unfoldable pub source_family : List SourceAlert → Family
unfolding lower is_part
source_family [] = default
source_family (alert ∷ alerts) =
    let category = lower alert.product_category in
    if is_part (codes "edr") category
    then edr
    else if is_part (codes "siem") category
    then siem
    else default

abbrev pub has_any : List Text → Bool
has_any [] = false
has_any (v ∷ values) = true

unfoldable pub present : Field → List (Text × Text) → Bool
unfolding checks values_at
present field artifacts = any (λ key. has_any (values_at key artifacts)) (checks field)

pub data Attempt : Type 0 where
  skipped : Attempt
  resolved_via : Source → Attempt
  verified : Verdict → Attempt

module _ (services : Services) (config : Config) (now : ℕ) where
  abbrev unless_cached :
      Option IocVerification → List Attempt × State → List Attempt × State → List Attempt × State
  unless_cached none asked left = asked
  unless_cached (some row) asked left = left

  -- Over the first three hashes of the Case.
  unfoldable pub verify_hashes : List Text → State → List Attempt × State
  unfolding classify get_cached verify_indicator
  verify_hashes [] state = ([], state)
  verify_hashes (value ∷ values) state =
      let (kind, normalised) = classify services.book value in
      let (row, after) = verify_indicator services config now normalised false state in
      let (later, last) = verify_hashes values after in
      unless_cached (get_cached services config now kind normalised state.table)
        (verified row.verdict ∷ later, last) (verify_hashes values state)

  abbrev first_text : List Text → Text
  first_text [] = []
  first_text (t ∷ ts) = t

  unfoldable pub attempt_asset_context :
      Records → List (Text × Text) → Option AssetContext × List Attempt
  unfolding resolve_asset_context values_at
  attempt_asset_context records artifacts =
      let name = first_text (values_at (codes "hostname") artifacts) in
      let context = resolve_asset_context records name [] in
      if is_blank name
      then (none, skipped ∷ [])
      else (some context, resolved_via context.asset_context_source ∷ [])

abbrev pub is_matched : Option AssetContext → Bool
is_matched none = false
is_matched (some context) = context.cmdb_matched

-- The fields that are still missing.
unfoldable pub missing_fields : Family → List (Text × Text) → Bool → List Field
unfolding required_fields present
missing_fields family artifacts matched =
    keep (λ field. not (present field artifacts)) (required_fields family)
    ++ (if matched then [] else asset_context ∷ [])

pub record Completed : Type 0 where
  pub context : Option AssetContext
  pub missing : List Field
  pub attempts : List Attempt
  pub state : State

-- The enrichment changes no artifact, so that reading them again gives the same.
unfoldable pub ensure_context :
    Services → Config → ℕ → Records → List SourceAlert → State → Completed
unfolding artifacts_by_type attempt_asset_context verify_hashes missing_fields source_family
    values_at
ensure_context services config now records alerts state =
    let artifacts = artifacts_by_type alerts in
    let (context, tried) = attempt_asset_context services config now records artifacts in
    let (hashed, after) =
      verify_hashes services config now (take 3 (values_at (codes "hash") artifacts)) state in
    record {
      context = context;
      missing = missing_fields (source_family alerts) artifacts (is_matched context);
      attempts = tried ++ hashed;
      state = after;
    }
