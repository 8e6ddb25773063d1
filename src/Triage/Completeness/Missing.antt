-- ===== src/Triage/Completeness/Missing.antt =====
-- Which fields backend/apps/agentic/triage/completeness.py reports as missing.
use soc_one.Base.{
  In-append, ◌≡◌, refl, ◌⊎◌, inl, inr, ◌↔◌, Bool, true, false, ◌&&◌, ◌||◌, not, List, [], ◌∷◌, ◌++◌,
  ℕ, if◌then◌else◌, any, keep, In, In-keep, arith, Bool-cases,
}
use soc_one.Base.Texts.{codes, strip, same_codes, is_blank}
use soc_one.Ioc.Sources.{Config, Services, State}
use soc_one.Triage.Suppression.{Text, Artifact}
use soc_one.Triage.Asset.{Records}
use soc_one.Triage.Completeness.{
  SourceAlert, Family, Field, hostname, file_hash, process, command_line, parent_process, username,
  hostname_or_ip, asset_context, required_fields, checks, key_of, grouped, artifacts_by_type,
  values_at, source_family, has_any, present, is_matched, missing_fields, ensure_context,
}

-- An artifact of the type, with a value.
abbrev pub is_typed : Text → Artifact → Bool
is_typed key a = same_codes (key_of a) key && not (is_blank (strip a.value))

-- The Case has an artifact of one of the field's types, with a value.
abbrev pub has_field : List SourceAlert → Field → Bool
has_field alerts field =
    any (λ key. any (λ (alert : SourceAlert). any (is_typed key) alert.artifacts) alerts)
      (checks field)

module _ (key : Text) (named : is_blank key ≡ false) where
  blank_key : (text : Text) → is_blank text ≡ true → same_codes text key ≡ false
  unfolding same_codes
  blank_key [] h = go key named
    where
      go : (k : Text) → is_blank k ≡ false → same_codes [] k ≡ false
      go [] h = cc
      go (c ∷ cs) h = refl
  blank_key (c ∷ cs) h = cc

  grouped-values_at :
      (artifacts : List Artifact)
      → has_any (values_at key (grouped artifacts)) ≡ any (is_typed key) artifacts
  unfolding values_at
  grouped-values_at [] = refl
  grouped-values_at (a ∷ artifacts) = elim (Bool-cases (is_blank (key_of a))) [
    | inl e ↦ ground (arith, e, blank_key (key_of a) e, grouped-values_at artifacts)
    | inr e ↦ ground (arith, e, grouped-values_at artifacts)
  ]

  append-values_at :
      (xs ys : List (Text × Text))
      → has_any (values_at key (xs ++ ys))
        ≡ (has_any (values_at key xs) || has_any (values_at key ys))
  unfolding values_at
  append-values_at [] ys = refl
  append-values_at (x ∷ xs) ys = ground (arith, append-values_at xs ys)

  artifacts_by_type-values_at :
      (alerts : List SourceAlert)
      → has_any (values_at key (artifacts_by_type alerts))
        ≡ any (λ (alert : SourceAlert). any (is_typed key) alert.artifacts) alerts
  unfolding artifacts_by_type values_at
  artifacts_by_type-values_at [] = refl
  artifacts_by_type-values_at (alert ∷ alerts) = ground (
    arith,
    append-values_at (grouped alert.artifacts) (artifacts_by_type alerts),
    grouped-values_at alert.artifacts,
    artifacts_by_type-values_at alerts,
  )

present-has_field :
    (alerts : List SourceAlert) (field : Field)
    → present field (artifacts_by_type alerts) ≡ has_field alerts field
unfolding present checks
present-has_field alerts hostname =
    rw (artifacts_by_type-values_at (codes "hostname") refl alerts) refl
present-has_field alerts file_hash =
    rw (artifacts_by_type-values_at (codes "hash") refl alerts) refl
present-has_field alerts process =
    rw (artifacts_by_type-values_at (codes "process name") refl alerts) refl
present-has_field alerts command_line =
    rw (artifacts_by_type-values_at (codes "command line") refl alerts) refl
present-has_field alerts parent_process =
    rw (artifacts_by_type-values_at (codes "parent process name") refl alerts) refl
present-has_field alerts username =
    rw
      (
        artifacts_by_type-values_at (codes "user name") refl alerts,
        artifacts_by_type-values_at (codes "username") refl alerts,
      )
      refl
present-has_field alerts hostname_or_ip =
    rw
      (
        artifacts_by_type-values_at (codes "hostname") refl alerts,
        artifacts_by_type-values_at (codes "ip address") refl alerts,
      )
      refl
present-has_field alerts asset_context = refl

In-unmatched :
    (field : Field) (matched : Bool)
    → In field (if matched then [] else asset_context ∷ [])
      ↔ ((field ≡ asset_context) × (matched ≡ false))
In-unmatched field true = (λ i. elim i [ ], λ h. cc)
In-unmatched field false = (λ i. elim i [ inl e ↦ (e, refl) | inr j ↦ elim j [ ] ], λ h. inl h.0)

missing_fields_iff :
    (alerts : List SourceAlert) (family : Family) (matched : Bool) (field : Field)
    → In field (missing_fields family (artifacts_by_type alerts) matched) ↔ (
        (In field (required_fields family) × (has_field alerts field ≡ false))
        ⊎ ((field ≡ asset_context) × (matched ≡ false)))
unfolding missing_fields
missing_fields_iff alerts family matched field =
    let artifacts = artifacts_by_type alerts in
    let absent : Field → Bool = λ f. not (present f artifacts) in
    let split =
      In-append field (keep absent (required_fields family))
        (if matched then [] else asset_context ∷ []) in
    let kept = In-keep absent field (required_fields family) in
    let same = present-has_field alerts field in
    let last = In-unmatched field matched in
    (
      λ i. elim (split.0 i) [
        | inl j ↦ let (r, a) = kept.0 j in inl (r, ground (arith, same, a))
        | inr j ↦ inr (last.0 j)
      ],
      λ h. split.1 (elim h [
        | inl (r, a) ↦ inl (kept.1 (r, ground (arith, same, a)))
        | inr u ↦ inr (last.1 u)
      ]),
    )

-- What is reported as missing is just what is: a field that the Case's source has to have is reported if and
-- only if no artifact of one of its types has a value, and the asset context if and only if the CMDB did not
-- match.
pub ensure_context-iff-has_field :
    (services : Services) (config : Config) (now : ℕ) (records : Records)
    (alerts : List SourceAlert) (state : State) (field : Field)
    → let after = ensure_context services config now records alerts state in
      In field after.missing ↔ (
        (In field (required_fields (source_family alerts)) × (has_field alerts field ≡ false))
        ⊎ ((field ≡ asset_context) × (is_matched after.context ≡ false)))
unfolding ensure_context
ensure_context-iff-has_field services config now records alerts state field =
    missing_fields_iff alerts (source_family alerts)
      (is_matched (ensure_context services config now records alerts state).context) field
