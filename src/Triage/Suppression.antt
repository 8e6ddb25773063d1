-- ===== src/Triage/Suppression.antt =====
-- backend/apps/agentic/triage/suppression.py, on texts of ASCII character codes; an empty text stands for a
-- missing one. Whether an address lies in a network is an argument, the `ipaddress` package's answer: it
-- is false where either does not parse.
use soc_one.Base.{
  ℕ, ◌<◌, ◌≡◌, Bool, true, false, ◌&&◌, ◌||◌, not, Option, none, some, List, [], ◌∷◌, ◌++◌, ltb,
  if◌then◌else◌, any, first, keep, In, In-keep, arith, Bool-cases, inl, inr,
}
use soc_one.Base.Texts.{codes, lower, strip, same_codes, is_part, is_blank}

abbrev pub Text : Type 0
Text = List ℕ

pub record Artifact : Type 0 where
  pub type : Text
  pub value : Text

pub record Alert : Type 0 where
  pub rule_name : Text
  pub analytic_name : Text
  pub artifacts : List Artifact

pub record CasePayload : Type 0 where
  pub alerts : List Alert
  pub artifacts : List Artifact

pub data MatchType : Type 0 where
  rule entity subnet user : MatchType

pub record TriageSuppression : Type 0 where
  pub id : ℕ
  pub match_type : MatchType
  pub pattern : Text
  pub reason : Text
  pub expires_at : ℕ
  pub enabled : Bool

-- `enabled=True, expires_at__gt=timezone.now()`
unfoldable pub is_active : ℕ → TriageSuppression → Bool
is_active now s = s.enabled && ltb now s.expires_at

unfoldable pub active_suppressions : ℕ → List TriageSuppression → List TriageSuppression
unfolding is_active
active_suppressions now rows = keep (is_active now) rows

unfoldable pub name_matches : Text → Text → Bool
unfolding lower strip same_codes is_part
name_matches pattern name =
    let value = lower (strip name) in
    not (is_blank value) && (same_codes value pattern || is_part pattern value)

unfoldable pub matches_rule : Text → CasePayload → Bool
unfolding name_matches lower strip
matches_rule pattern payload =
    let wanted = lower (strip pattern) in
    any (λ a. name_matches wanted a.rule_name || name_matches wanted a.analytic_name) payload.alerts

abbrev values_of : List Artifact → List Text
values_of [] = []
values_of (a ∷ artifacts) =
    let rest = values_of artifacts in
    if is_blank (strip a.value) then rest else strip a.value ∷ rest

abbrev alert_values : List Alert → List Text
alert_values [] = []
alert_values (a ∷ alerts) = values_of a.artifacts ++ alert_values alerts

unfoldable pub entity_values : CasePayload → List Text
unfolding strip
entity_values payload = alert_values payload.alerts ++ values_of payload.artifacts

unfoldable pub matches_entity : Text → CasePayload → Bool
unfolding entity_values lower strip same_codes
matches_entity pattern payload =
    let wanted = lower (strip pattern) in
    any (λ value. same_codes wanted (lower value)) (entity_values payload)

unfoldable pub matches_user : Text → CasePayload → Bool
unfolding lower strip same_codes is_part
matches_user pattern payload =
    let wanted = lower (strip pattern) in
    any
      (λ a.
        any
          (λ b. is_part (codes "user") (lower b.type) && same_codes (lower (strip b.value)) wanted)
          a.artifacts)
      payload.alerts

module _ (in_network : Text → Text → Bool) where
  unfoldable pub matches_subnet : Text → CasePayload → Bool
  unfolding entity_values strip
  matches_subnet pattern payload =
      any (λ value. in_network (strip value) (strip pattern)) (entity_values payload)

  unfoldable pub matches : TriageSuppression → CasePayload → Bool
  unfolding matches_rule matches_entity matches_subnet matches_user
  matches s payload = elim s.match_type [
    | rule ↦ matches_rule s.pattern payload
    | entity ↦ matches_entity s.pattern payload
    | subnet ↦ matches_subnet s.pattern payload
    | user ↦ matches_user s.pattern payload
  ]

  -- The first active suppression that matches; no matcher raises.
  unfoldable pub find_matching_suppression :
      ℕ → List TriageSuppression → CasePayload → Option TriageSuppression
  unfolding active_suppressions matches
  find_matching_suppression now rows payload =
      first (λ s. matches s payload) (active_suppressions now rows)

first-some :
    (p : TriageSuppression → Bool) (xs : List TriageSuppression) (s : TriageSuppression)
    → first p xs ≡ some s
    → In s xs × (p s ≡ true)
first-some p [] s h = cc
first-some p (x ∷ xs) s h = elim (Bool-cases (p x)) [
  | inl e ↦ let same : s ≡ x = ground (arith, h, e) in (inl same, rw same e)
  | inr e ↦ let (i, t) = first-some p xs s (ground (arith, h, e)) in (inr i, t)
]

first-none :
    (p : TriageSuppression → Bool) (xs : List TriageSuppression) (s : TriageSuppression)
    → first p xs ≡ none
    → In s xs
    → p s ≡ false
first-none p [] s h i = elim i [ ]
first-none p (x ∷ xs) s h i = elim (Bool-cases (p x)) [
  | inl e ↦ absurd (ground (arith, h, e))
  | inr e ↦ elim i [ inl q ↦ rw q e | inr j ↦ first-none p xs s (ground (arith, h, e)) j ]
]

module _ (in_network : Text → Text → Bool) (now : ℕ) (rows : List TriageSuppression)
    (payload : CasePayload) (s : TriageSuppression) where
  -- What suppresses a Case is a suppression of the table that is enabled, has not expired and matches.
  pub find_matching_suppression_active :
      find_matching_suppression in_network now rows payload ≡ some s
      → In s rows
        × (s.enabled ≡ true)
        × (now < s.expires_at)
        × (matches in_network s payload ≡ true)
  unfolding find_matching_suppression active_suppressions is_active
  find_matching_suppression_active h =
      let (i, m) =
        first-some (λ q. matches in_network q payload) (active_suppressions now rows) s h in
      let (j, a) = (In-keep (is_active now) s rows).0 i in
      (j, ground (arith, a), ground (arith, a), m)

  -- A Case that nothing suppresses matches no enabled suppression that has not expired.
  pub find_matching_suppression-none :
      find_matching_suppression in_network now rows payload ≡ none
      → In s rows
      → s.enabled ≡ true
      → now < s.expires_at
      → matches in_network s payload ≡ false
  unfolding find_matching_suppression active_suppressions is_active
  find_matching_suppression-none h i on later =
      first-none (λ q. matches in_network q payload) (active_suppressions now rows) s h
        ((In-keep (is_active now) s rows).1 (i, ground (arith, on, later)))
